-- ===== src/Recorder/Image.antt =====
-- Record blocks: what `push_record` writes, `boot_load_record` reads back.
use stm32_async_1wire.Prelude.{
  ℕ, ◌+◌, ◌<◌, Bool, true, false, not, ◌&&◌, ◌||◌, [], get_or, set, ◌==◌, ◌≡◌, refl, ap, arith,
  length, get_or-set_self, all_below, all_below_sound, ==_iff,
}
use stm32_async_1wire.Prelude.Int.{ℤ, pos, negsuc, ltb_ℤ, ◌+ℤ◌, ◌*ℤ◌}
use stm32_async_1wire.Wire.{crc8, u8}
use stm32_async_1wire.Recorder.{Recorder, Job, Slot, no_slot, rec_addr, magic, no_job}
use stm32_async_1wire.Recorder.Records.{
  int8, byte_of, quot10, rem10, decode_temp, record_image, record_ok, slot_at, boot_load_record,
  push_record, commit_job,
}

same_ℤ : ℤ → ℤ → Bool
same_ℤ (pos a) (pos b) = a == b
same_ℤ (negsuc a) (negsuc b) = a == b
same_ℤ _ _ = false

same_ℤ_same : (a b : ℤ) → same_ℤ a b ≡ true → a ≡ b
unfolding same_ℤ
same_ℤ_same (pos a) (pos b) h = ap pos ((==_iff a b).0 h)
same_ℤ_same (negsuc a) (negsuc b) h = ap negsuc ((==_iff a b).0 h)
same_ℤ_same (pos a) (negsuc b) h = absurd (cc h)
same_ℤ_same (negsuc a) (pos b) h = absurd (cc h)

-- The temperatures that a record holds: tenths of a degree from -128.9 to 127.9.
abbrev pub IsStorable : ℤ → Type 0
IsStorable (pos n) = n < 1280
IsStorable (negsuc n) = n < 1289

halves : ℤ → ℤ
halves t = int8 (byte_of (quot10 t)) *ℤ pos 10 +ℤ int8 (byte_of (rem10 t))

tenths_ok : ℕ → Bool
tenths_ok b = not (ltb_ℤ (int8 b) (negsuc 8) || ltb_ℤ (pos 9) (int8 b))

temp_test : ℤ → Bool
temp_test t = same_ℤ (halves t) t && tenths_ok (byte_of (rem10 t))

pos_table : all_below 1280 (λ n. temp_test (pos n)) ≡ true
unfolding all_below temp_test same_ℤ halves tenths_ok byte_of quot10 rem10 ◌+ℤ◌ ◌*ℤ◌
pos_table = refl

neg_table : all_below 1289 (λ n. temp_test (negsuc n)) ≡ true
unfolding all_below temp_test same_ℤ halves tenths_ok byte_of quot10 rem10 ◌+ℤ◌ ◌*ℤ◌
neg_table = refl

temp_holds : (t : ℤ) → IsStorable t → temp_test t ≡ true
temp_holds (pos n) h = all_below_sound 1280 (λ k. temp_test (pos k)) n pos_table h
temp_holds (negsuc n) h = all_below_sound 1289 (λ k. temp_test (negsuc k)) n neg_table h

and_both : (a b : Bool) → (a && b) ≡ true → (a ≡ true) × (b ≡ true)
and_both true b h = (refl, h)
and_both false b h = absurd (cc h)

decode_temp-record_image :
    (slot counter : ℕ) (t : ℤ) (idx : ℕ)
    → IsStorable t
    → decode_temp (record_image slot counter t idx) ≡ t
unfolding decode_temp record_image temp_test halves
decode_temp-record_image slot counter t idx h = same_ℤ_same _ t (and_both _ _ (temp_holds t h)).0

same : (a : ℕ) → (a == a) ≡ true
same a = ground arith

all_true : (a b c : Bool) → a ≡ true → b ≡ true → c ≡ true → (a && true && b && true && c) ≡ true
all_true a b c p q r = rw (p, q, r) refl

record_ok-record_image :
    (slot counter : ℕ) (t : ℤ) (idx : ℕ)
    → IsStorable t
    → record_ok slot (record_image slot counter t idx) ≡ true
unfolding record_ok record_image temp_test tenths_ok crc8
record_ok-record_image slot counter t idx h =
    let tenths : tenths_ok (byte_of (rem10 t)) ≡ true =
      (and_both (same_ℤ (halves t) t) (tenths_ok (byte_of (rem10 t))) (temp_holds t h)).1 in
    all_true _ _ _ (same (magic slot)) (same _) tenths

-- The slot that a record stands for.
abbrev pub restored : Slot → ℕ → ℤ → ℕ → Slot
restored old counter temp idx = record old {
  valid = true;
  counter = u8 (counter + 1);
  temp = temp;
  idx = idx;
}

module _ {D : Type 0} where
  slot_at-set :
      (r : Recorder D) (slot : ℕ) (s : Slot)
      → slot < length r.slots
      → get_or (set r.slots slot s) slot no_slot ≡ s
  slot_at-set r slot s l = get_or-set_self r.slots slot s no_slot l

  loaded :
      (r : Recorder D) (slot counter : ℕ) (temp : ℤ) (idx : ℕ)
      → IsStorable temp
      → slot < length r.slots
      → get_or r.boot_ok slot false ≡ true
      → get_or r.boot_buf slot [] ≡ record_image slot counter temp idx
      → slot_at (boot_load_record r slot) slot ≡ restored (slot_at r slot) counter temp idx
  unfolding boot_load_record
  loaded r slot counter temp idx h l ok e =
      rw
        (
          ok,
          e,
          record_ok-record_image slot counter temp idx h,
          slot_at-set r slot _ l,
          decode_temp-record_image slot counter temp idx h,
        )
        (unfold record_image in refl)

  pub committed :
      (r : Recorder D) (j : Job) (counter : ℕ) (temp : ℤ) (idx : ℕ)
      → IsStorable temp
      → j.slot < length r.slots
      → j.is_rom ≡ false
      → j.image ≡ record_image j.slot counter temp idx
      → slot_at (commit_job r j) j.slot ≡ restored (slot_at r j.slot) counter temp idx
  unfolding commit_job
  committed r j counter temp idx h l e i =
      rw (e, i, slot_at-set r j.slot _ l, decode_temp-record_image j.slot counter temp idx h)
        (unfold record_image in refl)

  -- The effect of a record's job on its slot, when it is committed and when its block is loaded at a boot.
  pub record IsDurable (before boot : Recorder D) (slot : ℕ) (temp : ℤ) (idx : ℕ) (j : Job)
      : Type 0 where
    pub commits :
        slot_at (commit_job before j) slot
        ≡ restored (slot_at before slot) (slot_at before slot).counter temp idx
    pub loads :
        get_or boot.boot_buf slot [] ≡ j.image
        → slot_at (boot_load_record boot slot) slot
          ≡ restored (slot_at boot slot) (slot_at before slot).counter temp idx

  -- A record of a temperature from -128.9 to 127.9 degrees that is queued for a slot, with room in
  -- the queue: committing its job gives the slot the temperature, the sensor and the next counter
  -- (modulo 256) and keeps its ROM; and a boot that has read the job's image without an error as the
  -- slot's block loads the same values.
  pub push_record-IsDurable :
      (before boot : Recorder D) (slot : ℕ) (temp : ℤ) (idx : ℕ)
      → IsStorable temp
      → before.job_n < length before.jobs
      → slot < length before.slots
      → slot < length boot.slots
      → get_or boot.boot_ok slot false ≡ true
      → IsDurable before boot slot temp idx
          (get_or (push_record before slot temp idx).jobs before.job_n no_job)
  unfolding push_record
  push_record-IsDurable before boot slot temp idx h room l l' ok =
      let j : Job = record {
        is_rom = false;
        slot = slot;
        addr = rec_addr slot;
        image = record_image slot (slot_at before slot).counter temp idx;
      } in
      rw (get_or-set_self before.jobs before.job_n j no_job room) (record {
        commits = committed before j (slot_at before slot).counter temp idx h l refl refl;
        loads = λ e. loaded boot slot (slot_at before slot).counter temp idx h l' ok e;
      })
