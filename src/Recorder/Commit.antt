-- ===== src/Recorder/Commit.antt =====
-- The commit of queued jobs, and a slot before and after it.
use stm32_async_1wire.Prelude.{
  ℕ, zero, suc, ◌+◌, ◌≤◌, ◌<◌, inl, inr, Bool, true, false, not, ◌&&◌, ◌||◌, List, [], ◌∷◌, ◌++◌,
  get_or, take, if◌then◌else◌, ◌≡◌, ◌≢◌, refl, ap, ◌∙◌, arith, Bool-cases, length, length-set,
  get_or-set_ne,
}
use stm32_async_1wire.Prelude.Int.{ℤ, ltb_ℤ, ◌≤ℤ◌}
use stm32_async_1wire.OneWire.{same_bytes}
use stm32_async_1wire.Recorder.{Recorder, Job, Slot, no_job, no_slot}
use stm32_async_1wire.Recorder.Records.{commit_job, commit_jobs, slot_at}
use stm32_async_1wire.Recorder.Image.{IsStorable, committed}
use stm32_async_1wire.Recorder.Queue.{record_jobs, record_job, rom_job}

pub get_or-take :
    (n k : ℕ) (xs : List Job) → k < n → get_or (take n xs) k no_job ≡ get_or xs k no_job
get_or-take zero k xs l = absurd (omega arith)
get_or-take (suc n) k [] l = refl
get_or-take (suc n) zero (x ∷ xs) l = refl
get_or-take (suc n) (suc k) (x ∷ xs) l = get_or-take n k xs (omega arith)

pub length-take : (n : ℕ) (xs : List Job) → n ≤ length xs → length (take n xs) ≡ n
length-take zero xs l = refl
length-take (suc n) [] l = absurd (omega arith)
length-take (suc n) (x ∷ xs) l = ap suc (length-take n xs (omega arith))

-- A slot that a temperature may replace: the peak if it is higher, the low if it is lower.
pub record IsBeyond (old new : Slot) (t : ℤ) (R : ℤ → ℤ → Type 0) : Type 0 where
  pub valid_now : new.valid ≡ true
  pub covers : R t new.temp
  pub moves : old.valid ≡ true → R old.temp new.temp

pub rise :
    (old new : Slot) (t : ℤ)
    → ((not old.valid || ltb_ℤ old.temp t) ≡ true → (new.valid ≡ true) × (new.temp ≡ t))
    → ((not old.valid || ltb_ℤ old.temp t) ≡ false → new ≡ old)
    → IsBeyond old new t (λ a b. a ≤ℤ b)
rise old new t up same = elim (Bool-cases (not old.valid || ltb_ℤ old.temp t)) [
  | inl e ↦ record {
    valid_now = (up e).0;
    covers = rw ((up e).1) (omega arith);
    moves = λ v. rw ((up e).1) (ground arith);
  }
  | inr e ↦
      rw (same e)
        (record { valid_now = ground arith; covers = ground arith; moves = λ v. omega arith })
]

pub fall :
    (old new : Slot) (t : ℤ)
    → ((not old.valid || ltb_ℤ t old.temp) ≡ true → (new.valid ≡ true) × (new.temp ≡ t))
    → ((not old.valid || ltb_ℤ t old.temp) ≡ false → new ≡ old)
    → IsBeyond old new t (λ a b. b ≤ℤ a)
fall old new t down same = elim (Bool-cases (not old.valid || ltb_ℤ t old.temp)) [
  | inl e ↦ record {
    valid_now = (down e).0;
    covers = rw ((down e).1) (omega arith);
    moves = λ v. rw ((down e).1) (ground arith);
  }
  | inr e ↦
      rw (same e)
        (record { valid_now = ground arith; covers = ground arith; moves = λ v. omega arith })
]

the_next : (i k : ℕ) → suc i + k ≡ i + suc k
the_next i k = omega arith

module _ {D : Type 0} where
  pub commit_all : List Job → Recorder D → Recorder D
  commit_all [] r = r
  commit_all (j ∷ js) r = commit_all js (commit_job r j)

  pub commit_jobs-all :
      (js : List Job) (i : ℕ) (r : Recorder D)
      → ((k : ℕ) → k < length js → get_or r.jobs (i + k) no_job ≡ get_or js k no_job)
      → commit_jobs (length js) i r ≡ commit_all js r
  unfolding commit_jobs commit_all commit_job
  commit_jobs-all [] i r h = refl
  commit_jobs-all (j ∷ js) i r h =
      let here : i ≡ i + 0 = omega arith in
      let first = ap (λ (n : ℕ). get_or r.jobs n no_job) here ∙ h 0 (omega arith) in
      ap (λ (x : Job). commit_jobs (length js) (suc i) (commit_job r x)) first
      ∙ commit_jobs-all js (suc i) (commit_job r j)
          (λ k l. ap (λ (n : ℕ). get_or r.jobs n no_job) (the_next i k) ∙ h (suc k) (omega arith))

  pub commit_all-append :
      (js ks : List Job) (r : Recorder D)
      → commit_all (js ++ ks) r ≡ commit_all ks (commit_all js r)
  unfolding commit_all
  commit_all-append [] ks r = refl
  commit_all-append (j ∷ js) ks r = commit_all-append js ks (commit_job r j)

  -- The slots that the jobs of one record leave.
  record IsCommitted (slot : ℕ) (temp : ℤ) (r r' : Recorder D) : Type 0 where
    pub valid_is : (slot_at r' slot).valid ≡ true
    pub temp_is : (slot_at r' slot).temp ≡ temp
    pub others : (k : ℕ) → slot ≢ k → slot_at r' k ≡ slot_at r k
    pub size_is : length r'.slots ≡ length r.slots

  commit_other :
      (r : Recorder D) (j : Job) (k : ℕ) → j.slot ≢ k → slot_at (commit_job r j) k ≡ slot_at r k
  unfolding commit_job
  commit_other r j k h = get_or-set_ne r.slots j.slot k _ no_slot h

  commit_size : (r : Recorder D) (j : Job) → length (commit_job r j).slots ≡ length r.slots
  unfolding commit_job
  commit_size r j = length-set r.slots j.slot _

  commit_record :
      (r : Recorder D) (slot counter : ℕ) (temp : ℤ) (idx : ℕ)
      → IsStorable temp
      → slot < length r.slots
      → IsCommitted slot temp r (commit_job r (record_job slot counter temp idx))
  commit_record r slot counter temp idx h l =
      let c = committed r (record_job slot counter temp idx) counter temp idx h l refl refl in
      record {
        valid_is = ap (λ (s : Slot). s.valid) c;
        temp_is = ap (λ (s : Slot). s.temp) c;
        others = commit_other r (record_job slot counter temp idx);
        size_is = commit_size r (record_job slot counter temp idx);
      }

  commit_record_jobs :
      (r : Recorder D) (s : Slot) (slot : ℕ) (temp : ℤ) (idx : ℕ) (rom : List ℕ)
      → IsStorable temp
      → slot < length r.slots
      → IsCommitted slot temp r (commit_all (record_jobs s slot temp idx rom) r)
  unfolding record_jobs commit_all
  commit_record_jobs r s slot temp idx rom h l =
      let j = rom_job slot rom in
      let c =
        commit_record (commit_job r j) slot s.counter temp idx h (omega (arith, commit_size r j)) in
      elim (Bool-cases (s.rom_valid && same_bytes 8 s.rom rom)) [
        | inl e ↦ rw e (commit_record r slot s.counter temp idx h l)
        | inr e ↦ rw e (record {
          valid_is = c.valid_is;
          temp_is = c.temp_is;
          others = λ k n. c.others k n ∙ commit_other r j k n;
          size_is = c.size_is ∙ commit_size r j;
        })
      ]

  -- A slot after a round: the new record where there is one, the old slot otherwise.
  pub record IsUpdated (slot : ℕ) (is_new : Bool) (temp : ℤ) (r r' : Recorder D) : Type 0 where
    pub new_valid : is_new ≡ true → (slot_at r' slot).valid ≡ true
    pub new_temp : is_new ≡ true → (slot_at r' slot).temp ≡ temp
    pub old_slot : is_new ≡ false → slot_at r' slot ≡ slot_at r slot
    pub rest_kept : (k : ℕ) → slot ≢ k → slot_at r' k ≡ slot_at r k
    pub same_size : length r'.slots ≡ length r.slots

  pub update_slot :
      (is_new : Bool) (q : Recorder D) (s : Slot) (slot : ℕ) (temp : ℤ) (idx : ℕ) (rom : List ℕ)
      → (is_new ≡ true → IsStorable temp)
      → slot < length q.slots
      → IsUpdated slot is_new temp q
          (commit_all (if is_new then record_jobs s slot temp idx rom else []) q)
  update_slot false q s slot temp idx rom h l =
      unfold commit_all in
      record {
        new_valid = λ e. absurd (cc e);
        new_temp = λ e. absurd (cc e);
        old_slot = λ e. refl;
        rest_kept = λ k n. refl;
        same_size = refl;
      }
  update_slot true q s slot temp idx rom h l =
      let c = commit_record_jobs q s slot temp idx rom (h refl) l in
      record {
        new_valid = λ e. c.valid_is;
        new_temp = λ e. c.temp_is;
        old_slot = λ e. absurd (cc e);
        rest_kept = c.others;
        same_size = c.size_is;
      }
