-- ===== src/OneWire/Pass/Rounds.antt =====
-- The rounds of a search, from reset to leaf, over a bus of devices.
use stm32_async_1wire.Prelude.{
  ℕ, zero, suc, ◌+◌, ◌<◌, ◌⊎◌, inl, inr, Bool, true, false, ◌&&◌, some, List, [], ◌∷◌, length, All,
  ◌==◌, if◌then◌else◌, ◌≡◌, ◌≢◌, refl, sym, ap, ap₂, ◌∙◌, arith, Bool-cases,
}
use stm32_async_1wire.Wire.{crc8, rom_bytes}
use stm32_async_1wire.OneWire.{Search, Sink, reset, done, write_dir, same_bytes, direction}
use stm32_async_1wire.OneWire.Pass.{Rom, branch, walk}
use stm32_async_1wire.OneWire.Pass.Bits.{IsRom}
use stm32_async_1wire.OneWire.Pass.Entries.{Entry, IsBus}
use stm32_async_1wire.OneWire.Pass.Order.{Next}
use stm32_async_1wire.OneWire.Pass.Walk.{pass, pass_bit, chosen, pass-IsPassed}
use stm32_async_1wire.OneWire.Pass.Searches.{roms_found, begin_pass, end_pass}
use stm32_async_1wire.OneWire.Pass.Roms.{rom_path}
use stm32_async_1wire.OneWire.Pass.Served.{Line, serve, serve_all}
use stm32_async_1wire.OneWire.Pass.Turn.{serve_turn}
use stm32_async_1wire.OneWire.Pass.Leaf.{report, IsOpen, serve-IsReported}

same_bytes-true :
    (n : ℕ) (xs ys : List ℕ) → length xs ≡ n → length ys ≡ n → same_bytes n xs ys ≡ true → xs ≡ ys
unfolding same_bytes
same_bytes-true zero [] [] p q h = refl
same_bytes-true zero (x ∷ xs) ys p q h = absurd (omega arith)
same_bytes-true zero [] (y ∷ ys) p q h = absurd (omega arith)
same_bytes-true (suc n) [] ys p q h = absurd (omega arith)
same_bytes-true (suc n) (x ∷ xs) [] p q h = absurd (omega arith)
same_bytes-true (suc n) (x ∷ xs) (y ∷ ys) p q h =
    ap₂ ◌∷◌ (ground arith) (same_bytes-true n xs ys (omega arith) (omega arith) (ground arith))

-- Every ROM on these paths has a right checksum.
abbrev pub AllChecked : List Entry → Type 0
AllChecked es =
    All (λ (u : Entry). (rom : List ℕ) → IsRom rom → rom_path rom ≡ u.0 → crc8 rom rom_bytes ≡ 0) es

previous_differs :
    (valid : Bool) (previous old rom : List ℕ) (path : Rom)
    → length old ≡ 8
    → length rom ≡ 8
    → rom_path rom ≡ path
    → (valid ≡ false) ⊎ ((previous ≡ old) × (rom_path old ≢ path))
    → (valid && same_bytes rom_bytes previous rom) ≡ false
previous_differs valid previous old rom path p q e (inl h) = rw h refl
previous_differs false previous old rom path p q e (inr h) = refl
previous_differs true previous old rom path p q e (inr h) =
    elim (Bool-cases (same_bytes rom_bytes previous rom)) [
      | inl u ↦
          let same = same_bytes-true rom_bytes previous rom (ap length h.0 ∙ p) q u in
          absurd (h.1 (ap rom_path (sym h.0 ∙ same) ∙ e))
      | inr u ↦ u
    ]

module _ {S : Type 0} where
  -- What the sink has been told.
  unfoldable pub report_all : Sink S → ℕ → List (List ℕ) → S → S
  report_all sink family [] s = s
  report_all sink family (rom ∷ roms) s = report_all sink family roms (report sink family rom s)

  -- The part of the search that a pass reads and writes.
  abbrev with_pass : Search S → Search S → Search S
  with_pass c d = record d {
    rom = c.rom;
    id_bit_number = c.id_bit_number;
    last_discrepancy = c.last_discrepancy;
    last_zero = c.last_zero;
  }

  pass-with_pass :
      (n : ℕ) (ds : List Rom) (c d : Search S)
      → pass n ds (with_pass c d) ≡ with_pass (pass n ds c) d
  unfolding pass direction
  pass-with_pass zero ds c d = refl
  pass-with_pass (suc n) ds c d =
      pass-with_pass n (branch (chosen ds c) ds)
        (record (pass_bit ds c) { id_bit_number = c.id_bit_number + 1 }) d

  pub roms_found_same :
      (n : ℕ) (ds : List Rom) (c d : Search S)
      → c.rom ≡ d.rom
      → c.last_discrepancy ≡ d.last_discrepancy
      → roms_found n ds c ≡ roms_found n ds d
  unfolding roms_found begin_pass end_pass
  roms_found_same zero ds c d r l = refl
  roms_found_same (suc n) ds c d r l =
      let start : with_pass (begin_pass c) d ≡ begin_pass d =
        ap₂
          (λ (x : List ℕ) (y : ℕ). record d {
            rom = x;
            id_bit_number = 1;
            last_discrepancy = y;
            last_zero = 0;
          })
          r l in
      let run : with_pass (pass 64 ds (begin_pass c)) d ≡ pass 64 ds (begin_pass d) =
        sym (pass-with_pass 64 ds (begin_pass c) d) ∙ ap (pass 64 ds) start in
      let rom_is = ap (λ (u : Search S). u.rom) run in
      let zero_is = ap (λ (u : Search S). u.last_zero) run in
      let rest =
        roms_found_same n ds (end_pass (pass 64 ds (begin_pass c)))
          (end_pass (pass 64 ds (begin_pass d))) rom_is zero_is in
      ap₂ ◌∷◌ rom_is (ap₂ (λ (x : ℕ) (y : List (List ℕ)). if x == 0 then [] else y) zero_is rest)

  unfoldable pub rounds : ℕ → List Rom → Line S → Line S
  rounds zero all l = l
  rounds (suc n) all l = rounds n all (serve all (serve_all 66 all l))

  -- The search before a round that is to meet the entry `e`, with `left` devices to report.
  pub record IsBefore (sink : Sink S) (all : List Rom) (e : Entry) (left : ℕ) (c : Search S)
      : Type 0 where
    pub phase_is : c.phase ≡ reset
    pub unfinished : c.finished ≡ false
    pub rom_ok : IsRom c.rom
    pub sink_is : c.sink ≡ some sink
    pub room : c.found + left < c.max_found
    pub small : c.max_found < 256
    pub walk_is : walk 64 all 1 c.last_discrepancy (rom_path c.rom) 0 ≡ e
    pub fresh : (c.prev_leaf_valid ≡ false) ⊎ ((c.prev_leaf ≡ c.rom) × (rom_path c.rom ≢ e.0))

  -- The search after a round that left the pass `p`, ready for the next one.
  pub record IsAfter (sink : Sink S) (all : List Rom) (f : Entry) (left : ℕ) (p c c' : Search S)
      : Type 0 where
    pub next : IsBefore sink all f left c'
    pub rom_kept : c'.rom ≡ p.rom
    pub discrepancy_is : c'.last_discrepancy ≡ p.last_zero
    pub family_kept : c'.family ≡ c.family

  -- What a round does, as the pass leaves the search.
  pub record IsRound (sink : Sink S) (all : List Rom) (e : Entry) (l l' : Line S) : Type 0 where
    pub last_is : (pass 64 all (begin_pass l.bus.search)).last_zero ≡ e.1
    pub path_is : rom_path (pass 64 all (begin_pass l.bus.search)).rom ≡ e.0
    pub owner_is :
        l'.bus.owner
        ≡ report sink l.bus.search.family (pass 64 all (begin_pass l.bus.search)).rom l.bus.owner
    pub ends : e.1 ≡ 0 → (l'.bus.search.phase ≡ done) × (l'.bus.search.finished ≡ false)
    pub goes :
        (f : Entry) (left : ℕ)
        → Next 64 all 1 0 e f
        → l.bus.search.found + suc left < l.bus.search.max_found
        → IsAfter sink all f left (pass 64 all (begin_pass l.bus.search)) l.bus.search l'.bus.search

  pub serve-IsRound :
      (sink : Sink S) (all : List Rom) (e : Entry) (left : ℕ) (l : Line S)
      → ((rom : List ℕ) (s : S) → (sink rom s).1 ≡ 0)
      → IsBus 64 all
      → AllChecked (e ∷ [])
      → IsBefore sink all e (suc left) l.bus.search
      → IsRound sink all e l (serve all (serve_all 66 all l))
  unfolding begin_pass
  serve-IsRound sink all e left l quiet h checked b =
      let c = l.bus.search in
      let p = pass 64 all (begin_pass c) in
      let passed = pass-IsPassed 64 all (begin_pass c) b.rom_ok (omega arith) (omega arith) in
      let path_is : rom_path p.rom ≡ e.0 = passed.path_is ∙ ap (λ (u : Entry). u.0) b.walk_is in
      let zero_is : p.last_zero ≡ e.1 = passed.last_is ∙ ap (λ (u : Entry). u.1) b.walk_is in
      let turn = serve_turn all l h b.phase_is b.unfinished in
      let leaf = serve_all 66 all l in
      let frame : leaf.bus.search ≡ (record c {
        phase = write_dir;
        rom = p.rom;
        last_zero = p.last_zero;
        id_bit_number = 64;
      }) =
        turn.leaf_search
        ∙ ap (λ (u : Search S). record u { phase = write_dir; id_bit_number = 64 }) passed.frame in
      let rom_is : leaf.bus.search.rom ≡ p.rom = ap (λ (u : Search S). u.rom) frame in
      let last : leaf.bus.search.last_zero ≡ p.last_zero =
        ap (λ (u : Search S). u.last_zero) frame in
      let family_is : leaf.bus.search.family ≡ c.family = ap (λ (u : Search S). u.family) frame in
      let still : leaf.bus.search.finished ≡ false =
        ap (λ (u : Search S). u.finished) frame ∙ b.unfinished in
      let ready : IsOpen sink leaf.bus.search = rw frame (record {
        sink_is = b.sink_is;
        quiet = quiet;
        checked = checked.0 p.rom passed.rom_ok path_is;
        room = omega (arith, b.room);
        small = b.small;
      }) in
      let r = serve-IsReported sink all leaf (ap (λ (u : Search S). u.phase) frame) still ready in
      record {
        last_is = zero_is;
        path_is = path_is;
        owner_is = r.owner_is ∙ rw (rom_is, family_is, turn.leaf_owner) refl;
        ends = λ z. ((r.ends (last ∙ zero_is ∙ z)).0, (r.ends (last ∙ zero_is ∙ z)).1 ∙ still);
        goes = λ f left' next more.
            let old =
              previous_differs leaf.bus.search.prev_leaf_valid leaf.bus.search.prev_leaf c.rom
                leaf.bus.search.rom e.0 b.rom_ok.size (ap length rom_is ∙ passed.rom_ok.size)
                (ap rom_path rom_is ∙ path_is) (rw frame b.fresh) in
            let after = r.goes (omega (arith, next.0, last, zero_is)) old in
            rw (after, frame)
              (record {
                next = record {
                  phase_is = refl;
                  unfinished = b.unfinished;
                  rom_ok = passed.rom_ok;
                  sink_is = b.sink_is;
                  room = ground (arith, more);
                  small = b.small;
                  walk_is =
                      ap₂ (λ (d : ℕ) (q : Rom). walk 64 all 1 d q 0) zero_is path_is ∙ next.1.0;
                  fresh = inr (refl, λ q. next.1.1 (sym path_is ∙ q));
                };
                rom_kept = refl;
                discrepancy_is = refl;
                family_kept = refl;
              });
      }
