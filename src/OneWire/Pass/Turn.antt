-- ===== src/OneWire/Pass/Turn.antt =====
-- The polls that follow one another through a pass.
use stm32_async_1wire.Prelude.{
  ℕ, zero, suc, ◌+◌, ◌<◌, ◌⊎◌, inl, inr, true, false, List, ltb, if◌then◌else◌, ◌≡◌, refl, ap, ap₂,
  ◌∙◌, arith, Bool-cases,
}
use stm32_async_1wire.Wire.{present}
use stm32_async_1wire.Port
use stm32_async_1wire.OneWire.{
  Phase, Search, reset, cmd, read_pair, write_read, write_dir, direction, search_poll,
  search_poll_phase, op_done, search_switch, has_presence, write_slots, read_pair_bits,
}
use stm32_async_1wire.OneWire.Pass.{Rom, is_empty, branch, answer, choose}
use stm32_async_1wire.OneWire.Pass.Entries.{IsBus, branch_some, branch-IsBus}
use stm32_async_1wire.OneWire.Pass.Walk.{pass, pass_bit, chosen, direction-choose, choose-lt}
use stm32_async_1wire.OneWire.Pass.Bits.{rom_bit}
use stm32_async_1wire.OneWire.Pass.Searches.{begin_pass}
use stm32_async_1wire.OneWire.Pass.Served.{
  Line, serve, serve_all, IsBit, completed, pair_capture, left_count, heard, serve_pair,
  serve_write,
}

someone_answers :
    (n : ℕ) (ds : List Rom) → IsBus (suc n) ds → ((answer ds).0 ≡ 0) ⊎ ((answer ds).1 ≡ 0)
unfolding answer
someone_answers n ds h = ground (arith, branch_some n ds h)

either_some :
    (ds : List Rom) (bit : ℕ)
    → bit < 2
    → is_empty (branch 0 ds) ≡ false
    → is_empty (branch 1 ds) ≡ false
    → is_empty (branch bit ds) ≡ false
either_some ds zero l e0 e1 = e0
either_some ds (suc zero) l e0 e1 = e1
either_some ds (suc (suc bit)) l e0 e1 = absurd (omega arith)

choose_some :
    (n : ℕ) (ds : List Rom) (k d p z : ℕ)
    → IsBus (suc n) ds
    → is_empty (branch (choose k d p z (answer ds)).0 ds) ≡ false
unfolding answer choose
choose_some n ds k d p z h = elim (Bool-cases (is_empty (branch 0 ds))) [
  | inl e0 ↦ let e1 = branch_some n ds h e0 in rw (e0, e1) e1
  | inr e0 ↦ elim (Bool-cases (is_empty (branch 1 ds))) [
    | inl e1 ↦ rw (e0, e1) e0
    | inr e1 ↦
        let bit = choose-lt k d p z 0 0 (omega arith) in
        rw (e0, e1) (either_some ds (choose k d p z (0, 0)).0 bit e0 e1)
  ]
]

module _ {S : Type 0} where
  -- The branch that the search takes has a device.
  chosen_some :
      (n : ℕ) (ds : List Rom) (c : Search S)
      → IsBus (suc n) ds
      → is_empty (branch (chosen ds c) ds) ≡ false
  chosen_some n ds c h =
      ap (λ (u : ℕ × ℕ). is_empty (branch u.0 ds)) (direction-choose c (answer ds).0 (answer ds).1)
      ∙ choose_some n ds c.id_bit_number c.last_discrepancy (rom_bit c.rom c.id_bit_number)
          c.last_zero h

  pass_phase :
      (n : ℕ) (ds : List Rom) (c : Search S) (phase : Phase)
      → pass n ds (record c { phase = phase }) ≡ (record (pass n ds c) { phase = phase })
  unfolding pass direction
  pass_phase zero ds c phase = refl
  pass_phase (suc n) ds c phase =
      pass_phase n (branch (chosen ds c) ds)
        (record (pass_bit ds c) { id_bit_number = c.id_bit_number + 1 }) phase

  -- All bits are served: the pass's path is in the ROM, and the last bit is being sent.
  pub record IsLeaf (n : ℕ) (ds : List Rom) (c : Search S) (l l' : Line S) : Type 0 where
    pub leaf_search :
        l'.bus.search ≡ (record (pass n ds c) { phase = write_dir; id_bit_number = 64 })
    pub leaf_owner : l'.bus.owner ≡ l.bus.owner

  -- A bit served, and the pass through the others, are the pass from that bit.
  bit-pass :
      (n : ℕ) (ds : List Rom) (c : Search S) (l l' : Line S)
      → IsBit c ds l l'
      → (record (pass n l'.active
          (record (l'.bus.search) { id_bit_number = l'.bus.search.id_bit_number + 1 })) {
            phase = write_dir;
            id_bit_number = 64;
          })
        ≡ (record (pass (suc n) ds c) { phase = write_dir; id_bit_number = 64 })
  unfolding pass
  bit-pass n ds c l l' s =
      ap₂
        (λ (ds' : List Rom) (u : Search S).
          record (pass n ds' (record u { id_bit_number = u.id_bit_number + 1 })) {
            phase = write_dir;
            id_bit_number = 64;
          })
        s.bit_active s.bit_search
      ∙ ap (λ (u : Search S). record u { phase = write_dir; id_bit_number = 64 })
          (pass_phase n (branch (chosen ds c) ds)
            (record (pass_bit ds c) { id_bit_number = c.id_bit_number + 1 }) _)

  IsBit-IsBus :
      (n : ℕ) (ds : List Rom) (c : Search S) (l l' : Line S)
      → IsBus (suc n) ds
      → IsBit c ds l l'
      → IsBus n l'.active
  IsBit-IsBus n ds c l l' h s =
      rw (s.bit_active) (branch-IsBus n (chosen ds c) ds h (chosen_some n ds c h))

  serve_bits :
      (n : ℕ) (all : List Rom) (l : Line S)
      → IsBus n l.active
      → l.bus.search.finished ≡ false
      → l.bus.search.id_bit_number + n ≡ 64
      → l.bus.search.phase ≡ (if ltb l.bus.search.id_bit_number 64 then write_read else write_dir)
      → IsLeaf n l.active
          (record (l.bus.search) { id_bit_number = l.bus.search.id_bit_number + 1 })
          l
          (serve_all n all l)
  unfolding serve_all pass
  serve_bits zero all l h f k p =
      let at : l.bus.search.id_bit_number ≡ 64 = omega arith in
      let written : l.bus.search.phase ≡ write_dir = rw at at p in
      record {
        leaf_search =
            ap₂
              (λ (phase : Phase) (number : ℕ). record (l.bus.search) {
                phase = phase;
                id_bit_number = number;
              })
              written at;
        leaf_owner = refl;
      }
  serve_bits (suc n) all l h f k p =
      let c = record (l.bus.search) { id_bit_number = l.bus.search.id_bit_number + 1 } in
      let inside : ltb l.bus.search.id_bit_number 64 ≡ true = ground arith in
      let reading : l.bus.search.phase ≡ write_read = rw inside at p in
      let s = serve_write all l reading f (omega arith) (someone_answers n l.active h) in
      let l' = serve all l in
      let bus = IsBit-IsBus n l.active c l l' h s in
      let number : l'.bus.search.id_bit_number ≡ l.bus.search.id_bit_number + 1 =
        ap (λ (u : Search S). u.id_bit_number) s.bit_search in
      let rest =
        serve_bits n all l' bus (ap (λ (u : Search S). u.finished) s.bit_search ∙ f)
          (omega (arith, number)) (ap (λ (u : Search S). u.phase) s.bit_search ∙ rw number refl) in
      record {
        leaf_search = rest.leaf_search ∙ bit-pass n l.active c l l' s;
        leaf_owner = rest.leaf_owner ∙ s.bit_owner;
      }

  -- The polls of phases RESET and CMD, once the timer has completed.
  serve-reset :
      (all : List Rom) (l : Line S)
      → l.bus.search.phase ≡ reset
      → l.bus.search.finished ≡ false
      → (serve all l).bus.search ≡ (record (l.bus.search) { phase = cmd })
  unfolding serve completed search_poll search_poll_phase op_done Port.bus_done search_switch
      has_presence pair_capture left_count present Port.reset_captured write_slots
  serve-reset all l p f = rw (f, p) refl

  serve-reset_owner :
      (all : List Rom) (l : Line S)
      → l.bus.search.phase ≡ reset
      → l.bus.search.finished ≡ false
      → (serve all l).bus.owner ≡ l.bus.owner
  unfolding serve completed search_poll search_poll_phase op_done Port.bus_done search_switch
      has_presence pair_capture left_count present Port.reset_captured write_slots
  serve-reset_owner all l p f = rw (f, p) refl

  serve_cmd :
      (all : List Rom) (l : Line S)
      → l.bus.search.phase ≡ cmd
      → l.bus.search.finished ≡ false
      → (serve all l).bus.search
        ≡ (record (l.bus.search) { phase = read_pair; id_bit_number = 1; last_zero = 0 })
  unfolding serve completed search_poll search_poll_phase op_done Port.bus_done search_switch
      read_pair_bits
  serve_cmd all l p f = rw (f, p) refl

  serve_cmd_rest :
      (all : List Rom) (l : Line S)
      → l.bus.search.phase ≡ cmd
      → l.bus.search.finished ≡ false
      → ((serve all l).bus.owner ≡ l.bus.owner) × ((serve all l).active ≡ all)
  unfolding serve completed search_poll search_poll_phase op_done Port.bus_done search_switch
      read_pair_bits heard
  serve_cmd_rest all l p f = rw (f, p) (refl, refl)

  -- From the reset of a pass to its leaf.
  pub serve_turn :
      (all : List Rom) (l : Line S)
      → IsBus 64 all
      → l.bus.search.phase ≡ reset
      → l.bus.search.finished ≡ false
      → IsLeaf 64 all (begin_pass l.bus.search) l (serve_all 66 all l)
  unfolding serve_all begin_pass
  serve_turn all l h p f =
      let l1 = serve all l in
      let s1 = serve-reset all l p f in
      let p1 = ap (λ (u : Search S). u.phase) s1 in
      let f1 = ap (λ (u : Search S). u.finished) s1 ∙ f in
      let l2 = serve all l1 in
      let s2 =
        serve_cmd all l1 p1 f1
        ∙ ap (λ (u : Search S). record u { phase = read_pair; id_bit_number = 1; last_zero = 0 })
            s1 in
      let rest = serve_cmd_rest all l1 p1 f1 in
      let l3 = serve all l2 in
      let bus : IsBus 64 l2.active = rw (rest.1) h in
      let f2 = ap (λ (u : Search S). u.finished) s2 ∙ f in
      let number : l2.bus.search.id_bit_number ≡ 1 = ap (λ (u : Search S). u.id_bit_number) s2 in
      let s3 =
        serve_pair all l2 (ap (λ (u : Search S). u.phase) s2) f2
          (someone_answers 63 l2.active bus) in
      let n3 : l3.bus.search.id_bit_number ≡ 1 =
        ap (λ (u : Search S). u.id_bit_number) s3.bit_search ∙ number in
      let done =
        serve_bits 63 all l3 (IsBit-IsBus 63 l2.active l2.bus.search l2 l3 bus s3)
          (ap (λ (u : Search S). u.finished) s3.bit_search ∙ f2) (omega (arith, n3))
          (ap (λ (u : Search S). u.phase) s3.bit_search ∙ rw (n3, number) refl) in
      record {
        leaf_search =
            done.leaf_search
            ∙ bit-pass 63 l2.active l2.bus.search l2 l3 s3
            ∙ ap₂
                (λ (ds : List Rom) (u : Search S). record (pass 64 ds u) {
                  phase = write_dir;
                  id_bit_number = 64;
                })
                rest.1 s2
            ∙ ap (λ (u : Search S). record u { phase = write_dir; id_bit_number = 64 })
                (pass_phase 64 all (begin_pass l.bus.search) read_pair);
        leaf_owner = done.leaf_owner ∙ s3.bit_owner ∙ rest.0 ∙ serve-reset_owner all l p f;
      }
