-- ===== src/OneWire/Pass/Followed.antt =====
-- The polls of the search over the bus of devices as the timer meets it follow those over the bus that the
-- search expects.
use stm32_async_1wire.Prelude.{
  ℕ, ◌+◌, ◌<◌, Bool, true, false, not, ◌&&◌, ◌||◌, List, get_or, leb, ltb, ◌==◌, if◌then◌else◌, ◌≡◌,
  ◌≢◌, refl, sym, ap₂, ◌∙◌, arith, Bool-cases, inl, inr,
}
use mathlib.Core.Path.{subst}
use stm32_async_1wire.Wire.{bit_from_pulse, u8, pair_bits, crc8, present}
use stm32_async_1wire.Port
use stm32_async_1wire.Port.{Port, search_pair_pulse, search_pulse3}
use stm32_async_1wire.OneWire.{
  Phase, Search, Bus, reset, cmd, read_pair, write_read, write_dir, done, direction, write_slots,
  write_bit, write_then_read, read_pair_bits, reset_bus, has_presence, op_done, call_sink,
  same_bytes, search_advance_bit, search_next_pass, search_accept, search_leaf, search_switch,
  search_poll, search_poll_phase,
}
use stm32_async_1wire.OneWire.Pass.{Rom, branch}
use stm32_async_1wire.OneWire.Pass.Served.{
  Line, completed, pair_capture, left_count, serve, sent, heard,
}
use stm32_async_1wire.OneWire.Pass.Wired.{
  Stage, command, first, Wired, operate, deliver, turn, turns,
}
use stm32_async_1wire.OneWire.Pass.Wired
use stm32_async_1wire.OneWire.Pass.Simulated.{
  opcode, stage_after, active_after, Arms, at_end, a-reset, a_rom, an_alarm, a_pair, an_inner,
  a_last,
}

module _ {S : Type 0} where
  -- The command is the same, and the search is as finished as before.
  pub record IsOn (c c' : Search S) : Type 0 where
    pub command_kept : c'.command ≡ c.command
    pub finished_kept : c'.finished ≡ c.finished

  advance-IsOn : (b : Bus S) (x y : ℕ) → IsOn b.search (search_advance_bit b x y).search
  unfolding search_advance_bit write_then_read write_bit write_slots
  advance-IsOn b x y = ground arith

  next_pass-IsOn : (b : Bus S) → IsOn b.search (search_next_pass b).search
  unfolding search_next_pass reset_bus
  next_pass-IsOn b = ground arith

  accept-IsOn : (b : Bus S) → IsOn b.search (search_accept b).search
  unfolding search_accept
  accept-IsOn b = ground (
    arith,
    next_pass-IsOn (record b {
      search = record (b.search) { found = u8 (b.search.found + 1) };
      owner = (call_sink b.search.sink b.search.rom b.owner).0;
    }),
  )

  leaf-IsOn : (b : Bus S) → IsOn b.search (search_leaf b).search
  unfolding search_leaf
  leaf-IsOn b =
      let b' = record b {
        search = record (b.search) {
          id_bit_number = u8 (b.search.id_bit_number + 1);
          last_discrepancy = b.search.last_zero;
        };
      } in
      ground (arith, accept-IsOn b', next_pass-IsOn b')

module _ {S : Type 0} (code : ℕ) (all : List Rom) (stage : Stage) (active ds : List Rom) where
  if-Arms :
      (t : Bool) (b b' : Bus S)
      → Arms code all b stage active ds
      → Arms code all b' stage active ds
      → Arms code all (if t then b else b') stage active ds
  if-Arms true b b' a a' = a
  if-Arms false b b' a a' = a'

  next_pass-Arms : (b : Bus S) → Arms code all (search_next_pass b) stage active ds
  unfolding search_next_pass reset_bus
  next_pass-Arms b = if-Arms (b.search.last_discrepancy == 0) _ _ (at_end refl) (
      if-Arms (b.search.prev_leaf_valid && same_bytes 8 b.search.prev_leaf b.search.rom) _ _
        (at_end refl) (a-reset b.port refl refl))

  accept-Arms : (b : Bus S) → Arms code all (search_accept b) stage active ds
  unfolding search_accept
  accept-Arms b =
      let c = record (b.search) { found = u8 (b.search.found + 1) } in
      let sunk = call_sink c.sink c.rom b.owner in
      let b' : Bus S = record b { search = c; owner = sunk.0 } in
      if-Arms (not (sunk.1 == 0)) _ _ (at_end refl)
        (if-Arms (leb c.max_found c.found) _ _ (at_end refl) (next_pass-Arms b'))

  leaf-Arms : (b : Bus S) → Arms code all (search_leaf b) stage active ds
  unfolding search_leaf
  leaf-Arms b =
      let c = record (b.search) {
        id_bit_number = u8 (b.search.id_bit_number + 1);
        last_discrepancy = b.search.last_zero;
      } in
      let b' : Bus S = record b { search = c } in
      if-Arms (not (crc8 c.rom 8 == 0)) _ _ (at_end refl) (
        if-Arms (c.family == 0 || get_or c.rom 0 0 == c.family) _ _ (accept-Arms b')
          (next_pass-Arms b'))

direction-lt : {S : Type 0} (c : Search S) (x y : ℕ) → x < 2 → (direction c x y).0 < 2
unfolding direction
direction-lt c x y l = ground arith

module _ {S : Type 0} where
  advance-Arms :
      (code : ℕ) (all active : List Rom) (b : Bus S) (x y : ℕ)
      → x < 2
      → let b' = search_advance_bit b x y in
        Arms code all b' Wired.direction active (branch (sent b'.port) active)
  unfolding search_advance_bit write_then_read write_bit write_slots
  advance-Arms code all active b x y l =
      let dir = (direction b.search x y).0 in
      let two = direction-lt b.search x y l in
      elim (Bool-cases (not (x == 0) && not (y == 0))) [
        | inl e ↦ rw e (at_end refl)
        | inr e ↦ elim (Bool-cases (ltb b.search.id_bit_number 64)) [
          | inl f ↦ rw (e, f) (an_inner b.port dir two refl refl refl refl)
          | inr f ↦ rw (e, f) (a_last b.port dir two refl refl)
        ]
      ]

bit_lt : (p : ℕ) → bit_from_pulse p < 2
unfolding bit_from_pulse
bit_lt p = ground arith

module _ {S : Type 0} where
  -- A poll of a phase, once the timer has completed.
  pub record IsPolled (code : ℕ) (all : List Rom) (l l' : Line S) (stage : Stage)
      (active : List Rom) : Type 0 where
    pub on : IsOn l.bus.search l'.bus.search
    pub arms :
        Arms code all l'.bus
          (stage_after l.bus.search.phase stage)
          (active_after l.bus.search.phase all l.active active)
          l'.active

  switched :
      (b : Bus S) (phase : Phase)
      → phase ≢ done
      → b.search.phase ≡ phase
      → b.search.finished ≡ false
      → b.port.uif ≡ true
      → (search_poll b).0
        ≡ search_switch phase (record b { port = record (b.port) { uif = false } })
  unfolding search_poll search_poll_phase op_done Port.bus_done
  switched b reset n h f u = rw (f, h, u) refl
  switched b cmd n h f u = rw (f, h, u) refl
  switched b read_pair n h f u = rw (f, h, u) refl
  switched b write_read n h f u = rw (f, h, u) refl
  switched b write_dir n h f u = rw (f, h, u) refl
  switched b done n h f u = absurd (n refl)

  -- The poll of a completed phase, before it is polled.
  cleared : Line S → Bus S
  cleared l =
      let b = completed l.bus l.active in record b { port = record (b.port) { uif = false } }

  served :
      (all : List Rom) (l : Line S) (phase : Phase)
      → phase ≢ done
      → l.bus.search.phase ≡ phase
      → l.bus.search.finished ≡ false
      → ((serve all l).bus ≡ search_switch phase (cleared l))
        × ((serve all l).active ≡ heard phase all l.active (search_switch phase (cleared l)).port)
  unfolding serve completed cleared
  served all l phase n h f =
      let s = switched (completed l.bus l.active) phase n h f refl in
      (s, ap₂ (λ (q : Phase) (b : Bus S). heard q all l.active b.port) h s)

  -- A poll, from what its phase does.
  from_switch :
      (code : ℕ) (all : List Rom) (l : Line S) (stage : Stage) (active : List Rom) (phase : Phase)
      → phase ≢ done
      → l.bus.search.phase ≡ phase
      → l.bus.search.finished ≡ false
      → (let b = search_switch phase (cleared l) in
          IsOn l.bus.search b.search
          × Arms code all b
              (stage_after phase stage)
              (active_after phase all l.active active)
              (heard phase all l.active b.port))
      → IsPolled code all l (serve all l) stage active
  from_switch code all l stage active phase n h f k =
      let s = served all l phase n h f in
      record {
        on = subst (λ (b : Bus S). IsOn l.bus.search b.search) (sym s.0) k.0;
        arms =
            subst
              (λ (q : Phase).
                Arms code all (serve all l).bus (stage_after q stage)
                  (active_after q all l.active active) (serve all l).active)
              (sym h)
              (subst
                (λ (ds : List Rom).
                  Arms code all (serve all l).bus (stage_after phase stage)
                    (active_after phase all l.active active) ds)
                (sym s.1)
                (subst
                  (λ (b : Bus S).
                    Arms code all b (stage_after phase stage)
                      (active_after phase all l.active active)
                      (heard phase all l.active (search_switch phase (cleared l)).port))
                  (sym s.0) k.1));
      }

  reset-Arms :
      (code : ℕ) (all : List Rom) (l : Line S) (active : List Rom)
      → l.bus.search.phase ≡ reset
      → opcode l.bus.search.command ≡ code
      → let b = search_switch reset (cleared l) in
        IsOn l.bus.search b.search × Arms code all b (command 0 0) all active
  unfolding search_switch cleared completed has_presence pair_capture left_count present
      Port.reset_captured write_slots
  reset-Arms code all l active h c = elim (Bool-cases (l.bus.search.command == 0xf0)) [
    | inl e ↦ rw h (
        rw e (
          record { command_kept = refl; finished_kept = refl },
          a_rom _ refl (sym c ∙ rw e refl) refl refl refl,
        ))
    | inr e ↦ rw h (
        rw e (
          record { command_kept = refl; finished_kept = refl },
          an_alarm _ refl (sym c ∙ rw e refl) refl refl refl,
        ))
  ]

  -- The poll of each phase arms the next one.
  pub poll-IsPolled :
      (code : ℕ) (all : List Rom) (l : Line S) (stage : Stage) (active : List Rom) (phase : Phase)
      → phase ≢ done
      → l.bus.search.phase ≡ phase
      → l.bus.search.finished ≡ false
      → opcode l.bus.search.command ≡ code
      → IsPolled code all l (serve all l) stage active
  unfolding search_switch heard read_pair_bits cleared completed pair_bits
  poll-IsPolled code all l stage active reset n h f c =
      from_switch code all l stage active reset n h f (reset-Arms code all l all h c)
  poll-IsPolled code all l stage active cmd n h f c =
      from_switch code all l stage active cmd n h f
        (record { command_kept = refl; finished_kept = refl }, a_pair _ refl refl refl refl)
  poll-IsPolled code all l stage active read_pair n h f c =
      let x = (pair_bits (cleared l).pair_pulse).0 in
      let y = (pair_bits (cleared l).pair_pulse).1 in
      from_switch code all l stage active read_pair n h f
        (advance-IsOn (cleared l) x y, advance-Arms code all l.active (cleared l) x y (bit_lt _))
  poll-IsPolled code all l stage active write_read n h f c =
      let b = record (cleared l) {
        search = record ((cleared l).search) {
          id_bit_number = u8 ((cleared l).search.id_bit_number + 1);
        };
      } in
      let x = bit_from_pulse (get_or b.pulse3 1 0) in
      let y = bit_from_pulse (get_or b.pulse3 2 0) in
      let k = advance-IsOn b x y in
      from_switch code all l stage active write_read n h f (
        record { command_kept = k.command_kept; finished_kept = k.finished_kept },
        advance-Arms code all l.active b x y (bit_lt _),
      )
  poll-IsPolled code all l stage active write_dir n h f c =
      from_switch code all l stage active write_dir n h f
        (leaf-IsOn (cleared l), leaf-Arms code all stage active l.active (cleared l))
  poll-IsPolled code all l stage active done n h f c = absurd (n refl)
