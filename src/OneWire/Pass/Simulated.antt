-- ===== src/OneWire/Pass/Simulated.antt =====
-- What a phase of the search has armed is what the bus that the search expects takes for granted.
use stm32_async_1wire.Prelude.{
  ℕ, ◌<◌, List, [], ◌∷◌, ◌==◌, if◌then◌else◌, ◌≡◌, ◌≢◌, refl, sym, ap, ap₂, ◌∙◌,
}
use stm32_async_1wire.Wire.Codec.{bit_pulse}
use stm32_async_1wire.Port
use stm32_async_1wire.Port.{Port, search_pair_pulse, search_pulse3}
use stm32_async_1wire.OneWire.{
  Phase, Bus, reset, cmd, read_pair, write_read, write_dir, done, search_cmd_rom, search_cmd_alarm,
  search_read_pulse,
}
use stm32_async_1wire.OneWire.Pass.{Rom, branch, answer}
use stm32_async_1wire.OneWire.Pass.Served.{
  Line, completed, pair_capture, triple_capture, left_count, sent,
}
use stm32_async_1wire.OneWire.Pass.Wired.{Stage, command, first, Wired, operate, turn, turns}
use stm32_async_1wire.OneWire.Pass.Wired
use stm32_async_1wire.OneWire.Pass.Armed.{
  finished, operate-reset, operate_rom, operate_alarm, operate_pair, operate_merged, operate_single,
}

-- The code on the wire of a search command.
abbrev pub opcode : ℕ → ℕ
opcode c = if c == 0xf0 then 0xf0 else 0xec

abbrev pub stage_after : Phase → Stage → Stage
stage_after reset stage = command 0 0
stage_after cmd stage = first
stage_after read_pair stage = Wired.direction
stage_after write_read stage = Wired.direction
stage_after _ stage = stage

abbrev pub active_after : Phase → List Rom → List Rom → List Rom → List Rom
active_after reset all ds active = all
active_after cmd all ds active = all
active_after read_pair all ds active = ds
active_after write_read all ds active = ds
active_after _ all ds active = active

module _ {S : Type 0} where
  -- The timer does what the bus that the search expects takes for granted.
  pub record IsArmed (code : ℕ) (all : List Rom) (w : Wired S) (l : Line S) : Type 0 where
    pub bus_is : (operate code all w).bus ≡ completed l.bus l.active
    pub stage_is :
        (operate code all w).stage ≡ stage_after l.bus.search.phase (operate code all w).stage
    pub active_is :
        (operate code all w).active
        ≡ active_after l.bus.search.phase all l.active (operate code all w).active

  arm :
      (code : ℕ) (all : List Rom) (w v : Wired S) (l : Line S) (phase : Phase)
      → l.bus.search.phase ≡ phase
      → operate code all w ≡ v
      → v.bus ≡ completed l.bus l.active
      → v.stage ≡ stage_after phase v.stage
      → v.active ≡ active_after phase all l.active v.active
      → IsArmed code all w l
  arm code all w v l phase h o b s a = record {
    bus_is = ap (λ (u : Wired S). u.bus) o ∙ b;
    stage_is =
        ap (λ (u : Wired S). u.stage) o
        ∙ s
        ∙ ap₂ stage_after (sym h) (sym (ap (λ (u : Wired S). u.stage) o));
    active_is =
        ap (λ (u : Wired S). u.active) o
        ∙ a
        ∙ ap₂ (λ (q : Phase) (x : List Rom). active_after q all l.active x) (sym h)
            (sym (ap (λ (u : Wired S). u.active) o));
  }

  -- What the expected bus leaves, phase by phase.
  completed-reset :
      (b : Bus S) (ds : List Rom)
      → b.search.phase ≡ reset
      → (record (finished b 0) { pair_pulse = 490 ∷ 620 ∷ [] }) ≡ completed b ds
  unfolding completed pair_capture triple_capture left_count
  completed-reset b ds h = rw h refl

  completed_cmd :
      (b : Bus S) (ds : List Rom)
      → b.search.phase ≡ cmd
      → finished b b.port.capture.count ≡ completed b ds
  unfolding completed pair_capture triple_capture left_count
  completed_cmd b ds h = rw h refl

  completed_last :
      (b : Bus S) (ds : List Rom)
      → b.search.phase ≡ write_dir
      → finished b b.port.capture.count ≡ completed b ds
  unfolding completed pair_capture triple_capture left_count
  completed_last b ds h = rw h refl

  completed-read_pair :
      (b : Bus S) (ds : List Rom)
      → b.search.phase ≡ read_pair
      → (record (finished b 0) {
        pair_pulse = bit_pulse (answer ds).0 ∷ bit_pulse (answer ds).1 ∷ [];
      })
        ≡ completed b ds
  unfolding completed pair_capture triple_capture left_count
  completed-read_pair b ds h = rw h refl

  completed_inner :
      (b : Bus S) (ds : List Rom)
      → b.search.phase ≡ write_read
      → (record (finished b 0) {
        pulse3 = bit_pulse (sent b.port) ∷ bit_pulse (answer ds).0 ∷ bit_pulse (answer ds).1 ∷ [];
      })
        ≡ completed b ds
  unfolding completed pair_capture triple_capture left_count
  completed_inner b ds h = rw h refl

  -- What the search has armed, and for which devices.
  pub data Arms (code : ℕ) (all : List Rom) (b : Bus S) (stage : Stage) (active ds : List Rom)
      : Type 0 where
    at_end : b.search.phase ≡ done → Arms code all b stage active ds
    a-reset :
        (p : Port)
        → b.search.phase ≡ reset
        → b.port ≡ Port.reset p search_pair_pulse
        → Arms code all b stage active ds
    a_rom :
        (p : Port)
        → b.search.phase ≡ cmd
        → code ≡ 0xf0
        → stage ≡ command 0 0
        → active ≡ all
        → b.port ≡ (Port.write_slots p search_cmd_rom 8).0
        → Arms code all b stage active ds
    an_alarm :
        (p : Port)
        → b.search.phase ≡ cmd
        → code ≡ 0xec
        → stage ≡ command 0 0
        → active ≡ all
        → b.port ≡ (Port.write_slots p search_cmd_alarm 8).0
        → Arms code all b stage active ds
    a_pair :
        (p : Port)
        → b.search.phase ≡ read_pair
        → stage ≡ first
        → active ≡ ds
        → b.port ≡ Port.read_pair p search_pair_pulse
        → Arms code all b stage active ds
    an_inner :
        (p : Port) (bit : ℕ)
        → bit < 2
        → b.search.phase ≡ write_read
        → stage ≡ Wired.direction
        → branch (sent b.port) active ≡ ds
        → b.port ≡ Port.write_then_read p bit search_pulse3 search_read_pulse
        → Arms code all b stage active ds
    a_last :
        (p : Port) (bit : ℕ)
        → bit < 2
        → b.search.phase ≡ write_dir
        → b.port ≡ (Port.write_slots p (bit_pulse bit ∷ []) 1).0
        → Arms code all b stage active ds

  pub arms-IsArmed :
      (code : ℕ) (all : List Rom) (b : Bus S) (stage : Stage) (active ds : List Rom)
      → Arms code all b stage active ds
      → b.search.phase ≢ done
      → IsArmed code all
          (record { bus = b; stage = stage; active = active })
          (record { bus = b; active = ds })
  arms-IsArmed code all b stage active ds (at_end h) n = absurd (n h)
  arms-IsArmed code all b stage active ds (a-reset p h e) n =
      arm code all _ _ _ reset h (operate-reset code all active stage b p e)
        (completed-reset b ds h) refl refl
  arms-IsArmed code all b stage active ds (a_rom p h c s a e) n =
      arm code all _ _ _ cmd h (rw (c, s) (operate_rom all active b p e)) (completed_cmd b ds h)
        refl a
  arms-IsArmed code all b stage active ds (an_alarm p h c s a e) n =
      arm code all _ _ _ cmd h (rw (c, s) (operate_alarm all active b p e)) (completed_cmd b ds h)
        refl a
  arms-IsArmed code all b stage active ds (a_pair p h s a e) n =
      arm code all _ _ _ read_pair h (rw (s, a) (operate_pair code all ds b p e))
        (completed-read_pair b ds h) refl refl
  arms-IsArmed code all b stage active ds (an_inner p bit l h s a e) n =
      arm code all _ _ _ write_read h
        (rw s (operate_merged code bit all active b p l e)
          ∙ ap
              (λ (x : List Rom). record {
                bus = record (finished b 0) {
                  pulse3 =
                      bit_pulse (sent b.port)
                      ∷ bit_pulse (answer x).0
                      ∷ bit_pulse (answer x).1
                      ∷ [];
                };
                stage = Wired.direction;
                active = x;
              })
              a)
        (completed_inner b ds h) refl refl
  arms-IsArmed code all b stage active ds (a_last p bit l h e) n =
      arm code all _ _ _ write_dir h refl
        (operate_single code bit all active stage b p l e ∙ completed_last b ds h) refl refl
