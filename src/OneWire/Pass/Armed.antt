-- ===== src/OneWire/Pass/Armed.antt =====
-- What the devices make of each operation that the search arms.
use stm32_async_1wire.Prelude.{ℕ, zero, suc, ◌<◌, true, false, List, [], ◌∷◌, ◌≡◌, refl, arith}
use stm32_async_1wire.Wire.{bit_from_pulse}
use stm32_async_1wire.Wire.Codec.{bit_pulse}
use stm32_async_1wire.Port
use stm32_async_1wire.Port.{Port, search_pair_pulse, search_pulse3}
use stm32_async_1wire.Port.Slots.{slot_pulses, loads, fed}
use stm32_async_1wire.OneWire.{Bus, search_cmd_rom, search_cmd_alarm}
use stm32_async_1wire.OneWire.Pass.{Rom, branch, answer}
use stm32_async_1wire.OneWire.Pass.Served.{sent}
use stm32_async_1wire.OneWire.Pass.Wired.{
  Stage, command, first, direction, operate, deliver, hear, obey, heard_stage, heard_active,
  on_line, into, into_triple,
}

module _ {S : Type 0} where
  -- The timer has completed, with so many transfers of its capture left.
  abbrev pub finished : Bus S → ℕ → Bus S
  finished b n = record b {
    port = record (b.port) {
      uif = true;
      running = false;
      capture = record (b.port.capture) { count = n };
    };
  }

  pub operate-reset :
      (code : ℕ) (all active : List Rom) (stage : Stage) (b : Bus S) (p : Port)
      → b.port ≡ Port.reset p search_pair_pulse
      → operate code all (record { bus = b; stage = stage; active = active }) ≡ (record {
        bus = record (finished b 0) { pair_pulse = 490 ∷ 620 ∷ [] };
        stage = command 0 0;
        active = all;
      })
  unfolding operate deliver hear slot_pulses Port.reset into into_triple
  operate-reset code all active stage b p e = rw e refl

  pub operate_rom :
      (all active : List Rom) (b : Bus S) (p : Port)
      → b.port ≡ (Port.write_slots p search_cmd_rom 8).0
      → operate 0xf0 all (record { bus = b; stage = command 0 0; active = active })
        ≡ (record { bus = finished b b.port.capture.count; stage = first; active = active })
  unfolding operate deliver hear slot_pulses loads fed Port.write_slots obey heard_stage
      heard_active bit_from_pulse
  operate_rom all active b p e = rw e refl

  pub operate_alarm :
      (all active : List Rom) (b : Bus S) (p : Port)
      → b.port ≡ (Port.write_slots p search_cmd_alarm 8).0
      → operate 0xec all (record { bus = b; stage = command 0 0; active = active })
        ≡ (record { bus = finished b b.port.capture.count; stage = first; active = active })
  unfolding operate deliver hear slot_pulses loads fed Port.write_slots obey heard_stage
      heard_active bit_from_pulse
  operate_alarm all active b p e = rw e refl

  pub operate_pair :
      (code : ℕ) (all active : List Rom) (b : Bus S) (p : Port)
      → b.port ≡ Port.read_pair p search_pair_pulse
      → operate code all (record { bus = b; stage = first; active = active }) ≡ (record {
        bus = record (finished b 0) {
          pair_pulse = bit_pulse (answer active).0 ∷ bit_pulse (answer active).1 ∷ [];
        };
        stage = direction;
        active = active;
      })
  unfolding operate deliver hear slot_pulses Port.read_pair into into_triple heard_stage
      heard_active on_line bit_from_pulse
  operate_pair code all active b p e = rw e refl

  pub operate_merged :
      (code bit : ℕ) (all active : List Rom) (b : Bus S) (p : Port)
      → bit < 2
      → b.port ≡ Port.write_then_read p bit search_pulse3 (5 ∷ 5 ∷ 0 ∷ [])
      → operate code all (record { bus = b; stage = direction; active = active }) ≡ (record {
        bus = record (finished b 0) {
          pulse3 =
              bit_pulse (sent b.port)
              ∷ bit_pulse (answer (branch (sent b.port) active)).0
              ∷ bit_pulse (answer (branch (sent b.port) active)).1
              ∷ [];
        };
        stage = direction;
        active = branch (sent b.port) active;
      })
  unfolding operate deliver hear slot_pulses loads fed Port.write_then_read into into_triple
      heard_stage heard_active on_line bit_from_pulse sent
  operate_merged code zero all active b p l e = rw e refl
  operate_merged code (suc zero) all active b p l e = rw e refl
  operate_merged code (suc (suc bit)) all active b p l e = absurd (omega arith)

  pub operate_single :
      (code bit : ℕ) (all active : List Rom) (stage : Stage) (b : Bus S) (p : Port)
      → bit < 2
      → b.port ≡ (Port.write_slots p (bit_pulse bit ∷ []) 1).0
      → (operate code all (record { bus = b; stage = stage; active = active })).bus
        ≡ finished b b.port.capture.count
  unfolding operate deliver hear slot_pulses Port.write_slots bit_from_pulse
  operate_single code zero all active stage b p l e = rw e refl
  operate_single code (suc zero) all active stage b p l e = rw e refl
  operate_single code (suc (suc bit)) all active stage b p l e = absurd (omega arith)
