-- ===== src/OneWire/Pass/Complete.antt =====
-- A whole search from `onewire_search_start` on, over a bus of devices that hear the slots of the armed port.
use stm32_async_1wire.Prelude.{
  ℕ, ◌+◌, ◌*◌, ◌≤◌, ◌<◌, true, false, some, List, ◌∷◌, map, length, All, ◌==◌, ◌≡◌, refl, ap, ◌∙◌,
  arith,
}
use stm32_async_1wire.Wire.{crc8, rom_bytes}
use stm32_async_1wire.Port
use stm32_async_1wire.Port.{search_pair_pulse}
use stm32_async_1wire.OneWire.{Search, Bus, Sink, search_start, reset_bus}
use stm32_async_1wire.OneWire.Pass.{Rom}
use stm32_async_1wire.OneWire.Pass.Bits.{IsRom}
use stm32_async_1wire.OneWire.Pass.Count.{count, once}
use stm32_async_1wire.OneWire.Pass.Roms.{rom_path}
use stm32_async_1wire.OneWire.Pass.Rounds.{report_all}
use stm32_async_1wire.OneWire.Pass.Finished.{started, search_start-IsFinished}
use stm32_async_1wire.OneWire.Pass.Wired.{Stage, Wired, turns}
use stm32_async_1wire.OneWire.Pass.Simulated.{opcode, a-reset}
use stm32_async_1wire.OneWire.Pass.Same.{IsSame, turns-IsSame}

module _ {S : Type 0} where
  -- After `polls` polls, bounded by 67 for each device and a last one, the search is finished and the sink
  -- has been told of the ROMs `found`, which are those of the devices, each once.
  pub record IsComplete (sink : Sink S) (command family : ℕ) (roms : List (List ℕ)) (w : Wired S)
      : Type 0 where
    pub polls : ℕ
    pub within : polls ≤ 67 * length roms + 1
    pub found : List (List ℕ)
    pub each_once : (rom : List ℕ) → IsRom rom → count rom found ≡ once (count rom roms)
    pub told :
        (turns polls (opcode command) (map rom_path roms) w).bus.owner
        ≡ report_all sink family found w.bus.owner
    pub finishes : (turns polls (opcode command) (map rom_path roms) w).bus.search.finished ≡ true

  reset_armed :
      (b : Bus S) (sink : Sink S) (max_devices command family : ℕ)
      → b.search.finished ≡ true
      → 0 < max_devices
      → (search_start b (some sink) max_devices command family).port
        ≡ Port.reset b.port search_pair_pulse
  unfolding search_start reset_bus
  reset_armed b sink max_devices command family f l =
      let some_room : (max_devices == 0) ≡ false = ground arith in rw (f, some_room) refl

  -- The search begins at the same point over both buses.
  started-IsSame :
      (b : Bus S) (sink : Sink S) (max_devices command family : ℕ) (all : List Rom) (stage : Stage)
      (active ds : List Rom)
      → b.search.finished ≡ true
      → 0 < max_devices
      → let b' = search_start b (some sink) max_devices command family in
        IsSame
          (opcode command)
          all
          (record { bus = b'; stage = stage; active = active })
          (record { bus = b'; active = ds })
  started-IsSame b sink max_devices command family all stage active ds f l =
      let s = started b sink max_devices command family f l in
      record {
        search_is = refl;
        owner_is = refl;
        code_is = ap (λ (c : Search S). opcode c.command) s;
        going = λ n. record {
          unfinished = ap (λ (c : Search S). c.finished) s;
          bus_is = refl;
          arms =
              a-reset b.port (ap (λ (c : Search S). c.phase) s)
                (reset_armed b sink max_devices command family f l);
        };
      }

  -- A search that is begun while none is active, over a bus whose timer does what the port is armed
  -- for before each poll and whose devices (up to 254, at least one, each with eight ROM bytes and a
  -- right checksum) hear its slots and answer the command of the search, with room for more devices
  -- than there are and a sink that never asks to stop, is finished within 67 polls for each device
  -- and one more; its sink has then been told of each device of the wanted family once and of
  -- nothing else.
  pub search_start-IsComplete :
      (b : Bus S) (sink : Sink S) (max_devices command family : ℕ) (first : List ℕ)
      (roms : List (List ℕ)) (stage : Stage) (active : List Rom)
      → b.search.finished ≡ true
      → ((rom : List ℕ) (s : S) → (sink rom s).1 ≡ 0)
      → All IsRom (first ∷ roms)
      → All (λ (r : List ℕ). crc8 r rom_bytes ≡ 0) (first ∷ roms)
      → length (first ∷ roms) < max_devices
      → max_devices < 256
      → IsComplete sink command family (first ∷ roms) (record {
        bus = search_start b (some sink) max_devices command family;
        stage = stage;
        active = active;
      })
  search_start-IsComplete b sink max_devices command family first roms stage active f quiet r h room
        small =
      let k =
        search_start-IsFinished b sink max_devices command family first roms active f quiet r h room
          small in
      let b' = search_start b (some sink) max_devices command family in
      let s =
        turns-IsSame k.polls (opcode command) (map rom_path (first ∷ roms))
          (record { bus = b'; stage = stage; active = active })
          (record { bus = b'; active = active })
          (started-IsSame b sink max_devices command family (map rom_path (first ∷ roms)) stage
            active active f (omega arith)) in
      record {
        polls = k.polls;
        within = k.within;
        found = k.found;
        each_once = k.each_once;
        told = s.owner_is ∙ k.told;
        finishes = ap (λ (c : Search S). c.finished) s.search_is ∙ k.finishes;
      }
