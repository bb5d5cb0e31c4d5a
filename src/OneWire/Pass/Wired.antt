-- ===== src/OneWire/Pass/Wired.antt =====
-- A bus of devices as the timer meets it. The devices hear the slots that the armed port sends, one by one: a
-- reset wakes them, eight slots are a ROM command, and behind the search command they answer two read slots and
-- take the direction from the third, again and again. The timer works only if it has been started, its update
-- flag comes with its last slot, and what it captures goes where the capture DMA has been told. Nothing here
-- looks at the state of the program.
use stm32_async_1wire.Prelude.{
  ℕ, zero, suc, ◌+◌, ◌-◌, ◌*◌, ◌^◌, true, false, not, ◌&&◌, List, [], ◌∷◌, take, length, leb, ◌==◌,
  if◌then◌else◌,
}
use stm32_async_1wire.Wire.{bit_from_pulse}
use stm32_async_1wire.Wire.Codec.{bit_pulse}
use stm32_async_1wire.Port.{Buffer, search_pair_pulse, search_pulse3}
use stm32_async_1wire.Port.Slots.{slot_pulses}
use stm32_async_1wire.OneWire.{Bus, search_poll}
use stm32_async_1wire.OneWire.Pass.{Rom, branch, answer}

-- What the devices expect: nothing before the next reset, the rest of a command with the count and the value of
-- the bits heard, the first or the second read slot of a ROM bit, or the direction.
pub data Stage : Type 0 where
  deaf : Stage
  command : ℕ → ℕ → Stage
  first second direction : Stage

-- The code of a ROM command is complete: it is the one that these devices answer.
unfoldable pub obey : ℕ → ℕ → ℕ → Stage
obey code count value =
    if count == 8 then (if value == code then first else deaf) else command count value

unfoldable pub heard_stage : ℕ → Stage → ℕ → Stage
heard_stage code deaf bit = deaf
heard_stage code (command count value) bit = obey code (count + 1) (value + bit * 2 ^ count)
heard_stage code first bit = second
heard_stage code second bit = direction
heard_stage code direction bit = first

-- The devices that disagree with a direction fall silent.
unfoldable pub heard_active : Stage → List Rom → ℕ → List Rom
heard_active direction active bit = branch bit active
heard_active _ active bit = active

-- The bit that a slot has on the line.
unfoldable pub on_line : Stage → List Rom → ℕ → ℕ
on_line first active bit = if bit == 0 then 0 else (answer active).0
on_line second active bit = if bit == 0 then 0 else (answer active).1
on_line _ active bit = bit

-- The devices, and the pulses captured so far.
pub record Heard : Type 0 where
  pub stage : Stage
  pub active : List Rom
  pub pulses : List ℕ

-- A pulse of 480 microseconds is a reset, which all devices answer with a presence pulse.
unfoldable pub hear : ℕ → List Rom → List ℕ → Stage → List Rom → Heard
hear code all [] stage active = record { stage = stage; active = active; pulses = [] }
hear code all (p ∷ ps) stage active =
    let bit = bit_from_pulse p in
    let woken = hear code all ps (command 0 0) all in
    let rest = hear code all ps (heard_stage code stage bit) (heard_active stage active bit) in
    if leb 480 p
    then record woken { pulses = 490 ∷ 620 ∷ woken.pulses }
    else record rest { pulses = bit_pulse (on_line stage active bit) ∷ rest.pulses }

-- The transmission of captured pulses to their buffer.
unfoldable pub into : Buffer → List ℕ → List ℕ → List ℕ
into search_pair_pulse pulses old = pulses
into _ pulses old = old

unfoldable pub into_triple : Buffer → List ℕ → List ℕ → List ℕ
into_triple search_pulse3 pulses old = pulses
into_triple _ pulses old = old

-- The bus, and the devices on it.
pub record Wired (S : Type 0) : Type 0 where
  pub bus : Bus S
  pub stage : Stage
  pub active : List Rom

module _ {S : Type 0} where
  unfoldable pub deliver : List ℕ → Bus S → Bus S
  deliver pulses b =
      let p = b.port in
      let c = p.capture in
      if p.capture_in && p.capture_request && c.enabled
      then record b {
        port = record p { capture = record c { count = c.count - length pulses } };
        pair_pulse = into c.target (take c.count pulses) b.pair_pulse;
        pulse3 = into_triple c.target (take c.count pulses) b.pulse3;
      }
      else b

  -- The timer does what it has been armed for, if it has been started.
  unfoldable pub operate : ℕ → List Rom → Wired S → Wired S
  operate code all w =
      let p = w.bus.port in
      let h = hear code all (slot_pulses p) w.stage w.active in
      if p.running && not p.uif
      then record {
        bus = deliver h.pulses (record (w.bus) { port = record p { uif = true; running = false } });
        stage = h.stage;
        active = h.active;
      }
      else w

  -- The timer, and the poll of the program that follows.
  unfoldable pub turn : ℕ → List Rom → Wired S → Wired S
  turn code all w = let w' = operate code all w in record w' { bus = (search_poll w'.bus).0 }

  unfoldable pub turns : ℕ → ℕ → List Rom → Wired S → Wired S
  turns zero code all w = w
  turns (suc n) code all w = turns n code all (turn code all w)
