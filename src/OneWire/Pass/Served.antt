-- ===== src/OneWire/Pass/Served.antt =====
-- Polls of the search over the bus that it expects: before each poll the timer completes the operation of the
-- phase, and captures what the active devices answer; after it the devices that disagree with the bit that the
-- port sends fall silent.
use stm32_async_1wire.Prelude.{
  ℕ, zero, suc, ◌+◌, ◌<◌, ◌⊎◌, inl, inr, true, false, not, ◌&&◌, List, [], ◌∷◌, get_or, ltb, ◌==◌,
  if◌then◌else◌, ◌≡◌, refl, ap, ◌∙◌, arith, Bool-cases,
}
use stm32_async_1wire.Wire.{bit_from_pulse, u8, pair_bits}
use stm32_async_1wire.Wire.Codec.{bit_pulse, bit_from_pulse-bit_pulse}
use stm32_async_1wire.Port
use stm32_async_1wire.Port.{Port, Buffer}
use stm32_async_1wire.Port.Slots.{slot_pulses, write_then_read-Sends}
use stm32_async_1wire.OneWire.{
  Phase, Search, Bus, reset, cmd, read_pair, write_read, write_dir, direction, write_rom_bit,
  write_slots, write_bit, write_then_read, search_advance_bit, search_poll, search_poll_phase,
  search_switch, op_done,
}
use stm32_async_1wire.OneWire.Pass.{Rom, branch, answer}
use stm32_async_1wire.OneWire.Pass.Walk.{pass_bit, chosen, chosen-lt, answer-lt}

-- The capture buffers, as a completed operation of a phase leaves them.
unfoldable pub pair_capture : Phase → List Rom → List ℕ → List ℕ
pair_capture reset ds old = 490 ∷ 620 ∷ []
pair_capture read_pair ds old = bit_pulse (answer ds).0 ∷ bit_pulse (answer ds).1 ∷ []
pair_capture _ ds old = old

-- The first bit that the port sends.
unfoldable pub sent : Port → ℕ
sent p = bit_from_pulse (get_or (slot_pulses p) 0 0)

unfoldable pub triple_capture : Phase → List Rom → Port → List ℕ → List ℕ
triple_capture write_read ds p old =
    bit_pulse (sent p) ∷ bit_pulse (answer ds).0 ∷ bit_pulse (answer ds).1 ∷ []
triple_capture _ ds p old = old

-- The transfers that a capture has left.
unfoldable pub left_count : Phase → ℕ → ℕ
left_count reset n = 0
left_count read_pair n = 0
left_count write_read n = 0
left_count _ n = n

-- The devices that take part after a poll in a phase.
unfoldable pub heard : Phase → List Rom → List Rom → Port → List Rom
heard reset all active p = all
heard cmd all active p = all
heard read_pair all active p = branch (sent p) active
heard write_read all active p = branch (sent p) active
heard _ all active p = active

sent_single :
    (p : Port) (bit : ℕ) → bit < 2 → sent (Port.write_slots p (bit_pulse bit ∷ []) 1).0 ≡ bit
unfolding sent slot_pulses Port.write_slots
sent_single p bit l = bit_from_pulse-bit_pulse bit l

sent_merged :
    (p : Port) (bit : ℕ) (dst : Buffer)
    → bit < 2
    → sent (Port.write_then_read p bit dst (5 ∷ 5 ∷ 0 ∷ [])) ≡ bit
unfolding sent
sent_merged p bit dst l =
    ap (λ (pulses : List ℕ). bit_from_pulse (get_or pulses 0 0))
      (write_then_read-Sends p bit dst).slots_are
    ∙ bit_from_pulse-bit_pulse bit l

heard_bit :
    (phase : Phase) (all active : List Rom) (p : Port)
    → (phase ≡ read_pair) ⊎ (phase ≡ write_read)
    → heard phase all active p ≡ branch (sent p) active
unfolding heard
heard_bit phase all active p (inl h) = rw h refl
heard_bit phase all active p (inr h) = rw h refl

-- The bus and the devices that take part.
pub record Line (S : Type 0) : Type 0 where
  pub bus : Bus S
  pub active : List Rom

module _ {S : Type 0} where
  unfoldable pub completed : Bus S → List Rom → Bus S
  completed b ds = record b {
    port = record (b.port) {
      uif = true;
      running = false;
      capture = record (b.port.capture) { count = left_count b.search.phase b.port.capture.count };
    };
    pair_pulse = pair_capture b.search.phase ds b.pair_pulse;
    pulse3 = triple_capture b.search.phase ds b.port b.pulse3;
  }

  -- One operation of the bus, and the poll that follows it.
  unfoldable pub serve : List Rom → Line S → Line S
  serve all l =
      let b = (search_poll (completed l.bus l.active)).0 in
      record { bus = b; active = heard l.bus.search.phase all l.active b.port }

  unfoldable pub serve_all : ℕ → List Rom → Line S → Line S
  serve_all zero all l = l
  serve_all (suc n) all l = serve_all n all (serve all l)

  -- The bit is decided, written into the ROM, and sent.
  record IsDecided (b : Bus S) (id_bit cmp_bit : ℕ) (b' : Bus S) : Type 0 where
    search_is : b'.search ≡ (record (b.search) {
      rom = write_rom_bit b.search.rom b.search.id_bit_number (direction b.search id_bit cmp_bit).0;
      last_zero = (direction b.search id_bit cmp_bit).1;
      phase = if ltb b.search.id_bit_number 64 then write_read else write_dir;
    })
    same_owner : b'.owner ≡ b.owner
    sent_is :
        (direction b.search id_bit cmp_bit).0 < 2
        → sent b'.port ≡ (direction b.search id_bit cmp_bit).0

  advance-IsDecided :
      (b : Bus S) (id_bit cmp_bit : ℕ)
      → (id_bit ≡ 0) ⊎ (cmp_bit ≡ 0)
      → IsDecided b id_bit cmp_bit (search_advance_bit b id_bit cmp_bit)
  unfolding search_advance_bit write_then_read write_bit write_slots
  advance-IsDecided b id_bit cmp_bit h =
      let answered : (not (id_bit == 0) && not (cmp_bit == 0)) ≡ false = ground arith in
      let dir = (direction b.search id_bit cmp_bit).0 in
      elim (Bool-cases (ltb b.search.id_bit_number 64)) [
        | inl e ↦ record {
          search_is = rw (answered, e) refl;
          same_owner = rw (answered, e) refl;
          sent_is = λ l. rw (answered, e) (sent_merged b.port dir _ l);
        }
        | inr e ↦ record {
          search_is = rw (answered, e) refl;
          same_owner = rw (answered, e) refl;
          sent_is = λ l. rw (answered, e) (sent_single b.port dir l);
        }
      ]

  -- A poll, once the timer has completed.
  poll_pair :
      (b : Bus S)
      → b.search.phase ≡ read_pair
      → b.search.finished ≡ false
      → b.port.uif ≡ true
      → (search_poll b).0
        ≡ search_advance_bit
            (record b { port = record (b.port) { uif = false } })
            (pair_bits b.pair_pulse).0
            (pair_bits b.pair_pulse).1
  unfolding search_poll search_poll_phase op_done Port.bus_done search_switch
  poll_pair b p f u = rw (f, p, u) refl

  poll_write :
      (b : Bus S)
      → b.search.phase ≡ write_read
      → b.search.finished ≡ false
      → b.port.uif ≡ true
      → (search_poll b).0
        ≡ search_advance_bit
            (record b {
              port = record (b.port) { uif = false };
              search = record (b.search) { id_bit_number = u8 (b.search.id_bit_number + 1) };
            })
            (bit_from_pulse (get_or b.pulse3 1 0))
            (bit_from_pulse (get_or b.pulse3 2 0))
  unfolding search_poll search_poll_phase op_done Port.bus_done search_switch
  poll_write b p f u = rw (f, p, u) refl

  -- A bit of the pass from `c` with the devices `ds` is served.
  pub record IsBit (c : Search S) (ds : List Rom) (l l' : Line S) : Type 0 where
    pub bit_search : l'.bus.search ≡ (record (pass_bit ds c) {
      phase = if ltb c.id_bit_number 64 then write_read else write_dir;
    })
    pub bit_owner : l'.bus.owner ≡ l.bus.owner
    pub bit_active : l'.active ≡ branch (chosen ds c) ds

  pub serve_pair :
      (all : List Rom) (l : Line S)
      → l.bus.search.phase ≡ read_pair
      → l.bus.search.finished ≡ false
      → ((answer l.active).0 ≡ 0) ⊎ ((answer l.active).1 ≡ 0)
      → IsBit l.bus.search l.active l (serve all l)
  unfolding serve completed
  serve_pair all l p f h =
      let b = completed l.bus l.active in
      let polled = poll_pair b p f refl in
      let pair : pair_bits b.pair_pulse ≡ answer l.active =
        unfold pair_bits pair_capture in
        rw
          (
            p,
            bit_from_pulse-bit_pulse (answer l.active).0 (answer-lt l.active).0,
            bit_from_pulse-bit_pulse (answer l.active).1 (answer-lt l.active).1,
          )
          refl in
      let d =
        advance-IsDecided (record b { port = record (b.port) { uif = false } }) (answer l.active).0
          (answer l.active).1 h in
      let bus_is =
        polled
        ∙ ap
            (λ (a : ℕ × ℕ).
              search_advance_bit (record b { port = record (b.port) { uif = false } }) a.0 a.1)
            pair in
      record {
        bit_search = rw bus_is d.search_is;
        bit_owner = rw bus_is d.same_owner;
        bit_active =
            heard_bit l.bus.search.phase all l.active (search_poll b).0.port (inl p)
            ∙ ap (λ (bit : ℕ). branch bit l.active)
                (ap (λ (u : Bus S). sent u.port) bus_is
                  ∙ d.sent_is (chosen-lt l.active l.bus.search));
      }

  pub serve_write :
      (all : List Rom) (l : Line S)
      → l.bus.search.phase ≡ write_read
      → l.bus.search.finished ≡ false
      → l.bus.search.id_bit_number < 64
      → ((answer l.active).0 ≡ 0) ⊎ ((answer l.active).1 ≡ 0)
      → IsBit
          (record (l.bus.search) { id_bit_number = l.bus.search.id_bit_number + 1 })
          l.active
          l
          (serve all l)
  unfolding serve completed
  serve_write all l p f k h =
      let b = completed l.bus l.active in
      let polled = poll_write b p f refl in
      let moved = λ (number : ℕ). record b {
        port = record (b.port) { uif = false };
        search = record (b.search) { id_bit_number = number };
      } in
      let number : u8 (l.bus.search.id_bit_number + 1) ≡ l.bus.search.id_bit_number + 1 =
        omega arith in
      let low : bit_from_pulse (get_or b.pulse3 1 0) ≡ (answer l.active).0 =
        unfold triple_capture in rw (p, bit_from_pulse-bit_pulse _ (answer-lt l.active).0) refl in
      let high : bit_from_pulse (get_or b.pulse3 2 0) ≡ (answer l.active).1 =
        unfold triple_capture in rw (p, bit_from_pulse-bit_pulse _ (answer-lt l.active).1) refl in
      let c = record (l.bus.search) { id_bit_number = l.bus.search.id_bit_number + 1 } in
      let d =
        advance-IsDecided (moved (l.bus.search.id_bit_number + 1)) (answer l.active).0
          (answer l.active).1 h in
      let bus_is : (search_poll b).0
          ≡ search_advance_bit (moved (l.bus.search.id_bit_number + 1)) (answer l.active).0
              (answer l.active).1 =
        polled ∙ rw (number, low, high) refl in
      record {
        bit_search = rw bus_is d.search_is;
        bit_owner = rw bus_is d.same_owner;
        bit_active =
            heard_bit l.bus.search.phase all l.active (search_poll b).0.port (inr p)
            ∙ ap (λ (bit : ℕ). branch bit l.active)
                (ap (λ (u : Bus S). sent u.port) bus_is ∙ d.sent_is (chosen-lt l.active c));
      }
