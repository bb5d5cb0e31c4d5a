-- ===== src/Ds18b20/Round/Armed.antt =====
-- What each poll of the scan mode arms, and what it puts on the bus: src/ds18b20_measure.c.
use stm32_async_1wire.Prelude.{
  ℕ, zero, suc, ◌+◌, ◌||◌, Bool, true, false, List, [], ◌∷◌, ◌++◌, get_or, take, take_all, length,
  length-set, replicate, All, ltb, ◌≡◌, refl, sym, ap, ap₂, ◌∙◌, arith, Bool-cases, inl, inr,
}
use mathlib.Core.Path.{subst}
use stm32_async_1wire.Wire.{
  Build, encode_byte, encode_bits, put_byte, put_bytes, encode_bytes, encode_skip_rom,
  encode_match_rom, u8,
}
use stm32_async_1wire.Wire.Codec.{IsByte, message, prefix}
use stm32_async_1wire.Port.{Port}
use stm32_async_1wire.Port
use stm32_async_1wire.Port.Slots.{slot_pulses}
use stm32_async_1wire.OneWire.{
  op_done, has_presence, reset_bus, write_slots, read_data, strong_pullup, start_wait,
}
use stm32_async_1wire.Ds18b20.Context.{
  State, World, Ctx, put_ctx, Callback, start, convert, wait, continue, request, read, decode,
  capture_view, build_addr_cmd,
}
use stm32_async_1wire.Ds18b20.Measure.{
  poll, poll_state, poll_start, issue_command, send_command, build_skip_cmd, scan_finish_or_next,
  parasite_pullup,
}
use stm32_async_1wire.Ds18b20.Calls.{hardware}
use stm32_async_1wire.Ds18b20.Request.{measure_command-Sends}
use stm32_async_1wire.Ds18b20.Round.{Event, IsDeviceRom, due, happens, answered}
use stm32_async_1wire.Ds18b20.Round.States.{
  IsAt, poll_switched, requested, conversion, decoded, chosen, begun, reported, chosen_presence,
  begun_presence, pullup-IsSent, powered_presence,
}

length-encode_bits :
    (left i p byte : ℕ) (out : List ℕ) → length (encode_bits left i out p byte) ≡ length out
unfolding encode_bits
length-encode_bits zero i p byte out = refl
length-encode_bits (suc left) i p byte out =
    length-encode_bits left (i + 1) p byte _ ∙ length-set out (p + i) _

length-encode_byte : (out : List ℕ) (p byte : ℕ) → length (encode_byte out p byte) ≡ length out
unfolding encode_byte
length-encode_byte out p byte = length-encode_bits 8 0 p byte out

length-put_bytes : (bytes : List ℕ) (b : Build) → length (put_bytes b bytes).table ≡ length b.table
unfolding put_bytes put_byte
length-put_bytes [] b = refl
length-put_bytes (byte ∷ bytes) b =
    length-put_bytes bytes (put_byte b byte) ∙ length-encode_byte b.table b.cursor byte

-- The operation is armed, and the table has its size.
pub record IsReady (w : World) : Type 0 where
  pub due_is : due w ≡ true
  pub table_size : length w.owner.pulses ≡ 105

send_size :
    (w : World) (cmd_byte : ℕ)
    → length (send_command w cmd_byte).owner.pulses ≡ length w.owner.pulses
unfolding send_command write_slots build_addr_cmd build_skip_cmd encode_match_rom encode_bytes
    encode_skip_rom put_byte
send_size w cmd_byte = elim (Bool-cases w.owner.ctx.address_mode) [
  | inl m ↦ rw m (
      length-set _ _ _
      ∙ length-encode_byte _ _ _
      ∙ length-put_bytes (take 8 w.owner.ctx.selected_rom) _
      ∙ length-encode_byte _ _ _)
  | inr m ↦ rw m (length-set _ _ _ ∙ length-encode_byte _ _ _ ∙ length-encode_byte _ _ _)
]

pullup_size : (w : World) (on : Bool) → (parasite_pullup w on).owner.pulses ≡ w.owner.pulses
unfolding parasite_pullup strong_pullup
pullup_size w on = ground arith

module _ (n : ℕ) (roms : List (List ℕ)) (e : Event) (k : ℕ) (l : List Callback) (w : World)
    (g : IsReady w) where
  pub start-IsReady : IsAt n roms start k l w → IsReady (poll (happens e w))
  unfolding poll_state poll_start op_done reset_bus strong_pullup parasite_pullup hardware
      Port.bus_done Port.reset Port.arm_capture Port.timer_start
  start-IsReady a =
      rw (poll_switched n roms e k l w g.due_is start a)
        (record { due_is = refl; table_size = ground (arith, g.table_size) })

  pub continue-IsReady : IsAt n roms continue k l w → IsReady (poll (happens e w))
  unfolding poll_state op_done reset_bus strong_pullup hardware Port.bus_done Port.reset
      Port.arm_capture Port.timer_start
  continue-IsReady a =
      rw (poll_switched n roms e k l w g.due_is continue a)
        (record { due_is = refl; table_size = g.table_size })

  pub wait-IsReady : IsAt n roms wait k l w → IsReady (poll (happens e w))
  unfolding poll_state op_done start_wait strong_pullup parasite_pullup hardware Port.bus_done
      Port.start_wait Port.start_timer Port.timer_start Port.plan_wait
  wait-IsReady a =
      rw (poll_switched n roms e k l w g.due_is wait a)
        (record { due_is = refl; table_size = ground (arith, g.table_size) })

  pub read-IsReady : IsAt n roms read k l w → IsReady (poll (happens e w))
  unfolding poll_state op_done read_data strong_pullup parasite_pullup hardware Port.bus_done
      Port.read_data Port.arm_capture Port.timer_start
  read-IsReady a =
      rw (poll_switched n roms e k l w g.due_is read a)
        (record { due_is = refl; table_size = ground (arith, g.table_size) })

  -- Another device follows: the gap is armed.
  pub decode-IsReady :
      ltb (u8 (k + 1)) n ≡ true → IsAt n roms decode k l w → IsReady (poll (happens e w))
  unfolding scan_finish_or_next op_done start_wait strong_pullup parasite_pullup hardware reported
      Port.bus_done Port.start_wait Port.start_timer Port.timer_start Port.plan_wait
  decode-IsReady c a =
      rw (decoded n roms e k l w g.due_is a)
        (rw (a.scan, a.index, a.count, c) (record { due_is = refl; table_size = g.table_size }))

-- A command after a presence pulse is the message that goes out.
pub record IsSentAs (msg_bytes : List ℕ) (w : World) : Type 0 where
  pub ready : IsReady w
  pub pulses_are : slot_pulses w.port ≡ message msg_bytes

issue-IsSentAs :
    (v : World) (cmd_byte : ℕ) (next : State)
    → has_presence v (capture_view v.owner.ctx.storage) ≡ true
    → length v.owner.pulses ≡ 105
    → length v.owner.ctx.selected_rom ≡ 8
    → All IsByte v.owner.ctx.selected_rom
    → IsByte cmd_byte
    → IsSentAs
        (prefix v.owner.ctx.address_mode v.owner.ctx.selected_rom ++ cmd_byte ∷ [])
        (issue_command v cmd_byte next)
unfolding issue_command
issue-IsSentAs v cmd_byte next p size room bytes h =
    let s = measure_command-Sends v cmd_byte size room bytes h in
    rw p (record {
      ready = record {
        due_is = rw (s.runs.started) refl;
        table_size = send_size v cmd_byte ∙ size;
      };
      pulses_are = s.slots_are;
    })

-- Skip ROM takes no ROM.
abbrev zeroed : World → World
zeroed v = put_ctx v (record (v.owner.ctx) { selected_rom = replicate 8 0 })

zeroed_port :
    (v : World) (cmd_byte : ℕ)
    → v.owner.ctx.address_mode ≡ false
    → (send_command (zeroed v) cmd_byte).port ≡ (send_command v cmd_byte).port
unfolding send_command write_slots
zeroed_port v cmd_byte m = rw m refl

skip-IsSentAs :
    (v : World) (cmd_byte : ℕ) (next : State)
    → has_presence v (capture_view v.owner.ctx.storage) ≡ true
    → length v.owner.pulses ≡ 105
    → v.owner.ctx.address_mode ≡ false
    → IsByte cmd_byte
    → IsSentAs (0xcc ∷ cmd_byte ∷ []) (issue_command v cmd_byte next)
unfolding issue_command
skip-IsSentAs v cmd_byte next p size m h =
    let zero_bytes : All IsByte (replicate 8 0) = ground arith in
    let s = measure_command-Sends (zeroed v) cmd_byte size refl zero_bytes h in
    let same = zeroed_port v cmd_byte m in
    rw p (record {
      ready = record {
        due_is = ap (λ (q : Port). q.running || q.uif) (sym same) ∙ rw (s.runs.started) refl;
        table_size = send_size v cmd_byte ∙ size;
      };
      pulses_are = ap slot_pulses (sym same) ∙ s.slots_are ∙ rw m refl;
    })

module _ (n : ℕ) (roms : List (List ℕ)) (e : Event) (k : ℕ) (l : List Callback) (w : World)
    (g : IsReady w) where
  pub convert-IsSentAs :
      answered e ≡ true
      → IsAt n roms convert k l w
      → IsSentAs (0xcc ∷ 0x44 ∷ []) (poll (happens e w))
  unfolding begun op_done hardware Port.bus_done
  convert-IsSentAs p a =
      let v = begun n roms e k l w g.due_is in
      let c = pullup-IsSent v true in
      rw (conversion n roms e k l w g.due_is a) (
        skip-IsSentAs (parasite_pullup v true) 0x44 wait
          (powered_presence n roms k l v convert true (begun_presence n roms e k l w g.due_is ∙ p))
          (ap length (pullup_size v true) ∙ g.table_size)
          (ap (λ (x : Ctx). x.address_mode) c.same_ctx) (omega arith))

  pub request-IsSentAs :
      answered e ≡ true
      → IsDeviceRom (get_or roms k [])
      → IsAt n roms request k l w
      → IsSentAs (0x55 ∷ get_or roms k [] ++ 0xbe ∷ []) (poll (happens e w))
  unfolding chosen op_done hardware Port.bus_done
  request-IsSentAs p r a =
      let v = chosen n roms e k l w g.due_is in
      let c = pullup-IsSent v true in
      let whole : take 8 (get_or roms k []) ≡ get_or roms k [] =
        rw r.size at (take_all (get_or roms k [])) in
      let rom_is = ap (λ (x : Ctx). x.selected_rom) c.same_ctx ∙ whole in
      let mode_is = ap (λ (x : Ctx). x.address_mode) c.same_ctx in
      let s =
        issue-IsSentAs (parasite_pullup v true) 0xbe read
          (powered_presence n roms k l v request true (chosen_presence n roms e k l w g.due_is ∙ p))
          (ap length (pullup_size v true) ∙ g.table_size) (ap length rom_is ∙ r.size)
          (subst (All IsByte) (sym rom_is) r.bytes) (omega arith) in
      let sent_is = ap₂ (λ (m : Bool) (x : List ℕ). prefix m x ++ 0xbe ∷ []) mode_is rom_is in
      rw (requested n roms e k l w g.due_is a) (
        subst
          (λ (msg_bytes : List ℕ).
            IsSentAs msg_bytes (issue_command (parasite_pullup v true) 0xbe read))
          sent_is s)
