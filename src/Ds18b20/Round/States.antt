-- ===== src/Ds18b20/Round/States.antt =====
-- One poll of the scan mode in each state: `ds18b20_poll` of src/ds18b20_measure.c.
use stm32_async_1wire.Prelude.{
  ℕ, ◌+◌, Bool, true, false, List, [], ◌∷◌, get_or, take, ltb, if◌then◌else◌, ◌≡◌, refl, ap, ◌∙◌,
  arith, Bool-cases, inl, inr,
}
use stm32_async_1wire.Wire.{decode_overlaid, u8}
use stm32_async_1wire.Port.{Port}
use stm32_async_1wire.Port
use stm32_async_1wire.OneWire.{
  op_done, has_presence, reset_bus, write_slots, read_data, strong_pullup, start_wait,
  search_active,
}
use stm32_async_1wire.Ds18b20.Context.{
  State, World, Ctx, put_ctx, put_state, call_back, Callback, busy, complete, idle, start, convert,
  wait, continue, request, read, decode, capture_view, decode_scratchpad, check_scratchpad_crc,
  build_addr_cmd, temp_error_no_sensor,
}
use stm32_async_1wire.Ds18b20.Measure.{
  poll, poll_state, poll_start, poll_convert, poll_request, poll_decode, report, verdict,
  issue_command, send_command, scan_finish_or_next, parasite_pullup,
}
use stm32_async_1wire.Ds18b20.Calls.{hardware}
use stm32_async_1wire.Ds18b20.Round.{Event, due, happens, completes, answered, heard}

-- The scan is in a state, at a device; nothing else owns the timer.
pub record IsAt (n : ℕ) (roms : List (List ℕ)) (s : State) (k : ℕ) (l : List Callback) (w : World)
    : Type 0 where
  pub state : w.owner.ctx.current_state ≡ s
  pub scan : w.owner.ctx.scan_mode ≡ true
  pub index : w.owner.ctx.scan_index ≡ k
  pub no_search : w.search.finished ≡ true
  pub no_res : w.owner.res.finished ≡ true
  pub no_txn : w.owner.txn.finished ≡ true
  pub count : w.owner.dev_count ≡ n
  pub table : w.owner.dev_roms ≡ roms
  pub log : w.owner.log ≡ l

-- What a command on the bus leaves alone.
pub record IsSent (w w' : World) : Type 0 where
  pub same_search : w'.search ≡ w.search
  pub same_ctx : w'.owner.ctx ≡ w.owner.ctx
  pub same_txn : w'.owner.txn ≡ w.owner.txn
  pub same_res : w'.owner.res ≡ w.owner.res
  pub same_count : w'.owner.dev_count ≡ w.owner.dev_count
  pub same_table : w'.owner.dev_roms ≡ w.owner.dev_roms
  pub same_log : w'.owner.log ≡ w.owner.log

send-IsSent : (w : World) (cmd_byte : ℕ) → IsSent w (send_command w cmd_byte)
unfolding send_command build_addr_cmd write_slots
send-IsSent w cmd_byte = ground arith

pub pullup-IsSent : (w : World) (on : Bool) → IsSent w (parasite_pullup w on)
unfolding parasite_pullup strong_pullup
pullup-IsSent w on = ground arith

pullup_presence :
    (w : World) (on : Bool) (cap : List ℕ)
    → has_presence (parasite_pullup w on) cap ≡ has_presence w cap
unfolding has_presence parasite_pullup strong_pullup Port.reset_captured Port.strong_pullup
pullup_presence w on cap = elim (Bool-cases w.owner.ctx.parasite) [
  | inl p ↦ rw p (elim (Bool-cases on) [ inl o ↦ rw o refl | inr o ↦ rw o refl ])
  | inr p ↦ rw p refl
]

ended-IsAt :
    (n : ℕ) (roms : List (List ℕ)) (k : ℕ) (l : List Callback) (w : World) (s : State)
    → IsAt n roms s k l w
    → IsAt n roms idle k (complete temp_error_no_sensor ∷ busy 0 ∷ l) (
        parasite_pullup
          (call_back (call_back (put_state w idle) (busy 0)) (complete temp_error_no_sensor))
          true)
unfolding parasite_pullup strong_pullup
ended-IsAt n roms k l w s a = ground (arith, a)

module _ (n : ℕ) (roms : List (List ℕ)) (k : ℕ) (l : List Callback) (w : World) (s : State) where
  pullup-IsAt : (on : Bool) → IsAt n roms s k l w → IsAt n roms s k l (parasite_pullup w on)
  pullup-IsAt on a = let f = pullup-IsSent w on in ground (arith, a, f)

  pub powered_presence :
      (p : Bool)
      → has_presence w (capture_view w.owner.ctx.storage) ≡ p
      → has_presence
          (parasite_pullup w true)
          (capture_view (parasite_pullup w true).owner.ctx.storage)
        ≡ p
  powered_presence p h =
      ap (λ (c : Ctx). has_presence (parasite_pullup w true) (capture_view c.storage))
        (pullup-IsSent w true).same_ctx
      ∙ pullup_presence w true (capture_view w.owner.ctx.storage)
      ∙ h

  -- A command after a presence pulse.
  issue-IsAt :
      (cmd_byte : ℕ) (next : State)
      → has_presence w (capture_view w.owner.ctx.storage) ≡ true
      → IsAt n roms s k l w
      → let v = parasite_pullup w true in
        IsAt n roms next k l (issue_command v cmd_byte next)
        × ((issue_command v cmd_byte next).owner.ctx.selected_rom ≡ v.owner.ctx.selected_rom)
        × ((issue_command v cmd_byte next).owner.ctx.address_mode ≡ v.owner.ctx.address_mode)
  unfolding issue_command
  issue-IsAt cmd_byte next p a =
      let v = parasite_pullup w true in
      let b = pullup-IsAt true a in
      let f = send-IsSent v cmd_byte in rw (powered_presence true p) (ground (arith, b, f))

  -- No device answered the reset.
  lost-IsAt :
      (cmd_byte : ℕ) (next : State)
      → has_presence w (capture_view w.owner.ctx.storage) ≡ false
      → IsAt n roms s k l w
      → IsAt n roms idle k
          (complete temp_error_no_sensor ∷ busy 0 ∷ l)
          (issue_command (parasite_pullup w true) cmd_byte next)
  unfolding issue_command
  lost-IsAt cmd_byte next p a =
      let b = pullup-IsAt true a in
      rw (powered_presence false p) (ended-IsAt n roms k l (parasite_pullup w true) s b)

module _ (n : ℕ) (roms : List (List ℕ)) (e : Event) (k : ℕ) (l : List Callback) (w : World)
    (d : due w ≡ true) where
  pub poll_switched :
      (s : State)
      → IsAt n roms s k l w
      → poll (happens e w) ≡ poll_state s (op_done (completes e w)).0
  unfolding poll op_done search_active hardware Port.bus_done
  poll_switched s a = rw d (ground (arith, a))

  pub from_continue : IsAt n roms continue k l w → IsAt n roms request k l (poll (happens e w))
  unfolding poll_state op_done reset_bus strong_pullup hardware
  from_continue a = rw (poll_switched continue a) (ground (arith, a))

  pub from_start : IsAt n roms start k l w → IsAt n roms convert k (busy 1 ∷ l) (poll (happens e w))
  unfolding poll_state poll_start op_done reset_bus strong_pullup parasite_pullup hardware
  from_start a = rw (poll_switched start a) (ground (arith, a))

  pub from_wait : IsAt n roms wait k l w → IsAt n roms continue k l (poll (happens e w))
  unfolding poll_state op_done start_wait strong_pullup parasite_pullup hardware
  from_wait a = rw (poll_switched wait a) (ground (arith, a))

  request_presence : has_presence (op_done (completes e w)).0 (capture_view e.storage) ≡ answered e
  unfolding has_presence op_done Port.bus_done Port.reset_captured hardware
  request_presence = refl

  -- The device of the turn is selected.
  unfoldable pub chosen : World
  unfolding op_done hardware
  chosen = put_ctx (op_done (completes e w)).0 (record ((op_done (completes e w)).0.owner.ctx) {
    selected_rom = take 8 (get_or roms k []);
    address_mode = true;
  })

  pub requested :
      IsAt n roms request k l w
      → poll (happens e w) ≡ issue_command (parasite_pullup chosen true) 0xbe read
  unfolding poll_state poll_request op_done hardware chosen
  requested a = poll_switched request a ∙ ground (arith, a)

  chosen-IsAt : IsAt n roms request k l w → IsAt n roms request k l chosen
  unfolding chosen op_done hardware
  chosen-IsAt a = ground (arith, a)

  pub chosen_presence : has_presence chosen (capture_view chosen.owner.ctx.storage) ≡ answered e
  unfolding chosen op_done hardware has_presence
  chosen_presence = request_presence

  chosen_rom :
      ((parasite_pullup chosen true).owner.ctx.selected_rom ≡ take 8 (get_or roms k []))
      × ((parasite_pullup chosen true).owner.ctx.address_mode ≡ true)
  unfolding chosen
  chosen_rom =
      let f = pullup-IsSent chosen true in
      (ap (λ (c : Ctx). c.selected_rom) f.same_ctx, ap (λ (c : Ctx). c.address_mode) f.same_ctx)

  pub from_request :
      answered e ≡ true
      → IsAt n roms request k l w
      → IsAt n roms read k l (poll (happens e w))
        × ((poll (happens e w)).owner.ctx.selected_rom ≡ take 8 (get_or roms k []))
        × ((poll (happens e w)).owner.ctx.address_mode ≡ true)
  from_request p a =
      let q =
        issue-IsAt n roms k l chosen request 0xbe read (chosen_presence ∙ p) (chosen-IsAt a) in
      rw (requested a) (q.0, q.1 ∙ chosen_rom.0, q.2 ∙ chosen_rom.1)

  pub lost_request :
      answered e ≡ false
      → IsAt n roms request k l w
      → IsAt n roms idle k (complete temp_error_no_sensor ∷ busy 0 ∷ l) (poll (happens e w))
  lost_request p a =
      rw (requested a)
        (lost-IsAt n roms k l chosen request 0xbe read (chosen_presence ∙ p) (chosen-IsAt a))

  -- The conversion is for all devices.
  unfoldable pub begun : World
  unfolding op_done hardware
  begun =
      put_ctx (op_done (completes e w)).0
        (record ((op_done (completes e w)).0.owner.ctx) { scan_index = 0; address_mode = false })

  begun-IsAt : IsAt n roms convert k l w → IsAt n roms convert 0 l begun
  unfolding begun op_done hardware
  begun-IsAt a = ground (arith, a)

  pub begun_presence : has_presence begun (capture_view begun.owner.ctx.storage) ≡ answered e
  unfolding begun op_done hardware has_presence
  begun_presence = request_presence

  pub conversion :
      IsAt n roms convert k l w
      → poll (happens e w) ≡ issue_command (parasite_pullup begun true) 0x44 wait
  unfolding poll_state poll_convert op_done hardware begun
  conversion a = poll_switched convert a ∙ ground (arith, a)

  pub from_convert :
      answered e ≡ true → IsAt n roms convert k l w → IsAt n roms wait 0 l (poll (happens e w))
  from_convert p a =
      rw (conversion a)
        (issue-IsAt n roms 0 l begun convert 0x44 wait (begun_presence ∙ p) (begun-IsAt a)).0

  pub lost_convert :
      answered e ≡ false
      → IsAt n roms convert k l w
      → IsAt n roms idle 0 (complete temp_error_no_sensor ∷ busy 0 ∷ l) (poll (happens e w))
  lost_convert p a =
      rw (conversion a)
        (lost-IsAt n roms 0 l begun convert 0x44 wait (begun_presence ∙ p) (begun-IsAt a))

  pub from_read :
      IsAt n roms read k l w
      → IsAt n roms decode k l (poll (happens e w))
        × ((poll (happens e w)).owner.ctx.selected_rom ≡ w.owner.ctx.selected_rom)
        × ((poll (happens e w)).owner.ctx.address_mode ≡ w.owner.ctx.address_mode)
  unfolding poll_state read_data strong_pullup parasite_pullup op_done hardware
  from_read a = rw (poll_switched read a) (ground (arith, a))

  heard-verdict :
      (c : Ctx)
      → c.address_mode ≡ true
      → (verdict (record c { storage = decode_overlaid e.storage 9 })).0 ≡ heard e.storage
  unfolding verdict check_scratchpad_crc
  heard-verdict c m = ground (arith, m)

  -- The report of the device, before the round goes on.
  unfoldable pub heard_ctx : Ctx
  heard_ctx = record (w.owner.ctx) { storage = decode_overlaid e.storage 9 }

  unfoldable pub reported : World
  unfolding op_done hardware heard_ctx
  reported =
      call_back
        (put_ctx (call_back (op_done (completes e w)).0 (busy 0))
          (record heard_ctx { resolution = (verdict heard_ctx).1 }))
        (complete (verdict heard_ctx).0)

  pub decoded : IsAt n roms decode k l w → poll (happens e w) ≡ scan_finish_or_next reported
  unfolding poll_state poll_decode report decode_scratchpad op_done hardware heard_ctx reported
  decoded a = poll_switched decode a ∙ rw (a.scan) refl

  reported-IsAt :
      IsAt n roms decode k l w
      → w.owner.ctx.address_mode ≡ true
      → IsAt n roms decode k (complete (heard e.storage) ∷ busy 0 ∷ l) reported
  unfolding op_done hardware heard_ctx reported
  reported-IsAt a m = ground (arith, a, ap complete (heard-verdict w.owner.ctx m))

-- The next device, or the end of the round.
abbrev pub next_state : ℕ → ℕ → State
next_state n k = if ltb (u8 (k + 1)) n then continue else idle

finish-IsAt :
    (n : ℕ) (roms : List (List ℕ)) (k : ℕ) (l : List Callback) (w : World)
    → IsAt n roms decode k l w
    → IsAt n roms (next_state n k) (u8 (k + 1)) l (scan_finish_or_next w)
unfolding scan_finish_or_next start_wait strong_pullup parasite_pullup
finish-IsAt n roms k l w a = ground (arith, a)

pub from_decode :
    (n : ℕ) (roms : List (List ℕ)) (e : Event) (k : ℕ) (l : List Callback) (w : World)
    (d : due w ≡ true)
    → IsAt n roms decode k l w
    → w.owner.ctx.address_mode ≡ true
    → IsAt n roms
        (next_state n k)
        (u8 (k + 1))
        (complete (heard e.storage) ∷ busy 0 ∷ l)
        (poll (happens e w))
from_decode n roms e k l w d a m =
    rw (decoded n roms e k l w d a) (finish-IsAt n roms k _ _ (reported-IsAt n roms e k l w d a m))
