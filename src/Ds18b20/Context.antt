-- ===== src/Ds18b20/Context.antt =====
-- The static state of the driver: src/ds18b20_internal.h and src/ds18b20.c. The flag bytes are Boolean
-- fields. `storage` is the union of `capture`, `pulse` and `scratchpad`: 72 bytes, read through three
-- views. `pulses` is the union `phase_pulses`. A user's result buffer is the content behind its
-- pointer. The weak callbacks do nothing; their calls are kept in `log`, the latest first.
use stm32_async_1wire.Prelude.{
  ℕ, suc, ◌+◌, ◌-◌, ◌*◌, ◌/◌, bit_or, Bool, true, false, not, ◌&&◌, List, [], ◌∷◌, Option, none,
  some, get_or, set, take, ltb, ◌==◌, if◌then◌else◌,
}
use stm32_async_1wire.Prelude.Int.{ℤ, pos, negsuc, sub_ℕ, ◌+ℤ◌, ◌*ℤ◌, ltb_ℤ}
use stm32_async_1wire.Wire.{encode_match_rom, encode_byte, decode_overlaid, crc8, release_pulse, u8}
use stm32_async_1wire.OneWire.{Bus, search_active}
use stm32_async_1wire.OneWire

-- `ds18b20_state_t`.
pub data State : Type 0 where
  idle start convert wait continue request read decode : State

-- `ds18b20_txn_phase_t`.
pub data TxnPhase : Type 0 where
  reset write read wait done : TxnPhase

-- `res_phase_t`.
pub data ResPhase : Type 0 where
  reset write done : ResPhase

-- `DS18B20_ctx_t`.
pub record Ctx : Type 0 where
  pub storage : List ℕ
  pub current_state : State
  pub address_mode : Bool
  pub scan_mode : Bool
  pub parasite : Bool
  pub scan_index : ℕ
  pub selected_rom : List ℕ
  pub resolution : ℕ

-- `ds18b20_txn_ctx_t`.
pub record TxnCtx : Type 0 where
  pub out : Option (List ℕ)
  pub wait_us : ℕ
  pub phase : TxnPhase
  pub command : ℕ
  pub payload : List ℕ
  pub payload_len : ℕ
  pub read_bytes : ℕ
  pub slots : ℕ
  pub raw : List ℕ
  pub bare : Bool
  pub ok : Bool
  pub finished : Bool

-- `res_ctx_t`.
pub record ResCtx : Type 0 where
  pub phase : ResPhase
  pub pending_res : ℕ
  pub slots : ℕ
  pub applied : Bool
  pub finished : Bool

-- A call of `ds18b20_busy` or `ds18b20_complete`.
pub data Callback : Type 0 where
  busy : ℕ → Callback
  complete : ℤ → Callback

-- The driver's statics.
pub record Driver : Type 0 where
  pub ctx : Ctx
  pub txn : TxnCtx
  pub res : ResCtx
  pub pulses : List ℕ
  pub dev_roms : List (List ℕ)
  pub dev_count : ℕ
  pub user_sink : Option (List ℕ → ℕ)
  pub log : List Callback

abbrev pub World : Type 0
World = Bus Driver

abbrev pub put_ctx : World → Ctx → World
put_ctx w c = record w { owner = record (w.owner) { ctx = c } }

abbrev pub put_txn : World → TxnCtx → World
put_txn w t = record w { owner = record (w.owner) { txn = t } }

abbrev pub put_res : World → ResCtx → World
put_res w r = record w { owner = record (w.owner) { res = r } }

abbrev pub put_state : World → State → World
put_state w s = put_ctx w (record (w.owner.ctx) { current_state = s })

abbrev pub call_back : World → Callback → World
call_back w c = record w { owner = record (w.owner) { log = c ∷ w.owner.log } }

abbrev pub scratchpad_len : ℕ
scratchpad_len = 9

abbrev pub crc8_bytes : ℕ
crc8_bytes = 8

abbrev pub match_slots : ℕ
match_slots = 80

abbrev pub prefix_slots : ℕ
prefix_slots = 72

abbrev pub dma_transfers : ℕ
dma_transfers = 16

abbrev pub res_slots_min : ℕ
res_slots_min = 40

abbrev pub res_slots_max : ℕ
res_slots_max = 104

abbrev pub res_min : ℕ
res_min = 9

abbrev pub res_max : ℕ
res_max = 12

abbrev pub res_default : ℕ
res_default = 12

abbrev pub max_devices : ℕ
max_devices = 8

abbrev pub convert_t : ℕ
convert_t = 0x44

abbrev pub read_rom : ℕ
read_rom = 0x33

abbrev pub read_scratchpad : ℕ
read_scratchpad = 0xbe

abbrev pub write_scratchpad : ℕ
write_scratchpad = 0x4e

abbrev pub copy_scratchpad : ℕ
copy_scratchpad = 0x48

abbrev pub recall_eeprom : ℕ
recall_eeprom = 0xb8

abbrev pub read_power_supply : ℕ
read_power_supply = 0xb4

-- The error codes of inc/ds18b20.h, from INT16_MIN = -32768 on.
abbrev pub temp_error_generic : ℤ
temp_error_generic = negsuc 32767

abbrev pub temp_error_no_sensor : ℤ
temp_error_no_sensor = negsuc 32766

abbrev pub temp_error_crc_fail : ℤ
temp_error_crc_fail = negsuc 32765

-- The view `ctx.capture` of the union: two little-endian halfwords.
unfoldable pub capture_view : List ℕ → List ℕ
capture_view s = (get_or s 0 0 + 256 * get_or s 1 0) ∷ (get_or s 2 0 + 256 * get_or s 3 0) ∷ []

-- `decode_scratchpad`: in place, over the union.
unfoldable pub decode_scratchpad : Ctx → Ctx
decode_scratchpad c = record c { storage = decode_overlaid c.storage scratchpad_len }

-- `check_scratchpad_crc`.
unfoldable pub check_scratchpad_crc : Ctx → ℕ
check_scratchpad_crc c = crc8 c.storage crc8_bytes

-- `(int16_t)` of a halfword.
unfoldable pub int16 : ℕ → ℤ
int16 w = if ltb w 32768 then pos w else negsuc (65535 - w)

-- `/ 16` on `int32_t`, which truncates towards 0.
unfoldable pub div16 : ℤ → ℤ
div16 (pos n) = pos (n / 16)
div16 (negsuc n) = sub_ℕ 0 (suc n / 16)

-- `decode_temperature`, over the two first bytes of the scratchpad. The final cast keeps the value
-- (Ds18b20.Temperature).
unfoldable pub decode_temperature : ℕ → ℕ → ℤ
unfolding int16 div16 ◌+ℤ◌ ◌*ℤ◌
decode_temperature lsb msb =
    let raw = int16 (bit_or (msb * 256) lsb) in
    div16 (raw *ℤ pos 10 +ℤ (if ltb_ℤ raw (pos 0) then negsuc 7 else pos 8))

-- `resolution_wait_us`.
unfoldable pub resolution_wait_us : ℕ → ℕ
resolution_wait_us res =
    if res == 9 then 93750 else if res == 10 then 187500 else if res == 11 then 375000 else 750000

-- `res_config_byte`; `res - 9` is taken in `uint8_t`.
unfoldable pub res_config_byte : ℕ → ℕ
res_config_byte res = u8 (bit_or 0x1f (u8 (res + 256 - res_min) * 32))

-- `build_addr_cmd`.
unfoldable pub build_addr_cmd : World → ℕ → World
build_addr_cmd w cmd_byte =
    let d = w.owner in
    let addr = (encode_match_rom (record { table = d.pulses; cursor = 0 }) d.ctx.selected_rom).0 in
    record w {
      owner = record d {
        pulses = set (encode_byte addr.table prefix_slots cmd_byte) match_slots release_pulse;
      };
    }

-- `ds18b20_init`, for a timer clock in MHz.
unfoldable pub init : ℕ → World → World
init mhz w =
    let w' = OneWire.init mhz w in
    let d = w'.owner in
    record w' {
      owner = record d {
        res = record (d.res) { finished = true };
        txn = record (d.txn) { finished = true };
        ctx = record (d.ctx) {
          resolution = res_default;
          scan_index = 0;
          address_mode = false;
          scan_mode = false;
          parasite = false;
        };
      };
    }

abbrev pub is_idle : State → Bool
is_idle idle = true
is_idle _ = false

-- The four tests with which an operation finds the bus free.
abbrev pub is_free : World → Bool
is_free w =
    is_idle w.owner.ctx.current_state
    && not (search_active w)
    && w.owner.res.finished
    && w.owner.txn.finished

-- The part of `ds18b20_select` behind its guards; NULL is `none`.
unfoldable pub choose_rom : World → Option (List ℕ) → World
choose_rom w none = put_ctx w (record (w.owner.ctx) { scan_mode = false; address_mode = false })
choose_rom w (some rom) =
    put_ctx w
      (record (w.owner.ctx) { scan_mode = false; selected_rom = take 8 rom; address_mode = true })

-- `ds18b20_select`.
unfoldable pub select : World → Option (List ℕ) → World
unfolding choose_rom
select w rom = if is_free w then choose_rom w rom else w
