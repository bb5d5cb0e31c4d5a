-- ===== src/Ds2431/Context.antt =====
-- The static context of the DS2431 driver: src/ds2431_internal.h, and `ds2431_init`, `ds2431_select`,
-- `ds2431_set_parasite` and the two queries of src/ds2431.c. Flag bits are Boolean fields. `u` is the
-- union of `cmd`, `cap` and `pulse`: 161 bytes, read through three views. `out` is the content behind
-- the user's pointer.
use stm32_async_1wire.Prelude.{
  ℕ, ◌+◌, ◌*◌, Bool, true, false, not, List, [], ◌∷◌, Option, none, some, get_or, take, ◌==◌,
  if◌then◌else◌,
}
use stm32_async_1wire.OneWire.{Bus, search_active}
use stm32_async_1wire.OneWire

-- `ds2431_phase_t`.
pub data Phase : Type 0 where
  reset cmd read wait done idle : Phase

-- `DS2431_ctx_t`.
pub record Ctx : Type 0 where
  pub out : Option (List ℕ)
  pub u : List ℕ
  pub raw : List ℕ
  pub phase : Phase
  pub command : ℕ
  pub addr_lo : ℕ
  pub addr_hi : ℕ
  pub len : ℕ
  pub plen : ℕ
  pub es : ℕ
  pub payload : List ℕ
  pub selected_rom : List ℕ
  pub address_mode : Bool
  pub parasite : Bool
  pub ok : Bool
  pub finished : Bool
  pub pending : Bool
  pub echo : Bool

abbrev pub World : Type 0
World = Bus Ctx

abbrev pub put : World → Ctx → World
put w c = record w { owner = c }

abbrev pub read_memory : ℕ
read_memory = 0xf0

abbrev pub write_scratchpad : ℕ
write_scratchpad = 0x0f

abbrev pub read_scratchpad : ℕ
read_scratchpad = 0xaa

abbrev pub copy_scratchpad : ℕ
copy_scratchpad = 0x55

abbrev pub eeprom_size : ℕ
eeprom_size = 128

abbrev pub scratch_size : ℕ
scratch_size = 8

abbrev pub scratch_frame : ℕ
scratch_frame = 11

abbrev pub scratch_frame_crc : ℕ
scratch_frame_crc = 13

abbrev pub read_pass : ℕ
read_pass = 8

abbrev pub tprog_us : ℕ
tprog_us = 11000

abbrev pub copy_status_ok : ℕ
copy_status_ok = 0xaa

-- The view `u.cap` of the union: two little-endian halfwords.
unfoldable pub cap_view : List ℕ → List ℕ
cap_view u = (get_or u 0 0 + 256 * get_or u 1 0) ∷ (get_or u 2 0 + 256 * get_or u 3 0) ∷ []

abbrev pub is_parked : Phase → Bool
is_parked idle = true
is_parked done = true
is_parked _ = false

-- `ds2431_init`, for a timer clock in MHz.
unfoldable pub init : ℕ → World → World
init mhz w =
    let w' = OneWire.init mhz w in
    put w' (record (w'.owner) {
      address_mode = false;
      parasite = false;
      ok = false;
      finished = true;
      pending = false;
      echo = false;
      phase = idle;
      command = 0;
      len = 0;
      plen = 0;
      es = 0;
    })

-- The part of `ds2431_select` behind its guards; NULL is `none`.
unfoldable pub choose_rom : Ctx → Option (List ℕ) → Ctx
choose_rom c none = record c { address_mode = false; pending = false }
choose_rom c (some rom) = record c {
  selected_rom = take 8 rom;
  address_mode = true;
  pending = false;
}

-- `ds2431_select`.
unfoldable pub select : World → Option (List ℕ) → World
select w rom =
    if not (is_parked w.owner.phase)
    then w
    else if search_active w
    then w
    else put w (choose_rom w.owner rom)

-- `ds2431_set_parasite`.
unfoldable pub set_parasite : World → ℕ → World
set_parasite w parasite = put w (record (w.owner) { parasite = not (parasite == 0) })

-- `ds2431_parasite_mode`.
unfoldable pub parasite_mode : World → Bool
parasite_mode w = w.owner.parasite

-- `ds2431_last_command_ok`.
unfoldable pub last_command_ok : World → Bool
last_command_ok w = w.owner.ok
