-- ===== src/Ds18b20/Command.antt =====
-- What a command transaction puts on the wire: `txn_build_pulses` of src/ds18b20_txn.c.
use stm32_async_1wire.Prelude.{
  ℕ, suc, ◌*◌, ◌≤◌, Bool, true, not, ◌&&◌, List, [], ◌∷◌, ◌++◌, set, take, length, All,
  if◌then◌else◌, ◌≡◌, refl, arith, length-append, length-take, Bool-cases, inl, inr,
}
use stm32_async_1wire.Wire.{Build, encode_bytes, u8, release_pulse}
use stm32_async_1wire.Wire.Codec.{
  IsByte, IsBuilt, message, length-message, prefix, length-prefix, encode_prefix,
  encode_prefix-IsBuilt, encode_prefix_count, start-IsBuilt, put_byte-IsBuilt, put_bytes-IsBuilt,
  release_after,
}
use stm32_async_1wire.Ds18b20.Context.{Driver, World}
use stm32_async_1wire.Ds18b20.Txn.{txn_build_pulses}

-- Match ROM is sent to a selected device, unless a scan is armed or the command goes out bare.
abbrev pub use_match : Driver → Bool
use_match d = d.ctx.address_mode && not d.ctx.scan_mode && not d.txn.bare

abbrev pub address_bytes : Driver → List ℕ
address_bytes d = if d.txn.bare then [] else prefix (use_match d) d.ctx.selected_rom

abbrev pub command_bytes : Driver → List ℕ
command_bytes d = (address_bytes d ++ d.txn.command ∷ []) ++ take d.txn.payload_len d.txn.payload

-- Buffers of their declared sizes, and byte fields.
pub record IsSized (d : Driver) : Type 0 where
  pub table_size : length d.pulses ≡ 105
  pub rom_size : length d.ctx.selected_rom ≡ 8
  pub payload_size : length d.txn.payload ≡ 3
  pub payload_le : d.txn.payload_len ≤ 3
  pub rom_bytes : All IsByte d.ctx.selected_rom
  pub payload_bytes : All IsByte (take d.txn.payload_len d.txn.payload)
  pub command_byte : IsByte d.txn.command

abbrev start_build : Driver → Build
start_build d = record { table = d.pulses; cursor = 0 }

abbrev put_address : Driver → Build × ℕ
put_address d =
    if d.txn.bare
    then (start_build d, 0)
    else encode_prefix (use_match d) (start_build d) d.ctx.selected_rom

address-IsBuilt :
    (d : Driver)
    → IsSized d
    → IsBuilt (put_address d).0 (address_bytes d) 105
      × ((put_address d).1 ≡ length (address_bytes d))
      × (length (address_bytes d) ≤ 9)
address-IsBuilt d s = elim (Bool-cases d.txn.bare) [
  | inl b ↦ rw b (rw s.table_size at (start-IsBuilt d.pulses), refl, omega arith)
  | inr b ↦ rw b (
    encode_prefix-IsBuilt (d.ctx.address_mode && not d.ctx.scan_mode && true) d.pulses
        d.ctx.selected_rom 105 s.table_size (omega arith) s.rom_size s.rom_bytes,
    encode_prefix_count (d.ctx.address_mode && not d.ctx.scan_mode && true) (start_build d)
        d.ctx.selected_rom s.rom_size,
    length-prefix (d.ctx.address_mode && not d.ctx.scan_mode && true) d.ctx.selected_rom s.rom_size,
  )
]

-- The table and the slot count that `txn_build_pulses` leaves: the command's message, the release
-- pulse behind it, in at most 104 slots.
pub record IsBuiltCommand (d d' : Driver) : Type 0 where
  pub slots_is : d'.txn.slots ≡ length (message (command_bytes d))
  pub slots_le : d'.txn.slots ≤ 104
  pub table_is : take (suc d'.txn.slots) d'.pulses ≡ message (command_bytes d) ++ release_pulse ∷ []

finish :
    (d : Driver) (p : Build) (n : ℕ)
    → length (command_bytes d) ≤ 13
    → IsBuilt p (command_bytes d) 105
    → n ≡ length (command_bytes d)
    → IsBuiltCommand d (record d {
      txn = record (d.txn) { slots = u8 (n * 8) };
      pulses = set p.table (u8 (n * 8)) release_pulse;
    })
finish d p n l built e =
    let slots : u8 (n * 8) ≡ 8 * length (command_bytes d) = omega arith in
    rw slots (record {
      slots_is = omega (arith, length-message (command_bytes d));
      slots_le = omega arith;
      table_is = release_after p (command_bytes d) 105 (omega arith) built;
    })

-- Every command transaction's table is its message, with or without an address, and the release pulse.
pub txn_build_pulses-IsBuiltCommand :
    (w : World) → IsSized w.owner → IsBuiltCommand w.owner (txn_build_pulses w).owner
unfolding txn_build_pulses encode_bytes
txn_build_pulses-IsBuiltCommand w s =
    let d = w.owner in
    let a = address-IsBuilt d s in
    let joined = length-append (address_bytes d) (d.txn.command ∷ []) in
    let p1 =
      put_byte-IsBuilt (put_address d).0 (address_bytes d) d.txn.command 105 s.command_byte
        (omega arith) a.0 in
    let size = length-take d.txn.payload_len d.txn.payload in
    let p2 =
      put_bytes-IsBuilt _ (address_bytes d ++ d.txn.command ∷ [])
        (take d.txn.payload_len d.txn.payload) 105 s.payload_bytes (omega arith) p1 in
    let whole =
      length-append (address_bytes d ++ d.txn.command ∷ [])
        (take d.txn.payload_len d.txn.payload) in
    finish d _ _ (omega arith) p2 (omega (arith, s.payload_le, s.payload_size))
