-- ===== src/Ds2431/Command.antt =====
-- What an operation puts on the wire: `ds2431_build` and phase RESET of `ds2431_poll`.
use stm32_async_1wire.Prelude.{
  ℕ, suc, ◌*◌, ◌≤◌, true, not, List, [], ◌∷◌, ◌++◌, set, take, length, All, ◌==◌, if◌then◌else◌,
  ◌≡◌, arith, length-append, length-take, Bool-cases, inl, inr,
}
use mathlib.Core.List.{append-nil}
use stm32_async_1wire.Wire.{Build, put_bytes, encode_bytes, u8, release_pulse}
use stm32_async_1wire.Wire.Codec.{
  IsByte, IsBuilt, message, length-message, prefix, length-prefix, encode_prefix-IsBuilt,
  encode_prefix_count, put_byte-IsBuilt, put_bytes-IsBuilt, release_after,
}
use stm32_async_1wire.Port.Slots.{Sends}
use stm32_async_1wire.OneWire.{strong_pullup}
use stm32_async_1wire.OneWire.Sends.{bus-Sends}
use stm32_async_1wire.Ds2431.Context.{Ctx, World, read_scratchpad, copy_scratchpad}
use stm32_async_1wire.Ds2431.Txn.{put_address, put_payload, build, send_command, parasite_pullup}

-- The bytes of a command: prefix, function, target address but for Read Scratchpad, and the end offset
-- or the payload.
abbrev pub address_bytes : Ctx → ℕ → List ℕ
address_bytes c command =
    if not (command == read_scratchpad) then c.addr_lo ∷ c.addr_hi ∷ [] else []

abbrev pub payload_bytes : Ctx → ℕ → List ℕ
payload_bytes c command = if command == copy_scratchpad then c.es ∷ [] else take c.plen c.payload

abbrev pub command_bytes : Ctx → ℕ → List ℕ
command_bytes c command =
    ((prefix c.address_mode c.selected_rom ++ command ∷ []) ++ address_bytes c command)
    ++ payload_bytes c command

-- A context as the operations keep it: buffers of their declared sizes, and byte fields.
pub record IsSized (c : Ctx) : Type 0 where
  pub table_size : length c.u ≡ 161
  pub rom_size : length c.selected_rom ≡ 8
  pub payload_size : length c.payload ≡ 8
  pub plen_le : c.plen ≤ 8
  pub rom_bytes : All IsByte c.selected_rom
  pub payload_bytes : All IsByte (take c.plen c.payload)
  pub lo_byte : IsByte c.addr_lo
  pub hi_byte : IsByte c.addr_hi
  pub es_byte : IsByte c.es

put_address-IsBuilt :
    (c : Ctx) (command : ℕ) (b : Build) (n : ℕ) (bytes : List ℕ)
    → IsSized c
    → length bytes ≤ 10
    → n ≡ length bytes
    → IsBuilt b bytes 161
    → IsBuilt (put_address c command (b, n)).0 (bytes ++ address_bytes c command) 161
      × ((put_address c command (b, n)).1 ≡ length (bytes ++ address_bytes c command))
unfolding put_address put_bytes
put_address-IsBuilt c command b n bytes s l e built =
    elim (Bool-cases (command == read_scratchpad)) [
      | inl r ↦ rw (r, append-nil bytes) (built, e)
      | inr r ↦ rw r (
        put_bytes-IsBuilt b bytes (c.addr_lo ∷ c.addr_hi ∷ []) 161 (s.lo_byte, (s.hi_byte, tt))
            (omega arith) built,
        omega (arith, length-append bytes (c.addr_lo ∷ c.addr_hi ∷ [])),
      )
    ]

put_payload-IsBuilt :
    (c : Ctx) (command : ℕ) (b : Build) (n : ℕ) (bytes : List ℕ)
    → IsSized c
    → length bytes ≤ 12
    → n ≡ length bytes
    → IsBuilt b bytes 161
    → IsBuilt (put_payload c command (b, n)).0 (bytes ++ payload_bytes c command) 161
      × ((put_payload c command (b, n)).1 ≡ length (bytes ++ payload_bytes c command))
unfolding put_payload encode_bytes put_bytes
put_payload-IsBuilt c command b n bytes s l e built =
    elim (Bool-cases (command == copy_scratchpad)) [
      | inl r ↦ rw r (
        put_bytes-IsBuilt b bytes (c.es ∷ []) 161 (s.es_byte, tt) (omega arith) built,
        omega (arith, length-append bytes (c.es ∷ [])),
      )
      | inr r ↦ rw r (
        put_bytes-IsBuilt b bytes (take c.plen c.payload) 161 s.payload_bytes
            (omega (arith, length-take c.plen c.payload)) built,
        omega (
          arith,
          length-append bytes (take c.plen c.payload),
          length-take c.plen c.payload,
          s.plen_le,
          s.payload_size,
        ),
      )
    ]

-- The command table, built in full, with the count of its bytes.
pub record IsBuiltCommand (c : Ctx) (command : ℕ) (c' : Ctx) (slots : ℕ) : Type 0 where
  pub slots_is : slots ≡ length (message (command_bytes c command))
  pub slots_le : slots ≤ 160
  pub table_is : take (suc slots) c'.u ≡ message (command_bytes c command) ++ release_pulse ∷ []

length-address : (c : Ctx) (command : ℕ) → length (address_bytes c command) ≤ 2
length-address c command = ground arith

length-payload : (c : Ctx) (command : ℕ) → c.plen ≤ 8 → length (payload_bytes c command) ≤ 8
length-payload c command h = ground (arith, length-take c.plen c.payload)

finish :
    (c : Ctx) (command : ℕ) (p : Build) (n : ℕ)
    → length (command_bytes c command) ≤ 20
    → IsBuilt p (command_bytes c command) 161
    → n ≡ length (command_bytes c command)
    → IsBuiltCommand c command
        (record c { u = set p.table (u8 (n * 8)) release_pulse })
        (u8 (n * 8))
finish c command p n l built e =
    let slots : u8 (n * 8) ≡ 8 * length (command_bytes c command) = omega arith in
    rw slots (record {
      slots_is = omega (arith, length-message (command_bytes c command));
      slots_le = omega arith;
      table_is = release_after p (command_bytes c command) 161 (omega arith) built;
    })

-- The table that `ds2431_build` leaves is the command's message and the release pulse, in at most 160
-- slots.
pub build-IsBuiltCommand :
    (c : Ctx) (command : ℕ)
    → IsSized c
    → IsByte command
    → IsBuiltCommand c command (build c command).0 (build c command).1
unfolding build
build-IsBuiltCommand c command s h =
    let rom = c.selected_rom in
    let first = prefix c.address_mode rom in
    let start : Build = record { table = c.u; cursor = 0 } in
    let short = length-prefix c.address_mode rom s.rom_size in
    let joined = length-append first (command ∷ []) in
    let p0 =
      encode_prefix-IsBuilt c.address_mode c.u rom 161 s.table_size (omega arith) s.rom_size
        s.rom_bytes in
    let n0 = encode_prefix_count c.address_mode start rom s.rom_size in
    let p1 = put_byte-IsBuilt _ first command 161 h (omega arith) p0 in
    let p2 =
      put_address-IsBuilt c command _ _ (first ++ command ∷ []) s (omega arith) (omega arith) p1 in
    let with_address = length-append (first ++ command ∷ []) (address_bytes c command) in
    let a_le = length-address c command in
    let p3 =
      put_payload-IsBuilt c command _ _ ((first ++ command ∷ []) ++ address_bytes c command) s
        (omega arith) p2.1 p2.0 in
    let whole =
      length-append ((first ++ command ∷ []) ++ address_bytes c command)
        (payload_bytes c command) in
    let b_le = length-payload c command s.plen_le in finish c command _ _ (omega arith) p3.0 p3.1

pullup_owner : (w : World) → (parasite_pullup w true).owner ≡ w.owner
unfolding parasite_pullup strong_pullup
pullup_owner w = ground arith

command_bytes_some : (c : Ctx) (command : ℕ) → 1 ≤ length (message (command_bytes c command))
command_bytes_some c command = omega (
  arith,
  length-message (command_bytes c command),
  length-append ((prefix c.address_mode c.selected_rom ++ command ∷ []) ++ address_bytes c command)
      (payload_bytes c command),
  length-append (prefix c.address_mode c.selected_rom ++ command ∷ []) (address_bytes c command),
  length-append (prefix c.address_mode c.selected_rom) (command ∷ []),
)

-- With a device present, the poll of a reset sends the command's message slot by slot, and the line is
-- released behind it.
pub send_command-Sends :
    (w : World)
    → IsSized w.owner
    → IsByte w.owner.command
    → Sends (send_command w).port (message (command_bytes w.owner w.owner.command))
unfolding send_command
send_command-Sends w s h =
    let built = build-IsBuiltCommand w.owner w.owner.command s h in
    rw (pullup_owner w) (
      bus-Sends _ (build w.owner w.owner.command).0.u
        (message (command_bytes w.owner w.owner.command)) (build w.owner w.owner.command).1
        built.slots_is (command_bytes_some w.owner w.owner.command)
        (omega (arith, built.slots_is, built.slots_le)) built.table_is)
