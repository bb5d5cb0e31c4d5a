-- ===== src/Ds2431/Integrity.antt =====
-- When an operation reports success, and what a rejected call leaves: `ds2431_last_command_ok` and the
-- checks of src/ds2431_txn.c and src/ds2431.c.
use stm32_async_1wire.Prelude.{
  ℕ, zero, suc, ◌+◌, ◌-◌, ◌*◌, ◌%◌, ◌≤◌, ◌<◌, Bool, true, false, List, Option, none, some, get_or,
  take, ◌∷◌, ◌==◌, bit_and, bit_or, ◌≡◌, refl, arith, all_below, all_below_sound, ==_iff,
}
use stm32_async_1wire.Prelude.Masks.{bit_and_le}
use stm32_async_1wire.Wire.{decode_pulses, u8, crc16}
use stm32_async_1wire.OneWire.{reset_bus, strong_pullup}
use stm32_async_1wire.Ds2431.Context.{Ctx, World, put, done, reset}
use stm32_async_1wire.Ds2431.Context
use stm32_async_1wire.Ds2431.Txn.{
  start, take_answer, read_ok, echo_ok, same_payload, scratchpad_data_len, scratchpad_crc_ok,
}
use stm32_async_1wire.Ds2431.Memory.{write_scratchpad, latch, out_of_range}

-- A rejected write leaves everything as it was, the latched target included.
pub write_scratchpad_rejected :
    (w : World) (addr : ℕ) (data' : Option (List ℕ)) (len : ℕ)
    → (write_scratchpad w addr data' len).1 ≡ false
    → (write_scratchpad w addr data' len).0 ≡ w
unfolding write_scratchpad start
write_scratchpad_rejected w addr none len h = refl
write_scratchpad_rejected w addr (some bytes) len h = ground arith

low_test : ℕ → Bool
low_test x = bit_and x 7 == x % 8

low_bits : (x : ℕ) → x < 256 → bit_and x 7 ≡ x % 8
unfolding low_test all_below
low_bits x h = (==_iff _ _).0 (all_below_sound 256 low_test x refl h)

-- For the copy that may follow: the request lies in the memory and starts a block, and the two address
-- bytes and the end offset describe exactly its bytes.
pub record IsLatched (addr len : ℕ) (c : Ctx) : Type 0 where
  pub in_memory : addr + len ≤ 128
  pub aligned : addr % 8 ≡ 0
  pub address_is : c.addr_lo + 256 * c.addr_hi ≡ addr
  pub end_is : c.es + 1 ≡ len
  pub is_pending : c.pending ≡ true
  pub running : c.finished ≡ false

-- An accepted write has latched its own target.
pub write_scratchpad-IsLatched :
    (w : World) (addr : ℕ) (data' : List ℕ) (len : ℕ)
    → (write_scratchpad w addr (some data') len).1 ≡ true
    → IsLatched addr len (write_scratchpad w addr (some data') len).0.owner
unfolding write_scratchpad start latch out_of_range strong_pullup reset_bus
write_scratchpad-IsLatched w addr data' len h =
    ground (arith, low_bits addr, low_bits (addr + len - 1))

-- What a verified scratchpad reply of `n` data bytes says of the write that it follows: its inverted CRC-16
-- is that of the command, the header and the data, and where it checks a write, the header and the data are
-- those of the write.
pub record IsVerified (n : ℕ) (c : Ctx) : Type 0 where
  pub has_data : 1 ≤ n
  pub length_is : bit_and (get_or c.raw 0 0) 7 + n ≡ bit_and (get_or c.raw 2 0) 7 + 1
  pub sum_ok :
      bit_or (get_or c.raw (3 + n) 0) (get_or c.raw (4 + n) 0 * 256)
      ≡ 65535 - crc16 (0xaa ∷ take (3 + n) c.raw) (4 + n)
  pub low_ok : c.echo ≡ true → c.pending ≡ true → get_or c.raw 0 0 ≡ c.addr_lo
  pub high_ok : c.echo ≡ true → c.pending ≡ true → get_or c.raw 1 0 ≡ c.addr_hi
  pub end_ok : c.echo ≡ true → c.pending ≡ true → bit_and (get_or c.raw 2 0) 7 ≡ c.es
  pub complete : c.echo ≡ true → c.pending ≡ true → bit_and (get_or c.raw 2 0) 0x20 ≡ 0
  pub payload_ok :
      c.echo ≡ true
      → c.pending ≡ true
      → (i : ℕ) → i < n
      → get_or c.raw (3 + i) 0 ≡ get_or c.payload i 0

-- `same_payload` compares each of the bytes.
same_payload_lem :
    (n i : ℕ) (raw payload : List ℕ)
    → same_payload n raw payload ≡ true
    → i < n
    → get_or raw (3 + i) 0 ≡ get_or payload i 0
unfolding same_payload
same_payload_lem zero i raw payload h l = absurd (omega arith)
same_payload_lem (suc n) i raw payload h l = grind (arith, same_payload_lem n i raw payload)

data_len_lem :
    (raw : List ℕ)
    → 1 ≤ scratchpad_data_len raw
    → (bit_and (get_or raw 0 0) 7 + scratchpad_data_len raw ≡ bit_and (get_or raw 2 0) 7 + 1)
      × (scratchpad_data_len raw ≤ 8)
unfolding scratchpad_data_len
data_len_lem raw h = ground (arith, bit_and_le (get_or raw 0 0) 7, bit_and_le (get_or raw 2 0) 7)

crc_lem :
    (raw : List ℕ) (n : ℕ)
    → n ≤ 8
    → scratchpad_crc_ok raw n ≡ true
    → bit_or (get_or raw (3 + n) 0) (get_or raw (4 + n) 0 * 256)
      ≡ 65535 - crc16 (0xaa ∷ take (3 + n) raw) (4 + n)
unfolding scratchpad_crc_ok
crc_lem raw n l h = let small : u8 (4 + n) ≡ 4 + n = omega arith in rw small at ((==_iff _ _).0 h)

-- The checks that the code makes of a reply.
record IsChecked (c : Ctx) : Type 0 where
  some_data : 1 ≤ scratchpad_data_len c.raw
  crc_ok : scratchpad_crc_ok c.raw (scratchpad_data_len c.raw) ≡ true
  low_is : c.echo ≡ true → c.pending ≡ true → get_or c.raw 0 0 ≡ c.addr_lo
  high_is : c.echo ≡ true → c.pending ≡ true → get_or c.raw 1 0 ≡ c.addr_hi
  es_is : c.echo ≡ true → c.pending ≡ true → bit_and (get_or c.raw 2 0) 7 ≡ c.es
  whole : c.echo ≡ true → c.pending ≡ true → bit_and (get_or c.raw 2 0) 0x20 ≡ 0
  payload_is :
      c.echo ≡ true
      → c.pending ≡ true
      → same_payload (scratchpad_data_len c.raw) c.raw c.payload ≡ true

take_answer-IsChecked :
    (w : World)
    → w.owner.command ≡ Context.read_scratchpad
    → w.owner.ok ≡ false
    → (take_answer w).owner.ok ≡ true
    → IsChecked (take_answer w).owner
unfolding take_answer read_ok echo_ok
take_answer-IsChecked w c o h = ground arith

-- The answer to Read Scratchpad sets the success flag only if the inverted CRC-16 of the command, the header
-- and the data (of the length that the header gives) is the one received and, for the read that checks a write,
-- the address, the end offset, completeness and each byte of the payload agree with the write.
pub take_answer-IsVerified :
    (w : World)
    → w.owner.command ≡ Context.read_scratchpad
    → w.owner.ok ≡ false
    → (take_answer w).owner.ok ≡ true
    → let c = (take_answer w).owner in IsVerified (scratchpad_data_len c.raw) c
take_answer-IsVerified w e o h =
    let c = (take_answer w).owner in
    let k = take_answer-IsChecked w e o h in
    let l = data_len_lem c.raw k.some_data in
    record {
      has_data = k.some_data;
      length_is = l.0;
      sum_ok = crc_lem c.raw _ l.1 k.crc_ok;
      low_ok = k.low_is;
      high_ok = k.high_is;
      end_ok = k.es_is;
      complete = k.whole;
      payload_ok = λ x y i h. same_payload_lem _ i c.raw c.payload (k.payload_is x y) h;
    }

-- Copy Scratchpad succeeds exactly if the device answers with its completion pattern.
pub take_answer_copied :
    (w : World)
    → w.owner.command ≡ Context.copy_scratchpad
    → w.owner.ok ≡ false
    → (take_answer w).owner.ok
      ≡ (get_or (decode_pulses w.owner.raw w.owner.u w.owner.len) 0 0 == 0xaa)
unfolding take_answer read_ok
take_answer_copied w c o = ground arith
