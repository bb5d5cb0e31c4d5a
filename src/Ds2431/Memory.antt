-- ===== src/Ds2431/Memory.antt =====
-- The memory operations: src/ds2431.c.
use stm32_async_1wire.Prelude.{
  ℕ, ◌+◌, ◌-◌, ◌/◌, ◌%◌, Bool, true, false, not, ◌||◌, List, ◌++◌, Option, none, some, take, drop,
  replicate, ltb, leb, ◌==◌, if◌then◌else◌, bit_and,
}
use stm32_async_1wire.Wire.{u8}
use stm32_async_1wire.Ds2431.Context.{
  Ctx, World, put, eeprom_size, scratch_size, read_pass, scratch_frame, scratch_frame_crc,
}
use stm32_async_1wire.Ds2431.Context
use stm32_async_1wire.Ds2431.Txn.{start, poll, scratchpad_data_len}

-- The range test of `ds2431_read_memory` and `ds2431_write_scratchpad`, for at most `limit` bytes.
unfoldable pub out_of_range : ℕ → ℕ → ℕ → Bool
out_of_range limit addr len =
    ltb len 1 || ltb limit len || leb eeprom_size addr || ltb eeprom_size (addr + len)

-- `ds2431_read_memory`.
unfoldable pub read_memory : World → Option (List ℕ) → ℕ → ℕ → World
read_memory w none addr len = w
read_memory w (some dst) addr len =
    if out_of_range read_pass addr len
    then w
    else (start
        (put w
          (record (w.owner) { addr_lo = addr % 256; addr_hi = addr / 256; len = len; plen = 0 }))
        Context.read_memory (some dst)).0

-- The copy of the answer's first `len` bytes to the user's buffer, where there is one.
unfoldable pub copied : Option (List ℕ) → List ℕ → ℕ → Option (List ℕ)
copied none raw len = none
copied (some out) raw len = some (take len raw ++ drop len out)

-- `ds2431_read_memory_poll`.
unfoldable pub read_memory_poll : World → World × Bool
read_memory_poll w =
    let (w', is_done) = poll w in
    if not is_done then (w', false) else (
      if w'.owner.ok
          then put w' (record (w'.owner) { out = copied w'.owner.out w'.owner.raw w'.owner.len })
          else w',
      true,
    )

-- What `ds2431_write_scratchpad` latches once the operation is scheduled.
unfoldable pub latch : Ctx → ℕ → List ℕ → ℕ → Ctx
latch c addr data' len = record c {
  addr_lo = addr % 256;
  addr_hi = addr / 256;
  es = bit_and (addr + len - 1) 7;
  len = 0;
  plen = len;
  payload = take len data' ++ drop len c.payload;
  pending = true;
}

-- `ds2431_write_scratchpad`, with its answer.
unfoldable pub write_scratchpad : World → ℕ → Option (List ℕ) → ℕ → World × Bool
write_scratchpad w addr none len = (w, false)
write_scratchpad w addr (some data') len =
    if out_of_range scratch_size addr len || not (bit_and addr 7 == 0)
    then (w, false)
    else (let (w', ok) = start w Context.write_scratchpad none in
        if not ok then (w', false) else (put w' (latch w'.owner addr data' len), true))

-- `ds2431_read_scratchpad`.
unfoldable pub read_scratchpad : World → Option (List ℕ) → World
read_scratchpad w none = w
read_scratchpad w (some buf) =
    let w' =
      (start (put w (record (w.owner) { len = scratch_frame_crc; plen = 0 }))
        Context.read_scratchpad (some buf)).0 in
    put w' (record (w'.owner) { echo = true })

-- The frame that `ds2431_read_scratchpad_poll` hands over: the valid window, then zeros.
unfoldable pub frame_window : List ℕ → List ℕ
frame_window raw =
    let valid = u8 (3 + scratchpad_data_len raw) in
    take scratch_frame (take valid raw ++ replicate (scratch_frame - valid) 0)

unfoldable pub framed : Option (List ℕ) → List ℕ → Option (List ℕ)
framed none raw = none
framed (some out) raw = some (frame_window raw ++ drop scratch_frame out)

-- `ds2431_read_scratchpad_poll`.
unfoldable pub read_scratchpad_poll : World → World × Bool
read_scratchpad_poll w =
    let (w', is_done) = poll w in
    if not is_done then (w', false) else (
      if w'.owner.ok
          then put w' (record (w'.owner) { out = framed w'.owner.out w'.owner.raw })
          else w',
      true,
    )

-- `ds2431_copy_scratchpad`.
unfoldable pub copy_scratchpad : World → World
copy_scratchpad w =
    if not w.owner.pending
    then w
    else (start (put w (record (w.owner) { len = 1; plen = 0 })) Context.copy_scratchpad none).0
