-- ===== src/Eeprom/Row.antt =====
-- The row that the EEPROM demonstration writes, examples/8_ds2431/main.c: `finish_step` behind the baseline, and
-- the write that follows.
use stm32_async_1wire.Prelude.{
  ℕ, zero, suc, ◌+◌, ◌≤◌, ◌<◌, ◌≢◌, true, List, [], ◌∷◌, ◌++◌, some, get_or, take, drop, length,
  ◌≡◌, refl, sym, ap, ◌∙◌, arith, length-take, ==_iff,
}
use stm32_async_1wire.Wire.{u8}
use stm32_async_1wire.OneWire.{strong_pullup, reset_bus, search_active}
use stm32_async_1wire.Ds2431.Context.{World, last_command_ok}
use stm32_async_1wire.Ds2431.Txn.{start, can_start}
use stm32_async_1wire.Ds2431.Memory.{write_scratchpad, latch, out_of_range}
use stm32_async_1wire.Ds2431.Integrity.{IsLatched}
use stm32_async_1wire.Eeprom.{
  Demo, read_baseline, bytes_equal, next_row, start_step, finish_step, use_result, print_bytes,
}
use stm32_async_1wire.Eeprom

length-next_row : (row : List ℕ) → length (next_row row) ≡ length row
unfolding next_row
length-next_row [] = refl
length-next_row (b ∷ row) = ap suc (length-next_row row)

get_or-next_row :
    (row : List ℕ) (i : ℕ) → i < length row → get_or (next_row row) i 0 ≡ u8 (get_or row i 0 + 1)
unfolding next_row
get_or-next_row [] i h = absurd (omega arith)
get_or-next_row (b ∷ row) zero h = refl
get_or-next_row (b ∷ row) (suc i) h = get_or-next_row row i (omega arith)

get_or-take : (n : ℕ) (row : List ℕ) (i : ℕ) → i < n → get_or (take n row) i 0 ≡ get_or row i 0
get_or-take zero row i h = absurd (omega arith)
get_or-take (suc n) [] i h = refl
get_or-take (suc n) (b ∷ row) zero h = refl
get_or-take (suc n) (b ∷ row) (suc i) h = get_or-take n row i (omega arith)

bytes_equal_at :
    (a b : List ℕ) (n i : ℕ) → i < n → bytes_equal a b n ≡ true → get_or a i 0 ≡ get_or b i 0
unfolding bytes_equal
bytes_equal_at a b zero i h e = absurd (omega arith)
bytes_equal_at a b (suc n) i h e =
    ground (arith, bytes_equal_at a b n i, (==_iff (get_or a n 0) (get_or b n 0)).0)

take_front : (n : ℕ) (xs ys : List ℕ) → length xs ≡ n → take n (take n xs ++ ys) ≡ xs
take_front zero [] ys h = refl
take_front zero (x ∷ xs) ys h = absurd (omega arith)
take_front (suc n) [] ys h = absurd (omega arith)
take_front (suc n) (x ∷ xs) ys h = ap (λ (l : List ℕ). x ∷ l) (take_front n xs ys (omega arith))

-- The write that follows a row read: it is latched for the row's address, its payload is the row with every
-- byte incremented, and a row that agrees with it has every byte changed.
pub record IsRowWritten (row : List ℕ) (write_data : List ℕ) (w : World) : Type 0 where
  pub latched : IsLatched 0 8 w.owner
  pub payload_is : take 8 w.owner.payload ≡ write_data
  pub next : (i : ℕ) → i < 8 → get_or write_data i 0 ≡ u8 (get_or row i 0 + 1)
  pub changed :
      (read : List ℕ)
      → bytes_equal read write_data 8 ≡ true
      → (i : ℕ) → i < 8
      → get_or read i 0 ≢ get_or row i 0

differs : (b : ℕ) → u8 (b + 1) ≢ b
differs b e = omega arith

row_next :
    (row : List ℕ)
    → 8 ≤ length row
    → (i : ℕ) → i < 8
    → get_or (next_row (take 8 row)) i 0 ≡ u8 (get_or row i 0 + 1)
row_next row l i h =
    get_or-next_row (take 8 row) i (rw (length-take 8 row) (omega arith))
    ∙ ap (λ (b : ℕ). u8 (b + 1)) (get_or-take 8 row i h)

write-IsLatched :
    (w : World) (row : List ℕ)
    → can_start w ≡ true
    → length row ≡ 8
    → let w' = (write_scratchpad w 0 (some row) 8).0 in
      IsLatched 0 8 w'.owner × (take 8 w'.owner.payload ≡ row)
unfolding write_scratchpad out_of_range start can_start strong_pullup reset_bus search_active latch
write-IsLatched w row h l = ground (arith, take_front 8 row (drop 8 w.owner.payload) l)

baseline_data :
    (d : Demo)
    → last_command_ok d.world ≡ true
    → ((finish_step read_baseline d).write_data ≡ next_row (take 8 d.eeprom_data))
      × ((finish_step read_baseline d).world ≡ d.world)
unfolding finish_step use_result print_bytes
baseline_data d ok = ground (arith, ok)

-- When the baseline read of a device has succeeded and the driver is free, the write that follows is taken and
-- latched for the first eight bytes: its payload is the row that was read with every byte incremented, so that
-- a read-back that is reported to match has changed in each of its bytes.
pub baseline-IsRowWritten :
    (d : Demo)
    → last_command_ok d.world ≡ true
    → can_start d.world ≡ true
    → 8 ≤ length d.eeprom_data
    → let d' = finish_step read_baseline d in
      IsRowWritten d.eeprom_data d'.write_data (start_step Eeprom.write_scratchpad d').world
unfolding start_step print_bytes
baseline-IsRowWritten d ok s l =
    let d' = finish_step read_baseline d in
    let b = baseline_data d ok in
    let n : length d'.write_data ≡ 8 =
      ap length b.0
      ∙ length-next_row (take 8 d.eeprom_data)
      ∙ length-take 8 d.eeprom_data
      ∙ omega arith in
    let w = write-IsLatched d'.world d'.write_data (ap can_start b.1 ∙ s) n in
    let next =
      λ (i : ℕ) (h : i < 8). ap (λ (r : List ℕ). get_or r i 0) b.0 ∙ row_next d.eeprom_data l i h in
    record {
      latched = w.0;
      payload_is = w.1;
      next = next;
      changed = λ read e i h q.
          differs (get_or d.eeprom_data i 0)
            (sym (next i h) ∙ sym (bytes_equal_at read d'.write_data 8 i h e) ∙ q);
    }
