-- ===== src/Console.antt =====
-- The console of the examples: the USART transmit ring and the printing functions of
-- examples/app/app.c. The size of the ring is a power of two, 128 by default. Texts are lists of
-- character codes, without the terminating 0. The bytes that the USART took are kept in `line`,
-- the oldest first; `ready` is its TXE flag.
pub mod Queue
pub mod Decimal
pub mod Print
mod Tests
use Prim.Native.Char.{code}
use Prim.Native.String.{String}
use stm32_async_1wire.Prelude.{
  ℕ, zero, suc, ◌+◌, ◌-◌, ◌*◌, ◌/◌, ◌%◌, ◌^◌, bit_and, Bool, true, false, not, ◌&&◌, List, [], ◌∷◌,
  ◌++◌, get_or, set, ltb, ◌==◌, if◌then◌else◌,
}
use stm32_async_1wire.Prelude.Int.{ℤ, pos, negsuc}
use stm32_async_1wire.Wire.{u8}

-- The static ring and the register that it feeds. `log_size` is the logarithm of UART_TX_BUF_SIZE.
pub record Ring : Type 0 where
  pub log_size : ℕ
  pub head : ℕ
  pub tail : ℕ
  pub buf : List ℕ
  pub ready : Bool
  pub line : List ℕ

-- The codes of a text.
abbrev pub codes : String → List ℕ
codes String.[] = []
codes (String.◌∷◌ c s) = code c ∷ codes s

-- `(i + 1u) & UART_TX_IDX_MASK`.
unfoldable pub next_index : Ring → ℕ → ℕ
next_index r i = bit_and (i + 1) (2 ^ r.log_size - 1)

-- `uart_poll_tx`.
unfoldable pub poll_tx : Ring → Ring
poll_tx r =
    if r.ready && not (r.tail == r.head)
    then record r { tail = next_index r r.tail; line = r.line ++ get_or r.buf r.tail 0 ∷ [] }
    else r

-- `uart_flush`, with the number of rounds that its loop may take.
unfoldable pub flush : ℕ → Ring → Ring
flush zero r = r
flush (suc rounds) r = let rest = flush rounds (poll_tx r) in if r.tail == r.head then r else rest

-- `uart_tx_enqueue_byte`, with its answer.
unfoldable pub enqueue_byte : Ring → ℕ → Ring × Bool
enqueue_byte r b =
    let next = next_index r r.head in
    if not (next == r.tail)
    then (record r { buf = set r.buf r.head (u8 b); head = next }, true)
    else (r, false)

-- `uart_write_str`, with its count.
unfoldable pub write_str : Ring → List ℕ → Ring × ℕ
write_str r [] = (r, 0)
write_str r (c ∷ s) =
    let (r', ok) = enqueue_byte r c in
    let (r'', n) = write_str r' s in if ok then (r'', suc n) else (r', 0)

-- The digit loop of `uart_write_int`, in front of the characters there; ten rounds are enough for
-- `unsigned int`.
unfoldable pub put_digits : ℕ → ℕ → List ℕ → List ℕ
put_digits zero u p = p
put_digits (suc fuel) u p =
    let p' = (48 + u % 10) ∷ p in
    let rest = put_digits fuel (u / 10) p' in if u / 10 == 0 then p' else rest

-- The text that `uart_write_int` enqueues.
unfoldable pub int_text : ℤ → List ℕ
int_text (pos zero) = 48 ∷ []
int_text (pos (suc n)) = put_digits 10 (suc n) []
int_text (negsuc n) = 45 ∷ put_digits 10 (n + 1) []

-- `uart_write_int`.
unfoldable pub write_int : Ring → ℤ → Ring × ℕ
write_int r value = write_str r (int_text value)

abbrev pub hex_digits : List ℕ
hex_digits = codes "0123456789ABCDEF"

-- `uart_write_hex`.
unfoldable pub write_hex : Ring → ℕ → Ring × ℕ
write_hex r b =
    let (r1, a) = enqueue_byte r (get_or hex_digits (bit_and (b / 16) 15) 0) in
    let (r2, c) = enqueue_byte r1 (get_or hex_digits (bit_and b 15) 0) in
    (r2, (if a then 1 else 0) + (if c then 1 else 0))
