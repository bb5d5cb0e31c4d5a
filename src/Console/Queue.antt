-- ===== src/Console/Queue.antt =====
-- The ring as a bounded queue of bytes, oldest first.
use stm32_async_1wire.Prelude.{
  ℕ, zero, suc, ◌+◌, ◌-◌, ◌^◌, ◌≤◌, ◌<◌, inl, inr, Bool, true, false, not, ◌&&◌, List, [], ◌∷◌,
  ◌++◌, get_or, set, length, ltb, leb, ◌==◌, if◌then◌else◌, ◌≡◌, ◌≢◌, refl, sym, ap, ap₂, ◌↔◌, ◌∙◌,
  arith, length-set, get_or-set_self, get_or-set_ne, Bool-cases, ==_iff,
}
use mathlib.Core.List.{append_assoc}
use stm32_async_1wire.Prelude.Masks.{bit_and-mask, bit_and-mask_power}
use stm32_async_1wire.Wire.{u8}
use stm32_async_1wire.Console.{Ring, next_index, poll_tx, enqueue_byte}

abbrev pub size : Ring → ℕ
size r = 2 ^ r.log_size

-- The index of a position that counts on behind the end of the buffer.
abbrev slot : ℕ → ℕ → ℕ
slot n i = if ltb i n then i else i - n

-- `count` entries from position `i` of a buffer of `n` entries.
abbrev pub stored : ℕ → ℕ → ℕ → List ℕ → List ℕ
stored n zero i buf = []
stored n (suc count) i buf = get_or buf (slot n i) 0 ∷ stored n count (i + 1) buf

-- How many bytes wait.
abbrev pub waiting : Ring → ℕ
waiting r = if leb r.tail r.head then r.head - r.tail else r.head + size r - r.tail

-- The bytes that wait, oldest first.
abbrev pub contents : Ring → List ℕ
contents r = stored (size r) (waiting r) r.tail r.buf

-- The indices lie in the buffer, and the buffer has its declared size.
pub record IsRing (r : Ring) : Type 0 where
  pub head_in : r.head < size r
  pub tail_in : r.tail < size r
  pub buf_size : length r.buf ≡ size r

length-stored : (n count i : ℕ) (buf : List ℕ) → length (stored n count i buf) ≡ count
length-stored n zero i buf = refl
length-stored n (suc count) i buf = ap suc (length-stored n count (i + 1) buf)

pub length-contents : (r : Ring) → length (contents r) ≡ waiting r
length-contents r = length-stored (size r) (waiting r) r.tail r.buf

next_index_wraps :
    (r : Ring) (i : ℕ) → i < size r → next_index r i ≡ (if i + 1 == size r then 0 else i + 1)
unfolding next_index
next_index_wraps r i h = elim (Bool-cases (i + 1 == size r)) [
  | inl e ↦ rw (e, (==_iff _ _).0 e) (bit_and-mask_power r.log_size)
  | inr e ↦ rw e (bit_and-mask r.log_size (i + 1) (ground arith))
]

stored-snoc :
    (n count i : ℕ) (buf : List ℕ)
    → stored n (suc count) i buf ≡ stored n count i buf ++ get_or buf (slot n (i + count)) 0 ∷ []
stored-snoc n zero i buf = rw (add_zero i)
  where
    add_zero : (x : ℕ) → x + 0 ≡ x
    add_zero x = omega arith
stored-snoc n (suc count) i buf =
    ap (λ (t : List ℕ). get_or buf (slot n i) 0 ∷ t) (rw moved at (stored-snoc n count (i + 1) buf))
  where
    moved : i + 1 + count ≡ i + suc count
    moved = omega arith

-- A write outside the entries leaves them.
stored-set :
    (n count i j v : ℕ) (buf : List ℕ)
    → ((m : ℕ) → i ≤ m → m < i + count → slot n m ≢ j)
    → stored n count i (set buf j v) ≡ stored n count i buf
stored-set n zero i j v buf h = refl
stored-set n (suc count) i j v buf h =
    ap₂ ◌∷◌ (get_or-set_ne buf j (slot n i) v 0 (λ e. h i (omega arith) (omega arith) (sym e)))
      (stored-set n count (i + 1) j v buf (λ m lo hi. h m (omega arith) (omega arith)))

-- Positions counted from the start of the buffer again.
stored-wrap :
    (n count i : ℕ) (buf : List ℕ)
    → i + count ≤ n
    → stored n count (n + i) buf ≡ stored n count i buf
stored-wrap n zero i buf h = refl
stored-wrap n (suc count) i buf h =
    ap₂ ◌∷◌ (ap (λ (k : ℕ). get_or buf k 0) wrapped)
      (rw next at (stored-wrap n count (i + 1) buf (omega arith)))
  where
    wrapped : slot n (n + i) ≡ slot n i
    wrapped = ground arith

    next : n + (i + 1) ≡ n + i + 1
    next = omega arith

-- Where the head stands.
head_slot : (r : Ring) → IsRing r → slot (size r) (r.tail + waiting r) ≡ r.head
head_slot r v = ground arith

pub waiting-lt : (r : Ring) → IsRing r → waiting r < size r
waiting-lt r v = ground arith

-- The ring is full when the next index is the tail.
full_iff : (r : Ring) → IsRing r → (next_index r r.head ≡ r.tail) ↔ (waiting r + 1 ≡ size r)
full_iff r v = rw (next_index_wraps r r.head v.head_in) (λ e. ground arith, λ e. ground arith)

-- A byte is accepted exactly if fewer than `size - 1` wait; it then stands last, and a refused byte
-- leaves the ring alone.
pub record IsEnqueued (r : Ring) (b : ℕ) (r' : Ring) (ok : Bool) : Type 0 where
  pub valid : IsRing r'
  pub same_size : size r' ≡ size r
  pub answer_is : ok ≡ ltb (waiting r + 1) (size r)
  pub contents_are : contents r' ≡ (if ok then contents r ++ u8 b ∷ [] else contents r)

abbrev stored_byte : Ring → ℕ → Ring
stored_byte r b = record r { buf = set r.buf r.head (u8 b); head = next_index r r.head }

waiting-stored_byte :
    (r : Ring) (b : ℕ)
    → IsRing r
    → waiting r + 1 < size r
    → waiting (stored_byte r b) ≡ suc (waiting r)
waiting-stored_byte r b v room = rw (next_index_wraps r r.head v.head_in) (ground arith)

contents-stored_byte :
    (r : Ring) (b : ℕ)
    → IsRing r
    → waiting r + 1 < size r
    → contents (stored_byte r b) ≡ contents r ++ u8 b ∷ []
contents-stored_byte r b v room =
    let n = size r in
    let w = waiting r in
    let buf' = set r.buf r.head (u8 b) in
    ap (λ (k : ℕ). stored n k r.tail buf') (waiting-stored_byte r b v room)
    ∙ stored-snoc n w r.tail buf'
    ∙ ap₂ (λ (xs : List ℕ) (x : ℕ). xs ++ x ∷ [])
        (stored-set n w r.tail r.head (u8 b) r.buf
          (λ m lo hi e. absurd (ground (arith, head_slot r v, waiting-lt r v))))
        (ap (λ (k : ℕ). get_or buf' k 0) (head_slot r v)
          ∙ get_or-set_self r.buf r.head (u8 b) 0 (omega (arith, v.buf_size, v.head_in)))

stored_byte-IsRing : (r : Ring) (b : ℕ) → IsRing r → IsRing (stored_byte r b)
stored_byte-IsRing r b v = record {
  head_in = rw (next_index_wraps r r.head v.head_in) (ground arith);
  tail_in = v.tail_in;
  buf_size = length-set r.buf r.head (u8 b) ∙ v.buf_size;
}

-- In a ring whose indices lie in its buffer, a byte enqueued goes behind those that wait; it is
-- refused, and nothing changes in what waits, exactly when all entries but one are taken.
pub enqueue_byte-IsEnqueued :
    (r : Ring) (b : ℕ) → IsRing r → IsEnqueued r b (enqueue_byte r b).0 (enqueue_byte r b).1
unfolding enqueue_byte
enqueue_byte-IsEnqueued r b v = elim (Bool-cases (next_index r r.head == r.tail)) [
  | inl e ↦ rw e (record {
    valid = v;
    same_size = refl;
    answer_is = ground (arith, (full_iff r v).0 ((==_iff _ _).0 e));
    contents_are = refl;
  })
  | inr e ↦
      let room : waiting r + 1 < size r = ground (arith, (full_iff r v).1, waiting-lt r v) in
      rw e (record {
        valid = stored_byte-IsRing r b v;
        same_size = refl;
        answer_is = ground arith;
        contents_are = contents-stored_byte r b v room;
      })
]

-- One poll of the transmitter: what has left and what waits make up the same sequence, a ready USART takes one
-- byte if any waits, and one that is not ready takes none.
pub record IsPolled (r r' : Ring) : Type 0 where
  pub valid : IsRing r'
  pub same_size : size r' ≡ size r
  pub same_ready : r'.ready ≡ r.ready
  pub conserved : r'.line ++ contents r' ≡ r.line ++ contents r
  pub progress : r.ready ≡ true → 0 < waiting r → waiting r' + 1 ≡ waiting r
  pub held : r.ready ≡ false → r' ≡ r
  pub idle : waiting r ≡ 0 → r' ≡ r

abbrev taken : Ring → Ring
taken r = record r { tail = next_index r r.tail; line = r.line ++ get_or r.buf r.tail 0 ∷ [] }

waiting-taken : (r : Ring) → IsRing r → 0 < waiting r → waiting (taken r) + 1 ≡ waiting r
waiting-taken r v some_wait = rw (next_index_wraps r r.tail v.tail_in) (ground arith)

-- Reading on from the next index is reading on from the position behind the tail.
stored-next_index :
    (r : Ring) (count : ℕ)
    → IsRing r
    → count < size r
    → stored (size r) count (next_index r r.tail) r.buf ≡ stored (size r) count (r.tail + 1) r.buf
stored-next_index r count v l = elim (Bool-cases (r.tail + 1 == size r)) [
  | inl e ↦
      rw (next_index_wraps r r.tail v.tail_in, e, (==_iff _ _).0 e)
        (rw (zero_right (size r)) at (sym (stored-wrap (size r) count 0 r.buf (omega arith))))
  | inr e ↦ rw (next_index_wraps r r.tail v.tail_in, e)
]
  where
    zero_right : (x : ℕ) → x + 0 ≡ x
    zero_right x = omega arith

contents-taken :
    (r : Ring) → IsRing r → 0 < waiting r → contents r ≡ get_or r.buf r.tail 0 ∷ contents (taken r)
contents-taken r v some_wait =
    let w' = waiting (taken r) in
    let count : waiting r ≡ suc w' = omega (arith, waiting-taken r v some_wait) in
    ap (λ (k : ℕ). stored (size r) k r.tail r.buf) count
    ∙ ap₂ ◌∷◌ (ap (λ (k : ℕ). get_or r.buf k 0) (ground (arith, v.tail_in)))
        (sym (stored-next_index r w' v (omega (arith, waiting-lt r v))))

-- A poll of such a ring moves the oldest byte to the USART if that is ready and a byte waits; otherwise nothing
-- is moved and the ring is as it was; no byte is lost or reordered.
pub poll_tx-IsPolled : (r : Ring) → IsRing r → IsPolled r (poll_tx r)
unfolding poll_tx
poll_tx-IsPolled r v = elim (Bool-cases (r.ready && not (r.tail == r.head))) [
  | inl e ↦
      let some_wait : 0 < waiting r = ground (arith, v.tail_in) in
      rw e (record {
        valid = record {
          head_in = v.head_in;
          tail_in = rw (next_index_wraps r r.tail v.tail_in) (ground arith);
          buf_size = v.buf_size;
        };
        same_size = refl;
        same_ready = refl;
        conserved =
            append_assoc r.line (get_or r.buf r.tail 0 ∷ []) (contents (taken r))
            ∙ ap (λ (t : List ℕ). r.line ++ t) (sym (contents-taken r v some_wait));
        progress = λ ready more. waiting-taken r v more;
        held = λ busy. absurd (ground (arith, e, busy));
        idle = λ none_wait. absurd (omega (arith, some_wait, none_wait));
      })
  | inr e ↦ rw e (record {
    valid = v;
    same_size = refl;
    same_ready = refl;
    conserved = refl;
    progress = λ ready more. absurd (ground arith);
    held = λ busy. refl;
    idle = λ none_wait. refl;
  })
]
