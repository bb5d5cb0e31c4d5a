-- ===== src/Console/Print.antt =====
-- Whole texts through the ring: `uart_write_str` and `uart_flush`.
use stm32_async_1wire.Prelude.{
  ℕ, zero, suc, ◌+◌, ◌-◌, ◌≤◌, ◌<◌, min, true, false, List, [], ◌∷◌, ◌++◌, map, take, length, ◌==◌,
  ◌≡◌, refl, sym, ap, ◌∙◌, arith, Bool-cases, inl, inr, length-append,
}
use mathlib.Core.List.{append_assoc, append-nil}
use stm32_async_1wire.Wire.{u8}
use stm32_async_1wire.Console.{Ring, enqueue_byte, write_str, poll_tx, flush}
use stm32_async_1wire.Console.Queue.{
  size, stored, waiting, contents, IsRing, enqueue_byte-IsEnqueued, poll_tx-IsPolled,
  length-contents,
}

-- As much of the text as there is room for is enqueued in order, and its length is the answer.
pub record IsWritten (r : Ring) (s : List ℕ) (r' : Ring) (n : ℕ) : Type 0 where
  pub valid : IsRing r'
  pub same_size : size r' ≡ size r
  pub count_is : n ≡ min (length s) (size r - 1 - waiting r)
  pub contents_are : contents r' ≡ contents r ++ map u8 (take n s)

-- Of a text as much as there is room for is enqueued in order behind what waits, and its length is
-- the answer.
pub write_str-IsWritten :
    (r : Ring) (s : List ℕ) → IsRing r → IsWritten r s (write_str r s).0 (write_str r s).1
unfolding write_str
write_str-IsWritten r [] v = record {
  valid = v;
  same_size = refl;
  count_is = omega arith;
  contents_are = sym (append-nil (contents r));
}
write_str-IsWritten r (c ∷ s) v =
    let q = enqueue_byte-IsEnqueued r c v in
    let rest = write_str-IsWritten (enqueue_byte r c).0 s q.valid in
    elim (Bool-cases (enqueue_byte r c).1) [
      | inl e ↦
          let accepted = contents_after e in
          let one_more : waiting (enqueue_byte r c).0 ≡ waiting r + 1 =
            sym (length-contents (enqueue_byte r c).0)
            ∙ ap length accepted
            ∙ length-append (contents r) (u8 c ∷ [])
            ∙ omega (arith, length-contents r) in
          let fits : waiting r + 1 < size r = ground (arith, q.answer_is) in
          let suc_count : suc (write_str (enqueue_byte r c).0 s).1
              ≡ min (suc (length s)) (size r - 1 - waiting r) =
            omega (arith, rest.count_is, q.same_size) in
          rw e (record {
            valid = rest.valid;
            same_size = rest.same_size ∙ q.same_size;
            count_is = suc_count;
            contents_are =
                rest.contents_are
                ∙ ap (λ (t : List ℕ). t ++ map u8 (take (write_str (enqueue_byte r c).0 s).1 s))
                    accepted
                ∙ append_assoc (contents r) (u8 c ∷ []) _;
          })
      | inr e ↦ rw e (record {
        valid = q.valid;
        same_size = q.same_size;
        count_is = no_room e;
        contents_are = refused e ∙ sym (append-nil (contents r));
      })
    ]
  where
    contents_after :
        (enqueue_byte r c).1 ≡ true → contents (enqueue_byte r c).0 ≡ contents r ++ u8 c ∷ []
    contents_after e = rw e at ((enqueue_byte-IsEnqueued r c v).contents_are)

    refused : (enqueue_byte r c).1 ≡ false → contents (enqueue_byte r c).0 ≡ contents r
    refused e = rw e at ((enqueue_byte-IsEnqueued r c v).contents_are)

    no_room : (enqueue_byte r c).1 ≡ false → 0 ≡ min (suc (length s)) (size r - 1 - waiting r)
    no_room e = let fits = (enqueue_byte-IsEnqueued r c v).answer_is in ground arith

contents-empty : (r : Ring) → waiting r ≡ 0 → contents r ≡ []
contents-empty r h = ap (λ (k : ℕ). stored (size r) k r.tail r.buf) h

-- With a ready USART and as many rounds as bytes wait, flushing sends exactly those bytes, in order.
pub flush_lem :
    (rounds : ℕ) (r : Ring)
    → IsRing r
    → r.ready ≡ true
    → waiting r ≤ rounds
    → ((flush rounds r).line ≡ r.line ++ contents r) × (waiting (flush rounds r) ≡ 0)
unfolding flush
flush_lem zero r v ready h = (
  sym (append-nil r.line) ∙ ap (λ (t : List ℕ). r.line ++ t) (sym (contents-empty r (omega arith))),
  omega arith,
)
flush_lem (suc rounds) r v ready h =
    let p = poll_tx-IsPolled r v in
    elim (Bool-cases (r.tail == r.head)) [
      | inl e ↦
          let none_wait : waiting r ≡ 0 = ground arith in
          rw e (
            sym (append-nil r.line)
                ∙ ap (λ (t : List ℕ). r.line ++ t) (sym (contents-empty r none_wait)),
            none_wait,
          )
      | inr e ↦
          let less = p.progress ready (ground (arith, v.tail_in)) in
          let rest = flush_lem rounds (poll_tx r) p.valid (p.same_ready ∙ ready) (omega arith) in
          rw e (rest.0 ∙ p.conserved, rest.1)
    ]
