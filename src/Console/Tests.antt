-- ===== src/Console/Tests.antt =====
-- A ring of eight bytes whose indices have gone round, and a number.
use stm32_async_1wire.Prelude.{true, [], ◌∷◌, ◌++◌, ◌≡◌, refl, arith}
use stm32_async_1wire.Console.{Ring, poll_tx, flush, enqueue_byte, write_str, codes}
use stm32_async_1wire.Console.Queue.{
  IsRing, waiting, contents, IsEnqueued, enqueue_byte-IsEnqueued, IsPolled, poll_tx-IsPolled,
}
use stm32_async_1wire.Console.Print.{IsWritten, write_str-IsWritten, flush_lem}

abbrev wrapped : Ring
wrapped = record {
  log_size = 3;
  head = 1;
  tail = 6;
  buf = 67 ∷ 0 ∷ 0 ∷ 0 ∷ 0 ∷ 0 ∷ 65 ∷ 66 ∷ [];
  ready = true;
  line = [];
}

wrapped-IsRing : IsRing wrapped
wrapped-IsRing = record { head_in = omega arith; tail_in = omega arith; buf_size = refl }

wrapped-contents : contents wrapped ≡ codes "ABC"
wrapped-contents = refl

enqueue_byte-IsEnqueued_example :
    IsEnqueued wrapped 68 (enqueue_byte wrapped 68).0 (enqueue_byte wrapped 68).1
enqueue_byte-IsEnqueued_example = enqueue_byte-IsEnqueued wrapped 68 wrapped-IsRing

poll_tx-IsPolled_example : IsPolled wrapped (poll_tx wrapped)
poll_tx-IsPolled_example = poll_tx-IsPolled wrapped wrapped-IsRing

write_str-IsWritten_example :
    IsWritten wrapped
      (codes "DEFGH")
      (write_str wrapped (codes "DEFGH")).0
      (write_str wrapped (codes "DEFGH")).1
write_str-IsWritten_example = write_str-IsWritten wrapped (codes "DEFGH") wrapped-IsRing

flush_lem_example :
    ((flush 3 wrapped).line ≡ wrapped.line ++ contents wrapped) × (waiting (flush 3 wrapped) ≡ 0)
flush_lem_example = flush_lem 3 wrapped wrapped-IsRing refl (omega arith)
