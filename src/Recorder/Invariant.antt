-- ===== src/Recorder/Invariant.antt =====
-- The loop of the recorder (examples/9_multi/main.c) under its invariant, state by state.
use stm32_async_1wire.Prelude.{
  ℕ, ◌+◌, Bool, true, false, not, ◌&&◌, List, set, ltb, ◌==◌, ◌≡◌, refl, ap, ◌∙◌, arith, Bool-cases,
  inl, inr, length-set,
}
use stm32_async_1wire.Wire.{u8}
use stm32_async_1wire.Recorder.{
  State, Recorder, Drivers, search_ds18, search_all, boot_read, measure_start, measure_wait,
  write_scratch, write_verify, write_copy, write_readback, waiting, stop,
}
use stm32_async_1wire.Recorder.Records.{expired, time_reached}
use stm32_async_1wire.Recorder.Step.{
  poll_write, step, step_state, completed, all_found, boot_read_start,
}
use stm32_async_1wire.Recorder.Valid.{
  is_writing, IsValid, valid-IsSized, drivers-IsValid, stop-IsValid, boot_done-IsValid,
  all_found-IsValid, completed-IsValid, if-IsValid, completed_state,
}
use stm32_async_1wire.Recorder.Operations.{
  poll_write-IsValid, compare-IsValid, start_round-IsValid, wait_scan-IsValid,
  wait_sequential-IsValid,
}

module _ {D : Type 0} (ops : Drivers D) where
  not_writing :
      {s : State} (r : Recorder D) → r.state ≡ s → is_writing s ≡ false → is_writing r.state ≡ false
  not_writing r at w = ap is_writing at ∙ w

  poll_job-IsValid :
      (s : State) (r : Recorder D) (polled : D × Bool) (next : Recorder D → Recorder D)
      → IsValid r
      → r.state ≡ s
      → is_writing s ≡ true
      → ((r' : Recorder D) → IsValid r' → is_writing r'.state ≡ true → IsValid (next r'))
      → IsValid (poll_write ops r polled next)
  poll_job-IsValid s r polled next v at w n =
      poll_write-IsValid ops r polled next v
        (λ d. n (record r { drivers = d }) (drivers-IsValid r d v) (ap is_writing at ∙ w))

  search_ds18-IsValid : (r : Recorder D) → IsValid r → IsValid (step_state ops search_ds18 r)
  unfolding step_state
  search_ds18-IsValid r v =
      let polled = ops.ds18_search_poll r.drivers in
      let r' : Recorder D = record r { drivers = polled.0 } in
      elim (Bool-cases polled.1) [
        | inl e ↦ rw e (ground (arith, v))
        | inr e ↦ elim (Bool-cases (expired r')) [
          | inl f ↦ rw (e, f) (stop-IsValid r' (drivers-IsValid r polled.0 v))
          | inr f ↦ rw (e, f) (drivers-IsValid r polled.0 v)
        ]
      ]

  started-IsValid :
      (r : Recorder D) (d : D)
      → IsValid r
      → IsValid (record (boot_read_start ops (record r { boot_step = 0; drivers = d })) {
        state = boot_read;
      })
  unfolding boot_read_start
  started-IsValid r d v = ground (arith, v)

  search_all-IsValid : (r : Recorder D) → IsValid r → IsValid (step_state ops search_all r)
  unfolding step_state boot_read_start
  search_all-IsValid r v =
      let polled = ops.search_poll r.drivers in
      let r' = all_found (record r { drivers = (polled.0).0 }) (polled.0).1 in
      let v' = all_found-IsValid _ (polled.0).1 (drivers-IsValid r (polled.0).0 v) in
      if-IsValid polled.1 _ _
        (if-IsValid r'.have_ds2431 _ _ (started-IsValid r' _ v') (boot_done-IsValid r' v'))
        (if-IsValid (expired r') _ _ (stop-IsValid r' v') v')

  read-IsValid :
      (r : Recorder D) (d : D) (block : List ℕ) (ok : Bool) (next : ℕ)
      → IsValid r
      → IsValid (record r {
        drivers = d;
        boot_buf = set r.boot_buf r.boot_step block;
        boot_ok = set r.boot_ok r.boot_step ok;
        boot_step = next;
      })
  read-IsValid r d block ok next v =
      let bufs = length-set r.boot_buf r.boot_step block in
      let oks = length-set r.boot_ok r.boot_step ok in ground (arith, v, bufs, oks)

  boot_read-IsValid : (r : Recorder D) → IsValid r → IsValid (step_state ops boot_read r)
  unfolding step_state boot_read_start
  boot_read-IsValid r v =
      let polled = ops.read_memory_poll r.drivers in
      let d = polled.0 in
      let r' : Recorder D = record r { drivers = d } in
      let w =
        read-IsValid r d (ops.read_bytes d) (ops.last_command_ok d) (u8 (r.boot_step + 1)) v in
      elim (Bool-cases polled.1) [
        | inl e ↦ elim (Bool-cases (ltb (u8 (r.boot_step + 1)) 4)) [
          | inl f ↦ rw (e, f) (ground (arith, w))
          | inr f ↦ rw (e, f) (boot_done-IsValid _ w)
        ]
        | inr e ↦ elim (Bool-cases (expired r')) [
          | inl f ↦
              rw (e, f) (boot_done-IsValid (record r' { have_ds2431 = false }) (ground (arith, v)))
          | inr f ↦ rw (e, f) (drivers-IsValid r d v)
        ]
      ]

  measure_wait-IsValid :
      (r : Recorder D)
      → IsValid r
      → r.state ≡ measure_wait
      → IsValid (step_state ops measure_wait r)
  unfolding step_state
  measure_wait-IsValid r v at =
      let polled = ops.ds18_poll r.drivers in
      let r0 : Recorder D = record r { drivers = polled.0 } in
      let r' = completed r0 polled.1 in
      let sized = valid-IsSized r' (completed-IsValid r0 polled.1 (drivers-IsValid r polled.0 v)) in
      let w = ap is_writing (completed_state r0 polled.1 ∙ at) in
      elim (Bool-cases (not r'.seq_mode)) [
        | inl e ↦ rw e (wait_scan-IsValid ops r' sized w)
        | inr e ↦ rw e (wait_sequential-IsValid ops r' sized w)
      ]

  waiting-IsValid : (r : Recorder D) → IsValid r → IsValid (step_state ops waiting r)
  unfolding step_state
  waiting-IsValid r v = elim (Bool-cases (not (r.ds18_n == 0) && time_reached r r.next_ms)) [
    | inl e ↦ rw e (ground (arith, v.gives_up))
    | inr e ↦ rw e v
  ]

  state-IsValid :
      (s : State) (r : Recorder D) → IsValid r → r.state ≡ s → IsValid (step_state ops s r)
  unfolding step_state
  state-IsValid search_ds18 r v at = search_ds18-IsValid r v
  state-IsValid search_all r v at = search_all-IsValid r v
  state-IsValid boot_read r v at = boot_read-IsValid r v
  state-IsValid measure_start r v at = start_round-IsValid ops r (valid-IsSized r v)
  state-IsValid measure_wait r v at = measure_wait-IsValid r v at
  state-IsValid write_scratch r v at =
      poll_job-IsValid write_scratch r _ _ v at refl (λ r' v' w. ground (arith, v', w))
  state-IsValid write_verify r v at =
      poll_job-IsValid write_verify r _ _ v at refl (λ r' v' w. ground (arith, v', w))
  state-IsValid write_copy r v at =
      poll_job-IsValid write_copy r _ _ v at refl (λ r' v' w. ground (arith, v', w))
  state-IsValid write_readback r v at =
      poll_job-IsValid write_readback r _ _ v at refl (λ r' v' w. compare-IsValid ops r' v' w)
  state-IsValid waiting r v at = waiting-IsValid r v
  state-IsValid stop r v at = v

  -- Every round of the loop keeps the invariant of the recorder: the tables and the queue keep their sizes,
  -- the job under way is one of the queue and is written only while writing is on, and from a count of
  -- three failed writes on writing is off.
  pub step-IsValid : (r : Recorder D) → IsValid r → IsValid (step ops r)
  unfolding step
  step-IsValid r v = state-IsValid r.state r v refl
