-- ===== src/Recorder/Operations.antt =====
-- The write jobs and the round of the recorder (examples/9_multi/main.c) under its invariant.
use stm32_async_1wire.Prelude.{
  ◌+◌, ◌<◌, Bool, true, false, not, ◌&&◌, ◌||◌, get_or, set, ltb, leb, ◌≡◌, arith, Bool-cases, inl,
  inr, length-set,
}
use stm32_async_1wire.Prelude.Int.{ltb_ℤ}
use stm32_async_1wire.Wire.{u8, u32}
use stm32_async_1wire.OneWire.{same_bytes}
use stm32_async_1wire.Recorder.{Recorder, Drivers, no_job, slot_peak, slot_low}
use stm32_async_1wire.Recorder.Records.{
  Extremes, slot_at, commit_job, commit_jobs, expired, time_reached, extremes,
}
use stm32_async_1wire.Recorder.Queue.{queue_records-IsPlanned, round_jobs_some}
use stm32_async_1wire.Recorder.Step.{
  start_job, job_done, compare_block, poll_write, queue_records, evaluate, next_sensor, wait_scan,
  first_bad, wait_sequential, measure_current, start_round, switch_to_sequential,
}
use stm32_async_1wire.Recorder.Valid.{
  is_writing, IsValid, IsSized, valid-IsSized, go_wait-IsValid, write_abort-IsValid,
  commit_job-IsSized, commit_jobs-IsSized, drivers-IsValid, either_off, branches-IsValid,
  scan-IsValid,
}

module _ {D : Type 0} (ops : Drivers D) where
  start_job-IsValid :
      (r : Recorder D)
      → IsSized r
      → r.job_i < r.job_n
      → r.persist_off ≡ false
      → IsValid (start_job ops r)
  unfolding start_job
  start_job-IsValid r v l off =
      let polled =
        ops.write_scratchpad r.drivers (get_or r.jobs r.job_i no_job).addr
          (get_or r.jobs r.job_i no_job).image 8 in
      let aborted = write_abort-IsValid (record r { drivers = polled.0 }) (ground (arith, v)) in
      elim (Bool-cases (not polled.1)) [
        | inl e ↦ rw e aborted
        | inr e ↦ rw e (ground (arith, v, l, off))
      ]

  job_done-IsValid :
      (r : Recorder D) → IsValid r → is_writing r.state ≡ true → IsValid (job_done ops r)
  unfolding job_done
  job_done-IsValid r v w =
      let j = get_or r.jobs r.job_i no_job in
      let c = commit_job r j in
      let r' : Recorder D = record c { write_fails = 0; job_i = u8 (r.job_i + 1) } in
      let sized = commit_job-IsSized r j (valid-IsSized r v) in
      let sized' : IsSized r' = ground (arith, sized) in
      let empty : IsSized (record r' { job_n = 0 }) = ground (arith, sized) in
      let off : r'.persist_off ≡ false = unfold commit_job in v.writes_on w in
      elim (Bool-cases (ltb r'.job_i r'.job_n)) [
        | inl e ↦ rw e (start_job-IsValid r' sized' (ground arith) off)
        | inr e ↦ rw e (go_wait-IsValid (record r' { job_n = 0 }) empty)
      ]

  planned-IsSized :
      (r : Recorder D) (x : Extremes) (hi lo : Bool)
      → IsSized r
      → IsSized (queue_records ops r x hi lo)
  planned-IsSized r x hi lo v =
      let p = queue_records-IsPlanned ops r x hi lo v.jobs_are in
      let q = queue_records ops r x hi lo in
      let framed : IsSized (record r { jobs = q.jobs; job_n = q.job_n }) =
        ground (arith, v, p.sized, p.fits) in
      rw (p.only) framed

  evaluate-IsValid : (r : Recorder D) → IsSized r → IsValid (evaluate ops r)
  unfolding evaluate
  evaluate-IsValid r v =
      let x = extremes r.ds18_n r.temps r.temps_ok in
      let hi = not (slot_at r slot_peak).valid || ltb_ℤ (slot_at r slot_peak).temp x.hi in
      let lo = not (slot_at r slot_low).valid || ltb_ℤ x.lo (slot_at r slot_low).temp in
      let q = queue_records ops r x hi lo in
      let p = queue_records-IsPlanned ops r x hi lo v.jobs_are in
      let sized = planned-IsSized r x hi lo v in
      let kept : IsSized (record (commit_jobs q.job_n 0 q) { job_n = 0 }) =
        ground (arith, commit_jobs-IsSized q.job_n 0 q sized) in
      let first : IsSized (record q { job_i = 0 }) = ground (arith, sized) in
      branches-IsValid (not x.have) (not hi && not lo) (q.persist_off || not q.have_ds2431) _ _ _ _
        (go_wait-IsValid r v) (go_wait-IsValid r v)
        (go_wait-IsValid (record (commit_jobs q.job_n 0 q) { job_n = 0 }) kept)
        (λ some on.
          start_job-IsValid (record q { job_i = 0 }) first
            (omega (arith, p.count_is, round_jobs_some ops r x hi lo some)) (either_off _ _ on))

  pub poll_write-IsValid :
      (r : Recorder D) (polled : D × Bool) (next : Recorder D → Recorder D)
      → IsValid r
      → ((d : D) → IsValid (next (record r { drivers = d })))
      → IsValid (poll_write ops r polled next)
  unfolding poll_write
  poll_write-IsValid r (d, is_done) next v n =
      let r' = record r { drivers = d } in
      let aborted = write_abort-IsValid r' (valid-IsSized r' (drivers-IsValid r d v)) in
      let kept = drivers-IsValid r d v in
      elim (Bool-cases is_done) [
        | inl e ↦ elim (Bool-cases (not (ops.last_command_ok d))) [
          | inl f ↦ rw (e, f) aborted
          | inr f ↦ rw (e, f) (n d)
        ]
        | inr e ↦ elim (Bool-cases (expired r')) [
          | inl f ↦ rw (e, f) aborted
          | inr f ↦ rw (e, f) kept
        ]
      ]

  pub compare-IsValid :
      (r : Recorder D) → IsValid r → is_writing r.state ≡ true → IsValid (compare_block ops r)
  unfolding compare_block
  compare-IsValid r v w =
      let r' : Recorder D = record r { verify_buf = ops.read_bytes r.drivers } in
      let v' : IsValid r' = ground (arith, v) in
      elim (Bool-cases (not (same_bytes 8 r'.verify_buf (get_or r'.jobs r'.job_i no_job).image))) [
        | inl e ↦ rw e (write_abort-IsValid r' (valid-IsSized r' v'))
        | inr e ↦ rw e (job_done-IsValid r' v' w)
      ]

  idle-IsValid : (r : Recorder D) → IsSized r → is_writing r.state ≡ false → IsValid r
  idle-IsValid r v w = ground (arith, v, w)

  measure-IsSized : (r : Recorder D) → IsSized r → IsSized (measure_current ops r)
  unfolding measure_current
  measure-IsSized r v = ground (arith, v)

  pub start_round-IsValid : (r : Recorder D) → IsSized r → IsValid (start_round ops r)
  unfolding start_round measure_current
  start_round-IsValid r v = ground (arith, v)

  switch-IsValid : (r : Recorder D) → IsSized r → IsValid (switch_to_sequential ops r)
  unfolding switch_to_sequential
  switch-IsValid r v =
      go_wait-IsValid
        (record r { seq_mode = true; drivers = ops.select r.drivers (ops.device_rom r.drivers 0) })
        (ground (arith, v))

  next_sensor-IsValid :
      (r : Recorder D) → IsSized r → is_writing r.state ≡ false → IsValid (next_sensor ops r)
  unfolding next_sensor
  next_sensor-IsValid r v w =
      let r' : Recorder D = record r { seq_cur = u8 (r.seq_cur + 1) } in
      let v' : IsSized r' = ground (arith, v) in
      elim (Bool-cases (ltb r'.seq_cur r'.ds18_n)) [
        | inl e ↦ rw e (
            idle-IsValid (measure_current ops r') (measure-IsSized r' v')
              (unfold measure_current in w))
        | inr e ↦ rw e (evaluate-IsValid r' v')
      ]

  pub wait_scan-IsValid :
      (r : Recorder D) → IsSized r → is_writing r.state ≡ false → IsValid (wait_scan ops r)
  unfolding wait_scan
  wait_scan-IsValid r v w =
      let here = idle-IsValid r v w in
      let drain : IsValid (record r { scan_drain = true; drain_deadline_ms = u32 (r.now + 2000) }) =
        ground (arith, v, w) in
      let evaluated = evaluate-IsValid r v in
      let switched = switch-IsValid r v in
      let waits = go_wait-IsValid r v in
      scan-IsValid (not r.scan_drain) (leb r.ds18_n r.reported) (leb r.ds18_n (first_bad r))
        (expired r) (time_reached r r.drain_deadline_ms) _ _ _ _ _ evaluated drain here switched
        waits

  pub wait_sequential-IsValid :
      (r : Recorder D) → IsSized r → is_writing r.state ≡ false → IsValid (wait_sequential ops r)
  unfolding wait_sequential
  wait_sequential-IsValid r v w =
      let r' : Recorder D = record r { temps_ok = set r.temps_ok r.seq_cur false } in
      let size = length-set r.temps_ok r.seq_cur false in
      let v' : IsSized r' = ground (arith, v, size) in
      elim (Bool-cases (ltb r.seq_cur r.reported)) [
        | inl e ↦ rw e (next_sensor-IsValid r v w)
        | inr e ↦ elim (Bool-cases (expired r)) [
          | inl f ↦ rw (e, f) (next_sensor-IsValid r' v' w)
          | inr f ↦ rw (e, f) (idle-IsValid r v w)
        ]
      ]
