-- ===== src/Recorder/Writes.antt =====
-- The states of a write: when the records in memory change, and when the recorder gives up writing.
use stm32_async_1wire.Prelude.{◌+◌, ◌⊎◌, inl, inr, Bool, true, get_or, ◌≡◌, refl, arith, Bool-cases}
use stm32_async_1wire.Wire.{u8}
use stm32_async_1wire.OneWire.{same_bytes}
use stm32_async_1wire.Recorder.{
  State, Recorder, Drivers, Job, write_scratch, write_verify, write_copy, write_readback, no_job,
}
use stm32_async_1wire.Recorder.Records.{commit_job, write_abort, go_wait}
use stm32_async_1wire.Recorder.Step.{
  start_job, job_done, compare_block, poll_write, step, step_state,
}

-- The states in which a job is written.
pub data IsWriting : State → Type 0 where
  scratch : IsWriting write_scratch
  verify : IsWriting write_verify
  copy : IsWriting write_copy
  readback : IsWriting write_readback

module _ {D : Type 0} (ops : Drivers D) where
  abbrev pub job_at : Recorder D → Job
  job_at r = get_or r.jobs r.job_i no_job

  -- The block was read back without an error, and is the image of the job.
  pub record IsVerified (r r' : Recorder D) : Type 0 where
    pub in_readback : r.state ≡ write_readback
    pub read_ok : ops.last_command_ok (ops.read_memory_poll r.drivers).0 ≡ true
    pub same_block :
        same_bytes 8 (ops.read_bytes (ops.read_memory_poll r.drivers).0) (job_at r).image ≡ true
    pub slots_are : r'.slots ≡ (commit_job r (job_at r)).slots

  write_abort_slots : (r : Recorder D) → (write_abort r).slots ≡ r.slots
  unfolding write_abort go_wait
  write_abort_slots r = refl

  start_job_slots : (r : Recorder D) → (start_job ops r).slots ≡ r.slots
  unfolding start_job write_abort go_wait
  start_job_slots r = ground arith

  job_done_slots : (r : Recorder D) → (job_done ops r).slots ≡ (commit_job r (job_at r)).slots
  unfolding job_done go_wait
  job_done_slots r = ground (
    arith,
    start_job_slots
        (record (commit_job r (job_at r)) { write_fails = 0; job_i = u8 (r.job_i + 1) }),
  )

  poll_write_slots :
      (r : Recorder D) (polled : D × Bool) (next : Recorder D → Recorder D)
      → ((r' : Recorder D) → (next r').slots ≡ r'.slots)
      → (poll_write ops r polled next).slots ≡ r.slots
  unfolding poll_write
  poll_write_slots r (d, is_done) next keeps =
      ground (arith, keeps (record r { drivers = d }), write_abort_slots (record r { drivers = d }))

  compare_slots :
      (r : Recorder D)
      → ((compare_block ops r).slots ≡ r.slots)
        ⊎ ((same_bytes 8 (ops.read_bytes r.drivers) (job_at r).image ≡ true)
            × ((compare_block ops r).slots ≡ (commit_job r (job_at r)).slots))
  unfolding compare_block commit_job
  compare_slots r =
      let r' : Recorder D = record r { verify_buf = ops.read_bytes r.drivers } in
      elim (Bool-cases (same_bytes 8 (ops.read_bytes r.drivers) (job_at r).image)) [
        | inl e ↦ inr (rw e (refl, job_done_slots r'))
        | inr e ↦ inl (rw e (write_abort_slots r'))
      ]

  readback_slots :
      (r : Recorder D)
      → r.state ≡ write_readback
      → ((step_state ops write_readback r).slots ≡ r.slots)
        ⊎ IsVerified r (step_state ops write_readback r)
  unfolding step_state poll_write commit_job
  readback_slots r at =
      let r' : Recorder D = record r { drivers = (ops.read_memory_poll r.drivers).0 } in
      elim (Bool-cases (ops.read_memory_poll r.drivers).1) [
        | inl e ↦ elim (Bool-cases (ops.last_command_ok (ops.read_memory_poll r.drivers).0)) [
          | inl ok ↦ elim (compare_slots r') [
            | inl kept ↦ inl (rw (e, ok) kept)
            | inr both ↦ inr (
                rw (e, ok)
                  (record {
                    in_readback = at;
                    read_ok = ok;
                    same_block = both.0;
                    slots_are = both.1;
                  }))
          ]
          | inr ok ↦ inl (rw (e, ok) (write_abort_slots r'))
        ]
        | inr e ↦ inl (ground (arith, e, write_abort_slots r'))
      ]

  state_slots :
      (phase : State) (r : Recorder D)
      → IsWriting phase
      → r.state ≡ phase
      → ((step_state ops phase r).slots ≡ r.slots) ⊎ IsVerified r (step_state ops phase r)
  state_slots _ r scratch at = inl (unfold step_state in poll_write_slots r _ _ (λ r'. refl))
  state_slots _ r verify at = inl (unfold step_state in poll_write_slots r _ _ (λ r'. refl))
  state_slots _ r copy at = inl (unfold step_state in poll_write_slots r _ _ (λ r'. refl))
  state_slots _ r readback at = readback_slots r at

  -- In the four states in which a job is written a step leaves the records in memory as they are, or
  -- it commits the job: in state READBACK, when the block was read back without an error and is byte
  -- for byte the job's image.
  pub write_step_slots :
      (r : Recorder D)
      → IsWriting r.state
      → ((step ops r).slots ≡ r.slots) ⊎ IsVerified r (step ops r)
  unfolding step
  write_step_slots r w = state_slots r.state r w refl
