-- ===== src/Recorder/Valid.antt =====
-- What the tables, the queue and the failure count of the recorder keep (examples/9_multi/main.c), and its
-- records, its boot and its callbacks under it.
use stm32_async_1wire.Prelude.{
  ℕ, zero, suc, ◌+◌, ◌≤◌, ◌<◌, Bool, true, false, not, ◌&&◌, ◌||◌, List, [], ◌∷◌, get_or, ◌==◌,
  if◌then◌else◌, ◌≡◌, refl, ◌∙◌, arith, Bool-cases, inl, inr, length, length-set,
}
use stm32_async_1wire.Prelude.Int.{ℤ}
use stm32_async_1wire.Wire.{crc8}
use stm32_async_1wire.Recorder.{
  State, Slot, Recorder, Job, write_scratch, write_verify, write_copy, write_readback, stop, no_job,
}
use stm32_async_1wire.Recorder.Records.{
  record_ok, is_measured, commit_job, commit_jobs, write_abort, go_wait, boot_load_record,
  boot_load_rom, boot_done,
}
use stm32_async_1wire.Recorder.Step.{complete, completed, all_sink, all_found}

-- A job is being written.
abbrev pub is_writing : State → Bool
is_writing write_scratch = true
is_writing write_verify = true
is_writing write_copy = true
is_writing write_readback = true
is_writing _ = false

module _ {D : Type 0} where
  pub record IsValid (r : Recorder D) : Type 0 where
    pub jobs_size : length r.jobs ≡ 4
    pub slots_size : length r.slots ≡ 2
    pub boot_buf_size : length r.boot_buf ≡ 4
    pub boot_ok_size : length r.boot_ok ≡ 4
    pub temps_size : length r.temps ≡ 8
    pub temps_ok_size : length r.temps_ok ≡ 8
    pub queue_fits : r.job_n ≤ 4
    pub job_queued : is_writing r.state ≡ true → r.job_i < r.job_n
    pub writes_on : is_writing r.state ≡ true → r.persist_off ≡ false
    pub gives_up : 3 ≤ r.write_fails → r.persist_off ≡ true

  -- The part of it that does not look at the state.
  pub record IsSized (r : Recorder D) : Type 0 where
    pub jobs_are : length r.jobs ≡ 4
    pub slots_are : length r.slots ≡ 2
    pub buf_is : length r.boot_buf ≡ 4
    pub boot_ok_is : length r.boot_ok ≡ 4
    pub temps_are : length r.temps ≡ 8
    pub temps_ok_are : length r.temps_ok ≡ 8
    pub queue_is : r.job_n ≤ 4
    pub limit : 3 ≤ r.write_fails → r.persist_off ≡ true

  pub valid-IsSized : (r : Recorder D) → IsValid r → IsSized r
  valid-IsSized r v = ground (arith, v)

  pub go_wait-IsValid : (r : Recorder D) → IsSized r → IsValid (go_wait r)
  unfolding go_wait
  go_wait-IsValid r v = ground (arith, v)

  pub write_abort-IsValid : (r : Recorder D) → IsSized r → IsValid (write_abort r)
  unfolding write_abort go_wait
  write_abort-IsValid r v = ground (arith, v)

  slots-IsSized :
      (r : Recorder D) (ss : List Slot)
      → IsSized r
      → length ss ≡ 2
      → IsSized (record r { slots = ss })
  slots-IsSized r ss v l = ground (arith, v, l)

  pub commit_job-IsSized : (r : Recorder D) (j : Job) → IsSized r → IsSized (commit_job r j)
  unfolding commit_job
  commit_job-IsSized r j v = slots-IsSized r _ v (length-set r.slots j.slot _ ∙ v.slots_are)

  pub commit_jobs-IsSized : (n i : ℕ) (r : Recorder D) → IsSized r → IsSized (commit_jobs n i r)
  unfolding commit_jobs
  commit_jobs-IsSized zero i r v = v
  commit_jobs-IsSized (suc n) i r v =
      commit_jobs-IsSized n (suc i) (commit_job r (get_or r.jobs i no_job))
        (commit_job-IsSized r (get_or r.jobs i no_job) v)

  -- Changes that the invariant allows.
  slots-IsValid :
      (r : Recorder D) (ss : List Slot)
      → IsValid r
      → length ss ≡ 2
      → IsValid (record r { slots = ss })
  slots-IsValid r ss v l = ground (arith, v, l)

  pub drivers-IsValid : (r : Recorder D) (d : D) → IsValid r → IsValid (record r { drivers = d })
  drivers-IsValid r d v = ground (arith, v)

  load_record-IsValid : (r : Recorder D) (k : ℕ) → IsValid r → IsValid (boot_load_record r k)
  unfolding boot_load_record
  load_record-IsValid r k v =
      elim (Bool-cases (get_or r.boot_ok k false && record_ok k (get_or r.boot_buf k []))) [
        | inl e ↦ rw e (slots-IsValid r _ v (length-set r.slots k _ ∙ v.slots_size))
        | inr e ↦ rw e v
      ]

  load_rom-IsValid : (r : Recorder D) (k : ℕ) → IsValid r → IsValid (boot_load_rom r k)
  unfolding boot_load_rom
  load_rom-IsValid r k v =
      let b = get_or r.boot_buf (2 + k) [] in
      elim (Bool-cases
        (get_or r.boot_ok (2 + k) false && (get_or b 0 0 == 0x28 && crc8 b 7 == get_or b 7 0))) [
          | inl e ↦ rw e (slots-IsValid r _ v (length-set r.slots k _ ∙ v.slots_size))
          | inr e ↦ rw e v
        ]

  pub stop-IsValid : (r : Recorder D) → IsValid r → IsValid (record r { state = stop })
  stop-IsValid r v = ground (arith, v.gives_up)

  pub boot_done-IsValid : (r : Recorder D) → IsValid r → IsValid (boot_done r)
  unfolding boot_done
  boot_done-IsValid r v =
      let loaded = boot_load_rom (boot_load_record (boot_load_rom (boot_load_record r 0) 0) 1) 1 in
      let w =
        load_rom-IsValid _ 1
          (load_record-IsValid _ 1 (load_rom-IsValid _ 0 (load_record-IsValid r 0 v))) in
      elim (Bool-cases (not (loaded.ds18_n == 0))) [
        | inl e ↦ rw e (go_wait-IsValid loaded (valid-IsSized loaded w))
        | inr e ↦ rw e (stop-IsValid loaded w)
      ]

  pub all_found-IsValid :
      (r : Recorder D) (roms : List (List ℕ)) → IsValid r → IsValid (all_found r roms)
  unfolding all_found
  all_found-IsValid r [] v = v
  all_found-IsValid r (rom ∷ roms) v =
      all_found-IsValid (all_sink r rom) roms (unfold all_sink in ground (arith, v))

  complete-IsValid : (r : Recorder D) (result : ℤ × ℕ) → IsValid r → IsValid (complete r result)
  unfolding complete
  complete-IsValid r (temp, scan_index) v =
      let idx = if r.seq_mode then r.seq_cur else scan_index in
      let temps = length-set r.temps idx temp in
      let oks = length-set r.temps_ok idx (is_measured temp) in ground (arith, v, temps, oks)

  pub completed-IsValid :
      (r : Recorder D) (results : List (ℤ × ℕ)) → IsValid r → IsValid (completed r results)
  unfolding completed
  completed-IsValid r [] v = v
  completed-IsValid r (result ∷ results) v =
      completed-IsValid (complete r result) results (complete-IsValid r result v)

pub either_off : (a b : Bool) → (a || b) ≡ false → a ≡ false
either_off true b h = h
either_off false b h = refl

pub if-IsValid :
    {D : Type 0} (b : Bool) (r1 r2 : Recorder D)
    → IsValid r1
    → IsValid r2
    → IsValid (if b then r1 else r2)
if-IsValid true r1 r2 v1 v2 = v1
if-IsValid false r1 r2 v1 v2 = v2

pub branches-IsValid :
    {D : Type 0} (a b c : Bool) (r1 r2 r3 r4 : Recorder D)
    → IsValid r1
    → IsValid r2
    → IsValid r3
    → (b ≡ false → c ≡ false → IsValid r4)
    → IsValid (if a then r1 else if b then r2 else if c then r3 else r4)
branches-IsValid true b c r1 r2 r3 r4 v1 v2 v3 v4 = v1
branches-IsValid false true c r1 r2 r3 r4 v1 v2 v3 v4 = v2
branches-IsValid false false true r1 r2 r3 r4 v1 v2 v3 v4 = v3
branches-IsValid false false false r1 r2 r3 r4 v1 v2 v3 v4 = v4 refl refl

-- The branches of a scan round.
pub scan-IsValid :
    {D : Type 0} (a b c d e : Bool) (r1 r2 r3 r4 r5 : Recorder D)
    → IsValid r1
    → IsValid r2
    → IsValid r3
    → IsValid r4
    → IsValid r5
    → IsValid (
        if a
        then if b then if c then r1 else r2 else if d then r2 else r3
        else if b
        then r4
        else if e
        then r5
        else r3)
scan-IsValid true true true d e r1 r2 r3 r4 r5 v1 v2 v3 v4 v5 = v1
scan-IsValid true true false d e r1 r2 r3 r4 r5 v1 v2 v3 v4 v5 = v2
scan-IsValid true false c true e r1 r2 r3 r4 r5 v1 v2 v3 v4 v5 = v2
scan-IsValid true false c false e r1 r2 r3 r4 r5 v1 v2 v3 v4 v5 = v3
scan-IsValid false true c d e r1 r2 r3 r4 r5 v1 v2 v3 v4 v5 = v4
scan-IsValid false false c d true r1 r2 r3 r4 r5 v1 v2 v3 v4 v5 = v5
scan-IsValid false false c d false r1 r2 r3 r4 r5 v1 v2 v3 v4 v5 = v3

module _ {D : Type 0} where
  complete_state : (r : Recorder D) (result : ℤ × ℕ) → (complete r result).state ≡ r.state
  unfolding complete
  complete_state r (temp, scan_index) = ground arith

  pub completed_state :
      (r : Recorder D) (results : List (ℤ × ℕ)) → (completed r results).state ≡ r.state
  unfolding completed
  completed_state r [] = refl
  completed_state r (result ∷ results) =
      completed_state (complete r result) results ∙ complete_state r result
