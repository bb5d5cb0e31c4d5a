-- ===== src/Recorder/Queue.antt =====
-- The queue of write jobs that `evaluate` fills, as a list.
use stm32_async_1wire.Prelude.{
  ℕ, zero, suc, ◌+◌, ◌≤◌, ◌<◌, Bool, true, false, not, ◌&&◌, List, [], ◌∷◌, ◌++◌, set, take,
  if◌then◌else◌, ◌≡◌, refl, ap, ◌∙◌, arith, Bool-cases, inl, inr, length, length-set, length-append,
}
use mathlib.Core.List.{append_assoc, append-nil}
use stm32_async_1wire.Prelude.Int.{ℤ}
use stm32_async_1wire.OneWire.{same_bytes}
use stm32_async_1wire.Recorder.{
  Recorder, Job, Slot, Drivers, slot_peak, slot_low, rom_addr, rec_addr,
}
use stm32_async_1wire.Recorder.Records.{
  Extremes, slot_at, record_image, push_rom, push_record, queue_extreme,
}
use stm32_async_1wire.Recorder.Step.{queue_records}

abbrev pub rom_job : ℕ → List ℕ → Job
rom_job slot rom = record { is_rom = true; slot = slot; addr = rom_addr slot; image = rom }

abbrev pub record_job : ℕ → ℕ → ℤ → ℕ → Job
record_job slot counter temp idx = record {
  is_rom = false;
  slot = slot;
  addr = rec_addr slot;
  image = record_image slot counter temp idx;
}

-- The jobs for a new record of a slot: the sensor's ROM first, unless it is stored, and then the record.
unfoldable pub record_jobs : Slot → ℕ → ℤ → ℕ → List ℕ → List Job
record_jobs s slot temp idx rom =
    if s.rom_valid && same_bytes 8 s.rom rom
    then record_job slot s.counter temp idx ∷ []
    else rom_job slot rom ∷ record_job slot s.counter temp idx ∷ []

take-set :
    (xs : List Job) (n : ℕ) (x : Job)
    → n < length xs
    → take (n + 1) (set xs n x) ≡ take n xs ++ x ∷ []
take-set [] n x l = absurd (omega arith)
take-set (y ∷ xs) zero x l = refl
take-set (y ∷ xs) (suc n) x l =
    let moved : suc n + 1 ≡ suc (n + 1) = omega arith in
    ap (λ (k : ℕ). take k (y ∷ set xs n x)) moved
    ∙ ap (λ (t : List Job). y ∷ t) (take-set xs n x (omega arith))

module _ {D : Type 0} where
  unfoldable pub queued : Recorder D → List Job
  queued r = take r.job_n r.jobs

  -- The queue has room, and only it is filled.
  pub record IsQueued (r r' : Recorder D) (added : List Job) : Type 0 where
    pub queue_is : queued r' ≡ queued r ++ added
    pub size_is : length r'.jobs ≡ length r.jobs
    pub count_is : r'.job_n ≡ r.job_n + length added
    pub frame : r' ≡ (record r { jobs = r'.jobs; job_n = r'.job_n })

  push-IsQueued :
      (r : Recorder D) (j : Job)
      → r.job_n < length r.jobs
      → IsQueued r (record r { jobs = set r.jobs r.job_n j; job_n = r.job_n + 1 }) (j ∷ [])
  unfolding queued
  push-IsQueued r j l = record {
    queue_is = take-set r.jobs r.job_n j l;
    size_is = length-set r.jobs r.job_n j;
    count_is = refl;
    frame = refl;
  }

  IsQueued-then :
      (r r' r'' : Recorder D) (js ks : List Job)
      → IsQueued r r' js
      → IsQueued r' r'' ks
      → IsQueued r r'' (js ++ ks)
  IsQueued-then r r' r'' js ks a b = record {
    queue_is =
        b.queue_is ∙ ap (λ (t : List Job). t ++ ks) a.queue_is ∙ append_assoc (queued r) js ks;
    size_is = b.size_is ∙ a.size_is;
    count_is = omega (arith, a.count_is, b.count_is, length-append js ks);
    frame =
        b.frame ∙ ap (λ (u : Recorder D). record u { jobs = r''.jobs; job_n = r''.job_n }) a.frame;
  }

  queue_extreme-IsQueued :
      (r : Recorder D) (slot : ℕ) (temp : ℤ) (idx : ℕ) (rom : List ℕ)
      → r.job_n + 2 ≤ length r.jobs
      → IsQueued r
          (queue_extreme r slot temp idx rom)
          (record_jobs (slot_at r slot) slot temp idx rom)
  unfolding queue_extreme push_rom push_record record_jobs queued
  queue_extreme-IsQueued r slot temp idx rom l =
      elim (Bool-cases ((slot_at r slot).rom_valid && same_bytes 8 (slot_at r slot).rom rom)) [
        | inl e ↦
            rw e (push-IsQueued r (record_job slot (slot_at r slot).counter temp idx) (omega arith))
        | inr e ↦
            let first = push-IsQueued r (rom_job slot rom) (omega arith) in
            let r' : Recorder D = record r {
              jobs = set r.jobs r.job_n (rom_job slot rom);
              job_n = r.job_n + 1;
            } in
            let second =
              push-IsQueued r' (record_job slot (slot_at r slot).counter temp idx)
                (omega (arith, first.size_is)) in
            rw e (IsQueued-then r r' _ _ _ first second)
      ]

some_record :
    (s : Slot) (slot : ℕ) (temp : ℤ) (idx : ℕ) (rom : List ℕ)
    → 1 ≤ length (record_jobs s slot temp idx rom)
unfolding record_jobs
some_record s slot temp idx rom = ground arith

length-record_jobs :
    (s : Slot) (slot : ℕ) (temp : ℤ) (idx : ℕ) (rom : List ℕ)
    → length (record_jobs s slot temp idx rom) ≤ 2
unfolding record_jobs
length-record_jobs s slot temp idx rom = ground arith

module _ {D : Type 0} (ops : Drivers D) where
  -- The jobs of a round: those of the peak and then those of the low, each where it is new.
  unfoldable pub round_jobs : Recorder D → Extremes → Bool → Bool → List Job
  round_jobs r x hi_new lo_new =
      (if hi_new
        then record_jobs (slot_at r slot_peak) slot_peak x.hi x.hi_i
            (ops.device_rom r.drivers x.hi_i)
        else [])
      ++ (if lo_new
          then record_jobs (slot_at r slot_low) slot_low x.lo x.lo_i
              (ops.device_rom r.drivers x.lo_i)
          else [])

  -- The queue holds these jobs, in this order and no other; nothing else differs.
  pub record IsPlanned (r r' : Recorder D) (js : List Job) : Type 0 where
    pub plan : queued r' ≡ js
    pub fits : r'.job_n ≤ 4
    pub sized : length r'.jobs ≡ length r.jobs
    pub count_is : r'.job_n ≡ length js
    pub only : r' ≡ (record r { jobs = r'.jobs; job_n = r'.job_n })

  -- A new record is at least one job.
  pub round_jobs_some :
      (r : Recorder D) (x : Extremes) (hi_new lo_new : Bool)
      → (not hi_new && not lo_new) ≡ false
      → 1 ≤ length (round_jobs r x hi_new lo_new)
  unfolding round_jobs
  round_jobs_some r x true lo_new h =
      let peak_jobs =
        record_jobs (slot_at r slot_peak) slot_peak x.hi x.hi_i (ops.device_rom r.drivers x.hi_i) in
      let low_jobs =
        if lo_new
        then record_jobs (slot_at r slot_low) slot_low x.lo x.lo_i (ops.device_rom r.drivers x.lo_i)
        else [] in
      omega (
        arith,
        length-append peak_jobs low_jobs,
        some_record (slot_at r slot_peak) slot_peak x.hi x.hi_i (ops.device_rom r.drivers x.hi_i),
      )
  round_jobs_some r x false true h =
      some_record (slot_at r slot_low) slot_low x.lo x.lo_i (ops.device_rom r.drivers x.lo_i)
  round_jobs_some r x false false h = absurd (cc h)

  planned :
      (r r' : Recorder D) (js : List Job)
      → IsQueued (record r { job_n = 0 }) r' js
      → length js ≤ 4
      → IsPlanned r r' js
  planned r r' js q l = record {
    plan = unfold queued in q.queue_is;
    fits = omega (arith, q.count_is);
    sized = q.size_is;
    count_is = omega (arith, q.count_is);
    only = q.frame;
  }

  -- With a queue of four entries, the jobs queued for a round are those of a new peak and then those
  -- of a new low, for each the ROM block before the record unless that ROM is stored; there are four
  -- at most, and nothing else of the recorder changes.
  pub queue_records-IsPlanned :
      (r : Recorder D) (x : Extremes) (hi_new lo_new : Bool)
      → length r.jobs ≡ 4
      → IsPlanned r (queue_records ops r x hi_new lo_new) (round_jobs r x hi_new lo_new)
  unfolding queue_records round_jobs
  queue_records-IsPlanned r x false false l = record {
    plan = unfold queued in refl;
    fits = omega arith;
    sized = refl;
    count_is = refl;
    only = refl;
  }
  queue_records-IsPlanned r x true false l =
      let rom = ops.device_rom r.drivers x.hi_i in
      let js = record_jobs (slot_at r slot_peak) slot_peak x.hi x.hi_i rom in
      rw (append-nil js) (
        planned r _ js
          (queue_extreme-IsQueued (record r { job_n = 0 }) slot_peak x.hi x.hi_i rom (omega arith))
          (omega (arith, length-record_jobs (slot_at r slot_peak) slot_peak x.hi x.hi_i rom)))
  queue_records-IsPlanned r x false true l =
      let rom = ops.device_rom r.drivers x.lo_i in
      planned r _ _
        (queue_extreme-IsQueued (record r { job_n = 0 }) slot_low x.lo x.lo_i rom (omega arith))
        (omega (arith, length-record_jobs (slot_at r slot_low) slot_low x.lo x.lo_i rom))
  queue_records-IsPlanned r x true true l =
      let hi_rom = ops.device_rom r.drivers x.hi_i in
      let lo_rom = ops.device_rom r.drivers x.lo_i in
      let r0 : Recorder D = record r { job_n = 0 } in
      let r1 = queue_extreme r0 slot_peak x.hi x.hi_i hi_rom in
      let hi_few = length-record_jobs (slot_at r slot_peak) slot_peak x.hi x.hi_i hi_rom in
      let lo_few = length-record_jobs (slot_at r slot_low) slot_low x.lo x.lo_i lo_rom in
      let first = queue_extreme-IsQueued r0 slot_peak x.hi x.hi_i hi_rom (omega arith) in
      let same : slot_at r1 slot_low ≡ slot_at r slot_low =
        ap (λ (u : Recorder D). slot_at u slot_low) first.frame in
      let room : r1.job_n + 2 ≤ length r1.jobs =
        omega (arith, first.count_is, first.size_is, hi_few) in
      let second = rw same at (queue_extreme-IsQueued r1 slot_low x.lo x.lo_i lo_rom room) in
      planned r _ _ (IsQueued-then r0 r1 _ _ _ first second) (
        omega (
          arith,
          hi_few,
          lo_few,
          length-append (record_jobs (slot_at r slot_peak) slot_peak x.hi x.hi_i hi_rom)
              (record_jobs (slot_at r slot_low) slot_low x.lo x.lo_i lo_rom),
        ))
