-- ===== src/Recorder/Memory.antt =====
-- A round whose records stay in memory: EEPROM writing is off, or there is no DS2431.
use stm32_async_1wire.Prelude.{
  ℕ, zero, suc, ◌+◌, ◌≤◌, ◌<◌, inl, inr, Bool, true, false, not, ◌&&◌, ◌||◌, List, [], get_or,
  if◌then◌else◌, ◌≡◌, refl, sym, ap, ◌∙◌, arith, Bool-cases, length,
}
use stm32_async_1wire.Prelude.Int.{ltb_ℤ, ◌≤ℤ◌}
use stm32_async_1wire.Recorder.{Recorder, Drivers, Job, Slot, no_job, no_slot, slot_peak, slot_low}
use stm32_async_1wire.Recorder.Records.{
  Extremes, commit_job, commit_jobs, go_wait, slot_at, extremes,
}
use stm32_async_1wire.Recorder.Image.{IsStorable}
use stm32_async_1wire.Recorder.Queue.{record_jobs, round_jobs, queued, queue_records-IsPlanned}
use stm32_async_1wire.Recorder.Range.{IsRange, extremes-IsRange, temp_at}
use stm32_async_1wire.Recorder.Step.{evaluate, queue_records}
use stm32_async_1wire.Recorder.Commit.{
  get_or-take, length-take, rise, fall, commit_all, commit_jobs-all, commit_all-append, update_slot,
}

-- The peak and the low after a round.
record IsRoundKept (hi_new lo_new : Bool) (x : Extremes) (old new : List Slot) : Type 0 where
  peak_new :
      hi_new ≡ true
      → ((get_or new slot_peak no_slot).valid ≡ true) × ((get_or new slot_peak no_slot).temp ≡ x.hi)
  peak_old : hi_new ≡ false → get_or new slot_peak no_slot ≡ get_or old slot_peak no_slot
  low_new :
      lo_new ≡ true
      → ((get_or new slot_low no_slot).valid ≡ true) × ((get_or new slot_low no_slot).temp ≡ x.lo)
  low_old : lo_new ≡ false → get_or new slot_low no_slot ≡ get_or old slot_low no_slot

kept_slots :
    (hi_new lo_new : Bool) (x : Extremes) (ss ss' ts ts' : List Slot)
    → ss ≡ ts
    → ss' ≡ ts'
    → IsRoundKept hi_new lo_new x ss ss'
    → IsRoundKept hi_new lo_new x ts ts'
kept_slots hi_new lo_new x ss ss' ts ts' e f k = rw (← e, ← f) k

both_old : (a b : Bool) → (not a && not b) ≡ true → (a ≡ false) × (b ≡ false)
both_old true b h = absurd (cc h)
both_old false true h = absurd (cc h)
both_old false false h = (refl, refl)

module _ {D : Type 0} (ops : Drivers D) where
  round_slots :
      (r : Recorder D) (x : Extremes) (hi_new lo_new : Bool) (q : Recorder D)
      → length q.slots ≡ 2
      → (hi_new ≡ true → IsStorable x.hi)
      → (lo_new ≡ true → IsStorable x.lo)
      → IsRoundKept hi_new lo_new x q.slots (commit_all (round_jobs ops r x hi_new lo_new) q).slots
  round_slots r x hi_new lo_new q l h h' =
      let hi_rom = ops.device_rom r.drivers x.hi_i in
      let lo_rom = ops.device_rom r.drivers x.lo_i in
      let js =
        if hi_new then record_jobs (slot_at r slot_peak) slot_peak x.hi x.hi_i hi_rom else [] in
      let ks =
        if lo_new then record_jobs (slot_at r slot_low) slot_low x.lo x.lo_i lo_rom else [] in
      let a =
        update_slot hi_new q (slot_at r slot_peak) slot_peak x.hi x.hi_i hi_rom h (omega arith) in
      let middle = commit_all js q in
      let b =
        update_slot lo_new middle (slot_at r slot_low) slot_low x.lo x.lo_i lo_rom h'
          (omega (arith, a.same_size)) in
      let both : commit_all (round_jobs ops r x hi_new lo_new) q ≡ commit_all ks middle =
        unfold round_jobs in commit_all-append js ks q in
      let peak_kept = b.rest_kept slot_peak (λ e. absurd (omega (arith, e))) in
      rw both (record {
        peak_new = λ e. (
          ap (λ (s : Slot). s.valid) peak_kept ∙ a.new_valid e,
          ap (λ (s : Slot). s.temp) peak_kept ∙ a.new_temp e,
        );
        peak_old = λ e. peak_kept ∙ a.old_slot e;
        low_new = λ e. (b.new_valid e, b.new_temp e);
        low_old = λ e. b.old_slot e ∙ a.rest_kept slot_low (λ u. absurd (omega (arith, u)));
      })

  commit_planned :
      (q : Recorder D) (js : List Job)
      → queued q ≡ js
      → q.job_n ≤ length q.jobs
      → commit_jobs q.job_n 0 q ≡ commit_all js q
  unfolding queued
  commit_planned q js e l =
      let size : length js ≡ q.job_n = ap length (sym e) ∙ length-take q.job_n q.jobs l in
      ap (λ (n : ℕ). commit_jobs n 0 q) (sym size)
      ∙ commit_jobs-all js 0 q (λ k h.
        let plain : 0 + k ≡ k = omega arith in
        ap (λ (n : ℕ). get_or q.jobs n no_job) plain
        ∙ sym (get_or-take q.job_n k q.jobs (omega (arith, size)))
        ∙ ap (λ (t : List Job). get_or t k no_job) e)

  -- The records after a round that stays in memory, against the temperatures and the records before it.
  pub record IsMemoryRound (r r' : Recorder D) : Type 0 where
    pub peak_covers :
        (i : ℕ)
        → i < r.ds18_n
        → get_or r.temps_ok i false ≡ true
        → ((slot_at r' slot_peak).valid ≡ true) × (temp_at r.temps i ≤ℤ (slot_at r' slot_peak).temp)
    pub peak_grows :
        (slot_at r slot_peak).valid ≡ true
        → (slot_at r slot_peak).temp ≤ℤ (slot_at r' slot_peak).temp
    pub low_covers :
        (i : ℕ)
        → i < r.ds18_n
        → get_or r.temps_ok i false ≡ true
        → ((slot_at r' slot_low).valid ≡ true) × ((slot_at r' slot_low).temp ≤ℤ temp_at r.temps i)
    pub low_falls :
        (slot_at r slot_low).valid ≡ true → (slot_at r' slot_low).temp ≤ℤ (slot_at r slot_low).temp
    pub drivers_kept : r'.drivers ≡ r.drivers

  -- A new record is beyond the old one.
  abbrev hi_new : Recorder D → Extremes → Bool
  hi_new r x = not (slot_at r slot_peak).valid || ltb_ℤ (slot_at r slot_peak).temp x.hi

  abbrev lo_new : Recorder D → Extremes → Bool
  lo_new r x = not (slot_at r slot_low).valid || ltb_ℤ x.lo (slot_at r slot_low).temp

  kept_round :
      (r : Recorder D) (x : Extremes) (r' : Recorder D)
      → IsRange r.ds18_n r.temps r.temps_ok x
      → IsRoundKept (hi_new r x) (lo_new r x) x r.slots r'.slots
      → r'.drivers ≡ r.drivers
      → IsMemoryRound r r'
  kept_round r x r' range k d =
      let up = rise (slot_at r slot_peak) (slot_at r' slot_peak) x.hi k.peak_new k.peak_old in
      let down = fall (slot_at r slot_low) (slot_at r' slot_low) x.lo k.low_new k.low_old in
      record {
        peak_covers = λ i l ok. (up.valid_now, omega (arith, (range.bounds i l ok).1.0, up.covers));
        peak_grows = up.moves;
        low_covers =
            λ i l ok. (down.valid_now, omega (arith, (range.bounds i l ok).1.1, down.covers));
        low_falls = down.moves;
        drivers_kept = d;
      }

  evaluate_waits :
      (r : Recorder D) (x : Extremes)
      → extremes r.ds18_n r.temps r.temps_ok ≡ x
      → x.have ≡ true
      → (not (hi_new r x) && not (lo_new r x)) ≡ true
      → evaluate ops r ≡ go_wait r
  unfolding evaluate
  evaluate_waits r x at e n = rw (at, e, n) refl

  evaluate_commits :
      (r : Recorder D) (x : Extremes)
      → extremes r.ds18_n r.temps r.temps_ok ≡ x
      → x.have ≡ true
      → (not (hi_new r x) && not (lo_new r x)) ≡ false
      → ((queue_records ops r x (hi_new r x) (lo_new r x)).persist_off
          || not (queue_records ops r x (hi_new r x) (lo_new r x)).have_ds2431)
        ≡ true
      → evaluate ops r
        ≡ go_wait
            (record (commit_jobs
              (queue_records ops r x (hi_new r x) (lo_new r x)).job_n
              0
              (queue_records ops r x (hi_new r x) (lo_new r x))) { job_n = 0 })
  unfolding evaluate queue_records go_wait
  evaluate_commits r x at e n off = rw (at, e, n, off) refl

  ap_round :
      (r : Recorder D) {r' r'' : Recorder D} → r' ≡ r'' → IsMemoryRound r r' → IsMemoryRound r r''
  ap_round r e m = rw (← e) m

  waits :
      (r : Recorder D) (x : Extremes)
      → (not (hi_new r x) && not (lo_new r x)) ≡ true
      → IsRoundKept (hi_new r x) (lo_new r x) x r.slots r.slots
  waits r x n =
      let old = both_old (hi_new r x) (lo_new r x) n in
      record {
        peak_new = λ u. absurd (cc (old.0, u));
        peak_old = λ u. refl;
        low_new = λ u. absurd (cc (old.1, u));
        low_old = λ u. refl;
      }

  commit_drivers : (n i : ℕ) (r : Recorder D) → (commit_jobs n i r).drivers ≡ r.drivers
  unfolding commit_jobs commit_job
  commit_drivers zero i r = refl
  commit_drivers (suc n) i r = commit_drivers n (suc i) (commit_job r (get_or r.jobs i no_job))

  commits :
      (r : Recorder D) (x : Extremes)
      → length r.jobs ≡ 4
      → length r.slots ≡ 2
      → (hi_new r x ≡ true → IsStorable x.hi)
      → (lo_new r x ≡ true → IsStorable x.lo)
      → IsRoundKept
          (hi_new r x)
          (lo_new r x)
          x
          r.slots
          (commit_jobs
            (queue_records ops r x (hi_new r x) (lo_new r x)).job_n
            0
            (queue_records ops r x (hi_new r x) (lo_new r x))).slots
  commits r x size slots h h' =
      let q = queue_records ops r x (hi_new r x) (lo_new r x) in
      let p = queue_records-IsPlanned ops r x (hi_new r x) (lo_new r x) size in
      let js = round_jobs ops r x (hi_new r x) (lo_new r x) in
      let same : q.slots ≡ r.slots = ap (λ (u : Recorder D). u.slots) p.only in
      let k = round_slots r x (hi_new r x) (lo_new r x) q (ap length same ∙ slots) h h' in
      let done = commit_planned q js p.plan (omega (arith, p.fits, p.sized)) in
      kept_slots (hi_new r x) (lo_new r x) x _ _ _ _ same
        (ap (λ (u : Recorder D). u.slots) (sym done)) k

  switched_off :
      (r : Recorder D) (x : Extremes)
      → length r.jobs ≡ 4
      → (r.persist_off || not r.have_ds2431) ≡ true
      → ((queue_records ops r x (hi_new r x) (lo_new r x)).persist_off
          || not (queue_records ops r x (hi_new r x) (lo_new r x)).have_ds2431)
        ≡ true
  switched_off r x size off =
      let p = (queue_records-IsPlanned ops r x (hi_new r x) (lo_new r x) size).only in
      ap (λ (u : Recorder D). u.persist_off || not u.have_ds2431) p ∙ off

  -- With writing off, or without a DS2431, and temperatures from -128.9 to 127.9 degrees, the
  -- evaluation of a round keeps the records in memory: the peak is valid and not below any
  -- temperature measured, the low is valid and not above any, a valid peak does not fall, a valid
  -- low does not rise, and no driver is called.
  pub evaluate-IsMemoryRound :
      (r : Recorder D)
      → length r.jobs ≡ 4
      → length r.slots ≡ 2
      → (r.persist_off || not r.have_ds2431) ≡ true
      → ((i : ℕ) → i < r.ds18_n → get_or r.temps_ok i false ≡ true → IsStorable (temp_at r.temps i))
      → IsMemoryRound r (evaluate ops r)
  unfolding evaluate go_wait
  evaluate-IsMemoryRound r size slots off storable =
      let x = extremes r.ds18_n r.temps r.temps_ok in
      let range = extremes-IsRange r.ds18_n r.temps r.temps_ok in
      elim (Bool-cases x.have) [
        | inr e ↦ rw e (record {
          peak_covers = λ i l ok. absurd (cc (e, (range.bounds i l ok).0));
          peak_grows = λ v. omega arith;
          low_covers = λ i l ok. absurd (cc (e, (range.bounds i l ok).0));
          low_falls = λ v. omega arith;
          drivers_kept = refl;
        })
        | inl e ↦ elim (Bool-cases (not (hi_new r x) && not (lo_new r x))) [
          | inl n ↦
              ap_round r (sym (evaluate_waits r x refl e n))
                (kept_round r x (go_wait r) range (waits r x n) refl)
          | inr n ↦ ap_round r (sym (evaluate_commits r x refl e n (switched_off r x size off))) (
              let hi = range.hi_measured e in
              let lo = range.lo_measured e in
              let q = queue_records ops r x (hi_new r x) (lo_new r x) in
              let planned = queue_records-IsPlanned ops r x (hi_new r x) (lo_new r x) size in
              let kept =
                commits r x size slots (λ u. rw (hi.1.1) at (storable x.hi_i hi.0 hi.1.0))
                  (λ u. rw (lo.1.1) at (storable x.lo_i lo.0 lo.1.0)) in
              kept_round r x (go_wait (record (commit_jobs q.job_n 0 q) { job_n = 0 })) range kept
                (commit_drivers q.job_n 0 q ∙ ap (λ (u : Recorder D). u.drivers) planned.only))
        ]
      ]
