-- ===== src/Scheduler/Whole/Run.antt =====
-- `datapoint` of scheduler.c, a cycle, on a state in shape.
use past_work.Base.{
  ℕ, ◌+◌, ◌<◌, ◌≤◌, ◌^◌, ◌≡◌, refl, ap, ◌∙◌, false, ◌==◌, ◌⊎◌, if◌then◌else◌, arith, length,
  Bool-cases, inl, inr,
}
use past_work.Scheduler.State.{Sched, done, pure, ◌>>=◌, ◌>>◌, continue}
use past_work.Scheduler.Queues.{execute_b}
use past_work.Scheduler.Dispatch.{proceed_forward, creation, execute_r}
use past_work.Scheduler.Cycle.{countdown, datapoint}
use past_work.Scheduler.Whole.{entry, Good, Kept, Kept-refl, Kept-trans}
use past_work.Scheduler.Whole.Progress.{measure, ArriveBy, arrive_by, entries, progress}
use past_work.Scheduler.Whole.Proceeding.{proceed_forward-Good}
use past_work.Scheduler.Whole.Unblock.{Active, execute_b-Good}
use past_work.Scheduler.Whole.Arrivals.{creation-Good, started-Good}
use past_work.Scheduler.Whole.Executing.{execute_r-Good}
use past_work.Scheduler.Whole.Counting.{advanced, countdown-Good}

-- The steps of a cycle, one after the other.
datapoint-steps :
    (n alg : ℕ) (s s1 s2 s3 s4 s5 : Sched)
    → proceed_forward alg s ≡ done tt s1
    → execute_b s1 ≡ done tt s2
    → (if s2.total_prime == s2.count_prime then pure tt else creation) s2 ≡ done tt s3
    → execute_r alg n s3 ≡ done tt s4
    → countdown alg s4 ≡ done tt s5
    → datapoint n alg s ≡ done tt (advanced s5)
unfolding datapoint
datapoint-steps n alg s s1 s2 s3 s4 s5 a b c d e =
    rw (a, ◌>>=◌, ◌>>◌, continue)
      (rw (b, ◌>>=◌, ◌>>◌, continue)
        (rw (c, ◌>>=◌, ◌>>◌, continue)
          (rw (d, ◌>>=◌, ◌>>◌, continue) (rw (e, ◌>>=◌, ◌>>◌, continue) refl))))

-- Creation, or its omission once all processes have started.
arrivals-Good :
    (t : ℕ) (s : Sched)
    → s.present ≡ t
    → Good t t 1 s
    → Active s
    → (s' : Sched) × ((if s.total_prime == s.count_prime then pure tt else creation) s ≡ done tt s')
      × Good t (t + 1) 1 s'
      × Kept s s'
      × Active s'
arrivals-Good t s now g w = elim (Bool-cases (s.total_prime == s.count_prime)) [
  | inl all ↦ (s, rw all refl, started-Good t s (ground arith) g, Kept-refl s, w)
  | inr more ↦
      let (s', run, g', kept, w') = creation-Good t s now g w in (s', rw more run, g', kept, w')
]

-- What a cycle makes of a state.
pub record Cycled (last t : ℕ) (s s' : Sched) : Type 0 where
  pub good : Good (t + 1) (t + 1) 0 s'
  pub now : s'.present ≡ t + 1
  pub same_count : s'.count_prime ≡ s.count_prime
  pub one_line : length s.random_lines ≤ length s'.random_lines + 1
  pub by : ArriveBy last s'
  pub entries : (i : ℕ) → i < s.count_prime → entry (s'.processes i) ≡ entry (s.processes i)
  pub nearer : (s'.completion ≡ s'.count_prime) ⊎ (measure last (t + 1) s' + 1 ≤ measure last t s)

-- A cycle of an algorithm that suspends no process, in a state with the queues in shape and the
-- books in order, before cycle 2^31 - 1 and with a random number left, does not crash, exit or
-- hang. It leads to such a state of the next cycle with the same processes, reads one random number
-- at most, and leaves less to do unless all processes have ended.
pub datapoint-Cycled :
    (n alg last t : ℕ) (s : Sched)
    → (alg == 2) ≡ false
    → s.present ≡ t
    → t + 1 < 2 ^ 31
    → 0 < length s.random_lines
    → ArriveBy last s
    → Good t t 0 s
    → (s' : Sched) × (datapoint n alg s ≡ done tt s') × Cycled last t s s'
datapoint-Cycled n alg last t s here now top lines by g =
    let (s1, run1, g1, k1) = proceed_forward-Good alg t s here now g in
    let (s2, run2, g2, k2, w2) = execute_b-Good t s1 g1 in
    let (s3, run3, g3, k3, w3) =
      arrivals-Good t s2 (k2.same_present ∙ k1.same_present ∙ now) g2 w2 in
    let k : Kept s s3 = Kept-trans k1 (Kept-trans k2 k3) in
    let (s4, run4, g4, d) = execute_r-Good alg n t (t + 1) s3 here g3 (rw k.same_lines lines) in
    let now4 : s4.present ≡ t = d.same_present ∙ k.same_present ∙ now in
    let (s5, run5, g5, p) = countdown-Good alg t s4 now4 top g4 in
    (
      advanced s5,
      datapoint-steps n alg s s1 s2 s3 s4 s5 run1 run2 run3 run4 run5,
      record {
        good = g5;
        now = omega (arith, p.same_present, now4, top);
        same_count = p.same_count ∙ d.same_count ∙ k.same_count;
        one_line = omega (arith, ap length k.same_lines, ap length p.same_lines, d.one_line);
        by = arrive_by last t s s3 s4 s5 k d p g4 by;
        entries = λ i low.
            entries last t s s3 s4 s5 k d p g4 by i
              (omega (arith, low, d.same_count, k.same_count));
        nearer = progress last t s s3 s4 s5 k d p g4 by w3;
      },
    )
