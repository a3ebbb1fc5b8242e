-- ===== src/Scheduler/Whole/Program.antt =====
-- The whole of scheduler.c for an algorithm that suspends no process: the input is read, and
-- `listoutputs` runs it twice.
use past_work.Base.{
  ℕ, ◌+◌, ◌<◌, ◌≤◌, ◌^◌, ◌≡◌, ◌≢◌, refl, ap, ◌∙◌, sym, true, false, List, ◌==◌, ltb, if◌then◌else◌,
  arith, length, All,
}
use past_work.Scheduler.State.{Sched, done, ◌>>=◌, ◌>>◌, continue}
use past_work.Scheduler.Cycle.{Entry, load_from, extra, run_all, listoutputs}
use past_work.Scheduler.Census.{total, total-ext, total-zero}
use past_work.Scheduler.Whole.{entry}
use past_work.Scheduler.Whole.Progress.{ArriveBy}
use past_work.Scheduler.Whole.Accounts.{Finished, run_all-Finished}
use past_work.Scheduler.Whole.Start.{
  Unstarted, Unstarted-Good, measure-Unstarted, work_of, workload,
}
use past_work.Scheduler.Whole.Load.{simulable, work_of_all, load_from-Loaded}
use past_work.Scheduler.Whole.Reset.{extra-Unstarted}

-- The file of random numbers is open at its start.
abbrev pub reopened : List ℕ → Sched → Sched
reopened lines s = record s { random_lines = lines }

reopened-Unstarted : (lines : List ℕ) (s : Sched) → Unstarted s → Unstarted (reopened lines s)
reopened-Unstarted lines s u = record {
  fresh = u.fresh;
  numbered = u.numbered;
  can = u.can;
  unspent = u.unspent;
  ready = u.ready;
  blocked = u.blocked;
  selection = u.selection;
  present = u.present;
  total_prime = u.total_prime;
  completion = u.completion;
  small = u.small;
}

-- The algorithm of `listoutputs`.
abbrev pub algorithm : ℕ → ℕ
algorithm datastream = if ltb datastream 4 then datastream else 0

listoutputs-steps :
    (fuel : ℕ) (lines : List ℕ) (datastream : ℕ) (s s1 s2 s3 s4 : Sched)
    → run_all fuel 1 (algorithm datastream) (reopened lines s) ≡ done tt s1
    → extra lines s1 ≡ done tt s2
    → run_all fuel 2 (algorithm datastream) (reopened lines s2) ≡ done tt s3
    → extra lines s3 ≡ done tt s4
    → listoutputs fuel lines datastream s ≡ done tt s4
unfolding listoutputs
listoutputs-steps fuel lines datastream s s1 s2 s3 s4 a b c d =
    rw (a, ◌>>=◌, ◌>>◌, continue)
      (rw (b, ◌>>=◌, ◌>>◌, continue)
        (rw (c, ◌>>=◌, ◌>>◌, continue) (rw (d, ◌>>=◌, ◌>>◌, continue) refl)))

-- What a run needs: enough rounds, and a random number for each of them.
pub record Enough (fuel last : ℕ) (lines : List ℕ) (s : Sched) : Type 0 where
  pub rounds : last + workload s < fuel
  pub numbers : fuel ≤ length lines
  pub processes : s.count_prime ≤ length lines
  pub times : fuel < 2 ^ 31
  pub by : ArriveBy last s

-- A state with the same processes needs the same.
Enough-same :
    (fuel last : ℕ) (lines : List ℕ) (s s' : Sched)
    → s'.count_prime ≡ s.count_prime
    → ((i : ℕ) → i < s.count_prime → entry (s'.processes i) ≡ entry (s.processes i))
    → Enough fuel last lines s
    → Enough fuel last lines s'
Enough-same fuel last lines s s' count same n =
    let work : workload s' ≡ workload s =
      ap (λ (k : ℕ). total k (λ i. work_of (entry (s'.processes i)))) count
      ∙ total-ext s.count_prime (λ i. work_of (entry (s'.processes i)))
          (λ i. work_of (entry (s.processes i)))
          (λ i low. ap (λ (e : Entry). work_of e) (same i low)) in
    record {
      rounds = omega (arith, work, n.rounds);
      numbers = n.numbers;
      processes = omega (arith, count, n.processes);
      times = n.times;
      by = λ i low.
          let below : i < s.count_prime = omega (arith, low, count) in
          let a = ap (λ (e : Entry). e.a) (same i below) in omega (arith, a, n.by i below);
    }

-- A run from the state before the first cycle, and the reset behind it.
once :
    (fuel n alg last : ℕ) (lines : List ℕ) (s : Sched)
    → (alg == 2) ≡ false
    → Unstarted s
    → Enough fuel last lines s
    → (s1 : Sched) × (s2 : Sched) × (run_all fuel n alg (reopened lines s) ≡ done tt s1)
      × Finished (reopened lines s) s1
      × (extra lines s1 ≡ done tt s2)
      × Unstarted s2
      × Enough fuel last lines s2
once fuel n alg last lines s here u e =
    let v : Sched = reopened lines s in
    let u' = reopened-Unstarted lines s u in
    let (s1, run, f) =
      run_all-Finished fuel n alg last 0 v here u.present (omega (arith, e.times)) e.numbers e.by
        (Unstarted-Good v u') (omega (arith, measure-Unstarted last v u', e.rounds)) in
    let (s2, back, u2, count, same) =
      extra-Unstarted lines f.cycle f.cycle 0 s1 f.good
        (omega (arith, f.same_count, e.processes)) in
    (
      s1,
      s2,
      run,
      f,
      back,
      u2,
      Enough-same fuel last lines s s2 (count ∙ f.same_count)
          (λ i low. same i (omega (arith, low, f.same_count)) ∙ f.entries i low) e,
    )

pub listoutputs-returns :
    (fuel last datastream : ℕ) (lines : List ℕ) (s : Sched)
    → datastream ≢ 2
    → Unstarted s
    → Enough fuel last lines s
    → (s' : Sched) × (listoutputs fuel lines datastream s ≡ done tt s') × Unstarted s'
listoutputs-returns fuel last datastream lines s ne u e =
    let alg = algorithm datastream in
    let here : (alg == 2) ≡ false = ground arith in
    let (s1, s2, run1, _, back1, u2, e2) = once fuel 1 alg last lines s here u e in
    let (s3, s4, run2, _, back2, u4, _) = once fuel 2 alg last lines s2 here u2 e2 in
    (s4, listoutputs-steps fuel lines datastream s s1 s2 s3 s4 run1 back1 run2 back2, u4)

-- `main` reads the processes of the input, none of which needs no time, draws bursts from an empty
-- range or has a blocking time that goes beyond an `int32_t`, and `listoutputs` runs an algorithm
-- other than the uniprogrammed one. Then both return, and no process has started: each of the two
-- runs and each reset ends without a crash, an exit or a hang, when the rounds of a run are below
-- 2^31 and above the last arrival and the work of the processes together (for each its time C times
-- M C + 2), and there is a random number for each process and for each round.
pub program-returns :
    (fuel last datastream : ℕ) (lines : List ℕ) (es : List Entry) (s : Sched)
    → datastream ≢ 2
    → Unstarted s
    → s.count_prime ≡ 0
    → All (λ e. simulable e ≡ true) es
    → All (λ e. e.a ≤ last) es
    → length es ≤ length s.random_lines
    → length es ≤ length lines
    → last + work_of_all es < fuel
    → fuel ≤ length lines
    → fuel < 2 ^ 31
    → length es + 1 < 2 ^ 32
    → (s' : Sched) × ((load_from es 0 >> listoutputs fuel lines datastream) s ≡ done tt s')
      × Unstarted s'
program-returns fuel last datastream lines es s ne u none_yet ok arrive first second rounds numbers
      times small =
    let (s1, load, l) = load_from-Loaded es s u ok (omega (arith, none_yet, small)) first in
    let load' : load_from es 0 s ≡ done tt s1 =
      ap (λ (n : ℕ). load_from es n s) (sym none_yet) ∙ load in
    let nothing : workload s ≡ 0 =
      ap (λ (n : ℕ). total n (λ i. work_of (entry (s.processes i)))) none_yet
      ∙ total-zero (λ i. work_of (entry (s.processes i))) in
    let (s', run, u') = listoutputs-returns fuel last datastream lines s1 ne l.unstarted (record {
      rounds = omega (arith, l.work, nothing, rounds);
      numbers = numbers;
      processes = omega (arith, l.count, none_yet, second);
      times = times;
      by = l.by last (λ i low. absurd (omega (arith, low, none_yet))) arrive;
    }) in
    (s', rw (load', ◌>>=◌, ◌>>◌, continue) run, u')
