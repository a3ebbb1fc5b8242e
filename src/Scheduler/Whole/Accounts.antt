-- ===== src/Scheduler/Whole/Accounts.antt =====
-- The loop of scheduler.c over the cycles, and what it leaves of the processes.
use past_work.Base.{
  ℕ, zero, suc, ◌+◌, ◌<◌, ◌≤◌, ◌^◌, ◌≡◌, refl, ap, ◌∙◌, sym, true, false, ◌==◌, arith, length,
  Bool-cases, inl, inr,
}
use past_work.Scheduler.State.{Process, Sched, done, ◌>>=◌, ◌>>◌, continue}
use past_work.Scheduler.Census.{count-full}
use past_work.Scheduler.Cycle.{Entry, datapoint, run_all}
use past_work.Scheduler.Whole.{entry, in_state, Good}
use past_work.Scheduler.Whole.Progress.{measure, ArriveBy}
use past_work.Scheduler.Whole.Run.{datapoint-Cycled}

-- The result of a run that ends: all processes have ended, and the books are in order.
pub record Finished (s s' : Sched) : Type 0 where
  pub cycle : ℕ
  pub good : Good cycle cycle 0 s'
  pub now : s'.present ≡ cycle
  pub all : s'.completion ≡ s'.count_prime
  pub same_count : s'.count_prime ≡ s.count_prime
  pub entries : (i : ℕ) → i < s.count_prime → entry (s'.processes i) ≡ entry (s.processes i)

run_all-stops :
    (k n alg : ℕ) (s : Sched)
    → (s.completion == s.count_prime) ≡ true
    → run_all k n alg s ≡ done tt s
unfolding run_all
run_all-stops zero n alg s e = rw e refl
run_all-stops (suc k) n alg s e = rw e refl

run_all-goes :
    (k n alg : ℕ) (s s' : Sched)
    → (s.completion == s.count_prime) ≡ false
    → datapoint n alg s ≡ done tt s'
    → run_all (suc k) n alg s ≡ run_all k n alg s'
unfolding run_all
run_all-goes k n alg s s' e run =
    rw (e, ◌>>=◌, ◌>>◌, continue) (rw (run, ◌>>=◌, ◌>>◌, continue) refl)

stopped :
    (t : ℕ) (s : Sched)
    → s.present ≡ t
    → (s.completion == s.count_prime) ≡ true
    → Good t t 0 s
    → Finished s s
stopped t s now over g = record {
  cycle = t;
  good = g;
  now = now;
  all = ground arith;
  same_count = refl;
  entries = λ i low. refl;
}

-- With more rounds than the measure of the state, and a random number for each round, the loop ends
-- with all processes ended.
pub run_all-Finished :
    (k n alg last t : ℕ) (s : Sched)
    → (alg == 2) ≡ false
    → s.present ≡ t
    → t + k < 2 ^ 31
    → k ≤ length s.random_lines
    → ArriveBy last s
    → Good t t 0 s
    → measure last t s < k
    → (s' : Sched) × (run_all k n alg s ≡ done tt s') × Finished s s'
run_all-Finished zero n alg last t s here now top lines by g m = absurd (omega (arith, m))
run_all-Finished (suc k) n alg last t s here now top lines by g m =
    elim (Bool-cases (s.completion == s.count_prime)) [
      | inl over ↦ (s, run_all-stops (suc k) n alg s over, stopped t s now over g)
      | inr more ↦
          let (u, run, c) =
            datapoint-Cycled n alg last t s here now (omega (arith, top)) (omega (arith, lines)) by
              g in
          elim c.nearer [
            | inl over ↦ (
              u,
              run_all-goes k n alg s u more run ∙ run_all-stops k n alg u (ground (arith, over)),
              record {
                cycle = t + 1;
                good = c.good;
                now = c.now;
                all = over;
                same_count = c.same_count;
                entries = c.entries;
              },
            )
            | inr less ↦
                let (s', run', f) =
                  run_all-Finished k n alg last (t + 1) u here c.now (omega (arith, top))
                    (omega (arith, lines, c.one_line)) c.by c.good (omega (arith, less, m)) in
                (
                  s',
                  run_all-goes k n alg s u more run ∙ run',
                  record {
                    cycle = f.cycle;
                    good = f.good;
                    now = f.now;
                    all = f.all;
                    same_count = f.same_count ∙ c.same_count;
                    entries =
                        λ i low. f.entries i (omega (arith, low, c.same_count)) ∙ c.entries i low;
                  },
                )
          ]
    ]

-- What the report prints of a process that has ended.
pub record Accounts (r r' : Process) : Type 0 where
  pub ended : r'.condition ≡ 4
  pub same_entry : entry r' ≡ entry r
  pub served : r'.cpu_time ≡ r.c
  pub turnaround : r'.finishing_time ≡ r.a + r.c + r'.btime + r'.current_waiting_time

-- From a state with the queues in shape and the books in order, an algorithm that suspends no
-- process runs until all processes have ended, within more rounds than the measure of the state,
-- when there is a random number for each round. Then each process has had exactly the time C, and
-- its finishing time is its arrival plus C, its time blocked and its time waiting.
pub run_all-Accounts :
    (k n alg last t : ℕ) (s : Sched)
    → (alg == 2) ≡ false
    → s.present ≡ t
    → t + k < 2 ^ 31
    → k ≤ length s.random_lines
    → ArriveBy last s
    → Good t t 0 s
    → measure last t s < k
    → (s' : Sched) × (run_all k n alg s ≡ done tt s')
      × ((i : ℕ) → i < s.count_prime → Accounts (s.processes i) (s'.processes i))
run_all-Accounts k n alg last t s here now top lines by g m =
    let (s', run, f) = run_all-Finished k n alg last t s here now top lines by g m in
    (
      s',
      run,
      λ i low.
          let below : i < s'.count_prime = omega (arith, low, f.same_count) in
          let four =
            count-full s'.count_prime (in_state s' 4) (sym f.good.shape.finished ∙ f.all) i below in
          let (can, ok) = f.good.books i below in
          let same = f.entries i low in
          let same_a = ap (λ (e : Entry). e.a) same in
          let same_c = ap (λ (e : Entry). e.c) same in
          record {
            ended = ground arith;
            same_entry = same;
            served = ground arith;
            turnaround = ground arith;
          },
    )
