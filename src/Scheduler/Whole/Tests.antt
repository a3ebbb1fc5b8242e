-- ===== src/Scheduler/Whole/Tests.antt =====
-- Runs of scheduler.c as a whole on a small input.
use past_work.Base.Chains.{write_at, write_at-all}
use past_work.Base.{ℕ, ◌<◌, ◌≤◌, ◌≡◌, ◌∙◌, refl, true, false, none, List, [], ◌∷◌, arith}
use past_work.Scheduler.State.{Process, empty_queue, Sched, done, ◌>>◌}
use past_work.Scheduler.Cycle.{extra, datapoint, run_all, listoutputs, Entry, load_from}
use past_work.Scheduler.Census.{total-zero, total-suc}
use past_work.Scheduler.Whole.{brief, entry, possible, spent}
use past_work.Scheduler.Whole.Progress.{measure, ArriveBy}
use past_work.Scheduler.Whole.Run.{Cycled, datapoint-Cycled}
use past_work.Scheduler.Whole.Accounts.{Accounts, Finished, run_all-Finished, run_all-Accounts}
use past_work.Scheduler.Whole.Start.{
  Fresh, workload, work_of, Unstarted, Unstarted-Good, measure-Unstarted,
}
use past_work.Scheduler.Whole.Load.{Loaded, load_from-Loaded}
use past_work.Scheduler.Whole.Reset.{extra-Unstarted}
use past_work.Scheduler.Whole.Program.{program-returns}

abbrev blank : Process
blank = record {
  a = 0;
  b = 0;
  c = 0;
  m = 0;
  process_id = 0;
  condition = 0;
  finishing_time = 0;
  cpu_time = 0;
  btime = 0;
  current_waiting_time = 0;
  burst_time = 0;
  cpu_burst = 0;
  quantum = 0;
  operating = false;
  push_block = none;
  fresh_prime = none;
  push_prime_forward = none;
}

abbrev lines : List ℕ
lines =
    1804289383 ∷ 846930886 ∷ 1681692777 ∷ 1714636915 ∷ 1957747793 ∷ 424238335 ∷ 719885386
    ∷ 1649760492 ∷ 596516649 ∷ 1189641421 ∷ 1025202362 ∷ 1350490027 ∷ 783368690 ∷ 1102520059
    ∷ 2044897763 ∷ 1967513926 ∷ []

-- No process yet.
abbrev start : Sched
start = record {
  processes = λ _. blank;
  count_prime = 0;
  ranomize_n = false;
  first_prime = true;
  nameless_op = none;
  present = 0;
  total_prime = 0;
  completion = 0;
  total_time_number = 0;
  selection = none;
  ready = empty_queue;
  paused = empty_queue;
  blocked = empty_queue;
  terminate_alg = λ _. blank;
  random_lines = lines;
  events = [];
}

start-Unstarted : Unstarted start
start-Unstarted = record {
  fresh = λ i. record { unstarted = refl; unqueued = refl; unblocked = refl };
  numbered = λ i low. absurd (omega arith);
  can = λ i low. absurd (omega arith);
  unspent = λ i low. absurd (omega arith);
  ready = refl;
  blocked = refl;
  selection = refl;
  present = refl;
  total_prime = refl;
  completion = refl;
  small = omega arith;
}

abbrev first : Entry
first = record { a = 0; b = 1; c = 2; m = 1 }

abbrev second : Entry
second = record { a = 1; b = 2; c = 1; m = 0 }

abbrev two : List Entry
two = first ∷ second ∷ []

program-returns_example :
    (s' : Sched) × ((load_from two 0 >> listoutputs 15 lines 1) start ≡ done tt s') × Unstarted s'
unfolding brief
program-returns_example =
    program-returns 15 1 1 lines two start (omega arith) start-Unstarted refl (refl, (refl, tt))
      (omega arith, (omega arith, tt)) (omega arith) (omega arith) (omega arith) (omega arith)
      (omega arith) (omega arith)

load_from-Loaded_example : (s' : Sched) × (load_from two 0 start ≡ done tt s') × Loaded two start s'
unfolding brief
load_from-Loaded_example =
    load_from-Loaded two start start-Unstarted (refl, (refl, tt)) (omega arith) (omega arith)

-- One process of two cycles, read already.
abbrev one_process : Process
one_process = record blank { b = 1; c = 2; m = 1 }

abbrev one : Sched
one = record start { processes = write_at (λ _. blank) 0 one_process; count_prime = 1 }

one-all :
    (P : ℕ → Process → Type 0)
    → P 0 one_process
    → (i : ℕ) → i < one.count_prime
    → P i (one.processes i)
one-all P here i low = let at : i ≡ 0 = omega arith in rw at here

one-Unstarted : Unstarted one
unfolding brief
one-Unstarted = record {
  fresh = λ i.
      write_at-all Fresh (λ _. blank) 0 one_process i
        (λ _. record { unstarted = refl; unqueued = refl; unblocked = refl })
        (λ _. record { unstarted = refl; unqueued = refl; unblocked = refl });
  numbered = one-all (λ i r. r.process_id ≡ i) refl;
  can = one-all (λ i r. possible r ≡ true) refl;
  unspent = one-all (λ i r. spent r ≡ 0) refl;
  ready = refl;
  blocked = refl;
  selection = refl;
  present = refl;
  total_prime = refl;
  completion = refl;
  small = omega arith;
}

one-ArriveBy : ArriveBy 0 one
one-ArriveBy = one-all (λ i r. r.a ≤ 0) (omega arith)

one-workload : workload one ≡ 8
one-workload =
    total-suc 0 (λ i. work_of (entry (one.processes i)))
    ∙ omega (arith, total-zero (λ i. work_of (entry (one.processes i))))

one-measure : measure 0 0 one < 9
one-measure = omega (arith, measure-Unstarted 0 one one-Unstarted, one-workload)

datapoint-Cycled_example : (s' : Sched) × (datapoint 1 0 one ≡ done tt s') × Cycled 0 0 one s'
datapoint-Cycled_example =
    datapoint-Cycled 1 0 0 0 one refl refl (omega arith) (omega arith) one-ArriveBy
      (Unstarted-Good one one-Unstarted)

run_all-Finished_example : (s' : Sched) × (run_all 9 1 3 one ≡ done tt s') × Finished one s'
run_all-Finished_example =
    run_all-Finished 9 1 3 0 0 one refl refl (omega arith) (omega arith) one-ArriveBy
      (Unstarted-Good one one-Unstarted) one-measure

run_all-Accounts_example :
    (s' : Sched) × (run_all 9 1 1 one ≡ done tt s')
    × ((i : ℕ) → i < 1 → Accounts (one.processes i) (s'.processes i))
run_all-Accounts_example =
    run_all-Accounts 9 1 1 0 0 one refl refl (omega arith) (omega arith) one-ArriveBy
      (Unstarted-Good one one-Unstarted) one-measure

extra-Unstarted_example :
    (s' : Sched) × (extra lines one ≡ done tt s')
    × Unstarted s'
    × (s'.count_prime ≡ 1)
    × ((i : ℕ) → i < 1 → entry (s'.processes i) ≡ entry (one.processes i))
extra-Unstarted_example =
    extra-Unstarted lines 0 0 0 one (Unstarted-Good one one-Unstarted) (omega arith)
