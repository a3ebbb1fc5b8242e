-- ===== src/Scheduler/Tests.antt =====
-- Runs of scheduler.c on small inputs.
use past_work.Base.Chains.{write_at}
use past_work.Base.{
  ℕ, true, false, Option, none, some, List, [], arith, ◌∷◌, ◌≡◌, ◌≢◌, has, refl, ◌++◌, ◌<◌, ◌≤◌,
  All,
}
use past_work.Scheduler.State.{Process, empty_queue, Sched, Run, done, fault, ◌>>=◌, ◌>>◌, update}
use past_work.Scheduler.Queues.{
  q_setup, d_setup, pause_que, replace_n, insert_b, remove_b, before_last, before_id, release_b,
  execute_b_from, execute_b,
}
use past_work.Scheduler.Dispatch.{
  next_random, burst_of, ranomize, proceed, proceed_forward, creation_from, creation, suspend_from,
  suspend, suspend_others, resume_next, shortest_from, unlink_ready, take_ready, draw_burst,
  run_shortest, run_first, execute_r,
}
use past_work.Scheduler.ReadyQueue.{Appended, ReadyOnly, q_setup-append, d_setup-cons}
use past_work.Scheduler.BlockedList.{BlockedOnly, insert_b-append, remove_b-cons}
use past_work.Scheduler.Chain.{Ready, Blocked}
use past_work.Scheduler.Clock.{Ticked, Counted, countdown-Ticked}
use past_work.Scheduler.Shortest.{left}
use past_work.Scheduler.Selection.{Taken, shortest_from-take_ready}
use past_work.Scheduler.Release.{Lists, Released}
use past_work.Scheduler.Unblock.{execute_b-Waits, execute_b-first}
use past_work.Scheduler.Cycle.{
  tick, tick_from, some_blocked, countdown, extra_from, extra, datapoint, run_all, listoutputs,
  Entry, load_from,
}

program : Unit {0}
unfolding q_setup d_setup pause_que replace_n insert_b remove_b before_last before_id release_b
    execute_b_from execute_b next_random burst_of ranomize proceed proceed_forward creation_from
    creation suspend_from suspend suspend_others resume_next shortest_from unlink_ready take_ready
    draw_burst run_shortest run_first execute_r tick tick_from some_blocked countdown extra_from
    extra datapoint run_all listoutputs load_from
program = tt

abbrev blank : Process
blank = record {
  a = 0;
  b = 0;
  c = 0;
  m = 0;
  process_id = 0;
  condition = 0;
  finishing_time = 0;
  cpu_time = 0;
  btime = 0;
  current_waiting_time = 0;
  burst_time = 0;
  cpu_burst = 0;
  quantum = 0;
  operating = false;
  push_block = none;
  fresh_prime = none;
  push_prime_forward = none;
}

-- The first lines of `random-numbers`.
abbrev lines : List ℕ
lines =
    1804289383 ∷ 846930886 ∷ 1681692777 ∷ 1714636915 ∷ 1957747793 ∷ 424238335 ∷ 719885386
    ∷ 1649760492 ∷ 596516649 ∷ 1189641421 ∷ 1025202362 ∷ 1350490027 ∷ 783368690 ∷ 1102520059
    ∷ 2044897763 ∷ 1967513926 ∷ []

abbrev start : Sched
start = record {
  processes = λ _. blank;
  count_prime = 0;
  ranomize_n = false;
  first_prime = true;
  nameless_op = none;
  present = 0;
  total_prime = 0;
  completion = 0;
  total_time_number = 0;
  selection = none;
  ready = empty_queue;
  paused = empty_queue;
  blocked = empty_queue;
  terminate_alg = λ _. blank;
  random_lines = lines;
  events = [];
}

abbrev entry : ℕ → ℕ → ℕ → ℕ → Entry
entry a b c m = record { a = a; b = b; c = c; m = m }

-- What a run tells of a process: its finishing time, its time blocked and its time waiting.
abbrev figures : Run (Unit {0}) → ℕ → Option (ℕ × ℕ × ℕ)
figures (done _ s) i =
    let r = s.processes i in some (r.finishing_time, r.btime, r.current_waiting_time)
figures _ i = none

-- The first run of an algorithm on the processes of an input file.
abbrev run : List Entry → ℕ → Run (Unit {0})
run es alg =
    (do load_from es 0; update (λ s. record s { random_lines = lines }); run_all 60 1 alg) start

-- sample_io/input/input-2, with the figures of the sample outputs.
abbrev input_two : List Entry
input_two = entry 0 1 5 1 ∷ entry 0 1 5 1 ∷ []

input_two-figures :
    (figures (run input_two 0) 1 ≡ some (10, 4, 1))
    × (figures (run input_two 1) 1 ≡ some (10, 4, 1))
    × (figures (run input_two 2) 1 ≡ some (18, 4, 9))
    × (figures (run input_two 3) 1 ≡ some (10, 4, 1))
unfolding program
input_two-figures = (refl, refl, refl, refl)

-- With four processes from the start the uniprogrammed run reads through NULL.
uniprogrammed_fault :
    run (entry 0 1 5 1 ∷ entry 0 1 5 1 ∷ entry 0 1 3 1 ∷ entry 0 1 3 1 ∷ []) 2 ≡ fault
unfolding program
uniprogrammed_fault = refl

-- Process 0 is ready, and 1, 2 and 3 are blocked, the last two of them no longer than now.
abbrev numbered : ℕ → Process
numbered i = record blank { process_id = i; c = 9; burst_time = 5; condition = 3 }

abbrev three_blocked : Sched
three_blocked = record start {
  count_prime = 4;
  processes =
      write_at
        (write_at (write_at numbered 1 (record (numbered 1) { push_block = some 2 })) 2
          (record (numbered 2) { push_block = some 3; burst_time = 0 }))
        3 (record (numbered 3) { burst_time = 0 });
  ready = record { front = some 0; back = some 0; size = 1 };
  blocked = record { front = some 1; back = some 3; size = 3 };
}

three_blocked-Lists : Lists three_blocked (1 ∷ 2 ∷ 3 ∷ []) (0 ∷ [])
three_blocked-Lists = record {
  blocked = record {
    chain = (refl, (refl, (refl, refl)));
    back = refl;
    size = refl;
    distinct = (refl, (refl, (refl, tt)));
  };
  ready = record { chain = (refl, refl); back = refl; size = refl; distinct = (refl, tt) };
  numbered = λ i h. ground arith;
  apart = λ i h. ground arith;
  clear = λ i h. ground arith;
  room = omega arith;
  bounded = omega arith;
  walked = omega arith;
}

execute_b-first_example :
    (s' : Sched) × (execute_b three_blocked ≡ done tt s')
    × Released three_blocked (1 ∷ 3 ∷ []) (0 ∷ []) 2 s'
execute_b-first_example =
    execute_b-first three_blocked (1 ∷ []) 2 (3 ∷ []) (0 ∷ []) three_blocked-Lists (refl, tt) refl

q_setup-append_example :
    (s' : Sched) × (q_setup (some 1) three_blocked ≡ done tt s')
    × Appended three_blocked (0 ∷ []) 1 s'
q_setup-append_example =
    q_setup-append three_blocked (0 ∷ []) 1 three_blocked-Lists.ready refl refl (omega arith)

d_setup-cons_example :
    (s' : Sched) × (d_setup three_blocked ≡ done (some 0) s')
    × Ready s' []
    × ReadyOnly three_blocked s'
    × ((s'.processes 0).fresh_prime ≡ none)
    × ((i : ℕ) → i ≢ 0 → s'.processes i ≡ three_blocked.processes i)
d_setup-cons_example = d_setup-cons three_blocked 0 [] three_blocked-Lists.ready (omega arith)

insert_b-append_example :
    (s' : Sched) × (insert_b (some 0) three_blocked ≡ done tt s')
    × Blocked s' (1 ∷ 2 ∷ 3 ∷ 0 ∷ [])
    × BlockedOnly three_blocked s'
    × ((i : ℕ) → has i (1 ∷ 2 ∷ 3 ∷ []) ≡ false → s'.processes i ≡ three_blocked.processes i)
insert_b-append_example =
    insert_b-append three_blocked (1 ∷ 2 ∷ 3 ∷ []) 0 three_blocked-Lists.blocked refl refl
      (omega arith)

remove_b-cons_example :
    (s' : Sched) × (remove_b three_blocked ≡ done (some 1) s')
    × Blocked s' (2 ∷ 3 ∷ [])
    × BlockedOnly three_blocked s'
    × ((s'.processes 1).push_block ≡ none)
    × ((i : ℕ) → i ≢ 1 → s'.processes i ≡ three_blocked.processes i)
remove_b-cons_example =
    remove_b-cons three_blocked 1 (2 ∷ 3 ∷ []) three_blocked-Lists.blocked (omega arith)

-- Process 1 alone is blocked, for five more cycles.
abbrev one_blocked : Sched
one_blocked = record start {
  count_prime = 4;
  processes = numbered;
  blocked = record { front = some 1; back = some 1; size = 1 };
}

one_blocked-Blocked : Blocked one_blocked (1 ∷ [])
one_blocked-Blocked = record {
  chain = (refl, refl);
  back = refl;
  size = refl;
  distinct = (refl, tt);
}

execute_b-Waits_example : execute_b one_blocked ≡ done tt one_blocked
execute_b-Waits_example =
    execute_b-Waits one_blocked (1 ∷ []) one_blocked-Blocked (omega arith) (refl, tt)

-- Three processes are ready: they need 9, 4 and 4 more cycles.
abbrev three_ready : Sched
three_ready = record start {
  count_prime = 3;
  processes =
      write_at
        (write_at (write_at numbered 0 (record (numbered 0) { fresh_prime = some 1 })) 1
          (record (numbered 1) { c = 4; fresh_prime = some 2 }))
        2 (record (numbered 2) { c = 6; cpu_time = 2 });
  ready = record { front = some 0; back = some 2; size = 3 };
}

three_ready-Ready : Ready three_ready (0 ∷ 1 ∷ 2 ∷ [])
three_ready-Ready = record {
  chain = (refl, (refl, (refl, refl)));
  back = refl;
  size = refl;
  distinct = (refl, (refl, (refl, tt)));
}

shortest_from-take_ready_example :
    (pre : List ℕ) × (z : ℕ) × (post : List ℕ) × (s' : Sched) × (0 ∷ 1 ∷ 2 ∷ [] ≡ pre ++ z ∷ post)
    × ((shortest_from three_ready.ready.size 0 three_ready.ready.front >>= take_ready) three_ready
        ≡ done z s')
    × Taken three_ready (pre ++ post) z s'
    × All (λ i. left three_ready z < left three_ready i) pre
    × All (λ i. left three_ready z ≤ left three_ready i) post
shortest_from-take_ready_example =
    shortest_from-take_ready three_ready 0 (1 ∷ 2 ∷ []) three_ready-Ready (λ i h. ground arith)
      (omega arith) (omega arith)

countdown-Ticked_example :
    (s' : Sched) × (countdown 0 three_blocked ≡ done tt s')
    × ((j : ℕ) → j < 4 → Ticked (three_blocked.processes j) (s'.processes j))
    × Counted three_blocked s'
countdown-Ticked_example = countdown-Ticked 0 three_blocked (λ j low. ground arith)
