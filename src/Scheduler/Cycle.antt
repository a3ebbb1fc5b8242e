-- ===== src/Scheduler/Cycle.antt =====
-- A cycle of scheduler.c and the runs of an algorithm: `countdown`, `Extra`, `datapoint` and the
-- loops of `listoutputs`, and the set-up of `main`.
use past_work.Base.{
  ℕ, zero, suc, Bool, true, false, Option, none, some, List, [], ◌∷◌, ◌==◌, ltb, if◌then◌else◌,
  add32, sub32, mul32, minus_one32,
}
use past_work.Scheduler.State.{
  Process, empty_queue, Cmd, pure, exit, spin, ◌>>=◌, ◌>>◌, state, update, process, modify,
}
use past_work.Scheduler.Queues.{execute_b}
use past_work.Scheduler.Dispatch.{ranomize, proceed_forward, creation, execute_r}

-- The `switch` of `countdown` on a process; `none` is its default case, which exits.
unfoldable pub tick : ℕ → Process → Option Process
tick alg r =
    if r.condition == 0
    then some r
    else if r.condition == 3
    then some (record r { btime = add32 r.btime 1; burst_time = sub32 r.burst_time 1 })
    else if r.condition == 2
    then some (record r {
      cpu_time = add32 r.cpu_time 1;
      cpu_burst = sub32 r.cpu_burst 1;
      quantum = if alg == 1 then sub32 r.quantum 1 else r.quantum;
    })
    else if r.condition == 1
    then some (record r { current_waiting_time = add32 r.current_waiting_time 1 })
    else if r.condition == 4
    then some r
    else none

-- The first loop of `countdown`.
unfoldable pub tick_from : ℕ → ℕ → ℕ → Cmd (Unit {0})
tick_from alg zero i = pure tt
tick_from alg (suc k) i = do
  r ← process i
  elim (tick alg r) [ none ↦ exit 1 | some r' ↦ (do modify i (λ _. r'); tick_from alg k (suc i)) ]

-- Whether one of `k` processes from the `i`-th on is blocked.
unfoldable pub some_blocked : (ℕ → Process) → ℕ → ℕ → Bool
some_blocked ps zero i = false
some_blocked ps (suc k) i = if (ps i).condition == 3 then true else some_blocked ps k (suc i)

-- `countdown`
unfoldable pub countdown : ℕ → Cmd (Unit {0})
countdown alg = do
  s ← state
  tick_from alg s.count_prime 0
  update (λ s. record s {
    total_time_number =
        if some_blocked s.processes s.count_prime 0
        then add32 s.total_time_number 1
        else s.total_time_number;
  })

-- The loop of `Extra`.
unfoldable pub extra_from : ℕ → ℕ → Cmd (Unit {0})
extra_from zero i = pure tt
extra_from (suc k) i = do
  r ← process i
  burst ← ranomize r.b
  modify i (λ r. record r {
    condition = 0;
    fresh_prime = none;
    push_prime_forward = none;
    push_block = none;
    finishing_time = minus_one32;
    cpu_time = 0;
    btime = 0;
    current_waiting_time = 0;
    operating = false;
    cpu_burst = burst;
    burst_time = mul32 r.m burst;
  })
  extra_from k (suc i)

-- `Extra`, over the lines of the file that it opens: every global is set back, and every process
-- but for its quantum.
unfoldable pub extra : List ℕ → Cmd (Unit {0})
extra lines = do
  update (λ s. record s {
    present = 0;
    total_prime = 0;
    completion = 0;
    total_time_number = 0;
    first_prime = true;
    nameless_op = none;
    ready = empty_queue;
    paused = empty_queue;
    blocked = empty_queue;
    selection = none;
    random_lines = lines;
  })
  s ← state
  extra_from s.count_prime 0

-- `datapoint`, but for the line that it prints on the conditions of the processes.
unfoldable pub datapoint : ℕ → ℕ → Cmd (Unit {0})
datapoint pushthrough_current alg = do
  proceed_forward alg
  execute_b
  s ← state
  if s.total_prime == s.count_prime then pure tt else creation
  execute_r alg pushthrough_current
  countdown alg
  update (λ s. record s { present = add32 s.present 1 })

-- `while (completion != countPrime) datapoint(...);` for so many rounds at most.
unfoldable pub run_all : ℕ → ℕ → ℕ → Cmd (Unit {0})
run_all zero pushthrough_current alg s = if s.completion == s.count_prime then pure tt s else spin s
run_all (suc k) pushthrough_current alg s =
    let go : Cmd (Unit {0}) = do
      datapoint pushthrough_current alg
      run_all k pushthrough_current alg
    in if s.completion == s.count_prime then pure tt s else go s

-- The runs of `listoutputs`: a first one, a reset, a second one over the random numbers from the
-- start, and a reset. A number that is no algorithm stands for the first.
unfoldable pub listoutputs : ℕ → List ℕ → ℕ → Cmd (Unit {0})
listoutputs fuel lines datastream = do
  let alg = if ltb datastream 4 then datastream else 0
  update (λ s. record s { random_lines = lines })
  run_all fuel 1 alg
  extra lines
  update (λ s. record s { random_lines = lines })
  run_all fuel 2 alg
  extra lines

-- What `main` reads of a process: the four numbers of the input.
pub record Entry : Type 0 where
  pub a : ℕ
  pub b : ℕ
  pub c : ℕ
  pub m : ℕ

-- The loop of `main` that fills the array.
unfoldable pub load_from : List Entry → ℕ → Cmd (Unit {0})
load_from [] i = pure tt
load_from (e ∷ es) i = do
  burst ← ranomize e.b
  modify i (λ _. record {
    a = e.a;
    b = e.b;
    c = e.c;
    m = e.m;
    process_id = i;
    condition = 0;
    finishing_time = minus_one32;
    cpu_time = 0;
    btime = 0;
    current_waiting_time = 0;
    burst_time = mul32 e.m burst;
    cpu_burst = burst;
    quantum = 2;
    operating = false;
    push_block = none;
    fresh_prime = none;
    push_prime_forward = none;
  })
  update (λ s. record s { count_prime = add32 s.count_prime 1 })
  load_from es (suc i)
