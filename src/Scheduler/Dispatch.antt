-- ===== src/Scheduler/Dispatch.antt =====
-- What scheduler.c does with the running process and with the processes that wait: `ranomize`,
-- `proceedForward`, `creation` and `executeR`. The algorithms are numbered as in the source:
-- 0 first come first served, 1 round robin, 2 uniprogrammed, 3 shortest job first.
use past_work.Base.Chains.{write_at}
use past_work.Base.{
  ℕ, zero, suc, ◌%◌, Bool, true, false, not, Option, none, some, [], ◌∷◌, ◌&&◌, ◌==◌, ltb,
  if◌then◌else◌, is_null, same_ptr, add32, sub32, mul32, nonpositive32,
}
use past_work.Scheduler.State.{
  Process, Sched, Cmd, select, pure, crash, spin, ◌>>=◌, ◌>>◌, state, update, deref, process,
  modify, emit, rounds,
}
use past_work.Scheduler.Queues.{
  q_setup, d_setup, pause_que, replace_n, insert_b, before_last, before_id,
}

-- `(uint32_t) atoi(fgets(...))`: at the end of the file `fgets` gives NULL, which `atoi` reads.
unfoldable pub next_random : Cmd ℕ
next_random s = elim s.random_lines [
  | [] ↦ crash s
  | x ∷ rest ↦ pure x (record s { random_lines = rest })
]

-- `1 + (x % line)`; the processor traps on a division by zero.
unfoldable pub burst_of : ℕ → ℕ → Cmd ℕ
burst_of line x = if line == 0 then crash else pure (add32 1 (x % line))

-- `ranomize`
unfoldable pub ranomize : ℕ → Cmd ℕ
ranomize line = do x ← next_random; burst_of line x

-- `proceedForward` for the process that runs.
unfoldable pub proceed : ℕ → ℕ → Cmd (Unit {0})
proceed alg p = do
  r ← process p
  if r.operating
      then modify p
          (λ r. record r { operating = false; burst_time = add32 1 (mul32 r.m r.cpu_burst) })
      else pure tt
  r ← process p
  s ← state
  if r.c == r.cpu_time
      then (do
        modify p (λ r. record r { condition = 4; finishing_time = s.present })
        r ← process p
        if ltb s.completion s.count_prime
            then update (λ s. record s {
              terminate_alg = write_at s.terminate_alg s.completion r;
              completion = add32 s.completion 1;
              nameless_op = if alg == 2 then none else s.nameless_op;
              selection = none;
            })
            else crash)
      else if r.cpu_burst == 0
      then (do
        modify p (λ r. record r { condition = 3 })
        insert_b (some p)
        update (λ s. record s { selection = none }))
      else if (alg == 1) && nonpositive32 r.quantum
      then (do
        modify p (λ r. record r { condition = 1 })
        q_setup (some p)
        update (λ s. record s { selection = none }))
      else modify p (λ r. record r { condition = 2 })

-- `proceedForward`
unfoldable pub proceed_forward : ℕ → Cmd (Unit {0})
proceed_forward alg = do s ← state; elim s.selection [ none ↦ pure tt | some p ↦ proceed alg p ]

-- The loop of `creation`, with the number of processes left and the index.
unfoldable pub creation_from : ℕ → ℕ → Cmd (Unit {0})
creation_from zero i = pure tt
creation_from (suc k) i = do
  s ← state
  if (s.processes i).a == s.present
      then (do
        update (λ s. record s { total_prime = add32 s.total_prime 1 })
        modify i (λ r. record r { condition = 1 })
        if is_null s.nameless_op && s.first_prime
            then update (λ s. record s { first_prime = false; nameless_op = some i })
            else pure tt
        q_setup (some i))
      else pure tt
  creation_from k (suc i)

-- `creation`
unfoldable pub creation : Cmd (Unit {0})
creation = do s ← state; creation_from s.count_prime 0

-- The loops that move the ready queue to the suspended queue: `for (i = 0; i < placement; ++i)`
-- with a test in the body. `placement` does not grow, so that it bounds the rounds.
unfoldable pub suspend_from : ℕ → (Sched → Bool) → ℕ → Cmd (Unit {0})
suspend_from zero test i s = if ltb i s.ready.size then spin s else pure tt s
suspend_from (suc k) test i s =
    let go : Cmd (Unit {0}) = do
      if test s
          then (do
            next ← d_setup
            p ← deref next
            modify p (λ r. record r { condition = 1 })
            pause_que (some p))
          else pure tt
      suspend_from k test (suc i)
    in if ltb i s.ready.size then go s else pure tt s

unfoldable pub suspend : (Sched → Bool) → Cmd (Unit {0})
suspend test s = suspend_from s.ready.size test 0 s

-- The first `if` of `executeR`: another process is at the head of the ready queue.
unfoldable pub suspend_others : ℕ → Cmd (Unit {0})
suspend_others alg = do
  s ← state
  if not (is_null s.nameless_op)
        && not (s.ready.size == 0)
        && not (same_ptr s.ready.front s.nameless_op)
        && (alg == 2)
      then suspend (λ _. true)
      else pure tt

-- The second `if` of `executeR`: the process before has ended, and the next one is resumed.
unfoldable pub resume_next : ℕ → Cmd (Unit {0})
resume_next alg = do
  s ← state
  if not (s.paused.size == 0) && (alg == 2) && is_null s.nameless_op
      then (do
        next ← replace_n
        p ← deref next
        modify p (λ r. record r { condition = 1 })
        update (λ s. record s { nameless_op = some p })
        q_setup (some p))
      else pure tt

-- `C - CPUTime`
abbrev pub remaining : Process → ℕ
remaining r = sub32 r.c r.cpu_time

-- The search of the shortest job: rounds left, the best so far, and the process to look at.
unfoldable pub shortest_from : ℕ → ℕ → Option ℕ → Cmd ℕ
shortest_from zero quick next = pure quick
shortest_from (suc k) quick next = do
  p ← deref next
  r ← process p
  q ← process quick
  shortest_from k (if ltb (remaining r) (remaining q) then p else quick) r.fresh_prime

-- Takes the process that follows `p` off the ready queue.
unfoldable pub unlink_ready : (next : Process → Option ℕ) → ℕ → Cmd ℕ
unlink_ready next p = do
  r ← process p
  loaded ← deref r.fresh_prime
  l ← process loaded
  modify p (λ r. record r { fresh_prime = next l })
  modify loaded (λ r. record r { fresh_prime = none })
  update (λ s. record s { ready = record s.ready { size = sub32 s.ready.size 1 } })
  pure loaded

-- Takes the process `quick` off the ready queue, wherever it stands.
unfoldable pub take_ready : ℕ → Cmd ℕ
take_ready quick = do
  s ← state
  front ← deref s.ready.front
  let id = (s.processes quick).process_id
  if (s.processes front).process_id == id then (do next ← d_setup; deref next) else do
    back ← deref s.ready.back
    if (s.processes back).process_id == id
        then (do
          p ← before_last (rounds s) (λ r. r.fresh_prime) front
          update (λ s. record s { ready = record s.ready { back = some p } })
          unlink_ready (λ _. none) p)
        else (do
          p ← before_id (rounds s) (λ r. r.fresh_prime) id front
          unlink_ready (λ r. r.fresh_prime) p)

-- The burst of a process: the next random number in its range, cut to the time that it needs.
unfoldable pub draw_burst : ℕ → (pushthrough_current : ℕ) → ℕ → Cmd (Unit {0})
draw_burst b pushthrough_current p = do
  x ← next_random
  s ← state
  if s.ranomize_n && (pushthrough_current % 2 == 0) then emit (select x) else pure tt
  new ← burst_of b x
  modify p (λ r. record r { cpu_burst = if ltb (remaining r) new then remaining r else new })

-- The shortest job of the ready queue starts to run.
unfoldable pub run_shortest : ℕ → Cmd (Unit {0})
run_shortest pushthrough_current = do
  s ← state
  front ← deref s.ready.front
  quick ← shortest_from s.ready.size front s.ready.front
  loaded ← take_ready quick
  modify loaded (λ r. record r { condition = 2; operating = true })
  q ← process quick
  draw_burst q.b pushthrough_current loaded
  update (λ s. record s { selection = some loaded })

-- The first process of the ready queue starts to run, unless its burst is empty.
unfoldable pub run_first : ℕ → ℕ → Cmd (Unit {0})
run_first alg pushthrough_current = do
  next ← d_setup
  p ← deref next
  r ← process p
  draw_burst r.b pushthrough_current p
  r ← process p
  if r.cpu_burst == 0 then pure tt else do
    modify p (λ r. record r {
      condition = 2;
      operating = true;
      quantum = if alg == 1 then 2 else r.quantum;
    })
    update (λ s. record s { selection = some p })

-- `executeR`
unfoldable pub execute_r : ℕ → ℕ → Cmd (Unit {0})
execute_r alg pushthrough_current = do
  suspend_others alg
  resume_next alg
  s ← state
  if not (s.ready.size == 0) && is_null s.selection
      then (if alg == 3
          then run_shortest pushthrough_current
          else run_first alg pushthrough_current)
      else pure tt
  s ← state
  if (alg == 2) && not (s.ready.size == 0)
      then suspend (λ s. not (is_null s.selection))
      else pure tt
