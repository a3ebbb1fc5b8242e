-- ===== src/Scheduler/Whole/Proceed.antt =====
-- `proceedForward` of scheduler.c, branch by branch.
use past_work.Base.Chains.{write_at}
use past_work.Base.{
  ℕ, ◌<◌, ◌≡◌, ◌≢◌, true, false, none, some, ◌==◌, ◌&&◌, if◌then◌else◌, arith, add32, mul32,
  nonpositive32,
}
use past_work.Scheduler.State.{Sched, done}
use past_work.Scheduler.Queues.{q_setup, insert_b}
use past_work.Scheduler.Dispatch.{proceed, proceed_forward}

-- The state once the time of the next block is set, and with a condition of the process.
abbrev pub settled : Sched → ℕ → Sched
settled s p =
    let r = s.processes p in
    if r.operating
    then record s {
      processes =
          write_at s.processes p
            (record r { operating = false; burst_time = add32 1 (mul32 r.m r.cpu_burst) });
    }
    else s

abbrev pub conditioned : Sched → ℕ → ℕ → Sched
conditioned s p k = record s {
  processes = write_at s.processes p (record (s.processes p) { condition = k });
}

abbrev pub ended : Sched → ℕ → Sched
ended s p =
    let r = record (s.processes p) { condition = 4; finishing_time = s.present } in
    record s {
      processes = write_at s.processes p r;
      terminate_alg = write_at s.terminate_alg s.completion r;
      completion = add32 s.completion 1;
      selection = none;
    }

abbrev pub deselect : Sched → Sched
deselect s = record s { selection = none }

module _ (alg : ℕ) (s : Sched) (p : ℕ) (here : (alg == 2) ≡ false) where
  pub proceed-ended :
      (s.processes p).c ≡ (s.processes p).cpu_time
      → s.completion < s.count_prime
      → proceed alg p s ≡ done tt (ended (settled s p) p)
  unfolding proceed
  proceed-ended e room = ground arith

  pub proceed-blocked :
      (t : Sched)
      → (s.processes p).c ≢ (s.processes p).cpu_time
      → (s.processes p).cpu_burst ≡ 0
      → insert_b (some p) (conditioned (settled s p) p 3) ≡ done tt t
      → proceed alg p s ≡ done tt (deselect t)
  unfolding proceed
  proceed-blocked t ne e run = ground arith

  pub proceed-ready :
      (t : Sched)
      → (s.processes p).c ≢ (s.processes p).cpu_time
      → (s.processes p).cpu_burst ≢ 0
      → ((alg == 1) && nonpositive32 (s.processes p).quantum) ≡ true
      → q_setup (some p) (conditioned (settled s p) p 1) ≡ done tt t
      → proceed alg p s ≡ done tt (deselect t)
  unfolding proceed
  proceed-ready t ne n e run = ground arith

  pub proceed-runs :
      (s.processes p).c ≢ (s.processes p).cpu_time
      → (s.processes p).cpu_burst ≢ 0
      → ((alg == 1) && nonpositive32 (s.processes p).quantum) ≡ false
      → proceed alg p s ≡ done tt (conditioned (settled s p) p 2)
  unfolding proceed
  proceed-runs ne n e = ground arith

pub forward-none : (alg : ℕ) (s : Sched) → s.selection ≡ none → proceed_forward alg s ≡ done tt s
unfolding proceed_forward
forward-none alg s e = ground arith

pub forward-some :
    (alg : ℕ) (s : Sched) (p : ℕ) → s.selection ≡ some p → proceed_forward alg s ≡ proceed alg p s
unfolding proceed_forward
forward-some alg s p e = ground arith
