-- ===== src/Scheduler/Whole/Drawing.antt =====
-- The branches of `executeR` of scheduler.c that start a process: the burst that is drawn for it, and
-- what has changed once it runs.
use past_work.Base.Chains.{write_at}
use past_work.Base.{
  ℕ, ◌≡◌, ◌%◌, refl, ap, true, false, not, Option, some, List, ◌==◌, ◌&&◌, ltb, if◌then◌else◌,
  arith, Bool-cases, inl, inr, ◌∷◌, is_null, add32,
}
use past_work.Scheduler.State.{Process, Sched, select, deref, done, ◌>>=◌, ◌>>◌, continue}
use past_work.Scheduler.Queues.{d_setup}
use past_work.Scheduler.Dispatch.{
  next_random, burst_of, remaining, draw_burst, shortest_from, take_ready, run_first, run_shortest,
  suspend_others, resume_next, execute_r,
}

abbrev pub burst_for : Process → ℕ → ℕ → ℕ
burst_for r b y = let new = add32 1 (y % b) in if ltb (remaining r) new then remaining r else new

abbrev pub drawn : Sched → ℕ → ℕ → ℕ → ℕ → List ℕ → Sched
drawn s n p b y rest = record s {
  processes =
      write_at s.processes p (record (s.processes p) { cpu_burst = burst_for (s.processes p) b y });
  random_lines = rest;
  events = if s.ranomize_n && (n % 2 == 0) then select y ∷ s.events else s.events;
}

pub draw_burst-drawn :
    (s : Sched) (n p b y : ℕ) (rest : List ℕ)
    → s.random_lines ≡ y ∷ rest
    → (b == 0) ≡ false
    → draw_burst b n p s ≡ done tt (drawn s n p b y rest)
unfolding draw_burst next_random burst_of
draw_burst-drawn s n p b y rest lines some_range =
    elim (Bool-cases (s.ranomize_n && (n % 2 == 0))) [
      | inl e ↦ rw (lines, ◌>>=◌, ◌>>◌, continue) (rw (e, some_range, ◌>>=◌, ◌>>◌, continue) refl)
      | inr e ↦ rw (lines, ◌>>=◌, ◌>>◌, continue) (rw (e, some_range, ◌>>=◌, ◌>>◌, continue) refl)
    ]

-- The state once the first process of the ready queue runs.
abbrev pub running_first : ℕ → Sched → ℕ → Sched
running_first alg u x = record u {
  processes = write_at u.processes x (record (u.processes x) {
    condition = 2;
    operating = true;
    quantum = if alg == 1 then 2 else (u.processes x).quantum;
  });
  selection = some x;
}

pub run_first-runs :
    (alg n : ℕ) (s t u : Sched) (x : ℕ)
    → d_setup s ≡ done (some x) t
    → draw_burst (t.processes x).b n x t ≡ done tt u
    → ((u.processes x).cpu_burst == 0) ≡ false
    → run_first alg n s ≡ done tt (running_first alg u x)
unfolding run_first
run_first-runs alg n s t u x pop draw burst =
    rw (pop, ◌>>=◌, ◌>>◌, continue)
      (rw (draw, ◌>>=◌, ◌>>◌, continue) (rw (burst, ◌>>=◌, ◌>>◌, continue) refl))

-- The state once the shortest job is off the ready queue, and has its condition.
abbrev pub marked_short : Sched → ℕ → Sched
marked_short t z = record t {
  processes = write_at t.processes z (record (t.processes z) { condition = 2; operating = true });
}

pub run_shortest-runs :
    (n : ℕ) (s t u : Sched) (x z : ℕ)
    → s.ready.front ≡ some x
    → shortest_from s.ready.size x s.ready.front s ≡ done z s
    → take_ready z s ≡ done z t
    → draw_burst ((marked_short t z).processes z).b n z (marked_short t z) ≡ done tt u
    → run_shortest n s ≡ done tt (record u { selection = some z })
unfolding run_shortest
run_shortest-runs n s t u x z front found take draw =
    let first : deref s.ready.front s ≡ done x s = ap (λ (o : Option ℕ). deref o s) front in
    rw (first, ◌>>=◌, ◌>>◌, continue)
      (rw (found, ◌>>=◌, ◌>>◌, continue)
        (rw (take, ◌>>=◌, ◌>>◌, continue) (rw (draw, ◌>>=◌, ◌>>◌, continue) refl)))

module _ (alg n : ℕ) (s : Sched) (here : (alg == 2) ≡ false) where
  suspend_others-none : suspend_others alg s ≡ done tt s
  unfolding suspend_others
  suspend_others-none = ground arith

  resume_next-none : resume_next alg s ≡ done tt s
  unfolding resume_next
  resume_next-none = ground arith

  pub execute_r-quiet :
      (not (s.ready.size == 0) && is_null s.selection) ≡ false → execute_r alg n s ≡ done tt s
  unfolding execute_r
  execute_r-quiet e =
      rw (suspend_others-none, ◌>>=◌, ◌>>◌, continue)
        (rw (resume_next-none, ◌>>=◌, ◌>>◌, continue) (rw (e, here, ◌>>=◌, ◌>>◌, continue) refl))

  pub execute_r-starts :
      (s' : Sched)
      → (not (s.ready.size == 0) && is_null s.selection) ≡ true
      → (if alg == 3 then run_shortest n else run_first alg n) s ≡ done tt s'
      → execute_r alg n s ≡ done tt s'
  unfolding execute_r
  execute_r-starts s' e run =
      rw (suspend_others-none, ◌>>=◌, ◌>>◌, continue)
        (rw (resume_next-none, ◌>>=◌, ◌>>◌, continue)
          (rw (e, ◌>>=◌, ◌>>◌, continue)
            (rw (run, ◌>>=◌, ◌>>◌, continue) (rw (here, ◌>>=◌, ◌>>◌, continue) refl))))
