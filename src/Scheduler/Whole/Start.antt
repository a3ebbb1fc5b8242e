-- ===== src/Scheduler/Whole/Start.antt =====
-- The state of scheduler.c before the first cycle.
use past_work.Base.{ℕ, ◌+◌, ◌-◌, ◌*◌, ◌<◌, ◌^◌, ◌≡◌, ap, sym, true, none, [], ◌==◌, arith}
use past_work.Scheduler.State.{Process, Sched, Queue, empty_queue}
use past_work.Scheduler.Cycle.{Entry}
use past_work.Scheduler.Census.{count, count-all, count-none, total, total-ext}
use past_work.Scheduler.Whole.{entry, due, due_of, longest, in_state, spent, Good, possible}
use past_work.Scheduler.Whole.Progress.{measure}

-- A process that has not started.
pub record Fresh (r : Process) : Type 0 where
  pub unstarted : r.condition ≡ 0
  pub unqueued : r.fresh_prime ≡ none
  pub unblocked : r.push_block ≡ none

-- No process has started, and all lists are empty.
pub record Unstarted (s : Sched) : Type 0 where
  pub fresh : (i : ℕ) → Fresh (s.processes i)
  pub numbered : (i : ℕ) → i < s.count_prime → (s.processes i).process_id ≡ i
  pub can : (i : ℕ) → i < s.count_prime → possible (s.processes i) ≡ true
  pub unspent : (i : ℕ) → i < s.count_prime → spent (s.processes i) ≡ 0
  pub ready : s.ready ≡ empty_queue
  pub blocked : s.blocked ≡ empty_queue
  pub selection : s.selection ≡ none
  pub present : s.present ≡ 0
  pub total_prime : s.total_prime ≡ 0
  pub completion : s.completion ≡ 0
  pub small : s.count_prime + 1 < 2 ^ 32

pub Unstarted-Good : (s : Sched) → Unstarted s → Good 0 0 0 s
Unstarted-Good s u =
    let state : (v i : ℕ) → in_state s v i ≡ (0 == v) =
      λ v i. ap (λ (n : ℕ). n == v) (u.fresh i).unstarted in
    let all : count s.count_prime (in_state s 0) ≡ s.count_prime =
      count-all s.count_prime (in_state s 0) (λ i low. state 0 i) in
    let no_end : count s.count_prime (in_state s 4) ≡ 0 =
      count-none s.count_prime (in_state s 4) (λ i low. state 4 i) in
    record {
      ready_list = [];
      blocked_list = [];
      shape = record {
        ready = record {
          chain = ap (λ (q : Queue). q.front) u.ready;
          back = ap (λ (q : Queue). q.back) u.ready;
          size = ap (λ (q : Queue). q.size) u.ready;
          distinct = tt;
        };
        blocked = record {
          chain = ap (λ (q : Queue). q.front) u.blocked;
          back = ap (λ (q : Queue). q.back) u.blocked;
          size = ap (λ (q : Queue). q.size) u.blocked;
          distinct = tt;
        };
        waits = λ i. sym (state 1 i);
        sleeps = λ i. sym (state 3 i);
        runs = λ i. rw (u.selection) (sym (state 2 i));
        known = λ i. omega (arith, (u.fresh i).unstarted);
        beyond = λ i high. (u.fresh i).unstarted;
        unqueued = λ i n. (u.fresh i).unqueued;
        unblocked = λ i n. (u.fresh i).unblocked;
        numbered = u.numbered;
        total = rw (u.selection) (omega (arith, all, no_end));
        started = omega (arith, all, u.total_prime);
        finished = omega (arith, no_end, u.completion);
        small = u.small;
      };
      books = λ i low.
          let zero_now = (u.fresh i).unstarted in
          let nothing = u.unspent i low in (u.can i low, ground arith);
    }

-- What the simulation of a process with these numbers costs at most.
abbrev pub work_of : Entry → ℕ
work_of e = e.c * (longest e.m e.c + 1)

abbrev pub workload : Sched → ℕ
workload s = total s.count_prime (λ i. work_of (entry (s.processes i)))

due-unstarted : (r : Process) → r.condition ≡ 0 → spent r ≡ 0 → due r ≡ work_of (entry r)
unfolding due_of
due-unstarted r e z =
    let all : r.c - r.cpu_time ≡ r.c = omega (arith, z) in rw (e, all) (omega arith)

pub measure-Unstarted : (last : ℕ) (s : Sched) → Unstarted s → measure last 0 s ≡ last + workload s
measure-Unstarted last s u =
    let same =
      total-ext s.count_prime (λ i. due (s.processes i)) (λ i. work_of (entry (s.processes i)))
        (λ i low. due-unstarted (s.processes i) (u.fresh i).unstarted (u.unspent i low)) in
    omega (arith, same)
