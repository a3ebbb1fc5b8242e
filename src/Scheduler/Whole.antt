-- ===== src/Scheduler/Whole.antt =====
-- The state of scheduler.c as a whole, for the algorithms that suspend no process: which lists the
-- queues hold, which conditions the processes on them have, and what the times of a process add up
-- to.
mod Moving
mod Books
mod Due
mod Joining
mod Joined
mod Proceed
mod Forward
mod Proceeding
mod Unblock
mod Creation
mod Arrivals
mod Drawing
mod Launch
mod Execute
mod Executing
mod Ticking
mod Counting
mod Progress
mod Run
mod Accounts
mod Start
mod Load
mod Reset
mod Program
mod Tests
use past_work.Base.{
  ℕ, ◌+◌, ◌<◌, ◌≤◌, ◌^◌, ◌≡◌, ◌∙◌, refl, Bool, true, false, ◌&&◌, ◌||◌, not, ◌*◌, ◌-◌, ◌⊎◌, arith,
  Option, none, some, List, ◌==◌, ltb, leb, if◌then◌else◌, is_null, has, length,
}
use past_work.Scheduler.State.{Process, Sched}
use past_work.Scheduler.Cycle.{Entry}
use past_work.Scheduler.Chain.{Ready, Blocked}
use past_work.Scheduler.Census.{count}

-- Whether a process has a condition, and whether it is the one that runs.
abbrev pub in_state : Sched → ℕ → ℕ → Bool
in_state s v i = (s.processes i).condition == v

abbrev pub selected : Option ℕ → ℕ → Bool
selected none i = false
selected (some p) i = p == i

abbrev pub number : Option ℕ → ℕ
number none = 0
number (some p) = 1

-- What `main` has read of a process.
abbrev pub entry : Process → Entry
entry r = record { a = r.a; b = r.b; c = r.c; m = r.m }

-- The ready queue holds the ready processes and the blocked list the blocked ones, the running
-- process is the selected one, and the counters count.
pub record Shape (s : Sched) (rs bs : List ℕ) : Type 0 where
  pub ready : Ready s rs
  pub blocked : Blocked s bs
  pub waits : (i : ℕ) → has i rs ≡ in_state s 1 i
  pub sleeps : (i : ℕ) → has i bs ≡ in_state s 3 i
  pub runs : (i : ℕ) → selected s.selection i ≡ in_state s 2 i
  pub known : (i : ℕ) → (s.processes i).condition ≤ 4
  pub beyond : (i : ℕ) → s.count_prime ≤ i → (s.processes i).condition ≡ 0
  pub unqueued : (i : ℕ) → in_state s 1 i ≡ false → (s.processes i).fresh_prime ≡ none
  pub unblocked : (i : ℕ) → in_state s 3 i ≡ false → (s.processes i).push_block ≡ none
  pub numbered : (i : ℕ) → i < s.count_prime → (s.processes i).process_id ≡ i
  pub total :
      length rs
        + length bs
        + number s.selection
        + count s.count_prime (in_state s 0)
        + count s.count_prime (in_state s 4)
      ≡ s.count_prime
  pub started : s.total_prime + count s.count_prime (in_state s 0) ≡ s.count_prime
  pub finished : s.completion ≡ count s.count_prime (in_state s 4)
  pub small : s.count_prime + 1 < 2 ^ 32

-- What the cycles of a process have been spent on.
abbrev pub spent : Process → ℕ
spent r = r.cpu_time + r.btime + r.current_waiting_time

-- The longest time that a process is blocked after a burst, and whether an `int32_t` holds it.
abbrev pub longest : (m c : ℕ) → ℕ
longest m c = m * c + 1

pub brief : (m c : ℕ) → Bool
brief m c = ltb (longest m c) (2 ^ 31)

-- A process that can be simulated: it needs some time, bursts are drawn from a range, and no
-- blocking time is negative.
abbrev pub possible : Process → Bool
possible r = ltb 0 r.c && ltb r.c (2 ^ 32) && ltb 0 r.b && ltb r.b (2 ^ 32) && brief r.m r.c

-- The blocking time of a process of condition `k` in cycle `t`: it is set, or will be set when the
-- process goes on; and while the process is blocked it counts down, below 0 if need be.
pub on_time : (t k : ℕ) (operating : Bool) (time m c : ℕ) → Bool
on_time t k operating time m c =
    if k == 2
    then operating || leb time (longest m c)
    else not (k == 3) || leb time (longest m c) || (leb (2 ^ 32) (time + t) && ltb time (2 ^ 32))

-- The books of a process in cycle `t`. One that has not started arrives in cycle `next` or later; one
-- that has ended has spent all cycles from its arrival to its end; any other has spent all cycles
-- from its arrival until now, and needs more, or runs a burst of `least` cycles or more that it needs.
abbrev pub fair : (t next least : ℕ) → Process → Bool
fair t next least r =
    if r.condition == 0
    then leb next r.a && (spent r == 0)
    else if r.condition == 4
    then ltb r.a next && (r.a + spent r == r.finishing_time) && (r.cpu_time == r.c)
    else ltb r.a next
      && (r.a + spent r == t)
      && (if r.condition == 2
          then leb (r.cpu_time + r.cpu_burst) r.c && leb least r.cpu_burst
          else ltb r.cpu_time r.c)
      && on_time t r.condition r.operating r.burst_time r.m r.c

-- The books of all processes.
abbrev pub Fair : (t next least : ℕ) → Sched → Type 0
Fair t next least s =
    (i : ℕ)
    → i < s.count_prime
    → (possible (s.processes i) ≡ true) × (fair t next least (s.processes i) ≡ true)

-- How a step has changed the processes: `p` has a new condition, and nothing else has changed that
-- the lists and the counters are about.
pub record Moves (s s' : Sched) (p k : ℕ) : Type 0 where
  pub condition :
      (i : ℕ) → (s'.processes i).condition ≡ (if p == i then k else (s.processes i).condition)
  pub ids : (i : ℕ) → (s'.processes i).process_id ≡ (s.processes i).process_id
  pub same_count : s'.count_prime ≡ s.count_prime

-- A state in shape with the books in order.
pub record Good (t next least : ℕ) (s : Sched) : Type 0 where
  pub ready_list : List ℕ
  pub blocked_list : List ℕ
  pub shape : Shape s ready_list blocked_list
  pub books : Fair t next least s

-- What a process still costs: the cycles that it needs, each with the longest time of a block
-- behind it, and its block, now or at the end of its burst.
pub due_of : (k cpu_time time m c : ℕ) → ℕ
due_of k cpu_time time m c =
    (c - cpu_time) * (longest m c + 1)
    + (if k == 2 then longest m c else if (k == 3) && ltb time (2 ^ 31) then time else 0)

abbrev pub due : Process → ℕ
due r = due_of r.condition r.cpu_time r.burst_time r.m r.c

-- What the steps of a cycle leave alone.
pub record Kept (s s' : Sched) : Type 0 where
  pub same_present : s'.present ≡ s.present
  pub same_count : s'.count_prime ≡ s.count_prime
  pub same_lines : s'.random_lines ≡ s.random_lines
  pub lower : (i : ℕ) → due (s'.processes i) ≤ due (s.processes i)
  pub same_entries : (i : ℕ) → entry (s'.processes i) ≡ entry (s.processes i)

pub Kept-trans : {s t u : Sched} → Kept s t → Kept t u → Kept s u
Kept-trans k l = record {
  same_present = l.same_present ∙ k.same_present;
  same_count = l.same_count ∙ k.same_count;
  same_lines = l.same_lines ∙ k.same_lines;
  lower = λ i. omega (arith, k.lower i, l.lower i);
  same_entries = λ i. l.same_entries i ∙ k.same_entries i;
}

pub Kept-refl : (s : Sched) → Kept s s
Kept-refl s = record {
  same_present = refl;
  same_count = refl;
  same_lines = refl;
  lower = λ i. omega arith;
  same_entries = λ i. refl;
}

-- What a cycle leaves alone, but for one random number at most that it reads.
pub record Drawn (s s' : Sched) : Type 0 where
  pub same_present : s'.present ≡ s.present
  pub same_count : s'.count_prime ≡ s.count_prime
  pub one_line : length s.random_lines ≤ length s'.random_lines + 1
  pub credit :
      (i : ℕ)
      → due (s'.processes i)
        ≤ due (s.processes i)
          + (if in_state s' 2 i then longest (s'.processes i).m (s'.processes i).c else 0)
  pub same_entries : (i : ℕ) → entry (s'.processes i) ≡ entry (s.processes i)
  pub busy :
      ((p : ℕ) × (s'.selection ≡ some p)) ⊎ ((s' ≡ s) × (s.selection ≡ none) × (s.ready.size ≡ 0))
