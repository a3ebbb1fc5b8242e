-- ===== src/Scheduler/Whole/Due.antt =====
-- What a process of scheduler.c still costs never grows from step to step.
use native.Mathlib.Nat.{suc-mul}
use past_work.Base.{
  suc, ℕ, ◌+◌, ◌-◌, ◌<◌, ◌≤◌, ◌≡◌, ◌≢◌, ◌^◌, true, Bool, arith, ◌==◌, leb, ◌&&◌, not, Bool-cases,
  inl, inr, if◌then◌else◌, add32, sub32, nonpositive32,
}
use past_work.Scheduler.State.{Process}
use past_work.Scheduler.Whole.{possible, fair, longest, brief, on_time, due_of, due}
use past_work.Scheduler.Whole.Books.{moved, settled_time-bounded}

-- Of a process with the condition and the blocking time changed, the cost is no more.
pub due-released : (r : Process) → r.condition ≡ 3 → due (record r { condition = 1 }) ≤ due r
unfolding due_of
due-released r e = ground arith

pub due-created : (r : Process) → r.condition ≡ 0 → due (record r { condition = 1 }) ≤ due r
unfolding due_of
due-created r e = ground arith

pub due-launched :
    (r : Process) (v q : ℕ)
    → r.condition ≡ 1
    → due (record r { condition = 2; operating = true; quantum = q; cpu_burst = v })
      ≤ due r + longest r.m r.c
unfolding due_of
due-launched r v q e = ground arith

pub due-moved :
    (t k : ℕ) (r : Process)
    → r.condition ≡ 2
    → possible r ≡ true
    → fair t t 0 r ≡ true
    → due (moved r k) ≤ due r
unfolding due_of
due-moved t k r e can ok = let low = settled_time-bounded t r e can ok in ground arith

-- What the countdown takes off.
abbrev pub taken_off : Process → ℕ
taken_off r =
    if r.condition == 2
    then longest r.m r.c + 1
    else if (r.condition == 3) && not (nonpositive32 r.burst_time)
    then 1
    else 0

due_of-running :
    (cpu_time time m c : ℕ)
    → cpu_time < c
    → due_of 2 (cpu_time + 1) time m c + (longest m c + 1) ≤ due_of 2 cpu_time time m c
unfolding due_of
due_of-running cpu_time time m c more =
    let split : c - cpu_time ≡ suc (c - (cpu_time + 1)) = omega arith in
    rw split (omega (arith, suc-mul (c - (cpu_time + 1)) (longest m c + 1)))

due_of-blocked :
    (t cpu_time time m c : ℕ) (operating : Bool)
    → brief m c ≡ true
    → on_time t 3 operating time m c ≡ true
    → t + 1 < 2 ^ 31
    → due_of 3 cpu_time (sub32 time 1) m c + (if not (nonpositive32 time) then 1 else 0)
      ≤ due_of 3 cpu_time time m c
unfolding due_of on_time brief
due_of-blocked t cpu_time time m c operating b o top = elim (Bool-cases (leb time (longest m c))) [
  | inl low ↦ elim (Bool-cases (time == 0)) [ inl z ↦ ground arith | inr p ↦ ground arith ]
  | inr high ↦ ground arith
]

pub due-running :
    (r : Process) (v q : ℕ)
    → r.condition ≡ 2
    → r.cpu_time < r.c
    → r.c < 2 ^ 32
    → due (record r { cpu_time = add32 r.cpu_time 1; cpu_burst = v; quantum = q }) + taken_off r
      ≤ due r
due-running r v q e more top =
    let one : add32 r.cpu_time 1 ≡ r.cpu_time + 1 = omega arith in
    rw (e, one) (due_of-running r.cpu_time r.burst_time r.m r.c more)

pub due-blocked :
    (t v : ℕ) (r : Process)
    → r.condition ≡ 3
    → brief r.m r.c ≡ true
    → on_time t 3 r.operating r.burst_time r.m r.c ≡ true
    → t + 1 < 2 ^ 31
    → due (record r { btime = v; burst_time = sub32 r.burst_time 1 }) + taken_off r ≤ due r
due-blocked t v r e b o top =
    rw e (due_of-blocked t r.cpu_time r.burst_time r.m r.c r.operating b o top)

pub due-still : (r : Process) → r.condition ≢ 2 → r.condition ≢ 3 → due r + taken_off r ≤ due r
due-still r n2 n3 = ground arith
