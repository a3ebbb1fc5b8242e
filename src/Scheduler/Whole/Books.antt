-- ===== src/Scheduler/Whole/Books.antt =====
-- The books of the processes of scheduler.c after a step on one of them.
use past_work.Base.{
  add32, mul32, sub32, leb, ◌+◌, ◌≤◌, ◌<◌, ◌*◌, Bool, false, refl, ◌^◌, if◌then◌else◌, ℕ, ◌≡◌, ◌≢◌,
  ◌∙◌, ap, sym, true, arith, ◌==◌, Bool-cases, inl, inr,
}
use native.Mathlib.Nat.{mul-le-mul_left}
use past_work.Scheduler.State.{Process, Sched}
use past_work.Scheduler.Release.{plain}
use past_work.Scheduler.Whole.{Fair, possible, fair, longest, brief, on_time}

-- Only the links of the other processes have changed.
pub Fair-step :
    (s s' : Sched) (p t next least next' least' : ℕ)
    → Fair t next least s
    → s'.count_prime ≡ s.count_prime
    → ((i : ℕ) → i ≢ p → plain (s'.processes i) ≡ plain (s.processes i))
    → ((i : ℕ)
        → i ≢ p
        → fair t next least (s.processes i) ≡ true
        → fair t next' least' (s.processes i) ≡ true)
    → (possible (s'.processes p) ≡ true) × (fair t next' least' (s'.processes p) ≡ true)
    → Fair t next' least' s'
Fair-step s s' p t next least next' least' b count same keep here i low =
    elim (Bool-cases (p == i)) [
      | inl e ↦ let at : p ≡ i = ground arith in rw (← at) here
      | inr e ↦
          let ne : i ≢ p = ground arith in
          let (can, ok) = b i (omega (arith, count, low)) in
          (
            ap (λ (r : Process). possible r) (same i ne) ∙ can,
            ap (λ (r : Process). fair t next' least' r) (same i ne) ∙ keep i ne ok,
          )
    ]

-- The blocking time of a process that is neither running nor blocked is of no account.
pub on_time-other :
    (t k : ℕ) (operating : Bool) (time m c : ℕ)
    → k ≢ 2
    → k ≢ 3
    → on_time t k operating time m c ≡ true
unfolding on_time
on_time-other t k operating time m c n2 n3 = ground arith

pub on_time-operating : (t time m c : ℕ) → on_time t 2 true time m c ≡ true
unfolding on_time
on_time-operating t time m c = refl

-- A time in bounds serves a process of any condition.
pub on_time-bounded :
    (t k : ℕ) (operating : Bool) (time m c : ℕ)
    → time ≤ longest m c
    → on_time t k operating time m c ≡ true
unfolding on_time
on_time-bounded t k operating time m c low = ground arith

pub on_time-run : (t time m c : ℕ) → on_time t 2 false time m c ≡ true → time ≤ longest m c
unfolding on_time
on_time-run t time m c h = ground arith

-- What a process that goes on sets.
pub on_time-set :
    (t k : ℕ) (operating : Bool) (burst m c : ℕ)
    → burst ≤ c
    → brief m c ≡ true
    → on_time t k operating (add32 1 (mul32 m burst)) m c ≡ true
unfolding brief
on_time-set t k operating burst m c low b =
    let more : m * burst ≤ m * c = mul-le-mul_left m low in
    on_time-bounded t k operating (add32 1 (mul32 m burst)) m c (ground arith)

-- The running process goes on, and its blocking time is set if it has not been.
pub on_time-settled :
    (t k : ℕ) (operating : Bool) (time burst m c : ℕ)
    → burst ≤ c
    → brief m c ≡ true
    → on_time t 2 operating time m c ≡ true
    → on_time t k false (if operating then add32 1 (mul32 m burst) else time) m c ≡ true
on_time-settled t k true time burst m c low b h = on_time-set t k false burst m c low b
on_time-settled t k false time burst m c low b h =
    on_time-bounded t k false time m c (on_time-run t time m c h)

pub on_time-next :
    (t : ℕ) (operating : Bool) (time m c : ℕ)
    → on_time t 2 operating time m c ≡ on_time (t + 1) 2 operating time m c
unfolding on_time
on_time-next t operating time m c = refl

-- The countdown of a blocked process.
pub on_time-down :
    (t : ℕ) (operating : Bool) (time m c : ℕ)
    → t + 1 < 2 ^ 32
    → brief m c ≡ true
    → on_time t 3 operating time m c ≡ true
    → on_time (t + 1) 3 operating (sub32 time 1) m c ≡ true
unfolding on_time brief
on_time-down t operating time m c top b h = elim (Bool-cases (leb time (longest m c))) [
  | inl low ↦ elim (Bool-cases (time == 0)) [ inl z ↦ ground arith | inr p ↦ ground arith ]
  | inr high ↦ ground arith
]

-- The books of one process after its step.
module _ (t next : ℕ) (r : Process) where
  pub fair-released :
      r.condition ≡ 3 → fair t next 1 r ≡ true → fair t next 1 (record r { condition = 1 }) ≡ true
  fair-released e ok =
      let o = on_time-other t 1 r.operating r.burst_time r.m r.c (omega arith) (omega arith) in
      ground arith

  pub fair-launched :
      (v q : ℕ)
      → r.condition ≡ 1
      → 1 ≤ v
      → r.cpu_time + v ≤ r.c
      → fair t next 1 r ≡ true
      → fair t next 1 (record r { condition = 2; operating = true; quantum = q; cpu_burst = v })
        ≡ true
  fair-launched v q e some_burst needed ok =
      let o = on_time-operating t r.burst_time r.m r.c in ground arith

pub fair-created :
    (t : ℕ) (r : Process)
    → r.condition ≡ 0
    → r.a ≡ t
    → 0 < r.c
    → fair t t 1 r ≡ true
    → fair t (t + 1) 1 (record r { condition = 1 }) ≡ true
fair-created t r e now more ok =
    let o = on_time-other t 1 r.operating r.burst_time r.m r.c (omega arith) (omega arith) in
    ground arith

-- The running process with the time of its next block, in a condition.
abbrev pub moved : Process → ℕ → Process
moved r k = record r {
  operating = false;
  burst_time = if r.operating then add32 1 (mul32 r.m r.cpu_burst) else r.burst_time;
  condition = k;
}

pub fair-moved :
    (t k : ℕ) (r : Process)
    → r.condition ≡ 2
    → possible r ≡ true
    → fair t t 0 r ≡ true
    → r.c ≢ r.cpu_time
    → k ≢ 0
    → k ≢ 4
    → (k ≡ 2 → r.cpu_burst ≢ 0)
    → fair t t 1 (moved r k) ≡ true
fair-moved t k r e can ok more started unended burst =
    let old : on_time t 2 r.operating r.burst_time r.m r.c ≡ true =
      ap (λ (n : ℕ). on_time t n r.operating r.burst_time r.m r.c) (sym e) ∙ ground arith in
    let o =
      on_time-settled t k r.operating r.burst_time r.cpu_burst r.m r.c (ground arith) (ground arith)
        old in
    elim (Bool-cases (k == 2)) [
      | inl two ↦ let b = burst (ground arith) in ground arith
      | inr other ↦ ground arith
    ]

settled_time :
    (t : ℕ) (operating : Bool) (time burst m c : ℕ)
    → burst ≤ c
    → brief m c ≡ true
    → on_time t 2 operating time m c ≡ true
    → (if operating then add32 1 (mul32 m burst) else time) ≤ longest m c
unfolding brief
settled_time t true time burst m c low b o =
    let more : m * burst ≤ m * c = mul-le-mul_left m low in ground arith
settled_time t false time burst m c low b o = on_time-run t time m c o

pub settled_time-bounded :
    (t : ℕ) (r : Process)
    → r.condition ≡ 2
    → possible r ≡ true
    → fair t t 0 r ≡ true
    → (if r.operating then add32 1 (mul32 r.m r.cpu_burst) else r.burst_time) ≤ longest r.m r.c
settled_time-bounded t r e can ok =
    let old : on_time t 2 r.operating r.burst_time r.m r.c ≡ true =
      ap (λ (n : ℕ). on_time t n r.operating r.burst_time r.m r.c) (sym e) ∙ ground arith in
    settled_time t r.operating r.burst_time r.cpu_burst r.m r.c (ground arith) (ground arith) old
