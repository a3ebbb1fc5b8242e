-- ===== src/Scheduler/Whole/Moving.antt =====
-- A step that changes the condition of one process keeps the whole state of scheduler.c in shape,
-- when the lists and the counters follow.
use past_work.Base.{
  ℕ, ◌+◌, ◌<◌, ◌≤◌, ◌≡◌, ◌≢◌, ap, ◌∙◌, Bool, false, none, List, ◌==◌, if◌then◌else◌, arith, has,
  length,
}
use past_work.Scheduler.State.{Sched}
use past_work.Scheduler.Chain.{Ready, Blocked}
use past_work.Scheduler.Census.{count, count-change}
use past_work.Scheduler.Whole.{in_state, selected, number, Shape, Moves}

abbrev pub one_if : Bool → ℕ
one_if b = if b then 1 else 0

-- The lists, the selection and the counters follow process `p` into condition `k`.
pub record Follows (s s' : Sched) (rs bs rs' bs' : List ℕ) (p k : ℕ) : Type 0 where
  pub ready : Ready s' rs'
  pub blocked : Blocked s' bs'
  pub waits : (i : ℕ) → has i rs' ≡ (if p == i then k == 1 else has i rs)
  pub sleeps : (i : ℕ) → has i bs' ≡ (if p == i then k == 3 else has i bs)
  pub runs : (i : ℕ) → selected s'.selection i ≡ (if p == i then k == 2 else selected s.selection i)
  pub unqueued : (i : ℕ) → in_state s' 1 i ≡ false → (s'.processes i).fresh_prime ≡ none
  pub unblocked : (i : ℕ) → in_state s' 3 i ≡ false → (s'.processes i).push_block ≡ none
  pub total :
      length rs' + length bs' + number s'.selection + one_if (k == 4)
      ≡ length rs + length bs + number s.selection + one_if (in_state s 0 p)
  pub started : s'.total_prime ≡ s.total_prime + one_if (in_state s 0 p)
  pub finished : s'.completion ≡ s.completion + one_if (k == 4)

module _ {s s' : Sched} {rs bs : List ℕ} {p k : ℕ} (h : Shape s rs bs) (m : Moves s s' p k)
    (low : p < s.count_prime) (old : (s.processes p).condition ≢ 4) (new : k ≢ 0)
    (top : k ≤ 4) where
  census :
      (v : ℕ)
      → count s.count_prime (in_state s' v) + one_if (in_state s v p)
        ≡ count s.count_prime (in_state s v) + one_if (k == v)
  census v =
      let here : in_state s' v p ≡ (k == v) = ground (arith, m.condition p) in
      let change =
        count-change s.count_prime (in_state s v) (in_state s' v) p low
          (λ i ne. ground (arith, m.condition i)) in
      rw (← here) change

  -- The processes that have not started, and those that have ended.
  census_unstarted :
      count s'.count_prime (in_state s' 0) + one_if (in_state s 0 p)
      ≡ count s.count_prime (in_state s 0)
  census_unstarted =
      let none_new : (k == 0) ≡ false = ground arith in
      let c = census 0 in
      let e = ap (λ (n : ℕ). count n (in_state s' 0)) m.same_count in ground arith

  census_ended :
      count s'.count_prime (in_state s' 4) ≡ count s.count_prime (in_state s 4) + one_if (k == 4)
  census_ended =
      let none_old : in_state s 4 p ≡ false = ground arith in
      let c = census 4 in
      let e = ap (λ (n : ℕ). count n (in_state s' 4)) m.same_count in ground arith

  pub Shape-Moves : {rs' bs' : List ℕ} → Follows s s' rs bs rs' bs' p k → Shape s' rs' bs'
  Shape-Moves f = record {
    ready = f.ready;
    blocked = f.blocked;
    waits = λ i. ground (arith, f.waits i, h.waits i, m.condition i);
    sleeps = λ i. ground (arith, f.sleeps i, h.sleeps i, m.condition i);
    runs = λ i. ground (arith, f.runs i, h.runs i, m.condition i);
    known = λ i. ground (arith, h.known i, m.condition i);
    beyond = λ i high. ground (arith, h.beyond i, m.condition i, m.same_count);
    unqueued = f.unqueued;
    unblocked = f.unblocked;
    numbered = λ i below. m.ids i ∙ h.numbered i (omega (arith, m.same_count, below));
    total = omega (arith, f.total, h.total, census_unstarted, census_ended, m.same_count);
    started = omega (arith, f.started, h.started, census_unstarted, m.same_count);
    finished = omega (arith, f.finished, h.finished, census_ended);
    small = omega (arith, m.same_count, h.small);
  }
