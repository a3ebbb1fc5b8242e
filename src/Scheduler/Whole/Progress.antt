-- ===== src/Scheduler/Whole/Progress.antt =====
-- Each cycle of scheduler.c brings the end nearer.
use past_work.Base.{
  ℕ, ◌+◌, ◌-◌, ◌<◌, ◌≤◌, ◌≡◌, ap, subst, ◌∙◌, sym, Bool, true, false, Option, none, List, [], ◌==◌,
  ◌⊎◌, ◌&&◌, ◌||◌, not, if◌then◌else◌, arith, length, has, Bool-cases, inl, inr,
}
use past_work.Scheduler.State.{Sched}
use past_work.Scheduler.Cycle.{Entry}
use past_work.Scheduler.Census.{count, count-some, total, total-le, total-lt}
use past_work.Scheduler.Unblock.{expired}
use past_work.Scheduler.Whole.{entry, due, in_state, selected, number, Good, Kept, Drawn}
use past_work.Scheduler.Whole.Joining.{Shape-low}
use past_work.Scheduler.Whole.Unblock.{Active}
use past_work.Scheduler.Whole.Execute.{List-cases}
use past_work.Scheduler.Whole.Counting.{Passed}

-- The cycles until the last arrival, and what all processes still cost.
abbrev pub measure : (last t : ℕ) → Sched → ℕ
measure last t s = last - t + total s.count_prime (λ i. due (s.processes i))

-- The processes arrive no later than that.
abbrev pub ArriveBy : ℕ → Sched → Type 0
ArriveBy last s = (i : ℕ) → i < s.count_prime → (s.processes i).a ≤ last

module _ (last t : ℕ) (s s3 s4 s5 : Sched) (k : Kept s s3) (d : Drawn s3 s4) (p : Passed s4 s5)
    (g : Good t (t + 1) 1 s4) (by : ArriveBy last s) where
  same_count : s5.count_prime ≡ s.count_prime
  same_count = p.same_count ∙ d.same_count ∙ k.same_count

  low4 : (i : ℕ) → i < s5.count_prime → i < s4.count_prime
  low4 i low = omega (arith, low, p.same_count)

  pub entries : (i : ℕ) → i < s4.count_prime → entry (s5.processes i) ≡ entry (s.processes i)
  entries i low = p.same_entries i low ∙ d.same_entries i ∙ k.same_entries i

  pub arrive_by : ArriveBy last s5
  arrive_by i low =
      let a = ap (λ (e : Entry). e.a) (entries i (low4 i low)) in
      omega (arith, a, by i (omega (arith, low, same_count)))

  -- A process that runs, or whose blocking time runs, costs less.
  bonus : ℕ → Bool
  bonus i = in_state s4 2 i || (in_state s4 3 i && not (expired s4 i))

  fell :
      (i : ℕ)
      → i < s5.count_prime
      → due (s5.processes i) + (if bonus i then 1 else 0) ≤ due (s.processes i)
  unfolding bonus
  fell i low =
      let cost = p.cost i (low4 i low) in
      let credit = d.credit i in let lower = k.lower i in ground arith

  cost_le : (i : ℕ) → i < s5.count_prime → due (s5.processes i) ≤ due (s.processes i)
  cost_le i low = let f = fell i low in omega arith

  sum_le :
      total s5.count_prime (λ i. due (s5.processes i))
      ≤ total s.count_prime (λ i. due (s.processes i))
  sum_le =
      let le =
        total-le s5.count_prime (λ i. due (s5.processes i)) (λ i. due (s.processes i)) cost_le in
      let e = ap (λ (n : ℕ). total n (λ i. due (s.processes i))) same_count in omega (arith, le, e)

  less :
      (i : ℕ) → i < s4.count_prime → bonus i ≡ true → measure last (t + 1) s5 + 1 ≤ measure last t s
  less i low b =
      let below : i < s5.count_prime = omega (arith, low, p.same_count) in
      let f : due (s5.processes i) + 1 ≤ due (s.processes i) =
        (let f = fell i below in
          let e = ap {B = ℕ} (λ (c : Bool). if c then 1 else 0) b in omega (arith, f, e)) in
      let lt =
        total-lt s5.count_prime (λ i. due (s5.processes i)) (λ i. due (s.processes i)) i below f
          cost_le in
      let e = ap (λ (n : ℕ). total n (λ i. due (s.processes i))) same_count in omega (arith, lt, e)

  -- None is ready, running or blocked.
  drained :
      g.ready_list ≡ []
      → g.blocked_list ≡ []
      → s4.selection ≡ none
      → (s5.completion ≡ s5.count_prime) ⊎ (measure last (t + 1) s5 + 1 ≤ measure last t s)
  drained r b free = elim (Bool-cases (count s4.count_prime (in_state s4 0) == 0)) [
    | inl over ↦
        let none_left : count s4.count_prime (in_state s4 0) ≡ 0 = ground arith in
        inl (
          omega (
            arith,
            p.same_completion,
            p.same_count,
            g.shape.total,
            g.shape.finished,
            none_left,
            ap length r,
            ap length b,
            ap number free,
          ))
    | inr left ↦
        let (i, low, unstarted) = count-some s4.count_prime (in_state s4 0) (ground arith) in
        let (can, ok) = g.books i low in
        let later : t + 1 ≤ (s4.processes i).a = ground arith in
        let early : (s.processes i).a ≤ last =
          by i (omega (arith, low, d.same_count, k.same_count)) in
        let same = ap (λ (e : Entry). e.a) (d.same_entries i ∙ k.same_entries i) in
        inr (let le = sum_le in omega (arith, later, early, same, le))
  ]

  waiting_bonus : (x : ℕ) → (s4.processes x).condition ≡ 3 → expired s4 x ≡ false → bonus x ≡ true
  unfolding bonus
  waiting_bonus x e w = ground arith

  idle_cycle :
      Active s4
      → s4.selection ≡ none
      → s4.ready.size ≡ 0
      → (s5.completion ≡ s5.count_prime) ⊎ (measure last (t + 1) s5 + 1 ≤ measure last t s)
  idle_cycle active free empty = elim (List-cases g.ready_list) [
    | inr (x, xs, e) ↦ absurd (omega (arith, empty, g.shape.ready.size, ap length e))
    | inl r ↦ elim active [
      | inl (q, one) ↦ absurd (ground (arith, g.shape.waits q, ap (λ (xs : List ℕ). has q xs) r))
      | inr wait ↦ elim (List-cases g.blocked_list) [
        | inl b ↦ drained r b free
        | inr (x, xs, e) ↦
            let three : (s4.processes x).condition ≡ 3 =
              ground (arith, g.shape.sleeps x, ap (λ (ys : List ℕ). has x ys) e) in
            let w = wait x three in
            inr (less x (Shape-low x g.shape (omega (arith, three))) (waiting_bonus x three w))
      ]
    ]
  ]

  running_bonus : (q : ℕ) → (s4.processes q).condition ≡ 2 → bonus q ≡ true
  unfolding bonus
  running_bonus q e = ground arith

  pub progress :
      Active s3
      → (s5.completion ≡ s5.count_prime) ⊎ (measure last (t + 1) s5 + 1 ≤ measure last t s)
  progress active = elim d.busy [
    | inl (q, sel) ↦
        let two : (s4.processes q).condition ≡ 2 =
          ground (arith, g.shape.runs q, ap (λ (o : Option ℕ). selected o q) sel) in
        inr (less q (Shape-low q g.shape (omega (arith, two))) (running_bonus q two))
    | inr (same, free, empty) ↦
        idle_cycle (subst Active (sym same) active) (ap (λ (v : Sched). v.selection) same ∙ free)
          (ap (λ (v : Sched). v.ready.size) same ∙ empty)
  ]
