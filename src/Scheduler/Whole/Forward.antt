-- ===== src/Scheduler/Whole/Forward.antt =====
-- The running process of scheduler.c in `proceedForward`: its condition, its books and its cost.
use past_work.Base.{
  ◌≤◌, ℕ, ◌<◌, ◌≡◌, ◌≢◌, ap, ◌∙◌, true, some, List, ◌==◌, arith, Bool-cases, inl, inr,
}
use past_work.Scheduler.State.{Process, Sched}
use past_work.Scheduler.Release.{plain}
use past_work.Scheduler.Whole.{entry, due, Good, Kept, fair, Fair, possible}
use past_work.Scheduler.Whole.Due.{due-moved}
use past_work.Scheduler.Whole.Books.{Fair-step, moved, fair-moved}
use past_work.Scheduler.Whole.Joining.{Touched, Joined, Shape-low}
use past_work.Scheduler.Whole.Proceed.{settled, conditioned, deselect}

-- The running process gets a condition, and the time of its next block.
pub touch : (s : Sched) (p k : ℕ) → Touched s (conditioned (settled s p) p k) p k
touch s p k = record {
  moves = record {
    condition = λ i. ground arith;
    ids = λ i. ground arith;
    same_count = ground arith;
  };
  fresh = λ i. ground arith;
  push = λ i. ground arith;
  ready = ground arith;
  blocked = ground arith;
}

pub elsewhere :
    (s : Sched) (p k i : ℕ) → i ≢ p → (conditioned (settled s p) p k).processes i ≡ s.processes i
elsewhere s p k i ne = ground arith

moved_at :
    (s : Sched) (p k : ℕ) → (conditioned (settled s p) p k).processes p ≡ moved (s.processes p) k
moved_at s p k = elim (Bool-cases (s.processes p).operating) [
  | inl e ↦ ground arith
  | inr e ↦ ground arith
]

-- What is known of the running process of a good state.
module _ (s : Sched) (p t : ℕ) (g : Good t t 0 s) (now : s.present ≡ t)
    (sel : s.selection ≡ some p) where
  pub two : (s.processes p).condition ≡ 2
  two = ground (arith, g.shape.runs p)

  pub low : p < s.count_prime
  low = Shape-low p g.shape (omega (arith, two))

  pub idle : (i : ℕ) → i ≢ p → (s.processes i).condition ≢ 2
  idle i ne = ground (arith, g.shape.runs i)

  pub keep : (i : ℕ) → i ≢ p → fair t t 0 (s.processes i) ≡ true → fair t t 1 (s.processes i) ≡ true
  keep i ne f = let n = idle i ne in ground arith

  -- The books of the process, in whatever condition it goes on.
  pub onward :
      (k : ℕ)
      → (s.processes p).c ≢ (s.processes p).cpu_time
      → k ≢ 0
      → k ≢ 4
      → (k ≡ 2 → (s.processes p).cpu_burst ≢ 0)
      → (possible ((conditioned (settled s p) p k).processes p) ≡ true)
        × (fair t t 1 ((conditioned (settled s p) p k).processes p) ≡ true)
  onward k more started unended burst =
      let (can, ok) = g.books p low in
      let e = moved_at s p k in
      (
        ap (λ (r : Process). possible r) e ∙ can,
        ap (λ (r : Process). fair t t 1 r) e
            ∙ fair-moved t k (s.processes p) two can ok more started unended burst,
      )

  -- The cost of no process has grown, and no arrival has changed.
  pub no_more :
      (u : Sched) (k : ℕ)
      → ((i : ℕ) → due (u.processes i) ≡ due ((conditioned (settled s p) p k).processes i))
      → (i : ℕ) → due (u.processes i) ≤ due (s.processes i)
  no_more u k same i = elim (Bool-cases (p == i)) [
    | inl e ↦
        let at : p ≡ i = ground arith in
        let (can, ok) = g.books p low in
        let less = due-moved t k (s.processes p) two can ok in
        let moved_due = ap (λ (r : Process). due r) (moved_at s p k) in
        rw (← at) (omega (arith, same p, moved_due, less))
    | inr e ↦
        let kept = ap (λ (r : Process). due r) (elsewhere s p k i (ground arith)) in
        omega (arith, same i, kept)
  ]

  pub entries :
      (k i : ℕ) → entry ((conditioned (settled s p) p k).processes i) ≡ entry (s.processes i)
  entries k i = ground arith

  pub linked :
      (u : Sched) (k : ℕ) (rs bs : List ℕ)
      → Joined s (conditioned (settled s p) p k) rs bs p k u
      → (s.processes p).c ≢ (s.processes p).cpu_time
      → k ≢ 0
      → k ≢ 4
      → k ≢ 2
      → Fair t t 1 (deselect u) × Kept s (deselect u)
  linked u k rs bs j more started unended stopped =
      let v : Sched = conditioned (settled s p) p k in
      let (can, ok) = onward k more started unended (λ e. absurd (stopped e)) in
      (
        Fair-step s (deselect u) p t t 0 t 1 g.books j.moves.same_count
            (λ i ne. j.fields i ∙ ap (λ (r : Process). plain r) (elsewhere s p k i ne)) keep
            (
              ap (λ (r : Process). possible r) (j.fields p) ∙ can,
              ap (λ (r : Process). fair t t 1 r) (j.fields p) ∙ ok,
            ),
        record {
          same_present = ap (λ (v : Sched). v.present) j.globals ∙ ground arith;
          same_count = j.moves.same_count;
          same_lines = ap (λ (v : Sched). v.random_lines) j.globals ∙ ground arith;
          lower = no_more (deselect u) k (λ i. ap (λ (r : Process). due r) (j.fields i));
          same_entries = λ i. ap (λ (r : Process). entry r) (j.fields i) ∙ entries k i;
        },
      )
