-- ===== src/Scheduler/Shortest.antt =====
-- The search of scheduler.c for the shortest job of the ready queue.
use past_work.Base.{
  ℕ, ◌≤◌, ◌<◌, ◌≡◌, refl, ap, sym, subst, ◌∙◌, ◌⊎◌, inl, inr, Option, List, [], ◌∷◌, ◌++◌, ltb,
  if◌then◌else◌, arith, All, length, Bool-cases,
}
use past_work.Base.Chains.{Chain}
use past_work.Scheduler.State.{Sched, done, ◌>>=◌, continue}
use past_work.Scheduler.Dispatch.{remaining, shortest_from}
use past_work.Scheduler.Chain.{Ready}

-- The time that a process still needs.
abbrev pub left : Sched → ℕ → ℕ
left s i = remaining (s.processes i)

-- What a search along some processes, from a best one so far, gives.
abbrev Best : Sched → ℕ → List ℕ → ℕ → Type 0
Best s quick xs z =
    ((z ≡ quick) × All (λ i. left s quick ≤ left s i) xs)
    ⊎ ((pre : List ℕ) × (post : List ℕ) × (xs ≡ pre ++ z ∷ post)
        × (left s z < left s quick)
        × All (λ i. left s z < left s i) pre
        × All (λ i. left s z ≤ left s i) post)

Best-better :
    (s : Sched) (quick p z : ℕ) (xs : List ℕ)
    → left s p < left s quick
    → Best s p xs z
    → Best s quick (p ∷ xs) z
Best-better s quick p z xs less (inl (e, h)) =
    inr ([], xs, ap (λ (i : ℕ). i ∷ xs) (sym e), rw e less, tt, rw e h)
Best-better s quick p z xs less (inr (pre, post, e, below, before, after)) =
    inr (p ∷ pre, post, ap (◌∷◌ p) e, omega arith, (below, before), after)

Best-worse :
    (s : Sched) (quick p z : ℕ) (xs : List ℕ)
    → left s quick ≤ left s p
    → Best s quick xs z
    → Best s quick (p ∷ xs) z
Best-worse s quick p z xs more (inl (e, h)) = inl (e, (more, h))
Best-worse s quick p z xs more (inr (pre, post, e, below, before, after)) =
    inr (p ∷ pre, post, ap (◌∷◌ p) e, below, (omega arith, before), after)

-- The better of two processes, of which the first is kept when they are equal.
abbrev better : Sched → (quick p : ℕ) → ℕ
better s quick p = if ltb (left s p) (left s quick) then p else quick

Best-cons :
    (s : Sched) (quick p z : ℕ) (xs : List ℕ)
    → Best s (better s quick p) xs z
    → Best s quick (p ∷ xs) z
Best-cons s quick p z xs b = elim (Bool-cases (ltb (left s p) (left s quick))) [
  | inl shorter ↦
      let same : better s quick p ≡ p = ground arith in
      Best-better s quick p z xs (ground arith) (subst (λ (q : ℕ). Best s q xs z) same b)
  | inr longer ↦
      let same : better s quick p ≡ quick = ground arith in
      Best-worse s quick p z xs (ground arith) (subst (λ (q : ℕ). Best s q xs z) same b)
]

shortest_from-Best :
    (s : Sched) (quick : ℕ) (next : Option ℕ) (xs : List ℕ)
    → Chain (λ i. (s.processes i).fresh_prime) next xs
    → (z : ℕ) × (shortest_from (length xs) quick next s ≡ done z s) × Best s quick xs z
unfolding shortest_from
shortest_from-Best s quick next [] c = (quick, refl, inl (refl, tt))
shortest_from-Best s quick next (x ∷ xs) (e, c) =
    let (z, run, b) = shortest_from-Best s (better s quick x) (s.processes x).fresh_prime xs c in
    (z, rw (e, ◌>>=◌, continue) run, Best-cons s quick x z xs b)

-- The search ends at the first of the processes that need the least time.
pub shortest_from-shortest :
    (s : Sched) (x : ℕ) (xs : List ℕ)
    → Ready s (x ∷ xs)
    → (pre : List ℕ) × (z : ℕ) × (post : List ℕ) × (x ∷ xs ≡ pre ++ z ∷ post)
      × (shortest_from s.ready.size x s.ready.front s ≡ done z s)
      × All (λ i. left s z < left s i) pre
      × All (λ i. left s z ≤ left s i) post
shortest_from-shortest s x xs q =
    let (z, run, b) = shortest_from-Best s x s.ready.front (x ∷ xs) q.chain in
    let run' : shortest_from s.ready.size x s.ready.front s ≡ done z s =
      ap (λ (n : ℕ). shortest_from n x s.ready.front s) q.size ∙ run in
    elim b [
      | inl (e, h) ↦ ([], z, xs, ap (λ (i : ℕ). i ∷ xs) (sym e), run', tt, rw e h.1)
      | inr (pre, post, e, less, before, after) ↦ (pre, z, post, e, run', before, after)
    ]
