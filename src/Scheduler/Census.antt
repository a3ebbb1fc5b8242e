-- ===== src/Scheduler/Census.antt =====
-- How many of the first processes of scheduler.c have a property.
use past_work.Base.{
  true, ◌≤◌, ℕ, zero, suc, ◌+◌, ◌<◌, ◌≡◌, ◌≢◌, refl, Bool, false, ◌==◌, if◌then◌else◌, arith,
  Bool-cases, inl, inr,
}

pub count : ℕ → (ℕ → Bool) → ℕ
count zero f = 0
count (suc n) f = count n f + (if f n then 1 else 0)

pub count-ext : (n : ℕ) (f g : ℕ → Bool) → ((i : ℕ) → i < n → f i ≡ g i) → count n f ≡ count n g
unfolding count
count-ext zero f g h = refl
count-ext (suc n) f g h =
    let rest = count-ext n f g (λ i low. h i (omega arith)) in rw (rest, h n (omega arith)) refl

-- When none is left, none of them has the property.
pub count-eq_zero : (n : ℕ) (f : ℕ → Bool) (i : ℕ) → count n f ≡ 0 → i < n → f i ≡ false
unfolding count
count-eq_zero zero f i e low = absurd (omega arith)
count-eq_zero (suc n) f i e low = elim (Bool-cases (i == n)) [
  | inl last ↦ let same : i ≡ n = ground arith in rw same (ground arith)
  | inr other ↦ count-eq_zero n f i (ground arith) (ground arith)
]

-- The number after a change of the property of one process.
pub count-change :
    (n : ℕ) (f g : ℕ → Bool) (p : ℕ)
    → p < n
    → ((i : ℕ) → i ≢ p → f i ≡ g i)
    → count n g + (if f p then 1 else 0) ≡ count n f + (if g p then 1 else 0)
unfolding count
count-change zero f g p low h = absurd (omega arith)
count-change (suc n) f g p low h = elim (Bool-cases (p == n)) [
  | inl last ↦
      let same : p ≡ n = ground arith in
      let rest : count n f ≡ count n g = count-ext n f g (λ i below. h i (omega arith)) in
      rw (same, rest) (omega arith)
  | inr other ↦
      let rest = count-change n f g p (ground arith) h in
      let at : f n ≡ g n = h n (ground arith) in rw at (omega (arith, rest))
]

-- Some process has the property when they are not none.
pub count-some : (n : ℕ) (f : ℕ → Bool) → count n f ≢ 0 → (i : ℕ) × (i < n) × (f i ≡ true)
unfolding count
count-some zero f h = absurd (h refl)
count-some (suc n) f h = elim (Bool-cases (f n)) [
  | inl e ↦ (n, omega arith, e)
  | inr e ↦
      let (i, low, at) = count-some n f (λ z. h (rw e (omega (arith, z)))) in (i, omega arith, at)
]

-- The sum of a number over the first processes.
pub total : ℕ → (ℕ → ℕ) → ℕ
total zero f = 0
total (suc n) f = total n f + f n

pub total-le : (n : ℕ) (f g : ℕ → ℕ) → ((i : ℕ) → i < n → f i ≤ g i) → total n f ≤ total n g
unfolding total
total-le zero f g h = omega arith
total-le (suc n) f g h =
    let rest = total-le n f g (λ i low. h i (omega arith)) in
    let last = h n (omega arith) in omega arith

-- The sum is less when it is less for one of them.
pub total-lt :
    (n : ℕ) (f g : ℕ → ℕ) (p : ℕ)
    → p < n
    → f p + 1 ≤ g p
    → ((i : ℕ) → i < n → f i ≤ g i)
    → total n f + 1 ≤ total n g
unfolding total
total-lt zero f g p low less h = absurd (omega arith)
total-lt (suc n) f g p low less h = elim (Bool-cases (p == n)) [
  | inl last ↦
      let same : p ≡ n = ground arith in
      let less' : f n + 1 ≤ g n = rw (← same) less in
      let rest = total-le n f g (λ i below. h i (omega arith)) in omega arith
  | inr other ↦
      let rest = total-lt n f g p (ground arith) less (λ i below. h i (omega arith)) in
      let last = h n (omega arith) in omega arith
]

pub count-all : (n : ℕ) (f : ℕ → Bool) → ((i : ℕ) → i < n → f i ≡ true) → count n f ≡ n
unfolding count
count-all zero f h = refl
count-all (suc n) f h =
    let rest = count-all n f (λ i low. h i (omega arith)) in
    rw (rest, h n (omega arith)) (omega arith)

pub count-none : (n : ℕ) (f : ℕ → Bool) → ((i : ℕ) → i < n → f i ≡ false) → count n f ≡ 0
unfolding count
count-none zero f h = refl
count-none (suc n) f h =
    let rest = count-none n f (λ i low. h i (omega arith)) in
    rw (rest, h n (omega arith)) (omega arith)

pub total-ext : (n : ℕ) (f g : ℕ → ℕ) → ((i : ℕ) → i < n → f i ≡ g i) → total n f ≡ total n g
unfolding total
total-ext zero f g h = refl
total-ext (suc n) f g h =
    let rest = total-ext n f g (λ i low. h i (omega arith)) in rw (rest, h n (omega arith)) refl

pub total-suc : (n : ℕ) (f : ℕ → ℕ) → total (suc n) f ≡ total n f + f n
unfolding total
total-suc n f = refl

pub total-zero : (f : ℕ → ℕ) → total 0 f ≡ 0
unfolding total
total-zero f = refl

pub count-le : (n : ℕ) (f : ℕ → Bool) → count n f ≤ n
unfolding count
count-le zero f = omega arith
count-le (suc n) f = let rest = count-le n f in ground arith

-- When all are counted, each of them has the property.
pub count-full : (n : ℕ) (f : ℕ → Bool) → count n f ≡ n → (i : ℕ) → i < n → f i ≡ true
unfolding count
count-full zero f e i low = absurd (omega arith)
count-full (suc n) f e i low =
    let top = count-le n f in
    elim (Bool-cases (f n)) [
      | inr out ↦ absurd (ground arith)
      | inl inside ↦ elim (Bool-cases (i == n)) [
        | inl last ↦ let same : i ≡ n = ground arith in rw same inside
        | inr other ↦ count-full n f (ground arith) i (ground arith)
      ]
    ]
