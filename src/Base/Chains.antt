-- ===== src/Base/Chains.antt =====
-- Linked lists in a store: the cells that the links lead through, in order.
use Prim.Native.Nat.{ℕ}
use mathlib.Core.Path.{◌≡◌, refl}
use mathlib.Core.Logic.{◌≢◌, inl, inr}
use mathlib.Core.Bool.{true, false}
use mathlib.Core.List.{List, [], ◌∷◌, ◌++◌}
use mathlib.Core.Option.{Option, none, some}
use native.Mathlib.Omega.{arith}
use past_work.Base.Tests.{Bool-cases, ◌==◌, if◌then◌else◌}
use past_work.Base.Lists.{last?, has, Distinct}

-- A store after a write to one of its cells.
abbrev pub write_at {ℓ} : {A : Type ℓ} → (ℕ → A) → ℕ → A → ℕ → A
write_at f p v q = if p == q then v else f q

pub write_at-same {ℓ} : {A : Type ℓ} (f : ℕ → A) (p : ℕ) (a : A) → write_at f p a p ≡ a
write_at-same f p a = let e : (p == p) ≡ true = ground arith in rw e refl

pub write_at-other {ℓ} :
    {A : Type ℓ} (f : ℕ → A) (p : ℕ) (a : A) (q : ℕ) → q ≢ p → write_at f p a q ≡ f q
write_at-other f p a q ne = let e : (p == q) ≡ false = ground arith in rw e refl

-- What holds of the new value, and of the others, holds of all.
pub write_at-all {ℓ κ} :
    {A : Type ℓ} (P : A → Type κ) (f : ℕ → A) (p : ℕ) (a : A) (q : ℕ)
    → (q ≡ p → P a)
    → (q ≢ p → P (f q))
    → P (write_at f p a q)
write_at-all P f p a q here there = elim (Bool-cases (p == q)) [
  | inl e ↦ rw e (here (ground arith))
  | inr e ↦ rw e (there (ground arith))
]

-- From `p` the links `next` lead through the cells `xs` to NULL.
abbrev pub Chain : (ℕ → Option ℕ) → Option ℕ → List ℕ → Type 0
Chain next p [] = p ≡ none
Chain next p (x ∷ xs) = (p ≡ some x) × Chain next (next x) xs

-- A chain survives what leaves the links of its cells alone.
pub Chain-frame :
    {next next' : ℕ → Option ℕ} (p : Option ℕ) (xs : List ℕ)
    → ((i : ℕ) → has i xs ≡ true → next' i ≡ next i)
    → Chain next p xs
    → Chain next' p xs
Chain-frame p [] same c = c
Chain-frame {next} {next'} p (x ∷ xs) same (e, c) = (
  e,
  Chain-frame (next' x) xs (λ i h. same i (ground arith))
      (let q : next' x ≡ next x = same x (ground arith) in rw q c),
)

pub has-last? : (xs : List ℕ) (z : ℕ) → last? xs ≡ some z → has z xs ≡ true
has-last? [] z l = absurd (ground arith)
has-last? (x ∷ []) z l = ground arith
has-last? (x ∷ y ∷ xs) z l = ground (arith, has-last? (y ∷ xs) z l)

-- A cell that is on a list differs from one that is not.
pub ne_of_has : {x z : ℕ} (xs : List ℕ) → has x xs ≡ false → has z xs ≡ true → x ≢ z
ne_of_has xs h k e = cc

-- The links after `n` has been hung behind the last cell of a chain.
pub Chain-snoc :
    {next next' : ℕ → Option ℕ} (p : Option ℕ) (x : ℕ) (xs : List ℕ) (z n : ℕ)
    → Chain next p (x ∷ xs)
    → Distinct (x ∷ xs)
    → last? (x ∷ xs) ≡ some z
    → next' z ≡ some n
    → next' n ≡ none
    → ((i : ℕ) → has i (x ∷ xs) ≡ true → i ≢ z → next' i ≡ next i)
    → Chain next' p (x ∷ xs ++ n ∷ [])
Chain-snoc p x [] z n (e, c) d l f g same = (e, (ground arith, g))
Chain-snoc {next} {next'} p x (y ∷ xs) z n (e, c) d l f g same = (
  e,
  Chain-snoc (next' x) y xs z n
      (let q : next' x ≡ next x =
          same x (ground arith) (ne_of_has (y ∷ xs) d.0 (has-last? (y ∷ xs) z l)) in
        rw q c)
      d.1 l f g (λ i h. same i (ground arith)),
)

-- The chain behind one of its cells.
pub Chain-after :
    (next : ℕ → Option ℕ) (q : Option ℕ) (xs : List ℕ) (z : ℕ) (post : List ℕ)
    → Chain next q (xs ++ z ∷ post)
    → Chain next (next z) post
Chain-after next q [] z post (e, c) = c
Chain-after next q (x ∷ xs) z post (e, c) = Chain-after next (next x) xs z post c
