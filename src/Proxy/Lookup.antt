-- ===== src/Proxy/Lookup.antt =====
-- What `reader` of proxy.c finds after `writer`.
use past_work.Base.{
  ℕ, zero, suc, ◌+◌, ◌≤◌, ◌<◌, ◌≡◌, ◌≢◌, refl, ap, sym, subst, ◌∙◌, ◌⊎◌, inl, inr, true, false,
  none, some, List, [], ◌∷◌, ltb, arith, All, length, set, Bool-cases,
}
use past_work.Base.Text.{CString, str_eq, str_eq_self}
use past_work.Proxy.Cache.{CacheLine, search_from, lru_from, lru, line_at}

abbrev Found : Type 0
Found = ℕ × CacheLine

-- A search over more lines finds the same line.
search_mono :
    (q : CString) (k k' i : ℕ) (f : Found) (ls : List CacheLine)
    → search_from q k i ls ≡ some f
    → k ≤ k'
    → search_from q k' i ls ≡ some f
unfolding search_from
search_mono q zero k' i f ls hit a = absurd (cc hit)
search_mono q (suc k) k' i f [] hit a = absurd (cc hit)
search_mono q (suc k) zero i f (l ∷ ls) hit a = absurd (omega arith)
search_mono q (suc k) (suc k') i f (l ∷ ls) hit a = ground (arith, search_mono q k k' (suc i) f ls)

-- The first line was passed over, if the one that is found is another.
passed :
    (q : CString) (k i m : ℕ) (x : CacheLine) (ls : List CacheLine) (l : CacheLine)
    → search_from q (suc k) i (x ∷ ls) ≡ some (m, l)
    → m ≢ i
    → str_eq x.name q ≡ false
unfolding search_from
passed q k i m x ls l hit n = ground arith

module _ (new : CacheLine) where
  -- A line that is put behind lines with other names is found.
  pub search-set_self :
      (uri : CString) (k k' i j : ℕ) (ls : List CacheLine)
      → new.name ≡ uri
      → search_from uri k i ls ≡ none
      → j ≤ k
      → j < k'
      → j < length ls
      → search_from uri k' i (set ls j new) ≡ some (i + j, new)
  unfolding search_from
  search-set_self uri k k' i j [] e miss a b c = absurd (omega arith)
  search-set_self uri k zero i j (l ∷ ls) e miss a b c = absurd (omega arith)
  search-set_self uri k (suc k') i zero (l ∷ ls) e miss a b c =
      let same : str_eq new.name uri ≡ true = rw e (str_eq_self uri) in
      rw same (ap (λ (n : ℕ). some (n, new)) (omega arith))
  search-set_self uri zero (suc k') i (suc j) (l ∷ ls) e miss a b c = absurd (omega arith)
  search-set_self uri (suc k) (suc k') i (suc j) (l ∷ ls) e miss a b c =
      let other : str_eq l.name uri ≡ false = ground arith in
      let rest : search_from uri k (suc i) ls ≡ none = ground arith in
      rw other (
        search-set_self uri k k' (suc i) j ls e rest (omega arith) (omega arith) (omega arith)
        ∙ ap (λ (n : ℕ). some (n, new)) (omega arith))

  -- A line that is put elsewhere hides no other name.
  pub search-set_ne :
      (q : CString) (k k' i j m : ℕ) (ls : List CacheLine) (l : CacheLine)
      → str_eq new.name q ≡ false
      → search_from q k i ls ≡ some (m, l)
      → k ≤ k'
      → m ≢ i + j
      → search_from q k' i (set ls j new) ≡ some (m, l)
  unfolding search_from
  search-set_ne q zero k' i j m ls l e hit a n = absurd (cc hit)
  search-set_ne q (suc k) k' i j m [] l e hit a n = absurd (cc hit)
  search-set_ne q (suc k) zero i j m (x ∷ ls) l e hit a n = absurd (omega arith)
  search-set_ne q (suc k) (suc k') i zero m (x ∷ ls) l e hit a n =
      let other : str_eq x.name q ≡ false = passed q k i m x ls l hit (omega arith) in
      let rest : search_from q k (suc i) ls ≡ some (m, l) = ground arith in
      rw e (search_mono q k k' (suc i) (m, l) ls rest (omega arith))
  search-set_ne q (suc k) (suc k') i (suc j) m (x ∷ ls) l e hit a n =
      elim (Bool-cases (str_eq x.name q)) [
        | inl here ↦ ground arith
        | inr there ↦
            let rest : search_from q k (suc i) ls ≡ some (m, l) = ground arith in
            rw there (search-set_ne q k k' (suc i) j m ls l e rest (omega arith) (ground arith))
      ]

-- What the search for the oldest line gives: the line so far, when none is older, or else a line of
-- the rest that is older and that none is older than.
lru_from-oldest :
    (r t i : ℕ) (ls : List CacheLine)
    → ((lru_from r t i ls ≡ r) × All (λ x. t ≤ x.timestamp) ls)
      ⊎ ((j : ℕ) × (lru_from r t i ls ≡ i + j)
          × (j < length ls)
          × ((line_at ls j).timestamp < t)
          × All (λ x. (line_at ls j).timestamp ≤ x.timestamp) ls)
unfolding lru_from line_at
lru_from-oldest r t i [] = inl (refl, tt)
lru_from-oldest r t i (l ∷ ls) = elim (Bool-cases (ltb l.timestamp t)) [
  | inl older ↦ rw older (elim (lru_from-oldest i l.timestamp (suc i) ls) [
    | inl (e, h) ↦ inr (0, e ∙ omega arith, omega arith, ground arith, (omega arith, h))
    | inr (j, e, k, o, h) ↦
        inr (suc j, e ∙ omega arith, omega arith, ground arith, (omega arith, h))
  ])
  | inr newer ↦ rw newer (elim (lru_from-oldest r t (suc i) ls) [
    | inl (e, h) ↦ inl (e, (ground arith, h))
    | inr (j, e, k, o, h) ↦ inr (suc j, e ∙ omega arith, omega arith, o, (ground arith, h))
  ])
]

-- An index of a line that no line is older than.
abbrev pub Oldest : List CacheLine → ℕ → Type 0
Oldest ls i = (i < length ls) × All (λ x. (line_at ls i).timestamp ≤ x.timestamp) ls

pub lru-Oldest : (l : CacheLine) (ls : List CacheLine) → Oldest (l ∷ ls) (lru (l ∷ ls))
unfolding lru line_at
lru-Oldest l ls = elim (lru_from-oldest 0 l.timestamp 1 ls) [
  | inl (e, h) ↦ subst (Oldest (l ∷ ls)) (sym e) (omega arith, (omega arith, h))
  | inr (j, e, k, o, h) ↦
      let e' : lru_from 0 l.timestamp 1 ls ≡ suc j = e ∙ omega arith in
      subst (Oldest (l ∷ ls)) (sym e') (omega arith, (omega arith, h))
]

-- The line that a search gives stands at its index.
pub search-line_at :
    (q : CString) (k i m : ℕ) (ls : List CacheLine) (l : CacheLine)
    → search_from q k i ls ≡ some (m, l)
    → (j : ℕ) × (m ≡ i + j)
      × (j < k)
      × (j < length ls)
      × (line_at ls j ≡ l)
      × (str_eq l.name q ≡ true)
unfolding search_from line_at
search-line_at q zero i m ls l hit = absurd (cc hit)
search-line_at q (suc k) i m [] l hit = absurd (cc hit)
search-line_at q (suc k) i m (x ∷ ls) l hit = elim (Bool-cases (str_eq x.name q)) [
  | inl here ↦ (0, ground arith, omega arith, omega arith, ground arith, ground arith)
  | inr there ↦
      let rest : search_from q k (suc i) ls ≡ some (m, l) = ground arith in
      let (j, e, a, b, at, name) = search-line_at q k (suc i) m ls l rest in
      (suc j, e ∙ omega arith, omega arith, omega arith, at, name)
]
