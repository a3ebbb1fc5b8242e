-- ===== src/FileTree/Removing.antt =====
-- `rm` and `rmdir` of lab1_hutchins.c, and what becomes of the other entries of the directory.
use past_work.Base.{
  ℕ, ◌≤◌, ◌≡◌, ◌≢◌, refl, inl, inr, true, false, Option, none, some, List, [], ◌∷◌, ◌++◌, arith,
  length, has, Distinct, Bool-cases, has-append, length-append,
}
use past_work.Base.Text.{CString}
use past_work.Base.Chains.{Chain, Chain-frame, Chain-after, write_at, ne_of_has}
use past_work.FileTree.Tree.{Files, ◌>>=◌}
use past_work.FileTree.Commands.{is_reserved, free, rmdir, rm}
use past_work.FileTree.Children.{Children, named}
use past_work.FileTree.Making.{Addressed, look_up-named}

-- The state after the first child of `d` has been set and `p` has been freed.
abbrev pub dropped : Files → (d p : ℕ) → Option ℕ → Files
dropped s d p first =
    free (record s { nodes = write_at s.nodes d (record (s.nodes d) { cptr = first }) }) p

-- The part of a list without doubles behind one of its members.
behind :
    (pre : List ℕ) (p : ℕ) (post : List ℕ)
    → Distinct (pre ++ p ∷ post)
    → (has p post ≡ false) × Distinct post
behind [] p post d = d
behind (x ∷ pre) p post d = behind pre p post d.1

-- The directory has children `ys`, which were its children before and are not `p`.
dropped-Children :
    (s : Files) (d p : ℕ) (xs ys : List ℕ) (first : Option ℕ)
    → Children s d xs
    → has p xs ≡ true
    → ((i : ℕ) → has i ys ≡ true → has i xs ≡ true)
    → has p ys ≡ false
    → Distinct ys
    → length ys ≤ length xs
    → Chain (λ i. (s.nodes i).sptr) first ys
    → Children (dropped s d p first) d ys
dropped-Children s d p xs ys first h inside sub out distinct short c =
    let apart : d ≢ p = ne_of_has xs h.outside inside in
    record {
      chain =
          let same : ((dropped s d p first).nodes d).cptr ≡ first = ground arith in
          rw same (Chain-frame first ys (λ i k. ground arith) c);
      home = let there = h.home in ground arith;
      alive = λ i k.
          let there = h.alive i (sub i k) in let other : p ≢ i = ne_of_has ys out k in ground arith;
      outside = elim (Bool-cases (has d ys)) [
        | inr z ↦ z
        | inl z ↦ let no = h.outside in absurd (let yes = sub d z in cc)
      ];
      distinct = distinct;
      walked = let w = h.walked in omega arith;
    }

module _ (path : CString) (s₀ s : Files) (d : ℕ) (pre : List ℕ) (p : ℕ) (post : List ℕ) where
  inside : has p (pre ++ p ∷ post) ≡ true
  inside = ground (arith, has-append p pre (p ∷ post))

  -- The node itself and its directory are in memory.
  both_live : Children s d (pre ++ p ∷ post) → (s.live p ≡ true) × (s.live d ≡ true)
  both_live h = (h.alive p inside, h.home)

  -- When the base name is the name of a child of type `G`, whose parent is the directory, `rm`
  -- returns 0 and frees the child, and leaves the directory without any child: it gives up the
  -- siblings too.
  pub rm-Children :
      Addressed path s₀ s d (pre ++ p ∷ post)
      → named s s.basename (pre ++ p ∷ post) ≡ some p
      → (s.nodes p).type ≡ b'G'
      → (s.nodes p).pptr ≡ d
      → (s' : Files) × (rm path s₀ ≡ some (true, s')) × Children s' d [] × (s'.live p ≡ false)
  unfolding rm
  rm-Children h hit file up =
      let (live, home) = both_live h.children in
      (
        dropped s d p none,
        rw (h.split, ◌>>=◌)
            (rw (look_up-named s d _ h, ◌>>=◌)
              (rw hit (rw (live, ◌>>=◌) (rw (file, up) (rw (home, ◌>>=◌) refl))))),
        dropped-Children s d p (pre ++ p ∷ post) [] none h.children inside (λ i k. absurd (cc)) refl
            tt (omega arith) refl,
        ground arith,
      )

  -- When the base name is not reserved and is the name of a child that has no children and whose
  -- parent is the directory, `rmdir` returns 0 and frees the child, and leaves the directory with
  -- the children behind it only: it gives up those in front. It does not ask for the type.
  pub rmdir-Children :
      Addressed path s₀ s d (pre ++ p ∷ post)
      → is_reserved s.basename ≡ false
      → named s s.basename (pre ++ p ∷ post) ≡ some p
      → (s.nodes p).cptr ≡ none
      → (s.nodes p).pptr ≡ d
      → (s' : Files) × (rmdir path s₀ ≡ some (true, s')) × Children s' d post × (s'.live p ≡ false)
  unfolding rmdir
  rmdir-Children h plain hit empty up =
      let (live, home) = both_live h.children in
      let (out, distinct) = behind pre p post h.children.distinct in
      (
        dropped s d p (s.nodes p).sptr,
        rw (h.split, ◌>>=◌)
            (rw plain (
              rw (look_up-named s d _ h, ◌>>=◌)
                (rw hit (rw (live, ◌>>=◌) (rw (empty, up) (rw (home, ◌>>=◌) refl)))))),
        dropped-Children s d p (pre ++ p ∷ post) post (s.nodes p).sptr h.children inside
            (λ i k. ground (arith, has-append i pre (p ∷ post))) out distinct
            (omega (arith, length-append pre (p ∷ post)))
            (Chain-after (λ i. (s.nodes i).sptr) (s.nodes d).cptr pre p post h.children.chain),
        ground arith,
      )
