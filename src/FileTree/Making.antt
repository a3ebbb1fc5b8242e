-- ===== src/FileTree/Making.antt =====
-- `mkdir` and `create` of lab1_hutchins.c.
use past_work.Base.{
  ℕ, ◌<◌, ◌≡◌, ◌≢◌, refl, ap, ◌∙◌, inl, inr, true, false, none, some, List, [], ◌∷◌, ◌++◌, arith,
  has, Bool-cases,
}
use past_work.Base.Text.{CString, str_eq_self}
use past_work.Base.Chains.{Chain-frame}
use past_work.FileTree.Tree.{Node, Files, ◌>>=◌, look_c, insert_child}
use past_work.FileTree.Paths.{z, node_p}
use past_work.FileTree.Commands.{is_reserved, look_up, new_node, make, mkdir, create}
use past_work.FileTree.Children.{Children, named, look_c-named, insert_child-Inserted}

-- `malloc` gives a node that is not in memory.
abbrev pub Fresh : Files → Type 0
Fresh s = (i : ℕ) → s.live i ≡ true → i < s.next

-- A command on a path whose directory is there, with these children.
pub record Addressed (path : CString) (s₀ s : Files) (d : ℕ) (xs : List ℕ) : Type 0 where
  pub split : z path s₀ ≡ some s
  pub directory : node_p s.dirname s ≡ some (some d)
  pub children : Children s d xs

pub look_up-named :
    {path : CString} {s₀ : Files} (s : Files) (d : ℕ) (xs : List ℕ)
    → Addressed path s₀ s d xs
    → look_up s ≡ some (d, named s s.basename xs)
unfolding look_up
look_up-named s d xs h =
    rw (h.directory, ◌>>=◌) (rw (look_c-named s d s.basename xs h.children, ◌>>=◌) refl)

named-snoc :
    (s s' : Files) (name : CString) (xs : List ℕ) (p : ℕ)
    → ((i : ℕ) → has i xs ≡ true → (s'.nodes i).nm ≡ (s.nodes i).nm)
    → named s name xs ≡ none
    → (s'.nodes p).nm ≡ name
    → named s' name (xs ++ p ∷ []) ≡ some p
unfolding named
named-snoc s s' name [] p same miss e = rw (e, str_eq_self name) refl
named-snoc s s' name (x ∷ xs) p same miss e =
    let first : (s'.nodes x).nm ≡ (s.nodes x).nm = same x (ground arith) in
    let rest = named-snoc s s' name xs p (λ i h. same i (ground arith)) (ground arith) e in
    rw first (ground (arith, rest))

module _ (type : ℕ) (s : Files) (d : ℕ) (xs : List ℕ) where
  has-next : Fresh s → Children s d xs → has s.next xs ≡ false
  has-next f h = elim (Bool-cases (has s.next xs)) [
    | inr out ↦ out
    | inl in_list ↦ let low = f s.next (h.alive s.next in_list) in absurd (omega arith)
  ]

  new_node-Children : Fresh s → Children s d xs → Children (new_node type s).1 d xs
  new_node-Children f h =
      let out = has-next f h in
      let low : d < s.next = f d h.home in
      record {
        chain =
            let same : ((new_node type s).1.nodes d).cptr ≡ (s.nodes d).cptr = ground arith in
            rw same (
              Chain-frame (s.nodes d).cptr xs (λ i k. let there = f i (h.alive i k) in ground arith)
                h.chain);
        home = let there = h.home in ground arith;
        alive = λ i k. let there = h.alive i k in ground arith;
        outside = h.outside;
        distinct = h.distinct;
        walked = let w = h.walked in omega arith;
      }

-- What `mkdir` and `create` do: a new node, with the base name and the type, is the last child of the
-- directory, `lookC` finds it there, and no other node has another name or type.
pub record Made (type : ℕ) (s : Files) (d : ℕ) (xs : List ℕ) (s' : Files) : Type 0 where
  pub children : Children s' d (xs ++ s.next ∷ [])
  pub found : look_c s' d s.basename ≡ some (some s.next)
  pub typed : (s'.nodes s.next).type ≡ type
  pub parent : (s'.nodes s.next).pptr ≡ d
  pub empty : (s'.nodes s.next).cptr ≡ none
  pub names :
      (i : ℕ)
      → i ≢ s.next
      → ((s'.nodes i).nm ≡ (s.nodes i).nm) × ((s'.nodes i).type ≡ (s.nodes i).type)

module _ (path : CString) (s₀ s : Files) (d : ℕ) (xs : List ℕ) where
  make-inserted :
      (type : ℕ) (s' : Files)
      → Addressed path s₀ s d xs
      → is_reserved s.basename ≡ false
      → named s s.basename xs ≡ none
      → insert_child (new_node type s).1 d s.next ≡ some s'
      → make type path s₀ ≡ some (true, s')
  unfolding make
  make-inserted type s' h plain miss run =
      rw (h.split, ◌>>=◌)
        (rw plain (rw (look_up-named s d xs h, ◌>>=◌) (rw miss (rw (run, ◌>>=◌) refl))))

  make-Made :
      (type : ℕ)
      → Addressed path s₀ s d xs
      → Fresh s
      → is_reserved s.basename ≡ false
      → named s s.basename xs ≡ none
      → (s' : Files) × (make type path s₀ ≡ some (true, s')) × Made type s d xs s'
  make-Made type h f plain miss =
      let t = (new_node type s).1 in
      let out = has-next type s d xs f h.children in
      let low : d < s.next = f d h.children.home in
      let (s', run, r) =
        insert_child-Inserted t d xs s.next (new_node-Children type s d xs f h.children) out
          (ground arith) (omega arith) (let w = h.children.walked in omega arith) in
      let old : (i : ℕ) → i ≢ s.next → t.nodes i ≡ s.nodes i = λ i ne. ground arith in
      let new : (t.nodes s.next).nm ≡ s.basename = ground arith in
      (
        s',
        make-inserted type s' h plain miss run,
        record {
          children = r.children;
          found =
              look_c-named s' d s.basename _ r.children
              ∙ ap some (
                  named-snoc s s' s.basename xs s.next
                    (λ i k.
                      let low' = f i (h.children.alive i k) in
                      (r.names i).0 ∙ ap (λ (u : Node). u.nm) (old i (omega arith)))
                    miss ((r.names s.next).0 ∙ new));
          typed = (r.names s.next).1 ∙ ground arith;
          parent = r.parent;
          empty = r.empty;
          names = λ i ne. (
            (r.names i).0 ∙ ap (λ (u : Node). u.nm) (old i ne),
            (r.names i).1 ∙ ap (λ (u : Node). u.type) (old i ne),
          );
        },
      )

  -- When `z` splits a path into a directory that is there and a base name that is none of the
  -- reserved ones and that no child of the directory has, `mkdir` returns 0 and appends a new node
  -- of that name and of type `Y` to the children, with the directory as its parent; `lookC` finds
  -- it, and no other node has another name or type. Every node in memory has to be below the next
  -- one of `malloc`.
  pub mkdir-Made :
      Addressed path s₀ s d xs
      → Fresh s
      → is_reserved s.basename ≡ false
      → named s s.basename xs ≡ none
      → (s' : Files) × (mkdir path s₀ ≡ some (true, s')) × Made b'Y' s d xs s'
  unfolding mkdir
  mkdir-Made = make-Made b'Y'

  -- When every node in memory is below the next one of `malloc`, and `z` splits a path into a
  -- directory that is there and a base name that is none of the reserved ones and that no child of
  -- the directory has, `create` returns 0 and appends a new node of that name and of type `G` to
  -- the children, with the directory as its parent; `lookC` finds it, and no other node has another
  -- name or type.
  pub create-Made :
      Addressed path s₀ s d xs
      → Fresh s
      → is_reserved s.basename ≡ false
      → named s s.basename xs ≡ none
      → (s' : Files) × (create path s₀ ≡ some (true, s')) × Made b'G' s d xs s'
  unfolding create
  create-Made = make-Made b'G'
