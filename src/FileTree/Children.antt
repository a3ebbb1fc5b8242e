-- ===== src/FileTree/Children.antt =====
-- The children of a directory of lab1_hutchins.c as a list: `lookC` searches it and `insert_child`
-- appends to it.
use past_work.Base.{
  ℕ, zero, suc, ◌+◌, ◌≤◌, ◌≡◌, ◌≢◌, refl, ◌∙◌, inl, inr, true, false, Option, none, some, List, [],
  ◌∷◌, ◌++◌, ◌==◌, if◌then◌else◌, arith, length, last?, has, Distinct, length-append, last?-cons,
  Distinct-snoc, Bool-cases, has-append,
}
use past_work.Base.Text.{CString, str_eq}
use past_work.Base.Chains.{Chain, Chain-snoc, has-last?, ne_of_has, write_at}
use past_work.FileTree.Tree.{Node, Files, ◌>>=◌, look_from, look_c, last_from, insert_child}

-- The node `d` is in memory, and so are its children, which are these, each once.
pub record Children (s : Files) (d : ℕ) (xs : List ℕ) : Type 0 where
  pub chain : Chain (λ i. (s.nodes i).sptr) (s.nodes d).cptr xs
  pub home : s.live d ≡ true
  pub alive : (i : ℕ) → has i xs ≡ true → s.live i ≡ true
  pub outside : has d xs ≡ false
  pub distinct : Distinct xs
  pub walked : length xs ≤ s.next

-- The first of some nodes with a name.
unfoldable pub named : Files → CString → List ℕ → Option ℕ
named s name [] = none
named s name (x ∷ xs) =
    let rest = named s name xs in if str_eq (s.nodes x).nm name then some x else rest

look_from-named :
    (k : ℕ) (s : Files) (name : CString) (p : Option ℕ) (xs : List ℕ)
    → Chain (λ i. (s.nodes i).sptr) p xs
    → ((i : ℕ) → has i xs ≡ true → s.live i ≡ true)
    → length xs ≤ k
    → look_from k s name p ≡ some (named s name xs)
unfolding look_from named
look_from-named k s name p [] c a fuel = rw c refl
look_from-named zero s name p (x ∷ xs) c a fuel = absurd (omega arith)
look_from-named (suc k) s name p (x ∷ xs) (e, c) a fuel =
    let here : s.live x ≡ true = a x (ground arith) in
    let rest : look_from k s name (s.nodes x).sptr ≡ some (named s name xs) =
      look_from-named k s name (s.nodes x).sptr xs c (λ i h. a i (ground arith)) (omega arith) in
    rw (e, here, ◌>>=◌) (ground (arith, rest))

-- `lookC` gives the first child with the name, or NULL.
pub look_c-named :
    (s : Files) (d : ℕ) (name : CString) (xs : List ℕ)
    → Children s d xs
    → look_c s d name ≡ some (named s name xs)
unfolding look_c
look_c-named s d name xs h =
    rw (h.home, ◌>>=◌) (look_from-named s.next s name (s.nodes d).cptr xs h.chain h.alive h.walked)

last_from-last? :
    (k : ℕ) (s : Files) (x : ℕ) (xs : List ℕ)
    → Chain (λ i. (s.nodes i).sptr) (s.nodes x).sptr xs
    → ((i : ℕ) → has i (x ∷ xs) ≡ true → s.live i ≡ true)
    → length (x ∷ xs) ≤ k
    → last_from k s x ≡ last? (x ∷ xs)
unfolding last_from
last_from-last? zero s x xs c a fuel = absurd (omega arith)
last_from-last? (suc k) s x [] c a fuel =
    let here : s.live x ≡ true = a x (ground arith) in rw (here, ◌>>=◌) (rw c refl)
last_from-last? (suc k) s x (y ∷ xs) (e, c) a fuel =
    let here : s.live x ≡ true = a x (ground arith) in
    rw (here, ◌>>=◌) (rw e (last_from-last? k s y xs c (λ i h. a i (ground arith)) (omega arith)))

-- A node as `insert_child` leaves it.
abbrev adopted : ℕ → Node → Node
adopted parent r = record r { pptr = parent; cptr = none; sptr = none }

-- The state after one node has been hung on another and then adopted.
abbrev grown : Files → (parent at child : ℕ) → Node → Files
grown s parent at child r =
    let nodes = write_at s.nodes at r in
    record s { nodes = write_at nodes child (adopted parent (nodes child)) }

insert_child-nil :
    (s : Files) (d p : ℕ)
    → s.live d ≡ true
    → s.live p ≡ true
    → (s.nodes d).cptr ≡ none
    → insert_child s d p ≡ some (grown s d d p (record (s.nodes d) { cptr = some p }))
unfolding insert_child
insert_child-nil s d p h k e = rw (h, ◌>>=◌) (rw (e, h, ◌>>=◌) (rw (k, ◌>>=◌) refl))

insert_child-cons :
    (s : Files) (d p x l : ℕ)
    → s.live d ≡ true
    → s.live p ≡ true
    → s.live l ≡ true
    → (s.nodes d).cptr ≡ some x
    → last_from s.next s x ≡ some l
    → insert_child s d p ≡ some (grown s d l p (record (s.nodes l) { sptr = some p }))
unfolding insert_child
insert_child-cons s d p x l h k m e w =
    rw (h, ◌>>=◌) (rw (e, w, ◌>>=◌) (rw (m, ◌>>=◌) (rw (k, ◌>>=◌) refl)))

-- What `insert_child` does to a directory: the node comes last, and of the other nodes only links
-- have changed.
pub record Inserted (s : Files) (d : ℕ) (xs : List ℕ) (p : ℕ) (s' : Files) : Type 0 where
  pub children : Children s' d (xs ++ p ∷ [])
  pub parent : (s'.nodes p).pptr ≡ d
  pub empty : (s'.nodes p).cptr ≡ none
  pub names : (i : ℕ) → ((s'.nodes i).nm ≡ (s.nodes i).nm) × ((s'.nodes i).type ≡ (s.nodes i).type)
  pub globals : s' ≡ record s { nodes = s'.nodes }

has_d : (d p : ℕ) (xs : List ℕ) → has d xs ≡ false → p ≢ d → has d (xs ++ p ∷ []) ≡ false
has_d d p [] h ne = ground arith
has_d d p (x ∷ xs) h ne = ground (arith, has_d d p xs)

alive_snoc :
    (s : Files) (p : ℕ) (xs : List ℕ)
    → ((i : ℕ) → has i xs ≡ true → s.live i ≡ true)
    → s.live p ≡ true
    → (i : ℕ) → has i (xs ++ p ∷ []) ≡ true
    → s.live i ≡ true
alive_snoc s p xs a k i h = elim (Bool-cases (i == p)) [
  | inl same ↦ let e : i ≡ p = ground arith in rw e k
  | inr other ↦ a i (ground (arith, has-append i xs (p ∷ [])))
]

pub insert_child-Inserted :
    (s : Files) (d : ℕ) (xs : List ℕ) (p : ℕ)
    → Children s d xs
    → has p xs ≡ false
    → s.live p ≡ true
    → p ≢ d
    → length xs + 1 ≤ s.next
    → (s' : Files) × (insert_child s d p ≡ some s') × Inserted s d xs p s'
insert_child-Inserted s d [] p h out k ne room = (
  _,
  insert_child-nil s d p h.home k h.chain,
  record {
    children = record {
      chain = (ground arith, ground arith);
      home = h.home;
      alive = alive_snoc s p [] h.alive k;
      outside = has_d d p [] h.outside ne;
      distinct = (refl, tt);
      walked = room;
    };
    parent = ground arith;
    empty = ground arith;
    names = λ i. (ground arith, ground arith);
    globals = refl;
  },
)
insert_child-Inserted s d (x ∷ xs) p h out k ne room =
    let (l, e) = last?-cons x xs in
    let inside = has-last? (x ∷ xs) l e in
    let apart : p ≢ l = ne_of_has (x ∷ xs) out inside in
    let away : d ≢ l = ne_of_has (x ∷ xs) h.outside inside in
    (
      _,
      insert_child-cons s d p x l h.home k (h.alive l inside) h.chain.0
          (last_from-last? s.next s x xs h.chain.1 h.alive h.walked ∙ e),
      record {
        children = record {
          chain =
              let same : ((grown s d l p (record (s.nodes l) { sptr = some p })).nodes d).cptr
                  ≡ (s.nodes d).cptr =
                ground arith in
              rw same (
                Chain-snoc (s.nodes d).cptr x xs l p h.chain h.distinct e (ground arith)
                  (ground arith)
                  (λ i k z. let other : p ≢ i = ne_of_has (x ∷ xs) out k in ground arith));
          home = h.home;
          alive = alive_snoc s p (x ∷ xs) h.alive k;
          outside = has_d d p (x ∷ xs) h.outside ne;
          distinct = Distinct-snoc (x ∷ xs) p h.distinct out;
          walked = omega (arith, length-append (x ∷ xs) (p ∷ []));
        };
        parent = ground arith;
        empty = ground arith;
        names = λ i. (ground arith, ground arith);
        globals = refl;
      },
    )
