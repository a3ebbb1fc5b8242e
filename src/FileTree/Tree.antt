-- ===== src/FileTree/Tree.antt =====
-- The nodes of lab1_hutchins.c in memory: `NODE`, the globals, `lookC` and `insert_child`. A `NODE *`
-- is a number; NULL is `none`. A result `none` is undefined behaviour: a read through NULL or of a
-- node that has been freed, or a text that does not fit its array.
use past_work.Base.{ℕ, zero, suc, Bool, Option, none, some, if◌then◌else◌}
use past_work.Base.Text.{CString, str_eq}
use past_work.Base.Chains.{write_at}

-- `struct node`. `Pptr` is set by whatever makes a node, and never to NULL.
pub record Node : Type 0 where
  pub nm : CString
  pub type : ℕ
  pub cptr : Option ℕ
  pub sptr : Option ℕ
  pub pptr : ℕ

-- The globals and the memory; `next` is the node that `malloc` gives next.
pub record Files : Type 0 where
  pub nodes : ℕ → Node
  pub live : ℕ → Bool
  pub next : ℕ
  pub root : ℕ
  pub cwd : ℕ
  pub dirname : CString
  pub basename : CString

infixl 5 ◌>>=◌
abbrev pub ◌>>=◌ {ℓ κ} : {A : Type ℓ} {B : Type κ} → Option A → (A → Option B) → Option B
none >>= f = none
some a >>= f = f a

-- `*p`
abbrev pub node : Files → ℕ → Option Node
node s p = if s.live p then some (s.nodes p) else none

-- An assignment to fields of `*p`.
abbrev pub write : Files → ℕ → (Node → Node) → Option Files
write s p f = do r ← node s p; some (record s { nodes = write_at s.nodes p (f r) })

-- The loop of `lookC` over the siblings, of which there are at most as many as nodes.
unfoldable pub look_from : ℕ → Files → CString → Option ℕ → Option (Option ℕ)
look_from k s name none = some none
look_from zero s name (some p) = none
look_from (suc k) s name (some p) = do
  r ← node s p
  let rest = look_from k s name r.sptr
  if str_eq r.nm name then some (some p) else rest

-- `lookC`
unfoldable pub look_c : Files → ℕ → CString → Option (Option ℕ)
unfolding look_from
look_c s d name = do r ← node s d; look_from s.next s name r.cptr

-- `while (chief->Sptr) chief = chief->Sptr;`
unfoldable pub last_from : ℕ → Files → ℕ → Option ℕ
last_from zero s p = none
last_from (suc k) s p = do r ← node s p; elim r.sptr [ none ↦ some p | some q ↦ last_from k s q ]

-- `insert_child`
unfoldable pub insert_child : Files → (parent child : ℕ) → Option Files
unfolding last_from
insert_child s parent child = do
  r ← node s parent
  linked ← elim r.cptr [
    | none ↦ write s parent (λ r. record r { cptr = some child })
    | some chief ↦ (do
      last ← last_from s.next s chief
      write s last (λ r. record r { sptr = some child }))
  ]
  write linked child (λ r. record r { pptr = parent; cptr = none; sptr = none })
