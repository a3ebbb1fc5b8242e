-- ===== src/FileTree/Commands.antt =====
-- The commands of lab1_hutchins.c. A command gives back what it returns, with `true` for 0 and `false`
-- for -1, and the new state. The conversion `%a` in `printf` and `sscanf` is read as `%s`.
use past_work.Base.{
  ℕ, zero, suc, Bool, true, false, not, ◌||◌, Option, none, some, List, [], ◌∷◌, ◌++◌, ◌==◌,
  if◌then◌else◌,
}
use past_work.Base.Text.{CString, codes, str_eq}
use past_work.Base.Chains.{write_at}
use past_work.FileTree.Tree.{Node, Files, ◌>>=◌, node, write, look_c, insert_child}
use past_work.FileTree.Paths.{z, node_p}

abbrev pub Result : Type 0
Result = Option (Bool × Files)

-- A base name that no node may have.
abbrev pub is_reserved : CString → Bool
is_reserved name = str_eq name (codes "/") || str_eq name (codes ".") || str_eq name (codes "..")

-- `sT = nodeP(dirname)`, which is read through at once, and the child of that name.
unfoldable pub look_up : Files → Option (ℕ × Option ℕ)
look_up s = do
  found ← node_p s.dirname s
  elim found [ none ↦ none | some d ↦ (do chief ← look_c s d s.basename; some (d, chief)) ]

-- `malloc` and the fields that are set before `insert_child`; the others hold anything.
abbrev pub new_node : ℕ → Files → ℕ × Files
new_node type s =
    let fresh : Node = record {
      nm = s.basename;
      type = type;
      cptr = none;
      sptr = none;
      pptr = 0;
    } in
    (
      s.next,
      record s {
        nodes = write_at s.nodes s.next fresh;
        live = write_at s.live s.next true;
        next = suc s.next;
      },
    )

-- The common text of `mkdir` and `create`, by the type of the node.
unfoldable pub make : ℕ → CString → Files → Result
make type path s₀ = do
  s ← z path s₀
  if is_reserved s.basename then some (false, s) else do
    (d, chief) ← look_up s
    elim chief [
      | some _ ↦ some (false, s)
      | none ↦ (do let (p, s₁) = new_node type s; s₂ ← insert_child s₁ d p; some (true, s₂))
    ]

unfoldable pub mkdir : CString → Files → Result
unfolding make
mkdir path s = make b'Y' path s

unfoldable pub create : CString → Files → Result
unfolding make
create path s = make b'G' path s

-- `free`
abbrev pub free : Files → ℕ → Files
free s p = record s { live = write_at s.live p false }

unfoldable pub rmdir : CString → Files → Result
rmdir path s₀ = do
  s ← z path s₀
  if is_reserved s.basename then some (false, s) else do
    (d, chief) ← look_up s
    elim chief [
      | none ↦ some (false, s)
      | some p ↦ (do
        r ← node s p
        elim r.cptr [
          | some _ ↦ some (false, s)
          | none ↦ (do
            s' ← write s r.pptr (λ u. record u { cptr = r.sptr })
            some (true, free s' p))
        ])
    ]

unfoldable pub rm : CString → Files → Result
rm path s₀ = do
  s ← z path s₀
  (d, chief) ← look_up s
  elim chief [
    | none ↦ some (false, s)
    | some p ↦ (do
      r ← node s p
      if not (r.type == b'G')
          then some (false, s)
          else do s' ← write s r.pptr (λ u. record u { cptr = none }); some (true, free s' p))
  ]

-- `cd` does not call `z`, so that `nodeP` reads the directory name of an earlier command.
unfoldable pub cd : CString → Files → Result
cd path s = do
  found ← node_p path s
  chief ← found
  r ← node s chief
  some (if r.type == b'Y' then (true, record s { cwd = chief }) else (false, s))

-- The loop of `ls`: the type and the name of each entry.
unfoldable pub entries_from : ℕ → Files → Option ℕ → Option (List (ℕ × CString))
entries_from k s none = some []
entries_from zero s (some p) = none
entries_from (suc k) s (some p) = do
  r ← node s p
  rest ← entries_from k s r.sptr
  some ((r.type, r.nm) ∷ rest)

unfoldable pub ls : CString → Files → Option (List (ℕ × CString) × Files)
unfolding entries_from
ls path s₀ = do
  s ← z path s₀
  found ← node_p path s
  chief ← found
  r ← node s chief
  entries ← entries_from s.next s r.cptr
  some (entries, s)

-- `helperFunction`: the names from the root down to a node.
unfoldable pub climb : ℕ → Files → ℕ → Option CString
climb zero s p = none
climb (suc k) s p = do
  r ← node s p
  let above = climb k s r.pptr
  if p == s.root then some (codes "/") else do t ← above; some (t ++ r.nm ++ codes "/")

unfoldable pub pwd : Files → Option CString
unfolding climb
pwd s = climb s.next s s.cwd

-- `initialize`
abbrev pub initialize : Files
initialize = record {
  nodes = λ p. record { nm = codes "/"; type = b'D'; cptr = none; sptr = none; pptr = 0 };
  live = λ p. p == 0;
  next = 1;
  root = 0;
  cwd = 0;
  dirname = [];
  basename = [];
}

-- `find_commad`: the index of a command in `cmd`.
unfoldable pub find_command : CString → List CString → ℕ → Option ℕ
find_command name [] i = none
find_command name (c ∷ cs) i =
    let rest = find_command name cs (suc i) in if str_eq name c then some i else rest

abbrev pub cmd : List CString
cmd =
    codes "mkdir"
    ∷ codes "rmdir"
    ∷ codes "ls"
    ∷ codes "cd"
    ∷ codes "pwd"
    ∷ codes "create"
    ∷ codes "rm"
    ∷ codes "reload"
    ∷ codes "save"
    ∷ codes "quit"
    ∷ []
