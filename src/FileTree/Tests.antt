-- ===== src/FileTree/Tests.antt =====
-- Runs of lab1_hutchins.c on small inputs.
use past_work.Base.{ℕ, ◌≡◌, ◌∷◌, [], refl, Option, some, none, true, false, arith, ltb}
use past_work.Base.Text.{CString, codes}
use past_work.Base.Chains.{write_at}
use past_work.FileTree.Tree.{Node, Files, look_from, look_c, last_from, insert_child}
use past_work.FileTree.Paths.{
  skip_slashes, from_slash, before_slash, base_name, dir_name, z, tokenize_from, tokenize, walk,
  node_p,
}
use past_work.FileTree.Commands.{
  look_up, make, mkdir, create, rmdir, rm, cd, entries_from, ls, climb, pwd, initialize,
  find_command, cmd,
}
use past_work.FileTree.Children.{Children, named}
use past_work.FileTree.Making.{Fresh, Addressed, Made, mkdir-Made, create-Made}
use past_work.FileTree.Removing.{rm-Children, rmdir-Children}

program : Unit {0}
unfolding look_from look_c last_from insert_child skip_slashes from_slash before_slash base_name
    dir_name z tokenize_from tokenize walk node_p look_up make mkdir create rmdir rm cd entries_from
    ls climb pwd find_command named
program = tt

abbrev named_state : Files → CString → CString → Files
named_state s dir base = record s { dirname = dir; basename = base }

initial-Children : Children (named_state initialize (codes ".") (codes "a")) 0 []
initial-Children = record {
  chain = refl;
  home = refl;
  alive = λ i h. absurd (cc);
  outside = refl;
  distinct = tt;
  walked = omega arith;
}

initial-Addressed :
    Addressed (codes "a") initialize (named_state initialize (codes ".") (codes "a")) 0 []
unfolding program
initial-Addressed = record { split = refl; directory = refl; children = initial-Children }

initial-Fresh : Fresh (named_state initialize (codes ".") (codes "a"))
initial-Fresh i h = ground arith

a_missing : named (named_state initialize (codes ".") (codes "a")) (codes "a") [] ≡ none
unfolding program
a_missing = refl

mkdir-Made_example :
    (s' : Files) × (mkdir (codes "a") initialize ≡ some (true, s'))
    × Made b'Y' (named_state initialize (codes ".") (codes "a")) 0 [] s'
mkdir-Made_example =
    mkdir-Made (codes "a") initialize (named_state initialize (codes ".") (codes "a")) 0 []
      initial-Addressed initial-Fresh refl a_missing

create-Made_example :
    (s' : Files) × (create (codes "a") initialize ≡ some (true, s'))
    × Made b'G' (named_state initialize (codes ".") (codes "a")) 0 [] s'
create-Made_example =
    create-Made (codes "a") initialize (named_state initialize (codes ".") (codes "a")) 0 []
      initial-Addressed initial-Fresh refl a_missing

-- The root with a directory `a`, a file `b` and a directory `c`.
abbrev entry : CString → ℕ → Option ℕ → Node
entry name type sibling = record { nm = name; type = type; cptr = none; sptr = sibling; pptr = 0 }

abbrev three : Files
three = record initialize {
  nodes =
      write_at
        (write_at
          (write_at (write_at initialize.nodes 0 (record (initialize.nodes 0) { cptr = some 1 })) 1
            (entry (codes "a") b'Y' (some 2)))
          2 (entry (codes "b") b'G' (some 3)))
        3 (entry (codes "c") b'Y' none);
  live = λ p. ltb p 4;
  next = 4;
}

three-Children : (dir base : CString) → Children (named_state three dir base) 0 (1 ∷ 2 ∷ 3 ∷ [])
three-Children dir base = record {
  chain = (refl, (refl, (refl, refl)));
  home = refl;
  alive = λ i h. ground arith;
  outside = refl;
  distinct = (refl, (refl, (refl, tt)));
  walked = omega arith;
}

b-Addressed :
    Addressed (codes "/b") three (named_state three (codes "/") (codes "b")) 0 (1 ∷ 2 ∷ 3 ∷ [])
unfolding program
b-Addressed = record {
  split = refl;
  directory = refl;
  children = three-Children (codes "/") (codes "b");
}

b_found : named (named_state three (codes "/") (codes "b")) (codes "b") (1 ∷ 2 ∷ 3 ∷ []) ≡ some 2
unfolding program
b_found = refl

rm-Children_example :
    (s' : Files) × (rm (codes "/b") three ≡ some (true, s'))
    × Children s' 0 []
    × (s'.live 2 ≡ false)
rm-Children_example =
    rm-Children (codes "/b") three (named_state three (codes "/") (codes "b")) 0 (1 ∷ []) 2 (3 ∷ [])
      b-Addressed b_found refl refl

c-Addressed :
    Addressed (codes "c") three (named_state three (codes ".") (codes "c")) 0 (1 ∷ 2 ∷ 3 ∷ [])
unfolding program
c-Addressed = record {
  split = refl;
  directory = refl;
  children = three-Children (codes ".") (codes "c");
}

c_found : named (named_state three (codes ".") (codes "c")) (codes "c") (1 ∷ 2 ∷ 3 ∷ []) ≡ some 3
unfolding program
c_found = refl

rmdir-Children_example :
    (s' : Files) × (rmdir (codes "c") three ≡ some (true, s'))
    × Children s' 0 []
    × (s'.live 3 ≡ false)
rmdir-Children_example =
    rmdir-Children (codes "c") three (named_state three (codes ".") (codes "c")) 0 (1 ∷ 2 ∷ []) 3 []
      c-Addressed refl c_found refl refl

-- The root is of type `D`, so that `cd` does not go there.
cd_root : cd (codes "/") three ≡ some (false, three)
unfolding program
cd_root = refl

-- In a directory that is not there `mkdir` reads through NULL.
mkdir_nowhere : mkdir (codes "/x/y") three ≡ none
unfolding program
mkdir_nowhere = refl

-- `quit` is behind the end of the table of functions, which has eight.
quit_index : find_command (codes "quit") cmd 0 ≡ some 9
unfolding program
quit_index = refl
