-- ===== src/Shell/MainLoop.antt =====
-- `main` of tsh.c: the options, and the loop that reads command lines and evaluates them.
use past_work.Base.{ℕ, Bool, true, false, Option, none, some, List, [], ◌∷◌, ◌==◌, if◌then◌else◌}
use past_work.Base.Text.{CString, codes}
use past_work.Shell.Jobs.{Sig, prompt, usage, app_error, Shell, print, init_jobs}
use past_work.Shell.Signals.{Caught, handle, goes, quits}
use past_work.Shell.Commands.{eval}

-- What the options say: the help text and the exit behind it, or whether the shell is verbose and
-- whether it prints a prompt.
pub data Options : Type 0 where
  usage_exit : (verbose : Bool) → Options
  options : (verbose emit_prompt : Bool) → Options

-- The loop over the letters that `getopt` returns; any other letter than these ends it.
unfoldable pub read_options : (verbose emit_prompt : Bool) → List ℕ → Options
read_options verbose emit_prompt [] = options verbose emit_prompt
read_options verbose emit_prompt (alpha ∷ letters) =
    let after_y = read_options true emit_prompt letters in
    let after_p = read_options verbose false letters in
    if alpha == b'h'
    then usage_exit verbose
    else if alpha == b'y'
    then after_y
    else if alpha == b'p'
    then after_p
    else options verbose emit_prompt

-- What happens while the shell waits for a line. A line is what `fgets` gives, which has fewer than
-- MAXLINE characters. It comes with what the kernel does while it is
-- evaluated: the PID of a child, if `fork` gives one, and the signals that `waitfg` meets.
pub data Input : Type 0 where
  whole_line : (forked : Option ℕ) (signals : List Caught) (cmdline : CString) → Input
  unfinished_line : CString → Input
  end_of_file : Input
  read_error : Input
  caught : Caught → Input

-- Where the shell stands once these inputs are used up: it waits for a line, it has ended, it sleeps
-- in `waitfg`, or it has written behind the end of `argv`.
pub data Session : Type 0 where
  at_prompt : Shell → Session
  ended : ℕ → Shell → Session
  sleeps : Session
  overflow : Session

abbrev pub ask : Bool → Shell → Shell
ask emit_prompt s = if emit_prompt then print prompt s else s

module _ (accepts : ℕ → Sig → Bool) (emit_prompt : Bool) where
  -- The loop of `main`, from a read on. The end of the file is looked for behind the line that has
  -- been read: a last line without a newline is not evaluated.
  unfoldable pub main_loop : List Input → Shell → Session
  main_loop [] s = at_prompt s
  main_loop (whole_line forked signals cmdline ∷ inputs) s =
      elim (eval accepts signals forked cmdline s) [
        | none ↦ overflow
        | some none ↦ sleeps
        | some (some (quits code s')) ↦ ended code s'
        | some (some (goes _ s')) ↦ main_loop inputs (ask emit_prompt s')
      ]
  main_loop (unfinished_line cmdline ∷ inputs) s = ended 0 s
  main_loop (end_of_file ∷ inputs) s = ended 0 s
  main_loop (read_error ∷ inputs) s = ended 1 (print (app_error (codes "fgets error")) s)
  main_loop (caught sig ∷ inputs) s = elim (handle accepts sig s) [
    | quits code s' ↦ ended code s'
    | goes _ s' ↦ main_loop inputs s'
  ]

abbrev pub initial_shell : Bool → Shell
initial_shell verbose = record { jobs = init_jobs; next_jid = 1; verbose = verbose; out = [] }

-- `main`
unfoldable pub main : (ℕ → Sig → Bool) → (letters : List ℕ) → List Input → Session
unfolding read_options main_loop
main accepts letters inputs = elim (read_options false true letters) [
  | usage_exit verbose ↦ ended 1 (print usage (initial_shell verbose))
  | options verbose emit_prompt ↦
      main_loop accepts emit_prompt inputs (ask emit_prompt (initial_shell verbose))
]
