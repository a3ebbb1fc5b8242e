-- ===== src/Shell/Commands.antt =====
-- `do_bgfg`, `builtin_cmd` and `eval` of tsh.c.
use past_work.Base.{
  ℕ, ◌+◌, ◌-◌, ◌*◌, Bool, true, false, ◌&&◌, ◌||◌, Option, none, some, List, [], ◌∷◌, ◌++◌, ◌==◌,
  leb, if◌then◌else◌,
}
use mathlib.Core.List.{reverse}
use past_work.Base.Text.{CString, codes, str_eq}
use past_work.Shell.Jobs.{
  Job, fg, bg, Sig, sigcont, Output, started, requires_argument, must_be_pid_or_jid, no_such_job,
  such_process, resumed, Shell, print, add_job, get_job_pid, get_job_jid, pid2jid, job_l, job_at,
}
use past_work.Shell.Signals.{Caught, Step, goes, quits, set_state, kill, wait_fg}
use past_work.Shell.Parse.{end_with_space, parse_line}

-- `isdigit`
unfoldable pub is_digit : ℕ → Bool
is_digit c = leb b'0' c && leb c b'9'

-- `atoi` on a text that begins with a digit: the value of its digits, which has to fit an `int`: it is
-- not defined in C otherwise.
unfoldable pub atoi_from : ℕ → CString → ℕ
unfolding is_digit
atoi_from n [] = n
atoi_from n (c ∷ s) = let more = atoi_from (n * 10 + (c - b'0')) s in if is_digit c then more else n

abbrev pub first_is_digit : CString → Bool
unfolding is_digit
first_is_digit [] = false
first_is_digit (c ∷ _) = is_digit c

-- How `do_bgfg` reads its argument: the index of the job, or the message.
unfoldable pub find_job : (name arg : CString) → List Job → Option ℕ × Output
unfolding atoi_from get_job_pid get_job_jid
find_job name [] js = (none, must_be_pid_or_jid name)
find_job name (c ∷ s) js =
    if c == b'%'
    then (if first_is_digit s
        then (get_job_jid (atoi_from 0 s) js, no_such_job (c ∷ s))
        else (none, must_be_pid_or_jid name))
    else (if is_digit c
        then (get_job_pid (atoi_from 0 (c ∷ s)) js, such_process (c ∷ s))
        else (none, must_be_pid_or_jid name))

module _ (accepts : ℕ → Sig → Bool) (signals : List Caught) where
  -- The end of `do_bgfg`, for the job that it has found.
  unfoldable pub resume : CString → ℕ → Shell → Option (Step (Unit {0}))
  resume name i s =
      let j = job_at s.jobs i in
      elim (kill accepts j.pid sigcont s) [
        | quits code s' ↦ some (quits code s')
        | goes _ s' ↦
            if str_eq name (codes "bg")
            then some (goes tt (print (resumed j.mippy j.pid j.cmdline) (set_state i bg s')))
            else wait_fg accepts j.pid signals (set_state i fg s')
      ]

  -- `do_bgfg`
  unfoldable pub do_bgfg : List CString → Shell → Option (Step (Unit {0}))
  do_bgfg [] s = some (goes tt s)
  do_bgfg (name ∷ []) s = some (goes tt (print (requires_argument name) s))
  do_bgfg (name ∷ arg ∷ _) s =
      let (found, message) = find_job name arg s.jobs in
      elim found [ none ↦ some (goes tt (print message s)) | some i ↦ resume name i s ]

  -- `builtin_cmd`: whether the command was a built-in one.
  unfoldable pub builtin_cmd : List CString → Shell → Bool × Option (Step (Unit {0}))
  builtin_cmd [] s = (false, some (goes tt s))
  builtin_cmd (name ∷ args) s =
      if str_eq name (codes "jobs")
      then (true, some (goes tt (record s { out = reverse (job_l s.jobs) ++ s.out })))
      else if str_eq name (codes "quit")
      then (true, some (quits 0 s))
      else if str_eq name (codes "&")
      then (true, some (goes tt s))
      else if str_eq name (codes "bg") || str_eq name (codes "fg")
      then (true, do_bgfg (name ∷ args) s)
      else (false, some (goes tt s))

  -- The end of `eval` in the shell, once `fork` has given it the PID of the child: `none` is a
  -- call of `fork` that fails.
  unfoldable pub launch : Bool → CString → Option ℕ → Shell → Option (Step (Unit {0}))
  launch background cmdline none s = some (quits 1 s)
  launch background cmdline (some pid) s =
      let s' = (add_job pid (if background then bg else fg) cmdline s).1 in
      if background
      then some (goes tt (print (started (pid2jid pid s'.jobs) pid (end_with_space cmdline)) s'))
      else wait_fg accepts pid signals s'

  -- `eval`, in the shell. The outer `none` is a write behind the end of `argv`, the inner one a
  -- shell that still waits for the job in the foreground.
  unfoldable pub eval : Option ℕ → CString → Shell → Option (Option (Step (Unit {0})))
  eval forked cmdline s = elim (parse_line (end_with_space cmdline)) [
    | none ↦ none
    | some (background, argv) ↦ elim argv [
      | [] ↦ some (some (goes tt s))
      | name ∷ args ↦
          let (builtin, result) = builtin_cmd (name ∷ args) s in
          some (if builtin then result else launch background cmdline forked s)
    ]
  ]
