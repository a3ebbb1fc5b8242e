-- ===== src/Shell/Signals.antt =====
-- The signal handlers of tsh.c and `waitfg`. What `waitpid` reports, and when a signal arrives, is
-- the kernel's choice and enters as an argument.
use past_work.Base.{ℕ, Bool, Option, none, some, List, [], ◌∷◌, ◌==◌, if◌then◌else◌, set}
use past_work.Shell.Jobs.{
  JobState, st, Sig, sigint, sigtstp, terminating, no_child, stopped_by_signal,
  terminated_by_signal, sent, Shell, print, delete_job, fg_pid, get_job_pid, job_at,
}

-- The status of a child: stopped, killed by a signal, exited, or none of these.
pub data Status : Type 0 where
  stopped signaled exited other : Status

-- A child that `waitpid` has to report, with its status.
abbrev pub Report : Type 0
Report = ℕ × Status

-- The outcome of a step: the shell goes on, or it has called `exit`.
pub data Step (A : Type 0) : Type 0 where
  goes : A → Shell → Step A
  quits : ℕ → Shell → Step A

-- The assignment `job->state = state`.
unfoldable pub set_state : ℕ → JobState → Shell → Shell
unfolding job_at
set_state i state s = record s { jobs = set s.jobs i (record (job_at s.jobs i) { state = state }) }

-- `sigchld_handler`: the reports that it leaves to be collected.
unfoldable pub sigchld_handler : List Report → Shell → Step (List Report)
sigchld_handler [] s = goes [] s
sigchld_handler ((pid, status) ∷ rest) s = elim (get_job_pid pid s.jobs) [
  | none ↦ goes rest (print (no_child pid) s)
  | some i ↦ elim status [
    | stopped ↦
        let s' = set_state i st s in
        sigchld_handler rest (print (stopped_by_signal (job_at s'.jobs i).mippy pid) s')
    | signaled ↦
        let s' = (delete_job pid s).1 in
        sigchld_handler rest (print (terminated_by_signal (job_at s'.jobs i).mippy pid) s')
    | exited ↦ sigchld_handler rest (delete_job pid s).1
    | other ↦ quits 1 s
  ]
]

-- `Kill(-pid, sig)`; the argument tells for which groups the kernel accepts the signal.
unfoldable pub kill : (ℕ → Sig → Bool) → ℕ → Sig → Shell → Step (Unit {0})
kill accepts pid sig s = if accepts pid sig then goes tt (print (sent sig pid) s) else quits 1 s

-- `sigint_handler` and `sigtstp_handler`, by the signal.
unfoldable pub forward_to_fg : (ℕ → Sig → Bool) → Sig → Shell → Step (Unit {0})
forward_to_fg accepts sig s =
    if fg_pid s.jobs == 0 then goes tt s else kill accepts (fg_pid s.jobs) sig s

-- A signal that the shell catches: some children have changed, or a key or `kill` has sent it one.
pub data Caught : Type 0 where
  child : List Report → Caught
  interrupt stop quit : Caught

-- What the handler of a signal does.
unfoldable pub handle : (ℕ → Sig → Bool) → Caught → Shell → Step (Unit {0})
handle accepts (child reports) s = elim (sigchld_handler reports s) [
  | goes _ s' ↦ goes tt s'
  | quits code s' ↦ quits code s'
]
handle accepts interrupt s = forward_to_fg accepts sigint s
handle accepts stop s = forward_to_fg accepts sigtstp s
handle accepts quit s = quits 1 (print terminating s)

-- `waitfg`: each `sigsuspend` sleeps until a signal has been handled. `none` means that the shell
-- still sleeps when the signals have run out.
unfoldable pub wait_fg : (ℕ → Sig → Bool) → ℕ → List Caught → Shell → Option (Step (Unit {0}))
wait_fg accepts pid [] s = if pid == fg_pid s.jobs then none else some (goes tt s)
wait_fg accepts pid (sig ∷ signals) s =
    let sleep : Option (Step (Unit {0})) = elim (handle accepts sig s) [
      | goes _ s' ↦ wait_fg accepts pid signals s'
      | quits code s' ↦ some (quits code s')
    ] in
    if pid == fg_pid s.jobs then sleep else some (goes tt s)
