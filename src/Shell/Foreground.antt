-- ===== src/Shell/Foreground.antt =====
-- At most one job of tsh.c is in the foreground, and none when the shell reads a command line.
use past_work.Base.{
  ℕ, zero, suc, ◌≡◌, refl, ◌⊎◌, inl, inr, true, false, some, List, [], ◌∷◌, ◌==◌, arith,
  Option-cases, Bool-cases, All, set,
}
use past_work.Base.Text.{CString}
use past_work.Shell.Jobs.{
  Job, JobState, st, is_fg, job, cleared, Shell, print, stopped_by_signal, terminated_by_signal,
  fill_slot, add_job, clear_slot, delete_job, fg_pid, get_job_pid, job_at,
}
use past_work.Shell.Signals.{
  stopped, signaled, exited, other, Report, Step, goes, quits, set_state, sigchld_handler,
}

-- No job is in the foreground; none is but those with a PID.
abbrev pub NoFg : List Job → Type 0
NoFg = All (λ j. is_fg j.state ≡ false)

abbrev pub OnlyFg : ℕ → List Job → Type 0
OnlyFg pid = All (λ j. is_fg j.state ≡ true → j.pid ≡ pid)

pub OnlyFg-of_NoFg : (pid : ℕ) (js : List Job) → NoFg js → OnlyFg pid js
OnlyFg-of_NoFg pid [] h = tt
OnlyFg-of_NoFg pid (j ∷ js) h = ((λ f. absurd (cc (h.0, f))), OnlyFg-of_NoFg pid js h.1)

add_job-jobs :
    (pid : ℕ) (state : JobState) (cmdline : CString) (s : Shell)
    → ((add_job pid state cmdline s).1.jobs ≡ s.jobs)
      ⊎ ((js : List Job) × (fill_slot (job pid s.next_jid state cmdline) s.jobs ≡ some js)
          × ((add_job pid state cmdline s).1.jobs ≡ js))
unfolding add_job
add_job-jobs pid state cmdline s =
    elim (Option-cases (fill_slot (job pid s.next_jid state cmdline) s.jobs)) [
      | inl full ↦ inl (ground arith)
      | inr (js, slot) ↦ elim (Bool-cases (pid == 0)) [
        | inl z ↦ inl (ground arith)
        | inr n ↦ inr (js, slot, ground arith)
      ]
    ]

delete_job-jobs :
    (pid : ℕ) (s : Shell)
    → ((delete_job pid s).1.jobs ≡ s.jobs)
      ⊎ ((js : List Job) × (clear_slot pid s.jobs ≡ some js) × ((delete_job pid s).1.jobs ≡ js))
unfolding delete_job
delete_job-jobs pid s = elim (Option-cases (clear_slot pid s.jobs)) [
  | inl gone ↦ inl (ground arith)
  | inr (js, slot) ↦ elim (Bool-cases (pid == 0)) [
    | inl z ↦ inl (ground arith)
    | inr n ↦ inr (js, slot, ground arith)
  ]
]

module _ (P : Job → Type 0) where
  All-fill_slot :
      (new : Job) (js : List Job) {js' : List Job}
      → fill_slot new js ≡ some js'
      → P new
      → All P js
      → All P js'
  unfolding fill_slot
  All-fill_slot new [] e k h = absurd (cc)
  All-fill_slot new (j ∷ js) {js'} e k h = elim (Bool-cases (j.pid == 0)) [
    | inl free ↦ let made : js' ≡ new ∷ js = ground arith in rw made (k, h.1)
    | inr busy ↦ elim (Option-cases (fill_slot new js)) [
      | inl full ↦ absurd (ground arith)
      | inr (js'', slot) ↦
          let made : js' ≡ j ∷ js'' = ground arith in rw made (h.0, All-fill_slot new js slot k h.1)
    ]
  ]

  All-clear_slot :
      (pid : ℕ) (js : List Job) {js' : List Job}
      → clear_slot pid js ≡ some js'
      → P cleared
      → All P js
      → All P js'
  unfolding clear_slot
  All-clear_slot pid [] e k h = absurd (cc)
  All-clear_slot pid (j ∷ js) {js'} e k h = elim (Bool-cases (j.pid == pid)) [
    | inl here ↦ let made : js' ≡ cleared ∷ js = ground arith in rw made (k, h.1)
    | inr there ↦ elim (Option-cases (clear_slot pid js)) [
      | inl full ↦ absurd (ground arith)
      | inr (js'', slot) ↦
          let made : js' ≡ j ∷ js'' = ground arith in
          rw made (h.0, All-clear_slot pid js slot k h.1)
    ]
  ]

  pub All-set : (js : List Job) (i : ℕ) (v : Job) → P v → All P js → All P (set js i v)
  All-set [] i v k h = tt
  All-set (j ∷ js) zero v k h = (k, h.1)
  All-set (j ∷ js) (suc i) v k h = (h.0, All-set js i v k h.1)

  pub All-add_job :
      (pid : ℕ) (state : JobState) (cmdline : CString) (s : Shell)
      → P (job pid s.next_jid state cmdline)
      → All P s.jobs
      → All P (add_job pid state cmdline s).1.jobs
  All-add_job pid state cmdline s k h = elim (add_job-jobs pid state cmdline s) [
    | inl same ↦ rw same h
    | inr (js, slot, e) ↦ rw e (All-fill_slot (job pid s.next_jid state cmdline) s.jobs slot k h)
  ]

  All-delete_job :
      (pid : ℕ) (s : Shell) → P cleared → All P s.jobs → All P (delete_job pid s).1.jobs
  All-delete_job pid s k h = elim (delete_job-jobs pid s) [
    | inl same ↦ rw same h
    | inr (js, slot, e) ↦ rw e (All-clear_slot pid s.jobs slot k h)
  ]

-- When the process waited for is not the foreground one, nothing is in the foreground.
pub NoFg-of_OnlyFg :
    (pid : ℕ) (js : List Job) → OnlyFg pid js → (pid == fg_pid js) ≡ false → NoFg js
unfolding fg_pid
NoFg-of_OnlyFg pid [] h e = tt
NoFg-of_OnlyFg pid (j ∷ js) h e = elim (Bool-cases (is_fg j.state)) [
  | inl f ↦ absurd (let same = h.0 f in ground arith)
  | inr n ↦ (n, NoFg-of_OnlyFg pid js h.1 (ground arith))
]

pub Step-cases :
    {A : Type 0} (r : Step A)
    → ((a : A) × (s : Shell) × (r ≡ goes a s)) ⊎ ((code : ℕ) × (s : Shell) × (r ≡ quits code s))
Step-cases (goes a s) = inl (a, s, refl)
Step-cases (quits code s) = inr (code, s, refl)

module _ (pid : ℕ) where
  OnlyFg-set_state :
      (i : ℕ) (state : JobState) (s : Shell)
      → is_fg state ≡ false
      → OnlyFg pid s.jobs
      → OnlyFg pid (set_state i state s).jobs
  unfolding set_state
  OnlyFg-set_state i state s k h =
      All-set (λ j. is_fg j.state ≡ true → j.pid ≡ pid) s.jobs i _ (λ f. absurd (cc (k, f))) h

  OnlyFg-delete_job : (q : ℕ) (s : Shell) → OnlyFg pid s.jobs → OnlyFg pid (delete_job q s).1.jobs
  OnlyFg-delete_job q s h =
      All-delete_job (λ j. is_fg j.state ≡ true → j.pid ≡ pid) q s (λ f. absurd (cc f)) h

  -- The handler of SIGCHLD puts no job in the foreground.
  pub sigchld_handler-OnlyFg :
      (reports : List Report) (s : Shell) {rest : List Report} {s' : Shell}
      → sigchld_handler reports s ≡ goes rest s'
      → OnlyFg pid s.jobs
      → OnlyFg pid s'.jobs
  unfolding sigchld_handler
  sigchld_handler-OnlyFg [] s {s'} e h = let same : s' ≡ s = ground arith in rw same h
  sigchld_handler-OnlyFg ((q, stopped) ∷ reports) s {rest} {s'} e h =
      elim (Option-cases (get_job_pid q s.jobs)) [
        | inl out ↦ let same : s'.jobs ≡ s.jobs = ground arith in rw same h
        | inr (i, found) ↦
            let t : Shell =
              print (stopped_by_signal (job_at (set_state i st s).jobs i).mippy q)
                (set_state i st s) in
            let e' : sigchld_handler reports t ≡ goes rest s' = ground arith in
            sigchld_handler-OnlyFg reports t e' (OnlyFg-set_state i st s refl h)
      ]
  sigchld_handler-OnlyFg ((q, signaled) ∷ reports) s {rest} {s'} e h =
      elim (Option-cases (get_job_pid q s.jobs)) [
        | inl out ↦ let same : s'.jobs ≡ s.jobs = ground arith in rw same h
        | inr (i, found) ↦
            let t : Shell =
              print (terminated_by_signal (job_at (delete_job q s).1.jobs i).mippy q)
                (delete_job q s).1 in
            let e' : sigchld_handler reports t ≡ goes rest s' = ground arith in
            sigchld_handler-OnlyFg reports t e' (OnlyFg-delete_job q s h)
      ]
  sigchld_handler-OnlyFg ((q, exited) ∷ reports) s {rest} {s'} e h =
      elim (Option-cases (get_job_pid q s.jobs)) [
        | inl out ↦ let same : s'.jobs ≡ s.jobs = ground arith in rw same h
        | inr (i, found) ↦
            let t : Shell = (delete_job q s).1 in
            let e' : sigchld_handler reports t ≡ goes rest s' = ground arith in
            sigchld_handler-OnlyFg reports t e' (OnlyFg-delete_job q s h)
      ]
  sigchld_handler-OnlyFg ((q, other) ∷ reports) s {rest} {s'} e h =
      let same : s'.jobs ≡ s.jobs = ground arith in rw same h
