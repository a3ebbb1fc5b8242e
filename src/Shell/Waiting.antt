-- ===== src/Shell/Waiting.antt =====
-- `waitfg` of tsh.c returns once its job has been reported.
use past_work.Base.{
  Bool, ℕ, ◌≡◌, ◌≢◌, refl, ap, sym, subst, ◌∙◌, inl, inr, true, false, Option, none, some, List, [],
  ◌∷◌, ◌++◌, ◌==◌, arith, Bool-cases, All,
}
use past_work.Shell.Jobs.{is_fg, Job, Sig, sigint, sigtstp, sent, print, Shell, fg_pid}
use past_work.Shell.Signals.{
  Status, stopped, signaled, exited, other, Report, Step, goes, Caught, child, interrupt, stop,
  quit, handle, kill, forward_to_fg, sigchld_handler, wait_fg,
}
use past_work.Shell.Table.{find, Slots, WellFormed}
use past_work.Shell.Reap.{fates, fate, print-WellFormed}
use past_work.Shell.Handler.{Sound, Reaped, sigchld_handler-Reaped}

-- A job that is not in the foreground, or none.
abbrev Waiting : Option Job → Type 0
Waiting none = Unit
Waiting (some j) = is_fg j.state ≡ false

fg_pid-find :
    (pid : ℕ) (js : List Job) → pid ≢ 0 → Slots js → Waiting (find pid js) → fg_pid js ≢ pid
unfolding fg_pid find
fg_pid-find pid [] n w h e = n (sym e)
fg_pid-find pid (j ∷ js) n w h e = elim (Bool-cases (j.pid == pid)) [
  | inl here ↦
      let idle : is_fg j.state ≡ false =
        let first : find pid (j ∷ js) ≡ some j = rw here refl in subst Waiting first h in
      let out : find pid js ≡ none =
        subst (λ (q : ℕ). find q js ≡ none) (ground arith) (w.1 (ground arith)) in
      fg_pid-find pid js n w.2 (subst Waiting (sym out) tt) (ground arith)
  | inr there ↦
      let rest : find pid (j ∷ js) ≡ find pid js = rw there refl in
      fg_pid-find pid js n w.2 (subst Waiting rest h) (ground arith)
]

fate-Waiting : (status : Status) (o : Option Job) → Waiting (fate status o)
fate-Waiting stopped none = tt
fate-Waiting stopped (some j) = refl
fate-Waiting signaled o = tt
fate-Waiting exited o = tt
fate-Waiting other o = tt

-- No report puts a job in the foreground.
fates-Waiting :
    (reports : List Report) (q : ℕ) (o : Option Job) → Waiting o → Waiting (fates reports q o)
fates-Waiting [] q o h = h
fates-Waiting ((pid, status) ∷ rest) q o h = fates-Waiting rest q _ (elim (Bool-cases (pid == q)) [
  | inl here ↦ rw here (fate-Waiting status o)
  | inr there ↦ rw there h
])

fates-head :
    (pid : ℕ) (status : Status) (rest : List Report) (o : Option Job)
    → Waiting (fates ((pid, status) ∷ rest) pid o)
fates-head pid status rest o =
    let here : (pid == pid) ≡ true = ground arith in
    fates-Waiting rest pid _ (rw here (fate-Waiting status o))

-- The first report of a signal is always looked at.
first_handled :
    (pid : ℕ) (status : Status) (reports rest : List Report) (s s' : Shell)
    → pid ≢ 0
    → Reaped ((pid, status) ∷ reports) rest s s'
    → Waiting (find pid s'.jobs)
first_handled pid status reports rest s s' n r = elim r.split [
  | inl (_, all) ↦
      let here : find pid s'.jobs ≡ fates ((pid, status) ∷ reports) pid (find pid s.jobs) =
        r.table pid n ∙ ap (λ (h : List Report). fates h pid (find pid s.jobs)) (sym all) in
      subst Waiting (sym here) (fates-head pid status reports (find pid s.jobs))
  | inr (x, e, out) ↦ first_of r.handled x e out (r.table pid n)
]
  where
    first_of :
        (handled : List Report)
        → (x : Report) → (pid, status) ∷ reports ≡ handled ++ x ∷ rest
        → find x.0 s'.jobs ≡ none
        → find pid s'.jobs ≡ fates handled pid (find pid s.jobs)
        → Waiting (find pid s'.jobs)
    first_of [] x e out h =
        let same : find pid s'.jobs ≡ none =
          subst (λ (q : ℕ). find q s'.jobs ≡ none) (ground arith) out in
        subst Waiting (sym same) tt
    first_of ((q, t) ∷ handled) x e out h =
        let same : q ≡ pid = ground arith in
        subst Waiting (sym h) (rw same (fates-head pid t handled (find pid s.jobs)))

-- A signal that `waitfg` comes through: its reports are sound, or the kernel accepts the signal that
-- is sent to the job in the foreground.
abbrev pub Harmless : (ℕ → Sig → Bool) → ℕ → Caught → Type 0
Harmless accepts pid (child reports) = Sound reports
Harmless accepts pid interrupt = accepts pid sigint ≡ true
Harmless accepts pid stop = accepts pid sigtstp ≡ true
Harmless accepts pid quit = ⊥

module _ (accepts : ℕ → Sig → Bool) (pid : ℕ) (n : pid ≢ 0) where
  wait_fg-done :
      (signals : List Caught) (s : Shell)
      → (pid == fg_pid s.jobs) ≡ false
      → wait_fg accepts pid signals s ≡ some (goes tt s)
  unfolding wait_fg
  wait_fg-done [] s e = rw e refl
  wait_fg-done (sig ∷ signals) s e = rw e refl

  wait_fg-sleep :
      (sig : Caught) (signals : List Caught) (s s' : Shell)
      → (pid == fg_pid s.jobs) ≡ true
      → handle accepts sig s ≡ goes tt s'
      → wait_fg accepts pid (sig ∷ signals) s ≡ wait_fg accepts pid signals s'
  unfolding wait_fg
  wait_fg-sleep sig signals s s' e run = rw (e, run) refl

  forward_to_fg-sent :
      (sig : Sig) (s : Shell)
      → (pid == fg_pid s.jobs) ≡ true
      → accepts pid sig ≡ true
      → forward_to_fg accepts sig s ≡ goes tt (print (sent sig pid) s)
  unfolding forward_to_fg kill
  forward_to_fg-sent sig s e a =
      let here : fg_pid s.jobs ≡ pid = ground arith in
      let there : (pid == 0) ≡ false = ground arith in rw (here, there, a) refl

  handle-child :
      (reports rest : List Report) (s s' : Shell)
      → sigchld_handler reports s ≡ goes rest s'
      → handle accepts (child reports) s ≡ goes tt s'
  unfolding handle
  handle-child reports rest s s' run = rw (run, handle) refl

  handle-Harmless :
      (sig : Caught) (s : Shell)
      → WellFormed s
      → (pid == fg_pid s.jobs) ≡ true
      → Harmless accepts pid sig
      → (s' : Shell) × (handle accepts sig s ≡ goes tt s') × WellFormed s'
  unfolding handle
  handle-Harmless (child reports) s w e h =
      let (rest, s', run, r) = sigchld_handler-Reaped reports s h w in
      (s', handle-child reports rest s s' run, r.well_formed)
  handle-Harmless interrupt s w e h =
      (_, forward_to_fg-sent sigint s e h, print-WellFormed (sent sigint pid) s w)
  handle-Harmless stop s w e h =
      (_, forward_to_fg-sent sigtstp s e h, print-WellFormed (sent sigtstp pid) s w)
  handle-Harmless quit s w e h = absurd h

  -- The shell has left its wait, with a well-formed job list and another foreground job or none.
  abbrev pub Woken : Option (Step (Unit {0})) → Type 0
  Woken r = (s' : Shell) × (r ≡ some (goes tt s')) × WellFormed s' × (fg_pid s'.jobs ≢ pid)

  awake :
      (signals : List Caught) (s : Shell)
      → WellFormed s
      → (pid == fg_pid s.jobs) ≡ false
      → Woken (wait_fg accepts pid signals s)
  awake signals s w e = (s, wait_fg-done signals s e, w, ground arith)

  -- On a well-formed job list `waitfg` returns when one of the signals reports its job first,
  -- whatever jobs are reported before, with PIDs above 0 and a status that says stopped, killed or
  -- exited, whatever keys are pressed before, if the kernel accepts the signals that they send to
  -- the job, and whatever comes after; then the job list is well formed, and the job is no longer
  -- in the foreground.
  pub wait_fg-returns :
      (before : List Caught) (status : Status) (reports : List Report)
      → (later : List Caught) (s : Shell) → WellFormed s
      → All (Harmless accepts pid) before
      → Sound ((pid, status) ∷ reports)
      → Woken (wait_fg accepts pid (before ++ child ((pid, status) ∷ reports) ∷ later) s)
  wait_fg-returns [] status reports later s w b k = elim (Bool-cases (pid == fg_pid s.jobs)) [
    | inr e ↦ awake _ s w e
    | inl e ↦
        let (rest, s', run, r) = sigchld_handler-Reaped ((pid, status) ∷ reports) s k w in
        let idle : fg_pid s'.jobs ≢ pid =
          fg_pid-find pid s'.jobs n r.well_formed.slots
            (first_handled pid status reports rest s s' n r) in
        rw
          (wait_fg-sleep (child ((pid, status) ∷ reports)) later s s' e
            (handle-child ((pid, status) ∷ reports) rest s s' run))
          (awake later s' r.well_formed (ground arith))
  ]
  wait_fg-returns (first ∷ before) status reports later s w b k =
      elim (Bool-cases (pid == fg_pid s.jobs)) [
        | inr e ↦ awake _ s w e
        | inl e ↦
            let (s', run, w') = handle-Harmless first s w e b.0 in
            let signals = before ++ child ((pid, status) ∷ reports) ∷ later in
            rw (wait_fg-sleep first signals s s' e run)
              (wait_fg-returns before status reports later s' w' b.1 k)
      ]
