-- ===== src/Shell/Handler.antt =====
-- `sigchld_handler` of tsh.c as a whole, and the message for a child that a signal has killed.
use past_work.Base.{
  ℕ, ◌≡◌, ◌≢◌, refl, ◌∙◌, ap, ◌⊎◌, inl, inr, Option, if◌then◌else◌, none, some, List, [], ◌∷◌, ◌++◌,
  ◌==◌, arith, Option-cases, All,
}
use past_work.Shell.Jobs.{
  Job, cleared, Shell, print, Output, terminated_by_signal, stopped_by_signal, no_child, clear_slot,
  delete_job, index_of, get_job_pid, job_at,
}
use past_work.Shell.Signals.{
  Status, stopped, signaled, exited, other, Report, goes, set_state, sigchld_handler,
}
use past_work.Shell.Jobs.{st}
use past_work.Shell.Table.{find, WellFormed}
use past_work.Shell.AddDelete.{clear_slot-found, delete_job-slot}
use past_work.Shell.Reap.{
  Handled, fates, get_job_pid-none, get_job_pid-find, fate, stop-Handled, end-Handled,
  print-WellFormed,
}

-- A report of `waitpid`: a PID above 0, and a status that is one of the three.
abbrev pub Sound : List Report → Type 0
Sound = All (λ r. (r.0 ≢ 0) × (r.1 ≢ other))

-- Each report is of a PID that is in the table at its turn.
abbrev pub Known : List Report → (ℕ → Option Job) → Type 0
Known [] table = Unit
Known ((pid, status) ∷ rest) table =
    (pid ≢ 0)
    × (table pid ≢ none)
    × Known rest (λ q. if pid == q then fate status (table q) else table q)

Known-same :
    (reports : List Report) (f g : ℕ → Option Job)
    → ((q : ℕ) → q ≢ 0 → f q ≡ g q)
    → Known reports f
    → Known reports g
Known-same [] f g same k = tt
Known-same ((pid, status) ∷ rest) f g same k = (
  k.0,
  λ z. k.1 (same pid k.0 ∙ z),
  Known-same rest _ _
      (λ q n. ap (λ (o : Option Job). if pid == q then fate status o else o) (same q n)) k.2,
)

-- What the handler has done when it returns: it has handled some of the reports, each of a job, and
-- left the rest only if the one between them is of a child that is no job.
pub record Reaped (reports rest : List Report) (s s' : Shell) : Type 0 where
  pub handled : List Report
  pub known : Known handled (λ q. find q s.jobs)
  pub well_formed : WellFormed s'
  pub table : (q : ℕ) → q ≢ 0 → find q s'.jobs ≡ fates handled q (find q s.jobs)
  pub split :
      (rest ≡ []) × (reports ≡ handled)
      ⊎ ((r : Report) × (reports ≡ handled ++ r ∷ rest) × (find r.0 s'.jobs ≡ none))

Reaped-cons :
    {pid : ℕ} {status : Status} {reports rest : List Report} {s t s' : Shell}
    → pid ≢ 0
    → find pid s.jobs ≢ none
    → Handled pid status s t
    → Reaped reports rest t s'
    → Reaped ((pid, status) ∷ reports) rest s s'
Reaped-cons {pid} {status} {s} {t} n here h r = record {
  handled = (pid, status) ∷ r.handled;
  known = (n, here, Known-same r.handled (λ q. find q t.jobs) _ h.table r.known);
  well_formed = r.well_formed;
  table = λ q z. r.table q z ∙ ap (fates r.handled q) (h.table q z);
  split = elim r.split [
    | inl (e, f) ↦ inl (e, ap (◌∷◌ (pid, status)) f)
    | inr (x, e, f) ↦ inr (x, ap (◌∷◌ (pid, status)) e, f)
  ];
}

printed :
    {pid : ℕ} {status : Status} {s t : Shell} (o : Output)
    → Handled pid status s t
    → Handled pid status s (print o t)
printed {t} o h = record { well_formed = print-WellFormed o t h.well_formed; table = h.table }

unknown :
    (pid : ℕ) (status : Status) (rest : List Report) (s : Shell)
    → WellFormed s
    → find pid s.jobs ≡ none
    → Reaped ((pid, status) ∷ rest) rest s (print (no_child pid) s)
unknown pid status rest s w out = record {
  handled = [];
  known = tt;
  well_formed = print-WellFormed (no_child pid) s w;
  table = λ q z. refl;
  split = inr ((pid, status), refl, out);
}

get_job_pid-found :
    (pid i : ℕ) (s : Shell) → get_job_pid pid s.jobs ≡ some i → find pid s.jobs ≢ none
get_job_pid-found pid i s e z = let (found, n) = get_job_pid-find pid s.jobs i e in cc

-- For reports with PIDs above 0 and a status that says stopped, killed or exited, `sigchld_handler`
-- returns, keeps a well-formed job list well formed, and turns reports, each of a PID that is in
-- the job list at its turn, into the state of its job, in order. These are all the reports, or
-- those in front of the first one whose child is no job at its turn. There it stops, and leaves the
-- reports behind it.
pub sigchld_handler-Reaped :
    (reports : List Report) (s : Shell)
    → Sound reports
    → WellFormed s
    → (rest : List Report) × (s' : Shell) × (sigchld_handler reports s ≡ goes rest s')
      × Reaped reports rest s s'
unfolding sigchld_handler
sigchld_handler-Reaped [] s k w = (
  [],
  s,
  refl,
  record {
    handled = [];
    known = tt;
    well_formed = w;
    table = λ q z. refl;
    split = inl (refl, refl);
  },
)
sigchld_handler-Reaped ((pid, stopped) ∷ reports) s k w =
    elim (Option-cases (get_job_pid pid s.jobs)) [
      | inl out ↦ (
        reports,
        print (no_child pid) s,
        rw (out, sigchld_handler),
        unknown pid stopped reports s w (get_job_pid-none pid s.jobs k.0.0 out),
      )
      | inr (i, e) ↦
          let h =
            printed (stopped_by_signal (job_at (set_state i st s).jobs i).mippy pid)
              (stop-Handled pid i s w e) in
          let (rest, s', run, r) = sigchld_handler-Reaped reports _ k.1 h.well_formed in
          (
            rest,
            s',
            rw (e, sigchld_handler) run,
            Reaped-cons k.0.0 (get_job_pid-found pid i s e) h r,
          )
    ]
sigchld_handler-Reaped ((pid, signaled) ∷ reports) s k w =
    elim (Option-cases (get_job_pid pid s.jobs)) [
      | inl out ↦ (
        reports,
        print (no_child pid) s,
        rw (out, sigchld_handler),
        unknown pid signaled reports s w (get_job_pid-none pid s.jobs k.0.0 out),
      )
      | inr (i, e) ↦
          let h =
            printed (terminated_by_signal (job_at (delete_job pid s).1.jobs i).mippy pid)
              (end-Handled pid i s w e).1 in
          let (rest, s', run, r) = sigchld_handler-Reaped reports _ k.1 h.well_formed in
          (
            rest,
            s',
            rw (e, sigchld_handler) run,
            Reaped-cons k.0.0 (get_job_pid-found pid i s e) h r,
          )
    ]
sigchld_handler-Reaped ((pid, exited) ∷ reports) s k w =
    elim (Option-cases (get_job_pid pid s.jobs)) [
      | inl out ↦ (
        reports,
        print (no_child pid) s,
        rw (out, sigchld_handler),
        unknown pid exited reports s w (get_job_pid-none pid s.jobs k.0.0 out),
      )
      | inr (i, e) ↦
          let h = (end-Handled pid i s w e).0 in
          let (rest, s', run, r) = sigchld_handler-Reaped reports _ k.1 h.well_formed in
          (
            rest,
            s',
            rw (e, sigchld_handler) run,
            Reaped-cons k.0.0 (get_job_pid-found pid i s e) h r,
          )
    ]
sigchld_handler-Reaped ((pid, other) ∷ reports) s k w = absurd (k.0.1 refl)

-- The slot of a job is clear once `deletejob` is through with it.
slot-cleared :
    (pid : ℕ) (js : List Job) (i : ℕ) {js' : List Job}
    → index_of (λ j. j.pid == pid) js ≡ some i
    → clear_slot pid js ≡ some js'
    → job_at js' i ≡ cleared
unfolding index_of clear_slot job_at
slot-cleared pid [] i e f = absurd (cc)
slot-cleared pid (j ∷ js) i e f = elim (Option-cases (index_of (λ j. j.pid == pid) js)) [
  | inl gone ↦ ground arith
  | inr (k, there) ↦ elim (Option-cases (clear_slot pid js)) [
    | inl no_slot ↦ ground arith
    | inr (js'', slot) ↦ ground (arith, slot-cleared pid js k {js' = js''} there slot)
  ]
]

ended-cleared :
    (pid i : ℕ) (s : Shell)
    → get_job_pid pid s.jobs ≡ some i
    → pid ≢ 0
    → (j : Job) → find pid s.jobs ≡ some j
    → job_at (delete_job pid s).1.jobs i ≡ cleared
unfolding get_job_pid
ended-cleared pid i s h n j e =
    let (js, slot) = clear_slot-found pid s.jobs j e in
    let here : index_of (λ j. j.pid == pid) s.jobs ≡ some i = ground arith in
    rw (delete_job-slot pid s js n slot) (slot-cleared pid s.jobs i here slot)

-- For a job that a signal has killed, `sigchld_handler` prints job ID 0, whatever the ID of the job
-- was: it reads the ID from the slot after `deletejob` has cleared it.
pub killed_message :
    (pid : ℕ) (s : Shell) (j : Job)
    → pid ≢ 0
    → find pid s.jobs ≡ some j
    → sigchld_handler ((pid, signaled) ∷ []) s
      ≡ goes [] (print (terminated_by_signal 0 pid) (delete_job pid s).1)
unfolding sigchld_handler
killed_message pid s j n e = elim (Option-cases (get_job_pid pid s.jobs)) [
  | inl out ↦ absurd (let f = get_job_pid-none pid s.jobs n out in cc)
  | inr (i, h) ↦ rw (h, sigchld_handler, ended-cleared pid i s h n j e)
]
