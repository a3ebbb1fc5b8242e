-- ===== src/Shell/Reap.antt =====
-- `sigchld_handler` of tsh.c: what becomes of the job list.
use past_work.Base.{
  ℕ, zero, suc, ◌≡◌, ◌≢◌, refl, ◌∙◌, sym, inl, inr, false, Option, none, some, List, [], ◌∷◌, ◌==◌,
  if◌then◌else◌, arith, Option-cases, set, length-set,
}
use past_work.Shell.Jobs.{
  JobState, undef, st, Job, Shell, print, Output, delete_job, index_of, get_job_pid, job_at,
}
use past_work.Shell.Signals.{Status, stopped, signaled, exited, Report, set_state}
use past_work.Shell.Table.{find, Slots, WellFormed}
use past_work.Shell.AddDelete.{delete_job-Deleted}

-- The pointer that `getjobpid` returns is to the job of the table.
index_of-find :
    (pid : ℕ) (js : List Job) (i : ℕ)
    → index_of (λ j. j.pid == pid) js ≡ some i
    → find pid js ≡ some (job_at js i)
unfolding index_of find job_at
index_of-find pid [] i e = absurd (cc)
index_of-find pid (j ∷ js) zero e = elim (Option-cases (index_of (λ j. j.pid == pid) js)) [
  | inl gone ↦ ground arith
  | inr (k, there) ↦ ground arith
]
index_of-find pid (j ∷ js) (suc i) e = elim (Option-cases (index_of (λ j. j.pid == pid) js)) [
  | inl gone ↦ ground arith
  | inr (k, there) ↦ ground (arith, index_of-find pid js i)
]

index_of-none :
    (pid : ℕ) (js : List Job) → index_of (λ j. j.pid == pid) js ≡ none → find pid js ≡ none
unfolding index_of find
index_of-none pid [] e = refl
index_of-none pid (j ∷ js) e = elim (Option-cases (index_of (λ j. j.pid == pid) js)) [
  | inl gone ↦ ground (arith, index_of-none pid js)
  | inr (k, there) ↦ ground arith
]

pub get_job_pid-find :
    (pid : ℕ) (js : List Job) (i : ℕ)
    → get_job_pid pid js ≡ some i
    → (find pid js ≡ some (job_at js i)) × (pid ≢ 0)
unfolding get_job_pid
get_job_pid-find pid js i e = (ground (arith, index_of-find pid js i), ground arith)

pub get_job_pid-none :
    (pid : ℕ) (js : List Job) → pid ≢ 0 → get_job_pid pid js ≡ none → find pid js ≡ none
unfolding get_job_pid
get_job_pid-none pid js n e = ground (arith, index_of-none pid js)

abbrev in_state : JobState → Job → Job
in_state state j = record j { state = state }

find-pid : (pid : ℕ) (js : List Job) (j : Job) → find pid js ≡ some j → j.pid ≡ pid
unfolding find
find-pid pid [] j e = absurd (cc)
find-pid pid (i ∷ js) j e = ground (arith, find-pid pid js j)

-- Changing the state of a job in its slot.
find-set :
    (pid : ℕ) (js : List Job) (i q : ℕ) (state : JobState)
    → index_of (λ j. j.pid == pid) js ≡ some i
    → find q (set js i (in_state state (job_at js i)))
      ≡ (if pid == q then some (in_state state (job_at js i)) else find q js)
unfolding index_of find job_at
find-set pid [] i q state e = absurd (cc)
find-set pid (j ∷ js) zero q state e = elim (Option-cases (index_of (λ j. j.pid == pid) js)) [
  | inl gone ↦ ground arith
  | inr (k, there) ↦ ground arith
]
find-set pid (j ∷ js) (suc i) q state e = elim (Option-cases (index_of (λ j. j.pid == pid) js)) [
  | inl gone ↦ ground arith
  | inr (k, there) ↦ ground (arith, find-set pid js i q state)
]

set-Slots :
    (pid : ℕ) (js : List Job) (i : ℕ) (state : JobState)
    → index_of (λ j. j.pid == pid) js ≡ some i
    → pid ≢ 0
    → state ≢ undef
    → Slots js
    → Slots (set js i (in_state state (job_at js i)))
unfolding index_of find job_at
set-Slots pid [] i state e n k w = absurd (cc)
set-Slots pid (j ∷ js) zero state e n k w =
    let same : j.pid ≡ pid = elim (Option-cases (index_of (λ j. j.pid == pid) js)) [
      | inl gone ↦ ground arith
      | inr (m, there) ↦ ground arith
    ] in
    (
      record { free = λ z. absurd (n (sym same ∙ z)); numbered = w.0.numbered; known = λ z. k },
      w.1,
      w.2,
    )
set-Slots pid (j ∷ js) (suc i) state e n k w =
    elim (Option-cases (index_of (λ j. j.pid == pid) js)) [
      | inl gone ↦ absurd (ground arith)
      | inr (m, there) ↦
          let here : index_of (λ j. j.pid == pid) js ≡ some i = ground arith in
          let apart : (j.pid == pid) ≡ false = ground arith in
          let once = w.1 in
          (
            w.0,
            λ z. ground (arith, once, find-set pid js i j.pid state here),
            set-Slots pid js i state here n k w.2,
          )
    ]

-- The jobs of a table after one report: a stopped child is in state ST, and one that has ended is
-- gone.
abbrev pub fate : Status → Option Job → Option Job
fate stopped none = none
fate stopped (some j) = some (record j { state = st })
fate _ o = none

-- The table after some reports.
abbrev pub fates : List Report → ℕ → Option Job → Option Job
fates [] q o = o
fates ((pid, status) ∷ rest) q o = fates rest q (if pid == q then fate status o else o)

-- What one report of a known child does.
pub record Handled (pid : ℕ) (status : Status) (s s' : Shell) : Type 0 where
  pub well_formed : WellFormed s'
  pub table :
      (q : ℕ)
      → q ≢ 0
      → find q s'.jobs ≡ (if pid == q then fate status (find q s.jobs) else find q s.jobs)

pub print-WellFormed : (o : Output) (s : Shell) → WellFormed s → WellFormed (print o s)
print-WellFormed o s w = record { slots = w.slots; size = w.size; next = w.next }

pub stop-Handled :
    (pid i : ℕ) (s : Shell)
    → WellFormed s
    → get_job_pid pid s.jobs ≡ some i
    → Handled pid stopped s (set_state i st s)
unfolding get_job_pid set_state
stop-Handled pid i s w e =
    let n : pid ≢ 0 = ground arith in
    let e' : index_of (λ j. j.pid == pid) s.jobs ≡ some i = ground arith in
    record {
      well_formed = record {
        slots = set-Slots pid s.jobs i st e' n (λ z. cc) w.slots;
        size = length-set s.jobs i _ ∙ w.size;
        next = w.next;
      };
      table = λ q z. ground (arith, find-set pid s.jobs i q st e', index_of-find pid s.jobs i e');
    }

pub end-Handled :
    (pid i : ℕ) (s : Shell)
    → WellFormed s
    → get_job_pid pid s.jobs ≡ some i
    → Handled pid exited s (delete_job pid s).1 × Handled pid signaled s (delete_job pid s).1
end-Handled pid i s w e =
    let (found, n) = get_job_pid-find pid s.jobs i e in
    let (s', run, w', gone) = delete_job-Deleted pid s (job_at s.jobs i) w n found in
    rw run (
      record { well_formed = w'; table = gone.table },
      record { well_formed = w'; table = gone.table },
    )
