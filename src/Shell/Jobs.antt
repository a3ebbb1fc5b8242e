-- ===== src/Shell/Jobs.antt =====
-- The job list of tsh.c and the helper routines that manipulate it.
use past_work.Base.{
  ℕ, zero, suc, ◌+◌, Bool, true, false, Option, none, some, List, [], ◌∷◌, ◌==◌, ltb, if◌then◌else◌,
  replicate,
}
use past_work.Base.Text.{CString}

-- The job states UNDEF, FG, BG and ST.
pub data JobState : Type 0 where
  undef fg bg st : JobState

abbrev pub is_fg : JobState → Bool
is_fg fg = true
is_fg _ = false

-- `struct job_t`; `mippy` is the job ID. A slot with PID 0 is free.
pub record Job : Type 0 where
  pub pid : ℕ
  pub mippy : ℕ
  pub state : JobState
  pub cmdline : CString

abbrev pub max_jobs : ℕ
max_jobs = 16

-- The signals that the shell sends.
pub data Sig : Type 0 where
  sigint sigtstp sigcont : Sig

-- What the shell prints, and the signals that it sends to process groups.
pub data Output : Type 0 where
  added_job : ℕ → ℕ → CString → Output
  too_many_jobs : Output
  started : ℕ → ℕ → CString → Output
  no_child : ℕ → Output
  stopped_by_signal : ℕ → ℕ → Output
  terminated_by_signal : ℕ → ℕ → Output
  listed : ℕ → ℕ → JobState → CString → Output
  requires_argument : CString → Output
  must_be_pid_or_jid : CString → Output
  no_such_job : CString → Output
  such_process : CString → Output
  resumed : ℕ → ℕ → CString → Output
  sent : Sig → ℕ → Output
  prompt : Output
  usage : Output
  terminating : Output
  app_error : CString → Output

-- The globals of the shell, and what it has put out, the last first.
pub record Shell : Type 0 where
  pub jobs : List Job
  pub next_jid : ℕ
  pub verbose : Bool
  pub out : List Output

abbrev pub print : Output → Shell → Shell
print o s = record s { out = o ∷ s.out }

-- `clearjob`
abbrev pub cleared : Job
cleared = record { pid = 0; mippy = 0; state = undef; cmdline = [] }

-- `initjobs`
abbrev pub init_jobs : List Job
init_jobs = replicate max_jobs cleared

-- `maxjid`, from the value of `max` so far.
unfoldable pub max_jid_from : ℕ → List Job → ℕ
max_jid_from max [] = max
max_jid_from max (j ∷ js) = max_jid_from (if ltb max j.mippy then j.mippy else max) js

unfoldable pub max_jid : List Job → ℕ
unfolding max_jid_from
max_jid js = max_jid_from 0 js

-- The loop of `addjob`: the job goes to the first free slot; `none` when there is none.
unfoldable pub fill_slot : Job → List Job → Option (List Job)
fill_slot new [] = none
fill_slot new (j ∷ js) =
    if j.pid == 0
    then some (new ∷ js)
    else elim (fill_slot new js) [ none ↦ none | some js' ↦ some (j ∷ js') ]

abbrev pub job : ℕ → ℕ → JobState → CString → Job
job pid jid state cmdline = record { pid = pid; mippy = jid; state = state; cmdline = cmdline }

-- `addjob`, with the value that it returns.
unfoldable pub add_job : ℕ → JobState → CString → Shell → Bool × Shell
unfolding fill_slot
add_job pid state cmdline s =
    if pid == 0 then (false, s) else elim (fill_slot (job pid s.next_jid state cmdline) s.jobs) [
      | none ↦ (false, print too_many_jobs s)
      | some js ↦
          let next = s.next_jid + 1 in
          let s' : Shell = record s {
            jobs = js;
            next_jid = if ltb max_jobs next then 1 else next;
          } in
          (true, if s.verbose then print (added_job s.next_jid pid cmdline) s' else s')
    ]

-- The loop of `deletejob`: clears the first slot with the PID.
unfoldable pub clear_slot : ℕ → List Job → Option (List Job)
clear_slot pid [] = none
clear_slot pid (j ∷ js) =
    if j.pid == pid
    then some (cleared ∷ js)
    else elim (clear_slot pid js) [ none ↦ none | some js' ↦ some (j ∷ js') ]

-- `deletejob`, with the value that it returns.
unfoldable pub delete_job : ℕ → Shell → Bool × Shell
unfolding clear_slot max_jid
delete_job pid s = if pid == 0 then (false, s) else elim (clear_slot pid s.jobs) [
  | none ↦ (false, s)
  | some js ↦ (true, record s { jobs = js; next_jid = max_jid js + 1 })
]

-- `fgpid`
unfoldable pub fg_pid : List Job → ℕ
fg_pid [] = 0
fg_pid (j ∷ js) = if is_fg j.state then j.pid else fg_pid js

-- The index of the first job that passes a test: a pointer into the array.
unfoldable pub index_of : (Job → Bool) → List Job → Option ℕ
index_of test [] = none
index_of test (j ∷ js) =
    if test j then some 0 else elim (index_of test js) [ none ↦ none | some i ↦ some (suc i) ]

-- `getjobpid`
unfoldable pub get_job_pid : ℕ → List Job → Option ℕ
unfolding index_of
get_job_pid pid js = if pid == 0 then none else index_of (λ j. j.pid == pid) js

-- `getjobjid`
unfoldable pub get_job_jid : ℕ → List Job → Option ℕ
unfolding index_of
get_job_jid jid js = if jid == 0 then none else index_of (λ j. j.mippy == jid) js

unfoldable pub jid_of : ℕ → List Job → ℕ
jid_of pid [] = 0
jid_of pid (j ∷ js) = if j.pid == pid then j.mippy else jid_of pid js

-- `pid2jid`
unfoldable pub pid2jid : ℕ → List Job → ℕ
unfolding jid_of
pid2jid pid js = if pid == 0 then 0 else jid_of pid js

-- `jobL`: a line for each slot that is taken.
unfoldable pub job_l : List Job → List Output
job_l [] = []
job_l (j ∷ js) = if j.pid == 0 then job_l js else listed j.mippy j.pid j.state j.cmdline ∷ job_l js

-- The job at an index; the loops above only give indices of the array.
unfoldable pub job_at : List Job → ℕ → Job
job_at [] i = cleared
job_at (j ∷ js) zero = j
job_at (j ∷ js) (suc i) = job_at js i
