-- ===== src/Shell/AddDelete.antt =====
-- `addjob` and `deletejob` of tsh.c on a well-formed job list.
use past_work.Base.{
  ℕ, ◌+◌, ◌≤◌, ◌<◌, ◌≡◌, ◌≢◌, refl, ◌∙◌, inl, inr, Bool, true, false, none, some, List, [], ◌∷◌,
  ◌==◌, ltb, if◌then◌else◌, arith, Bool-cases, Option-cases, All,
}
use past_work.Base.Text.{CString}
use past_work.Shell.Jobs.{
  JobState, undef, Job, job, cleared, added_job, too_many_jobs, max_jobs, Shell, print,
  max_jid_from, max_jid, fill_slot, add_job, clear_slot, delete_job,
}
use past_work.Shell.Table.{
  find, SlotOk, WellFormed, find-fill_slot, fill_slot-Slots, fill_slot-length, clear_slot-length,
  find-clear_slot, clear_slot-Slots,
}

new-SlotOk :
    (pid jid : ℕ) (state : JobState) (cmdline : CString)
    → pid ≢ 0
    → 0 < jid
    → state ≢ undef
    → SlotOk (job pid jid state cmdline)
new-SlotOk pid jid state cmdline n j k = record {
  free = λ z. absurd (n z);
  numbered = λ _. j;
  known = λ _. k;
}

-- What `addjob` promises: either there is a free slot, and exactly the new job is added to the
-- table under its PID, or all slots are taken, and the table stays as it is.
abbrev pub Added : ℕ → JobState → CString → Shell → Bool → Shell → Type 0
Added pid state cmdline s true s' =
    (q : ℕ)
    → q ≢ 0
    → find q s'.jobs ≡ (if pid == q then some (job pid s.next_jid state cmdline) else find q s.jobs)
Added pid state cmdline s false s' = s'.jobs ≡ s.jobs

-- The state once the new job has its slot.
abbrev after_add : ℕ → CString → List Job → Shell → Shell
after_add pid cmdline js s =
    let next = s.next_jid + 1 in
    let s' : Shell = record s { jobs = js; next_jid = if ltb max_jobs next then 1 else next } in
    if s.verbose then print (added_job s.next_jid pid cmdline) s' else s'

module _ (pid : ℕ) (state : JobState) (cmdline : CString) (s : Shell) where
  add_job-full :
      pid ≢ 0
      → fill_slot (job pid s.next_jid state cmdline) s.jobs ≡ none
      → add_job pid state cmdline s ≡ (false, print too_many_jobs s)
  unfolding add_job
  add_job-full n e = ground arith

  add_job-slot :
      (js : List Job)
      → pid ≢ 0
      → fill_slot (job pid s.next_jid state cmdline) s.jobs ≡ some js
      → add_job pid state cmdline s ≡ (true, after_add pid cmdline js s)
  unfolding add_job
  add_job-slot js n e = ground arith

  after_add-jobs : (js : List Job) → (after_add pid cmdline js s).jobs ≡ js
  after_add-jobs js = ground arith

  after_add-next : (js : List Job) → 0 < (after_add pid cmdline js s).next_jid
  after_add-next js = ground arith

  -- `addjob` for a new PID above 0 and a state other than UNDEF keeps the job list well formed. If
  -- it returns 1, the table from PIDs to jobs has gained exactly the new job, with the next job ID;
  -- if it returns 0, the list is as it was.
  pub add_job-WellFormed :
      WellFormed s
      → pid ≢ 0
      → state ≢ undef
      → find pid s.jobs ≡ none
      → WellFormed (add_job pid state cmdline s).1
        × Added pid state cmdline s (add_job pid state cmdline s).0 (add_job pid state cmdline s).1
  add_job-WellFormed w n k out =
      let new = job pid s.next_jid state cmdline in
      elim (Option-cases (fill_slot new s.jobs)) [
        | inl full ↦
            rw (add_job-full n full)
              (record { slots = w.slots; size = w.size; next = w.next }, refl)
        | inr (js, slot) ↦ rw (add_job-slot js n slot) (
          record {
            slots = rw (after_add-jobs js) (
                fill_slot-Slots new s.jobs slot (new-SlotOk pid s.next_jid state cmdline n w.next k)
                  n out w.slots);
            size = rw (after_add-jobs js) (fill_slot-length new s.jobs slot ∙ w.size);
            next = after_add-next js;
          },
          λ q z. rw (after_add-jobs js) (find-fill_slot new s.jobs q slot n z out),
        )
      ]

-- The largest job ID bounds every job ID.
max_jid_from-le :
    (m : ℕ) (js : List Job) → (m ≤ max_jid_from m js) × All (λ j. j.mippy ≤ max_jid_from m js) js
unfolding max_jid_from
max_jid_from-le m [] = (omega arith, tt)
max_jid_from-le m (j ∷ js) =
    let m' = if ltb m j.mippy then j.mippy else m in
    let (low, rest) = max_jid_from-le m' js in (ground (arith, low), (ground (arith, low), rest))

pub clear_slot-found :
    (pid : ℕ) (js : List Job) (j : Job)
    → find pid js ≡ some j
    → (js' : List Job) × (clear_slot pid js ≡ some js')
unfolding find clear_slot
clear_slot-found pid [] j e = absurd (cc)
clear_slot-found pid (i ∷ js) j e = elim (Bool-cases (i.pid == pid)) [
  | inl here ↦ (cleared ∷ js, ground arith)
  | inr there ↦
      let (js', slot) = clear_slot-found pid js j (ground arith) in (i ∷ js', ground arith)
]

pub delete_job-slot :
    (pid : ℕ) (s : Shell) (js : List Job)
    → pid ≢ 0
    → clear_slot pid s.jobs ≡ some js
    → delete_job pid s ≡ (true, record s { jobs = js; next_jid = max_jid js + 1 })
unfolding delete_job
delete_job-slot pid s js n e = ground arith

-- What `deletejob` leaves: exactly the PID is gone from the table, and the next job ID is above
-- all that are given out.
pub record Deleted (pid : ℕ) (s s' : Shell) : Type 0 where
  pub table : (q : ℕ) → q ≢ 0 → find q s'.jobs ≡ (if pid == q then none else find q s.jobs)
  pub fresh : All (λ j. j.mippy < s'.next_jid) s'.jobs
  pub rest : s' ≡ record s { jobs = s'.jobs; next_jid = s'.next_jid }

below_next : (n : ℕ) (js : List Job) → All (λ j. j.mippy ≤ n) js → All (λ j. j.mippy < n + 1) js
below_next n [] h = tt
below_next n (j ∷ js) h = (omega (arith, h.0), below_next n js h.1)

-- `deletejob` of the PID of a job returns 1, keeps the job list well formed, removes exactly that
-- job, and leaves the next job ID above all that are given out.
pub delete_job-Deleted :
    (pid : ℕ) (s : Shell) (j : Job)
    → WellFormed s
    → pid ≢ 0
    → find pid s.jobs ≡ some j
    → (s' : Shell) × (delete_job pid s ≡ (true, s')) × WellFormed s' × Deleted pid s s'
unfolding max_jid
delete_job-Deleted pid s j w n e =
    let (js, slot) = clear_slot-found pid s.jobs j e in
    (
      record s { jobs = js; next_jid = max_jid js + 1 },
      delete_job-slot pid s js n slot,
      record {
        slots = clear_slot-Slots pid s.jobs slot n w.slots;
        size = clear_slot-length pid s.jobs slot ∙ w.size;
        next = omega arith;
      },
      record {
        table = λ q z. find-clear_slot pid s.jobs q slot n z w.slots;
        fresh = below_next (max_jid js) js (max_jid_from-le 0 js).1;
        rest = refl;
      },
    )
