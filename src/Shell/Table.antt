-- ===== src/Shell/Table.antt =====
-- The job list of tsh.c as a table from PIDs to jobs, and what keeps it well formed.
use past_work.Base.{
  ℕ, ◌<◌, ◌≡◌, ◌≢◌, refl, inl, inr, Option, none, some, List, [], ◌∷◌, ◌==◌, if◌then◌else◌, arith,
  length, Bool-cases, Option-cases,
}
use past_work.Shell.Jobs.{undef, Job, cleared, max_jobs, Shell, fill_slot, clear_slot}

-- The job with a PID.
unfoldable pub find : ℕ → List Job → Option Job
find pid [] = none
find pid (j ∷ js) = if j.pid == pid then some j else find pid js

-- A slot with PID 0 has been cleared; a slot that is taken has a job ID and a state.
pub record SlotOk (j : Job) : Type 0 where
  pub free : j.pid ≡ 0 → j ≡ cleared
  pub numbered : j.pid ≢ 0 → 0 < j.mippy
  pub known : j.pid ≢ 0 → j.state ≢ undef

-- Every slot is sound, and no PID stands in two slots.
abbrev pub Slots : List Job → Type 0
Slots [] = Unit
Slots (j ∷ js) = SlotOk j × (j.pid ≢ 0 → find j.pid js ≡ none) × Slots js

-- `addjob` makes the job findable under its PID, and changes no other.
pub find-fill_slot :
    (new : Job) (js : List Job) {js' : List Job} (q : ℕ)
    → fill_slot new js ≡ some js'
    → new.pid ≢ 0
    → q ≢ 0
    → find new.pid js ≡ none
    → find q js' ≡ (if new.pid == q then some new else find q js)
unfolding find fill_slot
find-fill_slot new [] q e n z out = absurd (cc)
find-fill_slot new (j ∷ js) q e n z out = elim (Option-cases (fill_slot new js)) [
  | inl no_slot ↦ ground arith
  | inr (js', slot) ↦ ground (arith, find-fill_slot new js {js' = js'} q slot n z)
]

pub fill_slot-Slots :
    (new : Job) (js : List Job) {js' : List Job}
    → fill_slot new js ≡ some js'
    → SlotOk new
    → new.pid ≢ 0
    → find new.pid js ≡ none
    → Slots js
    → Slots js'
unfolding find fill_slot
fill_slot-Slots new [] e k n out w = absurd (cc)
fill_slot-Slots new (j ∷ js) {js'} e k n out w = elim (Bool-cases (j.pid == 0)) [
  | inl free ↦
      let made : js' ≡ new ∷ js = ground arith in
      let gone : find new.pid js ≡ none = ground arith in rw made (k, λ _. gone, w.2)
  | inr busy ↦ elim (Option-cases (fill_slot new js)) [
    | inl no_slot ↦ absurd (ground arith)
    | inr (js'', slot) ↦
        let made : js' ≡ j ∷ js'' = ground arith in
        let gone : find new.pid js ≡ none = ground arith in
        let once = w.1 in
        rw made (
          w.0,
          λ z. ground (arith, once, find-fill_slot new js {js' = js''} j.pid slot n z gone),
          fill_slot-Slots new js slot k n gone w.2,
        )
  ]
]

pub cleared-SlotOk : SlotOk cleared
cleared-SlotOk = record {
  free = λ _. refl;
  numbered = λ z. absurd (z refl);
  known = λ z. absurd (z refl);
}

pub fill_slot-length :
    (new : Job) (js : List Job) {js' : List Job}
    → fill_slot new js ≡ some js'
    → length js' ≡ length js
unfolding fill_slot
fill_slot-length new [] e = absurd (cc)
fill_slot-length new (j ∷ js) e = elim (Option-cases (fill_slot new js)) [
  | inl no_slot ↦ ground arith
  | inr (js'', slot) ↦ ground (arith, fill_slot-length new js {js' = js''} slot)
]

pub clear_slot-length :
    (pid : ℕ) (js : List Job) {js' : List Job}
    → clear_slot pid js ≡ some js'
    → length js' ≡ length js
unfolding clear_slot
clear_slot-length pid [] e = absurd (cc)
clear_slot-length pid (j ∷ js) e = elim (Option-cases (clear_slot pid js)) [
  | inl no_slot ↦ ground arith
  | inr (js'', slot) ↦ ground (arith, clear_slot-length pid js {js' = js''} slot)
]

-- `deletejob` makes the PID unknown, and changes no other.
pub find-clear_slot :
    (pid : ℕ) (js : List Job) {js' : List Job} (q : ℕ)
    → clear_slot pid js ≡ some js'
    → pid ≢ 0
    → q ≢ 0
    → Slots js
    → find q js' ≡ (if pid == q then none else find q js)
unfolding find clear_slot
find-clear_slot pid [] q e n z w = absurd (cc)
find-clear_slot pid (j ∷ js) q e n z w =
    let once = w.1 in
    elim (Option-cases (clear_slot pid js)) [
      | inl no_slot ↦ ground (arith, once)
      | inr (js'', slot) ↦ ground (arith, once, find-clear_slot pid js {js' = js''} q slot n z w.2)
    ]

pub clear_slot-Slots :
    (pid : ℕ) (js : List Job) {js' : List Job}
    → clear_slot pid js ≡ some js'
    → pid ≢ 0
    → Slots js
    → Slots js'
unfolding find clear_slot
clear_slot-Slots pid [] e n w = absurd (cc)
clear_slot-Slots pid (j ∷ js) {js'} e n w = elim (Bool-cases (j.pid == pid)) [
  | inl here ↦
      let made : js' ≡ cleared ∷ js = ground arith in
      rw made (cleared-SlotOk, λ z. absurd (z refl), w.2)
  | inr there ↦ elim (Option-cases (clear_slot pid js)) [
    | inl no_slot ↦ absurd (ground arith)
    | inr (js'', slot) ↦
        let made : js' ≡ j ∷ js'' = ground arith in
        let once = w.1 in
        rw made (
          w.0,
          λ z. ground (arith, once, find-clear_slot pid js {js' = js''} j.pid slot n z w.2),
          clear_slot-Slots pid js slot n w.2,
        )
  ]
]

-- A job list of the right length whose slots are sound, and a job ID to give out.
pub record WellFormed (s : Shell) : Type 0 where
  pub slots : Slots s.jobs
  pub size : length s.jobs ≡ max_jobs
  pub next : 0 < s.next_jid
