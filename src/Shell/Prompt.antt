-- ===== src/Shell/Prompt.antt =====
-- `eval` of tsh.c: when it returns, no job is in the foreground.
use past_work.Base.{
  ℕ, ◌≡◌, refl, inl, inr, Bool, true, false, Option, none, some, List, [], ◌∷◌, ◌||◌, arith,
  Option-cases, Bool-cases,
}
use past_work.Base.Text.{CString, codes, str_eq}
use past_work.Shell.Jobs.{JobState, fg, bg, is_fg, Sig, sigcont, Shell, add_job, job_at}
use past_work.Shell.Signals.{Caught, goes, set_state, kill, wait_fg}
use past_work.Shell.Parse.{end_with_space, parse_line}
use past_work.Shell.Commands.{find_job, resume, do_bgfg, builtin_cmd, launch, eval}
use past_work.Shell.Caught.{wait_fg-NoFg}
use past_work.Shell.Foreground.{NoFg, OnlyFg, OnlyFg-of_NoFg, Step-cases, All-set, All-add_job}

set_state-NoFg :
    (i : ℕ) (state : JobState) (s : Shell)
    → is_fg state ≡ false
    → NoFg s.jobs
    → NoFg (set_state i state s).jobs
unfolding set_state
set_state-NoFg i state s k h = All-set (λ j. is_fg j.state ≡ false) s.jobs i _ k h

set_state-OnlyFg :
    (i pid : ℕ) (s : Shell)
    → (job_at s.jobs i).pid ≡ pid
    → NoFg s.jobs
    → OnlyFg pid (set_state i fg s).jobs
unfolding set_state
set_state-OnlyFg i pid s e h =
    All-set (λ j. is_fg j.state ≡ true → j.pid ≡ pid) s.jobs i _ (λ _. e)
      (OnlyFg-of_NoFg pid s.jobs h)

module _ (accepts : ℕ → Sig → Bool) (signals : List Caught) where
  pub kill-jobs :
      (pid : ℕ) (sig : Sig) (s : Shell) {u : Unit {0}} {s' : Shell}
      → kill accepts pid sig s ≡ goes u s'
      → s'.jobs ≡ s.jobs
  unfolding kill
  kill-jobs pid sig s e = ground arith

  resume-NoFg :
      (name : CString) (i : ℕ) (s : Shell) {s' : Shell}
      → NoFg s.jobs
      → resume accepts signals name i s ≡ some (goes tt s')
      → NoFg s'.jobs
  unfolding resume
  resume-NoFg name i s {s'} h e =
      let pid = (job_at s.jobs i).pid in
      elim (Step-cases (kill accepts pid sigcont s)) [
        | inr (code, t, run) ↦ absurd (ground arith)
        | inl (u, t, run) ↦
            let same : t.jobs ≡ s.jobs = kill-jobs pid sigcont s run in
            elim (Bool-cases (str_eq name (codes "bg"))) [
              | inl b ↦
                  let here : s'.jobs ≡ (set_state i bg t).jobs = ground arith in
                  rw here (set_state-NoFg i bg t refl (rw same h))
              | inr f ↦
                  let waited : wait_fg accepts pid signals (set_state i fg t) ≡ some (goes tt s') =
                    ground arith in
                  wait_fg-NoFg accepts pid signals (set_state i fg t) waited
                    (set_state-OnlyFg i pid t (rw same refl) (rw same h))
            ]
      ]

  do_bgfg-NoFg :
      (argv : List CString) (s : Shell) {s' : Shell}
      → NoFg s.jobs
      → do_bgfg accepts signals argv s ≡ some (goes tt s')
      → NoFg s'.jobs
  unfolding do_bgfg
  do_bgfg-NoFg [] s {s'} h e = let same : s'.jobs ≡ s.jobs = ground arith in rw same h
  do_bgfg-NoFg (name ∷ []) s {s'} h e = let same : s'.jobs ≡ s.jobs = ground arith in rw same h
  do_bgfg-NoFg (name ∷ arg ∷ args) s {s'} h e = elim (Option-cases (find_job name arg s.jobs).0) [
    | inl gone ↦ let same : s'.jobs ≡ s.jobs = ground arith in rw same h
    | inr (i, found) ↦
        resume-NoFg name i s h
          (let e' : resume accepts signals name i s ≡ some (goes tt s') = ground arith in e')
  ]

  launch-NoFg :
      (background : Bool) (cmdline : CString) (forked : Option ℕ) (s : Shell) {s' : Shell}
      → NoFg s.jobs
      → launch accepts signals background cmdline forked s ≡ some (goes tt s')
      → NoFg s'.jobs
  unfolding launch
  launch-NoFg background cmdline none s h e = absurd (ground arith)
  launch-NoFg true cmdline (some pid) s {s'} h e =
      let same : s'.jobs ≡ (add_job pid bg cmdline s).1.jobs = ground arith in
      rw same (All-add_job (λ j. is_fg j.state ≡ false) pid bg cmdline s refl h)
  launch-NoFg false cmdline (some pid) s {s'} h e =
      wait_fg-NoFg accepts pid signals (add_job pid fg cmdline s).1 e (
        All-add_job (λ j. is_fg j.state ≡ true → j.pid ≡ pid) pid fg cmdline s (λ _. refl)
          (OnlyFg-of_NoFg pid s.jobs h))

  builtin_cmd-NoFg :
      (argv : List CString) (s : Shell) {s' : Shell}
      → NoFg s.jobs
      → (builtin_cmd accepts signals argv s).1 ≡ some (goes tt s')
      → NoFg s'.jobs
  unfolding builtin_cmd
  builtin_cmd-NoFg [] s {s'} h e = let same : s'.jobs ≡ s.jobs = ground arith in rw same h
  builtin_cmd-NoFg (name ∷ args) s {s'} h e =
      elim (Bool-cases (str_eq name (codes "bg") || str_eq name (codes "fg"))) [
        | inr n ↦ let same : s'.jobs ≡ s.jobs = ground arith in rw same h
        | inl y ↦
            elim (Bool-cases (
              str_eq name (codes "jobs")
              || str_eq name (codes "quit")
              || str_eq name (codes "&"))) [
                | inl other ↦ let same : s'.jobs ≡ s.jobs = ground arith in rw same h
                | inr none_of ↦ do_bgfg-NoFg (name ∷ args) s h (
                    let e' : do_bgfg accepts signals (name ∷ args) s ≡ some (goes tt s') =
                      ground arith in
                    e')
              ]
      ]

  eval-NoFg_parsed :
      (parsed : Option (Bool × List CString)) (forked : Option ℕ) (cmdline : CString) (s s' : Shell)
      → parse_line (end_with_space cmdline) ≡ parsed
      → NoFg s.jobs
      → eval accepts signals forked cmdline s ≡ some (some (goes tt s'))
      → NoFg s'.jobs
  unfolding eval
  eval-NoFg_parsed none forked cmdline s s' p h e = absurd (ground arith)
  eval-NoFg_parsed (some (background, [])) forked cmdline s s' p h e =
      let same : s'.jobs ≡ s.jobs = ground arith in rw same h
  eval-NoFg_parsed (some (background, name ∷ args)) forked cmdline s s' p h e =
      elim (Bool-cases (builtin_cmd accepts signals (name ∷ args) s).0) [
        | inl builtin ↦ builtin_cmd-NoFg (name ∷ args) s h (
            let e' : (builtin_cmd accepts signals (name ∷ args) s).1 ≡ some (goes tt s') =
              ground arith in
            e')
        | inr program ↦ launch-NoFg background cmdline forked s h (
            let e' : launch accepts signals background cmdline forked s ≡ some (goes tt s') =
              ground arith in
            e')
      ]

  -- When no job is in the foreground and `eval` returns to the prompt, again none is, whatever the
  -- signals were: a job that was started or put in the foreground has been waited for.
  pub eval-NoFg :
      (forked : Option ℕ) (cmdline : CString) (s s' : Shell)
      → NoFg s.jobs
      → eval accepts signals forked cmdline s ≡ some (some (goes tt s'))
      → NoFg s'.jobs
  eval-NoFg forked cmdline s s' h e =
      eval-NoFg_parsed (parse_line (end_with_space cmdline)) forked cmdline s s' refl h e
