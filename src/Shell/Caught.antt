-- ===== src/Shell/Caught.antt =====
-- What the signals that tsh.c catches do to the foreground job, at a prompt and in `waitfg`.
use past_work.Base.{ℕ, ◌≡◌, inl, inr, Bool, false, some, List, [], ◌∷◌, ◌==◌, arith, Bool-cases}
use past_work.Shell.Jobs.{Job, Sig, sigint, sigtstp, is_fg, Shell, fg_pid}
use past_work.Shell.Signals.{
  goes, Caught, child, interrupt, stop, quit, sigchld_handler, kill, forward_to_fg, handle, wait_fg,
}
use past_work.Shell.Foreground.{
  NoFg, OnlyFg, OnlyFg-of_NoFg, NoFg-of_OnlyFg, Step-cases, sigchld_handler-OnlyFg,
}

-- No job can be in the foreground under two PIDs.
NoFg-of_two : (js : List Job) → OnlyFg 0 js → OnlyFg 1 js → NoFg js
NoFg-of_two [] h k = tt
NoFg-of_two (j ∷ js) h k = (
  elim (Bool-cases (is_fg j.state)) [
    | inl f ↦ let a = h.0 f in let b = k.0 f in absurd (omega arith)
    | inr n ↦ n
  ],
  NoFg-of_two js h.1 k.1,
)

module _ (accepts : ℕ → Sig → Bool) where
  pub forward_to_fg-jobs :
      (sig : Sig) (s : Shell) {u : Unit {0}} {s' : Shell}
      → forward_to_fg accepts sig s ≡ goes u s'
      → s'.jobs ≡ s.jobs
  unfolding forward_to_fg kill
  forward_to_fg-jobs sig s e = ground arith

  handle-OnlyFg :
      (pid : ℕ) (sig : Caught) (s : Shell) {u : Unit {0}} {s' : Shell}
      → handle accepts sig s ≡ goes u s'
      → OnlyFg pid s.jobs
      → OnlyFg pid s'.jobs
  unfolding handle
  handle-OnlyFg pid (child reports) s {s'} e h = elim (Step-cases (sigchld_handler reports s)) [
    | inr (code, t, run) ↦ absurd (ground arith)
    | inl (rest, t, run) ↦
        let same : s' ≡ t = ground arith in rw same (sigchld_handler-OnlyFg pid reports s run h)
  ]
  handle-OnlyFg pid interrupt s e h = rw (forward_to_fg-jobs sigint s e) h
  handle-OnlyFg pid stop s e h = rw (forward_to_fg-jobs sigtstp s e) h
  handle-OnlyFg pid quit s e h = absurd (ground arith)

  pub handle-NoFg :
      (sig : Caught) (s : Shell) {u : Unit {0}} {s' : Shell}
      → handle accepts sig s ≡ goes u s'
      → NoFg s.jobs
      → NoFg s'.jobs
  handle-NoFg sig s {s'} e h =
      NoFg-of_two s'.jobs (handle-OnlyFg 0 sig s e (OnlyFg-of_NoFg 0 s.jobs h))
        (handle-OnlyFg 1 sig s e (OnlyFg-of_NoFg 1 s.jobs h))

  -- `waitfg` for the only job that may be in the foreground returns when none is.
  pub wait_fg-NoFg :
      (pid : ℕ) (signals : List Caught) (s : Shell) {s' : Shell}
      → wait_fg accepts pid signals s ≡ some (goes tt s')
      → OnlyFg pid s.jobs
      → NoFg s'.jobs
  unfolding wait_fg
  wait_fg-NoFg pid [] s {s'} e h =
      let over : (pid == fg_pid s.jobs) ≡ false = ground arith in
      let same : s' ≡ s = ground arith in rw same (NoFg-of_OnlyFg pid s.jobs h over)
  wait_fg-NoFg pid (sig ∷ signals) s {s'} e h = elim (Bool-cases (pid == fg_pid s.jobs)) [
    | inr over ↦ let same : s' ≡ s = ground arith in rw same (NoFg-of_OnlyFg pid s.jobs h over)
    | inl waits ↦ elim (Step-cases (handle accepts sig s)) [
      | inl (u, t, run) ↦
          let e' : wait_fg accepts pid signals t ≡ some (goes tt s') = ground arith in
          wait_fg-NoFg pid signals t e' (handle-OnlyFg pid sig s run h)
      | inr (code, t, run) ↦ absurd (ground arith)
    ]
  ]
