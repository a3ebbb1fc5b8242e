-- ===== src/Shell/Session.antt =====
-- What holds of tsh.c whenever it waits for a line, and how it ends.
use past_work.Base.{
  ℕ, ◌≡◌, ◌⊎◌, refl, inl, inr, Bool, true, false, some, List, [], ◌∷◌, arith, Option-cases,
}
use past_work.Shell.Jobs.{Sig, Shell, init_jobs}
use past_work.Shell.Signals.{goes, handle}
use past_work.Shell.Commands.{eval}
use past_work.Shell.Foreground.{NoFg, Step-cases}
use past_work.Shell.Caught.{handle-NoFg}
use past_work.Shell.Prompt.{eval-NoFg}
use past_work.Shell.MainLoop.{
  Options, usage_exit, options, read_options, Input, whole_line, unfinished_line, end_of_file,
  read_error, caught, at_prompt, ask, main_loop, initial_shell, main,
}

Options-cases :
    (o : Options)
    → ((verbose : Bool) × (o ≡ usage_exit verbose))
      ⊎ ((verbose : Bool) × (emit_prompt : Bool) × (o ≡ options verbose emit_prompt))
Options-cases (usage_exit verbose) = inl (verbose, refl)
Options-cases (options verbose emit_prompt) = inr (verbose, emit_prompt, refl)

module _ (accepts : ℕ → Sig → Bool) where
  main_loop-NoFg :
      (emit_prompt : Bool) (inputs : List Input) (s : Shell) {s' : Shell}
      → NoFg s.jobs
      → main_loop accepts emit_prompt inputs s ≡ at_prompt s'
      → NoFg s'.jobs
  unfolding main_loop
  main_loop-NoFg emit_prompt [] s {s'} h e = let same : s' ≡ s = ground arith in rw same h
  main_loop-NoFg emit_prompt (whole_line forked signals cmdline ∷ inputs) s {s'} h e =
      elim (Option-cases (eval accepts signals forked cmdline s)) [
        | inl over ↦ absurd (ground arith)
        | inr (result, parsed) ↦ elim (Option-cases result) [
          | inl waits ↦ absurd (ground arith)
          | inr (step, came) ↦ elim (Step-cases step) [
            | inr (code, t, run) ↦ absurd (ground arith)
            | inl (u, t, run) ↦
                let r : eval accepts signals forked cmdline s ≡ some (some (goes u t)) =
                  ground arith in
                let e' : main_loop accepts emit_prompt inputs (ask emit_prompt t) ≡ at_prompt s' =
                  ground arith in
                let asked : (ask emit_prompt t).jobs ≡ t.jobs = ground arith in
                main_loop-NoFg emit_prompt inputs (ask emit_prompt t)
                  (rw asked (eval-NoFg accepts signals forked cmdline s t h r)) e'
          ]
        ]
      ]
  main_loop-NoFg emit_prompt (unfinished_line cmdline ∷ inputs) s h e = absurd (ground arith)
  main_loop-NoFg emit_prompt (end_of_file ∷ inputs) s h e = absurd (ground arith)
  main_loop-NoFg emit_prompt (read_error ∷ inputs) s h e = absurd (ground arith)
  main_loop-NoFg emit_prompt (caught sig ∷ inputs) s {s'} h e =
      elim (Step-cases (handle accepts sig s)) [
        | inr (code, t, run) ↦ absurd (ground arith)
        | inl (u, t, run) ↦
            let e' : main_loop accepts emit_prompt inputs t ≡ at_prompt s' = ground arith in
            main_loop-NoFg emit_prompt inputs t (handle-NoFg accepts sig s run h) e'
      ]

init_jobs-NoFg : NoFg init_jobs
init_jobs-NoFg = (
  refl,
  (
    refl,
    (
      refl,
      (
        refl,
        (
          refl,
          (
            refl,
            (refl, (refl, (refl, (refl, (refl, (refl, (refl, (refl, (refl, (refl, tt)))))))))),
          ),
        ),
      ),
    ),
  ),
)

-- Whenever `main` waits for a line, whatever its options are and whichever lines, reports about
-- children and keys have come before, no job is in the foreground.
pub main-NoFg :
    (accepts : ℕ → Sig → Bool) (letters : List ℕ) (inputs : List Input) (s : Shell)
    → main accepts letters inputs ≡ at_prompt s
    → NoFg s.jobs
unfolding main
main-NoFg accepts letters inputs s e = elim (Options-cases (read_options false true letters)) [
  | inl (verbose, help) ↦ absurd (ground arith)
  | inr (verbose, emit_prompt, o) ↦
      let e' : main_loop accepts emit_prompt inputs (ask emit_prompt (initial_shell verbose))
          ≡ at_prompt s =
        ground arith in
      let asked : (ask emit_prompt (initial_shell verbose)).jobs ≡ init_jobs = ground arith in
      main_loop-NoFg accepts emit_prompt inputs (ask emit_prompt (initial_shell verbose))
        (rw asked init_jobs-NoFg) e'
]
