-- ===== src/Scheduler/Whole/Executing.antt =====
-- `executeR` of scheduler.c on a state in shape.

use past_work.Base.{
  ℕ, ◌<◌, ◌≡◌, refl, ap, ◌∙◌, true, false, not, none, some, List, ◌==◌, ◌&&◌, ◌⊎◌, Option-cases,
  if◌then◌else◌, arith, length, Bool-cases, inl, inr, ◌++◌, ◌∷◌, [], is_null,
}
use past_work.Scheduler.State.{Process, Sched, done}
use past_work.Scheduler.Dispatch.{run_first, run_shortest, execute_r}
use past_work.Scheduler.ReadyQueue.{d_setup-cons}
use past_work.Scheduler.Unlink.{has-middle}
use past_work.Scheduler.Shortest.{shortest_from-shortest}
use past_work.Scheduler.Selection.{take_ready-Taken}
use past_work.Scheduler.Whole.{Good, Drawn}
use past_work.Scheduler.Whole.Drawing.{
  drawn, draw_burst-drawn, running_first, run_first-runs, run_shortest-runs, execute_r-quiet,
  execute_r-starts,
}
use past_work.Scheduler.Whole.Execute.{
  List-cases, some_line, needs, launched-Drawn, launched-Good, queue_facts, some_range, drawn_first,
  drawn_short, burst, first-burst, first-Launched, short-Launched, short-draw,
}

module _ (alg n now next : ℕ) (s : Sched) (g : Good now next 1 s) (x : ℕ) (xs : List ℕ)
    (e : g.ready_list ≡ x ∷ xs) (free : s.selection ≡ none)
    (lines : 0 < length s.random_lines) where
  run_first-Good : (s' : Sched) × (run_first alg n s ≡ done tt s') × Good now next 1 s' × Drawn s s'
  run_first-Good =
      let (y, rest, l) = some_line s.random_lines lines in
      let (q, _, _, room, needy) = queue_facts now next s g (x ∷ xs) e in
      let (t, pop, q', only, clear, same) = d_setup-cons s x xs q room in
      let need : needs (t.processes x) ≡ true =
        ap (λ (r : Process). needs r) (only.fields x) ∙ needy x (ground arith) in
      let l' : t.random_lines ≡ y ∷ rest = ap (λ (v : Sched). v.random_lines) only.globals ∙ l in
      let u : Sched = drawn_first alg n t x y rest need in
      (
        running_first alg u x,
        run_first-runs alg n s t u x pop
            (draw_burst-drawn t n x (t.processes x).b y rest l' (some_range (t.processes x) need))
            (first-burst alg n t x y rest need),
        launched-Good now next s t (running_first alg u x) [] x xs (burst alg n t x y rest need) g e
            free (q', only, clear, λ i out ne. same i ne) (first-Launched alg n t x y rest need),
        launched-Drawn now next s t (running_first alg u x) [] x xs (burst alg n t x y rest need) g
            e free (q', only, clear, λ i out ne. same i ne) (first-Launched alg n t x y rest need)
            (omega (arith, ap length l)),
      )

  run_shortest-Good :
      (s' : Sched) × (run_shortest n s ≡ done tt s') × Good now next 1 s' × Drawn s s'
  run_shortest-Good =
      let (y, rest, l) = some_line s.random_lines lines in
      let (q, _, _, _, _) = queue_facts now next s g (x ∷ xs) e in
      let (pre, z, post, split, found, _, _) = shortest_from-shortest s x xs q in
      let at : g.ready_list ≡ pre ++ z ∷ post = e ∙ split in
      let (q', numbered, walked, room, needy) = queue_facts now next s g (pre ++ z ∷ post) at in
      let (t, take, k) = take_ready-Taken s pre z post q' numbered walked room in
      let need : needs (t.processes z) ≡ true =
        ap (λ (r : Process). needs r) (k.1.fields z) ∙ needy z (has-middle pre z post) in
      let l' : t.random_lines ≡ y ∷ rest = ap (λ (v : Sched). v.random_lines) k.1.globals ∙ l in
      let s' : Sched = record (drawn_short alg n t z y rest need) { selection = some z } in
      (
        s',
        run_shortest-runs n s t (drawn_short alg n t z y rest need) x z q.chain.0 found take
            (short-draw alg n t z y rest need l'),
        launched-Good now next s t s' pre z post (burst alg n t z y rest need) g at free k
            (short-Launched alg n t z y rest need),
        launched-Drawn now next s t s' pre z post (burst alg n t z y rest need) g at free k
            (short-Launched alg n t z y rest need) (omega (arith, ap length l)),
      )

  starts-Good :
      (s' : Sched) × ((if alg == 3 then run_shortest n else run_first alg n) s ≡ done tt s')
      × Good now next 1 s'
      × Drawn s s'
  starts-Good = elim (Bool-cases (alg == 3)) [
    | inl b ↦ rw b run_shortest-Good
    | inr b ↦ rw b run_first-Good
  ]

quiet-Good :
    (alg n now next : ℕ) (s : Sched)
    → (alg == 2) ≡ false
    → Good now next 1 s
    → (not (s.ready.size == 0) && is_null s.selection) ≡ false
    → ((p : ℕ) × (s.selection ≡ some p)) ⊎ ((s.selection ≡ none) × (s.ready.size ≡ 0))
    → (s' : Sched) × (execute_r alg n s ≡ done tt s') × Good now next 1 s' × Drawn s s'
quiet-Good alg n now next s here g e b = (
  s,
  execute_r-quiet alg n s here e,
  g,
  record {
    same_present = refl;
    same_count = refl;
    one_line = omega arith;
    credit = λ i. omega arith;
    same_entries = λ i. refl;
    busy = elim b [ inl p ↦ inl p | inr (free, empty) ↦ inr (refl, free, empty) ];
  },
)

-- `executeR` starts a process when none runs and one is ready.
pub execute_r-Good :
    (alg n now next : ℕ) (s : Sched)
    → (alg == 2) ≡ false
    → Good now next 1 s
    → 0 < length s.random_lines
    → (s' : Sched) × (execute_r alg n s ≡ done tt s') × Good now next 1 s' × Drawn s s'
execute_r-Good alg n now next s here g lines = elim (Option-cases s.selection) [
  | inr (p, sel) ↦ quiet-Good alg n now next s here g (ground arith) (inl (p, sel))
  | inl free ↦ elim (List-cases g.ready_list) [
    | inl e ↦
        let empty : s.ready.size ≡ 0 = g.shape.ready.size ∙ ap length e in
        quiet-Good alg n now next s here g (ground arith) (inr (free, empty))
    | inr (x, xs, e) ↦
        let test : (not (s.ready.size == 0) && is_null s.selection) ≡ true =
          ground (arith, g.shape.ready.size, ap length e) in
        let (s', run, good, drawn) = starts-Good alg n now next s g x xs e free lines in
        (s', execute_r-starts alg n s here s' test run, good, drawn)
  ]
]
