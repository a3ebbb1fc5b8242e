-- ===== src/Scheduler/Whole/Unblock.antt =====
-- `execxuteB` of scheduler.c on a state in shape.
use past_work.Base.Chains.{write_at-same, write_at-other}
use past_work.Base.{
  ◌≤◌, ℕ, ◌≡◌, refl, ap, subst, ◌∙◌, true, false, List, ◌==◌, if◌then◌else◌, arith, has, Bool-cases,
  inl, inr, ◌++◌, ◌∷◌, [], ◌⊎◌, has-append, length-append,
}
use past_work.Scheduler.State.{Process, Sched, done}
use past_work.Scheduler.Queues.{execute_b}
use past_work.Scheduler.Unlink.{not-has-middle}
use past_work.Scheduler.Release.{Released, Lists}
use past_work.Scheduler.Unblock.{expired, Waits, execute_b-Waits, execute_b-first}
use past_work.Scheduler.Whole.{
  entry, due, Kept-refl, in_state, number, Shape, Moves, Good, Kept, fair, possible, Fair,
}
use past_work.Scheduler.Whole.Due.{due-released}
use past_work.Scheduler.Whole.Books.{Fair-step, fair-released}
use past_work.Scheduler.Whole.Moving.{Shape-Moves}
use past_work.Scheduler.Whole.Joining.{Shape-low, has-snoc}

-- The blocked list either waits, or has a first process whose time is over.
first_expired :
    (s : Sched) (bs : List ℕ)
    → Waits s bs
      ⊎ ((pre : List ℕ) × (p : ℕ) × (post : List ℕ) × (bs ≡ pre ++ p ∷ post)
          × Waits s pre
          × (expired s p ≡ true))
first_expired s [] = inl tt
first_expired s (x ∷ bs) = elim (Bool-cases (expired s x)) [
  | inl e ↦ inr ([], x, bs, refl, tt, e)
  | inr e ↦ elim (first_expired s bs) [
    | inl w ↦ inl (e, w)
    | inr (pre, p, post, same, w, over) ↦ inr (x ∷ pre, p, post, ap (◌∷◌ x) same, (e, w), over)
  ]
]

Shape-Lists : (s : Sched) (rs bs : List ℕ) → Shape s rs bs → Lists s bs rs
Shape-Lists s rs bs h = record {
  blocked = h.blocked;
  ready = h.ready;
  numbered = λ i k. h.numbered i (Shape-low i h (ground (arith, h.sleeps i)));
  apart = λ i k. ground (arith, h.sleeps i, h.waits i);
  clear = λ i k. h.unqueued i (ground (arith, h.sleeps i));
  room = omega (arith, h.total, h.small);
  bounded = omega (arith, h.total, h.small);
  walked = omega (arith, h.total);
}

module _ (s s' : Sched) (pre : List ℕ) (p : ℕ) (post rs : List ℕ) (h : Shape s rs (pre ++ p ∷ post))
    (r : Released s (pre ++ post) rs p s') where
  here : (s.processes p).condition ≡ 3
  here = ground (arith, h.sleeps p, has-append p pre (p ∷ post))

  without_p : (i : ℕ) → has i (pre ++ post) ≡ (if p == i then false else has i (pre ++ p ∷ post))
  without_p i = elim (Bool-cases (p == i)) [
    | inl e ↦
        let at : p ≡ i = ground arith in
        let out = not-has-middle pre p post h.blocked.distinct in ground arith
    | inr e ↦ ground (arith, has-append i pre post, has-append i pre (p ∷ post))
  ]

  released-Moves : Moves s s' p 1
  released-Moves = record {
    condition = λ i. ap (λ (q : Process). q.condition) (r.fields i) ∙ ground arith;
    ids = λ i. ap (λ (q : Process). q.process_id) (r.fields i) ∙ ground arith;
    same_count = ap (λ (u : Sched). u.count_prime) r.globals;
  }

  Shape-Released : Shape s' (rs ++ p ∷ []) (pre ++ post)
  Shape-Released =
      let m = released-Moves in
      let c3 = here in
      Shape-Moves h m (Shape-low p h (omega (arith, c3))) (omega (arith, c3)) (omega arith)
        (omega arith)
        (record {
          ready = r.ready;
          blocked = r.blocked;
          waits = λ i. has-snoc i p rs;
          sleeps = without_p;
          runs =
              λ i. let sel = ap (λ (u : Sched). u.selection) r.globals in ground (arith, h.runs i);
          unqueued = λ i n.
              let c = m.condition i in
              let other : in_state s 1 i ≡ false = ground arith in
              r.others i (h.waits i ∙ other) ∙ h.unqueued i other;
          unblocked = λ i n.
              let c = m.condition i in
              elim (Bool-cases (p == i)) [
                | inl e ↦ let at : p ≡ i = ground arith in rw (← at) r.free
                | inr e ↦
                    let other : in_state s 3 i ≡ false = ground arith in
                    let out : has i (pre ++ post) ≡ false =
                      ground (arith, without_p i, h.sleeps i) in
                    r.outside i out (ground arith) ∙ h.unblocked i other
              ];
          total =
              let sel = ap (λ (u : Sched). number u.selection) r.globals in
              ground (
                arith,
                length-append rs (p ∷ []),
                length-append pre post,
                length-append pre (p ∷ post),
              );
          started = ground (arith, ap (λ (u : Sched). u.total_prime) r.globals);
          finished = ground (arith, ap (λ (u : Sched). u.completion) r.globals);
        })

  Fair-Released : (t : ℕ) → Fair t t 1 s → Fair t t 1 s'
  Fair-Released t b =
      let c3 = here in
      let (can, ok) = b p (Shape-low p h (omega (arith, c3))) in
      Fair-step s s' p t t 1 t 1 b released-Moves.same_count (λ i ne. r.fields i ∙ ground arith)
        (λ i ne f. f)
        (
          ap (λ (q : Process). possible q) (r.fields p) ∙ ground arith,
          ap (λ (q : Process). fair t t 1 q) (r.fields p)
              ∙ ap (λ (q : Process). fair t t 1 q) (write_at-same s.processes p _)
              ∙ fair-released t t (s.processes p) c3 ok,
        )

  lower_Released : (i : ℕ) → due (s'.processes i) ≤ due (s.processes i)
  lower_Released i = elim (Bool-cases (p == i)) [
    | inl e ↦
        let at : p ≡ i = ground arith in
        let changed = ap (λ (q : Process). due q) (r.fields p) in
        let here_due =
          ap (λ (q : Process). due q)
            (write_at-same s.processes p (record (s.processes p) { condition = 1 })) in
        rw (← at) (omega (arith, changed, here_due, due-released (s.processes p) here))
    | inr e ↦
        let changed = ap (λ (q : Process). due q) (r.fields i) in
        let kept =
          ap (λ (q : Process). due q)
            (write_at-other s.processes p (record (s.processes p) { condition = 1 }) i
              (ground arith)) in
        omega (arith, changed, kept)
  ]

-- After `execxuteB` a process is ready, or every blocked process has still to wait.
abbrev pub Active : Sched → Type 0
Active s =
    ((p : ℕ) × ((s.processes p).condition ≡ 1))
    ⊎ ((i : ℕ) → (s.processes i).condition ≡ 3 → expired s i ≡ false)

Waits-has : (s : Sched) (bs : List ℕ) (i : ℕ) → Waits s bs → has i bs ≡ true → expired s i ≡ false
Waits-has s [] i w h = absurd (ground arith)
Waits-has s (x ∷ bs) i (e, w) h = elim (Bool-cases (i == x)) [
  | inl at ↦ let same : i ≡ x = ground arith in rw same e
  | inr off ↦ Waits-has s bs i w (ground arith)
]

-- `execxuteB` keeps a state good.
pub execute_b-Good :
    (t : ℕ) (s : Sched)
    → Good t t 1 s
    → (s' : Sched) × (execute_b s ≡ done tt s') × Good t t 1 s' × Kept s s' × Active s'
execute_b-Good t s g = elim (first_expired s g.blocked_list) [
  | inl w ↦ (
    s,
    execute_b-Waits s g.blocked_list g.shape.blocked (omega (arith, g.shape.total)) w,
    g,
    Kept-refl s,
    inr (λ i e3. Waits-has s g.blocked_list i w (ground (arith, g.shape.sleeps i))),
  )
  | inr (pre, p, post, e, w, over) ↦
      let h : Shape s g.ready_list (pre ++ p ∷ post) = subst (Shape s g.ready_list) e g.shape in
      let (s', run, r) =
        execute_b-first s pre p post g.ready_list (Shape-Lists s g.ready_list (pre ++ p ∷ post) h) w
          over in
      (
        s',
        run,
        record {
          ready_list = g.ready_list ++ p ∷ [];
          blocked_list = pre ++ post;
          shape = Shape-Released s s' pre p post g.ready_list h r;
          books = Fair-Released s s' pre p post g.ready_list h r t g.books;
        },
        record {
          same_present = ap (λ (u : Sched). u.present) r.globals;
          same_count = ap (λ (u : Sched). u.count_prime) r.globals;
          same_lines = ap (λ (u : Sched). u.random_lines) r.globals;
          lower = lower_Released s s' pre p post g.ready_list h r;
          same_entries = λ i. ap (λ (q : Process). entry q) (r.fields i) ∙ ground arith;
        },
        inl (p, ap (λ (q : Process). q.condition) (r.fields p) ∙ ground arith),
      )
]
