-- ===== src/Scheduler/Whole/Launch.antt =====
-- What the state of scheduler.c is once a process has been taken off the ready queue and runs.
use past_work.Base.{
  ◌≤◌, ℕ, ◌+◌, ◌≤◌, ◌≡◌, ◌≢◌, ap, subst, ◌∙◌, sym, true, false, none, some, List, ◌==◌,
  if◌then◌else◌, arith, has, Bool-cases, inl, inr, ◌++◌, ◌∷◌, has-append, length-append,
}
use past_work.Scheduler.State.{Process, Sched}
use past_work.Scheduler.Chain.{IsQueue-frame}
use past_work.Scheduler.Unlink.{not-has-middle}
use past_work.Scheduler.Release.{plain}
use past_work.Scheduler.Selection.{Taken}
use past_work.Scheduler.Whole.{entry, due, longest, in_state, Shape, Moves, fair, possible, Fair}
use past_work.Scheduler.Whole.Due.{due-launched}
use past_work.Scheduler.Whole.Books.{Fair-step, fair-launched}
use past_work.Scheduler.Whole.Moving.{Shape-Moves}
use past_work.Scheduler.Whole.Joining.{Shape-low}

-- `t` with process `p` running a burst of `v` cycles that it needs.
pub record Launched (t s' : Sched) (p v : ℕ) : Type 0 where
  pub others : (i : ℕ) → i ≢ p → s'.processes i ≡ t.processes i
  pub quantum : ℕ
  pub mine :
      s'.processes p
      ≡ record (t.processes p) { condition = 2; operating = true; quantum = quantum; cpu_burst = v }
  pub globals : s' ≡ record t {
    processes = s'.processes;
    selection = some p;
    random_lines = s'.random_lines;
    events = s'.events;
  }
  pub some_burst : 1 ≤ v
  pub needed : (t.processes p).cpu_time + v ≤ (t.processes p).c

module _ (s t s' : Sched) (pre : List ℕ) (p : ℕ) (post bs : List ℕ) (v : ℕ)
    (h : Shape s (pre ++ p ∷ post) bs) (k : Taken s (pre ++ post) p t) (l : Launched t s' p v) where
  here : (s.processes p).condition ≡ 1
  here = ground (arith, h.waits p, has-append p pre (p ∷ post))

  without_p : (i : ℕ) → has i (pre ++ post) ≡ (if p == i then false else has i (pre ++ p ∷ post))
  without_p i = elim (Bool-cases (p == i)) [
    | inl e ↦
        let at : p ≡ i = ground arith in
        let out = not-has-middle pre p post h.ready.distinct in ground arith
    | inr e ↦ ground (arith, has-append i pre post, has-append i pre (p ∷ post))
  ]

  -- The fields of the processes in the queue are those before.
  bare :
      (i : ℕ)
      → record (t.processes i) { fresh_prime = none }
        ≡ record (s.processes i) { fresh_prime = none }
  bare = k.1.fields

  launch-Moves : Moves s s' p 2
  launch-Moves = record {
    condition = λ i. elim (Bool-cases (p == i)) [
      | inl e ↦
          let at : p ≡ i = ground arith in
          rw (← at) (ap (λ (q : Process). q.condition) l.mine ∙ ground arith)
      | inr e ↦
          ap (λ (q : Process). q.condition) (l.others i (ground arith))
          ∙ ap (λ (q : Process). q.condition) (bare i)
          ∙ ground arith
    ];
    ids = λ i. elim (Bool-cases (p == i)) [
      | inl e ↦
          let at : p ≡ i = ground arith in
          rw (← at) (
            ap (λ (q : Process). q.process_id) l.mine ∙ ap (λ (q : Process). q.process_id) (bare p))
      | inr e ↦
          ap (λ (q : Process). q.process_id) (l.others i (ground arith))
          ∙ ap (λ (q : Process). q.process_id) (bare i)
    ];
    same_count =
        ap (λ (u : Sched). u.count_prime) l.globals ∙ ap (λ (u : Sched). u.count_prime) k.1.globals;
  }

  -- The links of the blocked list are those before.
  pushed : (i : ℕ) → (s'.processes i).push_block ≡ (s.processes i).push_block
  pushed i = elim (Bool-cases (p == i)) [
    | inl e ↦
        let at : p ≡ i = ground arith in
        rw (← at)
          (ap (λ (q : Process). q.push_block) l.mine ∙ ap (λ (q : Process). q.push_block) (bare p))
    | inr e ↦
        ap (λ (q : Process). q.push_block) (l.others i (ground arith))
        ∙ ap (λ (q : Process). q.push_block) (bare i)
  ]

  queued : (i : ℕ) → (s'.processes i).fresh_prime ≡ (t.processes i).fresh_prime
  queued i = elim (Bool-cases (p == i)) [
    | inl e ↦
        let at : p ≡ i = ground arith in rw (← at) (ap (λ (q : Process). q.fresh_prime) l.mine)
    | inr e ↦ ap (λ (q : Process). q.fresh_prime) (l.others i (ground arith))
  ]

  same_blocked : s'.blocked ≡ s.blocked
  same_blocked = ap (λ (u : Sched). u.blocked) l.globals ∙ ap (λ (u : Sched). u.blocked) k.1.globals

  pub Shape-Launched : s.selection ≡ none → Shape s' (pre ++ post) bs
  Shape-Launched free =
      let m = launch-Moves in
      let c1 = here in
      let sel : s'.selection ≡ some p = ap (λ (u : Sched). u.selection) l.globals in
      Shape-Moves h m (Shape-low p h (omega (arith, c1))) (omega (arith, c1)) (omega arith)
        (omega arith)
        (record {
          ready =
              IsQueue-frame (pre ++ post) (ap (λ (u : Sched). u.ready) l.globals) (λ i _. queued i)
                k.0;
          blocked = IsQueue-frame bs same_blocked (λ i _. pushed i) h.blocked;
          waits = without_p;
          sleeps = λ i. elim (Bool-cases (p == i)) [
            | inl e ↦ let at : p ≡ i = ground arith in ground (arith, h.sleeps i)
            | inr e ↦ ground arith
          ];
          runs = λ i. ground (arith, h.runs i);
          unqueued = λ i n.
              let c = m.condition i in
              elim (Bool-cases (p == i)) [
                | inl e ↦ let at : p ≡ i = ground arith in rw (← at) (queued p ∙ k.2)
                | inr e ↦
                    let other : in_state s 1 i ≡ false = ground arith in
                    let out : has i (pre ++ post) ≡ false =
                      ground (arith, without_p i, h.waits i) in
                    queued i
                    ∙ ap (λ (q : Process). q.fresh_prime) (k.3 i out (ground arith))
                    ∙ h.unqueued i other
              ];
          unblocked = λ i n.
              let c = m.condition i in
              let other : in_state s 3 i ≡ false = ground arith in pushed i ∙ h.unblocked i other;
          total = ground (arith, length-append pre post, length-append pre (p ∷ post));
          started = ground (
            arith,
            ap (λ (u : Sched). u.total_prime) l.globals,
            ap (λ (u : Sched). u.total_prime) k.1.globals,
          );
          finished = ground (
            arith,
            ap (λ (u : Sched). u.completion) l.globals,
            ap (λ (u : Sched). u.completion) k.1.globals,
          );
        })

  plain_mine :
      plain (s'.processes p)
      ≡ plain (record (s.processes p) {
        condition = 2;
        operating = true;
        quantum = l.quantum;
        cpu_burst = v;
      })
  plain_mine =
      ap (λ (q : Process). plain q) l.mine
      ∙ ap
          (λ (q : Process).
            plain
              (record q { condition = 2; operating = true; quantum = l.quantum; cpu_burst = v }))
          (bare p)

  -- The cost grows by the block behind the burst at most, and of the process that runs alone.
  pub credit :
      (i : ℕ)
      → due (s'.processes i)
        ≤ due (s.processes i)
          + (if in_state s' 2 i then longest (s'.processes i).m (s'.processes i).c else 0)
  credit i = elim (Bool-cases (p == i)) [
    | inl e ↦
        let at : p ≡ i = ground arith in
        rw (← at) (
          subst
            (λ (q : Process).
              due q ≤ due (s.processes p) + (if q.condition == 2 then longest q.m q.c else 0))
            (sym plain_mine) (due-launched (s.processes p) v l.quantum here))
    | inr e ↦
        let cost =
          ap (λ (q : Process). due q) (l.others i (ground arith))
          ∙ ap (λ (q : Process). due q) (bare i) in
        omega (arith, cost)
  ]

  pub launch_entries : (i : ℕ) → entry (s'.processes i) ≡ entry (s.processes i)
  launch_entries i = elim (Bool-cases (p == i)) [
    | inl e ↦ let at : p ≡ i = ground arith in rw (← at) (ap (λ (q : Process). entry q) plain_mine)
    | inr e ↦
        ap (λ (q : Process). entry q) (l.others i (ground arith))
        ∙ ap (λ (q : Process). entry q) (bare i)
  ]

  pub Fair-Launched : (now next : ℕ) → Fair now next 1 s → Fair now next 1 s'
  Fair-Launched now next b =
      let c1 = here in
      let (can, ok) = b p (Shape-low p h (omega (arith, c1))) in
      let some_burst = l.some_burst in
      let needed : (s.processes p).cpu_time + v ≤ (s.processes p).c = omega (
        arith,
        l.needed,
        ap (λ (q : Process). q.cpu_time) (bare p),
        ap (λ (q : Process). q.c) (bare p),
      ) in
      let f = plain_mine in
      Fair-step s s' p now next 1 next 1 b launch-Moves.same_count
        (λ i ne.
          ap (λ (q : Process). plain q) (l.others i ne) ∙ ap (λ (q : Process). plain q) (bare i))
        (λ i ne f. f)
        (
          ap (λ (q : Process). possible q) f ∙ ground arith,
          ap (λ (q : Process). fair now next 1 q) f
              ∙ fair-launched now next (s.processes p) v l.quantum c1 some_burst needed ok,
        )
