-- ===== src/Scheduler/Whole/Ticking.antt =====
-- A process of scheduler.c a cycle later, and what a state in shape is about.
use past_work.Base.{
  ◌||◌, ◌⊎◌, sub32, ℕ, ◌+◌, ◌<◌, ◌≤◌, ◌^◌, ◌≡◌, refl, ap, ◌∙◌, sym, true, Option, some, List, ◌==◌,
  if◌then◌else◌, arith, Bool-cases, inl, inr, add32,
}
use past_work.Scheduler.State.{Process, Sched}
use past_work.Scheduler.Cycle.{tick}
use past_work.Scheduler.Chain.{IsQueue-frame}
use past_work.Scheduler.Census.{count, count-ext}
use past_work.Scheduler.Clock.{idle, blocked, running, waiting}
use past_work.Scheduler.Whole.Due.{taken_off, due-running, due-blocked, due-still}
use past_work.Scheduler.Whole.Books.{on_time-other, on_time-next, on_time-down}
use past_work.Scheduler.Whole.{
  entry, due, on_time, in_state, selected, number, Shape, fair, possible,
}

-- What the lists and the counters are about is the same.
pub record SameLinks (r r' : Process) : Type 0 where
  pub condition : r'.condition ≡ r.condition
  pub id : r'.process_id ≡ r.process_id
  pub fresh : r'.fresh_prime ≡ r.fresh_prime
  pub push : r'.push_block ≡ r.push_block

-- A process a cycle later, its books in order again.
pub record Later (t : ℕ) (r r' : Process) : Type 0 where
  pub links : SameLinks r r'
  pub still_possible : possible r' ≡ true
  pub books : fair (t + 1) (t + 1) 0 r' ≡ true
  pub cost : due r' + taken_off r ≤ due r
  pub same_entry : entry r' ≡ entry r

unlinked : (r : Process) → SameLinks r r
unlinked r = record { condition = refl; id = refl; fresh = refl; push = refl }

module _ (alg t : ℕ) (r : Process) (top : t + 1 < 2 ^ 31) (can : possible r ≡ true)
    (ok : fair t (t + 1) 1 r ≡ true) where
  later_idle : (r.condition ≡ 0) ⊎ (r.condition ≡ 4) → fair (t + 1) (t + 1) 0 r ≡ true
  later_idle (inl e) = ground arith
  later_idle (inr e) = ground arith

  later_blocked :
      r.condition ≡ 3
      → fair
          (t + 1)
          (t + 1)
          0
          (record r { btime = add32 r.btime 1; burst_time = sub32 r.burst_time 1 })
        ≡ true
  later_blocked e =
      let old : on_time t 3 r.operating r.burst_time r.m r.c ≡ true =
        ap (λ (n : ℕ). on_time t n r.operating r.burst_time r.m r.c) (sym e) ∙ ground arith in
      let o =
        on_time-down t r.operating r.burst_time r.m r.c (omega (arith, top)) (ground arith) old in
      ground arith

  later_running :
      r.condition ≡ 2
      → fair (t + 1) (t + 1) 0 (record r {
        cpu_time = add32 r.cpu_time 1;
        cpu_burst = sub32 r.cpu_burst 1;
        quantum = if alg == 1 then sub32 r.quantum 1 else r.quantum;
      })
        ≡ true
  later_running e =
      let old : on_time (t + 1) 2 r.operating r.burst_time r.m r.c ≡ true =
        sym (on_time-next t r.operating r.burst_time r.m r.c)
        ∙ ap (λ (n : ℕ). on_time t n r.operating r.burst_time r.m r.c) (sym e)
        ∙ ground arith in
      ground arith

  later_waiting :
      r.condition ≡ 1
      → fair (t + 1) (t + 1) 0 (record r { current_waiting_time = add32 r.current_waiting_time 1 })
        ≡ true
  later_waiting e =
      let o =
        on_time-other (t + 1) 1 r.operating r.burst_time r.m r.c (omega arith) (omega arith) in
      ground arith

  cost_blocked :
      r.condition ≡ 3
      → due (record r { btime = add32 r.btime 1; burst_time = sub32 r.burst_time 1 }) + taken_off r
        ≤ due r
  cost_blocked e =
      let old : on_time t 3 r.operating r.burst_time r.m r.c ≡ true =
        ap (λ (n : ℕ). on_time t n r.operating r.burst_time r.m r.c) (sym e) ∙ ground arith in
      due-blocked t (add32 r.btime 1) r e (ground arith) old top

  cost_running :
      r.condition ≡ 2
      → due (record r {
        cpu_time = add32 r.cpu_time 1;
        cpu_burst = sub32 r.cpu_burst 1;
        quantum = if alg == 1 then sub32 r.quantum 1 else r.quantum;
      })
          + taken_off r
        ≤ due r
  cost_running e =
      due-running r (sub32 r.cpu_burst 1) (if alg == 1 then sub32 r.quantum 1 else r.quantum) e
        (ground arith) (ground arith)

  pub tick-Later : r.condition ≤ 4 → (r' : Process) × (tick alg r ≡ some r') × Later t r r'
  tick-Later k = elim (Bool-cases (r.condition == 0 || r.condition == 4)) [
    | inl e ↦
        let still : (r.condition ≡ 0) ⊎ (r.condition ≡ 4) = elim (Bool-cases (r.condition == 0)) [
          | inl z ↦ inl (ground arith)
          | inr n ↦ inr (ground arith)
        ] in
        (
          r,
          idle alg r still,
          record {
            links = unlinked r;
            still_possible = can;
            books = later_idle still;
            cost = due-still r (ground arith) (ground arith);
            same_entry = refl;
          },
        )
    | inr n ↦ elim (Bool-cases (r.condition == 3)) [
      | inl e ↦
          let e3 : r.condition ≡ 3 = ground arith in
          (
            _,
            blocked alg r e3,
            record {
              links = record { condition = refl; id = refl; fresh = refl; push = refl };
              still_possible = can;
              books = later_blocked e3;
              cost = cost_blocked e3;
              same_entry = refl;
            },
          )
      | inr n3 ↦ elim (Bool-cases (r.condition == 2)) [
        | inl e ↦
            let e2 : r.condition ≡ 2 = ground arith in
            (
              _,
              running alg r e2,
              record {
                links = record { condition = refl; id = refl; fresh = refl; push = refl };
                still_possible = can;
                books = later_running e2;
                cost = cost_running e2;
                same_entry = refl;
              },
            )
        | inr n2 ↦
            let e1 : r.condition ≡ 1 = ground (arith, k) in
            (
              _,
              waiting alg r e1,
              record {
                links = record { condition = refl; id = refl; fresh = refl; push = refl };
                still_possible = can;
                books = later_waiting e1;
                cost =
                    due-still (record r { current_waiting_time = add32 r.current_waiting_time 1 })
                      (omega (arith, e1)) (omega (arith, e1));
                same_entry = refl;
              },
            )
      ]
    ]
  ]

pub record Alike (s s' : Sched) : Type 0 where
  pub links : (i : ℕ) → SameLinks (s.processes i) (s'.processes i)
  pub ready : s'.ready ≡ s.ready
  pub blocked : s'.blocked ≡ s.blocked
  pub selection : s'.selection ≡ s.selection
  pub same_count : s'.count_prime ≡ s.count_prime
  pub total : s'.total_prime ≡ s.total_prime
  pub completion : s'.completion ≡ s.completion

-- A change that leaves those alone keeps the state in shape.
pub Shape-Alike : (s s' : Sched) (rs bs : List ℕ) → Alike s s' → Shape s rs bs → Shape s' rs bs
Shape-Alike s s' rs bs a h =
    let state : (v i : ℕ) → in_state s' v i ≡ in_state s v i =
      λ v i. ap (λ (n : ℕ). n == v) (a.links i).condition in
    let counts : (v : ℕ)
        → count s'.count_prime (in_state s' v) ≡ count s.count_prime (in_state s v) =
      λ v.
        count-ext s'.count_prime (in_state s' v) (in_state s v) (λ i low. state v i)
        ∙ ap (λ (n : ℕ). count n (in_state s v)) a.same_count in
    record {
      ready = IsQueue-frame rs a.ready (λ i _. (a.links i).fresh) h.ready;
      blocked = IsQueue-frame bs a.blocked (λ i _. (a.links i).push) h.blocked;
      waits = λ i. h.waits i ∙ sym (state 1 i);
      sleeps = λ i. h.sleeps i ∙ sym (state 3 i);
      runs = λ i. ap (λ (o : Option ℕ). selected o i) a.selection ∙ h.runs i ∙ sym (state 2 i);
      known = λ i. omega (arith, (a.links i).condition, h.known i);
      beyond = λ i high. (a.links i).condition ∙ h.beyond i (omega (arith, high, a.same_count));
      unqueued = λ i n. (a.links i).fresh ∙ h.unqueued i (sym (state 1 i) ∙ n);
      unblocked = λ i n. (a.links i).push ∙ h.unblocked i (sym (state 3 i) ∙ n);
      numbered = λ i low. (a.links i).id ∙ h.numbered i (omega (arith, low, a.same_count));
      total = omega (
        arith,
        h.total,
        counts 0,
        counts 4,
        a.same_count,
        ap (λ (o : Option ℕ). number o) a.selection,
      );
      started = omega (arith, h.started, counts 0, a.total, a.same_count);
      finished = omega (arith, h.finished, counts 4, a.completion);
      small = omega (arith, h.small, a.same_count);
    }
