-- ===== src/Scheduler/Whole/Joined.antt =====
-- The whole state of scheduler.c after a process has joined a queue, gone on or ended.
use past_work.Base.{
  ℕ, ◌+◌, ◌<◌, ◌≤◌, ◌≡◌, ◌≢◌, ap, ◌∙◌, false, Option, none, some, List, [], ◌∷◌, ◌++◌, ◌==◌,
  if◌then◌else◌, arith, length-append, Bool-cases, inl, inr, ◌⊎◌,
}
use past_work.Scheduler.State.{Sched}
use past_work.Scheduler.Chain.{IsQueue-frame}
use past_work.Scheduler.Whole.Moving.{one_if, Shape-Moves}
use past_work.Scheduler.Whole.{in_state, selected, number, Shape, Moves}
use past_work.Scheduler.Whole.Joining.{Touched, Joined, Shape-low, has-snoc, unlinked}

-- The whole state after a process has joined the ready queue, whatever process runs then.
pub Shape-enqueue :
    {s u t : Sched} {rs bs : List ℕ} {p : ℕ} (o : Option ℕ)
    → Shape s rs bs
    → Joined s u (rs ++ p ∷ []) bs p 1 t
    → p < s.count_prime
    → (s.processes p).condition ≢ 4
    → in_state s 1 p ≡ false
    → in_state s 3 p ≡ false
    → u.total_prime ≡ s.total_prime + one_if (in_state s 0 p)
    → u.completion ≡ s.completion
    → ((i : ℕ) → selected o i ≡ (if p == i then false else selected s.selection i))
    → number o + 1 ≡ number s.selection + one_if (in_state s 0 p)
    → Shape (record t { selection = o }) (rs ++ p ∷ []) bs
Shape-enqueue {s} {u} {t} {rs} {bs} {p} o h j low old out awake total ended runs one =
    let m : Moves s (record t { selection = o }) p 1 = record {
      condition = j.moves.condition;
      ids = j.moves.ids;
      same_count = j.moves.same_count;
    } in
    Shape-Moves h m low old (omega arith) (omega arith) (record {
      ready = j.ready;
      blocked = j.blocked;
      waits = λ i. has-snoc i p rs;
      sleeps = λ i. elim (Bool-cases (p == i)) [
        | inl e ↦ let at : p ≡ i = ground arith in ground (arith, h.sleeps i, awake)
        | inr e ↦ ground arith
      ];
      runs = λ i. ground (arith, runs i);
      unqueued = j.unqueued;
      unblocked = j.unblocked;
      total = omega (arith, length-append rs (p ∷ []), one);
      started = ap (λ (v : Sched). v.total_prime) j.globals ∙ total;
      finished = omega (arith, ap (λ (v : Sched). v.completion) j.globals, ended);
    })

-- The whole state after the running process has joined the blocked list.
pub Shape-block :
    {s u t : Sched} {rs bs : List ℕ} {p : ℕ}
    → Shape s rs bs
    → Joined s u rs (bs ++ p ∷ []) p 3 t
    → s.selection ≡ some p
    → u.total_prime ≡ s.total_prime
    → u.completion ≡ s.completion
    → Shape (record t { selection = none }) rs (bs ++ p ∷ [])
Shape-block {s} {u} {t} {rs} {bs} {p} h j sel total ended =
    let m : Moves s (record t { selection = none }) p 3 = record {
      condition = j.moves.condition;
      ids = j.moves.ids;
      same_count = j.moves.same_count;
    } in
    let two : (s.processes p).condition ≡ 2 = ground (arith, h.runs p) in
    Shape-Moves h m (Shape-low p h (omega (arith, two))) (omega (arith, two)) (omega arith)
      (omega arith)
      (record {
        ready = j.ready;
        blocked = j.blocked;
        waits = λ i. elim (Bool-cases (p == i)) [
          | inl e ↦ let at : p ≡ i = ground arith in ground (arith, h.waits i, two)
          | inr e ↦ ground arith
        ];
        sleeps = λ i. has-snoc i p bs;
        runs = λ i. ground (arith, sel);
        unqueued = j.unqueued;
        unblocked = j.unblocked;
        total = ground (arith, length-append bs (p ∷ []), two);
        started = ground (arith, ap (λ (v : Sched). v.total_prime) j.globals, two);
        finished = omega (arith, ap (λ (v : Sched). v.completion) j.globals, ended);
      })

-- The whole state after the running process has gone on running, or has ended.
pub Shape-stay :
    {s u : Sched} {rs bs : List ℕ} {p k : ℕ}
    → Shape s rs bs
    → Touched s u p k
    → s.selection ≡ some p
    → (k ≡ 2) ⊎ (k ≡ 4)
    → u.selection ≡ (if k == 2 then some p else none)
    → u.total_prime ≡ s.total_prime
    → u.completion ≡ s.completion + one_if (k == 4)
    → Shape u rs bs
Shape-stay {s} {u} {rs} {bs} {p} {k} h c sel how new total ended =
    let two : (s.processes p).condition ≡ 2 = ground (arith, h.runs p) in
    let not1 : (k == 1) ≡ false = elim how [ inl e ↦ ground arith | inr e ↦ ground arith ] in
    let not3 : (k == 3) ≡ false = elim how [ inl e ↦ ground arith | inr e ↦ ground arith ] in
    let top : k ≤ 4 = elim how [ inl e ↦ omega arith | inr e ↦ omega arith ] in
    let some_new : k ≢ 0 = elim how [ inl e ↦ omega arith | inr e ↦ omega arith ] in
    Shape-Moves h c.moves (Shape-low p h (omega (arith, two))) (omega (arith, two)) some_new top
      (record {
        ready = IsQueue-frame rs c.ready (λ i _. c.fresh i) h.ready;
        blocked = IsQueue-frame bs c.blocked (λ i _. c.push i) h.blocked;
        waits = λ i. elim (Bool-cases (p == i)) [
          | inl e ↦ let at : p ≡ i = ground arith in ground (arith, h.waits i, two)
          | inr e ↦ ground arith
        ];
        sleeps = λ i. elim (Bool-cases (p == i)) [
          | inl e ↦ let at : p ≡ i = ground arith in ground (arith, h.sleeps i, two)
          | inr e ↦ ground arith
        ];
        runs = λ i. elim how [ inl e ↦ ground arith | inr e ↦ ground arith ];
        unqueued = λ i n.
            c.fresh i
            ∙ h.unqueued i (elim (Bool-cases (p == i)) [
              | inl e ↦ let at : p ≡ i = ground arith in ground (arith, two)
              | inr e ↦ unlinked 1 i c.moves (ground arith) n
            ]);
        unblocked = λ i n.
            c.push i
            ∙ h.unblocked i (elim (Bool-cases (p == i)) [
              | inl e ↦ let at : p ≡ i = ground arith in ground (arith, two)
              | inr e ↦ unlinked 3 i c.moves (ground arith) n
            ]);
        total = elim how [ inl e ↦ ground (arith, two) | inr e ↦ ground (arith, two) ];
        started = ground (arith, two);
        finished = ended;
      })
