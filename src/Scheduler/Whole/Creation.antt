-- ===== src/Scheduler/Whole/Creation.antt =====
-- An arrival in `creation` of scheduler.c.
use past_work.Base.Chains.{write_at}
use past_work.Base.{
  ℕ, suc, ◌+◌, ◌<◌, ◌≤◌, ◌≡◌, ◌≢◌, refl, ap, ◌∙◌, sym, Bool, true, false, some, List, ◌==◌, ◌&&◌,
  ltb, if◌then◌else◌, arith, Bool-cases, inl, inr, ◌++◌, ◌∷◌, [], is_null, add32,
}
use past_work.Scheduler.State.{Process, Sched, done, ◌>>=◌, ◌>>◌, continue}
use past_work.Scheduler.Queues.{q_setup}
use past_work.Scheduler.Dispatch.{creation_from}
use past_work.Scheduler.Release.{plain}
use past_work.Scheduler.Whole.{entry, due, number, Shape, Kept, fair, possible}
use past_work.Scheduler.Whole.Unblock.{Active}
use past_work.Scheduler.Whole.Due.{due-created}
use past_work.Scheduler.Whole.Books.{fair-created}
use past_work.Scheduler.Whole.Joining.{Touched, enqueue}
use past_work.Scheduler.Whole.Joined.{Shape-enqueue}

-- The state once process `i` has arrived, before it joins the ready queue.
abbrev arrived : Sched → ℕ → Sched
arrived s i = record s {
  total_prime = add32 s.total_prime 1;
  processes = write_at s.processes i (record (s.processes i) { condition = 1 });
}

abbrev chosen : Sched → ℕ → Sched
chosen s i = record (arrived s i) { first_prime = false; nameless_op = some i }

abbrev created : Sched → ℕ → Sched
created s i = if is_null s.nameless_op && s.first_prime then chosen s i else arrived s i

pub creation_from-arrival :
    (k i : ℕ) (s t : Sched)
    → ((s.processes i).a == s.present) ≡ true
    → q_setup (some i) (created s i) ≡ done tt t
    → creation_from (suc k) i s ≡ creation_from k (suc i) t
unfolding creation_from
creation_from-arrival k i s t e run = elim (Bool-cases (is_null s.nameless_op && s.first_prime)) [
  | inl first ↦
      let same : created s i ≡ chosen s i = rw first refl in
      rw (e, ◌>>=◌, ◌>>◌, continue)
        (rw (first, ◌>>=◌, ◌>>◌, continue) (rw (ap (q_setup (some i)) (sym same) ∙ run) refl))
  | inr later ↦
      let same : created s i ≡ arrived s i = rw later refl in
      rw (e, ◌>>=◌, ◌>>◌, continue)
        (rw (later, ◌>>=◌, ◌>>◌, continue) (rw (ap (q_setup (some i)) (sym same) ∙ run) refl))
]

pub creation_from-other :
    (k i : ℕ) (s : Sched)
    → ((s.processes i).a == s.present) ≡ false
    → creation_from (suc k) i s ≡ creation_from k (suc i) s
unfolding creation_from
creation_from-other k i s e = rw (e, ◌>>=◌, ◌>>◌, continue) refl

-- The books in the midst of the loop: those of the processes before `i` are those after the
-- arrivals of cycle `t`.
abbrev pub Scan : (t i : ℕ) → Sched → Type 0
Scan t i s =
    (j : ℕ)
    → j < s.count_prime
    → (possible (s.processes j) ≡ true)
      × (fair t (if ltb j i then t + 1 else t) 1 (s.processes j) ≡ true)

touch : (s : Sched) (i : ℕ) → Touched s (created s i) i 1
touch s i = record {
  moves = record {
    condition = λ j. ground arith;
    ids = λ j. ground arith;
    same_count = ground arith;
  };
  fresh = λ j. ground arith;
  push = λ j. ground arith;
  ready = ground arith;
  blocked = ground arith;
}

created_at :
    (s : Sched) (i : ℕ) → (created s i).processes i ≡ record (s.processes i) { condition = 1 }
created_at s i = ground arith

before_of : (i : ℕ) → ltb i i ≡ false
before_of i = ground arith

-- The arrival costs nothing.
no_more :
    (s : Sched) (i : ℕ)
    → (s.processes i).condition ≡ 0
    → (q : ℕ) → due ((created s i).processes q) ≤ due (s.processes q)
no_more s i e q = elim (Bool-cases (i == q)) [
  | inl same ↦
      let at : i ≡ q = ground arith in
      let changed = ap (λ (r : Process). due r) (created_at s i) in
      rw (← at) (omega (arith, changed, due-created (s.processes i) e))
  | inr other ↦
      let kept : (created s i).processes q ≡ s.processes q = ground arith in
      omega (arith, ap (λ (r : Process). due r) kept)
]

-- What the loop keeps.
pub record Scanned (t i : ℕ) (s : Sched) : Type 0 where
  pub ready_list : List ℕ
  pub blocked_list : List ℕ
  pub shape : Shape s ready_list blocked_list
  pub books : Scan t i s

module _ (t i : ℕ) (s : Sched) (g : Scanned t i s) (low : i < s.count_prime)
    (now : s.present ≡ t) where
  pub pass_other : (s.processes i).a ≢ t → Scanned t (suc i) s
  pass_other ne = record {
    ready_list = g.ready_list;
    blocked_list = g.blocked_list;
    shape = g.shape;
    books = λ j below.
        let (can, ok) = g.books j below in
        (
          can,
          elim (Bool-cases (j == i)) [
            | inl e ↦ let at : j ≡ i = ground arith in ground arith
            | inr e ↦ ground arith
          ],
        );
  }

  unstarted : (s.processes i).a ≡ t → (s.processes i).condition ≡ 0
  unstarted e = let (can, ok) = g.books i low in ground arith

  pub take_arrival :
      (s.processes i).a ≡ t
      → (u : Sched) × (q_setup (some i) (created s i) ≡ done tt u)
        × Scanned t (suc i) u
        × Kept s u
        × Active u
  take_arrival e =
      let c0 = unstarted e in
      let h = g.shape in
      let (u, run, j) = enqueue h (touch s i) (ground arith) (ground arith) in
      let sel : u.selection ≡ s.selection =
        ap (λ (v : Sched). v.selection) j.globals ∙ ground arith in
      (
        u,
        run,
        record {
          ready_list = g.ready_list ++ i ∷ [];
          blocked_list = g.blocked_list;
          shape =
              Shape-enqueue u.selection h j low (omega (arith, c0)) (ground arith) (ground arith)
                (ground (arith, h.started, h.small)) (ground arith)
                (λ q. ground (arith, sel, h.runs q)) (ground (arith, ap number sel));
          books = λ q below.
              let (can, ok) = g.books q (omega (arith, below, j.moves.same_count)) in
              elim (Bool-cases (q == i)) [
                | inl e' ↦
                    let at : q ≡ i = ground arith in
                    let f : plain (u.processes i) ≡ plain ((created s i).processes i) =
                      j.fields i in
                    let next_of : ltb i (suc i) ≡ true = ground arith in
                    let (can', ok') = g.books i low in
                    let more : 0 < (s.processes i).c = ground arith in
                    let old : fair t t 1 (s.processes i) ≡ true =
                      ap (λ (b : Bool). fair t (if b then t + 1 else t) 1 (s.processes i))
                        (sym (before_of i))
                      ∙ ok' in
                    rw at (
                      ap (λ (r : Process). possible r)
                            (f ∙ ap (λ (r : Process). plain r) (created_at s i))
                          ∙ can',
                      ap (λ (r : Process). fair t (if ltb i (suc i) then t + 1 else t) 1 r)
                            (f ∙ ap (λ (r : Process). plain r) (created_at s i))
                          ∙ ap
                              (λ (b : Bool).
                                fair t (if b then t + 1 else t) 1
                                  (record (s.processes i) { condition = 1 }))
                              next_of
                          ∙ fair-created t (s.processes i) c0 e more old,
                    )
                | inr off ↦
                    let f : plain (u.processes q) ≡ plain ((created s i).processes q) =
                      j.fields q in
                    (
                      ap (λ (r : Process). possible r) f ∙ ground arith,
                      ap (λ (r : Process). fair t (if ltb q (suc i) then t + 1 else t) 1 r) f
                          ∙ ground arith,
                    )
              ];
        },
        record {
          same_present = ap (λ (v : Sched). v.present) j.globals ∙ ground arith;
          same_count = j.moves.same_count;
          same_lines = ap (λ (v : Sched). v.random_lines) j.globals ∙ ground arith;
          lower = λ q. omega (arith, ap (λ (r : Process). due r) (j.fields q), no_more s i c0 q);
          same_entries = λ q. ap (λ (r : Process). entry r) (j.fields q) ∙ ground arith;
        },
        inl (i, j.moves.condition i ∙ ground arith),
      )
