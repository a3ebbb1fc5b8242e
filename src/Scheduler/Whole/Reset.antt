-- ===== src/Scheduler/Whole/Reset.antt =====
-- `Extra` of scheduler.c: the state before the first cycle again.
use past_work.Base.Chains.{write_at, write_at-same, write_at-other}
use past_work.Base.{
  ℕ, zero, suc, ◌+◌, ◌<◌, ◌≤◌, ◌%◌, ◌≡◌, ◌≢◌, refl, ap, subst, ◌∙◌, sym, true, false, none, List,
  ◌∷◌, ◌==◌, ◌⊎◌, arith, length, add32, mul32, ltb, minus_one32, Bool-cases, inl, inr,
}
use past_work.Scheduler.State.{Process, Sched, empty_queue, done, ◌>>=◌, ◌>>◌, continue}
use past_work.Scheduler.Cycle.{Entry, extra_from, extra}
use past_work.Scheduler.Whole.{entry, spent, Good}
use past_work.Scheduler.Whole.Execute.{some_line}
use past_work.Scheduler.Whole.Start.{Fresh, Unstarted}
use past_work.Scheduler.Whole.Load.{simulable, ranomize-draws}

abbrev reset : Process → ℕ → Process
reset r burst = record r {
  condition = 0;
  fresh_prime = none;
  push_prime_forward = none;
  push_block = none;
  finishing_time = minus_one32;
  cpu_time = 0;
  btime = 0;
  current_waiting_time = 0;
  operating = false;
  cpu_burst = burst;
  burst_time = mul32 r.m burst;
}

abbrev reset_at : Sched → ℕ → ℕ → List ℕ → Sched
reset_at s i burst rest = record s {
  random_lines = rest;
  processes = write_at s.processes i (reset (s.processes i) burst);
}

extra_from-step :
    (k i y : ℕ) (s : Sched) (rest : List ℕ)
    → s.random_lines ≡ y ∷ rest
    → ((s.processes i).b == 0) ≡ false
    → extra_from (suc k) i s
      ≡ extra_from k (suc i) (reset_at s i (add32 1 (y % (s.processes i).b)) rest)
unfolding extra_from
extra_from-step k i y s rest lines range =
    rw (ranomize-draws (s.processes i).b y s rest lines range, ◌>>=◌, ◌>>◌, continue) refl

-- A process after the loop.
record Restored (r r' : Process) : Type 0 where
  same_entry : entry r' ≡ entry r
  same_id : r'.process_id ≡ r.process_id
  fresh : Fresh r'
  unspent : spent r' ≡ 0

record RestoredAll (k i : ℕ) (s s' : Sched) : Type 0 where
  restored : (j : ℕ) → i ≤ j → j < i + k → Restored (s.processes j) (s'.processes j)
  others : (j : ℕ) → (j < i) ⊎ (i + k ≤ j) → s'.processes j ≡ s.processes j
  globals : s' ≡ record s { processes = s'.processes; random_lines = s'.random_lines }

reset-Restored : (r : Process) (burst : ℕ) → Restored r (reset r burst)
reset-Restored r burst = record {
  same_entry = refl;
  same_id = refl;
  fresh = record { unstarted = refl; unqueued = refl; unblocked = refl };
  unspent = refl;
}

extra_from-RestoredAll :
    (k i : ℕ) (s : Sched)
    → ((j : ℕ) → i ≤ j → j < i + k → 0 < (s.processes j).b)
    → k ≤ length s.random_lines
    → (s' : Sched) × (extra_from k i s ≡ done tt s') × RestoredAll k i s s'
unfolding extra_from
extra_from-RestoredAll zero i s range lines = (
  s,
  refl,
  record { restored = λ j a b. absurd (omega arith); others = λ j o. refl; globals = refl },
)
extra_from-RestoredAll (suc k) i s range lines =
    let here = range i (omega arith) (omega arith) in
    let (y, rest, l) = some_line s.random_lines (omega (arith, lines)) in
    let burst = add32 1 (y % (s.processes i).b) in
    let u : Sched = reset_at s i burst rest in
    let same : (j : ℕ) → j ≢ i → u.processes j ≡ s.processes j =
      λ j ne. write_at-other s.processes i _ j ne in
    let (s', run, a) =
      extra_from-RestoredAll k (suc i) u
        (λ j low high. rw (same j (omega arith)) (range j (omega arith) (omega arith)))
        (omega (arith, lines, ap length l)) in
    (
      s',
      extra_from-step k i y s rest l (ground (arith, here)) ∙ run,
      record {
        restored = λ j low high. elim (Bool-cases (j == i)) [
          | inl at ↦
              let eq : j ≡ i = ground arith in
              let now : s'.processes i ≡ reset (s.processes i) burst =
                a.others i (inl (omega arith)) ∙ write_at-same s.processes i _ in
              rw eq
                (subst (Restored (s.processes i)) (sym now) (reset-Restored (s.processes i) burst))
          | inr on ↦
              let ne : j ≢ i = ground arith in
              subst (λ (r : Process). Restored r (s'.processes j)) (same j ne)
                (a.restored j (omega arith) (omega arith))
        ];
        others = λ j o.
            let ne : j ≢ i = λ z. elim o [ inl x ↦ omega arith | inr x ↦ omega arith ] in
            a.others j (elim o [ inl x ↦ inl (omega arith) | inr x ↦ inr (omega arith) ])
            ∙ same j ne;
        globals = a.globals;
      },
    )

-- The state in which the loop starts.
abbrev cleared : List ℕ → Sched → Sched
cleared lines s = record s {
  present = 0;
  total_prime = 0;
  completion = 0;
  total_time_number = 0;
  first_prime = true;
  nameless_op = none;
  ready = empty_queue;
  paused = empty_queue;
  blocked = empty_queue;
  selection = none;
  random_lines = lines;
}

extra-cleared :
    (lines : List ℕ) (s : Sched) → extra lines s ≡ extra_from s.count_prime 0 (cleared lines s)
unfolding extra
extra-cleared lines s = refl

module _ (lines : List ℕ) (t next least : ℕ) (s s' : Sched) (g : Good t next least s)
    (a : RestoredAll s.count_prime 0 (cleared lines s) s') where
  restored_count : s'.count_prime ≡ s.count_prime
  restored_count = ap (λ (v : Sched). v.count_prime) a.globals

  back : (i : ℕ) → i < s'.count_prime → Restored (s.processes i) (s'.processes i)
  back i low = a.restored i (omega arith) (omega (arith, low, restored_count))

  RestoredAll-Unstarted : Unstarted s'
  RestoredAll-Unstarted =
      let h = g.shape in
      let count = restored_count in
      record {
        fresh = λ i. elim (Bool-cases (ltb i s.count_prime)) [
          | inl low ↦ (a.restored i (omega arith) (ground arith)).fresh
          | inr high ↦
              let zero_now = h.beyond i (ground arith) in
              subst Fresh (sym (a.others i (inr (ground arith)))) (record {
                unstarted = zero_now;
                unqueued = h.unqueued i (ground (arith, zero_now));
                unblocked = h.unblocked i (ground (arith, zero_now));
              })
        ];
        numbered = λ i low. (back i low).same_id ∙ h.numbered i (omega (arith, low, count));
        can = λ i low.
            let (can, ok) = g.books i (omega (arith, low, count)) in
            ap (λ (e : Entry). simulable e) (back i low).same_entry ∙ can;
        unspent = λ i low. (back i low).unspent;
        ready = ap (λ (v : Sched). v.ready) a.globals;
        blocked = ap (λ (v : Sched). v.blocked) a.globals;
        selection = ap (λ (v : Sched). v.selection) a.globals;
        present = ap (λ (v : Sched). v.present) a.globals;
        total_prime = ap (λ (v : Sched). v.total_prime) a.globals;
        completion = ap (λ (v : Sched). v.completion) a.globals;
        small = omega (arith, count, h.small);
      }

-- From any state with the queues in shape and the books in order, `Extra` returns when the file has
-- a random number for each process. Then no process has started, and the processes are those that
-- there were, with the numbers of the input.
pub extra-Unstarted :
    (lines : List ℕ) (t next least : ℕ) (s : Sched)
    → Good t next least s
    → s.count_prime ≤ length lines
    → (s' : Sched) × (extra lines s ≡ done tt s')
      × Unstarted s'
      × (s'.count_prime ≡ s.count_prime)
      × ((i : ℕ) → i < s.count_prime → entry (s'.processes i) ≡ entry (s.processes i))
extra-Unstarted lines t next least s g enough =
    let (s', run, a) =
      extra_from-RestoredAll s.count_prime 0 (cleared lines s)
        (λ j low high. let (can, ok) = g.books j (omega arith) in ground arith) enough in
    let count = restored_count lines t next least s s' g a in
    (
      s',
      extra-cleared lines s ∙ run,
      RestoredAll-Unstarted lines t next least s s' g a,
      count,
      λ i low. (back lines t next least s s' g a i (omega (arith, low, count))).same_entry,
    )
