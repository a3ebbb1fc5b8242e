-- ===== src/Scheduler/Whole/Counting.antt =====
-- `countdown` of scheduler.c on a state in shape, and the step to the next cycle.
use past_work.Base.{ℕ, ◌+◌, ◌<◌, ◌≤◌, ◌^◌, ◌≡◌, ap, ltb, arith, Bool-cases, inl, inr, add32}
use past_work.Scheduler.State.{Process, Sched, done}
use past_work.Scheduler.Cycle.{countdown}
use past_work.Scheduler.Clock.{after_count, tick_from-TickedAll, countdown-done}
use past_work.Scheduler.Whole.Due.{taken_off}
use past_work.Scheduler.Whole.{entry, due, Good}
use past_work.Scheduler.Whole.Ticking.{SameLinks, Later, tick-Later, Shape-Alike}

-- The state at the start of the next cycle.
abbrev pub advanced : Sched → Sched
advanced s = record s { present = add32 s.present 1 }

-- What `countdown` leaves alone, and what it takes off the costs.
pub record Passed (s s' : Sched) : Type 0 where
  pub same_count : s'.count_prime ≡ s.count_prime
  pub same_present : s'.present ≡ s.present
  pub same_lines : s'.random_lines ≡ s.random_lines
  pub same_completion : s'.completion ≡ s.completion
  pub cost :
      (i : ℕ)
      → i < s.count_prime
      → due (s'.processes i) + taken_off (s.processes i) ≤ due (s.processes i)
  pub same_entries : (i : ℕ) → i < s.count_prime → entry (s'.processes i) ≡ entry (s.processes i)

pub countdown-Good :
    (alg t : ℕ) (s : Sched)
    → s.present ≡ t
    → t + 1 < 2 ^ 31
    → Good t (t + 1) 1 s
    → (s' : Sched) × (countdown alg s ≡ done tt s')
      × Good (t + 1) (t + 1) 0 (advanced s')
      × Passed s s'
countdown-Good alg t s now top g =
    let h = g.shape in
    let (u, run, a) = tick_from-TickedAll (Later t) alg s.count_prime 0 s (λ j low high.
      let (can, ok) = g.books j (omega arith) in
      tick-Later alg t (s.processes j) top can ok (h.known j)) in
    let same : u.count_prime ≡ s.count_prime = ap (λ (v : Sched). v.count_prime) a.globals in
    let links : (i : ℕ) → SameLinks (s.processes i) (u.processes i) = λ i.
      elim (Bool-cases (ltb i s.count_prime)) [
        | inl low ↦ (a.ticked i (omega arith) (ground arith)).links
        | inr high ↦
            let same = a.others i (inr (ground arith)) in
            record {
              condition = ap (λ (r : Process). r.condition) same;
              id = ap (λ (r : Process). r.process_id) same;
              fresh = ap (λ (r : Process). r.fresh_prime) same;
              push = ap (λ (r : Process). r.push_block) same;
            }
      ] in
    (
      after_count u,
      countdown-done alg s u run,
      record {
        ready_list = g.ready_list;
        blocked_list = g.blocked_list;
        shape =
            Shape-Alike s (advanced (after_count u)) g.ready_list g.blocked_list
              (record {
                links = links;
                ready = ap (λ (v : Sched). v.ready) a.globals;
                blocked = ap (λ (v : Sched). v.blocked) a.globals;
                selection = ap (λ (v : Sched). v.selection) a.globals;
                same_count = same;
                total = ap (λ (v : Sched). v.total_prime) a.globals;
                completion = ap (λ (v : Sched). v.completion) a.globals;
              })
              h;
        books = λ i low.
            let l = a.ticked i (omega arith) (omega (arith, low, same)) in
            (l.still_possible, l.books);
      },
      record {
        same_count = same;
        same_present = ap (λ (v : Sched). v.present) a.globals;
        same_lines = ap (λ (v : Sched). v.random_lines) a.globals;
        same_completion = ap (λ (v : Sched). v.completion) a.globals;
        cost = λ i low. (a.ticked i (omega arith) (omega (arith, low))).cost;
        same_entries = λ i low. (a.ticked i (omega arith) (omega (arith, low))).same_entry;
      },
    )
