-- ===== src/Scheduler/Whole/Arrivals.antt =====
-- The loop of `creation` of scheduler.c on a state in shape.

use past_work.Base.{ℕ, zero, suc, ◌+◌, ◌≡◌, refl, subst, ◌∙◌, ◌==◌, arith, Bool-cases, inl, inr}
use past_work.Scheduler.State.{Sched, done}
use past_work.Scheduler.Dispatch.{creation_from, creation}
use past_work.Scheduler.Census.{count-eq_zero}
use past_work.Scheduler.Whole.{in_state, Kept-trans, Kept-refl, Good, Kept}
use past_work.Scheduler.Whole.Unblock.{Active}
use past_work.Scheduler.Whole.Creation.{
  creation_from-arrival, creation_from-other, Scanned, pass_other, take_arrival,
}

creation_from-Scanned :
    (t k i : ℕ) (s : Sched)
    → Scanned t i s
    → i + k ≡ s.count_prime
    → s.present ≡ t
    → Active s
    → (s' : Sched) × (creation_from k i s ≡ done tt s')
      × Scanned t s'.count_prime s'
      × Kept s s'
      × Active s'
unfolding creation_from
creation_from-Scanned t zero i s g e now w =
    let all : i ≡ s.count_prime = omega (arith, e) in
    (s, refl, subst (λ (n : ℕ). Scanned t n s) all g, Kept-refl s, w)
creation_from-Scanned t (suc k) i s g e now w = elim (Bool-cases ((s.processes i).a == s.present)) [
  | inl on_time ↦
      let (u, run, g', kept, w') = take_arrival t i s g (omega (arith, e)) now (ground arith) in
      let (s', run', g'', kept', w'') =
        creation_from-Scanned t k (suc i) u g' (omega (arith, e, kept.same_count))
          (kept.same_present ∙ now) w' in
      (s', creation_from-arrival k i s u on_time run ∙ run', g'', Kept-trans kept kept', w'')
  | inr other ↦
      let (s', run', g'', kept', w'') =
        creation_from-Scanned t k (suc i) s
          (pass_other t i s g (omega (arith, e)) now (ground arith)) (omega (arith, e)) now w in
      (s', creation_from-other k i s other ∙ run', g'', kept', w'')
]

-- `creation` takes in the processes that arrive in this cycle.
pub creation-Good :
    (t : ℕ) (s : Sched)
    → s.present ≡ t
    → Good t t 1 s
    → Active s
    → (s' : Sched) × (creation s ≡ done tt s') × Good t (t + 1) 1 s' × Kept s s' × Active s'
unfolding creation
creation-Good t s now g w =
    let (s', run, g', kept, w') =
      creation_from-Scanned t s.count_prime 0 s
        (record {
          ready_list = g.ready_list;
          blocked_list = g.blocked_list;
          shape = g.shape;
          books = λ j low. let (can, ok) = g.books j low in (can, ground arith);
        })
        (omega arith) now w in
    (
      s',
      run,
      record {
        ready_list = g'.ready_list;
        blocked_list = g'.blocked_list;
        shape = g'.shape;
        books = λ j low. let (can, ok) = g'.books j low in (can, ground arith);
      },
      kept,
      w',
    )

-- When all processes have started, none arrives.
pub started-Good :
    (t : ℕ) (s : Sched) → s.total_prime ≡ s.count_prime → Good t t 1 s → Good t (t + 1) 1 s
started-Good t s all g = record {
  ready_list = g.ready_list;
  blocked_list = g.blocked_list;
  shape = g.shape;
  books = λ j low.
      let (can, ok) = g.books j low in
      let n =
        count-eq_zero s.count_prime (in_state s 0) j (omega (arith, g.shape.started, all)) low in
      (can, ground arith);
}
