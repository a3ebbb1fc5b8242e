-- ===== src/Scheduler/Selection.antt =====
-- `executeR` of scheduler.c takes the shortest job off the ready queue, wherever it stands.
use past_work.Base.Chains.{Chain-after, write_at, has-last?, ne_of_has}
use past_work.Base.{
  ℕ, ◌<◌, ◌≤◌, ◌^◌, ◌≡◌, ◌≢◌, refl, ◌∙◌, sym, subst, true, false, Option, none, some, List, [], ◌∷◌,
  ◌++◌, arith, ◌==◌, ◌||◌, length, last?, has, has-append, sub32, length-append, last?-cons,
  last?-snoc, last?-append, All,
}
use past_work.Scheduler.State.{Sched, done, ◌>>=◌, continue, rounds}
use past_work.Scheduler.Queues.{d_setup, before_last, before_id}
use past_work.Scheduler.Dispatch.{shortest_from, unlink_ready, take_ready}
use past_work.Scheduler.Chain.{Ready}
use past_work.Scheduler.Unlink.{
  final, has-final, has-middle, Distinct-without, Chain-unlink, not-has-middle, before_last-final,
  before_id-final, Chain-final, last?-final,
}
use past_work.Scheduler.ReadyQueue.{d_setup-cons, ReadyOnly}
use past_work.Scheduler.Release.{final_ne}
use past_work.Scheduler.Shortest.{left, shortest_from-shortest}

-- The state once `p`, which follows `b`, is off the ready queue.
abbrev without : Sched → ℕ → ℕ → Option ℕ → Sched
without s b p back =
    let ps =
      write_at s.processes b
        (record (s.processes b) { fresh_prime = (s.processes p).fresh_prime }) in
    record s {
      processes = write_at ps p (record (ps p) { fresh_prime = none });
      ready = record s.ready { back = back; size = sub32 s.ready.size 1 };
    }

take_front :
    (s t : Sched) (x : ℕ)
    → s.ready.front ≡ some x
    → d_setup s ≡ done (some x) t
    → take_ready x s ≡ done x t
unfolding take_ready
take_front s t x f run = ground arith

take_back :
    (s : Sched) (x b p : ℕ)
    → s.ready.front ≡ some x
    → s.ready.back ≡ some p
    → (((s.processes x).process_id == (s.processes p).process_id) ≡ false)
    → before_last (rounds s) (λ r. r.fresh_prime) x s ≡ done b s
    → (s.processes b).fresh_prime ≡ some p
    → (s.processes p).fresh_prime ≡ none
    → b ≢ p
    → take_ready p s ≡ done p (without s b p (some b))
unfolding take_ready unlink_ready
take_back s x b p f e nx walk l n ne = ground arith

take_middle :
    (s : Sched) (x y b p : ℕ)
    → s.ready.front ≡ some x
    → s.ready.back ≡ some y
    → (((s.processes x).process_id == (s.processes p).process_id) ≡ false)
    → (((s.processes y).process_id == (s.processes p).process_id) ≡ false)
    → before_id (rounds s) (λ r. r.fresh_prime) (s.processes p).process_id x s ≡ done b s
    → (s.processes b).fresh_prime ≡ some p
    → b ≢ p
    → take_ready p s ≡ done p (without s b p s.ready.back)
unfolding take_ready unlink_ready
take_middle s x y b p f e nx ny walk l ne = ground arith

module _ (s : Sched) (x : ℕ) (ws : List ℕ) (p : ℕ) (post : List ℕ)
    (q : Ready s (x ∷ ws ++ p ∷ post))
    (numbered : (i : ℕ) → has i (x ∷ ws ++ p ∷ post) ≡ true → (s.processes i).process_id ≡ i)
    (walked : length (x ∷ ws ++ p ∷ post) ≤ s.count_prime)
    (room : length (x ∷ ws ++ p ∷ post) < 2 ^ 32) where
  apart :
      (i : ℕ)
      → has i (x ∷ ws ++ p ∷ post) ≡ true
      → i ≢ p
      → ((s.processes i).process_id == (s.processes p).process_id) ≡ false
  apart i k ne = ground (arith, numbered i k, numbered p (has-middle (x ∷ ws) p post))

  front_apart : ((s.processes x).process_id == (s.processes p).process_id) ≡ false
  front_apart =
      apart x (ground arith) (ne_of_has (ws ++ p ∷ post) q.distinct.0 (has-middle ws p post))

  elsewhere : (has p (x ∷ ws) || has p post) ≡ false
  elsewhere = sym (has-append p (x ∷ ws) post) ∙ not-has-middle (x ∷ ws) p post q.distinct

  steps : length ws < rounds s
  steps = omega (arith, walked, length-append (x ∷ ws) (p ∷ post))

  before_apart :
      (i : ℕ) → has i ws ≡ true → ((s.processes i).process_id == (s.processes p).process_id) ≡ false
  before_apart i k =
      let ne : p ≢ i = ne_of_has ws (ground (arith, elsewhere)) k in
      apart i (ground (arith, has-append i (x ∷ ws) (p ∷ post))) (λ e. ne (sym e))

  behind_apart :
      (i : ℕ)
      → has i post ≡ true
      → ((s.processes i).process_id == (s.processes p).process_id) ≡ false
  behind_apart i k =
      let ne : p ≢ i = ne_of_has post (ground (arith, elsewhere)) k in
      apart i (ground (arith, has-append i (x ∷ ws) (p ∷ post))) (λ e. ne (sym e))

  without-Ready :
      (back : Option ℕ)
      → back ≡ last? (x ∷ ws ++ post)
      → Ready (without s (final x ws) p back) (x ∷ ws ++ post)
  without-Ready back l =
      let ne : final x ws ≢ p = final_ne x ws p post q.distinct in
      record {
        chain =
            Chain-unlink s.ready.front x ws p post q.chain q.distinct (ground arith)
              (λ i k nf np. ground arith);
        back = l;
        size =
            omega
              (arith, q.size, room, length-append (x ∷ ws) (p ∷ post), length-append (x ∷ ws) post);
        distinct = Distinct-without (x ∷ ws) p post q.distinct;
      }

-- What taking a process off the ready queue leaves.
abbrev pub Taken : Sched → List ℕ → ℕ → Sched → Type 0
Taken s xs p s' =
    Ready s' xs
    × ReadyOnly s s'
    × ((s'.processes p).fresh_prime ≡ none)
    × ((i : ℕ) → has i xs ≡ false → i ≢ p → s'.processes i ≡ s.processes i)

-- Only the process and the one before it have other links.
without-others :
    (s : Sched) (x : ℕ) (ws : List ℕ) (p : ℕ) (post : List ℕ) (back : Option ℕ) (i : ℕ)
    → has i (x ∷ ws ++ post) ≡ false
    → i ≢ p
    → (without s (final x ws) p back).processes i ≡ s.processes i
without-others s x ws p post back i out ne =
    let away : i ≢ final x ws = ne_of_has (x ∷ ws ++ post) out (has-final x ws post) in ground arith

without-Only : (s : Sched) (b p : ℕ) (back : Option ℕ) → ReadyOnly s (without s b p back)
without-Only s b p back = record { globals = refl; fields = λ i. ground arith }

-- The process is taken off the queue, wherever it stands, and the others stay in their order.
pub take_ready-Taken :
    (s : Sched) (pre : List ℕ) (p : ℕ) (post : List ℕ)
    → Ready s (pre ++ p ∷ post)
    → ((i : ℕ) → has i (pre ++ p ∷ post) ≡ true → (s.processes i).process_id ≡ i)
    → length (pre ++ p ∷ post) ≤ s.count_prime
    → length (pre ++ p ∷ post) < 2 ^ 32
    → (s' : Sched) × (take_ready p s ≡ done p s') × Taken s (pre ++ post) p s'
take_ready-Taken s [] p post q n walked room =
    let (t, run, q', only, free, same) = d_setup-cons s p post q room in
    (t, take_front s t p q.chain.0 run, (q', only, free, λ i out ne. same i ne))
take_ready-Taken s (x ∷ ws) p [] q n walked room =
    let b = final x ws in
    (
      without s b p (some b),
      take_back s x b p q.chain.0 (q.back ∙ last?-snoc (x ∷ ws) p)
          (front_apart s x ws p [] q n walked room)
          (before_last-final (λ r. r.fresh_prime) s (rounds s) x ws p q.chain.1
            (steps s x ws p [] q n walked room))
          (Chain-final (λ i. (s.processes i).fresh_prime) s.ready.front x ws p [] q.chain)
          (Chain-after (λ i. (s.processes i).fresh_prime) s.ready.front (x ∷ ws) p [] q.chain)
          (final_ne x ws p [] q.distinct),
      (
        without-Ready s x ws p [] q n walked room (some b) (sym (last?-final x ws)),
        without-Only s b p (some b),
        ground arith,
        without-others s x ws p [] (some b),
      ),
    )
take_ready-Taken s (x ∷ ws) p (y ∷ post) q n walked room =
    let b = final x ws in
    let (l, e) = last?-cons y post in
    let back : s.ready.back ≡ last? (y ∷ post) = q.back ∙ last?-append (x ∷ ws) p (y ∷ post) in
    (
      without s b p s.ready.back,
      take_middle s x l b p q.chain.0 (back ∙ e) (front_apart s x ws p (y ∷ post) q n walked room)
          (behind_apart s x ws p (y ∷ post) q n walked room l (has-last? (y ∷ post) l e))
          (before_id-final (λ r. r.fresh_prime) s (rounds s) (s.processes p).process_id x ws p
            (y ∷ post) q.chain.1 (before_apart s x ws p (y ∷ post) q n walked room) (ground arith)
            (steps s x ws p (y ∷ post) q n walked room))
          (Chain-final (λ i. (s.processes i).fresh_prime) s.ready.front x ws p (y ∷ post) q.chain)
          (final_ne x ws p (y ∷ post) q.distinct),
      (
        without-Ready s x ws p (y ∷ post) q n walked room s.ready.back
            (back ∙ sym (last?-append (x ∷ ws) y post)),
        without-Only s b p s.ready.back,
        ground arith,
        without-others s x ws p (y ∷ post) s.ready.back,
      ),
    )

-- On a well-formed ready queue that is not empty, of fewer than 2^32 processes and no more than
-- there are, whose processes have their own numbers, the search for the shortest job and the
-- removal from the queue give the first of the processes that need the least time; the others stay
-- on the queue in their order, and nothing else changes than the queue's links and counters.
pub shortest_from-take_ready :
    (s : Sched) (x : ℕ) (xs : List ℕ)
    → Ready s (x ∷ xs)
    → ((i : ℕ) → has i (x ∷ xs) ≡ true → (s.processes i).process_id ≡ i)
    → length (x ∷ xs) ≤ s.count_prime
    → length (x ∷ xs) < 2 ^ 32
    → (pre : List ℕ) × (z : ℕ) × (post : List ℕ) × (s' : Sched) × (x ∷ xs ≡ pre ++ z ∷ post)
      × ((shortest_from s.ready.size x s.ready.front >>= take_ready) s ≡ done z s')
      × Taken s (pre ++ post) z s'
      × All (λ i. left s z < left s i) pre
      × All (λ i. left s z ≤ left s i) post
shortest_from-take_ready s x xs q n walked room =
    let (pre, z, post, e, run, before, after) = shortest_from-shortest s x xs q in
    let (s', take, t) =
      take_ready-Taken s pre z post (subst (Ready s) e q)
        (subst (λ (ys : List ℕ). (i : ℕ) → has i ys ≡ true → (s.processes i).process_id ≡ i) e n)
        (subst (λ (ys : List ℕ). length ys ≤ s.count_prime) e walked)
        (subst (λ (ys : List ℕ). length ys < 2 ^ 32) e room) in
    (pre, z, post, s', e, rw (run, ◌>>=◌, continue) take, t, before, after)
