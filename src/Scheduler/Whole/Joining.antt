-- ===== src/Scheduler/Whole/Joining.antt =====
-- `Qsetup` and `insertB` of scheduler.c for a process whose condition has just been set: the queues
-- and the links.
use past_work.Base.{
  ℕ, ◌+◌, ◌<◌, ◌^◌, ◌≡◌, ◌≢◌, ap, ◌∙◌, sym, true, false, none, some, List, [], ◌∷◌, ◌++◌, ◌==◌,
  if◌then◌else◌, arith, leb, has, has-append, length, Bool-cases, inl, inr,
}
use past_work.Scheduler.State.{Process, Queue, Sched, done}
use past_work.Scheduler.Queues.{q_setup, insert_b}
use past_work.Scheduler.Chain.{Ready, Blocked, IsQueue-frame}
use past_work.Scheduler.ReadyQueue.{q_setup-append}
use past_work.Scheduler.BlockedList.{insert_b-append}
use past_work.Scheduler.Whole.{in_state, Shape, Moves}

-- The condition of `p` has been set to `k`, and no link and no queue has changed.
pub record Touched (s u : Sched) (p k : ℕ) : Type 0 where
  pub moves : Moves s u p k
  pub fresh : (i : ℕ) → (u.processes i).fresh_prime ≡ (s.processes i).fresh_prime
  pub push : (i : ℕ) → (u.processes i).push_block ≡ (s.processes i).push_block
  pub ready : u.ready ≡ s.ready
  pub blocked : u.blocked ≡ s.blocked

-- What the lists are about after the process has been appended to the list of its condition.
pub record Joined (s u : Sched) (rs bs : List ℕ) (p k : ℕ) (t : Sched) : Type 0 where
  pub moves : Moves s t p k
  pub ready : Ready t rs
  pub blocked : Blocked t bs
  pub unqueued : (i : ℕ) → in_state t 1 i ≡ false → (t.processes i).fresh_prime ≡ none
  pub unblocked : (i : ℕ) → in_state t 3 i ≡ false → (t.processes i).push_block ≡ none
  pub fields :
      (i : ℕ)
      → record (t.processes i) { fresh_prime = none; push_block = none }
        ≡ record (u.processes i) { fresh_prime = none; push_block = none }
  pub globals : t ≡ record u { processes = t.processes; ready = t.ready; blocked = t.blocked }

-- A process that has started is one of those that there are.
pub Shape-low :
    {s : Sched} {rs bs : List ℕ} (i : ℕ)
    → Shape s rs bs
    → (s.processes i).condition ≢ 0
    → i < s.count_prime
Shape-low {s} i h n = elim (Bool-cases (leb s.count_prime i)) [
  | inl high ↦ absurd (n (h.beyond i (ground arith)))
  | inr low ↦ ground arith
]

pub has-snoc : (i p : ℕ) (xs : List ℕ) → has i (xs ++ p ∷ []) ≡ (if p == i then true else has i xs)
has-snoc i p xs = ground (arith, has-append i xs (p ∷ []))

module _ {s : Sched} {rs bs : List ℕ} (h : Shape s rs bs) where
  pub fits_ready : length rs + 1 < 2 ^ 32
  fits_ready = omega (arith, h.total, h.small)

  pub fits_blocked : length bs + 1 < 2 ^ 32
  fits_blocked = omega (arith, h.total, h.small)

-- The links of a process that neither changes its condition nor its links.
pub unlinked :
    {s t : Sched} {p k : ℕ} (v i : ℕ)
    → Moves s t p k
    → p ≢ i
    → in_state t v i ≡ false
    → in_state s v i ≡ false
unlinked v i m ne n = let c = m.condition i in ground arith

-- A process that gets condition 1 or 3 is not among those of another condition.
not_moved : {s t : Sched} {p k : ℕ} (i : ℕ) → Moves s t p k → in_state t k i ≡ false → p ≢ i
not_moved i m n e = let c = m.condition i in ground arith

module _ {s u : Sched} {rs bs : List ℕ} {p : ℕ} (h : Shape s rs bs) where
  pub enqueue :
      Touched s u p 1
      → in_state s 1 p ≡ false
      → in_state s 3 p ≡ false
      → (t : Sched) × (q_setup (some p) u ≡ done tt t) × Joined s u (rs ++ p ∷ []) bs p 1 t
  enqueue c out awake =
      let q : Ready u rs = IsQueue-frame rs c.ready (λ i _. c.fresh i) h.ready in
      let (t, run, (q', only, same)) =
        q_setup-append u rs p q (h.waits p ∙ out) (c.fresh p ∙ h.unqueued p out) (fits_ready h) in
      let push : (i : ℕ) → (t.processes i).push_block ≡ (s.processes i).push_block =
        λ i. ap (λ (r : Process). r.push_block) (only.fields i) ∙ c.push i in
      let kept : t.blocked ≡ u.blocked = ap (λ (v : Sched). v.blocked) only.globals in
      let moves : Moves s t p 1 = record {
        condition = λ i. ap (λ (r : Process). r.condition) (only.fields i) ∙ c.moves.condition i;
        ids = λ i. ap (λ (r : Process). r.process_id) (only.fields i) ∙ c.moves.ids i;
        same_count = ap (λ (v : Sched). v.count_prime) only.globals ∙ c.moves.same_count;
      } in
      (
        t,
        run,
        record {
          moves = moves;
          ready = q';
          blocked = IsQueue-frame bs (kept ∙ c.blocked) (λ i _. push i) h.blocked;
          unqueued = λ i n.
              let ne = not_moved i moves n in
              let o = unlinked 1 i moves ne n in
              ap (λ (r : Process). r.fresh_prime) (same i (h.waits i ∙ o))
              ∙ c.fresh i
              ∙ h.unqueued i o;
          unblocked = λ i n.
              push i
              ∙ h.unblocked i (elim (Bool-cases (p == i)) [
                | inl e ↦ let at : p ≡ i = ground arith in rw (← at) awake
                | inr e ↦ unlinked 3 i moves (ground arith) n
              ]);
          fields = λ i. ap (λ (r : Process). record r { push_block = none }) (only.fields i);
          globals =
              only.globals
              ∙ ap
                  (λ (b : Queue). record u {
                    processes = t.processes;
                    ready = t.ready;
                    blocked = b;
                  })
                  (sym kept);
        },
      )

  pub block :
      Touched s u p 3
      → in_state s 1 p ≡ false
      → in_state s 3 p ≡ false
      → (t : Sched) × (insert_b (some p) u ≡ done tt t) × Joined s u rs (bs ++ p ∷ []) p 3 t
  block c out awake =
      let q : Blocked u bs = IsQueue-frame bs c.blocked (λ i _. c.push i) h.blocked in
      let (t, run, q', only, same) =
        insert_b-append u bs p q (h.sleeps p ∙ awake) (c.push p ∙ h.unblocked p awake)
          (fits_blocked h) in
      let fresh : (i : ℕ) → (t.processes i).fresh_prime ≡ (s.processes i).fresh_prime =
        λ i. ap (λ (r : Process). r.fresh_prime) (only.fields i) ∙ c.fresh i in
      let kept : t.ready ≡ u.ready = ap (λ (v : Sched). v.ready) only.globals in
      let moves : Moves s t p 3 = record {
        condition = λ i. ap (λ (r : Process). r.condition) (only.fields i) ∙ c.moves.condition i;
        ids = λ i. ap (λ (r : Process). r.process_id) (only.fields i) ∙ c.moves.ids i;
        same_count = ap (λ (v : Sched). v.count_prime) only.globals ∙ c.moves.same_count;
      } in
      (
        t,
        run,
        record {
          moves = moves;
          ready = IsQueue-frame rs (kept ∙ c.ready) (λ i _. fresh i) h.ready;
          blocked = q';
          unqueued = λ i n.
              fresh i
              ∙ h.unqueued i (elim (Bool-cases (p == i)) [
                | inl e ↦ let at : p ≡ i = ground arith in rw (← at) out
                | inr e ↦ unlinked 1 i moves (ground arith) n
              ]);
          unblocked = λ i n.
              let ne = not_moved i moves n in
              let o = unlinked 3 i moves ne n in
              ap (λ (r : Process). r.push_block) (same i (h.sleeps i ∙ o))
              ∙ c.push i
              ∙ h.unblocked i o;
          fields = λ i. ap (λ (r : Process). record r { fresh_prime = none }) (only.fields i);
          globals =
              only.globals
              ∙ ap
                  (λ (b : Queue). record u {
                    processes = t.processes;
                    blocked = t.blocked;
                    ready = b;
                  })
                  (sym kept);
        },
      )
