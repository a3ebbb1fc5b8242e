-- ===== src/Scheduler/ReadyQueue.antt =====
-- The ready queue of scheduler.c as a queue: `Qsetup` appends and `dsetup` takes the first.
use past_work.Base.Chains.{write_at, Chain-frame, Chain-snoc, has-last?, ne_of_has}
use past_work.Base.{
  ℕ, ◌+◌, ◌<◌, ◌^◌, ◌≡◌, ◌≢◌, refl, ◌∙◌, sym, false, none, some, List, [], ◌∷◌, ◌++◌, arith, ◌==◌,
  length, last?, has, add32, sub32, if◌then◌else◌, length-append, last?-snoc, last?-cons,
  Distinct-snoc,
}
use past_work.Scheduler.State.{Process, Sched, done}
use past_work.Scheduler.Queues.{q_setup, d_setup}
use past_work.Scheduler.Chain.{Ready}

-- The state after `Qsetup` on a queue whose last process is `back`.
abbrev linked : Sched → ℕ → ℕ → ℕ → Process
linked s back n =
    write_at (write_at s.processes n (record (s.processes n) { fresh_prime = none })) back
      (record (write_at s.processes n (record (s.processes n) { fresh_prime = none }) back) {
        fresh_prime = some n;
      })

q_setup-nil :
    (s : Sched) (n : ℕ)
    → s.ready.size ≡ 0
    → q_setup (some n) s
      ≡ done tt (record s {
        ready = record { front = some n; back = some n; size = add32 s.ready.size 1 };
      })
unfolding q_setup
q_setup-nil s n e = ground arith

q_setup-cons :
    (s : Sched) (n z : ℕ)
    → s.ready.size ≢ 0
    → s.ready.back ≡ some z
    → q_setup (some n) s
      ≡ done tt (record s {
        processes = linked s z n;
        ready = record s.ready { back = some n; size = add32 s.ready.size 1 };
      })
unfolding q_setup
q_setup-cons s n z ne e = ground arith

-- A step that changes no global but the ready queue's, and no field of a process but its link.
pub record ReadyOnly (s s' : Sched) : Type 0 where
  pub globals : s' ≡ record s { processes = s'.processes; ready = s'.ready }
  pub fields :
      (i : ℕ)
      → record (s'.processes i) { fresh_prime = none }
        ≡ record (s.processes i) { fresh_prime = none }

abbrev pub Appended : Sched → List ℕ → ℕ → Sched → Type 0
Appended s xs n s' =
    Ready s' (xs ++ n ∷ [])
    × ReadyOnly s s'
    × ((i : ℕ) → has i xs ≡ false → s'.processes i ≡ s.processes i)

unlinked : (r : Process) → r.fresh_prime ≡ none → record r { fresh_prime = none } ≡ r
unlinked r e = ground arith

linked_out :
    (s : Sched) (z n i : ℕ)
    → (s.processes n).fresh_prime ≡ none
    → i ≢ z
    → linked s z n i ≡ s.processes i
linked_out s z n i clear ne = ground (arith, unlinked (s.processes n))

-- On a well-formed ready queue of fewer than 2^32 - 1 processes `Qsetup` appends a process that is
-- not on it and has no link, keeps the queue well formed, and changes nothing else than the queue
-- and the link of its last process.
pub q_setup-append :
    (s : Sched) (xs : List ℕ) (n : ℕ)
    → Ready s xs
    → has n xs ≡ false
    → (s.processes n).fresh_prime ≡ none
    → length xs + 1 < 2 ^ 32
    → (s' : Sched) × (q_setup (some n) s ≡ done tt s') × Appended s xs n s'
q_setup-append s [] n q out clear small = (
  record s { ready = record { front = some n; back = some n; size = add32 s.ready.size 1 } },
  q_setup-nil s n q.size,
  (
    record { chain = (refl, clear); back = refl; size = rw (q.size) refl; distinct = (refl, tt) },
    record { globals = refl; fields = λ i. refl },
    λ i h. refl,
  ),
)
q_setup-append s (x ∷ xs) n q out clear small =
    let (z, l) = last?-cons x xs in
    let apart : n ≢ z = ne_of_has (x ∷ xs) out (has-last? (x ∷ xs) z l) in
    let s' : Sched = record s {
      processes = linked s z n;
      ready = record s.ready { back = some n; size = add32 s.ready.size 1 };
    } in
    (
      s',
      q_setup-cons s n z (ground arith) (q.back ∙ l),
      (
        record {
          chain =
              Chain-snoc s.ready.front x xs z n q.chain q.distinct l (ground arith) (ground arith)
                (λ i h ne. ground arith);
          back = sym (last?-snoc (x ∷ xs) n);
          size = omega (arith, q.size, length-append (x ∷ xs) (n ∷ []));
          distinct = Distinct-snoc (x ∷ xs) n q.distinct out;
        },
        record { globals = refl; fields = λ i. ground arith },
        λ i h. linked_out s z n i clear (ne_of_has (x ∷ xs) h (has-last? (x ∷ xs) z l)),
      ),
    )

-- The state after `dsetup` has taken `x` off the queue.
abbrev popped : Sched → ℕ → Sched
popped s x = record s {
  ready = record {
    front = (s.processes x).fresh_prime;
    back = if sub32 s.ready.size 1 == 0 then none else s.ready.back;
    size = sub32 s.ready.size 1;
  };
  processes = write_at s.processes x (record (s.processes x) { fresh_prime = none });
}

d_setup-popped :
    (s : Sched) (x : ℕ)
    → s.ready.size ≢ 0
    → s.ready.front ≡ some x
    → d_setup s ≡ done (some x) (popped s x)
unfolding d_setup
d_setup-popped s x ne e = ground arith

popped_back :
    (s : Sched) (x : ℕ) (xs : List ℕ)
    → Ready s (x ∷ xs)
    → length (x ∷ xs) < 2 ^ 32
    → (popped s x).ready.back ≡ last? xs
popped_back s x [] q small = ground (arith, q.size)
popped_back s x (y ∷ xs) q small = ground (arith, q.size, q.back)

-- On a well-formed ready queue that is not empty, of fewer than 2^32 processes, `dsetup` returns
-- the first process, leaves the rest as a well-formed queue, clears the link of that process and
-- changes nothing else than the queue.
pub d_setup-cons :
    (s : Sched) (x : ℕ) (xs : List ℕ)
    → Ready s (x ∷ xs)
    → length (x ∷ xs) < 2 ^ 32
    → (s' : Sched) × (d_setup s ≡ done (some x) s')
      × Ready s' xs
      × ReadyOnly s s'
      × ((s'.processes x).fresh_prime ≡ none)
      × ((i : ℕ) → i ≢ x → s'.processes i ≡ s.processes i)
d_setup-cons s x xs q small = (
  popped s x,
  d_setup-popped s x (omega arith) q.chain.0,
  record {
    chain =
        Chain-frame (s.processes x).fresh_prime xs
          (λ i h. let ne : x ≢ i = ne_of_has xs q.distinct.0 h in ground arith) q.chain.1;
    back = popped_back s x xs q small;
    size = omega (arith, q.size);
    distinct = q.distinct.1;
  },
  record { globals = refl; fields = λ i. ground arith },
  ground arith,
  λ i ne. ground arith,
)
