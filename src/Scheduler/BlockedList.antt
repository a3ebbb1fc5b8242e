-- ===== src/Scheduler/BlockedList.antt =====
-- The blocked list of scheduler.c as a queue: `insertB` appends and `removeB` takes the first.
use past_work.Base.Chains.{write_at, Chain-frame, Chain-snoc, has-last?, ne_of_has}
use past_work.Base.{
  ℕ, ◌+◌, ◌<◌, ◌^◌, ◌≡◌, ◌≢◌, refl, ◌∙◌, sym, false, none, some, List, [], ◌∷◌, ◌++◌, arith, length,
  last?, has, add32, sub32, if◌then◌else◌, length-append, last?-snoc, last?-cons, Distinct-snoc,
  is_null,
}
use past_work.Scheduler.State.{Sched, done}
use past_work.Scheduler.Queues.{insert_b, remove_b}
use past_work.Scheduler.Chain.{Blocked}

-- A step that changes no global but the blocked list's, and no field of a process but its link.
pub record BlockedOnly (s s' : Sched) : Type 0 where
  pub globals : s' ≡ record s { processes = s'.processes; blocked = s'.blocked }
  pub fields :
      (i : ℕ)
      → record (s'.processes i) { push_block = none } ≡ record (s.processes i) { push_block = none }

insert_b-nil :
    (s : Sched) (n : ℕ)
    → s.blocked.front ≡ none
    → insert_b (some n) s
      ≡ done tt (record s {
        blocked = record { front = some n; back = some n; size = add32 s.blocked.size 1 };
      })
unfolding insert_b
insert_b-nil s n e = ground arith

abbrev hung : Sched → ℕ → ℕ → Sched
hung s z n = record s {
  processes = write_at s.processes z (record (s.processes z) { push_block = some n });
  blocked = record s.blocked { back = some n; size = add32 s.blocked.size 1 };
}

insert_b-hung :
    (s : Sched) (x n z : ℕ)
    → s.blocked.front ≡ some x
    → s.blocked.back ≡ some z
    → insert_b (some n) s ≡ done tt (hung s z n)
unfolding insert_b
insert_b-hung s x n z f e = ground arith

-- On a well-formed blocked list of fewer than 2^32 - 1 processes `insertB` appends a process that
-- is not on it and has no link, keeps the list well formed, and changes nothing else than the list
-- and the link of its last process.
pub insert_b-append :
    (s : Sched) (xs : List ℕ) (n : ℕ)
    → Blocked s xs
    → has n xs ≡ false
    → (s.processes n).push_block ≡ none
    → length xs + 1 < 2 ^ 32
    → (s' : Sched) × (insert_b (some n) s ≡ done tt s')
      × Blocked s' (xs ++ n ∷ [])
      × BlockedOnly s s'
      × ((i : ℕ) → has i xs ≡ false → s'.processes i ≡ s.processes i)
insert_b-append s [] n q out clear small = (
  record s { blocked = record { front = some n; back = some n; size = add32 s.blocked.size 1 } },
  insert_b-nil s n q.chain,
  record { chain = (refl, clear); back = refl; size = rw (q.size) refl; distinct = (refl, tt) },
  record { globals = refl; fields = λ i. refl },
  λ i h. refl,
)
insert_b-append s (x ∷ xs) n q out clear small =
    let (z, l) = last?-cons x xs in
    let apart : n ≢ z = ne_of_has (x ∷ xs) out (has-last? (x ∷ xs) z l) in
    (
      hung s z n,
      insert_b-hung s x n z q.chain.0 (q.back ∙ l),
      record {
        chain =
            Chain-snoc s.blocked.front x xs z n q.chain q.distinct l (ground arith) (ground arith)
              (λ i h ne. ground arith);
        back = sym (last?-snoc (x ∷ xs) n);
        size = omega (arith, q.size, length-append (x ∷ xs) (n ∷ []));
        distinct = Distinct-snoc (x ∷ xs) n q.distinct out;
      },
      record { globals = refl; fields = λ i. ground arith },
      λ i h. let ne : i ≢ z = ne_of_has (x ∷ xs) h (has-last? (x ∷ xs) z l) in ground arith,
    )

abbrev taken : Sched → ℕ → Sched
taken s x = record s {
  blocked = record {
    front = (s.processes x).push_block;
    back = if is_null (s.processes x).push_block then none else s.blocked.back;
    size = sub32 s.blocked.size 1;
  };
  processes = write_at s.processes x (record (s.processes x) { push_block = none });
}

remove_b-taken :
    (s : Sched) (x : ℕ) → s.blocked.front ≡ some x → remove_b s ≡ done (some x) (taken s x)
unfolding remove_b
remove_b-taken s x e = ground arith

taken_back :
    (s : Sched) (x : ℕ) (xs : List ℕ) → Blocked s (x ∷ xs) → (taken s x).blocked.back ≡ last? xs
taken_back s x [] q = ground (arith, q.chain)
taken_back s x (y ∷ xs) q = ground (arith, q.chain, q.back)

-- On a well-formed blocked list that is not empty, of fewer than 2^32 processes, `removeB` returns
-- the first process, leaves the rest as a well-formed list, clears the link of that process and
-- changes nothing else than the list.
pub remove_b-cons :
    (s : Sched) (x : ℕ) (xs : List ℕ)
    → Blocked s (x ∷ xs)
    → length (x ∷ xs) < 2 ^ 32
    → (s' : Sched) × (remove_b s ≡ done (some x) s')
      × Blocked s' xs
      × BlockedOnly s s'
      × ((s'.processes x).push_block ≡ none)
      × ((i : ℕ) → i ≢ x → s'.processes i ≡ s.processes i)
remove_b-cons s x xs q small = (
  taken s x,
  remove_b-taken s x q.chain.0,
  record {
    chain =
        Chain-frame (s.processes x).push_block xs
          (λ i h. let ne : x ≢ i = ne_of_has xs q.distinct.0 h in ground arith) q.chain.1;
    back = taken_back s x xs q;
    size = omega (arith, q.size);
    distinct = q.distinct.1;
  },
  record { globals = refl; fields = λ i. ground arith },
  ground arith,
  λ i ne. ground arith,
)
