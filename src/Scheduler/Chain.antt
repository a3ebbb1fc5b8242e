-- ===== src/Scheduler/Chain.antt =====
-- What the linked lists of scheduler.c stand for: the processes on them, in order.
use past_work.Base.Chains.{Chain, Chain-frame}
use past_work.Base.{ℕ, ◌≡◌, true, Option, List, length, last?, has, Distinct}
use past_work.Scheduler.State.{Queue, Sched}

pub record IsQueue (next : ℕ → Option ℕ) (q : Queue) (xs : List ℕ) : Type 0 where
  pub chain : Chain next q.front xs
  pub back : q.back ≡ last? xs
  pub size : q.size ≡ length xs
  pub distinct : Distinct xs

-- The ready queue and the blocked list hold these processes.
abbrev pub Ready : Sched → List ℕ → Type 0
Ready s xs = IsQueue (λ i. (s.processes i).fresh_prime) s.ready xs

abbrev pub Blocked : Sched → List ℕ → Type 0
Blocked s xs = IsQueue (λ i. (s.processes i).push_block) s.blocked xs

pub IsQueue-frame :
    {next next' : ℕ → Option ℕ} {q q' : Queue} (xs : List ℕ)
    → q' ≡ q
    → ((i : ℕ) → has i xs ≡ true → next' i ≡ next i)
    → IsQueue next q xs
    → IsQueue next' q' xs
IsQueue-frame {q} {q'} xs e same h = record {
  chain = Chain-frame q'.front xs same (rw e h.chain);
  back = rw e h.back;
  size = rw e h.size;
  distinct = h.distinct;
}
