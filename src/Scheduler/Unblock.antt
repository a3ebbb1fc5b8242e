-- ===== src/Scheduler/Unblock.antt =====
-- `execxuteB` of scheduler.c as a whole: in each call the first process whose blocking time is
-- over, and no other, leaves the blocked list.
use past_work.Base.Chains.{Chain-after, Chain, Chain-frame, ne_of_has, has-last?}
use past_work.Base.{
  ℕ, suc, zero, ◌<◌, ◌≤◌, ◌≡◌, ◌≢◌, refl, ◌∙◌, sym, Bool, true, false, Option, none, some, List, [],
  ◌∷◌, ◌++◌, arith, ◌==◌, length, last?, has, has-append, ◌||◌, Bool-cases, inl, inr, length-append,
  nonpositive32, All, last?-snoc, last?-append, last?-cons,
}
use past_work.Scheduler.State.{Sched, done, ◌>>=◌, ◌>>◌, continue, rounds}
use past_work.Scheduler.Queues.{release_b, execute_b_from, execute_b}
use past_work.Scheduler.Chain.{Blocked}
use past_work.Scheduler.Unlink.{
  final, has-middle, not-has-middle, before_last-final, before_id-final, Chain-final, last?-final,
}
use past_work.Scheduler.Release.{
  marked, unmarked, final_ne, release_first, release_middle, release_last, finish_inner, Released,
  Lists,
}

module _ (s : Sched) (x : ℕ) (ws : List ℕ) (p : ℕ) (post rs : List ℕ)
    (h : Lists s (x ∷ ws ++ p ∷ post) rs) where
  id_apart :
      (i : ℕ)
      → has i (x ∷ ws ++ p ∷ post) ≡ true
      → i ≢ p
      → ((s.processes i).process_id == (s.processes p).process_id) ≡ false
  id_apart i k ne = ground (arith, h.numbered i k, h.numbered p (has-middle (x ∷ ws) p post))

  first_ne : x ≢ p
  first_ne = ne_of_has (ws ++ p ∷ post) h.blocked.distinct.0 (has-middle ws p post)

  marked-Chain :
      Chain
        (λ i. ((marked s p).processes i).push_block)
        ((marked s p).processes x).push_block
        (ws ++ p ∷ post)
  marked-Chain =
      Chain-frame ((marked s p).processes x).push_block (ws ++ p ∷ post) (λ i k. unmarked s p i)
        (let e : ((marked s p).processes x).push_block ≡ (s.processes x).push_block =
            unmarked s p x in
          rw e h.blocked.chain.1)

  walked : length ws < rounds s
  walked = omega (arith, h.walked, length-append (x ∷ ws) (p ∷ post))

  outside : (has p (x ∷ ws) || has p post) ≡ false
  outside = sym (has-append p (x ∷ ws) post) ∙ not-has-middle (x ∷ ws) p post h.blocked.distinct

  -- No other process of the list has the number of `p`.
  id_before :
      (i : ℕ) → has i ws ≡ true → ((s.processes i).process_id == (s.processes p).process_id) ≡ false
  id_before i k =
      let ne : p ≢ i = ne_of_has ws (ground (arith, outside)) k in
      id_apart i (ground (arith, has-append i (x ∷ ws) (p ∷ post))) (λ e. ne (sym e))

  id_behind :
      (i : ℕ)
      → has i post ≡ true
      → ((s.processes i).process_id == (s.processes p).process_id) ≡ false
  id_behind i k =
      let ne : p ≢ i = ne_of_has post (ground (arith, outside)) k in
      id_apart i (ground (arith, has-append i (x ∷ ws) (p ∷ post))) (λ e. ne (sym e))

release_end :
    (s : Sched) (x : ℕ) (ws : List ℕ) (p : ℕ) (rs : List ℕ)
    → Lists s (x ∷ ws ++ p ∷ []) rs
    → (s' : Sched) × (release_b p s ≡ done tt s') × Released s (x ∷ ws ++ []) rs p s'
release_end s x ws p rs h =
    finish_inner s x ws p [] rs (some (final x ws)) h (sym (last?-final x ws)) (
      release_last s x (final x ws) p h.blocked.chain.0 (h.blocked.back ∙ last?-snoc (x ∷ ws) p)
        (let e = id_apart s x ws p [] rs h x (ground arith) (first_ne s x ws p [] rs h) in
          ground arith)
        (before_last-final (λ r. r.push_block) (marked s p) (rounds s) x ws p
          (marked-Chain s x ws p [] rs h) (walked s x ws p [] rs h))
        (Chain-final (λ i. (s.processes i).push_block) s.blocked.front x ws p [] h.blocked.chain)
        (Chain-after (λ i. (s.processes i).push_block) s.blocked.front (x ∷ ws) p []
          h.blocked.chain)
        (final_ne x ws p [] h.blocked.distinct))

release_inner :
    (s : Sched) (x : ℕ) (ws : List ℕ) (p z : ℕ) (post rs : List ℕ)
    → Lists s (x ∷ ws ++ p ∷ z ∷ post) rs
    → (s' : Sched) × (release_b p s ≡ done tt s') × Released s (x ∷ ws ++ z ∷ post) rs p s'
release_inner s x ws p z post rs h =
    let (y, l) = last?-cons z post in
    let back : s.blocked.back ≡ last? (z ∷ post) =
      h.blocked.back ∙ last?-append (x ∷ ws) p (z ∷ post) in
    finish_inner s x ws p (z ∷ post) rs s.blocked.back h (back ∙ sym (last?-append (x ∷ ws) z post))
      (release_middle s x y (final x ws) p h.blocked.chain.0 (back ∙ l)
        (let e =
            id_apart s x ws p (z ∷ post) rs h x (ground arith)
              (first_ne s x ws p (z ∷ post) rs h) in
          ground arith)
        (let e = id_behind s x ws p (z ∷ post) rs h y (has-last? (z ∷ post) y l) in ground arith)
        (before_id-final (λ r. r.push_block) (marked s p) (rounds s) (s.processes p).process_id x ws
          p (z ∷ post) (marked-Chain s x ws p (z ∷ post) rs h)
          (λ i k. let e = id_before s x ws p (z ∷ post) rs h i k in ground arith) (ground arith)
          (walked s x ws p (z ∷ post) rs h))
        (Chain-final (λ i. (s.processes i).push_block) s.blocked.front x ws p (z ∷ post)
          h.blocked.chain)
        (final_ne x ws p (z ∷ post) h.blocked.distinct))

-- `release_b` takes a process off the blocked list, wherever it stands, and appends it to the
-- ready queue.
release_any :
    (s : Sched) (pre : List ℕ) (p : ℕ) (post rs : List ℕ)
    → Lists s (pre ++ p ∷ post) rs
    → (s' : Sched) × (release_b p s ≡ done tt s') × Released s (pre ++ post) rs p s'
release_any s [] p post rs h = release_first s p post rs h
release_any s (x ∷ ws) p [] rs h = release_end s x ws p rs h
release_any s (x ∷ ws) p (z ∷ post) rs h = release_inner s x ws p z post rs h

-- Whether the blocking time of a process is over.
abbrev pub expired : Sched → ℕ → Bool
expired s i = nonpositive32 (s.processes i).burst_time

abbrev pub Waits : Sched → List ℕ → Type 0
Waits s = All (λ i. expired s i ≡ false)

-- The loop passes over the processes that are still to wait.
skip :
    (s : Sched) (pre post : List ℕ) (p : Option ℕ) (k : ℕ)
    → Chain (λ i. (s.processes i).push_block) p (pre ++ post)
    → Waits s pre
    → length (pre ++ post) ≤ k
    → (q : Option ℕ) × (m : ℕ) × (execute_b_from k p s ≡ execute_b_from m q s)
      × Chain (λ i. (s.processes i).push_block) q post
      × (length post ≤ m)
unfolding execute_b_from
skip s [] post p k c w fuel = (p, k, refl, c, fuel)
skip s (x ∷ pre) post p zero c w fuel = absurd (omega arith)
skip s (x ∷ pre) post p (suc k) (e, c) w fuel =
    let (q, m, same, c', fuel') =
      skip s pre post (s.processes x).push_block k c w.1 (omega arith) in
    (q, m, rw (e, w.0, ◌>>=◌, ◌>>◌, continue) same, c', fuel')

at_end : (s : Sched) (k : ℕ) → execute_b_from k none s ≡ done tt s
unfolding execute_b_from
at_end s zero = refl
at_end s (suc k) = refl

at_expired :
    (s s' : Sched) (k p : ℕ)
    → 0 < k
    → expired s p ≡ true
    → release_b p s ≡ done tt s'
    → (s'.processes p).push_block ≡ none
    → execute_b_from k (some p) s ≡ done tt s'
unfolding execute_b_from
at_expired s s' zero p h over run free = absurd (omega arith)
at_expired s s' (suc k) p h over run free =
    rw (over, ◌>>=◌, ◌>>◌, continue) (rw (run, ◌>>=◌, ◌>>◌, continue) (rw free (at_end s' k)))

pass :
    (s : Sched) (bs : List ℕ) (p : Option ℕ) (k : ℕ)
    → Chain (λ i. (s.processes i).push_block) p bs
    → Waits s bs
    → length bs ≤ k
    → execute_b_from k p s ≡ done tt s
unfolding execute_b_from
pass s [] p k c w fuel = rw c (at_end s k)
pass s (x ∷ bs) p zero c w fuel = absurd (omega arith)
pass s (x ∷ bs) p (suc k) (e, c) w fuel =
    rw (e, w.0, ◌>>=◌, ◌>>◌, continue) (pass s bs (s.processes x).push_block k c w.1 (omega arith))

-- While the blocking time of no process of a well-formed blocked list is over, `execxuteB` changes
-- nothing.
pub execute_b-Waits :
    (s : Sched) (bs : List ℕ)
    → Blocked s bs
    → length bs ≤ s.count_prime
    → Waits s bs
    → execute_b s ≡ done tt s
unfolding execute_b
execute_b-Waits s bs b fuel w = elim (Bool-cases (s.blocked.size == 0)) [
  | inl e ↦ rw (e, ◌>>=◌, continue)
  | inr e ↦ rw (e, ◌>>=◌, continue) (pass s bs s.blocked.front (rounds s) b.chain w (omega arith))
]

-- When the blocked list and the ready queue are well formed and disjoint, `execxuteB` moves the
-- first process of the blocked list whose blocking time is over to the end of the ready queue, and
-- no other: those behind it stay blocked, also where their time is over too. Of the processes only
-- the state of that one and the links change.
pub execute_b-first :
    (s : Sched) (pre : List ℕ) (p : ℕ) (post rs : List ℕ)
    → Lists s (pre ++ p ∷ post) rs
    → Waits s pre
    → expired s p ≡ true
    → (s' : Sched) × (execute_b s ≡ done tt s') × Released s (pre ++ post) rs p s'
unfolding execute_b
execute_b-first s pre p post rs h w over =
    let (s', run, r) = release_any s pre p post rs h in
    let (q, m, same, c, fuel) =
      skip s pre (p ∷ post) s.blocked.front (rounds s) h.blocked.chain w
        (omega (arith, h.walked)) in
    let nonempty : (s.blocked.size == 0) ≡ false =
      ground (arith, h.blocked.size, length-append pre (p ∷ post)) in
    let moved : execute_b_from m q s ≡ done tt s' =
      rw c.0 (at_expired s s' m p (omega arith) over run r.free) in
    (s', rw (nonempty, ◌>>=◌, continue) (same ∙ moved), r)
