-- ===== src/Scheduler/Release.antt =====
-- `execxuteB` of scheduler.c: which process leaves the blocked list, and where it goes.
use past_work.Base.Chains.{write_at, ne_of_has}
use past_work.Base.{
  ℕ, ◌+◌, ◌<◌, ◌≤◌, ◌^◌, ◌≡◌, ◌≢◌, refl, ap, ◌∙◌, sym, true, false, Option, none, some, List, [],
  ◌∷◌, ◌++◌, arith, ◌==◌, length, last?, has, Distinct, sub32, length-append,
}
use past_work.Scheduler.State.{Process, Queue, Sched, done, rounds}
use past_work.Scheduler.Queues.{q_setup, remove_b, release_b, before_last, before_id}
use past_work.Scheduler.Chain.{IsQueue-frame, Ready, Blocked}
use past_work.Scheduler.Unlink.{
  final, has-final, has-middle, Distinct-without, Chain-unlink, not-has-middle,
}
use past_work.Scheduler.BlockedList.{remove_b-cons}
use past_work.Scheduler.ReadyQueue.{q_setup-append}

-- The state in which `release_b` looks for the place of `p`.
abbrev pub marked : Sched → ℕ → Sched
marked s p = record s {
  processes = write_at s.processes p (record (s.processes p) { condition = 1 });
}

-- The state once `p`, which follows `b`, is off the blocked list.
abbrev pub detached : Sched → ℕ → ℕ → Option ℕ → Sched
detached s b p back =
    let ps =
      write_at s.processes b (record (s.processes b) { push_block = (s.processes p).push_block }) in
    record s {
      processes = write_at ps p (record (ps p) { push_block = none });
      blocked = record s.blocked { back = back; size = sub32 s.blocked.size 1 };
    }

pub release_middle :
    (s : Sched) (x y b p : ℕ)
    → s.blocked.front ≡ some x
    → s.blocked.back ≡ some y
    → (((s.processes p).process_id == (s.processes x).process_id) ≡ false)
    → (((s.processes p).process_id == (s.processes y).process_id) ≡ false)
    → (before_id (rounds s) (λ r. r.push_block) (s.processes p).process_id x (marked s p)
        ≡ done b (marked s p))
    → (s.processes b).push_block ≡ some p
    → b ≢ p
    → release_b p s ≡ q_setup (some p) (detached (marked s p) b p s.blocked.back)
unfolding release_b
release_middle s x y b p f e nx ny walk l ne = ground arith

pub release_last :
    (s : Sched) (x b p : ℕ)
    → s.blocked.front ≡ some x
    → s.blocked.back ≡ some p
    → (((s.processes p).process_id == (s.processes x).process_id) ≡ false)
    → (before_last (rounds s) (λ r. r.push_block) x (marked s p) ≡ done b (marked s p))
    → (s.processes b).push_block ≡ some p
    → (s.processes p).push_block ≡ none
    → b ≢ p
    → release_b p s ≡ q_setup (some p) (detached (marked s p) b p (some b))
unfolding release_b
release_last s x b p f e nx walk l n ne = ground arith

-- A process but for the links of the ready queue and of the blocked list.
abbrev pub plain : Process → Process
plain r = record r { fresh_prime = none; push_block = none }

-- What has become of `s` once `p` has gone from the blocked list to the end of the ready queue.
pub record Released (s : Sched) (bs rs : List ℕ) (p : ℕ) (s' : Sched) : Type 0 where
  pub blocked : Blocked s' bs
  pub ready : Ready s' (rs ++ p ∷ [])
  pub free : (s'.processes p).push_block ≡ none
  pub globals : s' ≡ record s { processes = s'.processes; ready = s'.ready; blocked = s'.blocked }
  pub fields : (i : ℕ) → plain (s'.processes i) ≡ plain ((marked s p).processes i)
  pub others :
      (i : ℕ) → has i rs ≡ false → (s'.processes i).fresh_prime ≡ (s.processes i).fresh_prime
  pub outside :
      (i : ℕ) → has i bs ≡ false → i ≢ p → (s'.processes i).push_block ≡ (s.processes i).push_block

-- The lists that `execxuteB` meets: a blocked list of processes that carry their numbers, and a
-- ready queue with room.
pub record Lists (s : Sched) (bs rs : List ℕ) : Type 0 where
  pub blocked : Blocked s bs
  pub ready : Ready s rs
  pub numbered : (i : ℕ) → has i bs ≡ true → (s.processes i).process_id ≡ i
  pub apart : (i : ℕ) → has i bs ≡ true → has i rs ≡ false
  pub clear : (i : ℕ) → has i bs ≡ true → (s.processes i).fresh_prime ≡ none
  pub room : length rs + 1 < 2 ^ 32
  pub bounded : length bs < 2 ^ 32
  pub walked : length bs ≤ s.count_prime

-- The last step of each branch: `p` is off the blocked list, and goes to the ready queue.
finish :
    (s t : Sched) (bs rs : List ℕ) (p : ℕ)
    → release_b p s ≡ q_setup (some p) t
    → Blocked t bs
    → Ready t rs
    → has p rs ≡ false
    → (t.processes p).fresh_prime ≡ none
    → (t.processes p).push_block ≡ none
    → length rs + 1 < 2 ^ 32
    → t ≡ record s { processes = t.processes; blocked = t.blocked }
    → ((i : ℕ) → plain (t.processes i) ≡ plain ((marked s p).processes i))
    → ((i : ℕ) → (t.processes i).fresh_prime ≡ (s.processes i).fresh_prime)
    → ((i : ℕ) → has i bs ≡ false → i ≢ p → (t.processes i).push_block ≡ (s.processes i).push_block)
    → (s' : Sched) × (release_b p s ≡ done tt s') × Released s bs rs p s'
finish s t bs rs p step b q out clear free room g f k o =
    let (s', run, (r, only, same)) = q_setup-append t rs p q out clear room in
    (
      s',
      step ∙ run,
      record {
        blocked =
            IsQueue-frame bs (ap (λ (u : Sched). u.blocked) only.globals)
              (λ i h. ap (λ (u : Process). u.push_block) (only.fields i)) b;
        ready = r;
        free = ap (λ (u : Process). u.push_block) (only.fields p) ∙ free;
        globals =
            only.globals
            ∙ ap (λ (u : Sched). record u { processes = s'.processes; ready = s'.ready }) g
            ∙ ap
                (λ (q : Queue). record s {
                  processes = s'.processes;
                  ready = s'.ready;
                  blocked = q;
                })
                (sym (ap (λ (u : Sched). u.blocked) only.globals));
        fields = λ i. ap (λ (u : Process). record u { push_block = none }) (only.fields i) ∙ f i;
        others = λ i h. ap (λ (u : Process). u.fresh_prime) (same i h) ∙ k i;
        outside = λ i h ne. ap (λ (u : Process). u.push_block) (only.fields i) ∙ o i h ne;
      },
    )

pub unmarked :
    (s : Sched) (p i : ℕ) → ((marked s p).processes i).push_block ≡ (s.processes i).push_block
unmarked s p i = ground arith

unmarked_ready :
    (s : Sched) (p i : ℕ) → ((marked s p).processes i).fresh_prime ≡ (s.processes i).fresh_prime
unmarked_ready s p i = ground arith

release_front :
    (s t : Sched) (x : ℕ)
    → s.blocked.front ≡ some x
    → remove_b (marked s x) ≡ done (some x) t
    → release_b x s ≡ q_setup (some x) t
unfolding release_b
release_front s t x f run = ground arith

pub release_first :
    (s : Sched) (x : ℕ) (post rs : List ℕ)
    → Lists s (x ∷ post) rs
    → (s' : Sched) × (release_b x s ≡ done tt s') × Released s post rs x s'
release_first s x post rs h =
    let m : Sched = marked s x in
    let b : Blocked m (x ∷ post) =
      IsQueue-frame (x ∷ post) refl (λ i k. unmarked s x i) h.blocked in
    let (t, run, b', only, free, same) = remove_b-cons m x post b h.bounded in
    let rest : (i : ℕ) → (t.processes i).fresh_prime ≡ (s.processes i).fresh_prime =
      λ i. ap (λ (u : Process). u.fresh_prime) (only.fields i) ∙ unmarked_ready s x i in
    finish s t post rs x (release_front s t x h.blocked.chain.0 run) b'
      (IsQueue-frame rs (ap (λ (u : Sched). u.ready) only.globals) (λ i k. rest i) h.ready)
      (h.apart x (ground arith)) (rest x ∙ h.clear x (ground arith)) free h.room only.globals
      (λ i. ap (λ (u : Process). record u { fresh_prime = none }) (only.fields i)) rest
      (λ i k ne. ap (λ (u : Process). u.push_block) (same i ne) ∙ unmarked s x i)

pub final_ne :
    (x : ℕ) (ws : List ℕ) (p : ℕ) (post : List ℕ) → Distinct (x ∷ ws ++ p ∷ post) → final x ws ≢ p
final_ne x ws p post d e =
    let out = not-has-middle (x ∷ ws) p post d in cc (has-final x ws post, out)

-- The blocked list without `p`, and its other links, once its predecessor `b` points past it.
detached-Blocked :
    (s : Sched) (x : ℕ) (ws : List ℕ) (p : ℕ) (post rs : List ℕ) (back : Option ℕ)
    → Lists s (x ∷ ws ++ p ∷ post) rs
    → back ≡ last? (x ∷ ws ++ post)
    → Blocked (detached (marked s p) (final x ws) p back) (x ∷ ws ++ post)
detached-Blocked s x ws p post rs back h l =
    let ne : final x ws ≢ p = final_ne x ws p post h.blocked.distinct in
    record {
      chain =
          Chain-unlink s.blocked.front x ws p post h.blocked.chain h.blocked.distinct (ground arith)
            (λ i k nf np. ground arith);
      back = l;
      size = omega (
        arith,
        h.blocked.size,
        h.bounded,
        length-append (x ∷ ws) (p ∷ post),
        length-append (x ∷ ws) post,
      );
      distinct = Distinct-without (x ∷ ws) p post h.blocked.distinct;
    }

detached_fields :
    (s : Sched) (b p : ℕ) (back : Option ℕ) (i : ℕ)
    → plain ((detached (marked s p) b p back).processes i) ≡ plain ((marked s p).processes i)
detached_fields s b p back i = ground arith

-- The last step of the branches in which `p` is not the first of the blocked list.
pub finish_inner :
    (s : Sched) (x : ℕ) (ws : List ℕ) (p : ℕ) (post rs : List ℕ) (back : Option ℕ)
    → Lists s (x ∷ ws ++ p ∷ post) rs
    → back ≡ last? (x ∷ ws ++ post)
    → release_b p s ≡ q_setup (some p) (detached (marked s p) (final x ws) p back)
    → (s' : Sched) × (release_b p s ≡ done tt s') × Released s (x ∷ ws ++ post) rs p s'
finish_inner s x ws p post rs back h l step =
    let t : Sched = detached (marked s p) (final x ws) p back in
    let in_list : has p (x ∷ ws ++ p ∷ post) ≡ true = has-middle (x ∷ ws) p post in
    finish s t (x ∷ ws ++ post) rs p step (detached-Blocked s x ws p post rs back h l)
      (IsQueue-frame rs refl (λ i k. ground arith) h.ready) (h.apart p in_list)
      (ground (arith, h.clear p in_list)) (ground arith) h.room refl
      (detached_fields s (final x ws) p back) (λ i. ground arith)
      (λ i k ne.
        let away : i ≢ final x ws = ne_of_has (x ∷ ws ++ post) k (has-final x ws post) in
        ground arith)
