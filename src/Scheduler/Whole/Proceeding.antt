-- ===== src/Scheduler/Whole/Proceeding.antt =====
-- `proceedForward` of scheduler.c on a state in shape.
use past_work.Base.{
  ℕ, ◌<◌, ◌≡◌, ◌≢◌, refl, ap, ◌∙◌, true, false, none, some, ◌==◌, ◌&&◌, arith, Bool-cases,
  Option-cases, inl, inr, nonpositive32, ◌++◌, ◌∷◌, [],
}
use past_work.Scheduler.State.{Process, Sched, done}
use past_work.Scheduler.Dispatch.{proceed, proceed_forward}
use past_work.Scheduler.Release.{plain}
use past_work.Scheduler.Whole.{Kept-refl, number, Good, Kept}
use past_work.Scheduler.Whole.Books.{Fair-step}
use past_work.Scheduler.Whole.Joining.{Touched, enqueue, block}
use past_work.Scheduler.Whole.Joined.{Shape-enqueue, Shape-block, Shape-stay}
use past_work.Scheduler.Whole.Proceed.{
  settled, conditioned, ended, deselect, proceed-ended, proceed-blocked, proceed-ready,
  proceed-runs, forward-none, forward-some,
}
use past_work.Scheduler.Whole.Forward.{
  touch, elsewhere, two, low, keep, onward, no_more, entries, linked,
}

-- What becomes of the running process of a good state.
module _ (s : Sched) (p t : ℕ) (g : Good t t 0 s) (now : s.present ≡ t)
    (sel : s.selection ≡ some p) where
  proceeds_ready :
      (alg : ℕ)
      → (alg == 2) ≡ false
      → (s.processes p).c ≢ (s.processes p).cpu_time
      → (s.processes p).cpu_burst ≢ 0
      → ((alg == 1) && nonpositive32 (s.processes p).quantum) ≡ true
      → (s' : Sched) × (proceed alg p s ≡ done tt s') × Good t t 1 s' × Kept s s'
  proceeds_ready alg here more burst over =
      let c2 = (two s p t g now sel) in
      let (u, run, j) = enqueue g.shape (touch s p 1) (ground arith) (ground arith) in
      let (books, kept) =
        (linked s p t g now sel) u 1 (g.ready_list ++ p ∷ []) g.blocked_list j more (omega arith)
          (omega arith) (omega arith) in
      (
        deselect u,
        proceed-ready alg s p here u more burst over run,
        record {
          ready_list = g.ready_list ++ p ∷ [];
          blocked_list = g.blocked_list;
          shape =
              Shape-enqueue none g.shape j (low s p t g now sel) (omega (arith, c2)) (ground arith)
                (ground arith) (ground arith) (ground arith) (λ i. ground arith) (ground arith);
          books = books;
        },
        kept,
      )

  proceeds_blocked :
      (alg : ℕ)
      → (alg == 2) ≡ false
      → (s.processes p).c ≢ (s.processes p).cpu_time
      → (s.processes p).cpu_burst ≡ 0
      → (s' : Sched) × (proceed alg p s ≡ done tt s') × Good t t 1 s' × Kept s s'
  proceeds_blocked alg here more burst =
      let c2 = (two s p t g now sel) in
      let (u, run, j) = block g.shape (touch s p 3) (ground arith) (ground arith) in
      let (books, kept) =
        (linked s p t g now sel) u 3 g.ready_list (g.blocked_list ++ p ∷ []) j more (omega arith)
          (omega arith) (omega arith) in
      (
        deselect u,
        proceed-blocked alg s p here u more burst run,
        record {
          ready_list = g.ready_list;
          blocked_list = g.blocked_list ++ p ∷ [];
          shape = Shape-block g.shape j sel (ground arith) (ground arith);
          books = books;
        },
        kept,
      )

  proceeds_runs :
      (alg : ℕ)
      → (alg == 2) ≡ false
      → (s.processes p).c ≢ (s.processes p).cpu_time
      → (s.processes p).cpu_burst ≢ 0
      → ((alg == 1) && nonpositive32 (s.processes p).quantum) ≡ false
      → (s' : Sched) × (proceed alg p s ≡ done tt s') × Good t t 1 s' × Kept s s'
  proceeds_runs alg here more burst over =
      let c2 = (two s p t g now sel) in
      let v : Sched = conditioned (settled s p) p 2 in
      let c = touch s p 2 in
      (
        v,
        proceed-runs alg s p here more burst over,
        record {
          ready_list = g.ready_list;
          blocked_list = g.blocked_list;
          shape = Shape-stay g.shape c sel (inl refl) (ground arith) (ground arith) (ground arith);
          books =
              Fair-step s v p t t 0 t 1 g.books c.moves.same_count
                (λ i ne. ap (λ (r : Process). plain r) (elsewhere s p 2 i ne))
                (keep s p t g now sel)
                ((onward s p t g now sel) 2 more (omega arith) (omega arith) (λ _. burst));
        },
        record {
          same_present = ground arith;
          same_count = c.moves.same_count;
          same_lines = ground arith;
          lower = (no_more s p t g now sel) v 2 (λ i. refl);
          same_entries = (entries s p t g now sel) 2;
        },
      )

  proceeds_ended :
      (alg : ℕ)
      → (alg == 2) ≡ false
      → (s.processes p).c ≡ (s.processes p).cpu_time
      → (s' : Sched) × (proceed alg p s ≡ done tt s') × Good t t 1 s' × Kept s s'
  proceeds_ended alg here over =
      let c2 = (two s p t g now sel) in
      let v : Sched = ended (settled s p) p in
      let room : s.completion < s.count_prime =
        omega (arith, g.shape.total, g.shape.finished, ap number sel) in
      let c : Touched s v p 4 = record {
        moves = record {
          condition = λ i. ground arith;
          ids = λ i. ground arith;
          same_count = ground arith;
        };
        fresh = λ i. ground arith;
        push = λ i. ground arith;
        ready = ground arith;
        blocked = ground arith;
      } in
      let (can, ok) = g.books p (low s p t g now sel) in
      (
        v,
        proceed-ended alg s p here over room,
        record {
          ready_list = g.ready_list;
          blocked_list = g.blocked_list;
          shape =
              Shape-stay g.shape c sel (inr refl) (ground arith) (ground arith)
                (ground (arith, g.shape.small, room));
          books =
              Fair-step s v p t t 0 t 1 g.books c.moves.same_count (λ i ne. ground arith)
                (keep s p t g now sel) (ground arith, ground arith);
        },
        record {
          same_present = ground arith;
          same_count = ground arith;
          same_lines = ground arith;
          lower =
              (no_more s p t g now sel) v 4
                (λ i. elim (Bool-cases (p == i)) [ inl e ↦ rw e refl | inr e ↦ rw e refl ]);
          same_entries = λ i. ground arith;
        },
      )

  proceeds :
      (alg : ℕ)
      → (alg == 2) ≡ false
      → (s' : Sched) × (proceed alg p s ≡ done tt s') × Good t t 1 s' × Kept s s'
  proceeds alg here =
      let r = s.processes p in
      elim (Bool-cases (r.c == r.cpu_time)) [
        | inl e ↦ proceeds_ended alg here (ground arith)
        | inr more ↦ elim (Bool-cases (r.cpu_burst == 0)) [
          | inl e ↦ proceeds_blocked alg here (ground arith) (ground arith)
          | inr burst ↦ elim (Bool-cases ((alg == 1) && nonpositive32 r.quantum)) [
            | inl over ↦ proceeds_ready alg here (ground arith) (ground arith) over
            | inr run ↦ proceeds_runs alg here (ground arith) (ground arith) run
          ]
        ]
      ]

-- `proceedForward` brings a good state before a cycle to one in which a running process runs.
pub proceed_forward-Good :
    (alg t : ℕ) (s : Sched)
    → (alg == 2) ≡ false
    → s.present ≡ t
    → Good t t 0 s
    → (s' : Sched) × (proceed_forward alg s ≡ done tt s') × Good t t 1 s' × Kept s s'
proceed_forward-Good alg t s here now g = elim (Option-cases s.selection) [
  | inl e ↦
      let idle : (i : ℕ) → (s.processes i).condition ≢ 2 = λ i. ground (arith, g.shape.runs i) in
      (
        s,
        forward-none alg s e,
        record {
          ready_list = g.ready_list;
          blocked_list = g.blocked_list;
          shape = g.shape;
          books = λ i low. let (can, ok) = g.books i low in let n = idle i in (can, ground arith);
        },
        Kept-refl s,
      )
  | inr (p, e) ↦
      let (s', run, good, kept) = proceeds s p t g now e alg here in
      (s', forward-some alg s p e ∙ run, good, kept)
]
