-- ===== src/Scheduler/Whole/Execute.antt =====
-- `executeR` of scheduler.c takes a process off the ready queue and starts it: what the books say of
-- the process and of its burst.
use past_work.Base.Chains.{write_at-same, write_at-other}
use past_work.Base.{
  ℕ, ◌+◌, ◌<◌, ◌≤◌, ◌^◌, ◌≡◌, refl, ap, subst, ◌∙◌, Bool, true, false, none, some, List, ◌==◌, ◌&&◌,
  ◌⊎◌, ltb, ◌%◌, add32, if◌then◌else◌, arith, has, length, Bool-cases, inl, inr, ◌++◌, ◌∷◌, [],
}
use past_work.Scheduler.State.{Process, Sched, done}
use past_work.Scheduler.Dispatch.{remaining, draw_burst}
use past_work.Scheduler.Chain.{Ready}
use past_work.Scheduler.Selection.{Taken}
use past_work.Scheduler.Whole.{Shape, Good, Drawn, possible}
use past_work.Scheduler.Whole.Joining.{Shape-low}
use past_work.Scheduler.Whole.Launch.{
  Launched, credit, launch_entries, Shape-Launched, Fair-Launched,
}
use past_work.Scheduler.Whole.Drawing.{
  burst_for, drawn, draw_burst-drawn, running_first, marked_short,
}

pub List-cases : (xs : List ℕ) → (xs ≡ []) ⊎ ((x : ℕ) × (ys : List ℕ) × (xs ≡ x ∷ ys))
List-cases [] = inl refl
List-cases (x ∷ xs) = inr (x, xs, refl)

pub some_line : (xs : List ℕ) → 0 < length xs → (y : ℕ) × (rest : List ℕ) × (xs ≡ y ∷ rest)
some_line [] h = absurd (omega arith)
some_line (y ∷ rest) h = (y, rest, refl)

-- A process that can run.
abbrev pub needs : Process → Bool
needs r = possible r && ltb r.cpu_time r.c

-- A process that needs time gets a burst that is not empty, and that it needs.
burst_for-needed :
    (r : Process) (y : ℕ)
    → needs r ≡ true
    → (1 ≤ burst_for r r.b y) × (r.cpu_time + burst_for r r.b y ≤ r.c)
burst_for-needed r y h =
    let more : r.cpu_time < r.c = ground arith in
    let small : r.c < 2 ^ 32 = ground arith in
    let range : 0 < r.b = ground arith in
    let top : r.b < 2 ^ 32 = ground arith in
    let left : remaining r + r.cpu_time ≡ r.c = omega arith in
    elim (Bool-cases (ltb (remaining r) (add32 1 (y % r.b)))) [
      | inl short ↦
          let v : burst_for r r.b y ≡ remaining r = rw short refl in rw v (omega arith, omega arith)
      | inr long ↦
          let v : burst_for r r.b y ≡ add32 1 (y % r.b) = rw long refl in
          let enough : add32 1 (y % r.b) ≤ remaining r = ground arith in
          rw v (omega arith, omega arith)
    ]

-- Taking process `p` off the ready queue and running it for `v` cycles.
module _ (now next : ℕ) (s t s' : Sched) (pre : List ℕ) (p : ℕ) (post : List ℕ) (v : ℕ)
    (g : Good now next 1 s) (e : g.ready_list ≡ pre ++ p ∷ post) (free : s.selection ≡ none)
    (k : Taken s (pre ++ post) p t) (l : Launched t s' p v) where
  abbrev whole : Shape s (pre ++ p ∷ post) g.blocked_list
  whole = subst (λ (rs : List ℕ). Shape s rs g.blocked_list) e g.shape

  pub launched-Drawn : length s.random_lines ≤ length s'.random_lines + 1 → Drawn s s'
  launched-Drawn lines = record {
    same_present =
        ap (λ (u : Sched). u.present) l.globals ∙ ap (λ (u : Sched). u.present) k.1.globals;
    same_count =
        ap (λ (u : Sched). u.count_prime) l.globals ∙ ap (λ (u : Sched). u.count_prime) k.1.globals;
    one_line = lines;
    credit = credit s t s' pre p post g.blocked_list v whole k l;
    same_entries = launch_entries s t s' pre p post g.blocked_list v whole k l;
    busy = inl (p, ap (λ (u : Sched). u.selection) l.globals);
  }

  pub launched-Good : Good now next 1 s'
  launched-Good =
      let h : Shape s (pre ++ p ∷ post) g.blocked_list =
        subst (λ (rs : List ℕ). Shape s rs g.blocked_list) e g.shape in
      record {
        ready_list = pre ++ post;
        blocked_list = g.blocked_list;
        shape = Shape-Launched s t s' pre p post g.blocked_list v h k l free;
        books = Fair-Launched s t s' pre p post g.blocked_list v h k l now next g.books;
      }

-- The ready queue of a good state: its processes have their numbers and need time, and it is no
-- longer than there are processes.
pub queue_facts :
    (now next : ℕ) (s : Sched) (g : Good now next 1 s) (ys : List ℕ)
    → g.ready_list ≡ ys
    → Ready s ys
      × ((i : ℕ) → has i ys ≡ true → (s.processes i).process_id ≡ i)
      × (length ys ≤ s.count_prime)
      × (length ys < 2 ^ 32)
      × ((i : ℕ) → has i ys ≡ true → needs (s.processes i) ≡ true)
queue_facts now next s g ys e =
    let started : (i : ℕ) → has i ys ≡ true → (s.processes i).condition ≡ 1 =
      λ i h. ground (arith, g.shape.waits i, ap (λ (zs : List ℕ). has i zs) e) in
    (
      subst (Ready s) e g.shape.ready,
      λ i h. let one = started i h in g.shape.numbered i (Shape-low i g.shape (omega (arith, one))),
      omega (arith, g.shape.total, ap length e),
      omega (arith, g.shape.total, g.shape.small, ap length e),
      λ i h.
          let one = started i h in
          let (can, ok) = g.books i (Shape-low i g.shape (omega (arith, one))) in ground arith,
    )

pub some_range : (r : Process) → needs r ≡ true → (r.b == 0) ≡ false
some_range r h = ground arith

-- What the two branches leave of a state in which the process is off the queue.
module _ (alg n : ℕ) (t : Sched) (x y : ℕ) (rest : List ℕ)
    (need : needs (t.processes x) ≡ true) where
  abbrev pub drawn_first : Sched
  drawn_first = drawn t n x (t.processes x).b y rest

  abbrev pub drawn_short : Sched
  drawn_short = drawn (marked_short t x) n x (t.processes x).b y rest

  abbrev pub burst : ℕ
  burst = burst_for (t.processes x) (t.processes x).b y

  pub first-burst : ((drawn_first.processes x).cpu_burst == 0) ≡ false
  first-burst =
      let (some_burst, _) = burst_for-needed (t.processes x) y need in
      let e =
        ap (λ (r : Process). r.cpu_burst)
          (write_at-same t.processes x (record (t.processes x) { cpu_burst = burst })) in
      rw e (ground arith)

  pub first-Launched : Launched t (running_first alg drawn_first x) x burst
  first-Launched =
      let (some_burst, needed) = burst_for-needed (t.processes x) y need in
      record {
        others = λ i ne.
            write_at-other drawn_first.processes x _ i ne ∙ write_at-other t.processes x _ i ne;
        quantum = if alg == 1 then 2 else (t.processes x).quantum;
        mine =
            write_at-same drawn_first.processes x _
            ∙ ap
                (λ (r : Process). record r {
                  condition = 2;
                  operating = true;
                  quantum = if alg == 1 then 2 else r.quantum;
                })
                (write_at-same t.processes x _);
        globals = refl;
        some_burst = some_burst;
        needed = needed;
      }

  pub short-Launched : Launched t (record drawn_short { selection = some x }) x burst
  short-Launched =
      let (some_burst, needed) = burst_for-needed (t.processes x) y need in
      record {
        others = λ i ne.
            write_at-other (marked_short t x).processes x _ i ne
            ∙ write_at-other t.processes x _ i ne;
        quantum = (t.processes x).quantum;
        mine =
            write_at-same (marked_short t x).processes x _
            ∙ ap (λ (r : Process). record r { cpu_burst = burst_for r (t.processes x).b y })
                (write_at-same t.processes x _);
        globals = refl;
        some_burst = some_burst;
        needed = needed;
      }

  pub short-draw :
      t.random_lines ≡ y ∷ rest
      → draw_burst ((marked_short t x).processes x).b n x (marked_short t x) ≡ done tt drawn_short
  short-draw l =
      ap (λ (r : Process). draw_burst r.b n x (marked_short t x)) (write_at-same t.processes x _)
      ∙ draw_burst-drawn (marked_short t x) n x (t.processes x).b y rest l (ground arith)
