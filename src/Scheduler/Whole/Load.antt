-- ===== src/Scheduler/Whole/Load.antt =====
-- The loop of `main` of scheduler.c that reads the processes, and the first draw of their bursts.
use past_work.Base.Chains.{write_at-all, write_at, write_at-same, write_at-other}
use past_work.Base.{
  ℕ, suc, ◌+◌, ◌<◌, ◌≤◌, ◌^◌, ◌%◌, ◌≡◌, refl, ap, ◌∙◌, sym, Bool, true, false, none, List, [], ◌∷◌,
  ◌==◌, ◌&&◌, ltb, arith, length, add32, mul32, minus_one32, All,
}
use past_work.Scheduler.State.{Process, Sched, done, ◌>>=◌, ◌>>◌, continue}
use past_work.Scheduler.Dispatch.{next_random, burst_of, ranomize}
use past_work.Scheduler.Cycle.{Entry, load_from}
use past_work.Scheduler.Census.{total, total-ext, total-suc}
use past_work.Scheduler.Whole.{entry, spent, brief, possible}
use past_work.Scheduler.Whole.Execute.{some_line}
use past_work.Scheduler.Whole.Progress.{ArriveBy}
use past_work.Scheduler.Whole.Start.{Fresh, Unstarted, work_of, workload}

pub ranomize-draws :
    (b y : ℕ) (s : Sched) (rest : List ℕ)
    → s.random_lines ≡ y ∷ rest
    → (b == 0) ≡ false
    → ranomize b s ≡ done (add32 1 (y % b)) (record s { random_lines = rest })
unfolding ranomize next_random burst_of
ranomize-draws b y s rest lines e =
    rw (lines, ◌>>=◌, ◌>>◌, continue) (rw (e, ◌>>=◌, ◌>>◌, continue) refl)

-- An entry that can be simulated.
abbrev pub simulable : Entry → Bool
simulable e = ltb 0 e.c && ltb e.c (2 ^ 32) && ltb 0 e.b && ltb e.b (2 ^ 32) && brief e.m e.c

-- What the loop writes.
abbrev read_process : Entry → ℕ → ℕ → Process
read_process e i burst = record {
  a = e.a;
  b = e.b;
  c = e.c;
  m = e.m;
  process_id = i;
  condition = 0;
  finishing_time = minus_one32;
  cpu_time = 0;
  btime = 0;
  current_waiting_time = 0;
  burst_time = mul32 e.m burst;
  cpu_burst = burst;
  quantum = 2;
  operating = false;
  push_block = none;
  fresh_prime = none;
  push_prime_forward = none;
}

abbrev loaded : Sched → ℕ → Entry → ℕ → List ℕ → Sched
loaded s i e burst rest = record s {
  random_lines = rest;
  processes = write_at s.processes i (read_process e i burst);
  count_prime = add32 s.count_prime 1;
}

load_from-step :
    (e : Entry) (es : List Entry) (i y : ℕ) (s : Sched) (rest : List ℕ)
    → s.random_lines ≡ y ∷ rest
    → (e.b == 0) ≡ false
    → load_from (e ∷ es) i s ≡ load_from es (suc i) (loaded s i e (add32 1 (y % e.b)) rest)
unfolding load_from
load_from-step e es i y s rest lines range =
    rw (ranomize-draws e.b y s rest lines range, ◌>>=◌, ◌>>◌, continue) refl

abbrev pub work_of_all : List Entry → ℕ
work_of_all [] = 0
work_of_all (e ∷ es) = work_of e + work_of_all es

-- What the loop keeps, and what it adds.
pub record Loaded (es : List Entry) (s s' : Sched) : Type 0 where
  pub unstarted : Unstarted s'
  pub count : s'.count_prime ≡ s.count_prime + length es
  pub work : workload s' ≡ workload s + work_of_all es
  pub by : (last : ℕ) → ArriveBy last s → All (λ e. e.a ≤ last) es → ArriveBy last s'

module _ (s : Sched) (e : Entry) (burst : ℕ) (rest : List ℕ) (u : Unstarted s)
    (room : s.count_prime + 2 < 2 ^ 32) where
  abbrev next : Sched
  next = loaded s s.count_prime e burst rest

  -- A property of the processes that there are, with the new one.
  each :
      (P : ℕ → Process → Type 0)
      → P s.count_prime (read_process e s.count_prime burst)
      → ((i : ℕ) → i < s.count_prime → P i (s.processes i))
      → (i : ℕ) → i < next.count_prime
      → P i (next.processes i)
  each P here there i low =
      write_at-all (P i) s.processes s.count_prime (read_process e s.count_prime burst) i
        (λ at. rw at here) (λ ne. there i (omega (arith, low, room)))

  loaded-Unstarted : simulable e ≡ true → Unstarted next
  loaded-Unstarted ok = record {
    fresh = λ i.
        write_at-all Fresh s.processes s.count_prime (read_process e s.count_prime burst) i
          (λ _. record { unstarted = refl; unqueued = refl; unblocked = refl }) (λ _. u.fresh i);
    numbered = each (λ i r. r.process_id ≡ i) refl u.numbered;
    can = each (λ i r. possible r ≡ true) ok u.can;
    unspent = each (λ i r. spent r ≡ 0) refl u.unspent;
    ready = u.ready;
    blocked = u.blocked;
    selection = u.selection;
    present = u.present;
    total_prime = u.total_prime;
    completion = u.completion;
    small = omega (arith, room);
  }

  loaded-work : workload next ≡ workload s + work_of e
  loaded-work =
      let one : next.count_prime ≡ suc s.count_prime = omega (arith, room) in
      let old =
        total-ext s.count_prime (λ i. work_of (entry (next.processes i)))
          (λ i. work_of (entry (s.processes i)))
          (λ i low.
            ap (λ (r : Process). work_of (entry r))
              (write_at-other s.processes s.count_prime (read_process e s.count_prime burst) i
                (omega (arith, low)))) in
      let new =
        ap (λ (r : Process). work_of (entry r))
          (write_at-same s.processes s.count_prime (read_process e s.count_prime burst)) in
      ap (λ (n : ℕ). total n (λ i. work_of (entry (next.processes i)))) one
      ∙ total-suc s.count_prime (λ i. work_of (entry (next.processes i)))
      ∙ omega (arith, old, new)

-- From a state in which no process has started, and for entries that need some time, draw bursts
-- from a range that is not empty and have no blocking time beyond an `int32_t`, the loop of `main`
-- returns when there is a random number for each entry and the processes stay below 2^32 - 1. Then
-- no process has started, and the number of processes, their work and the last arrival are those of
-- the processes before and the entries together.
pub load_from-Loaded :
    (es : List Entry) (s : Sched)
    → Unstarted s
    → All (λ e. simulable e ≡ true) es
    → s.count_prime + length es + 1 < 2 ^ 32
    → length es ≤ length s.random_lines
    → (s' : Sched) × (load_from es s.count_prime s ≡ done tt s') × Loaded es s s'
unfolding load_from
load_from-Loaded [] s u ok room lines =
    (s, refl, record { unstarted = u; count = omega arith; work = omega arith; by = λ last b h. b })
load_from-Loaded (e ∷ es) s u (ok, oks) room lines =
    let (y, rest, l) = some_line s.random_lines (omega (arith, lines)) in
    let burst = add32 1 (y % e.b) in
    let v : Sched = loaded s s.count_prime e burst rest in
    let one : v.count_prime ≡ suc s.count_prime = omega (arith, room) in
    let (s', run, f) =
      load_from-Loaded es v (loaded-Unstarted s e burst rest u (omega (arith, room)) ok) oks
        (omega (arith, room, one)) (omega (arith, lines, ap length l)) in
    let step = load_from-step e es s.count_prime y s rest l (ground arith) in
    (
      s',
      step ∙ ap (λ (n : ℕ). load_from es n v) (sym one) ∙ run,
      record {
        unstarted = f.unstarted;
        count = omega (arith, f.count, one);
        work = omega (arith, f.work, loaded-work s e burst rest u (omega (arith, room)));
        by = λ last b h.
            f.by last (each s e burst rest u (omega (arith, room)) (λ i r. r.a ≤ last) h.0 b) h.1;
      },
    )
