-- ===== src/Scheduler/Clock.antt =====
-- `countdown` of scheduler.c: each cycle counts for one of the times of a process.
use past_work.Base.Chains.{write_at}
use past_work.Base.{
  ℕ, zero, suc, ◌+◌, ◌≤◌, ◌<◌, ◌≡◌, ◌≢◌, refl, ap, sym, subst, ◌∙◌, ◌⊎◌, inl, inr, Bool, true,
  false, some, arith, add32, sub32, ◌==◌, leb, ◌&&◌, if◌then◌else◌, Bool-cases,
}
use past_work.Scheduler.State.{Process, Sched, done, ◌>>=◌, ◌>>◌, continue}
use past_work.Scheduler.Cycle.{tick, tick_from, some_blocked, countdown}

-- The cycles in which a process has been in the system.
abbrev pub presence : Process → ℕ
presence r = add32 (add32 r.cpu_time r.btime) r.current_waiting_time

-- A process that is ready, running or blocked.
abbrev pub is_present : Process → Bool
is_present r = leb 1 r.condition && leb r.condition 3

-- A process a cycle later.
pub record Ticked (r r' : Process) : Type 0 where
  pub counted : presence r' ≡ add32 (presence r) (if is_present r then 1 else 0)
  pub same_condition : r'.condition ≡ r.condition
  pub still : is_present r ≡ false → r' ≡ r

module _ (alg : ℕ) (r : Process) where
  pub idle : (r.condition ≡ 0) ⊎ (r.condition ≡ 4) → tick alg r ≡ some r
  unfolding tick
  idle (inl e) = ground arith
  idle (inr e) = ground arith

  pub blocked :
      r.condition ≡ 3
      → tick alg r ≡ some (record r { btime = add32 r.btime 1; burst_time = sub32 r.burst_time 1 })
  unfolding tick
  blocked e = ground arith

  pub running :
      r.condition ≡ 2
      → tick alg r
        ≡ some (record r {
          cpu_time = add32 r.cpu_time 1;
          cpu_burst = sub32 r.cpu_burst 1;
          quantum = if alg == 1 then sub32 r.quantum 1 else r.quantum;
        })
  unfolding tick
  running e = ground arith

  pub waiting :
      r.condition ≡ 1
      → tick alg r ≡ some (record r { current_waiting_time = add32 r.current_waiting_time 1 })
  unfolding tick
  waiting e = ground arith

  tick-Ticked : r.condition ≤ 4 → (r' : Process) × (tick alg r ≡ some r') × Ticked r r'
  tick-Ticked k = elim (Bool-cases (is_present r)) [
    | inr out ↦ (
      r,
      idle (ground arith),
      record { counted = (let e = out in ground arith); same_condition = refl; still = λ _. refl },
    )
    | inl present ↦ elim (Bool-cases (r.condition == 3)) [
      | inl e ↦ (
        _,
        blocked (ground arith),
        record {
          counted = (let e = present in ground arith);
          same_condition = refl;
          still = λ z. absurd (cc);
        },
      )
      | inr n ↦ elim (Bool-cases (r.condition == 2)) [
        | inl e ↦ (
          _,
          running (ground arith),
          record {
            counted = (let e = present in ground arith);
            same_condition = refl;
            still = λ z. absurd (cc);
          },
        )
        | inr o ↦ (
          _,
          waiting (ground arith),
          record {
            counted = (let e = present in ground arith);
            same_condition = refl;
            still = λ z. absurd (cc);
          },
        )
      ]
    ]
  ]

-- What the loop does to the processes from `i` on, `k` of them.
pub record TickedAll (R : Process → Process → Type 0) (k i : ℕ) (s s' : Sched) : Type 0 where
  pub ticked : (j : ℕ) → i ≤ j → j < i + k → R (s.processes j) (s'.processes j)
  pub others : (j : ℕ) → (j < i) ⊎ (i + k ≤ j) → s'.processes j ≡ s.processes j
  pub globals : s' ≡ record s { processes = s'.processes }

tick_from-step :
    (alg k i : ℕ) (s : Sched) (r' : Process)
    → tick alg (s.processes i) ≡ some r'
    → tick_from alg (suc k) i s
      ≡ tick_from alg k (suc i) (record s { processes = write_at s.processes i r' })
unfolding tick_from
tick_from-step alg k i s r' e = rw (e, ◌>>=◌, continue) refl

-- What holds of each process and its successor holds of all after the loop.
pub tick_from-TickedAll :
    (R : Process → Process → Type 0) (alg k i : ℕ) (s : Sched)
    → ((j : ℕ)
        → i ≤ j
        → j < i + k
        → (r' : Process) × (tick alg (s.processes j) ≡ some r') × R (s.processes j) r')
    → (s' : Sched) × (tick_from alg k i s ≡ done tt s') × TickedAll R k i s s'
unfolding tick_from
tick_from-TickedAll R alg zero i s h = (
  s,
  refl,
  record { ticked = λ j a b. absurd (omega arith); others = λ j o. refl; globals = refl },
)
tick_from-TickedAll R alg (suc k) i s h =
    let (r', e, t) = h i (omega arith) (omega arith) in
    let u : Sched = record s { processes = write_at s.processes i r' } in
    let same : (j : ℕ) → j ≢ i → u.processes j ≡ s.processes j = λ j ne. ground arith in
    let here : u.processes i ≡ r' = ground arith in
    let (s', run, a) = tick_from-TickedAll R alg k (suc i) u (λ j low high.
      subst (λ (r : Process). (r' : Process) × (tick alg r ≡ some r') × R r r')
        (sym (same j (omega arith))) (h j (omega arith) (omega arith))) in
    (
      s',
      tick_from-step alg k i s r' e ∙ run,
      record {
        ticked = λ j low high. elim (Bool-cases (j == i)) [
          | inl at ↦
              let eq : j ≡ i = ground arith in rw eq (rw (a.others i (inl (omega arith)), here) t)
          | inr on ↦
              let ne : j ≢ i = ground arith in
              subst (λ (r : Process). R r (s'.processes j)) (same j ne)
                (a.ticked j (omega arith) (omega arith))
        ];
        others = λ j o.
            let ne : j ≢ i = λ z. elim o [ inl a ↦ omega arith | inr b ↦ omega arith ] in
            a.others j (elim o [ inl a ↦ inl (omega arith) | inr b ↦ inr (omega arith) ])
            ∙ same j ne;
        globals = a.globals;
      },
    )

-- Whether a process is blocked, and what that means for the cycles with blocked processes.
abbrev pub Counted : Sched → Sched → Type 0
Counted s s' =
    ((j : ℕ) × (j < s.count_prime)
      × ((s.processes j).condition ≡ 3)
      × (s'.total_time_number ≡ add32 s.total_time_number 1))
    ⊎ (((j : ℕ) → j < s.count_prime → (s.processes j).condition ≢ 3)
        × (s'.total_time_number ≡ s.total_time_number))

some_blocked-cases :
    (ps : ℕ → Process) (k i : ℕ)
    → ((j : ℕ) × (j < i + k) × ((ps j).condition ≡ 3) × (some_blocked ps k i ≡ true))
      ⊎ (((j : ℕ) → i ≤ j → j < i + k → (ps j).condition ≢ 3) × (some_blocked ps k i ≡ false))
unfolding some_blocked
some_blocked-cases ps zero i = inr (λ j a b. absurd (omega arith), refl)
some_blocked-cases ps (suc k) i = elim (Bool-cases ((ps i).condition == 3)) [
  | inl e ↦ inl (i, omega arith, ground arith, ground arith)
  | inr n ↦ elim (some_blocked-cases ps k (suc i)) [
    | inl (j, low, c, e) ↦ inl (j, omega arith, c, ground arith)
    | inr (none_of, e) ↦ inr (
      λ j a b. elim (Bool-cases (j == i)) [
        | inl at ↦ let eq : j ≡ i = ground arith in rw eq (ground arith)
        | inr on ↦ none_of j (ground arith) (omega arith)
      ],
      ground arith,
    )
  ]
]

abbrev pub after_count : Sched → Sched
after_count t = record t {
  total_time_number =
      if some_blocked t.processes t.count_prime 0
      then add32 t.total_time_number 1
      else t.total_time_number;
}

-- `countdown` is the loop over all processes, and the count of a cycle with a blocked one.
pub countdown-done :
    (alg : ℕ) (s t : Sched)
    → tick_from alg s.count_prime 0 s ≡ done tt t
    → countdown alg s ≡ done tt (after_count t)
unfolding countdown
countdown-done alg s t run = rw (run, ◌>>=◌, ◌>>◌, continue) refl

-- When every process has one of the five conditions, `countdown` returns, and each process is one
-- cycle later: the sum of its running, blocked and waiting times, modulo 2^32, has grown by one if
-- it is ready, running or blocked, its condition is the same, and a process that is none of these
-- is unchanged. The number of cycles with blocked processes has grown by one exactly when a process
-- is blocked.
pub countdown-Ticked :
    (alg : ℕ) (s : Sched)
    → ((j : ℕ) → j < s.count_prime → (s.processes j).condition ≤ 4)
    → (s' : Sched) × (countdown alg s ≡ done tt s')
      × ((j : ℕ) → j < s.count_prime → Ticked (s.processes j) (s'.processes j))
      × Counted s s'
countdown-Ticked alg s h =
    let (t, run, a) =
      tick_from-TickedAll Ticked alg s.count_prime 0 s
        (λ j low high. tick-Ticked alg (s.processes j) (h j (omega arith))) in
    let count : t.count_prime ≡ s.count_prime = ap (λ (u : Sched). u.count_prime) a.globals in
    let total : t.total_time_number ≡ s.total_time_number =
      ap (λ (u : Sched). u.total_time_number) a.globals in
    let kept : (j : ℕ) → j < s.count_prime → (t.processes j).condition ≡ (s.processes j).condition =
      λ j low. (a.ticked j (omega arith) (omega arith)).same_condition in
    (
      after_count t,
      countdown-done alg s t run,
      λ j low. a.ticked j (omega arith) (omega arith),
      elim (some_blocked-cases t.processes t.count_prime 0) [
        | inl (j, low, c, e) ↦
            let low' : j < s.count_prime = omega (arith, count, low) in
            inl (j, low', sym (kept j low') ∙ c, ground (arith, e, total))
        | inr (none_of, e) ↦ inr (
          λ j low.
              let k = kept j low in
              let n = none_of j (omega arith) (omega (arith, count, low)) in λ z. n (k ∙ z),
          ground (arith, e, total),
        )
      ],
    )
