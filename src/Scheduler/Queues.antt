-- ===== src/Scheduler/Queues.antt =====
-- The three lists of scheduler.c: the ready queue (`Qsetup`, `dsetup`), the suspended queue
-- (`pauseQue`, `replaceN`) and the blocked list (`insertB`, `removeB`, `execxuteB`).
use past_work.Base.{
  ℕ, zero, suc, Option, none, some, ◌||◌, ◌==◌, if◌then◌else◌, is_null, add32, sub32, nonpositive32,
}
use past_work.Scheduler.State.{
  Process, Cmd, error_line, pure, spin, ◌>>=◌, ◌>>◌, state, update, deref, process, modify, emit,
  rounds,
}

-- `Qsetup`: appends a process to the ready queue. On an empty queue the link of the process is
-- left as it is.
unfoldable pub q_setup : Option ℕ → Cmd (Unit {0})
q_setup fresh = do
  s ← state
  if s.ready.size == 0
      then update (λ s. record s { ready = record s.ready { front = fresh; back = fresh } })
      else (do
        n ← deref fresh
        modify n (λ p. record p { fresh_prime = none })
        back ← deref s.ready.back
        modify back (λ p. record p { fresh_prime = fresh })
        b ← process back
        update (λ s. record s { ready = record s.ready { back = b.fresh_prime } }))
  update (λ s. record s { ready = record s.ready { size = add32 s.ready.size 1 } })

-- `dsetup`: takes the first process off the ready queue, or NULL.
unfoldable pub d_setup : Cmd (Option ℕ)
d_setup = do
  s ← state
  if s.ready.size == 0 then (do emit error_line; pure none) else do
    rot ← deref s.ready.front
    r ← process rot
    let left = sub32 s.ready.size 1
    update (λ s. record s {
      ready = record {
        front = r.fresh_prime;
        back = if left == 0 then none else s.ready.back;
        size = left;
      };
    })
    modify rot (λ p. record p { fresh_prime = none })
    pure (some rot)

-- `pauseQue`: appends a process to the suspended queue; on an empty one it also moves the head of
-- the ready queue to its tail.
unfoldable pub pause_que : Option ℕ → Cmd (Unit {0})
pause_que fresh = do
  s ← state
  if s.paused.size == 0
      then update (λ s. record s {
        paused = record s.paused { front = fresh; back = fresh };
        ready = record s.ready { front = s.ready.back };
      })
      else (do
        n ← deref fresh
        modify n (λ p. record p { push_prime_forward = none })
        back ← deref s.paused.back
        modify back (λ p. record p { push_prime_forward = fresh })
        b ← process back
        update (λ s. record s { paused = record s.paused { back = b.push_prime_forward } }))
  update (λ s. record s { paused = record s.paused { size = add32 s.paused.size 1 } })

-- `replaceN`: takes the first process off the suspended queue, or NULL.
unfoldable pub replace_n : Cmd (Option ℕ)
replace_n = do
  s ← state
  if s.paused.size == 0 then pure none else do
    rot ← deref s.paused.front
    r ← process rot
    let left = sub32 s.paused.size 1
    update (λ s. record s {
      paused = record {
        front = r.push_prime_forward;
        back = if left == 0 then none else s.paused.back;
        size = left;
      };
    })
    modify rot (λ p. record p { push_prime_forward = none })
    pure (some rot)

-- `insertB`: appends a process to the blocked list.
unfoldable pub insert_b : Option ℕ → Cmd (Unit {0})
insert_b fresh = do
  s ← state
  if is_null s.blocked.front || is_null s.blocked.back
      then update (λ s. record s { blocked = record s.blocked { front = fresh; back = fresh } })
      else (do
        back ← deref s.blocked.back
        modify back (λ p. record p { push_block = fresh })
        update (λ s. record s { blocked = record s.blocked { back = fresh } }))
  update (λ s. record s { blocked = record s.blocked { size = add32 s.blocked.size 1 } })

-- `removeB`: takes the first process off the blocked list, or NULL.
unfoldable pub remove_b : Cmd (Option ℕ)
remove_b = do
  s ← state
  if is_null s.blocked.front then pure none else do
    rot ← deref s.blocked.front
    r ← process rot
    update (λ s. record s {
      blocked = record {
        front = r.push_block;
        back = if is_null r.push_block then none else s.blocked.back;
        size = sub32 s.blocked.size 1;
      };
    })
    modify rot (λ p. record p { push_block = none })
    pure (some rot)

-- `while (p->next->next != NULL) p = p->next;`
unfoldable pub before_last : ℕ → (Process → Option ℕ) → ℕ → Cmd ℕ
before_last zero next p = spin
before_last (suc k) next p = do
  r ← process p
  q ← deref (next r)
  r' ← process q
  if is_null (next r') then pure p else before_last k next q

-- `while (p->next->processID != id) p = p->next;`
unfoldable pub before_id : ℕ → (Process → Option ℕ) → ℕ → ℕ → Cmd ℕ
before_id zero next id p = spin
before_id (suc k) next id p = do
  r ← process p
  q ← deref (next r)
  r' ← process q
  if r'.process_id == id then pure p else before_id k next id q

-- The last two branches of `execxuteB`: unlinks the successor of `p` from the blocked list and
-- appends it to the ready queue.
unlink_block : (next : Process → Option ℕ) → ℕ → Cmd (Unit {0})
unlink_block next p = do
  r ← process p
  extra ← deref r.push_block
  e ← process extra
  modify p (λ r. record r { push_block = next e })
  modify extra (λ r. record r { push_block = none })
  update (λ s. record s { blocked = record s.blocked { size = sub32 s.blocked.size 1 } })
  q_setup (some extra)

-- The body of the loop of `execxuteB` for a process whose blocking time is over.
unfoldable pub release_b : ℕ → Cmd (Unit {0})
unfolding unlink_block
release_b p = do
  modify p (λ r. record r { condition = 1 })
  s ← state
  front ← deref s.blocked.front
  let id = (s.processes p).process_id
  if id == (s.processes front).process_id then (do r ← remove_b; q_setup r) else do
    back ← deref s.blocked.back
    if id == (s.processes back).process_id
        then (do
          b ← before_last (rounds s) (λ r. r.push_block) front
          update (λ s. record s { blocked = record s.blocked { back = some b } })
          unlink_block (λ _. none) b)
        else (do
          b ← before_id (rounds s) (λ r. r.push_block) id front
          unlink_block (λ r. r.push_block) b)

-- The loop of `execxuteB`.
unfoldable pub execute_b_from : ℕ → Option ℕ → Cmd (Unit {0})
execute_b_from zero none = pure tt
execute_b_from zero (some p) = spin
execute_b_from (suc k) none = pure tt
execute_b_from (suc k) (some p) = do
  r ← process p
  if nonpositive32 r.burst_time then release_b p else pure tt
  r' ← process p
  execute_b_from k r'.push_block

-- `execxuteB`
unfoldable pub execute_b : Cmd (Unit {0})
execute_b = do
  s ← state
  if s.blocked.size == 0 then pure tt else execute_b_from (rounds s) s.blocked.front
