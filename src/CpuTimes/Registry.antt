-- ===== src/CpuTimes/Registry.antt =====
-- The list of kmlab.c holds no process twice, and `register_pid` and `work_handler` do to it what
-- they say.
use past_work.Base.{
  ℕ, ◌<◌, ◌≡◌, ◌≢◌, refl, ◌⊎◌, inl, inr, Bool, true, false, not, ◌||◌, Option, none, some, [], ◌∷◌,
  ◌==◌, ltb, if◌then◌else◌, arith, Option-cases, Bool-cases, ◌&&◌, is_null,
}
use past_work.CpuTimes.Module.{
  Registrations, Returned, bytes, Tasks, registered, register_block, WriteCall, register_number,
  register_pid, work_handler, Module, timer_handler, kmlab_exit, write, tick, work, exit, Reach,
  loaded, after, max_buf_size,
}

-- No process stands twice on the list, and every PID is below the bound.
abbrev pub Registry : Registrations → Type 0
Registry [] = Unit
Registry (b ∷ bs) = (registered b.pid bs ≡ false) × (b.pid < 65535) × Registry bs

-- Whether a write gets as far as the lookup of its number.
abbrev accepted : WriteCall → Bool
accepted w =
    w.buffer
    && not (ltb max_buf_size w.count || ltb 0 w.position)
    && w.copied
    && not (w.count == max_buf_size)

-- A call that returns no number of bytes and leaves the list alone.
abbrev pub Refused : Returned × Registrations → Registrations → Type 0
Refused r bs = (r.1 ≡ bs) × ((n : ℕ) → r.0 ≢ bytes n)

-- A call that has registered a process.
abbrev pub Registered : Tasks → WriteCall → Registrations → Returned × Registrations → Type 0
Registered tasks w bs r =
    (pid time : ℕ) × (r ≡ (bytes w.count, record { pid = pid; used_time = time } ∷ bs))
    × (w.number ≡ some pid)
    × (pid < 65535)
    × (tasks pid ≡ some time)
    × (registered pid bs ≡ false)
    × (w.count < max_buf_size)

module _ (tasks : Tasks) (w : WriteCall) (bs : Registrations) where
  not_accepted : accepted w ≡ false → Refused (register_pid tasks w bs) bs
  unfolding register_pid
  not_accepted e = (ground arith, λ n. ground arith)

  when_accepted :
      accepted w ≡ true
      → (register_pid tasks w bs ≡ register_number tasks w w.number bs) × (w.count < max_buf_size)
  unfolding register_pid
  when_accepted e = (ground arith, ground arith)

  known :
      (pid time : ℕ)
      → w.number ≡ some pid
      → tasks pid ≡ some time
      → w.count < max_buf_size
      → Refused (register_number tasks w (some pid) bs) bs
        ⊎ Registered tasks w bs (register_number tasks w (some pid) bs)
  unfolding register_number register_block
  known pid time e t room =
      elim (Bool-cases (ltb pid 65535 && not (registered pid bs) && w.block)) [
        | inl y ↦ inr (pid, time, ground arith, e, ground arith, t, ground arith, room)
        | inr n ↦ inl (ground arith, λ k. ground arith)
      ]

  numbered :
      (number : Option ℕ)
      → w.number ≡ number
      → w.count < max_buf_size
      → Refused (register_number tasks w number bs) bs
        ⊎ Registered tasks w bs (register_number tasks w number bs)
  unfolding register_number
  numbered none e room = inl (refl, λ k. cc)
  numbered (some pid) e room = elim (Option-cases (tasks pid)) [
    | inl gone ↦ inl (ground arith, λ k. ground arith)
    | inr (time, t) ↦ known pid time e t room
  ]

  -- `register_pid` either returns the number of bytes and has put a new block at the head of the
  -- list, of a process that the kernel knows, with its time, and that was not on the list; or it
  -- returns no number of bytes and the list is as it was.
  pub register_pid-cases :
      Refused (register_pid tasks w bs) bs ⊎ Registered tasks w bs (register_pid tasks w bs)
  register_pid-cases = elim (Bool-cases (accepted w)) [
    | inr n ↦ inl (not_accepted n)
    | inl y ↦ let (e, room) = when_accepted y in rw e (numbered w.number refl room)
  ]

-- The processes that are left after an update.
registered-work_handler :
    (tasks : Tasks) (pid : ℕ) (bs : Registrations)
    → registered pid (work_handler tasks bs) ≡ (registered pid bs && not (is_null (tasks pid)))
unfolding registered work_handler
registered-work_handler tasks pid [] = refl
registered-work_handler tasks pid (b ∷ bs) = ground (arith, registered-work_handler tasks pid bs)

work_handler-Registry :
    (tasks : Tasks) (bs : Registrations) → Registry bs → Registry (work_handler tasks bs)
unfolding work_handler
work_handler-Registry tasks [] r = tt
work_handler-Registry tasks (b ∷ bs) r = elim (Option-cases (tasks b.pid)) [
  | inl gone ↦
      let e : work_handler tasks (b ∷ bs) ≡ work_handler tasks bs = ground arith in
      rw e (work_handler-Registry tasks bs r.2)
  | inr (time, t) ↦
      let e : work_handler tasks (b ∷ bs) ≡ record b { used_time = time } ∷ work_handler tasks bs =
        ground arith in
      rw e (
        ground (arith, registered-work_handler tasks b.pid bs, r.0),
        r.1,
        work_handler-Registry tasks bs r.2,
      )
]

-- The time that the list holds for a process.
pub time_of : ℕ → Registrations → Option ℕ
time_of pid [] = none
time_of pid (b ∷ bs) = if b.pid == pid then some b.used_time else time_of pid bs

-- On a list without a process twice, `work_handler` keeps exactly the registered processes that the
-- kernel still knows, once each, and each has the time that the kernel gives now.
pub work_handler-time_of :
    (tasks : Tasks) (bs : Registrations)
    → Registry bs
    → Registry (work_handler tasks bs)
      × ((pid : ℕ)
          → time_of pid (work_handler tasks bs) ≡ (if registered pid bs then tasks pid else none))
unfolding time_of registered work_handler
work_handler-time_of tasks bs r = (work_handler-Registry tasks bs r, times bs)
  where
    times :
        (bs : Registrations)
        → (pid : ℕ)
        → time_of pid (work_handler tasks bs) ≡ (if registered pid bs then tasks pid else none)
    times [] pid = refl
    times (b ∷ bs) pid = ground (arith, times bs pid)

-- In every state that the module reaches, whatever is written to the proc file, whenever the timer
-- fires and a work runs, and whatever tasks come and go, no process is twice on the list and every
-- PID is below 65535.
pub Reach-Registry : {m : Module} → Reach m → Registry m.registration_list
unfolding timer_handler kmlab_exit
Reach-Registry loaded = tt
Reach-Registry (after {m} r (write tasks w)) =
    elim (register_pid-cases tasks w m.registration_list) [
      | inl (same, _) ↦ rw same (Reach-Registry r)
      | inr (pid, time, e, _, small, _, out, _) ↦ rw e (out, small, Reach-Registry r)
    ]
Reach-Registry (after r (tick set)) = Reach-Registry r
Reach-Registry (after r (work tasks e)) = work_handler-Registry tasks _ (Reach-Registry r)
Reach-Registry (after r (exit tasks)) = tt
