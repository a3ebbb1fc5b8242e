-- ===== src/CpuTimes/Module.antt =====
-- The registration list of kmlab.c, its proc file and its periodic update. The list is only read and
-- changed under `access_lock`, so that each handler is one step. What the kernel answers to a call
-- is an argument.
use past_work.Base.{
  ℕ, zero, suc, ◌≡◌, Bool, true, false, not, ◌||◌, Option, none, some, List, [], ◌∷◌, ◌++◌, ◌==◌,
  ltb, leb, if◌then◌else◌, length,
}
use past_work.Base.Text.{CString, codes, decimal}

-- `struct registration_block`
pub record RegistrationBlock : Type 0 where
  pub pid : ℕ
  pub used_time : ℕ

abbrev pub Registrations : Type 0
Registrations = List RegistrationBlock

abbrev pub max_buf_size : ℕ
max_buf_size = 4096

-- What a handler returns: a number of bytes, or an error. A `fault` is a write outside of the buffer
-- or into memory that has been given back, or a write through NULL.
pub data Returned : Type 0 where
  bytes : ℕ → Returned
  efault enomem fault : Returned

-- The tasks of the kernel, with their `utime`: `get_cpu_use` fails for a PID that is none.
abbrev pub Tasks : Type 0
Tasks = ℕ → Option ℕ

-- Whether a process is on the list.
unfoldable pub registered : ℕ → Registrations → Bool
registered pid [] = false
registered pid (b ∷ bs) = if b.pid == pid then true else registered pid bs

-- `__register_pid`: `none` for a process that is on the list, else the list with a new head.
unfoldable pub register_block : ℕ → ℕ → Registrations → Option Registrations
unfolding registered
register_block pid used_time bs =
    if registered pid bs then none else some (record { pid = pid; used_time = used_time } ∷ bs)

-- What the kernel does for a write to the proc file: whether `kmalloc` gives the buffer and then
-- the block, whether the text can be copied, and the number that `kstrtoul` reads.
pub record WriteCall : Type 0 where
  pub buffer : Bool
  pub block : Bool
  pub copied : Bool
  pub count : ℕ
  pub position : ℕ
  pub number : Option ℕ

-- `register_pid`, from the lookup of the PID on.
unfoldable pub register_number :
    Tasks → WriteCall → Option ℕ → Registrations → Returned × Registrations
register_number tasks w none bs = (efault, bs)
register_number tasks w (some pid) bs = if leb 65535 pid then (efault, bs) else elim (tasks pid) [
  | none ↦ (efault, bs)
  | some used_time ↦ elim (register_block pid used_time bs) [
    | none ↦ (efault, bs)
    | some bs' ↦ if w.block then (bytes w.count, bs') else (fault, bs)
  ]
]

-- `register_pid`
unfoldable pub register_pid : Tasks → WriteCall → Registrations → Returned × Registrations
unfolding register_number register_block
register_pid tasks w bs =
    if not w.buffer
    then (enomem, bs)
    else if ltb max_buf_size w.count || ltb 0 w.position
    then (efault, bs)
    else if not w.copied
    then (efault, bs)
    else if w.count == max_buf_size
    then (fault, bs)
    else register_number tasks w w.number bs

-- The text of `__get_status`.
abbrev pub status_line : RegistrationBlock → CString
status_line b = codes "PID[" ++ decimal b.pid ++ codes "]: " ++ decimal b.used_time ++ codes "\n"

unfoldable pub status_text : Registrations → CString
status_text [] = []
status_text (b ∷ bs) = status_line b ++ status_text bs

-- `get_status`: what it returns, and the text that the reader gets. With nothing registered it
-- writes its message into the buffer after `kfree`.
unfoldable pub get_status :
    (buffer copied : Bool) → (count position : ℕ) → Registrations → Returned × CString
unfolding status_text
get_status buffer copied count position bs =
    let text = status_text bs in
    if not buffer
    then (enomem, [])
    else if ltb count max_buf_size || ltb 0 position
    then (bytes 0, [])
    else if leb max_buf_size (length text)
    then (fault, [])
    else if length text == 0
    then (fault, [])
    else if copied
    then (bytes (length text), text)
    else (efault, [])

-- `__work_handler`: the times are read again, and a process that has gone is taken off the list.
unfoldable pub work_handler : Tasks → Registrations → Registrations
work_handler tasks [] = []
work_handler tasks (b ∷ bs) = elim (tasks b.pid) [
  | none ↦ work_handler tasks bs
  | some used_time ↦ record b { used_time = used_time } ∷ work_handler tasks bs
]

-- The module: the list, whether the timer is set, and the works that wait in the queue.
pub record Module : Type 0 where
  pub registration_list : Registrations
  pub timer_set : Bool
  pub queued : ℕ

-- `kmlab_init`
abbrev pub kmlab_init : Module
kmlab_init = record { registration_list = []; timer_set = true; queued = 0 }

-- `timer_handler` queues a work and sets the timer again.
unfoldable pub timer_handler : Module → Module
timer_handler m = record m { queued = suc m.queued; timer_set = true }

-- Works that `flush_workqueue` runs.
pub flush : Tasks → ℕ → Registrations → Registrations
flush tasks zero bs = bs
flush tasks (suc n) bs = flush tasks n (work_handler tasks bs)

-- `kmlab_exit`: the timer is stopped, the works that wait are run, and the list is emptied; the
-- blocks in the order in which they are printed.
unfoldable pub kmlab_exit : Tasks → Module → Module × Registrations
unfolding flush
kmlab_exit tasks m = (
  record { registration_list = []; timer_set = false; queued = 0 },
  flush tasks m.queued m.registration_list,
)

-- A step of the loaded module; the tasks of the kernel are different each time.
pub data Step (m : Module) : Module → Type 0 where
  write :
      (tasks : Tasks) (w : WriteCall)
      → Step m (record m { registration_list = (register_pid tasks w m.registration_list).1 })
  tick : m.timer_set ≡ true → Step m (timer_handler m)
  work :
      (tasks : Tasks) {n : ℕ}
      → m.queued ≡ suc n
      → Step m (record m { registration_list = work_handler tasks m.registration_list; queued = n })
  exit : (tasks : Tasks) → Step m (kmlab_exit tasks m).0

pub data Reach : Module → Type 0 where
  loaded : Reach kmlab_init
  after : {m m' : Module} → Reach m → Step m m' → Reach m'
