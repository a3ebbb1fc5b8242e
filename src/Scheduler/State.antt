-- ===== src/Scheduler/State.antt =====
-- The state of scheduler.c and the commands that read and write it. A `struct Process *` is an
-- index of the array `Prime`, or NULL, which is `none`.
use past_work.Base.Chains.{write_at}
use past_work.Base.{ℕ, suc, Bool, Option, none, some, List, ◌∷◌}

-- `struct Process`. The pointers `pushBlock`, `freshPrime` and `pushPrimeForward` link the blocked
-- list, the ready queue and the suspended queue through the processes themselves.
pub record Process : Type 0 where
  pub a : ℕ
  pub b : ℕ
  pub c : ℕ
  pub m : ℕ
  pub process_id : ℕ
  pub condition : ℕ
  pub finishing_time : ℕ
  pub cpu_time : ℕ
  pub btime : ℕ
  pub current_waiting_time : ℕ
  pub burst_time : ℕ
  pub cpu_burst : ℕ
  pub quantum : ℕ
  pub operating : Bool
  pub push_block : Option ℕ
  pub fresh_prime : Option ℕ
  pub push_prime_forward : Option ℕ

-- The head and tail pointers of a list and its counter: `Afront`, `Aback`, `placement`, or
-- `Pausefront`, `Pauseback`, `PauseQ`, or `Blockfront`, `Blockback`, `BlockQ`.
pub record Queue : Type 0 where
  pub front : Option ℕ
  pub back : Option ℕ
  pub size : ℕ

abbrev pub empty_queue : Queue
empty_queue = record { front = none; back = none; size = 0 }

-- What goes to the terminal while a cycle runs.
pub data Event : Type 0 where
  error_line : Event
  select : ℕ → Event

-- The globals, with the arrays `Prime` and `terminateAlg` and the lines of `random-numbers` that
-- the open file has still to give.
pub record Sched : Type 0 where
  pub processes : ℕ → Process
  pub count_prime : ℕ
  pub ranomize_n : Bool
  pub first_prime : Bool
  pub nameless_op : Option ℕ
  pub present : ℕ
  pub total_prime : ℕ
  pub completion : ℕ
  pub total_time_number : ℕ
  pub selection : Option ℕ
  pub ready : Queue
  pub paused : Queue
  pub blocked : Queue
  pub terminate_alg : ℕ → Process
  pub random_lines : List ℕ
  pub events : List Event

-- The outcome of a command: a value and the new state, undefined behaviour (a read through NULL, a
-- write outside an array, a division by zero), a call of `exit`, or a loop that does not end
-- within the rounds that it is given.
pub data Run (A : Type 0) : Type 0 where
  done : A → Sched → Run A
  fault : Run A
  exits : ℕ → Run A
  endless : Run A

abbrev pub Cmd : Type 0 → Type 0
Cmd A = Sched → Run A

module _ {A : Type 0} where
  abbrev pub pure : A → Cmd A
  pure x s = done x s

  abbrev pub crash : Cmd A
  crash s = fault

  abbrev pub spin : Cmd A
  spin s = endless

  abbrev pub exit : ℕ → Cmd A
  exit code s = exits code

module _ {A B : Type 0} where
  abbrev pub continue : Run A → (A → Cmd B) → Run B
  continue (done x s) f = f x s
  continue fault f = fault
  continue (exits code) f = exits code
  continue endless f = endless

  infixl 5 ◌>>=◌ ◌>>◌
  abbrev pub ◌>>=◌ : Cmd A → (A → Cmd B) → Cmd B
  c >>= f = λ s. continue (c s) f

  abbrev pub ◌>>◌ : Cmd A → Cmd B → Cmd B
  c >> d = λ s. continue (c s) (λ _. d)

abbrev pub state : Cmd Sched
state s = done s s

abbrev pub update : (Sched → Sched) → Cmd (Unit {0})
update f s = done tt (f s)

-- A pointer that is read through must not be NULL.
abbrev pub deref : Option ℕ → Cmd ℕ
deref none s = fault
deref (some p) s = done p s

-- `*p`
abbrev pub process : ℕ → Cmd Process
process p s = done (s.processes p) s

-- An assignment to fields of `*p`.
abbrev pub modify : ℕ → (Process → Process) → Cmd (Unit {0})
modify p f s = done tt (record s { processes = write_at s.processes p (f (s.processes p)) })

abbrev pub emit : Event → Cmd (Unit {0})
emit e s = done tt (record s { events = e ∷ s.events })

-- The rounds given to a walk along a list: one that visits more processes than there are comes
-- back to a process that it has left, and goes round for ever.
abbrev pub rounds : Sched → ℕ
rounds s = suc s.count_prime
