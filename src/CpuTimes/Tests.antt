-- ===== src/CpuTimes/Tests.antt =====
-- Runs of kmlab.c on small inputs.
use past_work.Base.{ℕ, ◌≡◌, ◌⊎◌, ◌==◌, ◌∷◌, [], refl, some, none, true, arith, if◌then◌else◌}
use past_work.Base.Text.{codes, decimal_from, decimal}
use past_work.CpuTimes.Module.{
  Registrations, Returned, bytes, Tasks, registered, register_block, WriteCall, register_number,
  register_pid, get_status, status_text, work_handler, Module, kmlab_init, timer_handler, Reach,
  loaded, after, write, tick, work,
}
use past_work.CpuTimes.Registry.{
  Registry, Refused, Registered, time_of, register_pid-cases, work_handler-time_of, Reach-Registry,
}

program : Unit {0}
unfolding registered register_block register_number register_pid status_text get_status work_handler
    timer_handler decimal decimal_from
program = tt

-- The kernel knows the processes 7 and 9.
abbrev tasks : Tasks
tasks pid = if pid == 7 then some 30 else if pid == 9 then some 40 else none

abbrev call : ℕ → WriteCall
call n = record {
  buffer = true;
  block = true;
  copied = true;
  count = 2;
  position = 0;
  number = some n;
}

abbrev both : Registrations
both = record { pid = 9; used_time = 4 } ∷ record { pid = 8; used_time = 3 } ∷ []

both-Registry : Registry both
unfolding program
both-Registry = (refl, omega arith, (refl, omega arith, tt))

register_pid-cases_example :
    Refused (register_pid tasks (call 7) both) both
    ⊎ Registered tasks (call 7) both (register_pid tasks (call 7) both)
register_pid-cases_example = register_pid-cases tasks (call 7) both

registered_seven :
    register_pid tasks (call 7) both ≡ (bytes 2, record { pid = 7; used_time = 30 } ∷ both)
unfolding program
registered_seven = refl

refused_again : register_pid tasks (call 9) both ≡ (Returned.efault, both)
unfolding program
refused_again = refl

status_both : get_status true true 4096 0 both ≡ (bytes 20, codes "PID[9]: 4\nPID[8]: 3\n")
unfolding program
status_both = refl

work_handler-time_of_example :
    Registry (work_handler tasks both)
    × ((pid : ℕ)
        → time_of pid (work_handler tasks both) ≡ (if registered pid both then tasks pid else none))
work_handler-time_of_example = work_handler-time_of tasks both both-Registry

-- A process is registered, the timer fires, and the work runs.
abbrev first : Module
first = record kmlab_init { registration_list = (register_pid tasks (call 7) []).1 }

abbrev ticked : Module
ticked = timer_handler first

queued_one : ticked.queued ≡ 1
unfolding program
queued_one = refl

abbrev worked : Module
worked = record ticked {
  registration_list = work_handler tasks ticked.registration_list;
  queued = 0;
}

worked-Reach : Reach worked
worked-Reach =
    after (after (after loaded (write tasks (call 7))) (tick refl)) (work tasks queued_one)

Reach-Registry_example : Registry worked.registration_list
Reach-Registry_example = Reach-Registry {m = worked} worked-Reach
