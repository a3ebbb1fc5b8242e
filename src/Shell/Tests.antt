-- ===== src/Shell/Tests.antt =====
-- Runs of tsh.c on small inputs.
use past_work.Base.{
  ℕ, ◌≡◌, ◌∷◌, [], List, refl, some, none, true, false, arith, replicate, length, ◌<◌, ◌≤◌, ◌^◌,
}
use past_work.Base.Text.{CString, codes}
use past_work.Shell.Jobs.{
  fg, st, job, cleared, init_jobs, stopped_by_signal, terminated_by_signal, print, Shell,
  max_jid_from, max_jid, fill_slot, add_job, clear_slot, delete_job, fg_pid, index_of, get_job_pid,
  get_job_jid, jid_of, pid2jid, job_l, job_at,
}
use past_work.Shell.Signals.{
  stopped, signaled, exited, Report, goes, set_state, child, interrupt, sigchld_handler, kill,
  forward_to_fg, handle, wait_fg,
}
use past_work.Shell.Parse.{
  end_with_space, skip_spaces, split_at, next_word, words, drop_last, is_background, parse_line,
}
use past_work.Shell.Commands.{atoi_from, find_job, resume, do_bgfg, builtin_cmd, launch, eval}
use past_work.Shell.Table.{find, Slots, WellFormed, cleared-SlotOk}
use past_work.Shell.AddDelete.{Added, add_job-WellFormed, Deleted, delete_job-Deleted}
use past_work.Shell.Handler.{Reaped, sigchld_handler-Reaped, killed_message}
use past_work.Shell.Foreground.{NoFg}
use past_work.Shell.Prompt.{eval-NoFg}
use past_work.Shell.MainLoop.{
  whole_line, unfinished_line, at_prompt, ended, read_options, main_loop, main,
}
use past_work.Shell.Session.{main-NoFg}
use past_work.Shell.Numbers.{
  negsuc, char_at, str_it, back_from, back, digit, digits_from, push, sio_putl,
}
use past_work.Shell.Printed.{sio_putl-length, magnitude, sio_putl-printed, printed}
use past_work.Shell.Waiting.{Woken, wait_fg-returns}
use past_work.Shell.RoundTrip.{line, amp, parse_line-line, parse_line-line-amp}

program : Unit {0}
unfolding max_jid_from max_jid fill_slot add_job clear_slot delete_job fg_pid index_of get_job_pid
    get_job_jid jid_of pid2jid job_l job_at set_state sigchld_handler kill forward_to_fg handle
    wait_fg end_with_space skip_spaces split_at next_word words drop_last is_background parse_line
    atoi_from find_job resume do_bgfg builtin_cmd launch eval find read_options main_loop main
    char_at str_it back_from back digit digits_from push sio_putl magnitude
program = tt

abbrev started_shell : Shell
started_shell = record { jobs = init_jobs; next_jid = 1; verbose = false; out = [] }

cleared-Slots : (n : ℕ) → Slots (replicate n cleared)
cleared-Slots ℕ.zero = tt
cleared-Slots (ℕ.suc n) = (cleared-SlotOk, λ z. absurd (z refl), cleared-Slots n)

started-WellFormed : WellFormed started_shell
started-WellFormed = record { slots = cleared-Slots 16; size = refl; next = omega arith }

not_found : find 100 started_shell.jobs ≡ none
unfolding program
not_found = refl

add_job-WellFormed_example :
    WellFormed (add_job 100 fg (codes "sleep 5") started_shell).1
    × Added 100 fg
        (codes "sleep 5")
        started_shell
        (add_job 100 fg (codes "sleep 5") started_shell).0
        (add_job 100 fg (codes "sleep 5") started_shell).1
add_job-WellFormed_example =
    add_job-WellFormed 100 fg (codes "sleep 5") started_shell started-WellFormed (omega arith)
      (ground arith) not_found

-- The shell with one job in the foreground.
abbrev one_job : Shell
one_job = (add_job 100 fg (codes "sleep 5") started_shell).1

one_job-WellFormed : WellFormed one_job
one_job-WellFormed =
    (add_job-WellFormed 100 fg (codes "sleep 5") started_shell started-WellFormed (omega arith)
      (ground arith) not_found).0

the_job : find 100 one_job.jobs ≡ some (job 100 1 fg (codes "sleep 5"))
unfolding program
the_job = refl

delete_job-Deleted_example :
    (s' : Shell) × (delete_job 100 one_job ≡ (true, s')) × WellFormed s' × Deleted 100 one_job s'
delete_job-Deleted_example =
    delete_job-Deleted 100 one_job (job 100 1 fg (codes "sleep 5")) one_job-WellFormed (omega arith)
      the_job

-- The child is stopped, another process that is no job ends, and the child ends.
abbrev reports : List Report
reports = (100, stopped) ∷ (7, exited) ∷ (100, exited) ∷ []

sigchld_handler-Reaped_example :
    (rest : List Report) × (s' : Shell) × (sigchld_handler reports one_job ≡ goes rest s')
    × Reaped reports rest one_job s'
sigchld_handler-Reaped_example =
    sigchld_handler-Reaped reports one_job
      (
        (omega arith, ground arith),
        ((omega arith, ground arith), ((omega arith, ground arith), tt)),
      )
      one_job-WellFormed

killed_message_example :
    sigchld_handler ((100, signaled) ∷ []) one_job
    ≡ goes [] (print (terminated_by_signal 0 100) (delete_job 100 one_job).1)
killed_message_example =
    killed_message 100 one_job (job 100 1 fg (codes "sleep 5")) (omega arith) the_job

-- A program in the foreground, which is stopped.
abbrev command : CString
command = codes "sleep 5\n"

abbrev stopped_shell : Shell
stopped_shell = record started_shell {
  jobs = job 100 1 st command ∷ replicate 15 cleared;
  next_jid = 2;
  out = stopped_by_signal 1 100 ∷ [];
}

command_run :
    eval (λ pid sig. true) (child ((100, stopped) ∷ []) ∷ []) (some 100) command started_shell
    ≡ some (some (goes tt stopped_shell))
unfolding program
command_run = refl

cleared-NoFg : (n : ℕ) → NoFg (replicate n cleared)
cleared-NoFg ℕ.zero = tt
cleared-NoFg (ℕ.suc n) = (refl, cleared-NoFg n)

started-NoFg : NoFg started_shell.jobs
started-NoFg = cleared-NoFg 16

eval-NoFg_example : NoFg stopped_shell.jobs
eval-NoFg_example =
    eval-NoFg (λ pid sig. true) (child ((100, stopped) ∷ []) ∷ []) (some 100) command started_shell
      stopped_shell started-NoFg command_run

parse_line-line_example :
    parse_line (line (codes "ls" ∷ codes "-l" ∷ [])) ≡ some (false, codes "ls" ∷ codes "-l" ∷ [])
parse_line-line_example =
    parse_line-line (codes "ls") (codes "-l" ∷ [])
      ((refl, (refl, (refl, tt))), ((refl, (refl, (refl, tt))), tt)) (omega arith) (omega arith)
      refl

parse_line-line-amp_example :
    parse_line (line (codes "ls" ∷ amp ∷ [])) ≡ some (true, codes "ls" ∷ [])
parse_line-line-amp_example =
    parse_line-line-amp (codes "ls") [] ((refl, (refl, (refl, tt))), ((refl, (refl, tt)), tt))
      (omega arith) (omega arith)

-- Another child ends, and the user presses a key, before the job is reported.
wait_fg-returns_example :
    Woken
      (λ pid sig. true)
      100
      (omega arith)
      (wait_fg
        (λ pid sig. true)
        100
        (child ((7, exited) ∷ []) ∷ interrupt ∷ child ((100, exited) ∷ []) ∷ [])
        one_job)
wait_fg-returns_example =
    wait_fg-returns (λ pid sig. true) 100 (omega arith) (child ((7, exited) ∷ []) ∷ interrupt ∷ [])
      exited [] [] one_job one_job-WellFormed (((omega arith, ground arith), tt), (refl, tt))
      ((omega arith, ground arith), tt)

-- The session of one command, which the user stops, with the prompt switched off.
stopped_session :
    main
      (λ pid sig. true)
      (b'p' ∷ [])
      (whole_line (some 100) (child ((100, stopped) ∷ []) ∷ []) command ∷ [])
    ≡ at_prompt stopped_shell
unfolding program
stopped_session = refl

main-NoFg_example : NoFg stopped_shell.jobs
main-NoFg_example =
    main-NoFg (λ pid sig. true) (b'p' ∷ [])
      (whole_line (some 100) (child ((100, stopped) ∷ []) ∷ []) command ∷ []) stopped_shell
      stopped_session

-- A last line without a newline is dropped.
unfinished_session :
    main (λ pid sig. true) (b'p' ∷ []) (unfinished_line (codes "sleep 5") ∷ [])
    ≡ ended 0 started_shell
unfolding program
unfinished_session = refl

written_number : sio_putl (negsuc 319) ≡ codes "-320"
unfolding program
written_number = refl

sio_putl-printed_example : sio_putl (negsuc 319) ≡ printed (negsuc 319)
sio_putl-printed_example = sio_putl-printed (negsuc 319)

small_number : magnitude (negsuc 319) < 2 ^ 63
unfolding program
small_number = omega arith

sio_putl-length_example : length (sio_putl (negsuc 319)) ≤ 20
sio_putl-length_example = sio_putl-length (negsuc 319) small_number
