-- ===== src/Lib.antt =====
-- The C programs of this repository: a simulator of process schedulers, a shell with job control, a
-- caching web proxy, a small web server, a kernel module and a simulator of a file system. They are programs of their own; the
-- modules of this library follow them.
--
--   Scheduler  Computer_Science-360/lab3/scheduler.c
--   Shell      Computer_Science-360/lab2/tsh.c
--   Proxy      Computer_Science-360/lab5/proxy.c
--   Tiny       Computer_Science-360/lab5/tiny/tiny.c
--   CpuTimes   Computer_Science-360/lab4/kmlab.c
--   FileTree   Computer_Science-360/lab1/lab1_hutchins.c
--   Base       lists, linked lists in a store, texts, 32-bit words and the search for a substring
--
-- Scheduler. State.antt has `struct Process` and the globals as records and a monad over them, in
-- which a read through NULL is an outcome. A pointer to a process is its index. Queues.antt has
-- Qsetup (`q_setup`), dsetup (`d_setup`), pauseQue, replaceN, insertB, removeB and execxuteB
-- (`execute_b`), Dispatch.antt has ranomize, proceedForward, creation and executeR (`execute_r`) with
-- the four algorithms, and Cycle.antt has countdown, Extra, datapoint, the loops of listoutputs and
-- the set-up of main. Chain.antt says which list of processes the pointers of a queue make up.
-- ReadyQueue, BlockedList, Unlink, Release and Unblock are about the operations on these lists, and
-- Shortest and Selection about the choice of the shortest job, and Clock about countdown.
-- Whole and its children are about the state as a whole and the algorithms that suspend no process:
-- the queues hold the processes with the conditions of their kind (`Shape`), and the times of each
-- process add up (`Fair`). Forward and Proceeding, Unblock, Creation and Arrivals, Drawing, Launch,
-- Execute and Executing, and Ticking and Counting are about the steps of a cycle, Due and Progress
-- about what is left to do after it, and Run, Accounts, Load, Reset and Program about the cycle, the
-- loop over cycles, the set-up, the reset and the whole program.
-- A walk along a list gets one round more than there are processes, which is enough for a list that
-- has no process twice. The loops over cycles get a number of rounds, and so many are enough: the last
-- arrival and, for each process, its time C times M C + 2. The numbers are 32-bit words.
--
-- Shell. Jobs.antt has the job list (addjob, deletejob, maxjid, fgpid, getjobpid, getjobjid, pid2jid,
-- jobL), Signals.antt the handlers, Kill and waitfg, Parse.antt parseline and Commands.antt do_bgfg,
-- builtin_cmd and eval. What waitpid reports in a handler is a list of children with their status, and
-- the signals that end a sleep (such reports, a key, a quit signal) are a list, each handled before
-- the next; both are chosen by the kernel. Fork gives a PID or fails. The numbers in commands fit an
-- int. Caught is about what the signals do to the foreground job. Table, AddDelete, Reap and Handler
-- are about the job list as a table from PIDs to jobs, Foreground, Prompt and Waiting about the
-- foreground job, and RoundTrip about parseline. MainLoop.antt has main: the letters that getopt
-- returns and what happens while the shell waits for a line are arguments. Session is about the
-- prompt. Numbers.antt has push, back and sio_putl, which write a number in a handler, and Printed is
-- about their text; the least `long`, which has no opposite, is left out. The wrappers of system calls
-- are not modelled.
--
-- Proxy. Cache.antt has the cache with reader and writer, each of which runs under a semaphore and is
-- one step, Requests.antt the parsing of a request and the text for the server, and Serve.antt doit.
-- The lines of the client and the servers are arguments: they come through sockets of csapp.c, a
-- library that is not modelled. A write behind the end of an array is an outcome. A payload is its
-- whole array, which is what a hit sends. Lookup and Replace are about the cache, Forward about what
-- the server gets, and Again about a request that comes twice. The threads are not modelled.
--
-- Tiny. Server.antt has doit, parse_uri, the two ways to serve and clienterror; files and programs are
-- arguments. A text that does not fit its array, and a size for which mmap fails, have no answer.
-- Answers.antt is about the answers with status 200, and Refusals.antt about the others.
--
-- CpuTimes. Module.antt has the registration list, the handlers of the proc file, the timer and the
-- work that updates the times, and the steps of the loaded module. The tasks of the kernel
-- (get_cpu_use) are an argument that may differ in each step. Registry.antt is about the list.
--
-- FileTree. Tree.antt has the nodes in memory, lookC (`look_c`) and insert_child; a node that has been
-- freed must not be read. Paths.antt has z, tokenize and nodeP (`node_p`), with dirname and basename
-- of the C library (the source declares both names again and does not compile as it is), and
-- Commands.antt mkdir, create, rmdir, rm, cd, ls, pwd, initialize and find_commad. A loop over
-- siblings gets as many rounds as there have been nodes, and each node is a sibling at most once.
-- Children, Making and Removing are about the children of a directory. The input loop of main is not
-- modelled.
--
-- Not modelled: the reports of scheduler.c, the test programs, the library csapp.c in its two copies,
-- and the Python application CampusSafe.
pub mod Base
pub mod Scheduler
pub mod Shell
pub mod Proxy
pub mod CpuTimes
pub mod FileTree
pub mod Tiny
