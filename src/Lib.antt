-- ===== src/Lib.antt =====
-- CorePartitioning, verified: a kernel module that divides the cores of a machine among the queues
-- of network and block devices, system calls and applications, and a preloaded library that
-- executes the system calls of an application on threads of their own.
--
-- The program has two halves. The kernel module (simple_proc_ktimer/simple_proc.c) wakes once a
-- second, derives the load of each core from the kernel's counters, moves the boundaries between
-- groups of cores by one core at most, and hints each device queue to a core of its group. The
-- library (ld_preload.c, fdtable.c, ipc.c, affinity.c) keeps a table of descriptors, each with a
-- thread; its versions of the C library's calls send a request to the descriptor's thread and wait
-- for the reply. The two halves meet in proc files, which affinity.c reads to place the threads on
-- the cores that the module sets aside for system calls.
--
-- Base holds what the files share: tests, lists, C integers, and `Returns P x`, which says that a
-- computation that may fail has a result and that the result has the property P.
--
-- Kernel models `kerneltimer_timeover` of simple_proc_ktimer/simple_proc.c. Kernel.Sample is the
-- computation of percentages on `u64` values that wrap. Kernel.Single, Kernel.Sockets and
-- Kernel.App are the modes: the globals that a mode keeps are a record, `tick` is the mode's part
-- of the handler, from the loads to the new globals and the list of affinity hints, and a division
-- by zero is `none`. The loads are a function from cores to numbers, since the handler only adds
-- them up; every theorem holds for all such functions. Differences of boundaries are written so
-- that they do not go below zero where C's do not. Kernel.Walk is the loop that deals queues out to
-- the cores of several sockets. Reads one past the arrays of averages, which the modes for several
-- sockets make, are arguments of the tick: the theorems hold whatever values that are not negative
-- are found there. Kernel.Sample.Counters is how the handler reads the counters of a core.
-- Kernel.Proc is what `init_simpleproc` and `exit_simpleproc` make and remove: which calls of the
-- kernel succeed is an argument. Kernel.Mode sets the four modes side by side, each a tick and
-- first values, and Kernel.Timer puts the ticks of a mode on the kernel's clock: a list of loads
-- has one element for each jiffy, and the timer says at which of them the handler runs.
--
-- Table models fdtable.c with `__FILEIO__`: nodes on a heap with explicit
-- pointers, an access to a node that is not allocated being a fault. The loops run on fuel; more
-- fuel than nodes is enough. Table.Chain says when such a heap is a table. Table.Fork has
-- `fdtable_forked` and `fdtable_destroy`, Table.Traversal the loops that print the entries, those of
-- fdtable.c and `print_table_info` of print.c, and Table.Pool the functions of fdtable.c with
-- `__POOL__`, whose list shares the heap with the table. The loops of fdtable.c print only with
-- `__DEBUG_FDTABLE__`, with which they are modelled. Deleting an entry destroys its semaphores and
-- frees its message buffer, too, which Table leaves out.
--
-- Preload models ld_preload.c and ipc.c. Preload.Request has the messages of data_types.h and, as
-- parameters, the original functions found by `dlsym`. Preload.Channel has the four operations of
-- ipc.c on semaphores and the shared buffer. Preload.Start is the beginning of `syscall_thread`,
-- and Preload.Thread its loop, over the list of requests that arrive. Preload.Wrapper has the
-- functions that take the place of the C library's on descriptors of the table; a call is one
-- exchange over the channel, with one caller at a time, and never returns if the entry has no
-- thread that waits: `serving` holds the entries that have one. An entry whose `pthread_create` has
-- failed stays in the table without one, as does an entry in the child of `clone`. Preload.Schedule
-- takes such an exchange apart into the statements of ipc.c, each a step of the caller or of the
-- thread, and a schedule, a list of Booleans, says whose turn it is; a turn of a blocked side does
-- nothing. Preload.Register has the functions that make or end a descriptor, but for `accept` and
-- `epoll_create`, which are Preload.Accept and Preload.Epoll; the latter counts the read locks that
-- the caller holds. Preload.Fork is `fork` and `clone`. Preload.Load is `wrap_init`, Preload.Select
-- the threads `ku_select` and `stat_syscall`, and Preload.Place the cores on which the threads put
-- themselves with `__ONE__`, `__RR__` and `__RR2__`. Preload.Program has applications that make any
-- calls of the functions that keep `errno`, run once through the library and once without it;
-- MAXTHREAD bounds the table there, so that a larger fuel is enough for any number of calls.
-- Lengths and pointers are naturals, descriptors and other `int` arguments are integers.
--
-- Affinity models affinity.c and the contents of the proc files that it reads: `set_cpu` with
-- SINGLE, the only mode whose name build.sh defines, with CROSS and PER in Affinity.Sockets and APP
-- in Affinity.Layout, whose sources have slips that keep them from compiling, and `set_cpu_app` in
-- Affinity.App. Affinity.Lines has the files of one number to a line, and Affinity.Files the
-- functions of the kernel module that open them. Affinity.Stat is `get_pid_cpu` and `get_tid_cpu`
-- on the line that they read from /proc, and Affinity.Status the search for the process of a thread
-- that comes before. Affinity.Scan is `sscanf`, conversion by conversion; it, `fgets`, `atoi` and
-- `strtok` are written out as far as they are used, for values within an `int`. Affinity.Isolation
-- puts the ticks of the module and the masks of the library together.
--
-- Print models `type_iton` of print.c, with the length of the buffer that it writes to.
--
-- Examples applies the theorems to concrete data.
--
-- Not modelled: `print_msg_info` of print.c and the logs, which only print; `getMicrotime`, which the
-- logs use; what `fdtable_forked` and the wrappers do with `__POOL__`, where `fdtable_forked` uses a
-- name that is not declared and which no build file turns on; `set_cpu` without `__FILEIO__`; and
-- the functions of the kernel and of the C library, which are arguments or are written out as far
-- as they are used.
pub mod Base
pub mod Kernel
pub mod Table
pub mod Preload
pub mod Affinity
pub mod Print
pub mod Examples
