-- ===== src/Lib.antt =====
-- The operating-system phases of this repository, a process kernel in C over the USLOSS simulator:
-- phase 1 schedules processes, phase 2 adds mailboxes and device waiting, phase 3 the system calls
-- and semaphores, phase 4 the drivers of the clock, the terminals and the disks.
--
-- Base holds what the phases share. A routine of the kernel is a `Run`: it returns with the state,
-- or yields at a call that leaves the layer, with what it does when it is resumed in the state that
-- it finds then, or halts, or meets undefined behaviour (`fault`), or runs out of fuel. Tables are
-- functions of the index, pointers into a table are indices, and NULL is `none`. An `int` that can be
-- negative is a ℤ without its bound of 32 bits, as the value of a semaphore and an elapsed time are;
-- ourSleep alone tests for an overflow. Counters that only grow are natural numbers.
--
-- Phase2 is phase2/phase2.c. State has the tables; Slots the searches for free slots, MboxCreate and
-- the shadow processes; Queue the three queues; Mailbox the five operations; Device the handlers, the
-- start and waitDevice. The calls of phase 1 that may switch to another process, blockMe and
-- unblockProc, are yields. `malloc` is an argument that says which sizes it grants, `getpid()` and
-- `currentTime()` are arguments. A walk through a queue has one round more than the table has
-- entries, which is enough for every queue without a cycle; with less the walk is through a cycle
-- and the source does not come back. The messages of the table are taken as allocated at the start.
-- Interrupts has the two functions that set the interrupt bit. getMb, which each operation calls, is
-- `index_of max_mbox`. Not modelled: the name of a mailbox, which is never set.
--
-- Phase1 is phase1b/phase1.c. State has the process table, the run queues and the calls; Queue
-- addToQueue, removeNode and the rotation of timeSlice; Dispatch the dispatcher, runProcess, blockMe,
-- unblockProc and timeSlice; Zap, Create and Family zap, fork1, join and quit; Start the start of the
-- phase and its own processes; Dump what dumpProcesses and dumpQueue print. A context switch is a
-- yield. The walks have one round more than the table has entries; join, whose fuel counts how
-- often it blocks, and the endless loops of init and sentinel take their fuel as an argument. A pid
-- outside the table (a negative one) is a fault, and so is a string compared while it is NULL, and
-- a name that does not fit. malloc succeeds.
--
-- Phase3 is phase3/phase3.c. State has the shadow processes and the semaphores; Semaphore
-- kernSemCreate, kernSemP and kernSemV; Spawn the other system calls; Table phase3_init. Calls of
-- phases 1 and 2 are yields, answered by the environment.
--
-- Phase4 is phase4a/phase4.c. Sleep is the queue of sleeping processes and the clock daemon; Terminal
-- the terminal daemon and the reads and writes; Disk the disk daemon and the transfers; Start the
-- start; Table phase4_init. The constants and macros of usloss.h, which is not in the repository, are
-- fields of the record Usloss, with the value that is found where a function returns none. The
-- endless loops of the daemons are rounds. A buffer that a user hands to a terminal read is taken to
-- have the room that is asked for. Not modelled: the functions of phases 3 and 4 that only
-- print, and those of phase 4 that only return 0.
--
-- Phase1a is phase1a/phase1.c, in which a process that ends names the one that runs next. State has
-- the process table; Create createProcess and fork1; Family join and quit; Start the rest; Equivalence
-- sets its join beside that of phase1b/phase1.c.
--
-- User is phase3/phase3_usermode.c (Kernel) and phase4a/phase4_usermode.c (Devices). A stub is a
-- routine over the processor status whose only call besides a message is the trap; an `int` is cast by
-- its residue modulo 2 ^ 32. Link runs the handler that systemCallVec has for the number of a trap,
-- and the stub goes on with the arguments that the handler left. The numbers of usyscall.h, which is
-- not in the repository, are known by their names in Base/Syscalls; that they differ is a hypothesis.
pub mod Base
pub mod Phase1
pub mod Phase1a
pub mod User
pub mod Phase2
pub mod Phase3
pub mod Phase4
