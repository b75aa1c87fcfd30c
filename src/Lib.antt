-- ===== src/Lib.antt =====
-- BiKaya: the kernel of src/ and include/, for the uMPS machine.
--
-- The kernel has three layers. `include/listx.h` gives circular lists that are threaded through the
-- structures that they hold. On them `src/pcb.c` keeps the process control blocks (a free list, process
-- queues by priority, the process tree) and `src/asl.c` the semaphores (a queue of blocked processes
-- for each key). On both stand the scheduler, `src/scheduler.c`, and the handlers that the machine
-- calls: `src/syscalls.c`, `src/interrupts.c` and `src/exceptions.c`. `src/main.c` starts it all.
--
-- Files and what they model:
--   ListX      include/listx.h: `Links` is the memory of all `next` and `prev` pointers by address, and
--              each function is the writes of the source in their order.
--   Types      include/types.h and include/const.h. A `pcb_t *` or `semd_t *` is an index into
--              `pcbTable` or `semdTable`; the list heads inside structure `i` are at `8 * i` and on, the
--              four dummies of the sources at free addresses among them.
--   Machine    the memory while the kernel runs, and commands that read and write it. A run returns,
--              leaves by `LDST`, faults, or is out of fuel.
--   Umps, Uarm include/umps.h and include/uarm.h, the macros of the two machines.
--   Pcb, Asl, Scheduler, Interrupts, Syscalls
--              the source file of that name, with a function for each function of the source. Where
--              a source function branches on a pointer, a helper has a clause for each case.
--   Kernel     src/exceptions.c and src/main.c; `Kernel.Sound.Sound` is the invariant of the whole, of
--              which `Kernel.Family.Family` is the process tree, `Kernel.Steps.Step` what the kernel and
--              the processes do, and `Kernel.Spec.Spec` the queues, semaphores and the running process
--              without memory.
--   Terminal, Printer, Memory
--              the source file of that name.
--   Base       shared names, Boolean tests and lemmas on lists.
--   Examples   a small memory, and the theorems at it.
-- The modules below these hold the proofs. `ListX.Rings.Rings` says that the pointers are a list for
-- each head, `Types.Lists.Lists` says it by the structures instead of the addresses, and
-- `Asl.Semaphores.Semaphores` is the invariant of the semaphores. Each operation is first shown on
-- `Rings`, then lifted.
--
-- Fuel: a loop over a list has fuel `suc max_proc`, one more than there are structures, and the
-- theorems that need it say so or have it from the invariant. `kill_tree` and
-- `asl_find_and_remove_blocked_child` recurse on fuel for the depth of the process tree, which has no
-- more levels than there are processes: `Scheduler.Forest.Forest` is the tree, `IsTree` of
-- Scheduler.Terminate says that it stands in memory, and `Kernel.Trees.below_tree` is that of a process
-- in a sound state, read off the lists of children.
--
-- A word, or a saved state, at an address that comes from a process is read and written only where the
-- address is not `NULL`, and is a fault otherwise: `non_null`, `load_state` and `store_state` of Umps.
-- `devices_semkeys`, which the linker is free to place, stands at one address in the memory of data.
--
-- Machine integers keep their wrap-around: words modulo `2 ^ 32`, `time_t` modulo `2 ^ 64`; a
-- priority is the bit pattern of an `int`, compared by `rank`.
--
-- The drivers stand apart from the kernel: a terminal or the printer is the words that its status
-- register gives one after the other and the words that are written to its other registers, and a
-- busy-waiting loop has fuel for the readings for which the device is busy.
--
-- Not modelled: the handlers on uARM, of which Uarm has the macros and what the source does for it alone,
-- the start-up code and libraries of the emulators (umps, uarm), whose constants stand in Umps and Uarm,
-- and the test programs. Where the kernel calls `memset` and
-- `memcpy`, a whole structure is written; Memory has the two functions byte by byte.
pub mod Base
pub mod ListX
pub mod Types
pub mod Machine
pub mod Pcb
pub mod Asl
pub mod Umps
pub mod Uarm
pub mod Scheduler
pub mod Interrupts
pub mod Syscalls
pub mod Kernel
pub mod Examples
pub mod Memory
pub mod Terminal
pub mod Printer
