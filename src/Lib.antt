-- ===== src/Lib.antt =====
-- MiniC-OS: the kernel's objects, message passing, scheduler, sandbox and system calls, its memory,
-- services, strings and big numbers.
--
-- The kernel keeps its state in global arrays. A process names a kernel object by the index of an
-- entry in its own handle table; the entry names a slot of the object table, and the slot names
-- an entry of the table for its kind: a pipe, a channel, an event, a mutex, a timer or a sandbox
-- policy. A syscall goes through the sandbox check and then to the first handler that claims its
-- number. A handler that has to wait marks its task blocked on a flag and yields.
--
-- Ipc.Object models proc/ipc/object (`g_objects`, `g_object_count` and `g_handle_tables` are the
-- record `Objects`). Ipc.Pipe models proc/ipc/pipe, Ipc.Channel proc/ipc/channel, Ipc.Sync the
-- tables of proc/ipc/event, proc/ipc/mutex and proc/ipc/timer, and Ipc.SharedMemory
-- proc/ipc/shared_memory, which takes its frames from Mm.Frames.
-- Sched.Yield models `yield` of kernel/sched/task.c; its waiting loops are with the syscalls.
-- Security.Sandbox models kernel/security/sandbox, Security.Users kernel/security/users, and
-- Security.Bignum the arithmetic of kernel/security/bignum on arrays of 32-bit limbs.
-- Mm.Frames models the frame bitmap of kernel/mm/frames, Mm.Cow kernel/mm/cow, and
-- Mm.Heap kernel/mm/heap: the free list is the list of the blocks in address order.
-- Fs.Tmpfs models kernel/fs/tmpfs, and Services kernel/services/service_manager.c; both keep a table of
-- entries that are found by name.
-- Syscall.State has the kernel's global variables in one record and the checks that the handlers
-- of kernel/syscall/handlers begin with; Syscall.Pipes, Syscall.Channels, Syscall.Sync and
-- Syscall.Handles are pipe.c, channel.c, sync.c and core.c there, and Syscall.Dispatch is
-- kernel/syscall/syscall.c.
-- Strings models kernel/lib/strings.c: comparisons and number formats, Strings.Search searching and
-- Strings.Address the readers of network addresses.
-- Base has the lists, tests, integers and loops that the parts share, and Tests has concrete
-- states.
--
-- Functions of the source keep their names; a syscall is named for what it does. A function that
-- the source runs with interrupts off is one step. A handler runs up to its return, its first
-- `yield` or an access outside an array, which is the result `fault` of Exec; a round of a waiting
-- loop is one step. C's integers are natural numbers with the wrap-around written out, and an
-- `int` that may be negative is an ℤ. A pointer into user memory is an address in the memory of the
-- running process, which is a function from addresses to bytes; a store through such a pointer below the
-- private region of the process, where the kernel's own memory is, is a `fault` as well. A string is the
-- list of its characters up to the terminating 0. Loops recurse on the rounds left or on the list they walk, so no
-- fuel is needed but for the outer loop of `kalloc`, where two rounds are enough: a heap that has grown
-- either has room or is at its cap.
--
-- Not modelled: the stack switch, the boot loader's memory map, page tables, devices, the other file
-- systems, the network, graphics and user programs; of the parts above, printing. Parameters are the
-- serial output of syscall 1, the handlers of other files, mapping a frame for the heap or a page of
-- shared memory, and for the services the process table, spawning a process and the random load
-- address.
pub mod Base
pub mod Fs
pub mod Ipc
pub mod Mm
pub mod Sched
pub mod Security
pub mod Services
pub mod Strings
pub mod Syscall
pub mod Tests
