-- ===== src/Lib.antt =====
-- JOS, a teaching kernel for x86-64: physical pages, page tables, environments, the scheduler, the
-- system calls, traps, the kernel lock and the console of kern/, on the data of inc/, the C library
-- of lib/ that kernel and programs share, the library of user programs, a program that sieves primes,
-- and the boot loader.
--
-- The allocator hands out pages of 4 KB; the page tables map them; environments (processes) own page
-- maps and are chosen by the scheduler; system calls act on environments and their mappings; a trap
-- saves the environment's registers and leads to a system call, to the scheduler or to the handler of
-- page faults, which runs the environment at its upcall.
--
--   Base: shared names, Boolean tests, list and update lemmas; Base/Bits: bit operations.
--   Layout: the macros of inc/mmu.h, inc/memlayout.h and inc/types.h (PGADDR, PTX, ROUNDUP and so on).
--     Layout/Address: round trips and bounds of these.
--   Kernel: the state. Kernel/Env: struct Env (inc/env.h), the trap frame (inc/trap.h) and the error
--     codes (inc/error.h). Kernel/Defs: `Kernel`, the globals of kern/pmap.c and kern/env.c with the
--     memory, and the monad of kernel code, whose outcomes are a result, a switch to an environment,
--     a halt, the monitor, a panic, and a fault on a NULL pointer.
--   Alloc: kern/pmap.c, boot_alloc to page_decref. Alloc/Chain: the free list as a chain of links;
--     Alloc/Init, Alloc/Free, Alloc/Double: its theorems.
--   Table: kern/pmap.c, pgdir_walk to user_mem_check. Table/Route: walks; Table/Map: lookup and
--     removal; Table/Insert: insertion; Table/Check: the check of user memory.
--   Envs: kern/env.c, envid2env to env_alloc. Envs/Ids, Envs/Alloc, Envs/Init.
--     Envs/Load: region_alloc, load_icode and env_create; Envs/Load/Ready: what env_create leaves;
--     Kernel/Keeps, Table/Keeps: code that leaves the environments alone; Kernel/Ends: how code ends
--     that runs none.
--   Sched: kern/sched.c with env_run and env_pop_tf of kern/env.c. Sched/Next: the choice;
--     Sched/Switch: the switch.
--   Reap: env_free and env_destroy of kern/env.c, user_mem_assert of kern/pmap.c. Reap/Freed: what
--     env_free leaves; Reap/Gone: where the CPU goes.
--   Detect: multiboot_read and i386_detect_memory of kern/pmap.c. Detect/Slots, Detect/Sorted: the sorted
--     list; Detect/Total: the sizes; Detect/Limit: the limit.
--   Vm: x64_vm_init and mem_init_mp of kern/pmap.c. Vm/Stacks: the CPUs' stacks.
--   Syscall: kern/syscall.c, the calls. Syscall/Perm, Syscall/Pages, Syscall/Child.
--   Ipc: sys_ipc_try_send and sys_ipc_recv of kern/syscall.c. Ipc/Send.
--   Dispatch: `syscall` of kern/syscall.c. Dispatch/Numbers.
--   Trap: kern/trap.c, trap, trap_dispatch and page_fault_handler. Trap/Gates: trap_init;
--     Trap/Return: where the CPU goes after a trap; Trap/Upcall: page faults.
--   Tss: trap_init_percpu of kern/trap.c, with the gdt of kern/env.c. Tss/Fields, Tss/Words: the
--     descriptor; Tss/Loaded: every CPU's.
--   Monitor: runcmd of kern/monitor.c. Monitor/Words: words; Monitor/Loops, Monitor/Rounds,
--     Monitor/Args: the parser; Monitor/Commands: the commands.
--   Lock: kern/spinlock.c, any number of CPUs on one lock. Lock/Safety, Lock/Progress.
--   Lapic: kern/lapic.c, kern/picirq.c and boot_aps of kern/init.c. Lapic/Startup: the CPUs started.
--   Console: kern/console.c, the input buffer. Console/Queue: as a queue; Console/Keyboard: scan
--     codes; Console/Screen: the text screen.
--   Bytes, Strings: lib/string.c. Bytes/Fill, Bytes/Move, Strings/Length, Strings/Compare,
--     Strings/Copy.
--   Number: printnum of lib/printfmt.c and strtol of lib/string.c. Number/RoundTrip.
--   Format, Print: vprintfmt of lib/printfmt.c. Print/Total, Print/Signed; Print/Buffer: vsnprintf.
--   Printf: vcprintf of lib/printf.c and of kern/printf.c. Printf/Chunks.
--   Readline: lib/readline.c. Readline/Line.
--   Mp: kern/mpconfig.c. Mp/Search: the search; Mp/Entries: the CPUs.
--   Boot: boot/main.c. Boot/Segment: readseg.
--   User: lib/syscall.c; User/Fork: lib/fork.c and lib/pgfault.c. User/Fork/Shares: what may be written;
--     User/Fork/Order: the child's last steps. User/Ipc: lib/ipc.c; User/Ipc/Send: ipc_send.
--   Primes: user/primes.c. Primes/Sieve: what each process has received; Primes/Order: what is printed.
--   Tests: the theorems at concrete states.
--
-- Definitions have the names of the functions they model, in lower case; a helper that models a part
-- of a function says which. A page is its index in `pages`, an environment its index in `envs`, and a
-- table the number of its frame: `memory t i` is word `i` of frame `t`. A pointer that may be NULL is
-- an Option. Machine integers are naturals with the wrap-around of the source written out. Loops of
-- the kernel are structural recursion on the number of rounds, which the source's bounds give, so that
-- no fuel is needed: `page_init_loop` over `npages`, `env_init_loop` over NENV, `next_runnable` over
-- the NENV + 1 slots that the source visits, `user_mem_pages` over the pages between two boundaries,
-- `for_range` in env_free, `entries_from` over the entries that the table counts, `dup_pages` over the
-- pages of a program. Loops that run to the end of a string, of a line, of a number or of a format take
-- fuel, and so do the loop of ipc_send, whose rounds the kernel decides, and that of readseg, one for
-- each sector; the theorems name how much is enough: the length of the string, two more than the
-- length of the monitor's line, 64 for the bits of a number, the length of the format.
--
-- The state of the kernel is one CPU's view under the big kernel lock; the lock itself has a
-- model of its own, in which CPUs take turns at single shared accesses, the start of the CPUs
-- one over all of them, and the sieve of primes one over a chain of processes, in every order of
-- their exchanges. The C library and the monitor work on a memory of bytes, in ranges that do
-- not wrap round the address space. What is written to the interrupt controllers is a sequence
-- of events. Not modelled: what only drives devices (ports of the console and of the clock),
-- boot.S, trapentry.S, the rest of init.c, the self-tests of kern/pmap.c, which are a parameter
-- of `x64_vm_init`, the monitor's commands and the DWARF library (a third-party copy), and of
-- the user library its entry and its exit, and the user programs but primes.c. The kernel is a
-- parameter of the user library. Devices enter as lists of what they give. In the model of the
-- kernel `cons_getc`, which reads a device, is a parameter of `syscall`, the address of the
-- linker's symbol `end` one of `boot_alloc` and `page_init`, the register %cr2, the monitor and
-- the processor's store through the page tables are parameters of `trap`, and that store through
-- the page tables one of `load_icode`. The `elf` field of struct Env, which the debugger uses,
-- and the padding of the trap frame are left out.
pub mod Base
pub mod Layout
pub mod Kernel
pub mod Alloc
pub mod Table
pub mod Envs
pub mod Sched
pub mod Reap
pub mod Syscall
pub mod Ipc
pub mod Detect
pub mod Dispatch
pub mod Lock
pub mod Boot
pub mod Bytes
pub mod Strings
pub mod Number
pub mod Trap
pub mod Tss
pub mod Monitor
pub mod Lapic
pub mod Primes
pub mod Console
pub mod Format
pub mod Print
pub mod Printf
pub mod Readline
pub mod Mp
pub mod User
pub mod Vm
pub mod Tests
