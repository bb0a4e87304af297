-- ===== src/Dispatch.antt =====
-- kern/syscall.c: `syscall`, which casts the arguments and calls the function of a number.
pub mod Numbers
use comp530h.Base.{ℕ, ◌+◌, ◌-◌, ◌%◌, ◌^◌, ◌==◌, if◌then◌else◌, ltb}
use comp530h.Kernel.{K, pure, ◌>>=◌, Result, ok, err, e_no_sys}
use comp530h.Sched.{sched_yield}
use comp530h.Syscall.{
  sys_cputs, sys_getenvid, sys_env_destroy, sys_exofork, sys_env_set_status,
  sys_env_set_pgfault_upcall, sys_page_alloc, sys_page_map, sys_page_unmap,
}
use comp530h.Ipc.{sys_ipc_try_send, sys_ipc_recv}

-- A uint64_t cut to the 32 bits of an `envid_t` or a uint32_t.
abbrev pub cast32 : ℕ → ℕ
cast32 a = a % 2 ^ 32

-- A uint64_t cut to an `int` and extended by its sign to 64 bits again.
abbrev pub cast_int : ℕ → ℕ
cast_int a = if ltb (a % 2 ^ 32) (2 ^ 31) then a % 2 ^ 32 else a % 2 ^ 32 + (2 ^ 64 - 2 ^ 32)

-- `cons_getc`, which reads the console's devices, is a parameter. The cases are in the order of the
-- `switch`, by the numbers of inc/syscall.h.
unfoldable pub syscall : K ℕ → (syscallno a1 a2 a3 a4 a5 : ℕ) → K Result
unfolding sys_cputs
syscall cons_getc n a1 a2 a3 a4 a5 =
    if n == 0
    then sys_cputs a1 a2
    else if n == 1
    then (do c ← cons_getc; pure (ok c))
    else if n == 2
    then sys_getenvid
    else if n == 3
    then sys_env_destroy (cast32 a1)
    else if n == 10
    then sched_yield
    else if n == 7
    then sys_exofork
    else if n == 8
    then sys_env_set_status (cast32 a1) (cast_int a2)
    else if n == 4
    then sys_page_alloc (cast32 a1) a2 (cast_int a3)
    else if n == 5
    then sys_page_map (cast32 a1) a2 (cast32 a3) a4 (cast_int a5)
    else if n == 6
    then sys_page_unmap (cast32 a1) a2
    else if n == 9
    then sys_env_set_pgfault_upcall (cast32 a1) a2
    else if n == 11
    then sys_ipc_try_send (cast32 a1) (cast32 a2) a3 (cast_int a4)
    else if n == 12
    then sys_ipc_recv a1
    else pure (err e_no_sys)
