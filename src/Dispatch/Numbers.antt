-- ===== src/Dispatch/Numbers.antt =====
-- What `syscall` does by its number.
use comp530h.Base.{ℕ, ◌<◌, ◌≤◌, ◌≡◌, none, true, arith, ◌⊎◌}
use comp530h.Kernel.{Kernel, K, done, err, e_bad_env, e_no_sys}
use comp530h.Envs.{envid2env}
use comp530h.Syscall.{
  sys_env_destroy, sys_env_set_status, sys_env_set_pgfault_upcall, sys_page_alloc, sys_page_map,
  sys_page_unmap,
}
use comp530h.Dispatch.{syscall, cast32}

-- syscall with a number above 12 returns -E_NO_SYS and changes nothing.
pub syscall-unknown :
    (cons_getc : K ℕ) (k : Kernel) (n a1 a2 a3 a4 a5 : ℕ)
    → 12 < n
    → syscall cons_getc n a1 a2 a3 a4 a5 k ≡ done (err e_no_sys) k
unfolding syscall
syscall-unknown cons_getc k n a1 a2 a3 a4 a5 h = ground arith

-- The numbers of the calls that act on an environment with the caller's permission: env_destroy,
-- page_alloc, page_map, page_unmap, env_set_status, env_set_pgfault_upcall.
abbrev pub ActsOnEnv : ℕ → Type 0
ActsOnEnv n = ((3 ≤ n) × (n ≤ 6)) ⊎ ((8 ≤ n) × (n ≤ 9))

-- If envid2env, with permission asked for, refuses the first argument cut to 32 bits, then syscall
-- with the number of env_destroy, page_alloc, page_map, page_unmap, env_set_status or
-- env_set_pgfault_upcall returns -E_BAD_ENV and changes nothing.
pub syscall-bad_env :
    (cons_getc : K ℕ) (k : Kernel) (n a1 a2 a3 a4 a5 : ℕ)
    → ActsOnEnv n
    → envid2env (cast32 a1) true k ≡ done (none, err e_bad_env) k
    → syscall cons_getc n a1 a2 a3 a4 a5 k ≡ done (err e_bad_env) k
unfolding syscall sys_env_destroy sys_env_set_status sys_env_set_pgfault_upcall sys_page_alloc
    sys_page_map sys_page_unmap
syscall-bad_env cons_getc k n a1 a2 a3 a4 a5 h i = ground (arith, i)
