-- ===== src/Syscall.antt =====
-- kern/syscall.c: the system calls on environments and pages. The caller is `curenv`.
pub mod Perm
pub mod Pages
pub mod Child
use comp530h.Base.{
  ℕ, ◌%◌, Bool, true, ◌||◌, ◌&&◌, not, Option, none, some, ◌==◌, if◌then◌else◌, ltb,
}
use comp530h.Layout.{flag, pgsize, utop, pte_p, pte_u, pte_syscall}
use comp530h.Kernel.{
  K, done, pure, ◌>>=◌, ◌>>◌, get, deref, set_env, Result, ok, err, e_bad_env, e_inval, e_no_mem,
  runnable, not_runnable,
}
use comp530h.Kernel.Env.{Env}
use comp530h.Alloc.{page_alloc, page_free, alloc_zero}
use comp530h.Table.{page_lookup, page_insert, page_remove}
use comp530h.Envs.{envid2env, env_alloc}
use comp530h.Reap.{env_destroy, user_mem_assert}

-- An environment's fields after a call; the environment must not be NULL.
abbrev pub change_env : Option ℕ → (Env → Env) → K (Unit {0})
change_env o f = do e ← deref o; (λ k. done tt (set_env e (f (k.envs e)) k))

-- The return value that the environment will see in %rax.
abbrev pub returns : ℕ → Env → Env
returns v env = record env {
  env_tf = record (env.env_tf) { tf_regs = record (env.env_tf.tf_regs) { reg_rax = v } };
}

-- `!x` of C
abbrev pub lnot : ℕ → ℕ
lnot x = if x == 0 then 1 else 0

-- `(perm & PTE_U) && (perm & PTE_P) && !(perm & !PTE_SYSCALL)`
unfoldable pub perm_ok : ℕ → Bool
perm_ok perm = flag perm pte_u && flag perm pte_p && not (flag perm (lnot pte_syscall))

-- The first test of `perm` in `sys_page_map`, `(perm & (PTE_U|PTE_P)) && !(perm & !PTE_SYSCALL)`
unfoldable pub perm_some : ℕ → Bool
perm_some perm = flag perm 0x005 && not (flag perm (lnot pte_syscall))

-- `va < UTOP` and `va` is a page boundary.
abbrev pub user_page : ℕ → Bool
user_page va = ltb va utop && (va % pgsize == 0)

-- What is printed is not modelled.
unfoldable pub sys_cputs : (s len : ℕ) → K Result
sys_cputs s len = do k ← get; e ← deref k.curenv; user_mem_assert e s len pte_u; pure (ok 0)

unfoldable pub sys_getenvid : K Result
sys_getenvid = do k ← get; e ← deref k.curenv; pure (ok (k.envs e).env_id)

unfoldable pub sys_env_destroy : ℕ → K Result
sys_env_destroy envid = do
  (o, r) ← envid2env envid true
  elim r [ err c ↦ pure (err c) | ok _ ↦ do e ← deref o; env_destroy e; pure (ok 0) ]

unfoldable pub sys_exofork : K Result
sys_exofork = do
  k ← get
  cur ← deref k.curenv
  (r, o) ← env_alloc (k.envs cur).env_id
  elim r [
    | err c ↦ pure (err c)
    | ok _ ↦ do
      k ← get
      change_env o (λ env.
          returns 0 (record env { env_status = not_runnable; env_tf = (k.envs cur).env_tf }))
      e ← deref o
      k ← get
      pure (ok (k.envs e).env_id)
  ]

-- ENV_RUNNABLE is 2 and ENV_NOT_RUNNABLE is 4.
unfoldable pub sys_env_set_status : (envid status : ℕ) → K Result
sys_env_set_status envid status = do
  (o, r) ← envid2env envid true
  elim r [
    | err _ ↦ pure (err e_bad_env)
    | ok _ ↦
        if status == 2
        then (do change_env o (λ env. record env { env_status = runnable }); pure (ok 0))
        else if status == 4
        then (do change_env o (λ env. record env { env_status = not_runnable }); pure (ok 0))
        else pure (err e_inval)
  ]

unfoldable pub sys_env_set_pgfault_upcall : (envid func : ℕ) → K Result
sys_env_set_pgfault_upcall envid func = do
  (o, r) ← envid2env envid true
  elim r [
    | err _ ↦ pure (err e_bad_env)
    | ok _ ↦ do change_env o (λ env. record env { env_pgfault_upcall = func }); pure (ok 0)
  ]

-- The page map of an environment
unfoldable pub env_map : Option ℕ → K ℕ
env_map o = do e ← deref o; k ← get; deref (k.envs e).env_pml4e

unfoldable pub sys_page_alloc : (envid va perm : ℕ) → K Result
unfolding env_map
sys_page_alloc envid va perm = do
  (o, r) ← envid2env envid true
  elim r [
    | err _ ↦ pure (err e_bad_env)
    | ok _ ↦ if not (user_page va) || not (perm_ok perm) then pure (err e_inval) else (do
      page ← page_alloc alloc_zero
      elim page [
        | none ↦ pure (err e_no_mem)
        | some p ↦ do
          pml4e ← env_map o
          r ← page_insert pml4e p va perm
          elim r [ ok _ ↦ pure (ok 0) | err _ ↦ page_free p >> pure (err e_no_mem) ]
      ])
  ]

-- The test of `perm & PTE_W` against the source's entry, which the description of the call asks for,
-- is not in the code; the test of `perm` is made twice.
unfoldable pub sys_page_map : (srcenvid srcva dstenvid dstva perm : ℕ) → K Result
unfolding env_map
sys_page_map srcenvid srcva dstenvid dstva perm = do
  (src, r) ← envid2env srcenvid true
  elim r [
    | err _ ↦ pure (err e_bad_env)
    | ok _ ↦ do
      (dst, r) ← envid2env dstenvid true
      elim r [
        | err _ ↦ pure (err e_bad_env)
        | ok _ ↦ if not (user_page srcva) || not (user_page dstva) then pure (err e_inval) else (do
          pml4e ← env_map src
          found ← page_lookup pml4e srcva
          elim found [
            | none ↦ pure (err e_inval)
            | some (page, pte) ↦
                if not (perm_some perm) || not (perm_ok perm) then pure (err e_inval) else (do
                  pml4e ← env_map dst
                  r ← page_insert pml4e page dstva perm
                  elim r [ ok _ ↦ pure (ok 0) | err _ ↦ pure (err e_no_mem) ])
          ])
      ]
  ]

unfoldable pub sys_page_unmap : (envid va : ℕ) → K Result
unfolding env_map
sys_page_unmap envid va = do
  (o, r) ← envid2env envid true
  elim r [
    | err _ ↦ pure (err e_bad_env)
    | ok _ ↦
        if not (user_page va)
        then pure (err e_inval)
        else (do pml4e ← env_map o; page_remove pml4e va; pure (ok 0))
  ]
