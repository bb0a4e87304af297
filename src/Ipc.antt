-- ===== src/Ipc.antt =====
-- kern/syscall.c: `sys_ipc_try_send` and `sys_ipc_recv`.
pub mod Send
use comp530h.Base.{
  ℕ, ◌%◌, true, false, ◌&&◌, ◌||◌, not, Option, none, some, ◌==◌, if◌then◌else◌, ltb,
}
use comp530h.Layout.{flag, pgsize, utop, pte_w}
use comp530h.Kernel.{
  K, pure, ◌>>=◌, ◌>>◌, get, deref, load, Result, ok, err, e_bad_env, e_inval, e_no_mem,
  e_ipc_not_recv, runnable, not_runnable,
}
use comp530h.Kernel.Env.{Env}
use comp530h.Table.{page_lookup, page_insert}
use comp530h.Envs.{envid2env}
use comp530h.Sched.{sched_yield}
use comp530h.Syscall.{change_env, returns, perm_ok, env_map}

-- The page is mapped for the target, if the target asks for one below UTOP.
ipc_map_page : Option ℕ → (page perm dstva : ℕ) → K Result
unfolding env_map
ipc_map_page target page perm dstva =
    if not (ltb dstva utop)
    then pure (ok 0)
    else if not (dstva % pgsize == 0)
    then pure (err e_inval)
    else (do
      pml4e ← env_map target
      r ← page_insert pml4e page dstva perm
      elim r [
        | err _ ↦ pure (err e_no_mem)
        | ok _ ↦ do change_env target (λ env. record env { env_ipc_perm = perm }); pure (ok 0)
      ])

-- A page that may be written may be sent only where the sender may write it.
ipc_check_write : Option ℕ → (page perm pte : ℕ) → K Result
unfolding ipc_map_page
ipc_check_write target page perm pte =
    if flag perm pte_w && not (flag pte pte_w)
    then pure (err e_inval)
    else (do e ← deref target; k ← get; ipc_map_page target page perm (k.envs e).env_ipc_dstva)

-- The part of the call for a page at `srcva`: a failure is the error to return.
unfoldable pub ipc_send_page : Option ℕ → (srcva perm : ℕ) → K Result
unfolding env_map ipc_check_write
ipc_send_page target srcva perm =
    if not (srcva % pgsize == 0) || not (perm_ok perm) then pure (err e_inval) else (do
      k ← get
      pml4e ← env_map k.curenv
      found ← page_lookup pml4e srcva
      elim found [
        | none ↦ pure (err e_inval)
        | some (page, s) ↦ do pte ← load s; ipc_check_write target page perm pte
      ])

-- What a send that succeeds writes in the target.
abbrev pub delivered : (from value : ℕ) → Env → Env
delivered from value env = returns 0 (record env {
  env_ipc_recving = false;
  env_ipc_from = from;
  env_ipc_value = value;
  env_status = runnable;
})

-- The fields of the target: `env_ipc_recving = 0`, the sender, the value, and the status.
unfoldable pub ipc_deliver : Option ℕ → (value : ℕ) → K Result
ipc_deliver target value = do
  k ← get
  cur ← deref k.curenv
  change_env target (delivered (k.envs cur).env_id value)
  pure (ok 0)

-- The target is waiting.
unfoldable pub ipc_send_to : Option ℕ → (value srcva perm : ℕ) → K Result
unfolding ipc_send_page ipc_deliver
ipc_send_to target value srcva perm =
    if ltb srcva utop
    then (do
      r ← ipc_send_page target srcva perm
      elim r [ err c ↦ pure (err c) | ok _ ↦ ipc_deliver target value ])
    else ipc_deliver target value

unfoldable pub sys_ipc_try_send : (envid value srcva perm : ℕ) → K Result
unfolding ipc_send_to
sys_ipc_try_send envid value srcva perm = do
  (target, r) ← envid2env envid false
  elim r [
    | err _ ↦ pure (err e_bad_env)
    | ok _ ↦ do
      e ← deref target
      k ← get
      if (k.envs e).env_ipc_recving
          then ipc_send_to target value srcva perm
          else pure (err e_ipc_not_recv)
  ]

-- What a receiver writes in its own environment before it gives up the CPU.
abbrev pub receiving : ℕ → Env → Env
receiving dstva env = record env {
  env_ipc_dstva = dstva;
  env_ipc_recving = true;
  env_status = not_runnable;
}

unfoldable pub sys_ipc_recv : (dstva : ℕ) → K Result
sys_ipc_recv dstva =
    if ltb dstva utop && not (dstva % pgsize == 0)
    then pure (err e_inval)
    else (do k ← get; change_env k.curenv (receiving dstva); sched_yield)
