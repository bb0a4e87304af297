-- ===== src/Envs.antt =====
-- kern/env.c and kern/sched.c: environments, their allocation, and which one runs. An environment is
-- its index in `envs`.
pub mod Load
pub mod Ids
pub mod Alloc
pub mod Init
use comp530h.Base.{
  ℕ, zero, suc, ◌+◌, ◌*◌, ◌/◌, ◌%◌, ◌^◌, Bool, false, ◌||◌, ◌&&◌, not, Option, none, some, leb,
  ◌==◌, if◌then◌else◌, bit_or,
}
use comp530h.Layout.{ppn, pte_p, pte_u, pml4_index, uvpt, ustacktop}
use comp530h.Kernel.{
  Kernel, K, done, pure, ◌>>=◌, ◌>>◌, get, deref, store, set_env, kaddr, Result, ok, err, e_bad_env,
  e_no_free_env, e_no_mem, free, runnable, same_status, user_type, Trapframe, PushRegs,
}
use comp530h.Kernel.Env.{Env}
use comp530h.Alloc.{page2pa, page_alloc, alloc_zero, incref}

abbrev pub nenv : ℕ
nenv = 1024

-- ENVX(envid), the index part of an id
abbrev pub envx : ℕ → ℕ
envx envid = envid % 1024

-- `e == curenv`
abbrev pub is_cur : ℕ → Option ℕ → Bool
is_cur e none = false
is_cur e (some c) = e == c

-- What is stored through `env_store`, and the return value.
unfoldable pub envid2env : ℕ → Bool → K (Option ℕ × Result)
envid2env envid checkperm k =
    let e = envx envid in
    if envid == 0
    then done (k.curenv, ok 0) k
    else if same_status (k.envs e).env_status free || not ((k.envs e).env_id == envid)
    then done (none, err e_bad_env) k
    else if checkperm && not (is_cur e k.curenv)
    then (do
      cur ← deref k.curenv
      pure (
          if (k.envs e).env_parent_id == (k.envs cur).env_id
          then (some e, ok 0)
          else (none, err e_bad_env)))
        k
    else done (some e, ok 0) k

-- One round of the loop, at slot `i`.
abbrev pub env_init_slot : ℕ → Kernel → Kernel
env_init_slot i k =
    record (set_env i
      (record (k.envs i) { env_link = k.env_free_list; env_id = 0; env_status = free }) k) {
        env_free_list = some i;
      }

-- The slots below `n`, from the last one down.
unfoldable pub env_init_loop : ℕ → Kernel → Kernel
env_init_loop zero k = k
env_init_loop (suc i) k = env_init_loop i (env_init_slot i k)

-- `env_init_percpu`, which loads segment registers, is left out.
unfoldable pub env_init : K (Unit {0})
env_init k = done tt (env_init_loop nenv (record k { env_free_list = none }))

unfoldable pub env_setup_vm : ℕ → K Result
env_setup_vm e = do
  page ← page_alloc alloc_zero
  elim page [
    | none ↦ pure (err e_no_mem)
    | some p ↦ do
      incref p
      kva ← kaddr (page2pa p)
      (λ k.
          done tt
            (set_env e (record (k.envs e) { env_pml4e = some (ppn kva); env_cr3 = page2pa p }) k))
      k ← get
      store (record { table = ppn kva; index = 1 }) (k.mem k.boot_pml4e 1)
      store (record { table = ppn kva; index = pml4_index uvpt })
          (bit_or (bit_or (page2pa p) pte_p) pte_u)
      pure (ok 0)
  ]

-- The next id of a slot: the `int32_t` sum with its low ten bits cleared, which must be positive, and
-- the slot's index.
unfoldable pub next_env_id : (old e : ℕ) → ℕ
next_env_id old e =
    let generation = (old + 4096) % 2 ^ 32 / 1024 * 1024 in
    bit_or (if (generation == 0) || leb (2 ^ 31) generation then 4096 else generation) e

abbrev pub zero_regs : PushRegs
zero_regs = record {
  reg_r15 = 0;
  reg_r14 = 0;
  reg_r13 = 0;
  reg_r12 = 0;
  reg_r11 = 0;
  reg_r10 = 0;
  reg_r9 = 0;
  reg_r8 = 0;
  reg_rsi = 0;
  reg_rdi = 0;
  reg_rbp = 0;
  reg_rdx = 0;
  reg_rcx = 0;
  reg_rbx = 0;
  reg_rax = 0;
}

-- The registers of a new environment: GD_UD | 3, GD_UT | 3, the stack's top, and FL_IF set.
abbrev pub new_tf : Trapframe
new_tf = record {
  tf_regs = zero_regs;
  tf_es = 0x23;
  tf_ds = 0x23;
  tf_trapno = 0;
  tf_err = 0;
  tf_rip = 0;
  tf_cs = 0x1b;
  tf_eflags = 0x200;
  tf_rsp = ustacktop;
  tf_ss = 0x23;
}

-- The fields that `env_alloc` sets in the slot `e`.
unfoldable pub fresh_env : (e parent_id : ℕ) → Env → Env
fresh_env e parent_id old = record old {
  env_tf = new_tf;
  env_id = next_env_id old.env_id e;
  env_parent_id = parent_id;
  env_type = user_type;
  env_status = runnable;
  env_runs = 0;
  env_pgfault_upcall = 0;
  env_ipc_recving = false;
}

-- The return value, and what is stored through `newenv_store`.
unfoldable pub env_alloc : (parent_id : ℕ) → K (Result × Option ℕ)
env_alloc parent_id = do
  k ← get
  elim k.env_free_list [
    | none ↦ pure (err e_no_free_env, none)
    | some e ↦ do
      r ← env_setup_vm e
      elim r [
        | err c ↦ pure (err c, none)
        | ok _ ↦ λ k.
            done (ok 0, some e)
              (record (set_env e (fresh_env e parent_id (k.envs e)) k) {
                env_free_list = (k.envs e).env_link;
              })
      ]
  ]
