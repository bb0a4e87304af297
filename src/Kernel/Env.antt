-- ===== src/Kernel/Env.antt =====
-- `struct Env` of inc/env.h, with the saved registers of inc/trap.h, and the codes of inc/error.h.
use comp530h.Base.{ℕ, Bool, true, false, Option}

-- inc/error.h, the codes that the modelled calls return.
pub data Error : Type 0 where
  e_bad_env e_inval e_no_mem e_no_free_env e_fault e_no_sys e_ipc_not_recv : Error

-- An `int` result: a value that is not negative, or a negated code.
pub data Result : Type 0 where
  ok : ℕ → Result
  err : Error → Result

pub data Status : Type 0 where
  free dying runnable running not_runnable : Status

abbrev pub same_status : Status → Status → Bool
same_status free free = true
same_status dying dying = true
same_status runnable runnable = true
same_status running running = true
same_status not_runnable not_runnable = true
same_status _ _ = false

pub data EnvType : Type 0 where
  user_type : EnvType

pub record PushRegs : Type 0 where
  pub reg_r15 : ℕ
  pub reg_r14 : ℕ
  pub reg_r13 : ℕ
  pub reg_r12 : ℕ
  pub reg_r11 : ℕ
  pub reg_r10 : ℕ
  pub reg_r9 : ℕ
  pub reg_r8 : ℕ
  pub reg_rsi : ℕ
  pub reg_rdi : ℕ
  pub reg_rbp : ℕ
  pub reg_rdx : ℕ
  pub reg_rcx : ℕ
  pub reg_rbx : ℕ
  pub reg_rax : ℕ

-- `struct Trapframe`, less its padding.
pub record Trapframe : Type 0 where
  pub tf_regs : PushRegs
  pub tf_es : ℕ
  pub tf_ds : ℕ
  pub tf_trapno : ℕ
  pub tf_err : ℕ
  pub tf_rip : ℕ
  pub tf_cs : ℕ
  pub tf_eflags : ℕ
  pub tf_rsp : ℕ
  pub tf_ss : ℕ

-- An `envid_t` is its 32-bit pattern. `env_pml4e` is the frame of the page map, none after
-- `env_free`. The `elf` pointer serves the debugger alone and is left out.
pub record Env : Type 0 where
  pub env_tf : Trapframe
  pub env_link : Option ℕ
  pub env_id : ℕ
  pub env_parent_id : ℕ
  pub env_type : EnvType
  pub env_status : Status
  pub env_runs : ℕ
  pub env_cpunum : ℕ
  pub env_pml4e : Option ℕ
  pub env_cr3 : ℕ
  pub env_pgfault_upcall : ℕ
  pub env_ipc_recving : Bool
  pub env_ipc_dstva : ℕ
  pub env_ipc_value : ℕ
  pub env_ipc_from : ℕ
  pub env_ipc_perm : ℕ
