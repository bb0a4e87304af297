-- ===== src/Trap.antt =====
-- kern/trap.c: `trap`, `trap_dispatch` and `page_fault_handler`.
--
-- The processor's store of a frame through the page tables, the register %cr2 and the kernel monitor are
-- parameters. The lock, the prints and the acknowledgement of an interrupt do not touch the modelled state.
pub mod Gates
pub mod Return
pub mod Upcall
use comp530h.Base.{
  ℕ, ◌+◌, ◌-◌, ◌%◌, ◌^◌, ◌&&◌, Bool, not, Option, none, some, ◌==◌, leb, if◌then◌else◌,
}
use comp530h.Layout.{pgsize, uxstacktop}
use comp530h.Kernel.{
  Kernel, Outcome, K, done, pure, ◌>>=◌, ◌>>◌, and_then, when, panic, panics, halts, get, deref,
  set_env, Result, ok, err, Error, e_bad_env, e_inval, e_no_mem, e_no_free_env, e_fault, e_no_sys,
  e_ipc_not_recv, dying, running, same_status,
}
use comp530h.Kernel.Env.{Trapframe, PushRegs}
use comp530h.Sched.{env_run, sched_yield}
use comp530h.Reap.{env_free, env_destroy, user_mem_assert}
use comp530h.Dispatch.{syscall}

-- inc/trap.h
abbrev pub t_brkpt : ℕ
t_brkpt = 3

abbrev pub t_pgflt : ℕ
t_pgflt = 14

abbrev pub t_syscall : ℕ
t_syscall = 48

abbrev pub irq_offset : ℕ
irq_offset = 32

abbrev pub irq_timer : ℕ
irq_timer = 0

abbrev pub irq_spurious : ℕ
irq_spurious = 7

abbrev pub gd_kt : ℕ
gd_kt = 8

-- `struct UTrapframe`, 20 words of 8 bytes.
pub record UTrapframe : Type 0 where
  pub utf_fault_va : ℕ
  pub utf_err : ℕ
  pub utf_regs : PushRegs
  pub utf_rip : ℕ
  pub utf_eflags : ℕ
  pub utf_rsp : ℕ

abbrev pub sizeof_utrapframe : ℕ
sizeof_utrapframe = 160

-- What a `struct Trapframe *` points to: an environment's `env_tf`, or a frame on the kernel stack.
pub data TfPointer : Type 0 where
  saved : ℕ → TfPointer
  stacked : Trapframe → TfPointer

abbrev pub read_tf : TfPointer → Kernel → Trapframe
read_tf (saved e) k = (k.envs e).env_tf
read_tf (stacked tf) k = tf

-- A write through the pointer. Nothing reads a frame on the kernel stack after it.
abbrev pub modify_tf : TfPointer → (Trapframe → Trapframe) → Kernel → Kernel
modify_tf (saved e) f k = set_env e (record (k.envs e) { env_tf = f (k.envs e).env_tf }) k
modify_tf (stacked tf) f k = k

-- inc/error.h
abbrev pub error_number : Error → ℕ
error_number e_bad_env = 2
error_number e_inval = 3
error_number e_no_mem = 4
error_number e_no_free_env = 5
error_number e_fault = 6
error_number e_no_sys = 7
error_number e_ipc_not_recv = 8

-- The register %rax after a call, a 64-bit pattern.
abbrev pub return_code : Result → ℕ
return_code (ok v) = v
return_code (err e) = 2 ^ 64 - error_number e

abbrev pub set_rax : ℕ → Trapframe → Trapframe
set_rax v tf = record tf { tf_regs = record tf.tf_regs { reg_rax = v } }

abbrev pub set_rsp : ℕ → Trapframe → Trapframe
set_rsp v tf = record tf { tf_rsp = v }

-- Whether %rsp is on the user exception stack.
abbrev pub on_uxstack : ℕ → Bool
on_uxstack rsp = leb rsp (uxstacktop - 1) && leb (uxstacktop - pgsize) rsp

-- The top of the new frame: a word below the old stack pointer, or the top of the stack.
abbrev pub frame_top : ℕ → ℕ
frame_top rsp = if on_uxstack rsp then rsp - 8 else uxstacktop

abbrev pub fault_frame : (fault_va old_rsp : ℕ) → Trapframe → UTrapframe
fault_frame fault_va old_rsp tf = record {
  utf_fault_va = fault_va;
  utf_err = tf.tf_err;
  utf_regs = tf.tf_regs;
  utf_rip = tf.tf_rip;
  utf_eflags = tf.tf_eflags;
  utf_rsp = old_rsp;
}

-- `curenv` goes on at its upcall, on the new frame.
abbrev pub enter_upcall : (e new_rsp : ℕ) → Kernel → Kernel
enter_upcall e new_rsp k =
    set_env e
      (record (k.envs e) {
        env_tf = record (k.envs e).env_tf {
          tf_rip = (k.envs e).env_pgfault_upcall;
          tf_rsp = new_rsp;
        };
      })
      k

module _ (rcr2 : ℕ) (store_utf : ℕ → UTrapframe → K (Unit {0})) where
  -- The part of the handler for an environment `e` with an upcall.
  unfoldable pub push_frame : (e : ℕ) → TfPointer → K (Unit {0})
  push_frame e p = do
    k ← get
    let old_rsp = (read_tf p k).tf_rsp
    let new_rsp = frame_top old_rsp - sizeof_utrapframe
    (λ k. done tt (modify_tf p (set_rsp (frame_top old_rsp)) k))
    user_mem_assert e new_rsp 1 2
    k ← get
    store_utf new_rsp (fault_frame rcr2 old_rsp (read_tf p k))
    λ k. env_run e (enter_upcall e new_rsp k)

  unfoldable pub page_fault_handler : TfPointer → K (Unit {0})
  page_fault_handler p = do
    k ← get
    when ((read_tf p k).tf_cs % 4 == 0) panic
    e ← deref k.curenv
    if not ((k.envs e).env_pgfault_upcall == 0) then push_frame e p else env_destroy e

  module _ (cons_getc : K ℕ) (monitor : TfPointer → K (Unit {0})) where
    -- The end of `trap_dispatch`.
    unfoldable pub unexpected : TfPointer → K (Unit {0})
    unexpected p = do
      k ← get
      if (read_tf p k).tf_cs == gd_kt then panic else (do e ← deref k.curenv; env_destroy e)

    unfoldable pub call : TfPointer → K (Unit {0})
    call p = do
      k ← get
      let r = (read_tf p k).tf_regs
      v ← syscall cons_getc r.reg_rax r.reg_rdx r.reg_rcx r.reg_rbx r.reg_rdi r.reg_rsi
      λ k. done tt (modify_tf p (set_rax (return_code v)) k)

    -- The tests after that for a breakpoint read the same `tf_trapno`.
    unfoldable pub trap_dispatch : TfPointer → K (Unit {0})
    trap_dispatch p = do
      k ← get
      let n = (read_tf p k).tf_trapno
      if n == t_pgflt
          then page_fault_handler p
          else if n == t_brkpt
          then (do monitor p; unexpected p)
          else if n == t_syscall
          then call p
          else if n == irq_offset + irq_spurious
          then pure tt
          else if n == irq_offset + irq_timer
          then sched_yield
          else unexpected p

    -- Back to the environment that trapped, if it is still the one to run.
    abbrev pub resume_at : {A : Type 0} → Option ℕ → Kernel → Outcome A
    resume_at none k = sched_yield k
    resume_at (some e) k =
        if same_status (k.envs e).env_status running then env_run e k else sched_yield k

    unfoldable pub resume : {A : Type 0} → Kernel → Outcome A
    resume k = resume_at k.curenv k

    unfoldable pub handle : {A : Type 0} → TfPointer → Kernel → Outcome A
    handle p k = and_then (trap_dispatch p k) λ _. resume

    -- A trap from user mode, with the current environment `e`.
    unfoldable pub from_user : {A : Type 0} → ℕ → Trapframe → Kernel → Outcome A
    from_user e tf k =
        if same_status (k.envs e).env_status dying
        then and_then (env_free e k) (λ _ k. sched_yield (record k { curenv = none }))
        else handle (saved e) (modify_tf (saved e) (λ _. tf) k)

    -- assert(curenv)
    unfoldable pub from_user_at : {A : Type 0} → Option ℕ → Trapframe → Kernel → Outcome A
    from_user_at none tf k = panics
    from_user_at (some e) tf k = from_user e tf k

    -- `panicstr` tells that another CPU has called `panic`, `fl_if` that interrupts are enabled. The
    -- frame comes from the kernel's stack; the two low bits of %cs are the privilege level.
    unfoldable pub trap : {A : Type 0} → (panicstr fl_if : Bool) → Trapframe → Kernel → Outcome A
    trap panicstr fl_if tf k =
        if panicstr
        then halts k
        else if fl_if
        then panics
        else if tf.tf_cs % 4 == 3
        then from_user_at k.curenv tf k
        else handle (stacked tf) k
