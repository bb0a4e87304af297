-- ===== src/Tests/Traps.antt =====
-- Traps at the sample, with an upcall and a page for the exception stack in slot 0.
use comp530h.Base.{ℕ, ◌+◌, ◌*◌, ◌≡◌, refl, inl, inr, false, ◌==◌, ◌&&◌, if◌then◌else◌, arith}
use comp530h.Layout.{flag, round_up, round_down}
use comp530h.Kernel.{Kernel, done, ok, pure, kaddr}
use comp530h.Kernel.Env.{Trapframe}
use comp530h.Table.{
  open_entry, user_mem_check, user_mem_pages, check_entry, pml4e_walk, pdpe_walk, pgdir_walk,
}
use comp530h.Envs.{new_tf}
use comp530h.Sched.{env_run}
use comp530h.Syscall.{sys_getenvid}
use comp530h.Dispatch.{syscall}
use comp530h.Trap.{saved, modify_tf, set_rax, trap}
use comp530h.Trap.Return.{IsUserTrap, save_frame, trap-syscall}
use comp530h.Trap.Upcall.{at_check, at_upcall, trap-fault}
use comp530h.Table.Route.{opened}
use comp530h.Tests.Sample.{sample, slots}

-- A call of sys_getenvid
abbrev call_tf : Trapframe
call_tf = record new_tf { tf_trapno = 48; tf_regs = record new_tf.tf_regs { reg_rax = 2 } }

call_tf-IsUserTrap : IsUserTrap sample 0 call_tf
call_tf-IsUserTrap = record { user = refl; current = refl; alive = refl }

own_id :
    syscall (pure 0) 2 0 0 0 0 0 (save_frame 0 call_tf sample)
    ≡ done (ok 4096) (save_frame 0 call_tf sample)
unfolding syscall sys_getenvid
own_id = refl

trap-syscall_example :
    trap 0 (λ _ _ k. done tt k) (pure 0) (λ _. pure tt) {A = Unit {0}} false false call_tf sample
    ≡ env_run 0 (modify_tf (saved 0) (set_rax 4096) (save_frame 0 call_tf sample))
trap-syscall_example =
    trap-syscall 0 (λ _ _ k. done tt k) (pure 0) (λ _. pure tt) sample (save_frame 0 call_tf sample)
      0 call_tf (ok 4096) call_tf-IsUserTrap refl own_id refl refl

-- The page below UXSTACKTOP is page 5, for the user to write.
abbrev stack_memory : ℕ → ℕ → ℕ
stack_memory t i =
    if (t == 1) && (i == 0)
    then 2 * 4096 + 7
    else if (t == 2) && (i == 0)
    then 3 * 4096 + 7
    else if (t == 2) && (i == 3)
    then 3 * 4096 + 7
    else if (t == 3) && (i == 379)
    then 4 * 4096 + 7
    else if (t == 4) && (i == 511)
    then 5 * 4096 + 7
    else 0

abbrev handling : Kernel
handling = record sample {
  mem = stack_memory;
  envs = λ e. if e == 0 then record (slots 0) { env_pgfault_upcall = 0x800020 } else slots e;
}

abbrev fault_tf : Trapframe
fault_tf = record new_tf { tf_trapno = 14; tf_err = 6 }

fault_tf-IsUserTrap : IsUserTrap handling 0 fault_tf
fault_tf-IsUserTrap = record { user = refl; current = refl; alive = refl }

-- The walk sets the flags of the second-level entry again.
abbrev checked : Kernel
checked = opened 2 3 (at_check 0 0xef800000 fault_tf handling)

stack_ok :
    user_mem_check
      ((at_check 0 0xef800000 fault_tf handling).envs 0)
      0xef7fff60
      1
      6
      (at_check 0 0xef800000 fault_tf handling)
    ≡ done (ok 0) checked
unfolding user_mem_check user_mem_pages check_entry pml4e_walk pdpe_walk pgdir_walk kaddr flag
    round_up round_down open_entry
stack_ok = refl

trap-fault_example :
    trap 0x5000
      (λ _ _ k. done tt k)
      (pure 0)
      (λ _. pure tt)
      {A = Unit {0}}
      false
      false
      fault_tf
      handling
    ≡ env_run 0 (at_upcall 0 0xef7fff60 checked)
trap-fault_example =
    trap-fault 0x5000 (λ _ _ k. done tt k) (pure 0) (λ _. pure tt) handling checked checked 0 0
      0xef800000 fault_tf fault_tf-IsUserTrap refl (omega arith) (inr (inl (omega arith), refl))
      stack_ok refl
