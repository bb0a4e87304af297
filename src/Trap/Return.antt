-- ===== src/Trap/Return.antt =====
-- Where the CPU goes after a trap.
use comp530h.Base.{
  ℕ, ◌+◌, ◌%◌, ◌≡◌, Bool, true, false, Option, none, some, if◌then◌else◌, refl, ap, ◌∙◌,
  update_self, eq→==,
}
use comp530h.Kernel.{
  Kernel, Outcome, K, done, runs, halts, in_monitor, panics, and_then, Result, dying, running,
  same_status, Status,
}
use comp530h.Kernel.Env.{Env, Trapframe}
use comp530h.Sched.{env_run, run_current_or_halt, sched_halt, switch_to, sched_yield}
use comp530h.Dispatch.{syscall}
use comp530h.Trap.{
  UTrapframe, TfPointer, saved, read_tf, modify_tf, return_code, set_rax, t_syscall, irq_offset,
  irq_timer, trap_dispatch, call, resume, handle, from_user, from_user_at, resume_at, trap,
}

-- A frame that traps from user mode while `e` is current and alive.
pub record IsUserTrap (k : Kernel) (e : ℕ) (tf : Trapframe) : Type 0 where
  pub user : tf.tf_cs % 4 ≡ 3
  pub current : k.curenv ≡ some e
  pub alive : same_status (k.envs e).env_status dying ≡ false

abbrev pub save_frame : ℕ → Trapframe → Kernel → Kernel
save_frame e tf k = modify_tf (saved e) (λ _. tf) k

pub read_saved : (k : Kernel) (e : ℕ) (tf : Trapframe) → read_tf (saved e) (save_frame e tf k) ≡ tf
read_saved k e tf =
    ap (λ (v : Env). v.env_tf) (update_self k.envs e (record (k.envs e) { env_tf = tf }))

-- Nothing comes back from `env_run` and `sched_yield`.
module _ {A : Type 0} (f : Unit {0} → K A) where
  choice_ends :
      (b : Bool) (e : ℕ) (k : Kernel)
      → and_then (if b then runs e k else panics) f ≡ (if b then runs e k else panics)
  choice_ends true e k = refl
  choice_ends false e k = refl

  pub run_ends : (e : ℕ) (k : Kernel) → and_then (env_run e k) f ≡ env_run e k
  unfolding env_run
  run_ends e k = choice_ends _ e _

  halt_choice_ends :
      (b : Bool) (k h : Kernel)
      → and_then (if b then halts h else in_monitor k) f ≡ (if b then halts h else in_monitor k)
  halt_choice_ends true k h = refl
  halt_choice_ends false k h = refl

  halt_ends : (k : Kernel) → and_then (sched_halt k) f ≡ sched_halt k
  unfolding sched_halt
  halt_ends k = halt_choice_ends _ k _

  run_choice_ends :
      (b : Bool) (e : ℕ) (k : Kernel)
      → and_then (if b then env_run e k else sched_halt k) f
        ≡ (if b then env_run e k else sched_halt k)
  run_choice_ends true e k = run_ends e k
  run_choice_ends false e k = halt_ends k

  current_ends :
      (c : Option ℕ) (k : Kernel) → and_then (run_current_or_halt c k) f ≡ run_current_or_halt c k
  unfolding run_current_or_halt
  current_ends none k = halt_ends k
  current_ends (some c) k = run_choice_ends _ c k

  switch_ends : (o : Option ℕ) (k : Kernel) → and_then (switch_to o k) f ≡ switch_to o k
  unfolding switch_to
  switch_ends none k = current_ends k.curenv k
  switch_ends (some e) k = run_ends e k

  yield_ends : (k : Kernel) → and_then (sched_yield k) f ≡ sched_yield k
  unfolding sched_yield
  yield_ends k = switch_ends _ k

module _ (rcr2 : ℕ) (store_utf : ℕ → UTrapframe → K (Unit {0})) (cons_getc : K ℕ)
    (monitor : TfPointer → K (Unit {0})) where
  pub trap-handle :
      {A : Type 0} (k : Kernel) (e : ℕ) (tf : Trapframe)
      → IsUserTrap k e tf
      → trap rcr2 store_utf cons_getc monitor {A = A} false false tf k
        ≡ handle rcr2 store_utf cons_getc monitor (saved e) (save_frame e tf k)
  unfolding trap from_user_at from_user
  trap-handle k e tf h =
      rw (trap, eq→== (tf.tf_cs % 4) 3 h.user)
        (ap (λ (c : Option ℕ). from_user_at rcr2 store_utf cons_getc monitor c tf k) h.current
          ∙ rw (from_user, h.alive) refl)

  resume_running :
      {A : Type 0} (k : Kernel) (e : ℕ)
      → k.curenv ≡ some e
      → (k.envs e).env_status ≡ running
      → resume rcr2 store_utf cons_getc monitor {A = A} k ≡ env_run e k
  unfolding resume
  resume_running k e c s =
      ap (λ (o : Option ℕ). resume_at rcr2 store_utf cons_getc monitor o k) c
      ∙ ap (λ (s : Status). if same_status s running then env_run e k else sched_yield k) s

  call_done :
      (k k' : Kernel) (p : TfPointer) (tf : Trapframe) (r : Result)
      → read_tf p k ≡ tf
      → syscall cons_getc tf.tf_regs.reg_rax tf.tf_regs.reg_rdx tf.tf_regs.reg_rcx
          tf.tf_regs.reg_rbx tf.tf_regs.reg_rdi tf.tf_regs.reg_rsi k
        ≡ done r k'
      → call rcr2 store_utf cons_getc monitor p k
        ≡ done tt (modify_tf p (set_rax (return_code r)) k')
  unfolding call
  call_done k k' p tf r e run = rw (call, e, run) refl

  dispatch_call :
      (k : Kernel) (p : TfPointer)
      → (read_tf p k).tf_trapno ≡ t_syscall
      → trap_dispatch rcr2 store_utf cons_getc monitor p k
        ≡ call rcr2 store_utf cons_getc monitor p k
  unfolding trap_dispatch
  dispatch_call k p e = rw (trap_dispatch, e) refl

  dispatch_timer :
      (k : Kernel) (p : TfPointer)
      → (read_tf p k).tf_trapno ≡ irq_offset + irq_timer
      → trap_dispatch rcr2 store_utf cons_getc monitor p k ≡ sched_yield k
  unfolding trap_dispatch
  dispatch_timer k p e = rw (trap_dispatch, e) refl

  -- A clock interrupt from user mode, with interrupts disabled and no panic, while the current
  -- environment is not dying, saves the frame in the environment and then does what sched_yield
  -- does.
  pub trap-timer :
      {A : Type 0} (k : Kernel) (e : ℕ) (tf : Trapframe)
      → IsUserTrap k e tf
      → tf.tf_trapno ≡ irq_offset + irq_timer
      → trap rcr2 store_utf cons_getc monitor {A = A} false false tf k
        ≡ sched_yield (save_frame e tf k)
  unfolding handle sched_yield
  trap-timer k e tf h t =
      trap-handle k e tf h
      ∙ (ap (λ (o : Outcome (Unit {0})). and_then o (λ _. resume rcr2 store_utf cons_getc monitor))
            (dispatch_timer (save_frame e tf k) (saved e)
              (ap (λ (f : Trapframe). f.tf_trapno) (read_saved k e tf) ∙ t))
          ∙ yield_ends _ (save_frame e tf k))

  -- A trap with the number of a system call from user mode, with interrupts disabled and no panic,
  -- while the current environment is not dying, saves the frame, calls syscall on the five argument
  -- registers, and, if that returns with the environment still current and running, runs it with
  -- the result in the saved %rax.
  pub trap-syscall :
      {A : Type 0} (k k' : Kernel) (e : ℕ) (tf : Trapframe) (r : Result)
      → IsUserTrap k e tf
      → tf.tf_trapno ≡ t_syscall
      → syscall cons_getc tf.tf_regs.reg_rax tf.tf_regs.reg_rdx tf.tf_regs.reg_rcx
          tf.tf_regs.reg_rbx tf.tf_regs.reg_rdi tf.tf_regs.reg_rsi
          (save_frame e tf k)
        ≡ done r k'
      → k'.curenv ≡ some e
      → (k'.envs e).env_status ≡ running
      → trap rcr2 store_utf cons_getc monitor {A = A} false false tf k
        ≡ env_run e (modify_tf (saved e) (set_rax (return_code r)) k')
  unfolding handle env_run
  trap-syscall k k' e tf r h t run c s =
      let back : Kernel = modify_tf (saved e) (set_rax (return_code r)) k' in
      trap-handle k e tf h
      ∙ (ap (λ (o : Outcome (Unit {0})). and_then o (λ _. resume rcr2 store_utf cons_getc monitor))
            (dispatch_call (save_frame e tf k) (saved e)
                (ap (λ (f : Trapframe). f.tf_trapno) (read_saved k e tf) ∙ t)
              ∙ call_done (save_frame e tf k) k' (saved e) tf r (read_saved k e tf) run)
          ∙ resume_running back e c (
              ap (λ (v : Env). v.env_status)
                (update_self k'.envs e
                  (record (k'.envs e) { env_tf = set_rax (return_code r) (k'.envs e).env_tf }))
              ∙ s))
