-- ===== src/Trap/Upcall.antt =====
-- A page fault in user mode: the upcall, or the end of the environment.
use comp530h.Base.{
  ℕ, ◌-◌, ◌%◌, ◌≡◌, ◌≢◌, false, not, Option, some, ◌==◌, if◌then◌else◌, refl, ap, ◌∙◌, arith,
  update, update_self, ne→==, ◌≤◌, ◌<◌, ◌⊎◌, sym,
}
use mathlib.Core.Path.{subst}
use comp530h.Kernel.Keeps.{Keeps, by_done, by_panic, by_fault}
use comp530h.Table.{user_mem_check}
use comp530h.Table.Keeps.{user_mem_check-Keeps}
use comp530h.Kernel.{Kernel, Outcome, K, ok, err, pure, done, and_then, deref}
use comp530h.Kernel.Env.{Env, Trapframe}
use comp530h.Sched.{env_run}
use comp530h.Reap.{user_mem_assert, env_destroy}
use comp530h.Trap.{
  UTrapframe, TfPointer, saved, read_tf, modify_tf, set_rsp, t_pgflt, frame_top, fault_frame,
  sizeof_utrapframe, enter_upcall, push_frame, page_fault_handler, trap_dispatch, resume, handle,
  trap,
}
use comp530h.Trap.Return.{IsUserTrap, save_frame, read_saved, run_ends, trap-handle}

-- The top of the new frame: a free word below the trap-time %rsp where that is in the page of the
-- exception stack, and else the top of that stack.
abbrev pub IsFrameTop : (rsp top : ℕ) → Type 0
IsFrameTop rsp top =
    ((0xef7ff000 ≤ rsp) × (rsp < 0xef800000) × (top ≡ rsp - 8))
    ⊎ ((rsp < 0xef7ff000) ⊎ (0xef800000 ≤ rsp)) × (top ≡ 0xef800000)

frame_top_lem : (rsp top : ℕ) → IsFrameTop rsp top → frame_top rsp ≡ top
frame_top_lem rsp top h = ground arith

-- The frame that is stored: the fault's address and error code, and the registers of the trap.
abbrev pub stored_frame : (fault_va : ℕ) → Trapframe → UTrapframe
stored_frame fault_va tf = record {
  utf_fault_va = fault_va;
  utf_err = tf.tf_err;
  utf_regs = tf.tf_regs;
  utf_rip = tf.tf_rip;
  utf_eflags = tf.tf_eflags;
  utf_rsp = tf.tf_rsp;
}

-- The state when the exception stack is checked.
abbrev pub at_check : (e top : ℕ) → Trapframe → Kernel → Kernel
at_check e top tf k = modify_tf (saved e) (set_rsp top) (save_frame e tf k)

-- Environment `e` at its upcall, with %rsp at `rsp`
abbrev pub at_upcall : (e rsp : ℕ) → Kernel → Kernel
at_upcall e rsp k = record k {
  envs = update k.envs e (record (k.envs e) {
    env_tf = record (k.envs e).env_tf { tf_rip = (k.envs e).env_pgfault_upcall; tf_rsp = rsp };
  });
}

assert_done :
    (e va : ℕ) (v : ℕ) (k k1 : Kernel)
    → user_mem_check (k.envs e) va 1 6 k ≡ done (ok v) k1
    → user_mem_assert e va 1 2 k ≡ done tt k1
unfolding user_mem_assert
assert_done e va v k k1 h =
    ap (λ o. and_then o λ r. elim r [ ok _ ↦ pure tt | err _ ↦ env_destroy e ]) h

Keeps-envs :
    {A : Type 0} {a : A} {k0 k1 : Kernel} (o : Outcome A)
    → o ≡ done a k1
    → Keeps k0 o
    → k1.envs ≡ k0.envs
Keeps-envs {k1 = k1} _ e (by_done h) = ap envs_of (sym e) ∙ h.0
  where
    envs_of : {A : Type 0} → Outcome A → ℕ → Env
    envs_of (done a k) = k.envs
    envs_of _ = k1.envs
Keeps-envs _ e by_panic = absurd (cc e)
Keeps-envs _ e by_fault = absurd (cc e)

module _ (rcr2 : ℕ) (store_utf : ℕ → UTrapframe → K (Unit {0})) (cons_getc : K ℕ)
    (monitor : TfPointer → K (Unit {0})) where
  dispatch_fault :
      (k : Kernel) (p : TfPointer)
      → (read_tf p k).tf_trapno ≡ t_pgflt
      → trap_dispatch rcr2 store_utf cons_getc monitor p k ≡ page_fault_handler rcr2 store_utf p k
  unfolding trap_dispatch
  dispatch_fault k p e = rw (trap_dispatch, e) refl

  fault_upcall :
      (k : Kernel) (p : TfPointer) (e : ℕ)
      → ((read_tf p k).tf_cs % 4 == 0) ≡ false
      → k.curenv ≡ some e
      → ((k.envs e).env_pgfault_upcall == 0) ≡ false
      → page_fault_handler rcr2 store_utf p k ≡ push_frame rcr2 store_utf e p k
  unfolding page_fault_handler
  fault_upcall k p e u c n =
      rw (page_fault_handler, u)
        (ap
            (λ (o : Option ℕ). and_then (deref o k) (λ e'.
              if not ((k.envs e').env_pgfault_upcall == 0)
              then push_frame rcr2 store_utf e' p
              else env_destroy e'))
            c
          ∙ rw n refl)

  push_done :
      (k k1 k2 : Kernel) (p : TfPointer) (e rsp : ℕ)
      → (read_tf p k).tf_rsp ≡ rsp
      → user_mem_assert e
          (frame_top rsp - sizeof_utrapframe)
          1
          2
          (modify_tf p (set_rsp (frame_top rsp)) k)
        ≡ done tt k1
      → store_utf (frame_top rsp - sizeof_utrapframe) (fault_frame rcr2 rsp (read_tf p k1)) k1
        ≡ done tt k2
      → push_frame rcr2 store_utf e p k
        ≡ env_run e (enter_upcall e (frame_top rsp - sizeof_utrapframe) k2)
  unfolding push_frame
  push_done k k1 k2 p e rsp r fine st = rw (push_frame, r, fine, st) refl

  saved_frame :
      (k k1 : Kernel) (e v top va : ℕ) (tf : Trapframe)
      → user_mem_check ((at_check e top tf k).envs e) va 1 6 (at_check e top tf k) ≡ done (ok v) k1
      → fault_frame rcr2 tf.tf_rsp (k1.envs e).env_tf ≡ stored_frame rcr2 tf
  saved_frame k k1 e v top va tf h =
      let s = save_frame e tf k in
      let c = at_check e top tf k in
      let same : k1.envs ≡ (at_check e top tf k).envs =
        Keeps-envs {k0 = c} _ h
          (user_mem_check-Keeps (c.envs e) va 1 6 {k0 = c} c (refl, refl, refl, refl, refl)) in
      ap (λ f. fault_frame rcr2 tf.tf_rsp (f e).env_tf) same
      ∙ ap (λ (v : Env). fault_frame rcr2 tf.tf_rsp v.env_tf)
          (update_self s.envs e (record (s.envs e) { env_tf = set_rsp top (s.envs e).env_tf }))
      ∙ ap (λ f. fault_frame rcr2 tf.tf_rsp (set_rsp top f)) (read_saved k e tf)

  fault_at :
      {A : Type 0} (k k1 k2 : Kernel) (e : ℕ) (tf : Trapframe)
      → IsUserTrap k e tf
      → tf.tf_trapno ≡ t_pgflt
      → (k.envs e).env_pgfault_upcall ≢ 0
      → user_mem_assert e (frame_top tf.tf_rsp - 160) 1 2 (at_check e (frame_top tf.tf_rsp) tf k)
        ≡ done tt k1
      → store_utf (frame_top tf.tf_rsp - 160) (fault_frame rcr2 tf.tf_rsp (k1.envs e).env_tf) k1
        ≡ done tt k2
      → trap rcr2 store_utf cons_getc monitor {A = A} false false tf k
        ≡ env_run e (at_upcall e (frame_top tf.tf_rsp - 160) k2)
  unfolding handle
  fault_at k k1 k2 e tf h t up fine st =
      let s : Kernel = save_frame e tf k in
      let frame : read_tf (saved e) s ≡ tf = read_saved k e tf in
      let user : ((read_tf (saved e) s).tf_cs % 4 == 0) ≡ false =
        ap (λ (f : Trapframe). f.tf_cs % 4 == 0) frame
        ∙ ne→== (tf.tf_cs % 4) 0 (omega (arith, h.user)) in
      let upcall : ((s.envs e).env_pgfault_upcall == 0) ≡ false =
        ap (λ (v : Env). v.env_pgfault_upcall == 0)
          (update_self k.envs e (record (k.envs e) { env_tf = tf }))
        ∙ ne→== (k.envs e).env_pgfault_upcall 0 up in
      trap-handle rcr2 store_utf cons_getc monitor k e tf h
      ∙ (ap (λ (o : Outcome (Unit {0})). and_then o (λ _. resume rcr2 store_utf cons_getc monitor))
            (dispatch_fault s (saved e) (ap (λ (f : Trapframe). f.tf_trapno) frame ∙ t)
              ∙ (fault_upcall s (saved e) e user h.current upcall
                  ∙ push_done s k1 k2 (saved e) e tf.tf_rsp (ap (λ (f : Trapframe). f.tf_rsp) frame)
                      fine st))
          ∙ run_ends _ e (at_upcall e (frame_top tf.tf_rsp - 160) k2))

  -- A page fault from user mode, with interrupts disabled and no panic, while the current
  -- environment is not dying and has an upcall: if user_mem_check finds the new frame's address writable
  -- for the environment and the frame is stored, the environment runs at its upcall with %rsp at the
  -- new frame. The frame is 160 bytes, and its top is UXSTACKTOP, 0xef800000, or, where the trap-time %rsp was
  -- in the page below that, a word of 8 bytes below this %rsp. It holds the fault's address, the error
  -- code and the general registers, %rip, the flags and %rsp as they were at the trap.
  pub trap-fault :
      {A : Type 0} (k k1 k2 : Kernel) (e v top : ℕ) (tf : Trapframe)
      → IsUserTrap k e tf
      → tf.tf_trapno ≡ t_pgflt
      → (k.envs e).env_pgfault_upcall ≢ 0
      → IsFrameTop tf.tf_rsp top
      → user_mem_check ((at_check e top tf k).envs e) (top - 160) 1 6 (at_check e top tf k)
        ≡ done (ok v) k1
      → store_utf (top - 160) (stored_frame rcr2 tf) k1 ≡ done tt k2
      → trap rcr2 store_utf cons_getc monitor {A = A} false false tf k
        ≡ env_run e (at_upcall e (top - 160) k2)
  trap-fault {A} k k1 k2 e v top tf h t up at checked st =
      subst
        (λ x.
          user_mem_assert e (x - 160) 1 2 (at_check e x tf k) ≡ done tt k1
          → store_utf (x - 160) (fault_frame rcr2 tf.tf_rsp (k1.envs e).env_tf) k1 ≡ done tt k2
          → trap rcr2 store_utf cons_getc monitor {A = A} false false tf k
            ≡ env_run e (at_upcall e (x - 160) k2))
        (frame_top_lem tf.tf_rsp top at) (fault_at k k1 k2 e tf h t up)
        (assert_done e (top - 160) v (at_check e top tf k) k1 checked)
        (ap (λ f. store_utf (top - 160) f k1) (saved_frame k k1 e v top (top - 160) tf checked)
          ∙ st)
