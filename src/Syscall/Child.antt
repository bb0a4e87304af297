-- ===== src/Syscall/Child.antt =====
-- `sys_exofork`: the child that it makes.
use comp530h.Base.{ℕ, ◌≡◌, ◌≢◌, refl, ap, ◌∙◌, some, List, ◌∷◌, arith, ne→==, ==_self}
use comp530h.Kernel.{Kernel, done, ok, not_runnable, set_env}
use comp530h.Kernel.Env.{Env, Trapframe}
use comp530h.Alloc.Chain.{IsFree}
use comp530h.Envs.{next_env_id, env_alloc}
use comp530h.Envs.Alloc.{env_alloc_lem}
use comp530h.Syscall.{sys_exofork, returns}

-- The saved registers of the parent, but 0 in %rax.
abbrev pub child_tf : Trapframe → Trapframe
child_tf tf = record tf { tf_regs = record (tf.tf_regs) { reg_rax = 0 } }

abbrev made : Kernel → (c e : ℕ) → Kernel
made k1 c e =
    set_env e
      (returns 0 (record (k1.envs e) { env_status = not_runnable; env_tf = (k1.envs c).env_tf })) k1

sys_exofork-made :
    (k k1 : Kernel) (c e : ℕ)
    → k.curenv ≡ some c
    → env_alloc (k.envs c).env_id k ≡ done (ok 0, some e) k1
    → sys_exofork k ≡ done (ok (k1.envs e).env_id) (made k1 c e)
unfolding sys_exofork
sys_exofork-made k k1 c e cur run = ground (arith, cur, run)

-- With a current environment, another slot free, a well-formed free list that is not empty, and
-- another frame as the page map of the kernel, sys_exofork returns the id of the new environment.
-- It is not runnable, has the caller as its parent, the first free page as its page map and the
-- registers of the caller with the result 0; the slot of the caller stays as it is.
pub sys_exofork-child :
    (k : Kernel) (c e p : ℕ) (xs : List ℕ)
    → k.curenv ≡ some c
    → c ≢ e
    → k.env_free_list ≡ some e
    → IsFree k (p ∷ xs)
    → k.boot_pml4e ≢ p
    → (k' : Kernel) × (sys_exofork k ≡ done (ok (next_env_id (k.envs e).env_id e)) k')
      × ((k'.envs e).env_id ≡ next_env_id (k.envs e).env_id e)
      × ((k'.envs e).env_status ≡ not_runnable)
      × ((k'.envs e).env_parent_id ≡ (k.envs c).env_id)
      × ((k'.envs e).env_tf ≡ child_tf (k.envs c).env_tf)
      × ((k'.envs e).env_pml4e ≡ some p)
      × (k'.envs c ≡ k.envs c)
sys_exofork-child k c e p xs cur ne slot v apart =
    let (k1, run, _, _, _, fresh, _, others) =
      env_alloc_lem k (k.envs c).env_id e p xs slot v apart in
    (
      made k1 c e,
      sys_exofork-made k k1 c e cur run ∙ ap (λ i. done (ok i) (made k1 c e)) fresh.2,
      rw (==_self e) fresh.2,
      rw (==_self e) refl,
      rw (==_self e) fresh.3,
      rw (==_self e) (ap (λ (v : Env). child_tf v.env_tf) (others c ne)),
      rw (==_self e) fresh.0,
      rw (ne→== c e ne) (others c ne),
    )
