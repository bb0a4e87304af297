-- ===== src/Envs/Load/Ready.antt =====
-- What env_create leaves.
use comp530h.Base.{
  ℕ, ◌+◌, ◌-◌, ◌*◌, not, ◌==◌, ◌≡◌, refl, sym, ap, ◌∙◌, Option, none, some, update, update_self,
  arith,
}
use comp530h.Layout.{pgsize, ustacktop}
use comp530h.Kernel.{
  Kernel, K, pure, ◌>>=◌, ◌>>◌, Result, err, e_no_mem, e_no_free_env, e_bad_env, e_inval, e_fault,
  e_no_sys, e_ipc_not_recv, panic, deref, runnable, set_env,
}
use comp530h.Kernel.Env.{Env, EnvType}
use comp530h.Kernel.Keeps.{by_panic, when-Keeps, bounded-Keeps}
use comp530h.Boot.{elf_magic}
use comp530h.Bytes.{Memory}
use comp530h.Mp.{read16, read32}
use comp530h.Envs.{fresh_env}
use comp530h.Envs.Load.{read64, change_env_at, load_icode, env_create}
use comp530h.Envs.Load.Keeps.{IsStore, AreBelowUtop, region_alloc-Keeps, load_segment-Keeps}
use comp530h.Kernel.Ends.{Ends, by_return, in_panic, in_fault, then-Ends, Keeps-Ends, Keeps-last}
use comp530h.Envs.Load.Given.{IsGiven, refused, fresh, env_alloc-Ends}

module _ (binary : Memory) where
  -- Environment `e` is ready to run the image, and %cr3 is the kernel's own page map.
  abbrev pub IsLoaded : (e : ℕ) → Kernel → Type 0
  IsLoaded e k =
      ((k.envs e).env_status ≡ runnable)
      × ((k.envs e).env_tf.tf_rip ≡ read64 binary 24)
      × ((k.envs e).env_tf.tf_rsp ≡ ustacktop)
      × (k.cr3 ≡ k.boot_pml4e * 4096)

  abbrev pub IsCreated : Unit {0} → Kernel → Type 0
  IsCreated _ k = (e : ℕ) × IsLoaded e k × ((k.envs e).env_parent_id ≡ 0)

  abbrev with_rip : Env → Env
  with_rip env = record env { env_tf = record (env.env_tf) { tf_rip = read64 binary 24 } }

module _ (write_user : ℕ → ℕ → K (Unit {0})) (binary : Memory) (is_store : IsStore write_user)
    (below : AreBelowUtop binary) where
  load_icode-Ends :
      (e : ℕ) (old : Env) (k : Kernel)
      → k.envs e ≡ fresh_env e 0 old
      → Ends (λ _. IsLoaded binary e) (load_icode write_user binary (some e) k)
  unfolding load_icode fresh_env
  load_icode-Ends e old k h =
      Keeps-Ends
        (when-Keeps (not (read32 binary 0 == elf_magic)) panic {k0 = k} k
          (refl, refl, refl, refl, refl) by_panic)
        λ _ k1 s1.
          let k2 : Kernel = record k1 { cr3 = (k1.envs e).env_cr3 } in
          Keeps-Ends
            (bounded-Keeps (read16 binary 56) 0 _ {k0 = k2} k2
              (λ j _ u q s.
                load_segment-Keeps write_user binary is_store e (read64 binary 32 + j * 56) q
                  (below j (omega arith)) s)
              (refl, refl, refl, refl, refl))
            λ _ k3 s3.
              let k4 : Kernel = record (set_env e (with_rip binary (k3.envs e)) k3) {
                cr3 = k3.boot_pml4e * 4096;
              } in
              Keeps-last
                (region_alloc-Keeps e (ustacktop - pgsize) pgsize {k0 = k4} k4
                  (refl, refl, refl, refl, refl))
                λ _ k5 s5.
                  let was : k3.envs e ≡ fresh_env e 0 old =
                    ap (λ f. f e) s3.0 ∙ ap (λ f. f e) s1.0 ∙ h in
                  let now : k5.envs e ≡ with_rip binary (k3.envs e) =
                    ap (λ f. f e) s5.0 ∙ update_self k3.envs e (with_rip binary (k3.envs e)) in
                  (
                    ap Env.env_status now ∙ ap Env.env_status was,
                    ap (λ env. env.env_tf.tf_rip) now,
                    ap (λ env. env.env_tf.tf_rsp) now ∙ ap (λ env. env.env_tf.tf_rsp) was,
                    s5.1 ∙ ap (λ x. x * 4096) (sym s5.2),
                  )

  -- NULL for the environment
  load_icode_null-Ends :
      {Q : Unit {0} → Kernel → Type 0} (k : Kernel) → Ends Q (load_icode write_user binary none k)
  unfolding load_icode
  load_icode_null-Ends k =
      Keeps-Ends
        (when-Keeps (not (read32 binary 0 == elf_magic)) panic {k0 = k} k
          (refl, refl, refl, refl, refl) by_panic)
        λ _ k s. in_fault

  -- env_create after env_alloc
  abbrev create_at : EnvType → Result × Option ℕ → K (Unit {0})
  create_at type (r, o) = do
    elim r [ err e_no_free_env ↦ panic | err e_no_mem ↦ panic | _ ↦ pure tt ]
    load_icode write_user binary o
    e ← deref o
    change_env_at e (λ env. record env { env_type = type; env_parent_id = 0 })

  create_null-Ends :
      (type : EnvType) (k : Kernel)
      → Ends (IsCreated binary) (
          (do
            load_icode write_user binary none
            e ← deref none
            change_env_at e (λ env. record env { env_type = type; env_parent_id = 0 }))
            k)
  create_null-Ends type k =
      then-Ends (load_icode_null-Ends {Q = IsCreated binary} k) λ _ k h. in_fault

  create_at-Ends :
      (type : EnvType) (x : Result × Option ℕ) (k : Kernel)
      → IsGiven 0 x k
      → Ends (IsCreated binary) (create_at type x k)
  create_at-Ends type _ k (refused {c = e_no_free_env}) = in_panic
  create_at-Ends type _ k (refused {c = e_no_mem}) = in_panic
  create_at-Ends type _ k (refused {c = e_bad_env}) = create_null-Ends type k
  create_at-Ends type _ k (refused {c = e_inval}) = create_null-Ends type k
  create_at-Ends type _ k (refused {c = e_fault}) = create_null-Ends type k
  create_at-Ends type _ k (refused {c = e_no_sys}) = create_null-Ends type k
  create_at-Ends type _ k (refused {c = e_ipc_not_recv}) = create_null-Ends type k
  create_at-Ends type _ k (fresh e old h) =
      then-Ends (load_icode-Ends e old k h) λ _ k (status, rip, rsp, cr3).
        let now : update k.envs e (record (k.envs e) { env_type = type; env_parent_id = 0 }) e
            ≡ record (k.envs e) { env_type = type; env_parent_id = 0 } =
          update_self k.envs e (record (k.envs e) { env_type = type; env_parent_id = 0 }) in
        by_return (
          e,
          (
            ap Env.env_status now ∙ status,
            ap (λ env. env.env_tf.tf_rip) now ∙ rip,
            ap (λ env. env.env_tf.tf_rsp) now ∙ rsp,
            cr3,
          ),
          ap Env.env_parent_id now,
        )

  -- When what the image's program headers load lies below UTOP, each with no more bytes from the image than
  -- it takes in memory: whatever the free pages and the page tables are, env_create panics, faults, or
  -- returns with an environment that is runnable at the image's entry point, with the top of the user
  -- stack in %rsp and no parent, and with the kernel's own page map in %cr3. It runs no environment and
  -- does not stop the CPU. A store below UTOP is taken to change no environment and not %cr3, or to fault.
  pub env_create-Ends :
      (type : EnvType) (k : Kernel) → Ends (IsCreated binary) (env_create write_user binary type k)
  unfolding env_create
  env_create-Ends type k = then-Ends (env_alloc-Ends 0 k) λ x k h. create_at-Ends type x k h
