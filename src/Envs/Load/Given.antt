-- ===== src/Envs/Load/Given.antt =====
-- How env_alloc ends, whatever the state.
use comp530h.Base.{ℕ, ◌≡◌, refl, sym, Option, none, some, update_self, Option-cases, inl, inr}
use mathlib.Core.Path.{subst}
use comp530h.Kernel.{Kernel, K, done, pure, ◌>>=◌, Result, ok, err, e_no_free_env, set_env}
use comp530h.Kernel.Env.{Env, Error}
use comp530h.Kernel.Keeps.{kaddr-Keeps}
use comp530h.Kernel.Ends.{Ends, by_return, then-Ends, Keeps-Ends}
use comp530h.Alloc.{page2pa, alloc_zero, incref}
use comp530h.Table.Keeps.{page_alloc-Keeps}
use comp530h.Envs.{env_setup_vm, env_alloc, fresh_env}

-- An error, or an environment with the fields of a new one
pub data IsGiven (parent : ℕ) : Result × Option ℕ → Kernel → Type 0 where
  refused : {c : Error} {k : Kernel} → IsGiven parent (err c, none) k
  fresh :
      (e : ℕ) (old : Env) {k : Kernel}
      → k.envs e ≡ fresh_env e parent old
      → IsGiven parent (ok 0, some e) k

env_setup_vm-Ends : (e : ℕ) (k : Kernel) → Ends (λ _ _. Unit {0}) (env_setup_vm e k)
unfolding env_setup_vm incref
env_setup_vm-Ends e k =
    Keeps-Ends (page_alloc-Keeps alloc_zero {k0 = k} k (refl, refl, refl, refl, refl)) (elim [
      | none ↦ λ k h. by_return tt
      | some p ↦ λ q h. Keeps-Ends (kaddr-Keeps (page2pa p) {k0 = k} _ h) λ _ k h. by_return tt
    ])

-- env_alloc where the list of free environments is `o`
abbrev env_alloc_from : (parent : ℕ) → Option ℕ → K (Result × Option ℕ)
env_alloc_from parent none = pure (err e_no_free_env, none)
env_alloc_from parent (some e) = do
  r ← env_setup_vm e
  elim r [
    | err c ↦ pure (err c, none)
    | ok _ ↦ λ k.
        done (ok 0, some e)
          (record (set_env e (fresh_env e parent (k.envs e)) k) {
            env_free_list = (k.envs e).env_link;
          })
  ]

env_alloc_from-Ends :
    (parent : ℕ) (o : Option ℕ) (k : Kernel) → Ends (IsGiven parent) (env_alloc_from parent o k)
env_alloc_from-Ends parent none k = by_return refused
env_alloc_from-Ends parent (some e) k = then-Ends (env_setup_vm-Ends e k) (elim [
  | err c ↦ λ k h. by_return refused
  | ok v ↦
      λ k h. by_return (fresh e (k.envs e) (update_self k.envs e (fresh_env e parent (k.envs e))))
])

env_alloc-env_alloc_from :
    (parent : ℕ) (k : Kernel) → env_alloc parent k ≡ env_alloc_from parent k.env_free_list k
unfolding env_alloc
env_alloc-env_alloc_from parent k = elim (Option-cases k.env_free_list) [
  | inl e ↦ cc
  | inr (p, e) ↦ cc
]

pub env_alloc-Ends : (parent : ℕ) (k : Kernel) → Ends (IsGiven parent) (env_alloc parent k)
env_alloc-Ends parent k =
    subst (Ends (IsGiven parent)) (sym (env_alloc-env_alloc_from parent k))
      (env_alloc_from-Ends parent k.env_free_list k)
