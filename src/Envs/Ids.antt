-- ===== src/Envs/Ids.antt =====
-- Environment ids: what `env_alloc` generates, and what `envid2env` accepts.
use comp530h.Base.{
  ℕ, ◌+◌, ◌*◌, ◌/◌, ◌%◌, ◌^◌, ◌<◌, ◌≡◌, ◌≢◌, ◌⊎◌, inl, inr, refl, sym, ap, ◌∙◌, Bool, false, ◌||◌,
  not, Option, none, some, arith, ◌==◌, leb, if◌then◌else◌, bit_or, Bool-cases,
}
use comp530h.Base.Bits.{bit_or-disjoint}
use comp530h.Kernel.{Kernel, done, Result, ok, err, e_bad_env, free, same_status}
use comp530h.Envs.{next_env_id, envx, envid2env}

-- The generation part of the next id.
abbrev generation : ℕ → ℕ
generation old =
    let g = (old + 4096) % 2 ^ 32 / 1024 * 1024 in if (g == 0) || leb (2 ^ 31) g then 4096 else g

-- It is a positive multiple of 1024 below 2 ^ 31 that differs from the old one.
generation_lem :
    (old : ℕ)
    → old < 2 ^ 31
    → (generation old / 1024 * 2 ^ 10 ≡ generation old)
      × (0 < generation old)
      × (generation old < 2 ^ 31)
      × (generation old / 1024 ≢ old / 1024)
generation_lem old h = (ground arith, ground arith, ground arith, ground arith)

next_env_id-sum : (old e : ℕ) → old < 2 ^ 31 → e < 1024 → next_env_id old e ≡ generation old + e
unfolding next_env_id
next_env_id-sum old e h lt =
    let (m, _, _, _) = generation_lem old h in
    ap (λ g. bit_or g e) (sym m)
    ∙ bit_or-disjoint 10 (generation old / 1024) e lt
    ∙ ap (λ g. g + e) m

-- For an old id below 2^31 and a slot below 1024, the id that env_alloc generates leads to the
-- slot, is positive as an int32_t, and differs from the old id.
pub next_env_id_lem :
    (old e : ℕ)
    → old < 2 ^ 31
    → e < 1024
    → (envx (next_env_id old e) ≡ e)
      × (0 < next_env_id old e)
      × (next_env_id old e < 2 ^ 31)
      × (next_env_id old e ≢ old)
next_env_id_lem old e h lt =
    let (m, pos, top, ne) = generation_lem old h in
    rw (next_env_id-sum old e h lt)
      (omega (arith, m), omega (arith, pos), omega (arith, m, top), λ eq. ne (omega (arith, m, eq)))

-- What `envid2env` may return for the caller `c`: an error, the caller for id 0, or the environment
-- in use with that very id, which is the caller or its child if permission is asked for.
abbrev pub Accepts : Kernel → (c envid : ℕ) → Bool → Option ℕ × Result → Type 0
Accepts k c envid checkperm (none, r) = r ≡ err e_bad_env
Accepts k c envid checkperm (some e, r) =
    (r ≡ ok 0)
    × (((envid ≡ 0) × (e ≡ c))
        ⊎ (((k.envs e).env_id ≡ envid)
            × (same_status (k.envs e).env_status free ≡ false)
            × ((checkperm ≡ false) ⊎ (e ≡ c) ⊎ ((k.envs e).env_parent_id ≡ (k.envs c).env_id))))

-- With a current environment, envid2env always returns and changes nothing: -E_BAD_ENV and no
-- environment, or 0 and an environment. That one is the caller, for id 0, or an environment in use
-- with that very id which, if permission is asked for, is the caller or its child.
pub envid2env_lem :
    (k : Kernel) (c envid : ℕ) (checkperm : Bool)
    → k.curenv ≡ some c
    → (out : Option ℕ × Result) × (envid2env envid checkperm k ≡ done out k)
      × Accepts k c envid checkperm out
unfolding envid2env
envid2env_lem k c envid checkperm cur =
    let e = envx envid in
    let env = k.envs e in
    let used = same_status env.env_status free || not (env.env_id == envid) in
    elim (Bool-cases (envid == 0)) [
      | inl z ↦ ((some c, ok 0), ground arith, (refl, inl (ground arith, refl)))
      | inr nz ↦ elim (Bool-cases used) [
        | inl bad ↦ ((none, err e_bad_env), ground arith, refl)
        | inr good ↦ elim (Bool-cases checkperm) [
          | inl check ↦ elim (Bool-cases (e == c)) [
            | inl own ↦ (
              (some e, ok 0),
              ground arith,
              (refl, inr (ground arith, ground arith, ground arith)),
            )
            | inr other ↦ elim (Bool-cases (env.env_parent_id == (k.envs c).env_id)) [
              | inl child ↦ (
                (some e, ok 0),
                ground arith,
                (refl, inr (ground arith, ground arith, ground arith)),
              )
              | inr alien ↦ ((none, err e_bad_env), ground arith, refl)
            ]
          ]
          | inr all ↦
              ((some e, ok 0), ground arith, (refl, inr (ground arith, ground arith, inl all)))
        ]
      ]
    ]

-- With a current environment and an id other than 0, an environment in use with that id in its slot
-- is found if no permission is asked for, if it is the caller, or if its parent is the caller.
pub envid2env-found :
    (k : Kernel) (c envid : ℕ) (checkperm : Bool)
    → k.curenv ≡ some c
    → envid ≢ 0
    → (k.envs (envx envid)).env_id ≡ envid
    → same_status (k.envs (envx envid)).env_status free ≡ false
    → ((checkperm ≡ false)
        ⊎ (envx envid ≡ c)
        ⊎ ((k.envs (envx envid)).env_parent_id ≡ (k.envs c).env_id))
    → envid2env envid checkperm k ≡ done (some (envx envid), ok 0) k
unfolding envid2env
envid2env-found k c envid checkperm cur nz id used perm = ground arith
