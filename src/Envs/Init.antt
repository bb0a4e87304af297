-- ===== src/Envs/Init.antt =====
-- `env_init`: the list of free environments at the start.
use comp530h.Base.{
  ℕ, zero, suc, ◌+◌, ◌<◌, ◌≤◌, ◌≡◌, refl, Option, none, some, arith, ◌==◌, if◌then◌else◌,
}
use native.Mathlib.Decide.{ℕ_discrete}
use comp530h.Kernel.{Kernel, done, free}
use comp530h.Kernel.Env.{Env}
use comp530h.Envs.{nenv, env_init, env_init_loop, env_init_slot}

-- A slot of the list that ends with slot `n - 1` and goes on at `rest`.
abbrev pub IsListed : (n : ℕ) → (rest : Option ℕ) → (i : ℕ) → Env → Type 0
IsListed n rest i env =
    (env.env_status ≡ free)
    × (env.env_id ≡ 0)
    × (env.env_link ≡ (if i + 1 == n then rest else some (i + 1)))

-- The slots from `n` on stay as they are, and the list starts at slot 0.
record Listed (n : ℕ) (k k' : Kernel) : Type 0 where
  slots : (i : ℕ) → i < n → IsListed n k.env_free_list i (k'.envs i)
  others : (i : ℕ) → n ≤ i → k'.envs i ≡ k.envs i
  head : k'.env_free_list ≡ (if n == 0 then k.env_free_list else some 0)

extend : (n : ℕ) (k k' : Kernel) → Listed n (env_init_slot n k) k' → Listed (suc n) k k'
extend n k k' r = record {
  slots = λ i h. elim (ℕ_discrete i n) [
    | yes e ↦ (ground (arith, r.others i), ground (arith, r.others i), ground (arith, r.others i))
    | no ne ↦ let l = r.slots i (omega arith) in (l.0, l.1, ground (arith, l.2))
  ];
  others = λ i h. ground (arith, r.others i);
  head = ground (arith, r.head);
}

loop-Listed : (n : ℕ) (k : Kernel) → Listed n k (env_init_loop n k)
unfolding env_init_loop
loop-Listed zero k = record {
  slots = λ i h. absurd (omega arith);
  others = λ i h. refl;
  head = refl;
}
loop-Listed (suc n) k = extend n k _ (loop-Listed n (env_init_slot n k))

-- After env_init all slots are free with id 0, and the list of free slots is in the order of the
-- array: it starts at slot 0, each slot links to the next one, and the last to none.
pub env_init_lem :
    (k : Kernel)
    → (k' : Kernel) × (env_init k ≡ done tt k')
      × (k'.env_free_list ≡ some 0)
      × ((i : ℕ) → i < nenv → IsListed nenv none i (k'.envs i))
unfolding env_init
env_init_lem k =
    let k0 = record k { env_free_list = none } in
    let l = loop-Listed nenv k0 in (env_init_loop nenv k0, refl, l.head, l.slots)
