-- ===== src/Sched.antt =====
-- kern/sched.c, and `env_run` of kern/env.c: which environment runs next, and the switch to it.
pub mod Next
pub mod Switch
use comp530h.Base.{
  ℕ, zero, suc, ◌+◌, ◌*◌, ◌%◌, ◌^◌, Bool, true, false, ◌||◌, Option, none, some, if◌then◌else◌,
}
use comp530h.Kernel.{
  Kernel, Outcome, runs, halts, in_monitor, panics, set_env, Status, dying, runnable, running,
  same_status,
}
use comp530h.Kernel.Env.{Env}
use comp530h.Envs.{nenv, envx}

-- A running environment gives up the CPU.
abbrev pub paused : Env → Env
paused e = if same_status e.env_status running then record e { env_status = runnable } else e

unfoldable pub pause_current : Option ℕ → Kernel → Kernel
pause_current none k = k
pause_current (some c) k = set_env c (paused (k.envs c)) k

-- `lcr3(PADDR(curenv->env_pml4e))`, then `env_pop_tf`: PADDR panics at a NULL page map.
unfoldable pub enter : ℕ → Option ℕ → Kernel → Kernel
enter e none k = k
enter e (some t) k = record (set_env e (record (k.envs e) { env_cpunum = k.cpunum }) k) {
  cr3 = t * 4096;
}

abbrev pub has_map : Option ℕ → Bool
has_map none = false
has_map (some t) = true

-- `env_runs` is a uint32_t.
unfoldable pub env_run {ℓ} : {A : Type ℓ} → ℕ → Kernel → Outcome A
unfolding pause_current enter
env_run e k =
    let k1 = pause_current k.curenv k in
    let env = record (k1.envs e) {
      env_status = running;
      env_runs = ((k1.envs e).env_runs + 1) % 2 ^ 32;
    } in
    let k2 = record (set_env e env k1) { curenv = some e } in
    if has_map env.env_pml4e then runs e (enter e env.env_pml4e k2) else panics

-- The first slot with a runnable environment among `n`, from `i` on and round the end of `envs`.
unfoldable pub next_runnable : (envs : ℕ → Env) (n i : ℕ) → Option ℕ
next_runnable envs zero i = none
next_runnable envs (suc n) i =
    let rest = next_runnable envs n (i + 1) in
    if same_status (envs (i % nenv)).env_status runnable then some (i % nenv) else rest

abbrev pub is_alive : Status → Bool
is_alive s = same_status s runnable || (same_status s running || same_status s dying)

-- Whether one of the first `n` environments is runnable, running or dying.
unfoldable pub any_alive : (envs : ℕ → Env) (n : ℕ) → Bool
any_alive envs zero = false
any_alive envs (suc n) = any_alive envs n || is_alive (envs n).env_status

unfoldable pub sched_halt {ℓ} : {A : Type ℓ} → Kernel → Outcome A
sched_halt k =
    if any_alive k.envs nenv
    then halts (record k { curenv = none; cr3 = k.boot_pml4e * 4096 })
    else in_monitor k

-- Where the search starts: behind the current environment.
unfoldable pub search_start : Kernel → ℕ
search_start k = elim k.curenv [ none ↦ 1 | some c ↦ envx (k.envs c).env_id + 1 ]

-- What is left when no other environment can run.
unfoldable pub run_current_or_halt {ℓ} : {A : Type ℓ} → Option ℕ → Kernel → Outcome A
run_current_or_halt none k = sched_halt k
run_current_or_halt (some c) k =
    if same_status (k.envs c).env_status running then env_run c k else sched_halt k

-- The rest of `sched_yield`, by what the search found.
unfoldable pub switch_to {ℓ} : {A : Type ℓ} → Option ℕ → Kernel → Outcome A
switch_to (some e) k = env_run e k
switch_to none k = run_current_or_halt k.curenv k

-- The search looks at `nenv + 1` slots, the first one twice.
unfoldable pub sched_yield {ℓ} : {A : Type ℓ} → Kernel → Outcome A
sched_yield k = switch_to (next_runnable k.envs (suc nenv) (search_start k)) k
