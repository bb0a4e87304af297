-- ===== src/Tests/Environments.antt =====
-- The environments and the scheduler of the sample.
use comp530h.Base.{
  ℕ, ◌%◌, ◌<◌, ◌≡◌, ◌≢◌, refl, true, false, Option, none, some, [], ◌∷◌, arith, ◌==◌, if◌then◌else◌,
}
use comp530h.Kernel.{Kernel, done, runs, Result, ok, free, runnable, running, same_status}
use comp530h.Alloc.Chain.{IsFree}
use comp530h.Envs.{nenv, envid2env, env_alloc}
use comp530h.Envs.Ids.{Accepts, envid2env_lem}
use comp530h.Envs.Alloc.{IsPageMap, IsFresh, env_alloc_lem}
use comp530h.Sched.{env_run}
use mathlib.Core.Path.{subst}
use mathlib.Core.Option.{some-injective}
use comp530h.Sched.Next.{IsNamed, FirstRuns, Rests, sched_yield-FirstRuns, sched_yield-Rests}
use comp530h.Sched.Switch.{Switched, env_run_lem}
use comp530h.Tests.Sample.{sample, slots, env_of, sample-IsFree}

envid2env_lem_example :
    (out : Option ℕ × Result) × (envid2env 4097 true sample ≡ done out sample)
    × Accepts sample 0 4097 true out
envid2env_lem_example = envid2env_lem sample 0 4097 true refl

env_alloc_lem_example :
    (k' : Kernel) × (env_alloc 4096 sample ≡ done (ok 0, some 3) k')
    × IsFree k' (11 ∷ [])
    × ((k'.pages 10).pp_ref ≡ 1)
    × IsPageMap sample 6 10 k'
    × IsFresh (slots 3) 4096 3 10 (k'.envs 3)
    × (k'.env_free_list ≡ none)
    × ((i : ℕ) → i ≢ 3 → k'.envs i ≡ slots i)
env_alloc_lem_example = env_alloc_lem sample 4096 3 10 (11 ∷ []) refl sample-IsFree (omega arith)

sample-IsNamed : IsNamed sample
sample-IsNamed c h = subst (λ i. (slots i).env_id % nenv ≡ i) (some-injective 0 c h) refl

sched_yield-FirstRuns_example : FirstRuns Result sample
sched_yield-FirstRuns_example =
    sched_yield-FirstRuns Result sample 2 (omega arith) refl sample-IsNamed

-- Slot 0 runs and all others are free.
abbrev quiet : Kernel
quiet = record sample {
  envs = λ e. if e == 0 then env_of 4096 0 running (some 1) false else env_of 0 0 free none false;
}

quiet-idle : (e : ℕ) → e < nenv → same_status (quiet.envs e).env_status runnable ≡ false
quiet-idle e h = ground arith

sched_yield-Rests_example : Rests Result quiet
sched_yield-Rests_example = sched_yield-Rests Result quiet quiet-idle

env_run_lem_example :
    (k' : Kernel) × (env_run {A = Result} 2 sample ≡ runs 2 k') × Switched sample 2 1 k'
env_run_lem_example = env_run_lem Result sample 2 1 refl

sample-single : (i : ℕ) → same_status (slots i).env_status running ≡ true → sample.curenv ≡ some i
sample-single i run = ground (arith, run)
