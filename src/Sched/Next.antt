-- ===== src/Sched/Next.antt =====
-- Which environment `sched_yield` chooses.
use comp530h.Base.{
  ℕ, zero, suc, ◌+◌, ◌*◌, ◌-◌, ◌%◌, ◌<◌, ◌≤◌, ◌≡◌, ◌⊎◌, refl, ap, ◌∙◌, sym, inl, inr, Bool, true,
  false, Option, none, some, arith, if◌then◌else◌, Bool-cases, ◌||◌,
}
use mathlib.Core.Path.{subst}
use native.Mathlib.Decide.{ℕ_discrete}
use comp530h.Kernel.{Kernel, Outcome, halts, in_monitor, runnable, running, same_status}
use comp530h.Kernel.Env.{Env}
use comp530h.Envs.{nenv}
use comp530h.Sched.{
  next_runnable, any_alive, is_alive, sched_halt, search_start, switch_to, run_current_or_halt,
  sched_yield, env_run,
}

-- The status test of the slot that is `m` places behind `i`.
abbrev pub runnable_at : (envs : ℕ → Env) (i m : ℕ) → Bool
runnable_at envs i m = same_status (envs ((i + m) % nenv)).env_status runnable

-- What the search over `n` slots from `i` on finds: the first runnable one, or none of them is.
abbrev pub Finds : (envs : ℕ → Env) (n i : ℕ) → Option ℕ → Type 0
Finds envs n i none = (m : ℕ) → m < n → runnable_at envs i m ≡ false
Finds envs n i (some e) =
    (j : ℕ) × (j < n)
    × (e ≡ (i + j) % nenv)
    × (runnable_at envs i j ≡ true)
    × ((m : ℕ) → m < j → runnable_at envs i m ≡ false)

add_one : (i m : ℕ) → (i + 1) + m ≡ i + suc m
add_one i m = omega arith

-- A slot that is not runnable is skipped.
idle-suc :
    (envs : ℕ → Env) (n i : ℕ)
    → runnable_at envs i 0 ≡ false
    → ((m : ℕ) → m < n → runnable_at envs (i + 1) m ≡ false)
    → (m : ℕ) → m < suc n
    → runnable_at envs i m ≡ false
idle-suc envs n i idle f zero h = idle
idle-suc envs n i idle f (suc m) h =
    ap (λ s. same_status (envs (s % nenv)).env_status runnable) (sym (add_one i m))
    ∙ f m (omega arith)

skip :
    (envs : ℕ → Env) (n i : ℕ) (o : Option ℕ)
    → runnable_at envs i 0 ≡ false
    → Finds envs n (i + 1) o
    → Finds envs (suc n) i o
skip envs n i none idle f = idle-suc envs n i idle f
skip envs n i (some e) idle (j, lt, at, run, before) = (
  suc j,
  omega arith,
  at ∙ ap (λ s. s % nenv) (add_one i j),
  ap (λ s. same_status (envs (s % nenv)).env_status runnable) (sym (add_one i j)) ∙ run,
  idle-suc envs j i idle before,
)

zero_th :
    (envs : ℕ → Env) (i : ℕ)
    → runnable_at envs i 0 ≡ same_status (envs (i % nenv)).env_status runnable
zero_th envs i = let e : i + 0 ≡ i = omega arith in rw e

pub next_runnable-Finds : (envs : ℕ → Env) (n i : ℕ) → Finds envs n i (next_runnable envs n i)
unfolding next_runnable
next_runnable-Finds envs zero i = λ m h. absurd (omega arith)
next_runnable-Finds envs (suc n) i =
    elim (Bool-cases (same_status (envs (i % nenv)).env_status runnable)) [
      | inl here ↦ rw here (
        0,
        omega arith,
        ap (λ s. s % nenv) {y = i + 0} (omega arith),
        zero_th envs i ∙ here,
        λ m h. absurd (omega arith),
      )
      | inr idle ↦
          rw idle (skip envs n i _ (zero_th envs i ∙ idle) (next_runnable-Finds envs n (i + 1)))
    ]

-- The place of slot `e`, counted from `i` on.
place : (i e : ℕ) → e < nenv → (i + (e + nenv - i % nenv) % nenv) % nenv ≡ e
place i e h = omega arith

-- A search over `nenv` slots or more that finds nothing has looked at every slot.
all-idle :
    (envs : ℕ → Env) (n i e : ℕ)
    → nenv ≤ n
    → Finds envs n i none
    → e < nenv
    → same_status (envs e).env_status runnable ≡ false
all-idle envs n i e le f lt =
    ap (λ s. same_status (envs s).env_status runnable) (sym (place i e lt))
    ∙ f ((e + nenv - i % nenv) % nenv) (omega arith)

-- The slot behind that of the current environment; slot 1 when there is none.
abbrev pub slot_behind : Option ℕ → ℕ
slot_behind none = 1
slot_behind (some c) = c + 1

-- The current environment's id names its own slot.
abbrev pub IsNamed : Kernel → Type 0
IsNamed k = (c : ℕ) → k.curenv ≡ some c → (k.envs c).env_id % nenv ≡ c

search_start_at :
    (k : Kernel) (o : Option ℕ)
    → k.curenv ≡ o
    → ((c : ℕ) → o ≡ some c → (k.envs c).env_id % nenv ≡ c)
    → search_start k ≡ slot_behind o
unfolding search_start
search_start_at k none c named = rw c refl
search_start_at k (some i) c named = rw c (ap (λ j. j + 1) (named i refl))

module _ (A : Type 0) (k : Kernel) where
  -- `sched_yield` runs the first runnable environment from slot `i` on.
  abbrev pub RunsFrom : ℕ → Type 0
  RunsFrom i =
      (e : ℕ) × Finds k.envs (suc nenv) i (some e) × (sched_yield {A = A} k ≡ env_run {A = A} e k)

  -- It does so from the slot behind that of the current environment on.
  abbrev pub FirstRuns : Type 0
  FirstRuns = RunsFrom (slot_behind k.curenv)

  runs-found :
      (o : Option ℕ)
      → next_runnable k.envs (suc nenv) (search_start k) ≡ o
      → Finds k.envs (suc nenv) (search_start k) o
      → (e : ℕ) → e < nenv
      → same_status (k.envs e).env_status runnable ≡ true
      → RunsFrom (search_start k)
  unfolding sched_yield switch_to
  runs-found none q f e lt run =
      absurd (ground (arith, all-idle k.envs (suc nenv) (search_start k) e (omega arith) f lt))
  runs-found (some e') q f e lt run = (e', f, ap (λ x. switch_to {A = A} x k) q)

  -- If some environment is runnable, sched_yield runs the first one from where its search starts.
  pub sched_yield-runs :
      (e : ℕ)
      → e < nenv
      → same_status (k.envs e).env_status runnable ≡ true
      → RunsFrom (search_start k)
  sched_yield-runs e lt run =
      runs-found _ refl (next_runnable-Finds k.envs (suc nenv) (search_start k)) e lt run

-- If some environment is runnable, and the id of the current environment, if there is one, names its
-- slot, sched_yield runs the first runnable one in circular order, counted from the slot behind that of the
-- current environment, or from slot 1 when there is none: all slots before it in that order are not
-- runnable.
pub sched_yield-FirstRuns :
    (A : Type 0) (k : Kernel) (e : ℕ)
    → e < nenv
    → same_status (k.envs e).env_status runnable ≡ true
    → IsNamed k
    → FirstRuns A k
sched_yield-FirstRuns A k e lt run named =
    subst (RunsFrom A k) (search_start_at k k.curenv refl named) (sched_yield-runs A k e lt run)

found-none :
    (envs : ℕ → Env) (n i : ℕ) (o : Option ℕ)
    → ((e : ℕ) → e < nenv → same_status (envs e).env_status runnable ≡ false)
    → Finds envs n i o
    → o ≡ none
found-none envs n i none idle f = refl
found-none envs n i (some e) idle (j, lt, at, run, before) =
    absurd (ground (arith, idle ((i + j) % nenv) (omega arith)))

next_runnable-none :
    (envs : ℕ → Env) (n i : ℕ)
    → ((e : ℕ) → e < nenv → same_status (envs e).env_status runnable ≡ false)
    → next_runnable envs n i ≡ none
next_runnable-none envs n i idle = found-none envs n i _ idle (next_runnable-Finds envs n i)

-- What `any_alive` tells.
abbrev pub Alive : (envs : ℕ → Env) (n : ℕ) → Bool → Type 0
Alive envs n true = (e : ℕ) × (e < n) × (is_alive (envs e).env_status ≡ true)
Alive envs n false = (e : ℕ) → e < n → is_alive (envs e).env_status ≡ false

any_alive-Alive : (envs : ℕ → Env) (n : ℕ) → Alive envs n (any_alive envs n)
unfolding any_alive
any_alive-Alive envs zero = λ e h. absurd (omega arith)
any_alive-Alive envs (suc n) =
    extend (any_alive envs n) (is_alive (envs n).env_status) refl (any_alive-Alive envs n)
  where
    extend :
        (b c : Bool)
        → is_alive (envs n).env_status ≡ c
        → Alive envs n b
        → Alive envs (suc n) (b || c)
    extend true c q (e, h, a) = (e, omega arith, a)
    extend false true q f = (n, omega arith, q)
    extend false false q f =
        λ e h. elim (ℕ_discrete e n) [ yes eq ↦ rw eq q | no ne ↦ f e (omega arith) ]

-- The CPU halts, with no current environment and the kernel's own page map, if some environment is
-- alive, which another CPU may run; else the kernel monitor takes over.
abbrev pub Sleeps : (A : Type 0) → Kernel → Bool → Type 0
Sleeps A k true =
    sched_yield {A = A} k ≡ halts (record k { curenv = none; cr3 = k.boot_pml4e * 4096 })
Sleeps A k false = sched_yield {A = A} k ≡ in_monitor k

abbrev pub is_running : Option ℕ → (ℕ → Env) → Bool
is_running none envs = false
is_running (some c) envs = same_status (envs c).env_status running

-- What is left when no environment is runnable: the current one if it still runs, or sleep.
abbrev pub Rests : Type 0 → Kernel → Type 0
Rests A k =
    ((c : ℕ) × (k.curenv ≡ some c)
      × (same_status (k.envs c).env_status running ≡ true)
      × (sched_yield {A = A} k ≡ env_run {A = A} c k))
    ⊎ ((is_running k.curenv k.envs ≡ false) × (b : Bool) × Alive k.envs nenv b × Sleeps A k b)

module _ (A : Type 0) (k : Kernel) where
  ending : Bool → Outcome A
  ending b =
      if b then halts (record k { curenv = none; cr3 = k.boot_pml4e * 4096 }) else in_monitor k

  sleeps :
      (b : Bool)
      → any_alive k.envs nenv ≡ b
      → sched_yield {A = A} k ≡ sched_halt {A = A} k
      → Sleeps A k b
  unfolding sched_halt ending
  sleeps true q y = y ∙ ap ending q
  sleeps false q y = y ∙ ap ending q

  rests :
      (cur : Option ℕ)
      → k.curenv ≡ cur
      → sched_yield {A = A} k ≡ run_current_or_halt {A = A} cur k
      → Rests A k
  unfolding run_current_or_halt
  rests none c y =
      inr (rw c refl, any_alive k.envs nenv, any_alive-Alive k.envs nenv, sleeps _ refl y)
  rests (some e) c y = elim (Bool-cases (same_status (k.envs e).env_status running)) [
    | inl run ↦ inl (e, c, run, y ∙ rw run refl)
    | inr stop ↦ inr (
      rw c stop,
      any_alive k.envs nenv,
      any_alive-Alive k.envs nenv,
      sleeps _ refl (y ∙ rw stop refl),
    )
  ]

-- If no environment is runnable, sched_yield goes on with the current one if that is running. If it
-- is not, the CPU halts, with no current environment and the page map of the kernel, when some
-- environment is alive, and else the kernel monitor takes over.
pub sched_yield-Rests :
    (A : Type 0) (k : Kernel)
    → ((e : ℕ) → e < nenv → same_status (k.envs e).env_status runnable ≡ false)
    → Rests A k
unfolding sched_yield switch_to
sched_yield-Rests A k idle =
    rests A k k.curenv refl
      (ap (λ x. switch_to {A = A} x k) (next_runnable-none k.envs (suc nenv) (search_start k) idle))
