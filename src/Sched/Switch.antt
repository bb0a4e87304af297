-- ===== src/Sched/Switch.antt =====
-- `env_run`: the switch to an environment.
use comp530h.Base.{
  ℕ, ◌+◌, ◌*◌, ◌%◌, ◌^◌, ◌≡◌, ◌≢◌, refl, ap, ◌∙◌, sym, inl, inr, true, false, Option, none, some,
  arith, if◌then◌else◌, Bool-cases, ◌&&◌, ==_self, ne→==, update,
}
use native.Mathlib.Decide.{ℕ_discrete}
use comp530h.Kernel.{Kernel, Outcome, runs, panics, Status, runnable, running, same_status}
use comp530h.Envs.{is_cur}
use comp530h.Sched.{env_run, pause_current, enter, has_map}

-- The status of slot `i` after a switch to another one.
abbrev pub left_status : Kernel → ℕ → Status
left_status k i =
    if is_cur i k.curenv && same_status (k.envs i).env_status running
    then runnable
    else (k.envs i).env_status

-- The state in which `e` runs, with the page map in frame `t`.
abbrev pub Switched : Kernel → (e t : ℕ) → Kernel → Type 0
Switched k e t k' =
    (k'.curenv ≡ some e)
    × (k'.cr3 ≡ t * 4096)
    × ((k'.envs e).env_status ≡ running)
    × ((k'.envs e).env_runs ≡ ((k.envs e).env_runs + 1) % 2 ^ 32)
    × ((k'.envs e).env_cpunum ≡ k.cpunum)
    × ((i : ℕ) → i ≢ e → (k'.envs i).env_status ≡ left_status k i)

module _ (k : Kernel) (i : ℕ) where
  -- What the pause leaves of the slot `i`.
  paused-map : (o : Option ℕ) → ((pause_current o k).envs i).env_pml4e ≡ (k.envs i).env_pml4e
  unfolding pause_current
  paused-map none = refl
  paused-map (some c) = ground arith

  paused-runs : (o : Option ℕ) → ((pause_current o k).envs i).env_runs ≡ (k.envs i).env_runs
  unfolding pause_current
  paused-runs none = refl
  paused-runs (some c) = ground arith

  paused-status :
      (o : Option ℕ)
      → ((pause_current o k).envs i).env_status ≡ (
          if is_cur i o && same_status (k.envs i).env_status running
          then runnable
          else (k.envs i).env_status)
  unfolding pause_current
  paused-status none = refl
  paused-status (some c) = ground arith

  paused-cpunum : (o : Option ℕ) → (pause_current o k).cpunum ≡ k.cpunum
  unfolding pause_current
  paused-cpunum none = refl
  paused-cpunum (some c) = refl

-- The state that `env_run` enters, after the pause.
abbrev chosen : Kernel → (e : ℕ) → Kernel
chosen k1 e = record k1 {
  envs =
      update k1.envs e (record (k1.envs e) {
        env_status = running;
        env_runs = ((k1.envs e).env_runs + 1) % 2 ^ 32;
      });
  curenv = some e;
}

abbrev entered : Kernel → (e t : ℕ) → Kernel
entered k e t = enter e (some t) (chosen (pause_current k.curenv k) e)

run_entered : (A : Type 0) → (e : ℕ) → Kernel → Option ℕ → Outcome A
run_entered A e k o = if has_map o then runs e (enter e o k) else panics

env_run-entered :
    (A : Type 0) (k : Kernel) (e t : ℕ)
    → (k.envs e).env_pml4e ≡ some t
    → env_run {A = A} e k ≡ runs e (entered k e t)
unfolding env_run run_entered
env_run-entered A k e t map =
    ap (run_entered A e (chosen (pause_current k.curenv k) e)) (paused-map k e k.curenv ∙ map)

entered-Switched : (k : Kernel) (e t : ℕ) → Switched k e t (entered k e t)
unfolding enter
entered-Switched k e t = (
  refl,
  refl,
  rw (==_self e) refl,
  rw (==_self e, paused-runs k e k.curenv) refl,
  rw (==_self e, paused-cpunum k e k.curenv) refl,
  λ i ne. rw (ne→== i e ne) (paused-status k i k.curenv),
)

-- env_run of an environment with a page map runs it in that map: it is the current one, running,
-- counted once more, on this CPU; the current one before, if another, is runnable if it was
-- running, and no other status changes.
pub env_run_lem :
    (A : Type 0) (k : Kernel) (e t : ℕ)
    → (k.envs e).env_pml4e ≡ some t
    → (k' : Kernel) × (env_run {A = A} e k ≡ runs e k') × Switched k e t k'
env_run_lem A k e t map = (entered k e t, env_run-entered A k e t map, entered-Switched k e t)

left-idle :
    (k : Kernel) (i : ℕ)
    → (same_status (k.envs i).env_status running ≡ true → k.curenv ≡ some i)
    → same_status (left_status k i) running ≡ false
left-idle k i single = elim (Bool-cases (same_status (k.envs i).env_status running)) [
  | inl run ↦ rw (single run, ==_self i, run) refl
  | inr stop ↦ ground (arith)
]

-- If only the current environment is running (one CPU), this is so after env_run of an environment
-- with a page map.
pub env_run-single :
    (A : Type 0) (k : Kernel) (e t : ℕ)
    → (k.envs e).env_pml4e ≡ some t
    → ((i : ℕ) → same_status (k.envs i).env_status running ≡ true → k.curenv ≡ some i)
    → (k' : Kernel) × (env_run {A = A} e k ≡ runs e k')
      × ((i : ℕ) → same_status (k'.envs i).env_status running ≡ true → k'.curenv ≡ some i)
unfolding enter
env_run-single A k e t map single = (entered k e t, env_run-entered A k e t map, only)
  where
    only :
        (i : ℕ)
        → same_status ((entered k e t).envs i).env_status running ≡ true
        → (entered k e t).curenv ≡ some i
    only i run = elim (ℕ_discrete i e) [
      | yes eq ↦ ap some (sym eq)
      | no ne ↦ absurd (
          ground (
            arith,
            left-idle k i (single i),
            ap (λ s. same_status s running) ((entered-Switched k e t).5 i ne),
            run,
          ))
    ]
