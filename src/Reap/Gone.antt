-- ===== src/Reap/Gone.antt =====
-- env_destroy: a destroyed environment does not run again.
use comp530h.Base.{ℕ, ◌≡◌, ◌≢◌, true, false}
use comp530h.Kernel.{
  Kernel, Outcome, done, runs, halts, in_monitor, panics, faults, dying, running, same_status,
  set_env,
}
use comp530h.Kernel.Ends.{Ends}
use comp530h.Envs.{is_cur}
use comp530h.Reap.Freed.{IsFreed}

-- The code switches to an environment other than `e`, or to none.
pub data LeavesFor {A : Type 0} (e : ℕ) : Outcome A → Type 0 where
  by_run : {e' : ℕ} {k : Kernel} → e' ≢ e → LeavesFor e (runs e' k)
  by_halt : {k : Kernel} → LeavesFor e (halts k)
  by_monitor : {k : Kernel} → LeavesFor e (in_monitor k)
  by_panic : LeavesFor e panics

-- What env_destroy does with `e`.
pub data IsDestroyed (e : ℕ) (k : Kernel) : Outcome (Unit {0}) → Type 0 where
  marked :
      same_status (k.envs e).env_status running ≡ true
      → is_cur e k.curenv ≡ false
      → IsDestroyed e k (done tt (set_env e (record (k.envs e) { env_status = dying }) k))
  freed : {k' : Kernel} → is_cur e k.curenv ≡ false → IsFreed e k k' → IsDestroyed e k (done tt k')
  left : {o : Outcome (Unit {0})} → is_cur e k.curenv ≡ true → LeavesFor e o → IsDestroyed e k o
  panicked : IsDestroyed e k panics
  faulted : IsDestroyed e k faults
