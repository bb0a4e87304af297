-- ===== src/Kernel/Ends.antt =====
-- How kernel code ends that neither runs an environment nor stops the CPU.
use comp530h.Base.{Bool, true, false, if◌then◌else◌}
use comp530h.Kernel.Defs.{Kernel, K, Outcome, done, panics, faults, and_then}
use comp530h.Kernel.Keeps.{Same, Keeps, by_done, by_panic, by_fault}

-- The code returns in a state of which `P` holds, panics or faults.
pub data Ends {A : Type 0} (P : A → Kernel → Type 0) : Outcome A → Type 0 where
  by_return : {a : A} {k : Kernel} → P a k → Ends P (done a k)
  in_panic : Ends P panics
  in_fault : Ends P faults

module _ {A B : Type 0} where
  pub then-Ends :
      {P : A → Kernel → Type 0} {Q : B → Kernel → Type 0} {o : Outcome A} {f : A → K B}
      → Ends P o
      → ((a : A) (k : Kernel) → P a k → Ends Q (f a k))
      → Ends Q (and_then o f)
  then-Ends (by_return {a = a} {k = k} h) g = g a k h
  then-Ends in_panic g = in_panic
  then-Ends in_fault g = in_fault

  pub Keeps-Ends :
      {Q : B → Kernel → Type 0} {k0 : Kernel} {o : Outcome A} {f : A → K B}
      → Keeps k0 o
      → ((a : A) (k : Kernel) → Same k0 k → Ends Q (f a k))
      → Ends Q (and_then o f)
  Keeps-Ends (by_done {a = a} {k = k} h) g = g a k h
  Keeps-Ends by_panic g = in_panic
  Keeps-Ends by_fault g = in_fault

pub Keeps-last :
    {A : Type 0} {P : A → Kernel → Type 0} {k0 : Kernel} {o : Outcome A}
    → Keeps k0 o
    → ((a : A) (k : Kernel) → Same k0 k → P a k)
    → Ends P o
Keeps-last (by_done {a = a} {k = k} h) g = by_return (g a k h)
Keeps-last by_panic g = in_panic
Keeps-last by_fault g = in_fault

pub choice-Ends :
    {A : Type 0} {P : A → Kernel → Type 0} (b : Bool) {o o' : Outcome A}
    → Ends P o
    → Ends P o'
    → Ends P (if b then o else o')
choice-Ends true h g = h
choice-Ends false h g = g
