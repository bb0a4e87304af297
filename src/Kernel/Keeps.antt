-- ===== src/Kernel/Keeps.antt =====
-- Kernel code that leaves the environments, their free list, the current one and %cr3 alone.
use comp530h.Base.{
  ℕ, zero, suc, ◌+◌, ◌≡◌, ◌≤◌, ◌<◌, refl, arith, Bool, true, false, if◌then◌else◌, leb, ◌%◌, ◌^◌,
  Option, none, some,
}
use comp530h.Layout.{ppn}
use comp530h.Kernel.Defs.{
  Kernel, K, Outcome, done, panics, faults, and_then, kaddr, deref, when, for_range,
}

abbrev pub Same : Kernel → Kernel → Type 0
Same k0 k =
    (k.envs ≡ k0.envs)
    × (k.cr3 ≡ k0.cr3)
    × (k.boot_pml4e ≡ k0.boot_pml4e)
    × (k.curenv ≡ k0.curenv)
    × (k.env_free_list ≡ k0.env_free_list)

-- The code returns in a state that agrees with `k0`, panics or faults; it neither runs an environment
-- nor stops the CPU.
pub data Keeps {A : Type 0} (k0 : Kernel) : Outcome A → Type 0 where
  by_done : {a : A} {k : Kernel} → Same k0 k → Keeps k0 (done a k)
  by_panic : Keeps k0 panics
  by_fault : Keeps k0 faults

module _ {A B : Type 0} where
  pub then-Keeps :
      {k0 : Kernel} {o : Outcome A} {f : A → K B}
      → Keeps k0 o
      → ((a : A) (k : Kernel) → Same k0 k → Keeps k0 (f a k))
      → Keeps k0 (and_then o f)
  then-Keeps (by_done {a = a} {k = k} h) g = g a k h
  then-Keeps by_panic g = by_panic
  then-Keeps by_fault g = by_fault

module _ {A : Type 0} where
  pub choice-Keeps :
      (b : Bool) {k0 : Kernel} {o o' : Outcome A}
      → Keeps k0 o
      → Keeps k0 o'
      → Keeps k0 (if b then o else o')
  choice-Keeps true h g = h
  choice-Keeps false h g = g

  -- The same for code chosen before it gets the state
  pub choose-Keeps :
      (b : Bool) (m n : K A) {k0 : Kernel} (k : Kernel)
      → Keeps k0 (m k)
      → Keeps k0 (n k)
      → Keeps k0 ((if b then m else n) k)
  choose-Keeps true m n k h g = h
  choose-Keeps false m n k h g = g

  pub deref-Keeps : (o : Option A) {k0 : Kernel} (k : Kernel) → Same k0 k → Keeps k0 (deref o k)
  deref-Keeps none k h = by_fault
  deref-Keeps (some a) k h = by_done h

pub kaddr-Keeps : (pa : ℕ) {k0 : Kernel} (k : Kernel) → Same k0 k → Keeps k0 (kaddr pa k)
unfolding kaddr
kaddr-Keeps pa k h = choice-Keeps (leb k.npages (ppn pa % 2 ^ 32)) by_panic (by_done h)

pub when-Keeps :
    (b : Bool) (m : K (Unit {0})) {k0 : Kernel} (k : Kernel)
    → Same k0 k
    → Keeps k0 (m k)
    → Keeps k0 (when b m k)
when-Keeps true m k h g = g
when-Keeps false m k h g = by_done h

pub for_range-Keeps :
    (n i : ℕ) (body : ℕ → K (Unit {0})) {k0 : Kernel} (k : Kernel)
    → ((j : ℕ) (k : Kernel) → Same k0 k → Keeps k0 (body j k))
    → Same k0 k
    → Keeps k0 (for_range n i body k)
unfolding for_range
for_range-Keeps zero i body k g h = by_done h
for_range-Keeps (suc n) i body k g h =
    then-Keeps (g i k h) λ _ k h. for_range-Keeps n (i + 1) body k g h

-- With the test's result, and with the bounds of the index
pub known_choice-Keeps :
    {A : Type 0} (b : Bool) {k0 : Kernel} {o o' : Outcome A}
    → (b ≡ true → Keeps k0 o)
    → (b ≡ false → Keeps k0 o')
    → Keeps k0 (if b then o else o')
known_choice-Keeps true h g = h refl
known_choice-Keeps false h g = g refl

pub bounded-Keeps :
    (n i : ℕ) (body : ℕ → K (Unit {0})) {k0 : Kernel} (k : Kernel)
    → ((j : ℕ) → i ≤ j → j < i + n → (k : Kernel) → Same k0 k → Keeps k0 (body j k))
    → Same k0 k
    → Keeps k0 (for_range n i body k)
unfolding for_range
bounded-Keeps zero i body k f h = by_done h
bounded-Keeps (suc n) i body k f h =
    then-Keeps (f i (omega arith) (omega arith) k h)
      λ _ k h. bounded-Keeps n (i + 1) body k (λ j l u k h. f j (omega arith) (omega arith) k h) h
