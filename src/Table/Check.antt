-- ===== src/Table/Check.antt =====
-- `user_mem_check`: what a check that succeeds means.
use comp530h.Base.{
  ℕ, zero, suc, ◌+◌, ◌-◌, ◌*◌, ◌/◌, ◌%◌, ◌<◌, ◌≤◌, ◌≡◌, inl, inr, false, Option, none, some, arith,
  ◌==◌, Bool-cases, bit_and, leb, bit_or,
}
use comp530h.Layout.{ulim, pgsize, word, pte_p, round_up, round_down, add64}
use comp530h.Layout.Address.{round_up_page}
use comp530h.Kernel.{
  Kernel, Slot, Outcome, K, done, runs, halts, in_monitor, panics, faults, Result, ok, and_then,
}
use comp530h.Kernel.Env.{Env}
use comp530h.Table.{
  access_fault, check_entry, user_mem_pages, user_mem_check, pml4e_walk, fault_addr,
}

-- A check of an entry that succeeds went on.
entry-goes_on :
    (perm addr : ℕ) (rest : K Result) (p : Option Slot) (k k' : Kernel)
    → check_entry perm addr rest p k ≡ done (ok 0) k'
    → rest k ≡ done (ok 0) k'
unfolding check_entry access_fault
entry-goes_on perm addr rest none k k' e = absurd (ground (arith, e))
entry-goes_on perm addr rest (some s) k k' e =
    elim (Bool-cases (bit_and (k.mem s.table s.index) perm == perm)) [
      | inl y ↦ ground (arith, e)
      | inr n ↦ absurd (ground (arith, e))
    ]

walk-goes_on :
    (perm addr : ℕ) (rest : K Result) (o : Outcome (Option Slot)) (k' : Kernel)
    → and_then o (check_entry perm addr rest) ≡ done (ok 0) k'
    → (k1 : Kernel) × (rest k1 ≡ done (ok 0) k')
walk-goes_on perm addr rest (done p k) k' e = (k, entry-goes_on perm addr rest p k k' e)
walk-goes_on perm addr rest (runs i k) k' e = absurd (ground (arith, e))
walk-goes_on perm addr rest (halts k) k' e = absurd (ground (arith, e))
walk-goes_on perm addr rest (in_monitor k) k' e = absurd (ground (arith, e))
walk-goes_on perm addr rest panics k' e = absurd (ground (arith, e))
walk-goes_on perm addr rest faults k' e = absurd (ground (arith, e))

pages-goes_on :
    (t : Option ℕ) (va perm n start : ℕ) (k k' : Kernel)
    → user_mem_pages t va perm (suc n) start k ≡ done (ok 0) k'
    → (start < ulim)
      × (k1 : Kernel) × (user_mem_pages t va perm n (start + pgsize) k1 ≡ done (ok 0) k')
unfolding user_mem_pages access_fault
pages-goes_on none va perm n start k k' e = absurd (ground (arith, e))
pages-goes_on (some t) va perm n start k k' e = elim (Bool-cases (leb ulim start)) [
  | inl y ↦ absurd (ground (arith, e))
  | inr b ↦
      let rest = user_mem_pages (some t) va perm n (start + pgsize) in
      let (k1, r) =
        walk-goes_on perm (fault_addr start va) rest (pml4e_walk t start false k) k'
          (ground (arith, e)) in
      (ground arith, k1, r)
]

pages-below :
    (t : Option ℕ) (va perm n start : ℕ) (k k' : Kernel)
    → user_mem_pages t va perm n start k ≡ done (ok 0) k'
    → (m : ℕ) → m < n
    → start + m * 4096 < ulim
pages-below t va perm zero start k k' e m h = absurd (omega arith)
pages-below t va perm (suc n) start k k' e zero h =
    omega (arith, (pages-goes_on t va perm n start k k' e).0)
pages-below t va perm (suc n) start k k' e (suc m) h =
    let (_, k1, e1) = pages-goes_on t va perm n start k k' e in
    omega (arith, pages-below t va perm n (start + pgsize) k1 k' e1 m (omega arith))

in_range :
    (va len a : ℕ)
    → va + len + 4096 ≤ word
    → va ≤ a
    → a < va + len
    → (a - (va - va % 4096)) / 4096 < (round_up (add64 va len) 4096 - round_down va 4096) / 4096
unfolding round_down
in_range va len a small lo hi =
    let (m, up, _) = round_up_page (add64 va len) (omega arith) in omega (arith, m, up)

-- If user_mem_check of a range that ends at least a page below 2^64 returns 0, every address of the
-- range is below ULIM.
pub user_mem_check-below :
    (env : Env) (va len perm : ℕ) (k k' : Kernel) (a : ℕ)
    → va + len + 4096 ≤ word
    → user_mem_check env va len perm k ≡ done (ok 0) k'
    → va ≤ a
    → a < va + len
    → a < ulim
unfolding user_mem_check round_up round_down
user_mem_check-below env va len perm k k' a small e lo hi =
    let start = va - va % 4096 in
    let below =
      pages-below env.env_pml4e va (bit_or perm pte_p)
        ((round_up (add64 va len) pgsize - round_down va pgsize) / pgsize) start k k' e in
    omega (arith, below ((a - start) / 4096) (in_range va len a small lo hi))
