-- ===== src/Table.antt =====
-- kern/pmap.c, the page tables: the walks, and `boot_map_region`, `page_insert`, `page_lookup`,
-- `page_remove`, `tlb_invalidate`, `mmio_map_region`, `user_mem_check`.
-- A table is the number of its frame; `int perm` is its 64-bit pattern, sign-extended.
pub mod Keeps
pub mod Route
pub mod Map
pub mod Insert
pub mod Check
use comp530h.Base.{
  ℕ, zero, suc, ◌+◌, ◌-◌, ◌*◌, ◌/◌, Bool, true, false, ◌&&◌, not, Option, none, some, ◌∷◌, ltb, leb,
  ◌==◌, if◌then◌else◌, bit_and, bit_or,
}
use comp530h.Layout.{
  pgsize, ppn, pgoff, flag, pte_p, pte_w, pte_u, pte_pwt, pte_pcd, pte_addr, pml4_index, pdpe_index,
  pdx, ptx, add64, sub64, round_up, round_down, mmiolim, ulim,
}
use comp530h.Kernel.{
  Slot, K, done, pure, ◌>>=◌, ◌>>◌, when, panic, get, deref, store, load, kaddr, Result, ok, err,
  e_no_mem, e_fault,
}
use comp530h.Kernel.Env.{Env}
use comp530h.Alloc.{page2pa, pa2page, page_alloc, alloc_zero, incref, page_decref}

-- `(page2pa(page) & ~0xFFF) | PTE_U | PTE_P | PTE_W`
unfoldable pub table_entry : ℕ → ℕ
table_entry p = bit_or (bit_or (bit_or (pte_addr (page2pa p)) pte_u) pte_p) pte_w

-- `(entry & ~0xFFF) | PTE_U | PTE_P | PTE_W`
unfoldable pub open_entry : ℕ → ℕ
open_entry e = bit_or (bit_or (bit_or (pte_addr e) pte_u) pte_p) pte_w

-- `(pte_t *)KADDR((PTE_ADDR(entry) & ~0xFFF) + PTX(va)*8)`
unfoldable pub pte_slot : ℕ → ℕ → K Slot
pte_slot entry va = do
  pa ← kaddr (pte_addr (pte_addr entry) + ptx va * 8)
  pure (record { table = ppn pa; index = pgoff pa / 8 })

-- A new table page, with its reference counted, entered at `table[i]`; NULL if there is none.
new_table : ℕ → ℕ → K (Option ℕ)
new_table table i = do
  page ← page_alloc alloc_zero
  elim page [
    | none ↦ pure none
    | some p ↦ do
      incref p
      store (record { table = table; index = i }) (table_entry p)
      pure (some p)
  ]

-- The pointer that `pgdir_walk` computes is KADDR's, which is not NULL, so that its last error branch
-- is never taken.
unfoldable pub pgdir_walk : ℕ → ℕ → Bool → K (Option Slot)
unfolding pte_slot new_table
pgdir_walk pgdir va create k =
    if flag (k.mem pgdir (pdx va)) pte_p
    then (do s ← pte_slot (k.mem pgdir (pdx va)) va; pure (some s)) k
    else if create
    then (do
      page ← new_table pgdir (pdx va)
      elim page [
        | none ↦ pure none
        | some p ↦ do
          entry ← load (record { table = pgdir; index = pdx va })
          s ← pte_slot entry va
          pure (some s)
      ])
        k
    else done none k

unfoldable pub pdpe_walk : ℕ → ℕ → Bool → K (Option Slot)
unfolding new_table
pdpe_walk pdpe va create k =
    if (k.mem pdpe 0 == 0) && not create
    then done none k
    else if flag (k.mem pdpe (pdpe_index va)) pte_p
    then (do
      let i = pdpe_index va
      store (record { table = pdpe; index = i }) (open_entry (k.mem pdpe i))
      entry ← load (record { table = pdpe; index = i })
      pde ← kaddr (pte_addr entry)
      pgdir_walk (ppn pde) va create)
        k
    else if create
    then (do
      page ← new_table pdpe (pdpe_index va)
      elim page [
        | none ↦ pure none
        | some p ↦ do
          entry ← load (record { table = pdpe; index = pdpe_index va })
          pde ← kaddr (pte_addr entry)
          pgdir_walk (ppn pde) va create
      ])
        k
    else done none k

-- The first test reads entry 0 of the table, `*pml4e`, and not the entry of `va`.
unfoldable pub pml4e_walk : ℕ → ℕ → Bool → K (Option Slot)
unfolding new_table
pml4e_walk pml4e va create k =
    if (k.mem pml4e 0 == 0) && not create
    then done none k
    else if flag (k.mem pml4e (pml4_index va)) pte_p
    then (do pdpe ← kaddr (pte_addr (k.mem pml4e (pml4_index va))); pdpe_walk (ppn pdpe) va create)
        k
    else if create
    then (do
      page ← new_table pml4e (pml4_index va)
      elim page [
        | none ↦ pure none
        | some p ↦ do
          entry ← load (record { table = pml4e; index = pml4_index va })
          pdpe ← kaddr (pte_addr entry)
          pdpe_walk (ppn pdpe) va create
      ])
        k
    else done none k

-- `n` pages from `la` and `pa` on. The source counts them by an `int`, which suffices for sizes below
-- 2 ^ 43 bytes.
boot_map_pages : (pml4e n la pa perm : ℕ) → K (Unit {0})
boot_map_pages pml4e zero la pa perm = pure tt
boot_map_pages pml4e (suc n) la pa perm = do
  ptr ← pml4e_walk pml4e la true
  s ← deref ptr
  store s (bit_or (bit_or pa perm) pte_p)
  boot_map_pages pml4e n (add64 la pgsize) (add64 pa pgsize) perm

unfoldable pub boot_map_region : (pml4e la size pa perm : ℕ) → K (Unit {0})
unfolding boot_map_pages
boot_map_region pml4e la size pa perm = boot_map_pages pml4e (size / pgsize) la pa perm

-- The page mapped at `va`, with what `pte_store` is given.
unfoldable pub page_lookup : (pml4e va : ℕ) → K (Option (ℕ × Slot))
page_lookup pml4e va = do
  ptr ← pml4e_walk pml4e va false
  elim ptr [
    | none ↦ pure none
    | some s ↦ do
      pte ← load s
      if flag pte pte_p
          then (do page ← pa2page (pte_addr pte); pure (some (page, s)))
          else pure none
  ]

-- The page map of an environment, compared with `pml4e`.
abbrev pub is_table : Option ℕ → ℕ → Bool
is_table none pml4e = false
is_table (some t) pml4e = t == pml4e

-- `!curenv || curenv->env_pml4e == pml4e`
unfoldable pub in_use : Option ℕ → (ℕ → Env) → ℕ → Bool
in_use none envs pml4e = true
in_use (some e) envs pml4e = is_table (envs e).env_pml4e pml4e

-- The assertion that `pml4e` is not NULL holds of any frame.
unfoldable pub tlb_invalidate : (pml4e va : ℕ) → K (Unit {0})
unfolding in_use
tlb_invalidate pml4e va k =
    if in_use k.curenv k.envs pml4e then done tt (record k { tlb = va ∷ k.tlb }) else done tt k

-- Nothing happens where there is no table entry. Where there is one, the page that it maps loses a
-- reference: a NULL page, at an entry that is not present, is a fault.
unfoldable pub page_remove : (pml4e va : ℕ) → K (Unit {0})
page_remove pml4e va = do
  ptr ← pml4e_walk pml4e va false
  elim ptr [
    | none ↦ pure tt
    | some s ↦ do
      found ← page_lookup pml4e va
      (page, pte) ← deref found
      page_decref page
      store pte 0
      tlb_invalidate pml4e va
  ]

unfoldable pub page_insert : (pml4e pp va perm : ℕ) → K Result
page_insert pml4e pp va perm = do
  ptr ← pml4e_walk pml4e va true
  elim ptr [
    | none ↦ pure (err e_no_mem)
    | some s ↦ do
      old ← load s
      when (flag old pte_p) (page_remove pml4e va)
      now ← load s
      store s (pte_addr now)
      store s (bit_or (page2pa pp) (bit_or perm pte_p))
      incref pp
      pure (ok 0)
  ]

unfoldable pub mmio_map_region : (pa size : ℕ) → K ℕ
mmio_map_region pa size = do
  k ← get
  let size_rounded = round_up size pgsize
  let base = k.mmio_base
  when (ltb mmiolim (add64 base size_rounded)) panic
  boot_map_region k.boot_pml4e base size_rounded (round_down pa pgsize)
      (bit_or (bit_or pte_pcd pte_pwt) pte_w)
  (λ k. done tt (record k { mmio_base = add64 base size_rounded }))
  (λ k. done (sub64 k.mmio_base size_rounded) k)

-- The first erroneous address: the page's start, or `va` in the page where the range starts.
unfoldable pub fault_addr : (start va : ℕ) → ℕ
fault_addr start va = if ltb start va then va else start

unfoldable pub access_fault : ℕ → K Result
access_fault addr k = done (err e_fault) (record k { user_mem_check_addr = addr })

-- A page's entry, none if the walk found no table: the check goes on with `rest`, or fails at `addr`.
unfoldable pub check_entry : (perm addr : ℕ) → K Result → Option Slot → K Result
unfolding access_fault
check_entry perm addr rest none k = access_fault addr k
check_entry perm addr rest (some s) k =
    if bit_and (k.mem s.table s.index) perm == perm then rest k else access_fault addr k

-- `n` pages from `start` on
unfoldable pub user_mem_pages : Option ℕ → (va perm n start : ℕ) → K Result
unfolding access_fault fault_addr check_entry
user_mem_pages pml4e va perm zero start = pure (ok 0)
user_mem_pages pml4e va perm (suc n) start =
    let rest = user_mem_pages pml4e va perm n (start + pgsize) in
    if leb ulim start then access_fault start else (do
      table ← deref pml4e
      ptr ← pml4e_walk table start false
      check_entry perm (fault_addr start va) rest ptr)

-- The loop runs while `start < end`; both are page boundaries.
unfoldable pub user_mem_check : (env : Env) (va len perm : ℕ) → K Result
unfolding user_mem_pages
user_mem_check env va len perm = do
  let end = round_up (add64 va len) pgsize
  let start = round_down va pgsize
  user_mem_pages env.env_pml4e va (bit_or perm pte_p) ((end - start) / pgsize) start
