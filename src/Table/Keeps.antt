-- ===== src/Table/Keeps.antt =====
-- The allocation of a page and its insertion in a page map leave the environments and %cr3 alone.
use comp530h.Base.{
  ℕ, zero, suc, ◌/◌, ◌+◌, ◌*◌, ◌&&◌, not, ◌==◌, ◌≡◌, Bool, true, false, leb, ◌%◌, ◌-◌, bit_and,
  bit_or, Option, none, some, Option-cases, inl, inr,
}
use mathlib.Core.Path.{subst, sym}
use comp530h.Layout.{
  add64, ulim, round_up, round_down, pgsize, ppn, flag, ptx, pte_addr, pte_p, pdx, pdpe_index,
  pml4_index,
}
use comp530h.Kernel.Env.{Env}
use comp530h.Kernel.{Kernel, K, done, set_page, pure, ◌>>=◌, ◌>>◌, when}
use comp530h.Kernel.Keeps.{
  Same, Keeps, by_done, by_panic, then-Keeps, choice-Keeps, choose-Keeps, when-Keeps, deref-Keeps,
  kaddr-Keeps,
}
use comp530h.Alloc.{
  page2pa, pa2page, page_clear, page_alloc, page_free, page_decref, incref, alloc_zero,
}
use comp530h.Table.{
  pte_slot, new_table, pgdir_walk, pdpe_walk, pml4e_walk, page_lookup, in_use, tlb_invalidate,
  page_remove, page_insert, user_mem_pages, user_mem_check, access_fault, check_entry,
}

page_clear-Keeps : (p : ℕ) {k0 : Kernel} (k : Kernel) → Same k0 k → Keeps k0 (page_clear p k)
unfolding page_clear
page_clear-Keeps p k h = then-Keeps (kaddr-Keeps (page2pa p) k h) λ _ k h. by_done h

-- page_alloc where the free list is `o`
abbrev alloc_from : (flags : ℕ) → Option ℕ → K (Option ℕ)
alloc_from flags none = pure none
alloc_from flags (some p) = do
  when (flag flags alloc_zero) (page_clear p)
  (λ k. done tt (record k { page_free_list = (k.pages p).pp_link }))
  (λ k. done tt (set_page p (record (k.pages p) { pp_link = none }) k))
  when (flag flags alloc_zero) (page_clear p)
  pure (some p)

alloc_from-Keeps :
    (flags : ℕ) (o : Option ℕ) {k0 : Kernel} (k : Kernel)
    → Same k0 k
    → Keeps k0 (alloc_from flags o k)
alloc_from-Keeps flags none k h = by_done h
alloc_from-Keeps flags (some p) k h =
    then-Keeps (when-Keeps (flag flags alloc_zero) (page_clear p) k h (page_clear-Keeps p k h))
      λ _ k h.
        then-Keeps (when-Keeps (flag flags alloc_zero) (page_clear p) _ h (page_clear-Keeps p _ h))
          λ _ k h. by_done h

page_alloc-alloc_from :
    (flags : ℕ) (k : Kernel) → page_alloc flags k ≡ alloc_from flags k.page_free_list k
unfolding page_alloc
page_alloc-alloc_from flags k = elim (Option-cases k.page_free_list) [
  | inl e ↦ cc e
  | inr (p, e) ↦ cc e
]

pub page_alloc-Keeps :
    (flags : ℕ) {k0 : Kernel} (k : Kernel) → Same k0 k → Keeps k0 (page_alloc flags k)
page_alloc-Keeps flags {k0} k h =
    subst (Keeps k0) (sym (page_alloc-alloc_from flags k))
      (alloc_from-Keeps flags k.page_free_list k h)

new_table-Keeps : (t i : ℕ) {k0 : Kernel} (k : Kernel) → Same k0 k → Keeps k0 (new_table t i k)
unfolding new_table incref
new_table-Keeps t i k h =
    then-Keeps (page_alloc-Keeps alloc_zero k h)
      (elim [ none ↦ λ k h. by_done h | some p ↦ λ k h. by_done h ])

pte_slot-Keeps :
    (entry va : ℕ) {k0 : Kernel} (k : Kernel) → Same k0 k → Keeps k0 (pte_slot entry va k)
unfolding pte_slot
pte_slot-Keeps entry va k h =
    then-Keeps (kaddr-Keeps (pte_addr (pte_addr entry) + ptx va * 8) k h) λ _ k h. by_done h

some_slot-Keeps :
    (entry va : ℕ) {k0 : Kernel} (k : Kernel)
    → Same k0 k
    → Keeps k0 ((do s ← pte_slot entry va; pure (some s)) k)
some_slot-Keeps entry va k h = then-Keeps (pte_slot-Keeps entry va k h) λ _ k h. by_done h

-- What follows a new table, or nothing
new_table_then-Keeps :
    {A : Type 0} (t i : ℕ) (f : ℕ → K (Option A)) {k0 : Kernel} (k : Kernel)
    → Same k0 k
    → ((p : ℕ) (k : Kernel) → Same k0 k → Keeps k0 (f p k))
    → Keeps k0 ((do page ← new_table t i; elim page [ none ↦ pure none | some p ↦ f p ]) k)
new_table_then-Keeps t i f k h g =
    then-Keeps (new_table-Keeps t i k h)
      (elim [ none ↦ λ k h. by_done h | some p ↦ λ k h. g p k h ])

pgdir_walk-Keeps :
    (pgdir va : ℕ) (create : Bool) {k0 : Kernel} (k : Kernel)
    → Same k0 k
    → Keeps k0 (pgdir_walk pgdir va create k)
unfolding pgdir_walk
pgdir_walk-Keeps pgdir va create k h =
    choice-Keeps (flag (k.mem pgdir (pdx va)) pte_p) (some_slot-Keeps (k.mem pgdir (pdx va)) va k h)
      (choice-Keeps create
        (new_table_then-Keeps pgdir (pdx va) _ k h
          λ p k h. some_slot-Keeps (k.mem pgdir (pdx va)) va k h)
        (by_done h))

pdpe_walk-Keeps :
    (pdpe va : ℕ) (create : Bool) {k0 : Kernel} (k : Kernel)
    → Same k0 k
    → Keeps k0 (pdpe_walk pdpe va create k)
unfolding pdpe_walk
pdpe_walk-Keeps pdpe va create k h = choice-Keeps ((k.mem pdpe 0 == 0) && not create) (by_done h) (
    choice-Keeps (flag (k.mem pdpe (pdpe_index va)) pte_p)
      (then-Keeps (kaddr-Keeps _ _ h) λ pde k h. pgdir_walk-Keeps (ppn pde) va create k h)
      (choice-Keeps create
        (new_table_then-Keeps pdpe (pdpe_index va) _ k h λ p k h.
          then-Keeps (kaddr-Keeps _ k h) λ pde k h. pgdir_walk-Keeps (ppn pde) va create k h)
        (by_done h)))

pml4e_walk-Keeps :
    (pml4e va : ℕ) (create : Bool) {k0 : Kernel} (k : Kernel)
    → Same k0 k
    → Keeps k0 (pml4e_walk pml4e va create k)
unfolding pml4e_walk
pml4e_walk-Keeps pml4e va create k h =
    choice-Keeps ((k.mem pml4e 0 == 0) && not create) (by_done h) (
      choice-Keeps (flag (k.mem pml4e (pml4_index va)) pte_p)
        (then-Keeps (kaddr-Keeps _ k h) λ pdpe k h. pdpe_walk-Keeps (ppn pdpe) va create k h)
        (choice-Keeps create
          (new_table_then-Keeps pml4e (pml4_index va) _ k h λ p k h.
            then-Keeps (kaddr-Keeps _ k h) λ pdpe k h. pdpe_walk-Keeps (ppn pdpe) va create k h)
          (by_done h)))

page_lookup-Keeps :
    (pml4e va : ℕ) {k0 : Kernel} (k : Kernel) → Same k0 k → Keeps k0 (page_lookup pml4e va k)
unfolding page_lookup pa2page
page_lookup-Keeps pml4e va k h = then-Keeps (pml4e_walk-Keeps pml4e va false k h) (elim [
  | none ↦ λ k h. by_done h
  | some s ↦ λ k h.
      choose-Keeps (flag (k.mem s.table s.index) pte_p) _ _ k
        (then-Keeps
          (choice-Keeps (leb k.npages (ppn (pte_addr (k.mem s.table s.index)))) by_panic
            (by_done h))
          λ _ k h. by_done h)
        (by_done h)
])

pub page_decref-Keeps : (p : ℕ) {k0 : Kernel} (k : Kernel) → Same k0 k → Keeps k0 (page_decref p k)
unfolding page_decref page_free
page_decref-Keeps p k h =
    choice-Keeps (((k.pages p).pp_ref + 65535) % 65536 == 0) (choice-Keeps _ by_panic (by_done h))
      (by_done h)

pub page_remove-Keeps :
    (pml4e va : ℕ) {k0 : Kernel} (k : Kernel) → Same k0 k → Keeps k0 (page_remove pml4e va k)
unfolding page_remove tlb_invalidate
page_remove-Keeps pml4e va k h = then-Keeps (pml4e_walk-Keeps pml4e va false k h) (elim [
  | none ↦ λ k h. by_done h
  | some s ↦ λ k h. then-Keeps (page_lookup-Keeps pml4e va k h) λ found k h.
      then-Keeps (deref-Keeps found k h) λ (page, pte) k h.
        then-Keeps (page_decref-Keeps page k h)
          λ _ k h. choice-Keeps (in_use k.curenv k.envs pml4e) (by_done h) (by_done h)
])

pub page_insert-Keeps :
    (pml4e pp va perm : ℕ) {k0 : Kernel} (k : Kernel)
    → Same k0 k
    → Keeps k0 (page_insert pml4e pp va perm k)
unfolding page_insert incref
page_insert-Keeps pml4e pp va perm k h = then-Keeps (pml4e_walk-Keeps pml4e va true k h) (elim [
  | none ↦ λ k h. by_done h
  | some s ↦ λ k h.
      then-Keeps
        (when-Keeps (flag (k.mem s.table s.index) pte_p) (page_remove pml4e va) k h
          (page_remove-Keeps pml4e va k h))
        λ _ k h. by_done h
])

user_mem_pages-Keeps :
    (o : Option ℕ) (va perm n start : ℕ) {k0 : Kernel} (k : Kernel)
    → Same k0 k
    → Keeps k0 (user_mem_pages o va perm n start k)
unfolding user_mem_pages access_fault check_entry
user_mem_pages-Keeps o va perm zero start k h = by_done h
user_mem_pages-Keeps o va perm (suc n) start k h = choose-Keeps (leb ulim start) _ _ k (by_done h) (
    then-Keeps (deref-Keeps o k h) λ table k h.
      then-Keeps (pml4e_walk-Keeps table start false k h) (elim [
        | none ↦ λ k h. by_done h
        | some s ↦ λ k h.
            choice-Keeps (bit_and (k.mem s.table s.index) perm == perm)
              (user_mem_pages-Keeps o va perm n (start + pgsize) k h) (by_done h)
      ]))

pub user_mem_check-Keeps :
    (env : Env) (va len perm : ℕ) {k0 : Kernel} (k : Kernel)
    → Same k0 k
    → Keeps k0 (user_mem_check env va len perm k)
unfolding user_mem_check
user_mem_check-Keeps env va len perm k h =
    user_mem_pages-Keeps env.env_pml4e va (bit_or perm pte_p)
      ((round_up (add64 va len) pgsize - round_down va pgsize) / pgsize) (round_down va pgsize) k h
