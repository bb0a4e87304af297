-- ===== src/Table/Map.antt =====
-- `page_lookup`, `page_remove` and `page_insert` at an address whose tables exist.
use comp530h.Base.{
  ℕ, ◌+◌, ◌<◌, ◌≡◌, refl, sym, Bool, true, false, Option, none, some, ◌∷◌, arith, ◌==◌,
  if◌then◌else◌, ==_self, lt→leb, inl, inr, Bool-cases,
}
use comp530h.Layout.{ppn, flag, pte_p, pte_addr, pdpe_index, pml4_index, pdx, ptx}
use comp530h.Kernel.{Kernel, Slot, done, faults, write}
use comp530h.Alloc.{pa2page}
use comp530h.Alloc.Free.{dropped, IsHeld, page_decref-dropped}
use comp530h.Table.{open_entry, in_use, tlb_invalidate, page_lookup, page_remove}
use comp530h.Table.Route.{
  IsRoute, Passes, opened, slot, mem-write_self, mem-write_ne, Leads-write, opened-Leads,
  pml4e_walk-route, open_entry_lem,
}

-- A walk keeps the route that it took, and the entry that it ends at.
module _ (k : Kernel) (pml4 va pdpt pd pt : ℕ) (r : IsRoute k pml4 va pdpt pd pt) where
  abbrev i : ℕ
  i = pdpe_index va

  abbrev w : ℕ
  w = open_entry (k.mem pdpt i)

  pub opened-IsRoute : IsRoute (opened pdpt (pdpe_index va) k) pml4 va pdpt pd pt
  opened-IsRoute = record {
    small = r.small;
    top = Leads-write pdpt i w k pml4 (pml4_index va) pdpt (λ e. r.apart.0 (sym e)) r.top;
    middle = opened-Leads k pdpt i pd r.middle;
    bottom = Leads-write pdpt i w k pd (pdx va) pt r.apart.2 r.bottom;
    apart = r.apart;
  }

  pub opened-Passes :
      (create : Bool)
      → Passes k create pml4 pdpt
      → Passes (opened pdpt (pdpe_index va) k) create pml4 pdpt
  opened-Passes create p = record {
    at_top = rw (mem-write_ne pdpt i w k pml4 0 (λ e. r.apart.0 (sym e))) p.at_top;
    at_middle = ground (arith, open_entry_lem (k.mem pdpt i), p.at_middle);
  }

  pub opened-leaf : (opened pdpt (pdpe_index va) k).mem pt (ptx va) ≡ k.mem pt (ptx va)
  opened-leaf = mem-write_ne pdpt i w k pt (ptx va) r.apart.4

  -- A write to the page table keeps the route as well.
  pub leaf-IsRoute : (v : ℕ) → IsRoute (write pt (ptx va) v k) pml4 va pdpt pd pt
  leaf-IsRoute v = record {
    small = r.small;
    top = Leads-write pt (ptx va) v k pml4 (pml4_index va) pdpt (λ e. r.apart.3 (sym e)) r.top;
    middle = Leads-write pt (ptx va) v k pdpt i pd (λ e. r.apart.4 (sym e)) r.middle;
    bottom = Leads-write pt (ptx va) v k pd (pdx va) pt (λ e. r.apart.5 (sym e)) r.bottom;
    apart = r.apart;
  }

  pub leaf-Passes :
      (v : ℕ) (create : Bool)
      → Passes k create pml4 pdpt
      → Passes (write pt (ptx va) v k) create pml4 pdpt
  leaf-Passes v create p = record {
    at_top = rw (mem-write_ne pt (ptx va) v k pml4 0 (λ e. r.apart.3 (sym e))) p.at_top;
    at_middle = rw (mem-write_ne pt (ptx va) v k pdpt 0 (λ e. r.apart.4 (sym e))) p.at_middle;
  }

pa2page-ok : (k : Kernel) (pa : ℕ) → ppn pa < k.npages → pa2page pa k ≡ done (ppn pa) k
unfolding pa2page
pa2page-ok k pa h = rw (lt→leb k.npages (ppn pa) h)

-- What `page_lookup` finds at a table entry.
abbrev pub found : ℕ → Slot → Option (ℕ × Slot)
found pte s = if flag pte pte_p then some (ppn pte, s) else none

-- Where the tables of the address exist (IsRoute), the entries 0 of the page map and of the second-
-- level table are not zero (Passes), and the frame of the entry is below npages, page_lookup
-- returns the page of the entry and the place of the entry, or NULL if the entry is not present.
pub page_lookup_lem :
    (k : Kernel) (pml4 va pdpt pd pt : ℕ)
    → IsRoute k pml4 va pdpt pd pt
    → Passes k false pml4 pdpt
    → ppn (k.mem pt (ptx va)) < k.npages
    → page_lookup pml4 va k
      ≡ done (found (k.mem pt (ptx va)) (slot pt (ptx va))) (opened pdpt (pdpe_index va) k)
unfolding page_lookup
page_lookup_lem k pml4 va pdpt pd pt r p lt =
    let pte = k.mem pt (ptx va) in
    let k1 = opened pdpt (pdpe_index va) k in
    let page : ppn (pte_addr pte) ≡ ppn pte = omega arith in
    rw (pml4e_walk-route k pml4 va pdpt pd pt false r p, opened-leaf k pml4 va pdpt pd pt r)
      (elim (Bool-cases (flag pte pte_p)) [
        | inl here ↦ rw (here, pa2page-ok k1 (pte_addr pte) (omega arith), page)
        | inr gone ↦ rw gone
      ])

-- The kernel after `tlb_invalidate`.
abbrev pub flushed : ℕ → ℕ → Kernel → Kernel
flushed pml4 va k = record k { tlb = if in_use k.curenv k.envs pml4 then va ∷ k.tlb else k.tlb }

tlb_invalidate-flushed :
    (pml4 va : ℕ) (k : Kernel) → tlb_invalidate pml4 va k ≡ done tt (flushed pml4 va k)
unfolding tlb_invalidate
tlb_invalidate-flushed pml4 va k = elim (Bool-cases (in_use k.curenv k.envs pml4)) [
  | inl u ↦ rw u
  | inr u ↦ rw u
]

-- The kernel after the mapping of `va`, in entry `ptx va` of `pt`, was removed.
abbrev pub removed : (pml4 va pdpt pt : ℕ) → Kernel → Kernel
removed pml4 va pdpt pt k = flushed pml4 va (
    write pt (ptx va) 0 (
      dropped (ppn (k.mem pt (ptx va)))
        (opened pdpt (pdpe_index va) (opened pdpt (pdpe_index va) k))))

pub page_remove-removed :
    (k : Kernel) (pml4 va pdpt pd pt : ℕ)
    → IsRoute k pml4 va pdpt pd pt
    → Passes k false pml4 pdpt
    → flag (k.mem pt (ptx va)) pte_p ≡ true
    → IsHeld k (ppn (k.mem pt (ptx va)))
    → page_remove pml4 va k ≡ done tt (removed pml4 va pdpt pt k)
unfolding page_remove
page_remove-removed k pml4 va pdpt pd pt r p here h =
    let pte = k.mem pt (ptx va) in
    let k1 = opened pdpt (pdpe_index va) k in
    let k2 = opened pdpt (pdpe_index va) k1 in
    let r1 = opened-IsRoute k pml4 va pdpt pd pt r in
    let p1 = opened-Passes k pml4 va pdpt pd pt r false p in
    let leaf : k1.mem pt (ptx va) ≡ pte = opened-leaf k pml4 va pdpt pd pt r in
    let h2 : IsHeld k2 (ppn pte) = record {
      in_range = h.in_range;
      link = h.link;
      pos = h.pos;
      small = h.small;
    } in
    let look = page_lookup_lem k1 pml4 va pdpt pd pt r1 p1 (rw leaf h.in_range) in
    rw
      (
        pml4e_walk-route k pml4 va pdpt pd pt false r p,
        look,
        leaf,
        here,
        page_decref-dropped k2 (ppn pte) h2,
      )
      (tlb_invalidate-flushed pml4 va (write pt (ptx va) 0 (dropped (ppn pte) k2)))

-- Where the tables of the address exist (IsRoute), the entries 0 of the page map and of the second-
-- level table are not zero (Passes), and the entry is not present, with a frame below npages,
-- page_remove faults on a NULL page.
pub page_remove-absent :
    (k : Kernel) (pml4 va pdpt pd pt : ℕ)
    → IsRoute k pml4 va pdpt pd pt
    → Passes k false pml4 pdpt
    → flag (k.mem pt (ptx va)) pte_p ≡ false
    → ppn (k.mem pt (ptx va)) < k.npages
    → page_remove pml4 va k ≡ faults
unfolding page_remove
page_remove-absent k pml4 va pdpt pd pt r p gone lt =
    let k1 = opened pdpt (pdpe_index va) k in
    let leaf : k1.mem pt (ptx va) ≡ k.mem pt (ptx va) = opened-leaf k pml4 va pdpt pd pt r in
    let look =
      page_lookup_lem k1 pml4 va pdpt pd pt (opened-IsRoute k pml4 va pdpt pd pt r)
        (opened-Passes k pml4 va pdpt pd pt r false p) (rw leaf lt) in
    rw (pml4e_walk-route k pml4 va pdpt pd pt false r p, look, leaf, gone)

-- Where the tables of the address exist (IsRoute), the entries 0 of the page map and of the second-
-- level table are not zero (Passes), and a held page is mapped, page_remove zeroes the entry, takes
-- one reference from the page, which goes to the free list if that was the last, and flushes the
-- address from the TLB if the tables are in use.
pub page_remove_lem :
    (k : Kernel) (pml4 va pdpt pd pt : ℕ)
    → IsRoute k pml4 va pdpt pd pt
    → Passes k false pml4 pdpt
    → flag (k.mem pt (ptx va)) pte_p ≡ true
    → IsHeld k (ppn (k.mem pt (ptx va)))
    → let p = ppn (k.mem pt (ptx va)) in
      (k' : Kernel) × (page_remove pml4 va k ≡ done tt k')
      × (k'.mem pt (ptx va) ≡ 0)
      × ((k'.pages p).pp_ref + 1 ≡ (k.pages p).pp_ref)
      × (k'.page_free_list ≡ (if (k.pages p).pp_ref == 1 then some p else k.page_free_list))
      × (k'.tlb ≡ (if in_use k.curenv k.envs pml4 then va ∷ k.tlb else k.tlb))
page_remove_lem k pml4 va pdpt pd pt r p here h =
    let page = ppn (k.mem pt (ptx va)) in
    let k2 = opened pdpt (pdpe_index va) (opened pdpt (pdpe_index va) k) in
    (
      removed pml4 va pdpt pt k,
      page_remove-removed k pml4 va pdpt pd pt r p here h,
      mem-write_self pt (ptx va) 0 (dropped page k2),
      rw (==_self page) (omega (arith, h.pos)),
      refl,
      refl,
    )
