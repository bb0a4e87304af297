-- ===== src/Table/Insert.antt =====
-- `page_insert` at an address whose tables exist: what it maps, and what becomes of a page that was
-- mapped there.
use comp530h.Base.{
  ℕ, ◌+◌, ◌*◌, ◌/◌, ◌%◌, ◌^◌, ◌<◌, ◌≡◌, ◌≢◌, refl, sym, ap, ◌∙◌, true, false, some, ◌∷◌, arith,
  ◌==◌, if◌then◌else◌, bit_or, ==_self, ne→==,
}
use comp530h.Base.Bits.{bit_or-shift, bit_or_step, bit_or-zero}
use comp530h.Layout.{ppn, flag, pte_p, pte_addr, pdpe_index, ptx}
use comp530h.Layout.Address.{flag_p}
use comp530h.Kernel.{Kernel, done, write, set_page, ok}
use comp530h.Alloc.{page2pa, page_alloc, alloc_zero, incref}
use comp530h.Alloc.Free.{IsHeld, taken, page_alloc-taken}
use comp530h.Table.{in_use, page_lookup, page_insert}
use comp530h.Table.Route.{
  IsRoute, Passes, opened, slot, mem-write_self, pml4e_walk-route, IsRoute-of_same, Passes-of_same,
}
use comp530h.Table.Map.{
  opened-IsRoute, opened-Passes, opened-leaf, leaf-IsRoute, leaf-Passes, found, page_lookup_lem,
  removed, page_remove-removed,
}

-- The entry that `page_insert` writes.
abbrev pub leaf_entry : (pp perm : ℕ) → ℕ
leaf_entry pp perm = bit_or (page2pa pp) (bit_or perm pte_p)

-- It is present.
pub flag-leaf_entry : (pp perm : ℕ) → flag (leaf_entry pp perm) pte_p ≡ true
flag-leaf_entry pp perm =
    rw
      (
        flag_p (leaf_entry pp perm),
        bit_or_step (page2pa pp) (bit_or perm pte_p),
        bit_or_step perm pte_p,
      )
      (ground arith)

-- Its frame is the page's number joined with the bits of `perm` from bit 12 on.
pub ppn-leaf_entry : (pp perm : ℕ) → ppn (leaf_entry pp perm) ≡ bit_or pp (perm / 4096)
ppn-leaf_entry pp perm =
    let high : pp * 4096 / 2 ^ 12 ≡ pp = omega arith in
    rw (
      bit_or-shift 12 (page2pa pp) (bit_or perm pte_p),
      high,
      bit_or-shift 12 perm pte_p,
      bit_or-zero (perm / 2 ^ 12),
    )

-- A walk that may create tables passes wherever another does.
Passes-create : (k : Kernel) (pml4 pdpt : ℕ) → Passes k false pml4 pdpt → Passes k true pml4 pdpt
Passes-create k pml4 pdpt p = record { at_top = ground arith; at_middle = ground arith }

-- The kernel after the entry of `va` was written twice and the page's count raised.
abbrev pub inserted : (va pt pp perm : ℕ) → Kernel → Kernel
inserted va pt pp perm k =
    let k1 = write pt (ptx va) (pte_addr (k.mem pt (ptx va))) k in
    let k2 = write pt (ptx va) (leaf_entry pp perm) k1 in
    set_page pp (record (k.pages pp) { pp_ref = ((k.pages pp).pp_ref + 1) % 65536 }) k2

ppn-leaf_entry_small : (pp perm : ℕ) → perm < 4096 → ppn (leaf_entry pp perm) ≡ pp
ppn-leaf_entry_small pp perm h =
    let z : perm / 4096 ≡ 0 = omega arith in rw (ppn-leaf_entry pp perm, z, bit_or-zero pp)

pub leaf-inserted :
    (va pt pp perm : ℕ) (k : Kernel)
    → (inserted va pt pp perm k).mem pt (ptx va) ≡ leaf_entry pp perm
leaf-inserted va pt pp perm k =
    mem-write_self pt (ptx va) (leaf_entry pp perm)
      (write pt (ptx va) (pte_addr (k.mem pt (ptx va))) k)

-- The insertion keeps the route.
module _ (pp perm : ℕ) (k : Kernel) (pml4 va pdpt pd pt : ℕ)
    (r : IsRoute k pml4 va pdpt pd pt) where
  abbrev k1 : Kernel
  k1 = write pt (ptx va) (pte_addr (k.mem pt (ptx va))) k

  abbrev k2 : Kernel
  k2 = write pt (ptx va) (leaf_entry pp perm) k1

  r1 : IsRoute k1 pml4 va pdpt pd pt
  r1 = leaf-IsRoute k pml4 va pdpt pd pt r (pte_addr (k.mem pt (ptx va)))

  inserted-IsRoute : IsRoute (inserted va pt pp perm k) pml4 va pdpt pd pt
  inserted-IsRoute =
      IsRoute-of_same k2 (inserted va pt pp perm k) refl refl pml4 va pdpt pd pt
        (leaf-IsRoute k1 pml4 va pdpt pd pt r1 (leaf_entry pp perm))

  inserted-Passes : Passes k false pml4 pdpt → Passes (inserted va pt pp perm k) false pml4 pdpt
  inserted-Passes p = Passes-of_same k2 (inserted va pt pp perm k) refl refl false pml4 pdpt (
      leaf-Passes k1 pml4 va pdpt pd pt r1 (leaf_entry pp perm) false
        (leaf-Passes k pml4 va pdpt pd pt r (pte_addr (k.mem pt (ptx va))) false p))

module _ (k : Kernel) (pml4 va pdpt pd pt pp perm : ℕ) (r : IsRoute k pml4 va pdpt pd pt) where
  pub page_insert-absent :
      Passes k true pml4 pdpt
      → flag (k.mem pt (ptx va)) pte_p ≡ false
      → page_insert pml4 pp va perm k
        ≡ done (ok 0) (inserted va pt pp perm (opened pdpt (pdpe_index va) k))
  unfolding page_insert incref
  page_insert-absent p gone =
      let k1 = opened pdpt (pdpe_index va) k in
      let gone1 : flag (k1.mem pt (ptx va)) pte_p ≡ false =
        rw (opened-leaf k pml4 va pdpt pd pt r) gone in
      rw (pml4e_walk-route k pml4 va pdpt pd pt true r p, gone1)

  page_insert-present :
      Passes k false pml4 pdpt
      → flag (k.mem pt (ptx va)) pte_p ≡ true
      → IsHeld k (ppn (k.mem pt (ptx va)))
      → page_insert pml4 pp va perm k
        ≡ done
            (ok 0)
            (inserted va pt pp perm (removed pml4 va pdpt pt (opened pdpt (pdpe_index va) k)))
  unfolding page_insert incref
  page_insert-present p here h =
      let k1 = opened pdpt (pdpe_index va) k in
      let leaf = opened-leaf k pml4 va pdpt pd pt r in
      let here1 : flag (k1.mem pt (ptx va)) pte_p ≡ true = rw leaf here in
      let h1 : IsHeld k1 (ppn (k1.mem pt (ptx va))) =
        rw leaf (record { in_range = h.in_range; link = h.link; pos = h.pos; small = h.small }) in
      rw (
        pml4e_walk-route k pml4 va pdpt pd pt true r (Passes-create k pml4 pdpt p),
        here1,
        page_remove-removed k1 pml4 va pdpt pd pt (opened-IsRoute k pml4 va pdpt pd pt r)
            (opened-Passes k pml4 va pdpt pd pt r false p) here1 h1,
      )

-- Where the tables of the address exist (IsRoute), the entries 0 of the page map and of the second-
-- level table are not zero (Passes), and nothing is mapped, a page of `pages` with a count below
-- 65535, inserted by page_insert with perm below 2^12, is what page_lookup finds there afterwards,
-- with the place of the entry; the entry is the page address joined with perm and PTE_P, and the
-- count of the page is one higher.
pub page_lookup-page_insert :
    (k : Kernel) (pml4 va pdpt pd pt pp perm : ℕ)
    → IsRoute k pml4 va pdpt pd pt
    → Passes k false pml4 pdpt
    → flag (k.mem pt (ptx va)) pte_p ≡ false
    → pp < k.npages
    → (k.pages pp).pp_ref < 65535
    → perm < 4096
    → (k' k'' : Kernel) × (page_insert pml4 pp va perm k ≡ done (ok 0) k')
      × (page_lookup pml4 va k' ≡ done (some (pp, slot pt (ptx va))) k'')
      × (k'.mem pt (ptx va) ≡ leaf_entry pp perm)
      × ((k'.pages pp).pp_ref ≡ (k.pages pp).pp_ref + 1)
page_lookup-page_insert k pml4 va pdpt pd pt pp perm r p gone lt few small =
    let k1 = opened pdpt (pdpe_index va) k in
    let k' = inserted va pt pp perm k1 in
    let e : k'.mem pt (ptx va) ≡ leaf_entry pp perm = leaf-inserted va pt pp perm k1 in
    let r' =
      inserted-IsRoute pp perm k1 pml4 va pdpt pd pt (opened-IsRoute k pml4 va pdpt pd pt r) in
    let p' =
      inserted-Passes pp perm k1 pml4 va pdpt pd pt (opened-IsRoute k pml4 va pdpt pd pt r)
        (opened-Passes k pml4 va pdpt pd pt r false p) in
    let frame : ppn (leaf_entry pp perm) ≡ pp = ppn-leaf_entry_small pp perm small in
    let look = page_lookup_lem k' pml4 va pdpt pd pt r' p' (rw (e, frame) lt) in
    let seen : found (k'.mem pt (ptx va)) (slot pt (ptx va)) ≡ some (pp, slot pt (ptx va)) =
      rw (e, flag-leaf_entry pp perm, frame) in
    (
      k',
      opened pdpt (pdpe_index va) k',
      page_insert-absent k pml4 va pdpt pd pt pp perm r (Passes-create k pml4 pdpt p) gone,
      look ∙ ap (λ o. done o (opened pdpt (pdpe_index va) k')) seen,
      e,
      rw (==_self pp) (omega arith),
    )

-- Where the tables of the address exist (IsRoute) and nothing is mapped, page_insert returns 0, and
-- the frame in the entry, which is present, is the page number joined with the bits of perm from
-- bit 12 on.
pub page_insert-high_perm :
    (k : Kernel) (pml4 va pdpt pd pt pp perm : ℕ)
    → IsRoute k pml4 va pdpt pd pt
    → Passes k true pml4 pdpt
    → flag (k.mem pt (ptx va)) pte_p ≡ false
    → (k' : Kernel) × (page_insert pml4 pp va perm k ≡ done (ok 0) k')
      × (flag (k'.mem pt (ptx va)) pte_p ≡ true)
      × (ppn (k'.mem pt (ptx va)) ≡ bit_or pp (perm / 4096))
page_insert-high_perm k pml4 va pdpt pd pt pp perm r p gone =
    let k1 = opened pdpt (pdpe_index va) k in
    let e = leaf-inserted va pt pp perm k1 in
    (
      inserted va pt pp perm k1,
      page_insert-absent k pml4 va pdpt pd pt pp perm r p gone,
      rw e (flag-leaf_entry pp perm),
      rw e (ppn-leaf_entry pp perm),
    )

-- Where the tables of the address exist (IsRoute), the entries 0 of the page map and of the second-
-- level table are not zero (Passes), and a held page is mapped with this mapping as its only
-- reference, page_insert of the same page there returns 0 and leaves it mapped, with the count 1,
-- and the next page_alloc hands it out.
pub page_insert-again :
    (k : Kernel) (pml4 va pdpt pd pt pp perm : ℕ)
    → IsRoute k pml4 va pdpt pd pt
    → Passes k false pml4 pdpt
    → flag (k.mem pt (ptx va)) pte_p ≡ true
    → ppn (k.mem pt (ptx va)) ≡ pp
    → IsHeld k pp
    → (k.pages pp).pp_ref ≡ 1
    → (k' k'' : Kernel) × (page_insert pml4 pp va perm k ≡ done (ok 0) k')
      × (k'.mem pt (ptx va) ≡ leaf_entry pp perm)
      × ((k'.pages pp).pp_ref ≡ 1)
      × (page_alloc alloc_zero k' ≡ done (some pp) k'')
page_insert-again k pml4 va pdpt pd pt pp perm r p here e h one =
    let k1 = opened pdpt (pdpe_index va) k in
    let k2 = removed pml4 va pdpt pt k1 in
    let k' = inserted va pt pp perm k2 in
    let leaf : ppn (k1.mem pt (ptx va)) ≡ pp = rw (opened-leaf k pml4 va pdpt pd pt r) e in
    let first : k'.page_free_list ≡ some pp = rw (leaf, one) in
    (
      k',
      taken pp k',
      page_insert-present k pml4 va pdpt pd pt pp perm r p here (rw e h),
      leaf-inserted va pt pp perm k2,
      rw (leaf, ==_self pp, one),
      page_alloc-taken k' pp first h.in_range r.small,
    )

-- Where the tables of the address exist (IsRoute), the entries 0 of the page map and of the second-
-- level table are not zero (Passes), and a page other than pp is mapped that is held (in range, not
-- linked, with a count from 1 to 65535), page_insert of pp, whose count is below 65535, returns 0
-- and writes the new entry; the old page loses one reference and is put on the free list if that
-- was the last, pp gains one, and the address is flushed from the TLB if the tables are in use.
pub page_insert-replaces :
    (k : Kernel) (pml4 va pdpt pd pt pp perm : ℕ)
    → IsRoute k pml4 va pdpt pd pt
    → Passes k false pml4 pdpt
    → flag (k.mem pt (ptx va)) pte_p ≡ true
    → ppn (k.mem pt (ptx va)) ≢ pp
    → IsHeld k (ppn (k.mem pt (ptx va)))
    → (k.pages pp).pp_ref < 65535
    → let q = ppn (k.mem pt (ptx va)) in
      (k' : Kernel) × (page_insert pml4 pp va perm k ≡ done (ok 0) k')
      × (k'.mem pt (ptx va) ≡ leaf_entry pp perm)
      × ((k'.pages q).pp_ref + 1 ≡ (k.pages q).pp_ref)
      × ((k'.pages pp).pp_ref ≡ (k.pages pp).pp_ref + 1)
      × (k'.page_free_list ≡ (if (k.pages q).pp_ref == 1 then some q else k.page_free_list))
      × (k'.tlb ≡ (if in_use k.curenv k.envs pml4 then va ∷ k.tlb else k.tlb))
page_insert-replaces k pml4 va pdpt pd pt pp perm r p here ne h few =
    let q = ppn (k.mem pt (ptx va)) in
    let k1 = opened pdpt (pdpe_index va) k in
    let k2 = removed pml4 va pdpt pt k1 in
    let k' = inserted va pt pp perm k2 in
    let leaf : k1.mem pt (ptx va) ≡ k.mem pt (ptx va) = opened-leaf k pml4 va pdpt pd pt r in
    (
      k',
      page_insert-present k pml4 va pdpt pd pt pp perm r p here h,
      leaf-inserted va pt pp perm k2,
      rw (leaf, ne→== q pp ne, ==_self q) (omega (arith, h.pos)),
      rw (leaf, ==_self pp, ne→== pp q (λ e. ne (sym e))) (omega arith),
      rw (leaf),
      refl,
    )
