-- ===== src/Table/Route.antt =====
-- The walk that the processor makes through four levels of tables, and the kernel's walks along it.
use comp530h.Base.{
  ℕ, ◌+◌, ◌*◌, ◌/◌, ◌^◌, ◌≤◌, ◌<◌, ◌≡◌, ◌≢◌, ap, ◌∙◌, Bool, true, false, ◌&&◌, not, none, some,
  arith, ◌==◌, ==_self, ne→==,
}
use comp530h.Base.Bits.{bit_or_flags}
use comp530h.Layout.{ppn, flag, pte_p, pte_addr, pml4_index, pdpe_index, pdx, ptx}
use comp530h.Layout.Address.{flag_p}
use comp530h.Kernel.{Kernel, Slot, done, write, kaddr}
use comp530h.Alloc.{page2pa}
use comp530h.Alloc.Free.{kaddr-ok}
use comp530h.Table.{table_entry, open_entry, pte_slot, pgdir_walk, pdpe_walk, pml4e_walk}

pub open_entry_lem : (e : ℕ) → open_entry e ≡ e / 4096 * 4096 + 7
unfolding open_entry
open_entry_lem e = bit_or_flags (e / 4096)

pub table_entry_lem : (p : ℕ) → table_entry p ≡ p * 4096 + 7
unfolding table_entry
table_entry_lem p = rw (bit_or_flags (page2pa p / 4096)) (omega arith)

-- Entry `i` of table `t` is present and leads to the table `u`.
pub record Leads (k : Kernel) (t i u : ℕ) : Type 0 where
  pub present : flag (k.mem t i) pte_p ≡ true
  pub frame : ppn (k.mem t i) ≡ u
  pub in_range : u < k.npages

-- From `pml4` the entries of `va` lead through `pdpt` and `pd` to the page table `pt`, four
-- different frames.
pub record IsRoute (k : Kernel) (pml4 va pdpt pd pt : ℕ) : Type 0 where
  pub small : k.npages ≤ 2 ^ 32
  pub top : Leads k pml4 (pml4_index va) pdpt
  pub middle : Leads k pdpt (pdpe_index va) pd
  pub bottom : Leads k pd (pdx va) pt
  pub apart : (pdpt ≢ pml4) × (pd ≢ pml4) × (pd ≢ pdpt) × (pt ≢ pml4) × (pt ≢ pdpt) × (pt ≢ pd)

-- A walk that may not create tables gives up at a table whose entry 0 is zero.
pub record Passes (k : Kernel) (create : Bool) (pml4 pdpt : ℕ) : Type 0 where
  pub at_top : ((k.mem pml4 0 == 0) && not create) ≡ false
  pub at_middle : ((k.mem pdpt 0 == 0) && not create) ≡ false

-- The kernel after a walk through entry `i` of the table `pdpt`: that entry lets users write.
abbrev pub opened : ℕ → ℕ → Kernel → Kernel
opened pdpt i k = write pdpt i (open_entry (k.mem pdpt i)) k

abbrev pub slot : ℕ → ℕ → Slot
slot t i = record { table = t; index = i }

pte_slot-ok :
    (k : Kernel) (e va pt : ℕ)
    → ppn e ≡ pt
    → pt < k.npages
    → k.npages ≤ 2 ^ 32
    → pte_slot e va k ≡ done (slot pt (ptx va)) k
unfolding pte_slot
pte_slot-ok k e va pt f lt s =
    rw (kaddr-ok (pte_addr (pte_addr e) + ptx va * 8) k (omega arith) s)
      (ap (λ x. done x k) (ground arith))

pub pgdir_walk-Leads :
    (k : Kernel) (pd va pt : ℕ) (create : Bool)
    → Leads k pd (pdx va) pt
    → k.npages ≤ 2 ^ 32
    → pgdir_walk pd va create k ≡ done (some (slot pt (ptx va))) k
unfolding pgdir_walk
pgdir_walk-Leads k pd va pt create l s =
    rw (l.present, pte_slot-ok k (k.mem pd (pdx va)) va pt l.frame l.in_range s)

module _ (t i w : ℕ) (k : Kernel) where
  pub mem-write_self : (write t i w k).mem t i ≡ w
  mem-write_self = rw (==_self t, ==_self i)

  -- A write leaves the other tables, and what leads from them.
  pub mem-write_ne : (u j : ℕ) → u ≢ t → (write t i w k).mem u j ≡ k.mem u j
  mem-write_ne u j ne = rw (ne→== u t ne)

  pub Leads-write : (u j v : ℕ) → u ≢ t → Leads k u j v → Leads (write t i w k) u j v
  Leads-write u j v ne l = record {
    present = rw (mem-write_ne u j ne) l.present;
    frame = rw (mem-write_ne u j ne) l.frame;
    in_range = l.in_range;
  }

pub ppn-open_entry : (e : ℕ) → ppn (open_entry e) ≡ ppn e
ppn-open_entry e = rw (open_entry_lem e) (omega arith)

pub flag-open_entry : (e : ℕ) → flag (open_entry e) pte_p ≡ true
flag-open_entry e = rw (flag_p (open_entry e), open_entry_lem e) (ground arith)

-- The entry that is opened leads where it led.
pub opened-Leads : (k : Kernel) (t i u : ℕ) → Leads k t i u → Leads (opened t i k) t i u
opened-Leads k t i u l = record {
  present = rw (mem-write_self t i (open_entry (k.mem t i)) k) (flag-open_entry (k.mem t i));
  frame = rw (mem-write_self t i (open_entry (k.mem t i)) k) (ppn-open_entry (k.mem t i) ∙ l.frame);
  in_range = l.in_range;
}

kaddr-table :
    (k : Kernel) (e u : ℕ)
    → ppn e ≡ u
    → u < k.npages
    → k.npages ≤ 2 ^ 32
    → kaddr (pte_addr e) k ≡ done (u * 4096) k
kaddr-table k e u f lt s =
    rw (kaddr-ok (pte_addr e) k (omega arith) s) (ap (λ x. done x k) (omega arith))

pub pdpe_walk-Leads :
    (k : Kernel) (pdpt pd va pt : ℕ) (create : Bool)
    → ((k.mem pdpt 0 == 0) && not create) ≡ false
    → Leads k pdpt (pdpe_index va) pd
    → Leads k pd (pdx va) pt
    → pd ≢ pdpt
    → k.npages ≤ 2 ^ 32
    → pdpe_walk pdpt va create k ≡ done (some (slot pt (ptx va))) (opened pdpt (pdpe_index va) k)
unfolding pdpe_walk
pdpe_walk-Leads k pdpt pd va pt create pass m b ne s =
    let i = pdpe_index va in
    let e = k.mem pdpt i in
    let k1 = opened pdpt i k in
    let page : pd * 4096 / 2 ^ 12 ≡ pd = omega arith in
    rw
      (
        pass,
        m.present,
        mem-write_self pdpt i (open_entry e) k,
        kaddr-table k1 (open_entry e) pd (ppn-open_entry e ∙ m.frame) m.in_range s,
        page,
      )
      (pgdir_walk-Leads k1 pd va pt create (Leads-write pdpt i (open_entry e) k pd (pdx va) pt ne b)
        s)

-- Where the tables of the address exist (IsRoute) and, for a walk without create, the entries 0 of
-- the page map and of the second-level table are not zero (Passes), pml4e_walk returns the slot of
-- the last table that the processor reads, and changes no more than the flags of the second-level
-- entry.
pub pml4e_walk-route :
    (k : Kernel) (pml4 va pdpt pd pt : ℕ) (create : Bool)
    → IsRoute k pml4 va pdpt pd pt
    → Passes k create pml4 pdpt
    → pml4e_walk pml4 va create k ≡ done (some (slot pt (ptx va))) (opened pdpt (pdpe_index va) k)
unfolding pml4e_walk
pml4e_walk-route k pml4 va pdpt pd pt create r p =
    let page : pdpt * 4096 / 2 ^ 12 ≡ pdpt = omega arith in
    rw
      (
        p.at_top,
        r.top.present,
        kaddr-table k (k.mem pml4 (pml4_index va)) pdpt r.top.frame r.top.in_range r.small,
        page,
      )
      (pdpe_walk-Leads k pdpt pd va pt create p.at_middle r.middle r.bottom r.apart.2 r.small)

-- Where the tables of the address exist (IsRoute) and entry 0 of the page map is zero, pml4e_walk
-- without create returns NULL and changes nothing, while with create it returns the slot of the
-- last table.
pub pml4e_walk-first_zero :
    (k : Kernel) (pml4 va pdpt pd pt : ℕ)
    → IsRoute k pml4 va pdpt pd pt
    → k.mem pml4 0 ≡ 0
    → (pml4e_walk pml4 va false k ≡ done none k)
      × (pml4e_walk pml4 va true k ≡ done (some (slot pt (ptx va))) (opened pdpt (pdpe_index va) k))
pml4e_walk-first_zero k pml4 va pdpt pd pt r z =
    (first_zero, pml4e_walk-route k pml4 va pdpt pd pt true r (ground arith))
  where
    first_zero : pml4e_walk pml4 va false k ≡ done none k
    first_zero = unfold pml4e_walk in rw (z)

-- Routes are a matter of the memory and of `npages` alone.
module _ (k k' : Kernel) (m : k'.mem ≡ k.mem) (n : k'.npages ≡ k.npages) where
  pub Leads-of_same : (t i u : ℕ) → Leads k t i u → Leads k' t i u
  Leads-of_same t i u l = record {
    present = rw (ap (λ (f : ℕ → ℕ → ℕ). f t i) m) l.present;
    frame = rw (ap (λ (f : ℕ → ℕ → ℕ). f t i) m) l.frame;
    in_range = rw n l.in_range;
  }

  pub IsRoute-of_same :
      (pml4 va pdpt pd pt : ℕ) → IsRoute k pml4 va pdpt pd pt → IsRoute k' pml4 va pdpt pd pt
  IsRoute-of_same pml4 va pdpt pd pt r = record {
    small = rw n r.small;
    top = Leads-of_same pml4 (pml4_index va) pdpt r.top;
    middle = Leads-of_same pdpt (pdpe_index va) pd r.middle;
    bottom = Leads-of_same pd (pdx va) pt r.bottom;
    apart = r.apart;
  }

  pub Passes-of_same :
      (create : Bool) (pml4 pdpt : ℕ) → Passes k create pml4 pdpt → Passes k' create pml4 pdpt
  Passes-of_same create pml4 pdpt p = record {
    at_top = rw (ap (λ (f : ℕ → ℕ → ℕ). f pml4 0) m) p.at_top;
    at_middle = rw (ap (λ (f : ℕ → ℕ → ℕ). f pdpt 0) m) p.at_middle;
  }
