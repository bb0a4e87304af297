-- ===== src/Syscall/Pages.antt =====
-- The system calls on pages: `sys_page_alloc`, `sys_page_map` and `sys_page_unmap`.
use comp530h.Base.{
  ℕ, ◌*◌, ◌/◌, ◌%◌, ◌<◌, ◌≡◌, ◌≢◌, refl, sym, ap, ◌∙◌, Bool, true, false, Option, some, List, ◌∷◌,
  arith, bit_or, ne→==, ==_self,
}
use comp530h.Layout.{ppn, ptx, pdpe_index, pml4_index, pdx, flag, pte_p, pte_w}
use comp530h.Layout.Address.{flag_w}
use comp530h.Base.Bits.{bit_or_step, bit_or-half, bit_or-zero}
use comp530h.Kernel.{Kernel, K, done, Error, Result, ok, err, e_bad_env, e_inval, deref}
use comp530h.Alloc.{page2pa}
use comp530h.Alloc.Chain.{IsFree, first}
use comp530h.Alloc.Free.{taken, page_alloc-taken}
use comp530h.Table.Route.{Leads, IsRoute, Passes, opened}
use comp530h.Table.Map.{page_lookup_lem}
use comp530h.Table.Insert.{leaf_entry, ppn-leaf_entry, inserted, page_insert-absent, leaf-inserted}
use comp530h.Envs.{envid2env}
use comp530h.Syscall.{
  user_page, perm_ok, perm_some, env_map, sys_page_alloc, sys_page_map, sys_page_unmap,
}

env_map-some :
    (k : Kernel) (e t : ℕ) → (k.envs e).env_pml4e ≡ some t → env_map (some e) k ≡ done t k
unfolding env_map
env_map-some k e t m = ap (λ o. deref o k) m

-- The tables of an address are none of the page `p`.
abbrev pub IsOther : (p pml4 pdpt pd pt : ℕ) → Type 0
IsOther p pml4 pdpt pd pt = (pml4 ≢ p) × (pdpt ≢ p) × (pd ≢ p) × (pt ≢ p)

module _ (k : Kernel) (p : ℕ) where
  taken-ne : (t i : ℕ) → t ≢ p → (taken p k).mem t i ≡ k.mem t i
  taken-ne t i ne = rw (ne→== t p ne) refl

  taken-Leads : (t i u : ℕ) → t ≢ p → Leads k t i u → Leads (taken p k) t i u
  taken-Leads t i u ne l = record {
    present = rw (taken-ne t i ne) l.present;
    frame = rw (taken-ne t i ne) l.frame;
    in_range = l.in_range;
  }

  taken-IsRoute :
      (pml4 va pdpt pd pt : ℕ)
      → IsOther p pml4 pdpt pd pt
      → IsRoute k pml4 va pdpt pd pt
      → IsRoute (taken p k) pml4 va pdpt pd pt
  taken-IsRoute pml4 va pdpt pd pt o r = record {
    small = r.small;
    top = taken-Leads pml4 (pml4_index va) pdpt o.0 r.top;
    middle = taken-Leads pdpt (pdpe_index va) pd o.1 r.middle;
    bottom = taken-Leads pd (pdx va) pt o.2 r.bottom;
    apart = r.apart;
  }

  taken-Passes :
      (create : Bool) (pml4 pdpt : ℕ)
      → pml4 ≢ p
      → pdpt ≢ p
      → Passes k create pml4 pdpt
      → Passes (taken p k) create pml4 pdpt
  taken-Passes create pml4 pdpt a b q = record {
    at_top = rw (taken-ne pml4 0 a) q.at_top;
    at_middle = rw (taken-ne pdpt 0 b) q.at_middle;
  }

-- For an environment that envid2env accepts, a page boundary below UTOP where nothing is mapped and
-- the tables of the address exist (IsRoute), a perm that passes the test, and a first free page
-- that is none of the tables, sys_page_alloc returns 0 and enters the page there, zeroed and with
-- one reference. The frame in the entry is the page number joined with the bits of perm from bit 12
-- on.
pub sys_page_alloc-new :
    (k : Kernel) (envid va perm e pml4 pdpt pd pt p : ℕ) (xs : List ℕ)
    → envid2env envid true k ≡ done (some e, ok 0) k
    → user_page va ≡ true
    → perm_ok perm ≡ true
    → (k.envs e).env_pml4e ≡ some pml4
    → IsFree k (p ∷ xs)
    → IsRoute k pml4 va pdpt pd pt
    → Passes k true pml4 pdpt
    → IsOther p pml4 pdpt pd pt
    → flag (k.mem pt (ptx va)) pte_p ≡ false
    → (k' : Kernel) × (sys_page_alloc envid va perm k ≡ done (ok 0) k')
      × (k'.mem pt (ptx va) ≡ leaf_entry p perm)
      × (ppn (k'.mem pt (ptx va)) ≡ bit_or p (perm / 4096))
      × ((k'.pages p).pp_ref ≡ 1)
      × (k'.mem p ≡ (λ _. 0))
unfolding sys_page_alloc
sys_page_alloc-new k envid va perm e pml4 pdpt pd pt p xs id page bits m v r q o gone =
    let f = first v.chain in
    let k1 = taken p k in
    let k' = inserted va pt p perm (opened pdpt (pdpe_index va) k1) in
    let gone1 : flag (k1.mem pt (ptx va)) pte_p ≡ false = rw (taken-ne k p pt (ptx va) o.3) gone in
    let e' = leaf-inserted va pt p perm (opened pdpt (pdpe_index va) k1) in
    (
      k',
      rw (
        id,
        page,
        bits,
        page_alloc-taken k p f.is_head f.in_range v.small,
        env_map-some k1 e pml4 m,
        page_insert-absent k1 pml4 va pdpt pd pt p perm (taken-IsRoute k p pml4 va pdpt pd pt o r)
            (taken-Passes k p true pml4 pdpt o.0 o.1 q) gone1,
      ),
      e',
      rw e' (ppn-leaf_entry p perm),
      rw (==_self p, f.no_ref) refl,
      rw (ne→== p pt (λ eq. o.3 (sym eq)), ne→== p pdpt (λ eq. o.1 (sym eq)), ==_self p) refl,
    )

flag_w-leaf_entry : (pp perm : ℕ) → flag perm pte_w ≡ true → flag (leaf_entry pp perm) pte_w ≡ true
flag_w-leaf_entry pp perm h =
    let odd : perm / 2 % 2 ≡ 1 = ground (arith, sym (flag_w perm) ∙ h) in
    let half : leaf_entry pp perm / 2 ≡ bit_or (pp * 4096 / 2) (perm / 2) =
      bit_or-half (page2pa pp) (bit_or perm 1)
      ∙ ap (bit_or (pp * 4096 / 2)) (bit_or-half perm 1 ∙ bit_or-zero (perm / 2)) in
    rw (flag_w (leaf_entry pp perm), half, bit_or_step (pp * 4096 / 2) (perm / 2))
      (ground (arith, odd))

-- For environments that envid2env accepts, page boundaries below UTOP and a perm that passes the
-- tests and has PTE_W, sys_page_map returns 0 and maps the page for writing at the destination
-- although the source maps it for reading only. At the source the tables of the address exist
-- (IsRoute), the entries 0 of the page map and of the second-level table are not zero (Passes), and
-- the page is below npages; at the destination the tables exist and nothing is mapped.
pub sys_page_map-read_only :
    (k : Kernel) (srcid srcva dstid dstva perm e d pml4 pdpt pd pt pml4' pdpt' pd' pt' : ℕ)
    → envid2env srcid true k ≡ done (some e, ok 0) k
    → envid2env dstid true k ≡ done (some d, ok 0) k
    → user_page srcva ≡ true
    → user_page dstva ≡ true
    → perm_some perm ≡ true
    → perm_ok perm ≡ true
    → (k.envs e).env_pml4e ≡ some pml4
    → (k.envs d).env_pml4e ≡ some pml4'
    → IsRoute k pml4 srcva pdpt pd pt
    → Passes k false pml4 pdpt
    → ppn (k.mem pt (ptx srcva)) < k.npages
    → flag (k.mem pt (ptx srcva)) pte_p ≡ true
    → flag (k.mem pt (ptx srcva)) pte_w ≡ false
    → flag perm pte_w ≡ true
    → let k1 = opened pdpt (pdpe_index srcva) k in
      IsRoute k1 pml4' dstva pdpt' pd' pt'
      → Passes k1 true pml4' pdpt'
      → flag (k1.mem pt' (ptx dstva)) pte_p ≡ false
      → (k' : Kernel) × (sys_page_map srcid srcva dstid dstva perm k ≡ done (ok 0) k')
        × (k'.mem pt' (ptx dstva) ≡ leaf_entry (ppn (k.mem pt (ptx srcva))) perm)
        × (flag (k'.mem pt' (ptx dstva)) pte_w ≡ true)
unfolding sys_page_map
sys_page_map-read_only k srcid srcva dstid dstva perm e d pml4 pdpt pd pt pml4' pdpt' pd' pt' i i' u
      u' b b' m m' r q lt here ro w r' q' gone =
    let k1 = opened pdpt (pdpe_index srcva) k in
    let pp = ppn (k.mem pt (ptx srcva)) in
    (
      inserted dstva pt' pp perm (opened pdpt' (pdpe_index dstva) k1),
      rw (
        i,
        i',
        u,
        u',
        env_map-some k e pml4 m,
        page_lookup_lem k pml4 srcva pdpt pd pt r q lt,
        here,
        b,
        b',
        env_map-some k1 d pml4' m',
        page_insert-absent k1 pml4' dstva pdpt' pd' pt' pp perm r' q' gone,
      ),
      leaf-inserted dstva pt' pp perm (opened pdpt' (pdpe_index dstva) k1),
      rw (leaf-inserted dstva pt' pp perm (opened pdpt' (pdpe_index dstva) k1))
          (flag_w-leaf_entry pp perm w),
    )

abbrev pub Refuses : Kernel → Error → K Result → Type 0
Refuses k c call = call k ≡ done (err c) k

-- If envid2env refuses an environment, sys_page_alloc, sys_page_unmap and sys_page_map, on either
-- side and with the other environment accepted, return -E_BAD_ENV and change nothing.
pub page_calls-bad_env :
    (k : Kernel) (envid va perm srcid srcva : ℕ) (o s : Option ℕ)
    → envid2env envid true k ≡ done (o, err e_bad_env) k
    → envid2env srcid true k ≡ done (s, ok 0) k
    → Refuses k e_bad_env (sys_page_alloc envid va perm)
      × Refuses k e_bad_env (sys_page_unmap envid va)
      × Refuses k e_bad_env (sys_page_map envid va srcid srcva perm)
      × Refuses k e_bad_env (sys_page_map srcid srcva envid va perm)
unfolding sys_page_alloc sys_page_unmap sys_page_map
page_calls-bad_env k envid va perm srcid srcva o s i i' =
    (rw i refl, rw i refl, rw i refl, rw (i', i) refl)

-- At an address that is not a page boundary below UTOP, for environments that envid2env accepts,
-- sys_page_alloc, sys_page_unmap and sys_page_map, on either side, return -E_INVAL and change
-- nothing.
pub page_calls-bad_va :
    (k : Kernel) (envid va perm srcid srcva : ℕ) (o s : Option ℕ)
    → envid2env envid true k ≡ done (o, ok 0) k
    → envid2env srcid true k ≡ done (s, ok 0) k
    → user_page va ≡ false
    → Refuses k e_inval (sys_page_alloc envid va perm)
      × Refuses k e_inval (sys_page_unmap envid va)
      × Refuses k e_inval (sys_page_map envid va srcid srcva perm)
      × Refuses k e_inval (sys_page_map srcid srcva envid va perm)
unfolding sys_page_alloc sys_page_unmap sys_page_map
page_calls-bad_va k envid va perm srcid srcva o s i i' u =
    (rw (i, u) refl, rw (i, u) refl, rw (i, i', u) refl, ground (arith, i, i', u))
