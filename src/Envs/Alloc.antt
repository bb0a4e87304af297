-- ===== src/Envs/Alloc.antt =====
-- `env_alloc`: the environment that it makes, and its errors.
use comp530h.Base.{
  ℕ, ◌+◌, ◌*◌, ◌/◌, ◌%◌, ◌^◌, ◌<◌, ◌≤◌, ◌≡◌, ◌≢◌, refl, none, some, List, [], ◌∷◌, arith, bit_or,
  ==_self, ne→==,
}
use comp530h.Layout.{pte_p, pte_u, pml4_index, uvpt}
use comp530h.Kernel.{
  Kernel, done, ok, err, e_no_free_env, e_no_mem, set_env, set_page, write, runnable,
}
use comp530h.Kernel.Env.{Env}
use comp530h.Alloc.{page2pa, incref}
use comp530h.Alloc.Chain.{IsFree, first, frame}
use comp530h.Alloc.Free.{kaddr-ok, taken, page_alloc-taken, page_alloc_lem}
use comp530h.Envs.{env_setup_vm, env_alloc, fresh_env, next_env_id, new_tf}

-- No slot is left.
pub env_alloc-no_env :
    (k : Kernel) (parent_id : ℕ)
    → k.env_free_list ≡ none
    → env_alloc parent_id k ≡ done (err e_no_free_env, none) k
unfolding env_alloc
env_alloc-no_env k parent_id z = rw z refl

-- No page is left for the page map.
pub env_alloc-no_mem :
    (k : Kernel) (parent_id e : ℕ)
    → k.env_free_list ≡ some e
    → IsFree k []
    → env_alloc parent_id k ≡ done (err e_no_mem, none) k
unfolding env_alloc env_setup_vm
env_alloc-no_mem k parent_id e s v = ground (arith, s, page_alloc_lem k [] v)

self_map : ℕ → ℕ
self_map p = bit_or (bit_or (page2pa p) pte_p) pte_u

-- The kernel after `env_setup_vm`.
abbrev set_up : (e p : ℕ) → Kernel → Kernel
set_up e p k =
    let k1 = taken p k in
    let k2 = set_page p (record (k1.pages p) { pp_ref = ((k1.pages p).pp_ref + 1) % 65536 }) k1 in
    let k3 = set_env e (record (k2.envs e) { env_pml4e = some p; env_cr3 = page2pa p }) k2 in
    write p (pml4_index uvpt) (self_map p) (write p 1 (k3.mem k3.boot_pml4e 1) k3)

env_setup_vm-set_up :
    (k : Kernel) (e p : ℕ)
    → k.page_free_list ≡ some p
    → p < k.npages
    → k.npages ≤ 2 ^ 32
    → env_setup_vm e k ≡ done (ok 0) (set_up e p k)
unfolding env_setup_vm incref self_map
env_setup_vm-set_up k e p head lt s =
    let k1 = taken p k in
    let k2 = set_page p (record (k1.pages p) { pp_ref = ((k1.pages p).pp_ref + 1) % 65536 }) k1 in
    let page : p * 4096 / 2 ^ 12 ≡ p = omega arith in
    rw (page_alloc-taken k p head lt s, kaddr-ok (page2pa p) k2 (omega arith) s, page)

-- The kernel after `env_alloc`.
abbrev allotted : (parent_id e p : ℕ) → Kernel → Kernel
allotted parent_id e p k =
    let k1 = set_up e p k in
    record (set_env e (fresh_env e parent_id (k1.envs e)) k1) {
      env_free_list = (k1.envs e).env_link;
    }

env_alloc-allotted :
    (k : Kernel) (parent_id e p : ℕ)
    → k.env_free_list ≡ some e
    → k.page_free_list ≡ some p
    → p < k.npages
    → k.npages ≤ 2 ^ 32
    → env_alloc parent_id k ≡ done (ok 0, some e) (allotted parent_id e p k)
unfolding env_alloc
env_alloc-allotted k parent_id e p slot head lt s =
    ground (arith, slot, env_setup_vm-set_up k e p head lt s)

-- The new page map: the kernel's entry 1, itself at UVPT for reading, and nothing else.
abbrev pub IsPageMap : Kernel → (boot p : ℕ) → Kernel → Type 0
IsPageMap k boot p k' =
    (k'.mem p 1 ≡ k.mem boot 1)
    × (k'.mem p (pml4_index uvpt) ≡ bit_or (bit_or (page2pa p) pte_p) pte_u)
    × ((i : ℕ) → i ≢ 1 → i ≢ pml4_index uvpt → k'.mem p i ≡ 0)
    × ((q : ℕ) → q ≢ p → k'.mem q ≡ k.mem q)

set_up-IsPageMap :
    (k : Kernel) (e p : ℕ) → k.boot_pml4e ≢ p → IsPageMap k k.boot_pml4e p (set_up e p k)
unfolding self_map
set_up-IsPageMap k e p apart = (
  rw (==_self p, ne→== k.boot_pml4e p apart) refl,
  rw (==_self p) refl,
  λ i a b. rw (==_self p, ne→== i 2 b, ne→== i 1 a) refl,
  λ q ne. rw (ne→== q p ne) refl,
)

-- The new environment.
abbrev pub IsFresh : Env → (parent_id e p : ℕ) → Env → Type 0
IsFresh old parent_id e p env =
    (env.env_pml4e ≡ some p)
    × (env.env_cr3 ≡ page2pa p)
    × (env.env_id ≡ next_env_id old.env_id e)
    × (env.env_parent_id ≡ parent_id)
    × (env.env_status ≡ runnable)
    × (env.env_tf ≡ new_tf)

-- With a free slot e, a well-formed free list of pages that starts with p, and another frame as the
-- page map of the kernel, env_alloc returns 0 and e. Page p is the page map of e, with the entry 1
-- of the kernel, itself at UVPT and zero elsewhere, and has the count 1; e is runnable with a new
-- id, the given parent and fresh registers; the other free pages stay free, the list of slots goes
-- on at the link of e, and no other slot and no other memory changes.
pub env_alloc_lem :
    (k : Kernel) (parent_id e p : ℕ) (xs : List ℕ)
    → k.env_free_list ≡ some e
    → IsFree k (p ∷ xs)
    → k.boot_pml4e ≢ p
    → (k' : Kernel) × (env_alloc parent_id k ≡ done (ok 0, some e) k')
      × IsFree k' xs
      × ((k'.pages p).pp_ref ≡ 1)
      × IsPageMap k k.boot_pml4e p k'
      × IsFresh (k.envs e) parent_id e p (k'.envs e)
      × (k'.env_free_list ≡ (k.envs e).env_link)
      × ((i : ℕ) → i ≢ e → k'.envs i ≡ k.envs i)
unfolding fresh_env
env_alloc_lem k parent_id e p xs slot v apart =
    let f = first v.chain in
    let page_map : IsPageMap k k.boot_pml4e p (allotted parent_id e p k) =
      set_up-IsPageMap k e p apart in
    let fresh : IsFresh (k.envs e) parent_id e p ((allotted parent_id e p k).envs e) =
      rw (==_self e) (refl, refl, refl, refl, refl, refl) in
    (
      allotted parent_id e p k,
      env_alloc-allotted k parent_id e p slot f.is_head f.in_range v.small,
      record { chain = frame f.rest λ a i. ground (arith, f.fresh); small = v.small },
      ground (arith, f.no_ref),
      page_map,
      fresh,
      rw (==_self e) refl,
      λ i ne. rw (ne→== i e ne) refl,
    )
