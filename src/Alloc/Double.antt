-- ===== src/Alloc/Double.antt =====
-- `page_free` of a page that is on the free list already.
use comp530h.Base.{ℕ, ◌≡◌, ◌≢◌, true, Option, none, some, List, [], ◌∷◌, ◌++◌, arith, has}
use mathlib.Core.Path.{subst}
use comp530h.Kernel.{Kernel, PageInfo, done, panics}
use comp530h.Alloc.{page_free}
use comp530h.Alloc.Chain.{Chain, nil, cons, First, first, head-nil, IsFree}
use comp530h.Alloc.Free.{freed, page_free-freed}

-- The chain passes through each of its pages.
Chain-at :
    {n : ℕ} {pages : ℕ → PageInfo} {head : Option ℕ} (ys : List ℕ) {p : ℕ} {xs : List ℕ}
    → Chain n pages head (ys ++ p ∷ xs)
    → (h : Option ℕ) × First n pages h p xs
Chain-at [] {p} c = (some p, first (rw ((first c).is_head) at c))
Chain-at (y ∷ ys) c = Chain-at ys (first c).rest

link-at :
    {n : ℕ} {pages : ℕ → PageInfo} (ys : List ℕ) {head : Option ℕ} {p q : ℕ} (xs : List ℕ)
    → Chain n pages head (ys ++ p ∷ q ∷ xs)
    → (pages p).pp_link ≡ some q
link-at ys xs c = (first (Chain-at ys c).1.rest).is_head

-- page_free of a page on a well-formed free list that is not the last one panics.
pub page_free-linked :
    (k : Kernel) (ys : List ℕ) (p q : ℕ) (xs : List ℕ)
    → IsFree k (ys ++ p ∷ q ∷ xs)
    → page_free p k ≡ panics
unfolding page_free
page_free-linked k ys p q xs v = ground (arith, link-at ys xs v.chain)

end-at :
    {n : ℕ} {pages : ℕ → PageInfo} {head : Option ℕ} (ys : List ℕ) {p : ℕ}
    → Chain n pages head (ys ++ p ∷ [])
    → pages p ≡ record { pp_link = none; pp_ref = 0 }
end-at ys {p} c = let f = (Chain-at ys c).1 in ground (arith, head-nil f.rest, f.no_ref)

has-append_self : (p : ℕ) (ys : List ℕ) → has p (ys ++ p ∷ []) ≡ true
has-append_self p [] = ground arith
has-append_self p (y ∷ ys) = ground (arith, has-append_self p ys)

-- Any chain from the same head, over pages that differ at `p` alone, comes to `p` as well.
reaches :
    {n : ℕ} {pages pages' : ℕ → PageInfo} {head : Option ℕ} (ys : List ℕ) (p : ℕ) {zs : List ℕ}
    → Chain n pages head (ys ++ p ∷ [])
    → ((q : ℕ) → q ≢ p → pages' q ≡ pages q)
    → Chain n pages' head zs
    → has p zs ≡ true
reaches [] p c same nil = cc ((first c).is_head)
reaches [] p c same (cons lt e out d) = ground (arith, (first c).is_head)
reaches (y ∷ ys) p c same nil = cc ((first c).is_head)
reaches {n} {pages} (y ∷ ys) p c same (cons {p = a} {q} lt e out d) =
    let f = first c in
    let ne : y ≢ p = λ eq. ground (arith, f.fresh, has-append_self p ys) in
    let link : (pages y).pp_link ≡ q = ground (arith, f.is_head, same y ne) in
    ground (arith, reaches ys p (subst (λ h. Chain n pages h (ys ++ p ∷ [])) link f.rest) same d)

cyclic :
    (k : Kernel) (ys : List ℕ) (p : ℕ) (zs : List ℕ)
    → IsFree k (ys ++ p ∷ [])
    → ¬ IsFree (freed p k) zs
cyclic k ys p [] v w = cc (head-nil w.chain)
cyclic k ys p (z ∷ zs) v w =
    let f = first w.chain in
    let e : z ≡ p = ground (arith, f.is_head) in
    let link : ((freed p k).pages z).pp_link ≡ k.page_free_list = ground (arith, e) in
    let d = subst (λ h. Chain k.npages (freed p k).pages h zs) link f.rest in
    let again : has p zs ≡ true = reaches ys p v.chain (λ q ne. ground arith) d in
    ground (arith, f.fresh, again, e)

-- page_free of the last page of a well-formed free list returns, and afterwards no list of distinct
-- free pages is the free list.
pub page_free-last :
    (k : Kernel) (ys : List ℕ) (p : ℕ)
    → IsFree k (ys ++ p ∷ [])
    → (page_free p k ≡ done tt (freed p k)) × ((zs : List ℕ) → ¬ IsFree (freed p k) zs)
page_free-last k ys p v = (page_free-freed k p (end-at ys v.chain), λ zs. cyclic k ys p zs v)
