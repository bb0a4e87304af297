-- ===== src/Alloc/Free.antt =====
-- `page_alloc`, `page_free` and `page_decref` on a well-formed free list.
use comp530h.Base.{
  ℕ, ◌+◌, ◌-◌, ◌<◌, ◌≤◌, ◌^◌, ◌≡◌, refl, ap, ◌∙◌, inl, inr, true, false, Option, none, some, List,
  [], ◌∷◌, arith, has, ◌==◌, update, if◌then◌else◌, Bool-cases,
}
use mathlib.Core.Path.{fun_ext}
use comp530h.Layout.{ppn, flag}
use comp530h.Kernel.{Kernel, PageInfo, Outcome, done, ◌>>◌, kaddr, set_page}
use comp530h.Alloc.{page2pa, page_clear, page_alloc, page_free, page_decref, alloc_zero}
use comp530h.Alloc.Chain.{First, first, head-nil, cons, frame, IsFree}

flag-alloc_zero : flag alloc_zero alloc_zero ≡ true
unfolding flag
flag-alloc_zero = refl

pub kaddr-ok :
    (pa : ℕ) (k : Kernel) → ppn pa < k.npages → k.npages ≤ 2 ^ 32 → kaddr pa k ≡ done pa k
unfolding kaddr
kaddr-ok pa k h s = ground arith

abbrev pub cleared : ℕ → Kernel → Kernel
cleared p k = record k { mem = update k.mem p (λ _. 0) }

page_clear-ok :
    (p : ℕ) (k : Kernel) → p < k.npages → k.npages ≤ 2 ^ 32 → page_clear p k ≡ done tt (cleared p k)
unfolding page_clear
page_clear-ok p k h s = rw (kaddr-ok (page2pa p) k (omega arith) s)

-- The state after `page_alloc(ALLOC_ZERO)` took page `p`, the head of the list.
abbrev pub taken : ℕ → Kernel → Kernel
taken p k = record k {
  pages = update k.pages p (record (k.pages p) { pp_link = none });
  page_free_list = (k.pages p).pp_link;
  mem = update (update k.mem p (λ _. 0)) p (λ _. 0);
}

pub page_alloc-taken :
    (k : Kernel) (p : ℕ)
    → k.page_free_list ≡ some p
    → p < k.npages
    → k.npages ≤ 2 ^ 32
    → page_alloc alloc_zero k ≡ done (some p) (taken p k)
unfolding page_alloc
page_alloc-taken k p e h s =
    rw (e, page_alloc, flag-alloc_zero, page_clear-ok p k h s)
      (rw (
        page_clear-ok p
          (record k {
            pages = update k.pages p (record (k.pages p) { pp_link = none });
            page_free_list = (k.pages p).pp_link;
            mem = update k.mem p (λ _. 0);
          })
          h s))

-- What `page_alloc` promises on a free list `xs`.
abbrev pub Allocates : Kernel → List ℕ → Outcome (Option ℕ) → Type 0
Allocates k [] o = o ≡ done none k
Allocates k (p ∷ xs) o =
    (k' : Kernel) × (o ≡ done (some p) k')
    × IsFree k' xs
    × (k'.pages ≡ update k.pages p (record { pp_link = none; pp_ref = 0 }))
    × (k'.mem ≡ update k.mem p (λ _. 0))

taken-IsFree : {k : Kernel} {p : ℕ} {xs : List ℕ} → IsFree k (p ∷ xs) → IsFree (taken p k) xs
taken-IsFree {k} {p} {xs} v = record {
  chain = frame f.rest λ a i. ground (arith, f.fresh);
  small = v.small;
}
  where
    f : First k.npages k.pages k.page_free_list p xs
    f = first v.chain

-- On a well-formed free list (IsFree) page_alloc(ALLOC_ZERO) returns NULL and changes nothing if
-- the list is empty; else it returns the first page, unlinked and zeroed, leaves the rest of the
-- list well-formed, and changes no other page and no other memory.
pub page_alloc_lem :
    (k : Kernel) (xs : List ℕ) → IsFree k xs → Allocates k xs (page_alloc alloc_zero k)
unfolding page_alloc
page_alloc_lem k [] v = ground (arith, head-nil v.chain)
page_alloc_lem k (p ∷ xs) v =
    let f = first v.chain in
    (
      taken p k,
      page_alloc-taken k p f.is_head f.in_range v.small,
      taken-IsFree v,
      ap (λ r. update k.pages p (record { pp_link = none; pp_ref = r })) f.no_ref,
      fun_ext λ q. ground arith,
    )

-- `page_free` of an unlinked page without references puts it in front of the list.
abbrev pub freed : ℕ → Kernel → Kernel
freed p k = record k {
  pages = update k.pages p (record (k.pages p) { pp_link = k.page_free_list });
  page_free_list = some p;
}

pub page_free-freed :
    (k : Kernel) (p : ℕ)
    → k.pages p ≡ record { pp_link = none; pp_ref = 0 }
    → page_free p k ≡ done tt (freed p k)
unfolding page_free
page_free-freed k p e = rw (e, page_free)

pub freed-IsFree :
    (k : Kernel) {p : ℕ} {xs : List ℕ}
    → IsFree k xs
    → p < k.npages
    → (k.pages p).pp_ref ≡ 0
    → has p xs ≡ false
    → IsFree (freed p k) (p ∷ xs)
freed-IsFree k {p} v lt z out = record {
  chain = cons lt (ground arith) out (frame v.chain λ a i. ground arith);
  small = v.small;
}

-- The state after `page_decref` of a page with a reference.
abbrev pub dropped : ℕ → Kernel → Kernel
dropped p k = record k {
  pages = update k.pages p (record {
    pp_link = if (k.pages p).pp_ref == 1 then k.page_free_list else (k.pages p).pp_link;
    pp_ref = (k.pages p).pp_ref - 1;
  });
  page_free_list = if (k.pages p).pp_ref == 1 then some p else k.page_free_list;
}

-- A page that may lose a reference: it has one, and is not linked.
pub record IsHeld (k : Kernel) (p : ℕ) : Type 0 where
  pub in_range : p < k.npages
  pub link : (k.pages p).pp_link ≡ none
  pub pos : 0 < (k.pages p).pp_ref
  pub small : (k.pages p).pp_ref < 65536

pub page_decref-dropped :
    (k : Kernel) (p : ℕ) → IsHeld k p → page_decref p k ≡ done tt (dropped p k)
unfolding page_decref
page_decref-dropped k p h = elim (Bool-cases ((k.pages p).pp_ref == 1)) [
  | inl last ↦
      let k1 = freed p (set_page p (record { pp_link = none; pp_ref = 0 }) k) in
      let step : page_decref p k ≡ done tt k1 = ground (arith, h.link) in
      let same : k1.pages ≡ (dropped p k).pages = fun_ext λ q. ground arith in
      step ∙ ap (λ f. done tt (record k { pages = f; page_free_list = some p })) same ∙ rw last
  | inr more ↦ rw more (ground (arith, h.link))
]

-- On a well-formed free list, page_decref of a page that is not on it and is held (in range, not
-- linked, with a count from 1 to 65535) lowers the count by one and keeps the list well-formed; the
-- list gains the page at its front if that was the last reference, and is unchanged if not.
pub page_decref_lem :
    (k : Kernel) (p : ℕ) (xs : List ℕ)
    → IsFree k xs
    → has p xs ≡ false
    → IsHeld k p
    → (page_decref p k ≡ done tt (dropped p k))
      × (((dropped p k).pages p).pp_ref + 1 ≡ (k.pages p).pp_ref)
      × IsFree (dropped p k) (if (k.pages p).pp_ref == 1 then p ∷ xs else xs)
page_decref_lem k p xs v out h = (page_decref-dropped k p h, ground (arith, h.pos), free)
  where
    free : IsFree (dropped p k) (if (k.pages p).pp_ref == 1 then p ∷ xs else xs)
    free = elim (Bool-cases ((k.pages p).pp_ref == 1)) [
      | inl last ↦ rw last (record {
        chain = cons h.in_range (ground arith) out (frame v.chain λ a i. ground arith);
        small = v.small;
      })
      | inr more ↦ rw more (record { chain = frame v.chain λ a i. ground arith; small = v.small })
    ]

-- On a well-formed free list, page_free of an unlinked page without references that is not on the
-- list, and then page_alloc(ALLOC_ZERO), returns that page and leaves the former list well-formed.
pub page_alloc-page_free :
    (k : Kernel) (p : ℕ) (xs : List ℕ)
    → IsFree k xs
    → p < k.npages
    → k.pages p ≡ record { pp_link = none; pp_ref = 0 }
    → has p xs ≡ false
    → (k' : Kernel) × ((page_free p >> page_alloc alloc_zero) k ≡ done (some p) k') × IsFree k' xs
page_alloc-page_free k p xs v lt e out =
    let v' : IsFree (freed p k) (p ∷ xs) =
      freed-IsFree k v lt (ap (λ (i : PageInfo). i.pp_ref) e) out in
    (
      taken p (freed p k),
      rw (page_free-freed k p e) (page_alloc-taken (freed p k) p refl lt v.small),
      taken-IsFree v',
    )
