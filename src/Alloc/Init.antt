-- ===== src/Alloc/Init.antt =====
-- `page_init`: which pages start on the free list, and in which order.
use comp530h.Base.{
  ℕ, zero, suc, ◌+◌, ◌/◌, ◌≤◌, ◌<◌, ◌^◌, ◌≡◌, refl, inl, inr, Bool, true, false, Option, none, some,
  ◌∷◌, arith, has, select, ◌==◌, if◌then◌else◌, Bool-cases,
}
use native.Mathlib.Decide.{ℕ_discrete}
use mathlib.Core.Path.{subst}
use comp530h.Layout.{sub64, kernbase, pgsize}
use comp530h.Kernel.{Kernel, done, set_page}
use comp530h.Alloc.{
  first_free, page_init, page_init_loop, page_init_round, append_free, starts_free,
}
use comp530h.Alloc.Chain.{Chain, nil, cons, IsFree}

not-mem-select : (p : ℕ → Bool) (n i j : ℕ) → j < i → has j (select p n i) ≡ false
not-mem-select p zero i j h = refl
not-mem-select p (suc n) i j h = ground (arith, not-mem-select p n (i + 1) j)

select-true : (p : ℕ → Bool) (n i : ℕ) → p i ≡ true → select p (suc n) i ≡ i ∷ select p n (i + 1)
select-true p n i h = rw h

select-false : (p : ℕ → Bool) (n i : ℕ) → p i ≡ false → select p (suc n) i ≡ select p n (i + 1)
select-false p n i h = rw h

-- The reference count that a page starts with.
abbrev pub start_ref : Bool → ℕ
start_ref b = if b then 0 else 1

start_ref-at :
    (p : ℕ → Bool) (i j : ℕ) (b : Bool) {c : ℕ}
    → j ≡ i
    → p i ≡ b
    → c ≡ start_ref b
    → c ≡ start_ref (p j)
start_ref-at p i j b e h q = rw (e, h) q

-- Where the next free page will be linked: behind `last`, or at the head of the list.
abbrev next_link : Option ℕ → Kernel → Option ℕ
next_link none k = k.page_free_list
next_link (some l) k = (k.pages l).pp_link

abbrev IsBelow : Option ℕ → ℕ → Type 0
IsBelow none i = Unit {0}
IsBelow (some l) i = l < i

abbrev is_last : Option ℕ → ℕ → Bool
is_last none j = false
is_last (some l) j = l == j

-- Once a page is linked, the head of the list stays.
abbrev SameHead : Option ℕ → Kernel → Kernel → Type 0
SameHead none k k' = Unit {0}
SameHead (some l) k k' = k'.page_free_list ≡ k.page_free_list

SameHead-refl : (last : Option ℕ) (k : Kernel) → SameHead last k k
SameHead-refl none k = tt
SameHead-refl (some l) k = refl

-- What the rounds from `i` to `i + n` do to `k`, given the last page linked so far.
record Linked (kern_end n i : ℕ) (last : Option ℕ) (k k' : Kernel) : Type 0 where
  chain :
      Chain k.npages k'.pages
        (next_link last k')
        (select (starts_free k.npages_basemem kern_end) n i)
  below : (j : ℕ) → j < i → is_last last j ≡ false → k'.pages j ≡ k.pages j
  refs : (j : ℕ) → j < i → (k'.pages j).pp_ref ≡ (k.pages j).pp_ref
  counts :
      (j : ℕ)
      → i ≤ j
      → j < i + n
      → (k'.pages j).pp_ref ≡ start_ref (starts_free k.npages_basemem kern_end j)
  head : SameHead last k k'
  size : k'.npages ≡ k.npages

abbrev marked : ℕ → ℕ → Kernel → Kernel
marked i ref k = set_page i (record { pp_link = none; pp_ref = ref }) k

module _ (kern_end i : ℕ) (last : Option ℕ) (k : Kernel) where
  round-free :
      starts_free k.npages_basemem kern_end i ≡ true
      → page_init_round kern_end i last k ≡ (some i, append_free last i (marked i 0 k))
  unfolding page_init_round
  round-free h = ground arith

  round-used :
      starts_free k.npages_basemem kern_end i ≡ false
      → page_init_round kern_end i last k ≡ (last, marked i 1 k)
  unfolding page_init_round
  round-used h = ground arith

used-Linked :
    (kern_end n i : ℕ) (last : Option ℕ) (k k' : Kernel)
    → starts_free k.npages_basemem kern_end i ≡ false
    → IsBelow last i
    → Linked kern_end n (i + 1) last (marked i 1 k) k'
    → Linked kern_end (suc n) i last k k'
used-Linked kern_end n i none k k' h b r = record {
  chain = rw (select-false (starts_free k.npages_basemem kern_end) n i h) r.chain;
  below = λ j lt o. ground (arith, r.below j);
  refs = λ j lt. ground (arith, r.refs j);
  counts = λ j le lt. elim (ℕ_discrete j i) [
    | yes e ↦
        start_ref-at (starts_free k.npages_basemem kern_end) i j false e h
          (ground (arith, r.refs i, e))
    | no ne ↦ r.counts j (omega arith) (omega arith)
  ];
  head = tt;
  size = r.size;
}
used-Linked kern_end n i (some l) k k' h b r = record {
  chain = rw (select-false (starts_free k.npages_basemem kern_end) n i h) r.chain;
  below = λ j lt o. ground (arith, r.below j);
  refs = λ j lt. ground (arith, r.refs j);
  counts = λ j le lt. elim (ℕ_discrete j i) [
    | yes e ↦
        start_ref-at (starts_free k.npages_basemem kern_end) i j false e h
          (ground (arith, r.refs i, e))
    | no ne ↦ r.counts j (omega arith) (omega arith)
  ];
  head = r.head;
  size = r.size;
}

free-Linked :
    (kern_end n i : ℕ) (last : Option ℕ) (k k' : Kernel)
    → starts_free k.npages_basemem kern_end i ≡ true
    → IsBelow last i
    → i < k.npages
    → Linked kern_end n (i + 1) (some i) (append_free last i (marked i 0 k)) k'
    → Linked kern_end (suc n) i last k k'
unfolding append_free
free-Linked kern_end n i none k k' h b lt r = record {
  chain = rw (select-true (starts_free k.npages_basemem kern_end) n i h) (
      subst
        (λ x.
          Chain k.npages k'.pages x (i ∷ select (starts_free k.npages_basemem kern_end) n (i + 1)))
        (ground (arith, r.head))
        (cons (omega arith) (ground (arith, r.refs i)) (not-mem-select _ n (i + 1) i (omega arith))
          r.chain));
  below = λ j lt o. ground (arith, r.below j);
  refs = λ j lt. ground (arith, r.refs j);
  counts = λ j le lt. elim (ℕ_discrete j i) [
    | yes e ↦
        start_ref-at (starts_free k.npages_basemem kern_end) i j true e h
          (ground (arith, r.refs i, e))
    | no ne ↦ r.counts j (omega arith) (omega arith)
  ];
  head = tt;
  size = r.size;
}
free-Linked kern_end n i (some l) k k' h b lt r = record {
  chain = rw (select-true (starts_free k.npages_basemem kern_end) n i h) (
      subst
        (λ x.
          Chain k.npages k'.pages x (i ∷ select (starts_free k.npages_basemem kern_end) n (i + 1)))
        (ground (arith, r.below l))
        (cons (omega arith) (ground (arith, r.refs i)) (not-mem-select _ n (i + 1) i (omega arith))
          r.chain));
  below = λ j lt o. ground (arith, r.below j);
  refs = λ j lt. ground (arith, r.refs j);
  counts = λ j le lt. elim (ℕ_discrete j i) [
    | yes e ↦
        start_ref-at (starts_free k.npages_basemem kern_end) i j true e h
          (ground (arith, r.refs i, e))
    | no ne ↦ r.counts j (omega arith) (omega arith)
  ];
  head = r.head;
  size = r.size;
}

npages-append_free :
    (last : Option ℕ) (i : ℕ) (k : Kernel) → (append_free last i (marked i 0 k)).npages ≡ k.npages
unfolding append_free
npages-append_free none i k = refl
npages-append_free (some l) i k = refl

link-append_free :
    (last : Option ℕ) (i : ℕ) (k : Kernel)
    → IsBelow last i
    → next_link (some i) (append_free last i (marked i 0 k)) ≡ none
unfolding append_free
link-append_free none i k b = ground arith
link-append_free (some l) i k b = ground arith

IsBelow-suc : (last : Option ℕ) (i : ℕ) → IsBelow last i → IsBelow last (i + 1)
IsBelow-suc none i b = tt
IsBelow-suc (some l) i b = omega arith

link-marked :
    (last : Option ℕ) (i : ℕ) (k : Kernel)
    → IsBelow last i
    → next_link last k ≡ none
    → next_link last (marked i 1 k) ≡ none
link-marked none i k b l = l
link-marked (some l') i k b l = ground arith

loop-Linked :
    (kern_end n i : ℕ) (last : Option ℕ) (k : Kernel)
    → IsBelow last i
    → i + n ≡ k.npages
    → next_link last k ≡ none
    → Linked kern_end n i last k (page_init_loop kern_end n i last k)
unfolding page_init_loop
loop-Linked kern_end zero i last k b e l = record {
  chain = rw l nil;
  below = λ j h o. refl;
  refs = λ j h. refl;
  counts = λ j g h. absurd (omega arith);
  head = SameHead-refl last k;
  size = refl;
}
loop-Linked kern_end (suc n) i last k b e l =
    elim (Bool-cases (starts_free k.npages_basemem kern_end i)) [
      | inl h ↦ rw (round-free kern_end i last k h) (
          free-Linked kern_end n i last k _ h b (omega arith) (
            loop-Linked kern_end n (i + 1) (some i) (append_free last i (marked i 0 k))
              (omega arith) (rw (npages-append_free last i k) (omega arith))
              (link-append_free last i k b)))
      | inr h ↦ rw (round-used kern_end i last k h) (
          used-Linked kern_end n i last k _ h b (
            loop-Linked kern_end n (i + 1) last (marked i 1 k) (IsBelow-suc last i b) (omega arith)
              (link-marked last i k b l)))
    ]

-- From an empty free list and with at most 2^32 pages, page_init returns; the free list is then the
-- chain, in ascending order, of the pages that start free, and a page j below npages has the count
-- 0 if it starts free and 1 if it does not. A page starts free if it is neither page 0 nor the page
-- of MPENTRY_PADDR, and is below npages_basemem or above the first page after the boot-time
-- allocations.
pub page_init_lem :
    (end : ℕ) (k : Kernel) (j : ℕ)
    → k.page_free_list ≡ none
    → k.npages ≤ 2 ^ 32
    → j < k.npages
    → let kern_end = sub64 (first_free end k) kernbase / pgsize in
      (k' : Kernel) × (page_init end k ≡ done tt k')
      × IsFree k' (select (starts_free k.npages_basemem kern_end) k.npages 0)
      × ((k'.pages j).pp_ref ≡ start_ref (starts_free k.npages_basemem kern_end j))
unfolding page_init
page_init_lem end k j e s lt =
    let kern_end = sub64 (first_free end k) kernbase / pgsize in
    let k1 = record k { nextfree = some (first_free end k) } in
    let r = loop-Linked kern_end k.npages 0 none k1 tt (omega arith) e in
    (
      page_init_loop kern_end k.npages 0 none k1,
      refl,
      record { chain = rw (r.size) r.chain; small = rw (r.size) s },
      r.counts j (omega arith) (omega arith),
    )
