-- ===== src/Alloc/Chain.antt =====
-- The free list of pages as a chain of links.
use comp530h.Base.{
  ℕ, ◌<◌, ◌≤◌, ◌^◌, ◌≡◌, ◌≢◌, refl, ap, true, false, Option, none, some, List, [], ◌∷◌, arith, has,
}
use comp530h.Kernel.{PageInfo, Kernel}

-- From `head` the links lead through the distinct pages `xs`, each below `n` and with no reference.
pub data Chain (n : ℕ) (pages : ℕ → PageInfo) : Option ℕ → List ℕ → Type 0 where
  nil : Chain n pages none []
  cons :
      {p : ℕ} {q : Option ℕ} {xs : List ℕ}
      → p < n
      → pages p ≡ record { pp_link = q; pp_ref = 0 }
      → has p xs ≡ false
      → Chain n pages q xs
      → Chain n pages (some p) (p ∷ xs)

-- A chain survives a change that spares its pages.
pub frame :
    {n : ℕ} {pages pages' : ℕ → PageInfo} {head : Option ℕ} {xs : List ℕ}
    → Chain n pages head xs
    → ((p : ℕ) → has p xs ≡ true → pages' p ≡ pages p)
    → Chain n pages' head xs
frame nil same = nil
frame (cons {p} lt e out c) same =
    cons lt (ground (arith, same p)) out (frame c λ a i. same a (ground arith))

-- What the chain says of its first page, with the head and the link as equations.
pub record First (n : ℕ) (pages : ℕ → PageInfo) (head : Option ℕ) (p : ℕ) (xs : List ℕ)
    : Type 0 where
  pub is_head : head ≡ some p
  pub in_range : p < n
  pub no_ref : (pages p).pp_ref ≡ 0
  pub fresh : has p xs ≡ false
  pub rest : Chain n pages (pages p).pp_link xs

pub first :
    {n : ℕ} {pages : ℕ → PageInfo} {head : Option ℕ} {p : ℕ} {xs : List ℕ}
    → Chain n pages head (p ∷ xs)
    → First n pages head p xs
first {n} {pages} (cons {xs} lt e out c) = record {
  is_head = refl;
  in_range = lt;
  no_ref = ap (λ (i : PageInfo). i.pp_ref) e;
  fresh = out;
  rest = rw (ap (λ (i : PageInfo). i.pp_link) e) c;
}

pub head-nil :
    {n : ℕ} {pages : ℕ → PageInfo} {head : Option ℕ} → Chain n pages head [] → head ≡ none
head-nil nil = refl

-- A page with a reference, or whose number is out of range, is not on the chain.
pub not-mem_of_ref :
    {n : ℕ} {pages : ℕ → PageInfo} {head : Option ℕ} {xs : List ℕ} (p : ℕ)
    → Chain n pages head xs
    → (pages p).pp_ref ≢ 0
    → has p xs ≡ false
not-mem_of_ref p nil h = refl
not-mem_of_ref p (cons {p = a} lt e out c) h = ground (arith, not-mem_of_ref p c h)

-- The allocator's invariant: the free list is the chain `xs`, and KADDR reaches every page.
pub record IsFree (k : Kernel) (xs : List ℕ) : Type 0 where
  pub chain : Chain k.npages k.pages k.page_free_list xs
  pub small : k.npages ≤ 2 ^ 32
