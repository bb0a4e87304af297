-- ===== src/User/Fork/Shares.antt =====
-- What fork and its page-fault handler map for writing.
use comp530h.Base.{
  ℕ, zero, suc, ◌+◌, ◌-◌, ◌*◌, ◌/◌, ◌%◌, ◌^◌, ◌≡◌, ◌≢◌, ◌⊎◌, refl, Bool, true, false, not, ◌&&◌,
  ◌||◌, Bool-cases, inl, inr, ==_self, ap, sym, arith, Option, none, some, List, [], ◌∷◌, ◌==◌,
  if◌then◌else◌, bit_and,
}
use mathlib.Core.Path.{subst}
use comp530h.Layout.{pgsize, flag, ustacktop, uxstacktop}
use comp530h.User.{
  Call, page_alloc, page_map, page_unmap, exofork, set_upcall, set_status, copy_page, Process, End,
  returned, panicked, U, return, then_run, made, is_negative, is_positive64, syscall_stub, must,
}
use comp530h.User.Fork.{
  pftemp, perm_write, perm_cow, perm_read, env_runnable, Level, uvpt, attempt, duppage,
  set_pgfault_handler, is_mapped, dup_mapped, dup_pages, finish_child, fork, pte_cow, utext,
  minus_one,
}

-- A mapping with PTE_W of a page that is not the one at PFTEMP.
abbrev pub shares_writable : Call → Bool
shares_writable (page_map src srcva dst dstva perm) =
    not (bit_and perm 2 == 0) && not (srcva == pftemp)
shares_writable _ = false

-- A copy-on-write mapping in another environment than `self`, and the program's own after it.
abbrev pub is_shared : (self : ℕ) → Call → Bool
is_shared self (page_map src srcva dst dstva perm) =
    not (bit_and perm pte_cow == 0) && not (dst == self)
is_shared self _ = false

abbrev pub own_mapping : (self : ℕ) → Call → Call
own_mapping self (page_map src srcva dst dstva perm) = page_map self srcva self srcva perm_cow
own_mapping self c = c

module _ (answer : List Call → Call → ℕ) (self : ℕ) where
  -- No call shares a writable page, and a copy-on-write mapping in another environment that the
  -- kernel has accepted is followed at once by the program's own. `next` is the call after these.
  abbrev pub AreGuarded : (next : Option Call) → List Call → Type 0
  AreGuarded next [] = Unit {0}
  AreGuarded next (c ∷ cs) =
      (shares_writable c ≡ false)
      × (is_shared self c ≡ true → answer cs c ≡ 0 → next ≡ some (own_mapping self c))
      × AreGuarded (some c) cs

  -- However the run ends, its calls are guarded.
  pub data Guards {A : Type 0} : End A → Type 0 where
    by_return : {a : A} {p : Process} → AreGuarded none p.calls → Guards (returned a p)
    by_panic : {p : Process} → AreGuarded none p.calls → Guards (panicked p)

  -- After the last call, another one can follow.
  AreGuarded-next : (c : Call) (cs : List Call) → AreGuarded none cs → AreGuarded (some c) cs
  AreGuarded-next c [] g = tt
  AreGuarded-next c (d ∷ cs) (w, o, g) = (w, λ s a. absurd (cc (o s a)), g)

module _ {A B : Type 0} {answer : List Call → Call → ℕ} {self : ℕ} where
  then-Guards :
      {r : End A} {f : A → U B}
      → Guards answer self r
      → ((a : A) (p : Process) → AreGuarded answer self none p.calls → Guards answer self (f a p))
      → Guards answer self (then_run r f)
  then-Guards (by_return {a = a} {p = p} h) k = k a p h
  then-Guards (by_panic h) k = by_panic h

module _ {A : Type 0} {answer : List Call → Call → ℕ} {self : ℕ} where
  choice-Guards :
      (b : Bool) {r s : End A}
      → Guards answer self r
      → Guards answer self s
      → Guards answer self (if b then r else s)
  choice-Guards true h k = h
  choice-Guards false h k = k

  choose-Guards :
      (b : Bool) (m n : U A) {p : Process}
      → Guards answer self (m p)
      → Guards answer self (n p)
      → Guards answer self ((if b then m else n) p)
  choose-Guards true m n h k = h
  choose-Guards false m n h k = k

module _ (answer : List Call → Call → ℕ) (tables : List Call → Level → ℕ → ℕ) (self : ℕ) where
  -- A call that is no copy-on-write mapping in another environment
  made-AreGuarded :
      (c : Call) (p : Process)
      → shares_writable c ≡ false
      → is_shared self c ≡ false
      → AreGuarded answer self none p.calls
      → AreGuarded answer self none (c ∷ p.calls)
  made-AreGuarded c p w o g =
      (w, λ s a. absurd (cc (o, s)), AreGuarded-next answer self c p.calls g)

  syscall_stub-Guards :
      (check : Bool) (c : Call) (p : Process)
      → AreGuarded answer self none (c ∷ p.calls)
      → Guards answer self (syscall_stub answer check c p)
  unfolding syscall_stub
  syscall_stub-Guards check c p g =
      choice-Guards (check && is_positive64 (answer p.calls c)) (by_panic g) (by_return g)

  must-Guards :
      (c : Call) (p : Process)
      → shares_writable c ≡ false
      → is_shared self c ≡ false
      → AreGuarded answer self none p.calls
      → Guards answer self (must answer c p)
  unfolding must
  must-Guards c p w o g =
      then-Guards (syscall_stub-Guards true c p (made-AreGuarded c p w o g))
        (λ r q g. choose-Guards (is_negative r) _ _ (by_panic g) (by_return g))

  attempt-Guards :
      (c : Call) (p : Process)
      → AreGuarded answer self none (c ∷ p.calls)
      → Guards answer self (attempt answer tables self c (return 0) p)
  attempt-Guards c p g =
      then-Guards (syscall_stub-Guards true c p g)
        (λ r q g. choose-Guards (is_negative r) _ _ (by_return g) (by_return g))

  -- A call with the check panics, at an answer above 0, or returns.
  stub-cases :
      (c : Call) (p : Process)
      → (answer p.calls c ≢ 0) × (syscall_stub answer true c p ≡ panicked (made c p))
        ⊎ (syscall_stub answer true c p ≡ returned (answer p.calls c % 2 ^ 32) (made c p))
  unfolding syscall_stub
  stub-cases c p = elim (Bool-cases (is_positive64 (answer p.calls c))) [
    | inl pos ↦ inl (ground arith, rw pos refl)
    | inr other ↦ inr (rw other refl)
  ]

  -- The child's copy-on-write mapping, and the program's own unless the first was refused
  share-Guards :
      (env addr : ℕ) (p : Process)
      → AreGuarded answer self none p.calls
      → Guards answer self (
          attempt answer tables self
            (page_map self addr env addr perm_cow)
            (attempt answer tables self (page_map self addr self addr perm_cow) (return 0))
            p)
  share-Guards env addr p g =
      let c = page_map self addr env addr perm_cow in
      let own = page_map self addr self addr perm_cow in
      let more = attempt answer tables self own (return 0) in
      let a = answer p.calls c in
      let rest = AreGuarded-next answer self c p.calls g in
      let not_own : (not (self == self)) ≡ false = ap not (==_self self) in
      elim (stub-cases c p) [
        | inl (nz, e) ↦
            subst
              (λ o.
                Guards answer self
                  (then_run o λ r. if is_negative r then return minus_one else more))
              (sym e) (by_panic (refl, λ s z. absurd (nz z), rest))
        | inr e ↦
            subst
              (λ o.
                Guards answer self
                  (then_run o λ r. if is_negative r then return minus_one else more))
              (sym e)
              (elim (Bool-cases (is_negative (a % 2 ^ 32))) [
                | inl neg ↦
                    subst
                      (λ b. Guards answer self ((if b then return minus_one else more) (made c p)))
                      (sym neg) (by_return (refl, λ s z. absurd (ground (arith, neg, z)), rest))
                | inr fine ↦
                    subst
                      (λ b. Guards answer self ((if b then return minus_one else more) (made c p)))
                      (sym fine)
                      (attempt-Guards own (made c p)
                        (refl, λ s z. absurd (cc (not_own, s)), (refl, λ s z. refl, rest)))
              ])
      ]

  duppage-Guards :
      (env pn : ℕ) (p : Process)
      → AreGuarded answer self none p.calls
      → Guards answer self (duppage answer tables self env pn p)
  unfolding duppage
  duppage-Guards env pn p g =
      let addr : ℕ = pn % 2 ^ 32 * pgsize in
      choice-Guards
        (flag (tables p.calls uvpt (pn % 2 ^ 32)) pte_cow
          || flag (tables p.calls uvpt (pn % 2 ^ 32)) 2)
        (share-Guards env addr p g)
        (attempt-Guards (page_map self addr env addr perm_read) p
          (made-AreGuarded (page_map self addr env addr perm_read) p refl refl g))

  dup_mapped-Guards :
      (child addr : ℕ) (p : Process)
      → AreGuarded answer self none p.calls
      → Guards answer self (dup_mapped answer tables self child addr p)
  dup_mapped-Guards child addr p g =
      choice-Guards (is_mapped answer tables self p.calls addr)
        (then-Guards (duppage-Guards child (addr / 2 ^ 12) p g) (λ r q h. by_return h))
        (by_return g)

  dup_pages-Guards :
      (child n addr : ℕ) (p : Process)
      → AreGuarded answer self none p.calls
      → Guards answer self (dup_pages answer tables self child n addr p)
  unfolding dup_pages
  dup_pages-Guards child zero addr p g = by_return g
  dup_pages-Guards child (suc n) addr p g =
      then-Guards (dup_mapped-Guards child addr p g)
        (λ r q h. dup_pages-Guards child n (addr + pgsize) q h)

  set_pgfault_handler-Guards :
      (p : Process)
      → AreGuarded answer self none p.calls
      → Guards answer self (set_pgfault_handler answer tables self p)
  unfolding set_pgfault_handler
  set_pgfault_handler-Guards p g = choice-Guards p.handler_set (by_return g) (
      then-Guards (must-Guards (page_alloc self (uxstacktop - pgsize) perm_write) p refl refl g)
        (λ r q h. then-Guards (must-Guards (set_upcall self) q refl refl h) (λ r q h. by_return h)))

  finish_child-Guards :
      (child : ℕ) (p : Process)
      → AreGuarded answer self none p.calls
      → Guards answer self (finish_child answer tables self child p)
  unfolding finish_child
  finish_child-Guards child p g =
      then-Guards (must-Guards (page_alloc self pftemp perm_write) p refl refl g) λ _ p g.
        then-Guards
          (must-Guards (page_map self pftemp child (ustacktop - pgsize) perm_write)
            (made (copy_page pftemp (ustacktop - pgsize)) p) refl refl
            (made-AreGuarded (copy_page pftemp (ustacktop - pgsize)) p refl refl g))
          λ _ p g. then-Guards (must-Guards (page_unmap self pftemp) p refl refl g) λ _ p g.
            then-Guards
              (must-Guards (page_alloc child (uxstacktop - pgsize) perm_write) p refl refl g)
              λ _ p g. then-Guards (must-Guards (set_upcall child) p refl refl g) λ _ p g.
                then-Guards (must-Guards (set_status child env_runnable) p refl refl g)
                  λ _ p g. by_return g

  -- Whatever the kernel answers, and however fork ends, if the calls before it are such, all calls until
  -- its end are: none asks for a writable mapping of a page other than the one at PFTEMP, and each
  -- copy-on-write mapping in another environment that the kernel accepts with 0 is followed at once by the
  -- call that maps the page copy-on-write in the program itself. So what the child gets of the program's
  -- pages is read-only or copy-on-write, and in the second case the program asks for the same of its own
  -- mapping.
  pub fork-Guards :
      (end : ℕ) (p : Process)
      → AreGuarded answer self none p.calls
      → Guards answer self (fork answer tables self end p)
  unfolding fork
  fork-Guards end p g = then-Guards (set_pgfault_handler-Guards p g) λ _ q h.
      then-Guards (syscall_stub-Guards false exofork q (made-AreGuarded exofork q refl refl h))
        λ child q h. choose-Guards (child == 0) _ _ (by_return h) (
          choose-Guards (is_negative child) _ _ (by_return h) (
            then-Guards (dup_pages-Guards child ((end - utext + pgsize - 1) / pgsize) utext q h)
              (λ _ q h. finish_child-Guards child q h)))
