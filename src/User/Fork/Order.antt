-- ===== src/User/Fork/Order.antt =====
-- What fork has done when it returns a child.
use comp530h.Base.{
  ℕ, zero, suc, ◌+◌, ◌-◌, ◌/◌, ◌%◌, ◌^◌, ◌≡◌, ◌≢◌, refl, Bool, true, false, List, [], ◌∷◌, ◌==◌,
  if◌then◌else◌, arith, ap, sym, ◌∙◌,
}
use mathlib.Core.Path.{subst}
use comp530h.Layout.{pgsize, ustacktop, uxstacktop}
use comp530h.User.{
  Call, page_alloc, page_map, page_unmap, exofork, set_upcall, set_status, copy_page, Process, End,
  returned, panicked, U, return, ◌>>=◌, ◌>>◌, then_run, made, is_negative, syscall_stub, must,
}
use comp530h.User.Fork.{
  pftemp, perm_write, env_runnable, minus_one, Level, set_pgfault_handler, dup_pages, finish_child,
  fork, utext,
}

then-returned :
    {A B : Type 0} (r : End A) (f : A → U B) (b : B) (q : Process)
    → then_run r f ≡ returned b q
    → (a : A) × (o : Process) × (r ≡ returned a o) × (f a o ≡ returned b q)
then-returned (returned a o) f b q e = (a, o, refl, e)
then-returned (panicked o) f b q e = absurd (cc e)

bind-returned :
    {A B : Type 0} (m : U A) (f : A → U B) (p q : Process) (b : B)
    → (m >>= f) p ≡ returned b q
    → (a : A) × (o : Process) × (m p ≡ returned a o) × (f a o ≡ returned b q)
bind-returned m f p q b e = then-returned (m p) f b q e

minus_one-negative : (r : ℕ) → minus_one ≡ r → is_negative r ≡ true
minus_one-negative r e = ap is_negative (sym e)

by_choice :
    {A C : Type 0} (b : Bool) (m n : U A) (p : Process) (x : End A)
    → (m p ≡ x → C)
    → (n p ≡ x → C)
    → (if b then m else n) p ≡ x
    → C
by_choice true m n p x f g e = f e
by_choice false m n p x f g e = g e

returned-inj :
    {A : Type 0} (a b : A) (p q : Process) → returned a p ≡ returned b q → (a ≡ b) × (p ≡ q)
returned-inj a b p q e = (cc e, cc e)

module _ (answer : List Call → Call → ℕ) where
  -- The kernel refuses a call with a negative `int`.
  abbrev pub is_refused : List Call → Call → Bool
  is_refused cs c = is_negative (answer cs c % 2 ^ 32)

  must-then :
      {A : Type 0} (c : Call) (k : U A) (p q : Process) (r : A)
      → (must answer c >> k) p ≡ returned r q
      → (k (made c p) ≡ returned r q) × (is_refused p.calls c ≡ false)
  unfolding must syscall_stub
  must-then c k p q r e = ground arith

  -- The calls after `cs` that make the child ready, the latest first.
  abbrev pub child_calls : (self child : ℕ) → List Call → List Call
  child_calls self child cs =
      set_status child env_runnable
      ∷ set_upcall child
      ∷ page_alloc child (uxstacktop - pgsize) perm_write
      ∷ page_unmap self pftemp
      ∷ page_map self pftemp child (ustacktop - pgsize) perm_write
      ∷ copy_page pftemp (ustacktop - pgsize)
      ∷ page_alloc self pftemp perm_write
      ∷ cs

  -- None of the first `n` calls was refused; a copy is none.
  abbrev pub AreTaken : ℕ → List Call → Type 0
  AreTaken zero cs = Unit {0}
  AreTaken (suc n) [] = Unit {0}
  AreTaken (suc n) (copy_page dst src ∷ cs) = AreTaken n cs
  AreTaken (suc n) (c ∷ cs) = (is_refused cs c ≡ false) × AreTaken n cs

module _ (answer : List Call → Call → ℕ) (tables : List Call → Level → ℕ → ℕ) (self : ℕ) where
  finish_child-calls :
      (child r : ℕ) (p q : Process)
      → finish_child answer tables self child p ≡ returned r q
      → (r ≡ child) × (q.calls ≡ child_calls answer self child p.calls) × AreTaken answer 7 q.calls
  unfolding finish_child
  finish_child-calls child r p q e =
      let (e1, h1) = must-then answer (page_alloc self pftemp perm_write) _ p q r e in
      let p1 : Process =
        made (copy_page pftemp (ustacktop - pgsize)) (made (page_alloc self pftemp perm_write) p) in
      let (e2, h2) =
        must-then answer (page_map self pftemp child (ustacktop - pgsize) perm_write) _ p1 q r e1 in
      let p2 : Process = made (page_map self pftemp child (ustacktop - pgsize) perm_write) p1 in
      let (e3, h3) = must-then answer (page_unmap self pftemp) _ p2 q r e2 in
      let p3 : Process = made (page_unmap self pftemp) p2 in
      let (e4, h4) =
        must-then answer (page_alloc child (uxstacktop - pgsize) perm_write) _ p3 q r e3 in
      let p4 : Process = made (page_alloc child (uxstacktop - pgsize) perm_write) p3 in
      let (e5, h5) = must-then answer (set_upcall child) _ p4 q r e4 in
      let p5 : Process = made (set_upcall child) p4 in
      let (e6, h6) = must-then answer (set_status child env_runnable) (return child) p5 q r e5 in
      let (er, eq) = returned-inj _ _ _ _ e6 in
      let ec : child_calls answer self child p.calls ≡ q.calls = ap Process.calls eq in
      (sym er, sym ec, subst (AreTaken answer 7) ec (h6, (h5, (h4, (h3, (h2, (h1, tt)))))))

  after_exofork :
      (end child r : ℕ) (p q : Process)
      → (if child == 0
            then (λ p. returned 0 (record p { thisenv = self % 1024 }))
            else if is_negative child
            then return minus_one
            else (do
              dup_pages answer tables self child ((end - utext + pgsize - 1) / pgsize) utext
              finish_child answer tables self child))
          p
        ≡ returned r q
      → r ≢ 0
      → is_negative r ≡ false
      → (before : List Call) × (q.calls ≡ child_calls answer self r before)
        × AreTaken answer 7 q.calls
  after_exofork end child r p q e nz nn =
      by_choice (child == 0) _ _ p (returned r q)
        (λ z. absurd (nz (sym ((returned-inj _ _ _ _ z).0))))
        (λ z.
          by_choice (is_negative child) _ _ p (returned r q)
            (λ w.
              let h : is_negative r ≡ true = minus_one-negative r ((returned-inj _ _ _ _ w).0) in
              absurd (cc h))
            (λ w.
              let (_, o, _, e1) =
                bind-returned
                  (dup_pages answer tables self child ((end - utext + pgsize - 1) / pgsize) utext) _
                  p q r w in
              let (er, ec, h) = finish_child-calls child r o q e1 in
              (o.calls, ec ∙ ap (λ x. child_calls answer self x o.calls) (sym er), h))
            z)
        e

  -- When fork returns an environment (neither 0 nor a negative int), its last calls are those of child_calls
  -- for that environment in their order, ENV_RUNNABLE the last, and the kernel refused none of them.
  pub fork-IsReady :
      (end r : ℕ) (p q : Process)
      → fork answer tables self end p ≡ returned r q
      → r ≢ 0
      → is_negative r ≡ false
      → (before : List Call) × (q.calls ≡ child_calls answer self r before)
        × AreTaken answer 7 q.calls
  unfolding fork
  fork-IsReady end r p q e nz nn =
      let (_, o, _, e1) = bind-returned (set_pgfault_handler answer tables self) _ p q r e in
      let (child, n, _, e2) = bind-returned (syscall_stub answer false exofork) _ o q r e1 in
      after_exofork end child r n q e2 nz nn
