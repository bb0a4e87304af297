-- ===== src/Primes/Sieve.antt =====
-- The chain at any time: what each process has received.
use comp530h.Base.{
  ℕ, zero, suc, ◌+◌, ◌%◌, ◌≤◌, ◌<◌, ◌≡◌, refl, inl, inr, Bool, true, false, not, ◌&&◌, Bool-cases,
  none, some, List, [], ◌∷◌, ◌==◌, ltb, arith, ap, ◌∙◌, sym,
}
use mathlib.Core.Path.{subst}
use native.Mathlib.Nat.{mod_self}
use comp530h.Primes.{
  Filter, filter, stopped, begin, filtered, deliver, Pass, here, there, Chain, feed, pass, Reach,
  start, step,
}

and_false : (b : Bool) → (b && false) ≡ false
and_false true = refl
and_false false = refl

-- No prime of a list divides `n`.
unfoldable pub is_clear : List ℕ → ℕ → Bool
is_clear [] n = true
is_clear (q ∷ qs) n = not (n % q == 0) && is_clear qs n

-- From `a` on, below `b`, no number is clear of `qs`.
abbrev pub NoneClear : List ℕ → (a b : ℕ) → Type 0
NoneClear qs a b = (n : ℕ) → a ≤ n → n < b → is_clear qs n ≡ false

-- `p` is the first number below `u` that is clear of `qs`.
abbrev pub IsNext : List ℕ → (p u : ℕ) → Type 0
IsNext qs p u = (2 ≤ p) × (p < u) × (is_clear qs p ≡ true) × NoneClear qs 2 p

-- The processes behind those with the primes `qs` have received the numbers below `u` that are clear of
-- `qs`, and no others: the first as the prime of the first process, which has passed on those of the
-- rest that are clear of its prime too, but for what it holds.
abbrev pub HaveReceived : List ℕ → (u : ℕ) → List Filter → Type 0
HaveReceived qs u [] = NoneClear qs 2 u
HaveReceived qs u (filter p none ∷ fs) = IsNext qs p u × HaveReceived (p ∷ qs) u fs
HaveReceived qs u (filter p (some i) ∷ fs) =
    IsNext qs p u
    × (2 ≤ i)
    × (i < u)
    × (is_clear (p ∷ qs) i ≡ true)
    × NoneClear (p ∷ qs) (i + 1) u
    × HaveReceived (p ∷ qs) i fs
HaveReceived qs u (stopped p ∷ fs) = IsNext qs p u × (fs ≡ [])

clear-false : (q n : ℕ) (qs : List ℕ) → is_clear qs n ≡ false → is_clear (q ∷ qs) n ≡ false
unfolding is_clear
clear-false q n qs h = rw h (and_false (not (n % q == 0)))

clear-divided : (q n : ℕ) (qs : List ℕ) → (n % q == 0) ≡ true → is_clear (q ∷ qs) n ≡ false
unfolding is_clear
clear-divided q n qs h = rw h refl

clear-true :
    (q n : ℕ) (qs : List ℕ)
    → (n % q == 0) ≡ false
    → is_clear qs n ≡ true
    → is_clear (q ∷ qs) n ≡ true
unfolding is_clear
clear-true q n qs h k = rw (h, k) refl

NoneClear-join : (qs : List ℕ) (a b c : ℕ) → NoneClear qs a b → NoneClear qs b c → NoneClear qs a c
NoneClear-join qs a b c h k n l l' = elim (Bool-cases (ltb n b)) [
  | inl q ↦ h n l (ground arith)
  | inr q ↦ k n (ground arith) l'
]

NoneClear-more : (q : ℕ) (qs : List ℕ) (a b : ℕ) → NoneClear qs a b → NoneClear (q ∷ qs) a b
NoneClear-more q qs a b h n l l' = clear-false q n qs (h n l l')

NoneClear-one : (qs : List ℕ) (u : ℕ) → is_clear qs u ≡ false → NoneClear qs u (u + 1)
NoneClear-one qs u h n l l' = let e : u ≡ n = omega arith in ap (is_clear qs) (sym e) ∙ h

-- More numbers that are not clear change nothing.
HaveReceived-more :
    (qs : List ℕ) (u u' : ℕ) (fs : List Filter)
    → u ≤ u'
    → NoneClear qs u u'
    → HaveReceived qs u fs
    → HaveReceived qs u' fs
HaveReceived-more qs u u' [] le nc h = NoneClear-join qs 2 u u' h nc
HaveReceived-more qs u u' (filter p none ∷ fs) le nc ((ge, lt, cl, first), h) = (
  (ge, omega arith, cl, first),
  HaveReceived-more (p ∷ qs) u u' fs le (NoneClear-more p qs u u' nc) h,
)
HaveReceived-more qs u u' (filter p (some i) ∷ fs) le nc
      ((ge, lt, cl, first), ge', lt', cl', last, h) =
    (
      (ge, omega arith, cl, first),
      ge',
      omega arith,
      cl',
      NoneClear-join (p ∷ qs) (i + 1) u u' last (NoneClear-more p qs u u' nc),
      h,
    )
HaveReceived-more qs u u' (stopped p ∷ fs) le nc ((ge, lt, cl, first), e) =
    ((ge, omega arith, cl, first), e)

filtered-HaveReceived :
    (qs : List ℕ) (u p : ℕ) (fs : List Filter)
    → 2 ≤ u
    → is_clear qs u ≡ true
    → IsNext qs p (u + 1)
    → HaveReceived (p ∷ qs) u fs
    → HaveReceived qs (u + 1) (filtered u p ∷ fs)
filtered-HaveReceived qs u p fs ge cl nx h = elim (Bool-cases (u % p == 0)) [
  | inl q ↦ rw q (
    nx,
    HaveReceived-more (p ∷ qs) u (u + 1) fs (omega arith)
        (NoneClear-one (p ∷ qs) u (clear-divided p u qs q)) h,
  )
  | inr q ↦ rw q (nx, ge, omega arith, clear-true p u qs q cl, λ n l l'. absurd (omega arith), h)
]

some_inj : {a b : List Filter} → some a ≡ some b → a ≡ b
some_inj {a} e = ap (λ o. elim o [ none ↦ a | some x ↦ x ]) e

nothing_passes : (room : ℕ) (fs fs' : List Filter) → Pass room fs fs' → fs ≡ [] → ⊥
nothing_passes _ _ _ (here e) q = cc q
nothing_passes _ _ _ (there s) q = cc q

begin-HaveReceived :
    (room : ℕ) (qs : List ℕ) (u : ℕ)
    → IsNext qs u (u + 1)
    → HaveReceived qs (u + 1) (begin room u ∷ [])
begin-HaveReceived zero qs u nx = (nx, refl)
begin-HaveReceived (suc room) qs u nx = (
  nx,
  NoneClear-join (u ∷ qs) 2 u (u + 1) (NoneClear-more u qs 2 u nx.3)
      (NoneClear-one (u ∷ qs) u (clear-divided u u qs (rw (mod_self u) refl))),
)

deliver-HaveReceived :
    (room : ℕ) (qs : List ℕ) (u : ℕ) (fs fs' : List Filter)
    → 2 ≤ u
    → is_clear qs u ≡ true
    → deliver room u fs ≡ some fs'
    → HaveReceived qs u fs
    → HaveReceived qs (u + 1) fs'
deliver-HaveReceived room qs u [] fs' ge cl e h =
    subst (HaveReceived qs (u + 1)) (some_inj e)
      (begin-HaveReceived room qs u (ge, omega arith, cl, h))
deliver-HaveReceived room qs u (filter p none ∷ fs) fs' ge cl e ((ge', lt, cl', first), h) =
    subst (HaveReceived qs (u + 1)) (some_inj e)
      (filtered-HaveReceived qs u p fs ge cl (ge', omega arith, cl', first) h)
deliver-HaveReceived room qs u (filter p (some j) ∷ fs) fs' ge cl e h = absurd (cc e)
deliver-HaveReceived room qs u (stopped p ∷ fs) fs' ge cl e h = absurd (cc e)

Pass-HaveReceived :
    (room : ℕ) (qs : List ℕ) (u : ℕ) (fs fs' : List Filter)
    → Pass room fs fs'
    → HaveReceived qs u fs
    → HaveReceived qs u fs'
Pass-HaveReceived _ qs u _ _ (here {room = room} {p = p} {i = i} {fs = fs} {fs' = fs'} e)
      (nx, ge, lt, cl, last, h) =
    (
      nx,
      HaveReceived-more (p ∷ qs) (i + 1) u fs' (omega arith) last
          (deliver-HaveReceived room (p ∷ qs) i fs fs' ge cl e h),
    )
Pass-HaveReceived _ qs u _ _ (there {room = room} {f = filter p none} {fs = fs} {fs' = fs'} s)
      (nx, h) =
    (nx, Pass-HaveReceived room (p ∷ qs) u fs fs' s h)
Pass-HaveReceived _ qs u _ _ (there {room = room} {f = filter p (some i)} {fs = fs} {fs' = fs'} s)
      (nx, ge, lt, cl, last, h) =
    (nx, ge, lt, cl, last, Pass-HaveReceived room (p ∷ qs) i fs fs' s h)
Pass-HaveReceived _ qs u _ _ (there {room = room} {f = stopped p} {fs = fs} {fs' = fs'} s) (nx, e) =
    absurd (nothing_passes room fs fs' s e)

is_clear-nil : (n : ℕ) → is_clear [] n ≡ true
unfolding is_clear
is_clear-nil n = refl

-- What umain has sent is what the chain has received.
pub Reach-HaveReceived :
    (room : ℕ) (c : Chain) → Reach room c → (2 ≤ c.i) × HaveReceived [] c.i c.filters
Reach-HaveReceived room _ start = (omega arith, λ n l l'. absurd (omega arith))
Reach-HaveReceived room _ (step r (feed {i = i} {fs = fs} {fs' = fs'} lt e)) =
    let (ge, h) = Reach-HaveReceived room _ r in
    (omega arith, deliver-HaveReceived room [] i fs fs' ge (is_clear-nil i) e h)
Reach-HaveReceived room _ (step r (pass {i = i} {fs = fs} {fs' = fs'} s)) =
    let (ge, h) = Reach-HaveReceived room _ r in (ge, Pass-HaveReceived room [] i fs fs' s h)
