-- ===== src/Primes/Order.antt =====
-- What the chain prints.
use comp530h.Base.{
  ℕ, zero, suc, length, ◌+◌, ◌%◌, ◌≤◌, ◌<◌, ◌≡◌, ◌≢◌, ◌⊎◌, refl, inl, inr, true, false, not, ◌&&◌,
  ◌||◌, Bool-cases, none, some, List, [], ◌∷◌, has, ◌==◌, ltb, arith, ap, ◌∙◌, sym, ==→eq, ==_self,
  eq→==,
}
use native.Mathlib.Decide.{ℕ_discrete}
use native.Mathlib.Nat.{mod_self, mod-eq_of_lt, dvd_trans, dvd_of_mod-eq-zero, mod-eq-zero_of_dvd}
use mathlib.Core.Path.{subst}
use mathlib.Core.Option.{some-injective}
use comp530h.Primes.{
  Filter, filter, stopped, begin, int_max, filtered, deliver, Pass, here, there, Chain, Step, feed,
  pass, Reach, printed, start, step,
}
use comp530h.Primes.Sieve.{is_clear, IsNext, HaveReceived, Reach-HaveReceived}

abbrev pub IsPrime : ℕ → Type 0
IsPrime p = (2 ≤ p) × ((d : ℕ) → 2 ≤ d → d < p → p % d ≢ 0)

-- A list goes on with the primes in order when it has the numbers `earlier` before it: each is a prime, is
-- not among those before it, and all smaller primes are.
abbrev pub AreNextPrimes : (earlier : List ℕ) → List ℕ → Type 0
AreNextPrimes earlier [] = Unit {0}
AreNextPrimes earlier (p ∷ ps) =
    IsPrime p
    × (has p earlier ≡ false)
    × ((n : ℕ) → IsPrime n → n < p → has n earlier ≡ true)
    × AreNextPrimes (p ∷ earlier) ps

mod_trans : (p d q : ℕ) → p % d ≡ 0 → d % q ≡ 0 → p % q ≡ 0
mod_trans p d q h k =
    mod-eq-zero_of_dvd q
      (dvd_trans q (dvd_of_mod-eq-zero q {n = d} k) (dvd_of_mod-eq-zero d {n = p} h))

has-cons : (n q : ℕ) (qs : List ℕ) → has n qs ≡ true → has n (q ∷ qs) ≡ true
has-cons n q qs h = elim (Bool-cases (n == q)) [ inl e ↦ rw e refl | inr e ↦ rw e h ]

has-cases : (n q : ℕ) (qs : List ℕ) → has n (q ∷ qs) ≡ true → (n ≡ q) ⊎ (has n qs ≡ true)
has-cases n q qs h = elim (Bool-cases (n == q)) [
  | inl e ↦ inl (==→eq n q e)
  | inr e ↦ inr (sym (ap (λ b. b || has n qs) e) ∙ h)
]

-- Not clear means divided by one of the list.
not_clear-divided :
    (qs : List ℕ) (n : ℕ) → is_clear qs n ≡ false → (q : ℕ) × (has q qs ≡ true) × (n % q ≡ 0)
unfolding is_clear
not_clear-divided [] n h = absurd (cc h)
not_clear-divided (q ∷ qs) n h = elim (Bool-cases (n % q == 0)) [
  | inl e ↦ (q, rw (==_self q) refl, ==→eq (n % q) 0 e)
  | inr e ↦
      let (r, m, z) = not_clear-divided qs n (sym (ap (λ b. not b && is_clear qs n) e) ∙ h) in
      (r, has-cons r q qs m, z)
]

clear-has : (qs : List ℕ) (n q : ℕ) → is_clear qs n ≡ true → has q qs ≡ true → n % q ≢ 0
unfolding is_clear
clear-has [] n q h m z = absurd (cc m)
clear-has (r ∷ qs) n q h m z = elim (has-cases q r qs m) [
  | inl e ↦
      let same : (n % r == 0) ≡ true = eq→== (n % r) 0 (ap (λ x. n % x) (sym e) ∙ z) in
      absurd (cc (sym (ap (λ b. not b && is_clear qs n) same) ∙ h))
  | inr m' ↦ elim (Bool-cases (n % r == 0)) [
    | inl e ↦ absurd (cc (sym (ap (λ b. not b && is_clear qs n) e) ∙ h))
    | inr e ↦ clear-has qs n q (sym (ap (λ b. not b && is_clear qs n) e) ∙ h) m' z
  ]
]

compare_cases : (a b : ℕ) → (a ≡ b) ⊎ ((a < b) ⊎ (b < a))
compare_cases a b = elim (ℕ_discrete a b) [
  | yes e ↦ inl e
  | no n ↦
      inr (elim (Bool-cases (ltb a b)) [ inl l ↦ inl (ground arith) | inr g ↦ inr (ground arith) ])
]

big_cons :
    (p : ℕ) (qs : List ℕ)
    → 2 ≤ p
    → ((q : ℕ) → has q qs ≡ true → 2 ≤ q)
    → (q : ℕ) → has q (p ∷ qs) ≡ true
    → 2 ≤ q
big_cons p qs ge big q m = elim (has-cases q p qs m) [
  | inl e ↦ omega (arith, ge, e)
  | inr m' ↦ big q m'
]

module _ (qs : List ℕ) (big : (q : ℕ) → has q qs ≡ true → 2 ≤ q) (p u : ℕ)
    (nx : IsNext qs p u) where
  IsNext-IsPrime : IsPrime p
  IsNext-IsPrime = (
    nx.0,
    λ d ge lt z.
        let (q, m, y) = not_clear-divided qs d (nx.3 d ge lt) in
        clear-has qs p q nx.2 m (mod_trans p d q z y),
  )

  IsNext-new : has p qs ≡ false
  IsNext-new = elim (Bool-cases (has p qs)) [
    | inl m ↦ absurd (clear-has qs p p nx.2 m (mod_self p))
    | inr m ↦ m
  ]

  IsNext-after : (n : ℕ) → IsPrime n → n < p → has n qs ≡ true
  IsNext-after n (ge, prime) lt =
      let (q, m, z) = not_clear-divided qs n (nx.3 n ge lt) in
      elim (compare_cases q n) [
        | inl e ↦ ap (λ x. has x qs) (sym e) ∙ m
        | inr (inl l) ↦ absurd (prime q (big q m) l z)
        | inr (inr g) ↦ let e : n % q ≡ n = mod-eq_of_lt g in absurd (omega (arith, e, z, ge))
      ]

HaveReceived-AreNextPrimes :
    (qs : List ℕ) (u : ℕ) (fs : List Filter)
    → ((q : ℕ) → has q qs ≡ true → 2 ≤ q)
    → HaveReceived qs u fs
    → AreNextPrimes qs (printed fs)
HaveReceived-AreNextPrimes qs u [] big h = tt
HaveReceived-AreNextPrimes qs u (filter p none ∷ fs) big (nx, h) = (
  IsNext-IsPrime qs big p u nx,
  IsNext-new qs big p u nx,
  IsNext-after qs big p u nx,
  HaveReceived-AreNextPrimes (p ∷ qs) u fs (big_cons p qs nx.0 big) h,
)
HaveReceived-AreNextPrimes qs u (filter p (some i) ∷ fs) big (nx, _, _, _, _, h) = (
  IsNext-IsPrime qs big p u nx,
  IsNext-new qs big p u nx,
  IsNext-after qs big p u nx,
  HaveReceived-AreNextPrimes (p ∷ qs) i fs (big_cons p qs nx.0 big) h,
)
HaveReceived-AreNextPrimes qs u (stopped p ∷ fs) big (nx, e) = (
  IsNext-IsPrime qs big p u nx,
  IsNext-new qs big p u nx,
  IsNext-after qs big p u nx,
  subst (λ l. AreNextPrimes (p ∷ qs) (printed l)) (sym e) tt,
)

-- A process stops only where no fork is left.
abbrev HasRoom : (room : ℕ) → List Filter → Type 0
HasRoom room [] = Unit {0}
HasRoom room (stopped p ∷ fs) = (room ≡ 0) × (fs ≡ [])
HasRoom zero (filter p held ∷ fs) = ⊥
HasRoom (suc room) (filter p held ∷ fs) = HasRoom room fs

begin-HasRoom : (room i : ℕ) → HasRoom room (begin room i ∷ [])
begin-HasRoom zero i = (refl, refl)
begin-HasRoom (suc room) i = tt

deliver-HasRoom :
    (room i : ℕ) (fs fs' : List Filter)
    → deliver room i fs ≡ some fs'
    → HasRoom room fs
    → HasRoom room fs'
deliver-HasRoom room i [] fs' e h =
    subst (HasRoom room) (some-injective _ fs' e) (begin-HasRoom room i)
deliver-HasRoom (suc room) i (filter p none ∷ fs) fs' e h =
    subst (HasRoom (suc room)) (some-injective _ fs' e) h
deliver-HasRoom zero i (filter p none ∷ fs) fs' e h = absurd h
deliver-HasRoom room i (filter p (some j) ∷ fs) fs' e h = absurd (cc e)
deliver-HasRoom room i (stopped p ∷ fs) fs' e h = absurd (cc e)

Pass-HasRoom :
    (room : ℕ) (fs fs' : List Filter) → Pass room fs fs' → HasRoom room fs → HasRoom room fs'
Pass-HasRoom _ _ _ (here {room = room} {i = i} {fs = fs} {fs' = fs'} e) h =
    deliver-HasRoom room i fs fs' e h
Pass-HasRoom _ _ _ (there {room = room} {f = filter p held} {fs = fs} {fs' = fs'} s) h =
    Pass-HasRoom room fs fs' s h
Pass-HasRoom _ _ _ (there {f = stopped p} s) (z, e) = absurd (omega (arith, z))

Reach-HasRoom : (room : ℕ) (c : Chain) → Reach room c → HasRoom room c.filters
Reach-HasRoom room _ start = tt
Reach-HasRoom room _ (step r (feed {i = i} {fs = fs} {fs' = fs'} lt e)) =
    deliver-HasRoom room i fs fs' e (Reach-HasRoom room _ r)
Reach-HasRoom room _ (step r (pass {fs = fs} {fs' = fs'} s)) =
    Pass-HasRoom room fs fs' s (Reach-HasRoom room _ r)

HasRoom-length : (room : ℕ) (fs : List Filter) → HasRoom room fs → length fs ≤ suc room
HasRoom-length room [] h = omega arith
HasRoom-length room (stopped p ∷ fs) (z, e) =
    let none_behind : length fs ≡ 0 = ap length e in omega (arith, none_behind)
HasRoom-length zero (filter p held ∷ fs) h = absurd h
HasRoom-length (suc room) (filter p held ∷ fs) h = omega (arith, HasRoom-length room fs h)

-- A value can be given to a row of processes, or one of these can give its own.
moves :
    (room i : ℕ) (fs : List Filter)
    → HasRoom room fs
    → length fs ≤ room
    → ((fs' : List Filter) × (deliver room i fs ≡ some fs'))
      ⊎ ((fs' : List Filter) × Pass room fs fs')
moves room i [] h le = inl (begin room i ∷ [], refl)
moves room i (filter p none ∷ fs) h le = inl (filtered i p ∷ fs, refl)
moves zero i (filter p (some j) ∷ fs) h le = absurd h
moves (suc room) i (filter p (some j) ∷ fs) h le = inr (elim (moves room j fs h (omega arith)) [
  | inl (fs', e) ↦ (filter p none ∷ fs', here e)
  | inr (fs', s) ↦ (filter p (some j) ∷ fs', there s)
])
moves room i (stopped p ∷ fs) (z, e) le = absurd (omega (arith, z, le))

-- In whatever order the processes exchange values, the numbers printed so far are the first primes, in
-- order and each once, at most one more than the `room` forks that the kernel grants to the processes of
-- the chain. While no more than `room` are printed, and umain's number is below the largest int, some
-- exchange is possible.
pub Reach-primes :
    (room : ℕ) (c : Chain)
    → Reach room c
    → AreNextPrimes [] (printed c.filters)
      × (length c.filters ≤ suc room)
      × (length c.filters ≤ room → c.i < int_max → (d : Chain) × Step room c d)
Reach-primes room c r =
    let h = Reach-HasRoom room c r in
    (
      HaveReceived-AreNextPrimes [] c.i c.filters (λ q m. absurd (cc m))
          (Reach-HaveReceived room c r).1,
      HasRoom-length room c.filters h,
      λ le lt. elim (moves room c.i c.filters h le) [
        | inl (fs, e) ↦ (record { i = c.i + 1; filters = fs }, feed lt e)
        | inr (fs, s) ↦ (record { i = c.i; filters = fs }, pass s)
      ],
    )
