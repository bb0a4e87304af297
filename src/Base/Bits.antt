-- ===== src/Base/Bits.antt =====
-- Facts about `bit_and` and `bit_or` at variables: the laws for the lowest digit, and what follows
-- for shifts, single-bit masks and words that share no digit.
use Prim.Native.Nat.{
  ℕ, zero, suc, ◌+◌, ◌*◌, ◌/◌, ◌%◌, ◌^◌, ◌≤◌, ◌<◌, min, max, bit_and, bit_or, digits,
  bit_and-bitwise, bit_or-bitwise,
}
use mathlib.Core.Path.{◌≡◌, refl, sym, ap, ◌∙◌}
use native.Mathlib.Omega.{arith}
use native.Mathlib.Decide.{ℕ_discrete}
use native.Mathlib.Nat.{div-div-eq-div-mul, div-one, pow-suc}

-- A native operation `op` that stands for `digits z f`, with the first number as its fuel.
module _ (z : ℕ → ℕ) (f op : ℕ → ℕ → ℕ) (means : (a b : ℕ) → op a b ≡ digits z f a a b) where
  one_more : (n a b : ℕ) → a ≤ n → digits z f (suc n) a b ≡ digits z f n a b
  one_more zero zero b h = refl
  one_more zero (suc a) b h = absurd (omega arith)
  one_more (suc n) zero b h = refl
  one_more (suc n) (suc a) b h =
      ap (λ high. high * 2 + f (suc a % 2) (b % 2)) (one_more n (suc a / 2) (b / 2) (omega arith))

  -- Fuel beyond the first number changes nothing.
  surplus : (m n a b : ℕ) → n ≤ m → a ≤ n → digits z f m a b ≡ digits z f n a b
  surplus zero n a b h g = ap (λ x. digits z f x a b) {x = 0} {y = n} (omega arith)
  surplus (suc m) n a b h g = elim (ℕ_discrete n (suc m)) [
    | yes e ↦ ap (λ x. digits z f x a b) (sym e)
    | no ne ↦ one_more m a b (omega arith) ∙ surplus m n a b (omega arith) g
  ]

  -- The law for the lowest digit.
  lowest : (a b : ℕ) → op (suc a) b ≡ op (suc a / 2) (b / 2) * 2 + f (suc a % 2) (b % 2)
  lowest a b =
      let h = suc a / 2 in
      let more : digits z f a h (b / 2) ≡ op h (b / 2) =
        surplus a h h (b / 2) (omega arith) (omega arith) ∙ sym (means h (b / 2)) in
      means (suc a) b ∙ ap (λ high. high * 2 + f (suc a % 2) (b % 2)) more

pub zero-bit_or : (b : ℕ) → bit_or 0 b ≡ b
zero-bit_or = bit_or-bitwise 0

bit_and_step : (x y : ℕ) → bit_and x y ≡ bit_and (x / 2) (y / 2) * 2 + min (x % 2) (y % 2)
bit_and_step zero y = omega (arith, bit_and-bitwise 0 y, bit_and-bitwise 0 (y / 2))
bit_and_step (suc x) y = lowest (λ _. 0) min bit_and bit_and-bitwise x y

pub bit_or_step : (x y : ℕ) → bit_or x y ≡ bit_or (x / 2) (y / 2) * 2 + max (x % 2) (y % 2)
bit_or_step zero y = omega (arith, zero-bit_or y, zero-bit_or (y / 2))
bit_or_step (suc x) y = lowest (λ d. d) max bit_or bit_or-bitwise x y

-- Zero on the right, for the numbers below `n`.
right_zero : (n a : ℕ) → a < n → (bit_and a 0 ≡ 0) × (bit_or a 0 ≡ a)
right_zero zero a h = absurd (omega arith)
right_zero (suc n) a h = elim (ℕ_discrete a 0) [
  | yes e ↦ rw e (refl, refl)
  | no ne ↦
      let (x, y) = right_zero n (a / 2) (omega arith) in
      (omega (arith, bit_and_step a 0, x), omega (arith, bit_or_step a 0, y))
]

pub bit_and-zero : (a : ℕ) → bit_and a 0 ≡ 0
bit_and-zero a = (right_zero (suc a) a (omega arith)).0

pub bit_or-zero : (a : ℕ) → bit_or a 0 ≡ a
bit_or-zero a = (right_zero (suc a) a (omega arith)).1

-- The masks 1, 2 and 4 test one digit each.
pub bit_and-one : (a : ℕ) → bit_and a 1 ≡ a % 2
bit_and-one a = omega (arith, bit_and_step a 1, bit_and-zero (a / 2))

pub bit_and_two : (a : ℕ) → bit_and a 2 ≡ a / 2 % 2 * 2
bit_and_two a = omega (arith, bit_and_step a 2, bit_and-one (a / 2))

pub bit_and_four : (a : ℕ) → bit_and a 4 ≡ a / 4 % 2 * 4
bit_and_four a = omega (arith, bit_and_step a 4, bit_and_two (a / 2))

pub bit_or-half : (a b : ℕ) → bit_or a b / 2 ≡ bit_or (a / 2) (b / 2)
bit_or-half a b = omega (arith, bit_or_step a b)

-- A right shift goes under `bit_or`.
pub bit_or-shift : (k a b : ℕ) → bit_or a b / 2 ^ k ≡ bit_or (a / 2 ^ k) (b / 2 ^ k)
bit_or-shift zero a b = rw (div-one, div-one, div-one)
bit_or-shift (suc k) a b =
    let e : (c : ℕ) → c / 2 ^ suc k ≡ c / 2 ^ k / 2 =
      λ c. rw (pow-suc) (sym (div-div-eq-div-mul c (2 ^ k) 2)) in
    rw (e (bit_or a b), e a, e b, bit_or-shift k a b) (bit_or-half (a / 2 ^ k) (b / 2 ^ k))

-- Numbers that share no digit are added.
pub bit_or-disjoint : (k a b : ℕ) → b < 2 ^ k → bit_or (a * 2 ^ k) b ≡ a * 2 ^ k + b
bit_or-disjoint zero a b h = let e : b ≡ 0 = omega arith in rw (e, bit_or-zero) (omega arith)
bit_or-disjoint (suc k) a b h =
    let e : 2 ^ suc k ≡ 2 ^ k * 2 = pow-suc 2 k in
    let half : a * 2 ^ suc k / 2 ≡ a * 2 ^ k = omega (arith, ap (λ (t : ℕ). a * t) e) in
    let small : b / 2 < 2 ^ k = omega arith in
    let even : a * 2 ^ suc k % 2 ≡ 0 = omega (arith, ap (λ (t : ℕ). a * t) e) in
    rw (bit_or_step (a * 2 ^ suc k) b, half, even, bit_or-disjoint k a (b / 2) small)
      (omega (arith, ap (λ (t : ℕ). a * t) e))

-- The three flags that a page-table entry gets, set one after the other.
pub bit_or_flags : (a : ℕ) → bit_or (bit_or (bit_or (a * 4096) 4) 1) 2 ≡ a * 4096 + 7
bit_or_flags a =
    let e4 : bit_or (a * 4096) 4 ≡ (a * 2048 + 2) * 2 ^ 1 =
      bit_or-disjoint 12 a 4 (omega arith) ∙ omega arith in
    let e5 : bit_or ((a * 2048 + 2) * 2 ^ 1) 1 ≡ a * 4096 + 5 =
      bit_or-disjoint 1 (a * 2048 + 2) 1 (omega arith) ∙ omega arith in
    let h : (a * 4096 + 5) / 2 ≡ (a * 1024 + 1) * 2 ^ 1 = omega arith in
    let e7 : bit_or ((a * 1024 + 1) * 2 ^ 1) 1 ≡ a * 2048 + 3 =
      bit_or-disjoint 1 (a * 1024 + 1) 1 (omega arith) ∙ omega arith in
    rw (e4, e5, bit_or_step (a * 4096 + 5) 2, h, e7) (omega arith)
