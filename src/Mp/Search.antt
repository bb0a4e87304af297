-- ===== src/Mp/Search.antt =====
-- The search finds the first floating pointer structure of a range, if there is one.
use comp530h.Base.{
  ℕ, zero, suc, ◌+◌, ◌*◌, ◌/◌, ◌<◌, ◌≡◌, refl, true, false, Option, none, some, arith, ap, ◌∙◌,
  Bool-cases, inl, inr,
}
use comp530h.Bytes.{Memory}
use comp530h.Mp.{sizeof_mp, is_mp, search_from, pointer, kaddr_ok, mpsearch1}

-- What a search of `n` places, 16 bytes apart, from `a` on gives: none of them is a structure, or the
-- first that is.
abbrev pub IsFirst : Memory → (n a : ℕ) → Option ℕ → Type 0
IsFirst m n a none = (i : ℕ) → i < n → is_mp m (a + i * sizeof_mp) ≡ false
IsFirst m n a (some p) =
    (i : ℕ) × (i < n)
    × (p ≡ a + i * sizeof_mp)
    × (is_mp m p ≡ true)
    × ((j : ℕ) → j < i → is_mp m (a + j * sizeof_mp) ≡ false)

before :
    (m : Memory) (a i : ℕ)
    → is_mp m a ≡ false
    → ((j : ℕ) → j < i → is_mp m (a + sizeof_mp + j * sizeof_mp) ≡ false)
    → (j : ℕ) → j < suc i
    → is_mp m (a + j * sizeof_mp) ≡ false
before m a i h k zero lt = ap (is_mp m) {x = a + 0 * sizeof_mp} {y = a} (omega arith) ∙ h
before m a i h k (suc j) lt =
    ap (is_mp m) {x = a + suc j * sizeof_mp} {y = a + sizeof_mp + j * sizeof_mp} (omega arith)
    ∙ k j (omega arith)

later-IsFirst :
    (m : Memory) (n a : ℕ) (r : Option ℕ)
    → is_mp m a ≡ false
    → IsFirst m n (a + sizeof_mp) r
    → IsFirst m (suc n) a r
later-IsFirst m n a none h k = before m a n h k
later-IsFirst m n a (some p) h (i, lt, e, is, none_before) =
    (suc i, omega arith, omega (arith, e), is, before m a i h none_before)

search_from-IsFirst : (m : Memory) (n a : ℕ) → IsFirst m n a (search_from m n a)
unfolding search_from
search_from-IsFirst m zero a = λ i lt. absurd (omega arith)
search_from-IsFirst m (suc n) a = elim (Bool-cases (is_mp m a)) [
  | inl e ↦ rw e (0, omega arith, omega arith, e, λ j lt. absurd (omega arith))
  | inr e ↦ rw e (
      later-IsFirst m n a (search_from m n (a + sizeof_mp)) e
        (search_from-IsFirst m n (a + sizeof_mp)))
]

-- If the pages of both ends of the range are there, mpsearch1 returns the first of the places of the
-- range, 16 bytes apart, where 16 bytes start with "_MP_" and add up to 0, or NULL if no place is such.
pub mpsearch1-IsFirst :
    (npages : ℕ) (m : Memory) (a len : ℕ)
    → kaddr_ok npages a ≡ true
    → kaddr_ok npages (a + len) ≡ true
    → (r : Option ℕ) × (mpsearch1 npages m a len ≡ pointer r)
      × IsFirst m ((len + 15) / sizeof_mp) a r
unfolding mpsearch1
mpsearch1-IsFirst npages m a len h k = (
  search_from m ((len + 15) / sizeof_mp) a,
  rw (h, k) refl,
  search_from-IsFirst m ((len + 15) / sizeof_mp) a,
)
