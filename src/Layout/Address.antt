-- ===== src/Layout/Address.antt =====
-- The macros of inc/mmu.h and inc/types.h: taking an address apart and building it, rounding.
use comp530h.Base.{ℕ, ◌+◌, ◌*◌, ◌/◌, ◌%◌, ◌^◌, ◌≤◌, ◌<◌, ◌≡◌, refl, ◌∙◌, arith, bit_or, ◌==◌}
use comp530h.Base.Bits.{bit_or-disjoint, bit_and-one, bit_and_two, bit_and_four}
use comp530h.Layout.{
  pml4_index, pdpe_index, pdx, ptx, pgoff, pgaddr, flag, pte_p, pte_w, pte_u, round_down, round_up,
  word,
}

bit_or-add : (k a x b : ℕ) → x ≡ a * 2 ^ k → b < 2 ^ k → bit_or x b ≡ x + b
bit_or-add k a x b e h = rw e (bit_or-disjoint k a b h)

-- Below the bounds of its fields, PGADDR is a sum.
pgaddr-sum :
    (m p d t o : ℕ)
    → p < 512
    → d < 512
    → t < 512
    → o < 4096
    → pgaddr m p d t o ≡ m * 2 ^ 39 + p * 2 ^ 30 + d * 2 ^ 21 + t * 2 ^ 12 + o
unfolding pgaddr
pgaddr-sum m p d t o hp hd ht ho = rw (
  bit_or-add 39 m (m * 2 ^ 39) (p * 2 ^ 30) refl (omega arith),
  bit_or-add 30 (m * 512 + p) (m * 2 ^ 39 + p * 2 ^ 30) (d * 2 ^ 21) (omega arith) (omega arith),
  bit_or-add 21 ((m * 512 + p) * 512 + d) (m * 2 ^ 39 + p * 2 ^ 30 + d * 2 ^ 21) (t * 2 ^ 12)
      (omega arith) (omega arith),
  bit_or-add 12 (((m * 512 + p) * 512 + d) * 512 + t)
      (m * 2 ^ 39 + p * 2 ^ 30 + d * 2 ^ 21 + t * 2 ^ 12) o (omega arith) (omega arith),
)

-- PGADDR of four indices below 512 and an offset below 4096 has those indices and that offset.
pub fields-pgaddr :
    (m p d t o : ℕ)
    → m < 512
    → p < 512
    → d < 512
    → t < 512
    → o < 4096
    → (pml4_index (pgaddr m p d t o) ≡ m)
      × (pdpe_index (pgaddr m p d t o) ≡ p)
      × (pdx (pgaddr m p d t o) ≡ d)
      × (ptx (pgaddr m p d t o) ≡ t)
      × (pgoff (pgaddr m p d t o) ≡ o)
fields-pgaddr m p d t o hm hp hd ht ho =
    rw (pgaddr-sum m p d t o hp hd ht ho)
      (omega arith, omega arith, omega arith, omega arith, omega arith)

-- An address below 2^48 is PGADDR of its own indices and offset.
pub pgaddr-fields :
    (la : ℕ)
    → la < 2 ^ 48
    → pgaddr (pml4_index la) (pdpe_index la) (pdx la) (ptx la) (pgoff la) ≡ la
pgaddr-fields la h =
    pgaddr-sum (pml4_index la) (pdpe_index la) (pdx la) (ptx la) (pgoff la) (omega arith)
      (omega arith) (omega arith) (omega arith)
    ∙ omega arith

pub flag_p : (x : ℕ) → flag x pte_p ≡ (x % 2 == 1)
unfolding flag
flag_p x = ground (arith, bit_and-one x)

pub flag_w : (x : ℕ) → flag x pte_w ≡ (x / 2 % 2 == 1)
unfolding flag
flag_w x = ground (arith, bit_and_two x)

pub flag_u : (x : ℕ) → flag x pte_u ≡ (x / 4 % 2 == 1)
unfolding flag
flag_u x = ground (arith, bit_and_four x)

-- ROUNDDOWN to 4096 is a page boundary at or below the address and less than 4096 away.
pub round_down_page :
    (a : ℕ)
    → (round_down a 4096 % 4096 ≡ 0) × (round_down a 4096 ≤ a) × (a < round_down a 4096 + 4096)
unfolding round_down
round_down_page a = (omega arith, omega arith, omega arith)

-- ROUNDUP to 4096 of an address that is not behind the start of the last page of the 64-bit range
-- is a page boundary at or above the address and less than 4096 away.
pub round_up_page :
    (a : ℕ)
    → a + 4096 ≤ word
    → (round_up a 4096 % 4096 ≡ 0) × (a ≤ round_up a 4096) × (round_up a 4096 < a + 4096)
unfolding round_up
round_up_page a h = (omega arith, omega arith, omega arith)
