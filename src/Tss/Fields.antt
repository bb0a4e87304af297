-- ===== src/Tss/Fields.antt =====
-- The fields of a descriptor, read from its words as the processor's manual gives them.
use comp530h.Base.{ℕ, ◌+◌, ◌*◌, ◌/◌, ◌%◌, ◌^◌, ◌<◌, ◌≡◌, arith}
use comp530h.Tss.{settss, low_word, high_word, clear_s, set_busy, sts_t64a}

-- The base of a system segment, its limit, its type with the bits S, DPL and P above it
abbrev pub base_of : (low high : ℕ) → ℕ
base_of low high = low / 2 ^ 16 % 2 ^ 24 + low / 2 ^ 56 % 2 ^ 8 * 2 ^ 24 + high % 2 ^ 32 * 2 ^ 32

abbrev pub limit_of : (low : ℕ) → ℕ
limit_of low = low % 2 ^ 16 + low / 2 ^ 48 % 2 ^ 4 * 2 ^ 16

abbrev pub access_of : (low : ℕ) → ℕ
access_of low = low / 2 ^ 40 % 2 ^ 8

-- sd_s is zero already.
pub clear_s-settss :
    (base lim : ℕ)
    → clear_s (low_word (settss sts_t64a base lim)) ≡ low_word (settss sts_t64a base lim)
unfolding settss clear_s
clear_s-settss base lim = omega arith

-- After `ltr`: the type is that of a busy segment.
pub base_of-settss :
    (base lim : ℕ)
    → base < 2 ^ 64
    → base_of
        (set_busy (low_word (settss sts_t64a base lim)))
        (high_word (settss sts_t64a base lim))
      ≡ base
unfolding settss set_busy
base_of-settss base lim h = omega arith

pub limit_of-settss :
    (base lim : ℕ) → lim < 2 ^ 20 → limit_of (set_busy (low_word (settss sts_t64a base lim))) ≡ lim
unfolding settss set_busy
limit_of-settss base lim h = omega arith

pub access_of-settss :
    (base lim : ℕ) → access_of (set_busy (low_word (settss sts_t64a base lim))) ≡ 0x8B
unfolding settss set_busy
access_of-settss base lim = omega arith
