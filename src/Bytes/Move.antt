-- ===== src/Bytes/Move.antt =====
-- `memmove` copies, however the ranges overlap.
use comp530h.Base.{
  ℕ, zero, suc, ◌+◌, ◌-◌, ◌*◌, ◌/◌, ◌≤◌, ◌≡◌, ◌⊎◌, inl, inr, refl, true, false, ◌&&◌, update, ltb,
  leb, if◌then◌else◌, arith, Bool-cases, ap, ◌∙◌,
}
use comp530h.Bytes.{Memory, copy4, movsb_up, movsl_up, movsb_down, movsl_down, memmove, aligned}

-- The copy of `n` bytes at `s` to `d`, all read before any is written.
abbrev pub copied : (n d s : ℕ) → Memory → Memory
copied n d s m a = if leb d a && ltb a (d + n) then m (s + (a - d)) else m a

pub movsb_up-copied :
    (n d s : ℕ) (m : Memory) (a : ℕ) → (d ≤ s) ⊎ (s + n ≤ d) → movsb_up n d s m a ≡ copied n d s m a
unfolding movsb_up
movsb_up-copied zero d s m a h = ground arith
movsb_up-copied (suc n) d s m a h =
    ground (arith, movsb_up-copied n (d + 1) (s + 1) (update m d (m s)) a)

movsl_up-copied :
    (n d s : ℕ) (m : Memory) (a : ℕ)
    → (d ≤ s) ⊎ (s + n * 4 ≤ d)
    → movsl_up n d s m a ≡ copied (n * 4) d s m a
unfolding movsl_up
movsl_up-copied zero d s m a h = ground arith
movsl_up-copied (suc n) d s m a h =
    ground (arith, movsl_up-copied n (d + 4) (s + 4) (copy4 m d s) a)

-- Downwards, the two pointers start at the last byte, or word, of the ranges.
movsb_down-copied :
    (n d s e t : ℕ) (m : Memory) (a : ℕ)
    → s ≤ d
    → e ≡ d + n - 1
    → t ≡ s + n - 1
    → movsb_down n e t m a ≡ copied n d s m a
unfolding movsb_down
movsb_down-copied zero d s e t m a h p q = ground arith
movsb_down-copied (suc n) d s e t m a h p q =
    ground (arith, movsb_down-copied n d s (e - 1) (t - 1) (update m e (m t)) a)

-- The last word is copied first, and no later word is read from it.
copied-copy4 :
    (n d s : ℕ) (m : Memory) (a : ℕ)
    → s ≤ d
    → copied (n * 4) d s (copy4 m (d + n * 4) (s + n * 4)) a ≡ copied (suc n * 4) d s m a
copied-copy4 n d s m a h = ground arith

-- The pointers after the last word are not used, and may have stopped at 0.
movsl_down-copied :
    (n d s e t : ℕ) (m : Memory) (a : ℕ)
    → s ≤ d
    → (n ≡ 0) ⊎ (e + 4 ≡ d + n * 4)
    → (n ≡ 0) ⊎ (t + 4 ≡ s + n * 4)
    → movsl_down n e t m a ≡ copied (n * 4) d s m a
unfolding movsl_down
movsl_down-copied zero d s e t m a h p q = ground arith
movsl_down-copied (suc n) d s e t m a h p q =
    movsl_down-copied n d s (e - 4) (t - 4) (copy4 m e t) a h (omega arith) (omega arith)
    ∙ (ap (λ (x : ℕ). copied (n * 4) d s (copy4 m x t) a) (omega arith)
        ∙ (ap (λ (x : ℕ). copied (n * 4) d s (copy4 m (d + n * 4) x) a) (omega arith)
            ∙ copied-copy4 n d s m a h))

words_of : (s d n : ℕ) → aligned s d n ≡ true → n / 4 * 4 ≡ n
words_of s d n p = ground arith

overlap_of : (src dst n : ℕ) → (ltb src dst && ltb dst (src + n)) ≡ true → src ≤ dst
overlap_of src dst n p = ground arith

apart_of :
    (src dst n : ℕ) → (ltb src dst && ltb dst (src + n)) ≡ false → (dst ≤ src) ⊎ (src + n ≤ dst)
apart_of src dst n p = ground arith

movsl_down-words :
    (dst src n : ℕ) (m : Memory) (a : ℕ)
    → src ≤ dst
    → n / 4 * 4 ≡ n
    → movsl_down (n / 4) (dst + n - 4) (src + n - 4) m a ≡ copied n dst src m a
movsl_down-words dst src n m a h w =
    movsl_down-copied (n / 4) dst src (dst + n - 4) (src + n - 4) m a h (omega arith) (omega arith)
    ∙ ap (λ (x : ℕ). copied x dst src m a) w

movsl_up-words :
    (dst src n : ℕ) (m : Memory) (a : ℕ)
    → (dst ≤ src) ⊎ (src + n ≤ dst)
    → n / 4 * 4 ≡ n
    → movsl_up (n / 4) dst src m a ≡ copied n dst src m a
movsl_up-words dst src n m a h w =
    movsl_up-copied (n / 4) dst src m a (omega arith) ∙ ap (λ (x : ℕ). copied x dst src m a) w

-- memmove, upwards or downwards, by bytes or by words, leaves at each of the n addresses from dst
-- the byte that stood at the same offset from src before the call, however the ranges overlap, and
-- every other byte as it was.
pub memmove_lem :
    (dst src n : ℕ) (m : Memory) (a : ℕ) → memmove dst src n m a ≡ copied n dst src m a
unfolding memmove
memmove_lem dst src n m a = elim (Bool-cases (ltb src dst && ltb dst (src + n))) [
  | inl o ↦ elim (Bool-cases (aligned (src + n) (dst + n) n)) [
    | inl p ↦
        rw (o, p)
          (movsl_down-words dst src n m a (overlap_of src dst n o)
            (words_of (src + n) (dst + n) n p))
    | inr p ↦
        rw (o, p)
          (movsb_down-copied n dst src (dst + n - 1) (src + n - 1) m a (overlap_of src dst n o) refl
            refl)
  ]
  | inr o ↦ elim (Bool-cases (aligned src dst n)) [
    | inl p ↦ rw (o, p) (movsl_up-words dst src n m a (apart_of src dst n o) (words_of src dst n p))
    | inr p ↦ rw (o, p) (movsb_up-copied n dst src m a (apart_of src dst n o))
  ]
]
