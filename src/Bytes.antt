-- ===== src/Bytes.antt =====
-- lib/string.c: `memset`, `memmove`, `memcpy`, `memcmp` and `memfind`, as they are compiled (ASM is 1).
-- Memory gives the byte at an address; the ranges do not wrap round the end of the address space.
pub mod Move
pub mod Fill
use comp530h.Base.{
  ℕ, zero, suc, ◌+◌, ◌-◌, ◌*◌, ◌/◌, ◌%◌, ◌^◌, Bool, ◌&&◌, not, update, ltb, leb, ◌==◌,
  if◌then◌else◌,
}

abbrev pub Memory : Type 0
Memory = ℕ → ℕ

-- An `int` as its 32-bit pattern: the difference of two bytes.
abbrev pub byte_diff : ℕ → ℕ → ℕ
byte_diff a b = (a + 2 ^ 32 - b) % 2 ^ 32

-- One `stosl`: the four bytes of a word, the lowest first.
abbrev pub store4 : Memory → (d w : ℕ) → Memory
store4 m d w a = if leb d a && ltb a (d + 4) then w / 2 ^ (8 * (a - d)) % 256 else m a

-- rep stosb and rep stosl, upwards
unfoldable pub stosb : (n d c : ℕ) → Memory → Memory
stosb zero d c m = m
stosb (suc n) d c m = stosb n (d + 1) c (update m d (c % 256))

unfoldable pub stosl : (n d w : ℕ) → Memory → Memory
stosl zero d w m = m
stosl (suc n) d w m = stosl n (d + 4) w (store4 m d w)

-- `c &= 0xFF; c = (c<<24)|(c<<16)|(c<<8)|c`: the fields do not overlap.
abbrev pub splat : ℕ → ℕ
splat c = c % 256 * 16777216 + c % 256 * 65536 + c % 256 * 256 + c % 256

unfoldable pub memset : (v c n : ℕ) → Memory → Memory
memset v c n m =
    if n == 0
    then m
    else if (v % 4 == 0) && (n % 4 == 0)
    then stosl (n / 4) v (splat c) m
    else stosb n v c m

-- One `movsl`: four bytes are read, then written.
abbrev pub copy4 : Memory → (d s : ℕ) → Memory
copy4 m d s a = if leb d a && ltb a (d + 4) then m (s + (a - d)) else m a

-- rep movsb and rep movsl with the direction flag clear
unfoldable pub movsb_up : (n d s : ℕ) → Memory → Memory
movsb_up zero d s m = m
movsb_up (suc n) d s m = movsb_up n (d + 1) (s + 1) (update m d (m s))

unfoldable pub movsl_up : (n d s : ℕ) → Memory → Memory
movsl_up zero d s m = m
movsl_up (suc n) d s m = movsl_up n (d + 4) (s + 4) (copy4 m d s)

-- With the direction flag set. A pointer that has gone below 0 is not used any more.
unfoldable pub movsb_down : (n d s : ℕ) → Memory → Memory
movsb_down zero d s m = m
movsb_down (suc n) d s m = movsb_down n (d - 1) (s - 1) (update m d (m s))

unfoldable pub movsl_down : (n d s : ℕ) → Memory → Memory
movsl_down zero d s m = m
movsl_down (suc n) d s m = movsl_down n (d - 4) (s - 4) (copy4 m d s)

abbrev pub aligned : (s d n : ℕ) → Bool
aligned s d n = (s % 4 == 0) && ((d % 4 == 0) && (n % 4 == 0))

unfoldable pub memmove : (dst src n : ℕ) → Memory → Memory
memmove dst src n m =
    if ltb src dst && ltb dst (src + n)
    then if aligned (src + n) (dst + n) n
      then movsl_down (n / 4) (dst + n - 4) (src + n - 4) m
      else movsb_down n (dst + n - 1) (src + n - 1) m
    else if aligned src dst n
    then movsl_up (n / 4) dst src m
    else movsb_up n dst src m

unfoldable pub memcpy : (dst src n : ℕ) → Memory → Memory
memcpy dst src n m = memmove dst src n m

unfoldable pub memcmp : (s1 s2 n : ℕ) → Memory → ℕ
memcmp s1 s2 zero m = 0
memcmp s1 s2 (suc n) m =
    let rest = memcmp (s1 + 1) (s2 + 1) n m in
    if not (m s1 == m s2) then byte_diff (m s1) (m s2) else rest

-- The address of the first byte `c`, or the end.
unfoldable pub memfind : (s c n : ℕ) → Memory → ℕ
memfind s c zero m = s
memfind s c (suc n) m = let rest = memfind (s + 1) c n m in if m s == c % 256 then s else rest
