-- ===== src/Bytes/Fill.antt =====
-- `memset` fills its range, by bytes or by words, and writes nothing else.
use comp530h.Base.{
  ℕ, zero, suc, ◌+◌, ◌-◌, ◌*◌, ◌/◌, ◌%◌, ◌^◌, ◌<◌, ◌≡◌, ◌&&◌, update, ltb, leb, if◌then◌else◌,
  arith,
}
use comp530h.Bytes.{Memory, store4, stosb, stosl, splat, memset}

-- The memory with the byte `c` at each of the `n` addresses from `v`.
abbrev pub filled : (v c n : ℕ) → Memory → Memory
filled v c n m a = if leb v a && ltb a (v + n) then c % 256 else m a

stosb-filled : (n d c : ℕ) (m : Memory) (a : ℕ) → stosb n d c m a ≡ filled d c n m a
unfolding stosb
stosb-filled zero d c m a = ground arith
stosb-filled (suc n) d c m a = ground (arith, stosb-filled n (d + 1) c (update m d (c % 256)) a)

splat_byte : (c i : ℕ) → i < 4 → splat c / 2 ^ (8 * i) % 256 ≡ c % 256
splat_byte c zero h = ground arith
splat_byte c (suc zero) h = ground arith
splat_byte c (suc (suc zero)) h = ground arith
splat_byte c (suc (suc (suc zero))) h = ground arith
splat_byte c (suc (suc (suc (suc i)))) h = ground arith

store4-filled : (m : Memory) (d c a : ℕ) → store4 m d (splat c) a ≡ filled d c 4 m a
store4-filled m d c a = ground (arith, splat_byte c (a - d))

stosl-filled : (n d c : ℕ) (m : Memory) (a : ℕ) → stosl n d (splat c) m a ≡ filled d c (n * 4) m a
unfolding stosl
stosl-filled zero d c m a = ground arith
stosl-filled (suc n) d c m a =
    ground (arith, stosl-filled n (d + 4) c (store4 m d (splat c)) a, store4-filled m d c a)

-- memset, by bytes or by words, leaves the low byte of c at each of the n addresses from v, and
-- every other byte as it was.
pub memset_lem : (v c n : ℕ) (m : Memory) (a : ℕ) → memset v c n m a ≡ filled v c n m a
unfolding memset
memset_lem v c n m a = ground (arith, stosl-filled (n / 4) v c m a, stosb-filled n v c m a)
