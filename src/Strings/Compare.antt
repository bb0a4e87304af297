-- ===== src/Strings/Compare.antt =====
-- `strcmp` orders strings, and `strstr` finds the first occurrence of one in another.
use comp530h.Base.{
  ℕ, zero, suc, ◌+◌, ◌<◌, ◌≡◌, Bool, true, false, ◌&&◌, ◌==◌, if◌then◌else◌, some, List, [], ◌∷◌,
  length, arith,
}
use comp530h.Bytes.{Memory, byte_diff}
use comp530h.Strings.{IsString, strcmp, strncmp, strstr_from, strstr}
use comp530h.Strings.Length.{strlen_lem}

-- The difference of the first two bytes that differ, where a string ends with 0.
abbrev pub difference : List ℕ → List ℕ → ℕ
difference [] [] = 0
difference [] (d ∷ ds) = byte_diff 0 d
difference (c ∷ cs) [] = byte_diff c 0
difference (c ∷ cs) (d ∷ ds) = if c == d then difference cs ds else byte_diff c d

-- With more fuel than the first of two strings is long, strcmp returns the difference of the first
-- two bytes that differ, the null bytes at the ends included, and 0 for equal strings.
pub strcmp-difference :
    (cs ds : List ℕ) (f p q : ℕ) (m : Memory)
    → IsString m p cs
    → IsString m q ds
    → length cs < f
    → strcmp f p q m ≡ some (difference cs ds)
unfolding strcmp
strcmp-difference cs ds zero p q m h k lt = ground arith
strcmp-difference [] [] (suc f) p q m h k lt = ground arith
strcmp-difference [] (d ∷ ds) (suc f) p q m h (e, (ne, k)) lt = ground arith
strcmp-difference (c ∷ cs) [] (suc f) p q m (e, (ne, h)) k lt = ground arith
strcmp-difference (c ∷ cs) (d ∷ ds) (suc f) p q m (e, (ne, h)) (e', (ne', k)) lt =
    ground (arith, strcmp-difference cs ds f (p + 1) (q + 1) m h k)

abbrev pub has_prefix : List ℕ → List ℕ → Bool
has_prefix [] cs = true
has_prefix (b ∷ bs) [] = false
has_prefix (b ∷ bs) (c ∷ cs) = (b == c) && has_prefix bs cs

-- The bytes of a memory are below 256.
abbrev pub IsBytes : Memory → Type 0
IsBytes m = (a : ℕ) → m a < 256

strncmp-has_prefix :
    (bs cs : List ℕ) (p q : ℕ) (m : Memory)
    → IsBytes m
    → IsString m p cs
    → IsString m q bs
    → (strncmp p q (length bs) m == 0) ≡ has_prefix bs cs
unfolding strncmp
strncmp-has_prefix [] cs p q m b h k = ground arith
strncmp-has_prefix (x ∷ bs) [] p q m b h (e, (ne, k)) = ground (arith, b q)
strncmp-has_prefix (x ∷ bs) (c ∷ cs) p q m b (e', (ne', h)) (e, (ne, k)) =
    ground (arith, b p, b q, strncmp-has_prefix bs cs (p + 1) (q + 1) m b h k)

-- The address of the first place from `s` on where the string `cs` continues with `bs`, or 0.
abbrev pub occurrence : List ℕ → List ℕ → ℕ → ℕ
occurrence bs [] s = 0
occurrence bs (c ∷ cs) s = if has_prefix bs (c ∷ cs) then s else occurrence bs cs (s + 1)

strstr_from-occurrence :
    (cs bs : List ℕ) (b f s str : ℕ) (m : Memory)
    → IsBytes m
    → IsString m s cs
    → IsString m str bs
    → length cs < f
    → strstr_from f s str (length bs) b m ≡ some (occurrence (b ∷ bs) cs s)
unfolding strstr_from
strstr_from-occurrence cs bs b zero s str m o h k lt = ground arith
strstr_from-occurrence [] bs b (suc f) s str m o h k lt = ground arith
strstr_from-occurrence (c ∷ cs) bs b (suc f) s str m o (e, (ne, h)) k lt = ground (
  arith,
  strncmp-has_prefix bs cs (s + 1) str m o h k,
  strstr_from-occurrence cs bs b f (s + 1) str m o h k,
)

-- For a string in memory and one that is not empty, with more fuel than each is long, strstr
-- returns the address of the first place where the second one continues in the first, or NULL if
-- there is none.
pub strstr-occurrence :
    (cs bs : List ℕ) (b f s str : ℕ) (m : Memory)
    → IsBytes m
    → IsString m s cs
    → IsString m str (b ∷ bs)
    → length cs < f
    → length bs < f
    → strstr f s str m ≡ some (occurrence (b ∷ bs) cs s)
unfolding strstr
strstr-occurrence cs bs b f s str m o h (e, (ne, k)) lt lt' = ground (
  arith,
  strlen_lem bs f (str + 1) m k lt',
  strstr_from-occurrence cs bs b f s (str + 1) m o h k lt,
)
