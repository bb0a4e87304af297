-- ===== src/Strings.antt =====
-- lib/string.c: the routines on strings that end with a null byte.
-- A loop that runs to the end of a string runs on fuel: `none` is a run that has not ended.
pub mod Length
pub mod Compare
pub mod Copy
use comp530h.Base.{
  ℕ, zero, suc, ◌+◌, ◌-◌, ◌≡◌, ◌≢◌, ◌&&◌, ◌||◌, not, update, ◌==◌, if◌then◌else◌, Option, none,
  some, List, [], ◌∷◌,
}
use comp530h.Bytes.{Memory, byte_diff}

-- The bytes `cs` and a null byte stand at `s`.
abbrev pub IsString : Memory → ℕ → List ℕ → Type 0
IsString m s [] = m s ≡ 0
IsString m s (c ∷ cs) = (m s ≡ c) × ((c ≢ 0) × IsString m (s + 1) cs)

unfoldable pub strlen_from : (fuel s n : ℕ) → Memory → Option ℕ
strlen_from zero s n m = none
strlen_from (suc f) s n m =
    let rest = strlen_from f (s + 1) (n + 1) m in if m s == 0 then some n else rest

abbrev pub strlen : (fuel s : ℕ) → Memory → Option ℕ
strlen f s m = strlen_from f s 0 m

unfoldable pub strnlen_from : (size s n : ℕ) → Memory → ℕ
strnlen_from zero s n m = n
strnlen_from (suc size) s n m =
    let rest = strnlen_from size (s + 1) (n + 1) m in if m s == 0 then n else rest

abbrev pub strnlen : (s size : ℕ) → Memory → ℕ
strnlen s size m = strnlen_from size s 0 m

unfoldable pub strcpy : (fuel dst src : ℕ) → Memory → Option Memory
strcpy zero dst src m = none
strcpy (suc f) dst src m =
    let rest = strcpy f (dst + 1) (src + 1) (update m dst (m src)) in
    if m src == 0 then some (update m dst (m src)) else rest

unfoldable pub strcat : (fuel dst src : ℕ) → Memory → Option Memory
strcat f dst src m = elim (strlen f dst m) [ none ↦ none | some len ↦ strcpy f (dst + len) src m ]

unfoldable pub strncpy : (dst src size : ℕ) → Memory → Memory
strncpy dst src zero m = m
strncpy dst src (suc size) m =
    strncpy (dst + 1) (if m src == 0 then src else src + 1) size (update m dst (m src))

-- The loop of `strlcpy`, and the null byte after it: the memory and the final `dst`.
unfoldable pub strlcpy_from : (dst src size : ℕ) → Memory → Memory × ℕ
strlcpy_from dst src zero m = (update m dst 0, dst)
strlcpy_from dst src (suc size) m =
    let rest = strlcpy_from (dst + 1) (src + 1) size (update m dst (m src)) in
    if m src == 0 then (update m dst 0, dst) else rest

-- The memory and the number of bytes copied, the null byte not counted.
unfoldable pub strlcpy : (dst src size : ℕ) → Memory → Memory × ℕ
strlcpy dst src zero m = (m, 0)
strlcpy dst src (suc size) m = let r = strlcpy_from dst src size m in (r.0, r.1 - dst)

unfoldable pub strcmp : (fuel p q : ℕ) → Memory → Option ℕ
strcmp zero p q m = none
strcmp (suc f) p q m =
    let rest = strcmp f (p + 1) (q + 1) m in
    if not (m p == 0) && (m p == m q) then rest else some (byte_diff (m p) (m q))

unfoldable pub strncmp : (p q n : ℕ) → Memory → ℕ
strncmp p q zero m = 0
strncmp p q (suc n) m =
    let rest = strncmp (p + 1) (q + 1) n m in
    if not (m p == 0) && (m p == m q) then rest else byte_diff (m p) (m q)

-- The null pointer is 0.
unfoldable pub strchr : (fuel s c : ℕ) → Memory → Option ℕ
strchr zero s c m = none
strchr (suc f) s c m =
    let rest = strchr f (s + 1) c m in
    if m s == 0 then some 0 else if m s == c then some s else rest

unfoldable pub strfind : (fuel s c : ℕ) → Memory → Option ℕ
strfind zero s c m = none
strfind (suc f) s c m =
    let rest = strfind f (s + 1) c m in if (m s == 0) || (m s == c) then some s else rest

-- The two loops of `strstr`: the byte at `s` is `sc`, and the pointer has passed it.
unfoldable pub strstr_from : (fuel s str len c : ℕ) → Memory → Option ℕ
strstr_from zero s str len c m = none
strstr_from (suc f) s str len c m =
    let rest = strstr_from f (s + 1) str len c m in
    if m s == 0
    then some 0
    else if not (m s == c)
    then rest
    else if not (strncmp (s + 1) str len m == 0)
    then rest
    else some s

unfoldable pub strstr : (fuel s str : ℕ) → Memory → Option ℕ
strstr f s str m = if m str == 0 then some s else elim (strlen f (str + 1) m) [
  | none ↦ none
  | some len ↦ strstr_from f s (str + 1) len (m str) m
]
