-- ===== src/Strings/Copy.antt =====
-- `strcpy`, `strcat` and `strlcpy` copy strings, between ranges where no byte is written before it is read.
use comp530h.Base.{
  ℕ, zero, suc, ◌+◌, ◌-◌, ◌≤◌, ◌<◌, ◌≡◌, ◌⊎◌, refl, false, update, ◌==◌, Option, none, some, List,
  [], ◌∷◌, ◌++◌, length, arith, ap, ◌∙◌,
}
use comp530h.Bytes.{Memory, movsb_up}
use comp530h.Bytes.Move.{copied, movsb_up-copied}
use comp530h.Strings.{IsString, strcpy, strcat, strlcpy_from, strlcpy}
use comp530h.Strings.Length.{strlen_lem}

IsString-moved :
    (cs : List ℕ) (m m' : Memory) (s s' : ℕ)
    → ((i : ℕ) → i ≤ length cs → m' (s' + i) ≡ m (s + i))
    → IsString m s cs
    → IsString m' s' cs
IsString-moved [] m m' s s' e h = ground (arith, e 0)
IsString-moved (c ∷ cs) m m' s s' e (p, (ne, h)) = (
  ground (arith, e 0),
  (ne, IsString-moved cs m m' (s + 1) (s' + 1) (λ i le. ground (arith, e (suc i))) h),
)

IsString-append :
    (ds cs : List ℕ) (m m' : Memory) (s : ℕ)
    → ((i : ℕ) → i < length ds → m' (s + i) ≡ m (s + i))
    → IsString m s ds
    → IsString m' (s + length ds) cs
    → IsString m' s (ds ++ cs)
IsString-append [] cs m m' s e h k =
    IsString-moved cs m' m' (s + 0) s (λ i le. ap m' (omega arith)) k
IsString-append (d ∷ ds) cs m m' s e (p, (ne, h)) k = (
  ground (arith, e 0),
  (
    ne,
    IsString-append ds cs m m' (s + 1) (λ i le. ground (arith, e (suc i))) h
        (IsString-moved cs m' m' (s + suc (length ds)) (s + 1 + length ds)
          (λ i le. ap m' (omega arith)) k),
  ),
)

-- A write outside a string leaves it.
pub IsString-update :
    (cs : List ℕ) (m : Memory) (s d v : ℕ)
    → (d < s) ⊎ (s + length cs < d)
    → IsString m s cs
    → IsString (update m d v) s cs
IsString-update cs m s d v apart h = IsString-moved cs m (update m d v) s s (λ i le. ground arith) h

strcpy-movsb_up :
    (cs : List ℕ) (f dst src : ℕ) (m : Memory)
    → IsString m src cs
    → (dst ≤ src) ⊎ (src + length cs < dst)
    → length cs < f
    → strcpy f dst src m ≡ some (movsb_up (suc (length cs)) dst src m)
unfolding strcpy movsb_up
strcpy-movsb_up cs zero dst src m h apart lt = ground arith
strcpy-movsb_up [] (suc f) dst src m h apart lt = rw h refl
strcpy-movsb_up (c ∷ cs) (suc f) dst src m (e, (ne, h)) apart lt =
    let rest : strcpy f (dst + 1) (src + 1) (update m dst (m src))
        ≡ some (movsb_up (suc (length cs)) (dst + 1) (src + 1) (update m dst (m src))) =
      strcpy-movsb_up cs f (dst + 1) (src + 1) (update m dst (m src))
        (IsString-update cs m (src + 1) dst (m src) (omega arith) h) (omega arith) (omega arith) in
    let more : (m src == 0) ≡ false = ground arith in rw more rest

-- The part of a string that `strlcpy` copies.
abbrev pub take : ℕ → List ℕ → List ℕ
take zero cs = []
take (suc n) [] = []
take (suc n) (c ∷ cs) = c ∷ take n cs

-- If the two strings are apart and there is more fuel than each is long, strcat leaves at dst the
-- first string followed by the second, and no byte before its end or behind the new null byte
-- changes.
pub strcat-IsString :
    (ds cs : List ℕ) (f dst src : ℕ) (m : Memory)
    → IsString m dst ds
    → IsString m src cs
    → (dst + length ds ≤ src) ⊎ (src + length cs < dst)
    → length ds < f
    → length cs < f
    → (m' : Memory) × ((strcat f dst src m ≡ some m')
        × (IsString m' dst (ds ++ cs)
            × ((a : ℕ) → (a < dst + length ds) ⊎ (dst + length ds + length cs < a) → m' a ≡ m a)))
unfolding strcat
strcat-IsString ds cs f dst src m h k apart lt lt' =
    let new : Memory = movsb_up (suc (length cs)) (dst + length ds) src m in
    let bytes : (a : ℕ) → new a ≡ copied (suc (length cs)) (dst + length ds) src m a =
      λ a. movsb_up-copied (suc (length cs)) (dst + length ds) src m a (omega arith) in
    (
      new,
      (
        ap (λ (o : Option ℕ). elim o [ none ↦ none | some len ↦ strcpy f (dst + len) src m ])
              (strlen_lem ds f dst m h lt)
            ∙ (strcpy-movsb_up cs f (dst + length ds) src m k (omega arith) lt'),
        (
          IsString-append ds cs m new dst (λ i le. bytes (dst + i) ∙ ground arith) h
              (IsString-moved cs m new src (dst + length ds)
                (λ i le. bytes (dst + length ds + i) ∙ ground arith) k),
          λ a out. bytes a ∙ ground arith,
        ),
      ),
    )

strlcpy_from-movsb_up :
    (cs : List ℕ) (dst src size : ℕ) (m : Memory)
    → IsString m src cs
    → (dst ≤ src) ⊎ (src + length cs < dst)
    → strlcpy_from dst src size m ≡ (
      update (movsb_up (length (take size cs)) dst src m) (dst + length (take size cs)) 0,
      dst + length (take size cs),
    )
unfolding strlcpy_from movsb_up
strlcpy_from-movsb_up cs dst src zero m h apart = ap (λ (d : ℕ). (update m d 0, d)) (omega arith)
strlcpy_from-movsb_up [] dst src (suc size) m h apart =
    rw h (ap (λ (d : ℕ). (update m d 0, d)) (omega arith))
strlcpy_from-movsb_up (c ∷ cs) dst src (suc size) m (e, (ne, h)) apart =
    let more : (m src == 0) ≡ false = ground arith in
    let n : ℕ = length (take size cs) in
    rw more (
      strlcpy_from-movsb_up cs (dst + 1) (src + 1) size (update m dst (m src))
        (IsString-update cs m (src + 1) dst (m src) (omega arith) h) (omega arith)
      ∙ ap (λ (d : ℕ). (update (movsb_up n (dst + 1) (src + 1) (update m dst (m src))) d 0, d))
          (omega arith))

length-take : (n : ℕ) (cs : List ℕ) → (length (take n cs) ≤ n) × (length (take n cs) ≤ length cs)
length-take zero cs = (omega arith, omega arith)
length-take (suc n) [] = (omega arith, omega arith)
length-take (suc n) (c ∷ cs) = let (p, q) = length-take n cs in (omega arith, omega arith)

-- A string cut at a null byte.
IsString-take :
    (n : ℕ) (cs : List ℕ) (m m' : Memory) (s s' : ℕ)
    → ((i : ℕ) → i < length (take n cs) → m' (s' + i) ≡ m (s + i))
    → m' (s' + length (take n cs)) ≡ 0
    → IsString m s cs
    → IsString m' s' (take n cs)
IsString-take zero cs m m' s s' e z h = ap m' (omega arith) ∙ z
IsString-take (suc n) [] m m' s s' e z h = ap m' (omega arith) ∙ z
IsString-take (suc n) (c ∷ cs) m m' s s' e z (p, (ne, h)) = (
  ground (arith, e 0),
  (
    ne,
    IsString-take n cs m m' (s + 1) (s' + 1) (λ i lt. ground (arith, e (suc i)))
        (ap m' (omega arith) ∙ z) h,
  ),
)

-- For a string at src that lies at or above dst or ends below it, strlcpy with a size of size + 1
-- leaves at dst the first `size` characters of the string, or all if it is shorter, with a null
-- byte; it returns how many, and writes no byte outside the size + 1 bytes at dst.
pub strlcpy-take :
    (cs : List ℕ) (dst src size : ℕ) (m : Memory)
    → IsString m src cs
    → (dst ≤ src) ⊎ (src + length cs < dst)
    → ((strlcpy dst src (suc size) m).1 ≡ length (take size cs))
      × (IsString (strlcpy dst src (suc size) m).0 dst (take size cs)
          × ((a : ℕ) → (a < dst) ⊎ (dst + size < a) → (strlcpy dst src (suc size) m).0 a ≡ m a))
unfolding strlcpy
strlcpy-take cs dst src size m h apart =
    let n : ℕ = length (take size cs) in
    let run : strlcpy_from dst src size m ≡ (update (movsb_up n dst src m) (dst + n) 0, dst + n) =
      strlcpy_from-movsb_up cs dst src size m h apart in
    let (short, part) = length-take size cs in
    let bytes : (a : ℕ)
        → (strlcpy_from dst src size m).0 a ≡ update (copied n dst src m) (dst + n) 0 a =
      λ a. ap (λ (r : Memory × ℕ). r.0 a) run ∙ ground (arith, movsb_up-copied n dst src m a) in
    (
      ap (λ (r : Memory × ℕ). r.1 - dst) run ∙ omega arith,
      (
        IsString-take size cs m (strlcpy_from dst src size m).0 src dst
            (λ i lt. bytes (dst + i) ∙ ground arith) (bytes (dst + n) ∙ ground arith) h,
        λ a out. bytes a ∙ ground arith,
      ),
    )
