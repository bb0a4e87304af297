-- ===== src/Strings/Length.antt =====
-- `strlen` and `strnlen` count the bytes before the null byte.
use comp530h.Base.{
  ℕ, zero, suc, ◌+◌, ◌<◌, ◌≡◌, leb, if◌then◌else◌, some, List, [], ◌∷◌, length, arith, ap, ◌∙◌,
}
use comp530h.Bytes.{Memory}
use comp530h.Strings.{IsString, strlen_from, strlen, strnlen_from}

strlen_from_lem :
    (cs : List ℕ) (f s n : ℕ) (m : Memory)
    → IsString m s cs
    → length cs < f
    → strlen_from f s n m ≡ some (n + length cs)
unfolding strlen_from
strlen_from_lem cs zero s n m h lt = ground arith
strlen_from_lem [] (suc f) s n m h lt = ground arith
strlen_from_lem (c ∷ cs) (suc f) s n m (e, (ne, h)) lt =
    ground (arith, strlen_from_lem cs f (s + 1) (n + 1) m h)

pub strlen_lem :
    (cs : List ℕ) (f s : ℕ) (m : Memory)
    → IsString m s cs
    → length cs < f
    → strlen f s m ≡ some (length cs)
strlen_lem cs f s m h lt = strlen_from_lem cs f s 0 m h lt ∙ ap some (omega arith)

strnlen_from_lem :
    (cs : List ℕ) (size s n : ℕ) (m : Memory)
    → IsString m s cs
    → strnlen_from size s n m ≡ n + (if leb (length cs) size then length cs else size)
unfolding strnlen_from
strnlen_from_lem cs zero s n m h = ground arith
strnlen_from_lem [] (suc size) s n m h = ground arith
strnlen_from_lem (c ∷ cs) (suc size) s n m (e, (ne, h)) =
    ground (arith, strnlen_from_lem cs size (s + 1) (n + 1) m h)
