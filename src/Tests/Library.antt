-- ===== src/Tests/Library.antt =====
-- The C library on a small memory.
use comp530h.Base.{ℕ, zero, suc, ◌<◌, ◌≡◌, ◌≢◌, refl, some, List, [], ◌∷◌, arith}
use comp530h.Bytes.{Memory, memmove}
use comp530h.Bytes.Move.{memmove_lem}
use comp530h.Strings.Compare.{IsBytes}
use comp530h.Number.{printnum, strtol, reads, overflows, skip_blanks, digits_from}
use comp530h.Number.RoundTrip.{strtol-printnum}
use comp530h.Format.{word}
use comp530h.Print.{printed, out_of_fuel, vprintfmt, turn}
use comp530h.Format.{directive}
use comp530h.Print.Total.{vprintfmt-ends}
use comp530h.Print.Buffer.{counted, vsnprintf, buffered, vsnprintf_lem}

-- The bytes from address 0 on, with null bytes behind them.
abbrev bytes : List ℕ → Memory
bytes [] a = 0
bytes (c ∷ cs) zero = c
bytes (c ∷ cs) (suc a) = bytes cs a

abbrev AreBytes : List ℕ → Type 0
AreBytes [] = Unit {0}
AreBytes (c ∷ cs) = (c < 256) × AreBytes cs

bytes-IsBytes : (cs : List ℕ) → AreBytes cs → IsBytes (bytes cs)
bytes-IsBytes [] h a = omega arith
bytes-IsBytes (c ∷ cs) h zero = h.0
bytes-IsBytes (c ∷ cs) h (suc a) = bytes-IsBytes cs h.1 a

-- "abac" at 0 and "ac" at 5
abbrev texts : List ℕ
texts = 97 ∷ 98 ∷ 97 ∷ 99 ∷ 0 ∷ 97 ∷ 99 ∷ []

-- The ranges from 1 and from 0 overlap.
memmove_lem_example : memmove 1 0 4 (bytes texts) 4 ≡ 99
memmove_lem_example = memmove_lem 1 0 4 (bytes texts) 4

-- "2a"
hexadecimal : printnum 8 42 16 0 32 ≡ some (50 ∷ 97 ∷ [])
unfolding printnum
hexadecimal = refl

strtol-printnum_example : strtol 3 0 16 (bytes (50 ∷ 97 ∷ [])) ≡ reads 42 2
strtol-printnum_example =
    strtol-printnum 42 16 0 32 7 3 0 (50 ∷ 97 ∷ []) (bytes (50 ∷ 97 ∷ [])) (omega arith)
      (omega arith) (omega arith) (omega arith) hexadecimal (omega arith) (omega arith)
      (omega arith)

-- 2^63
too_long :
    strtol 20 0 16
      (bytes (56 ∷ 48 ∷ 48 ∷ 48 ∷ 48 ∷ 48 ∷ 48 ∷ 48 ∷ 48 ∷ 48 ∷ 48 ∷ 48 ∷ 48 ∷ 48 ∷ 48 ∷ 48 ∷ []))
    ≡ overflows
unfolding strtol skip_blanks digits_from
too_long = refl

vprintfmt-ends_example : vprintfmt 4 (37 ∷ 100 ∷ 10 ∷ []) (word 5 ∷ []) ≢ out_of_fuel
vprintfmt-ends_example = vprintfmt-ends 4 (37 ∷ 100 ∷ 10 ∷ []) (word 5 ∷ []) (omega arith)

-- "abc"
plain : vprintfmt 4 (97 ∷ 98 ∷ 99 ∷ []) [] ≡ printed (97 ∷ 98 ∷ 99 ∷ [])
unfolding vprintfmt turn directive
plain = refl

-- Three bytes for "abc"
vsnprintf_lem_example :
    (m' : Memory) × ((vsnprintf 4 16 3 (97 ∷ 98 ∷ 99 ∷ []) [] (bytes texts) ≡ counted 3 m')
      × ((a : ℕ) → m' a ≡ buffered (97 ∷ 98 ∷ 99 ∷ []) 16 3 (bytes texts) a))
vsnprintf_lem_example =
    vsnprintf_lem 4 16 3 (97 ∷ 98 ∷ 99 ∷ []) (97 ∷ 98 ∷ 99 ∷ []) [] (bytes texts) (omega arith)
      (omega arith) (omega arith) plain
