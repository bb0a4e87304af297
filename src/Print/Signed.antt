-- ===== src/Print/Signed.antt =====
-- What `%d` prints.
use comp530h.Base.{
  ℕ, ◌-◌, ◌%◌, ◌^◌, ◌<◌, ◌≡◌, ltb, if◌then◌else◌, Option, none, some, suc, List, [], ◌∷◌, ◌++◌,
  arith, refl, ap, ◌∙◌, inl, inr, Bool-cases, true, false,
}
use mathlib.Core.List.{append-nil}
use comp530h.Number.{repeat}
use comp530h.Number.RoundTrip.{characters, value, IsDigits, printnum-Prints}
use comp530h.Format.{Arg, word, directive}
use comp530h.Print.{
  Printed, printed, bad_argument, turn, vprintfmt, put_first, put_number, put_signed, put_after,
  with_rest, start_flags,
}

-- A 64-bit pattern as a signed number: its sign and its distance from 0.
abbrev pub minus : ℕ → List ℕ
minus v = if ltb v (2 ^ 63) then [] else 45 ∷ []

abbrev pub magnitude : ℕ → ℕ
magnitude v = if ltb v (2 ^ 63) then v else 2 ^ 64 - v

-- The end of a format whose last turn put `o`.
abbrev finish : Option (List ℕ) → Printed
finish none = bad_argument
finish (some out) = printed (out ++ [])

last_turn :
    (f : ℕ) (o : Option (List ℕ))
    → elim (with_rest o [] []) [
      | none ↦ bad_argument
      | some (out, (rest, args)) ↦ put_first out (vprintfmt (suc f) rest args)
    ]
      ≡ finish o
unfolding vprintfmt
last_turn f none = refl
last_turn f (some out) = refl

run_decimal :
    (v : ℕ)
    → vprintfmt 2 (37 ∷ 100 ∷ []) (word v ∷ []) ≡ finish (put_signed v (start_flags (word v ∷ [])))
unfolding vprintfmt turn directive
run_decimal v = last_turn 0 (put_signed v (start_flags (word v ∷ [])))

-- A number of 64 bits without padding.
put_decimal :
    (num : ℕ) (args : List Arg)
    → num < 2 ^ 64
    → (ds : List ℕ) × ((put_number num 10 (start_flags args) ≡ some (characters ds))
        × (IsDigits 10 ds × (value 10 ds 0 ≡ num)))
put_decimal num args h =
    let (ds, (r, (ok, (v, n)))) =
      printnum-Prints 63 (num % 2 ^ 64) 10 0 32 (omega arith) (omega arith) in
    (
      ds,
      (
        r ∙ ap (λ (k : ℕ). some (repeat k 32 ++ characters ds)) {y = 0} (omega arith),
        (ok, v ∙ omega arith),
      ),
    )

-- For a slot of 64 bits, the format "%d" prints a minus sign if the slot is negative as a signed
-- number, and then digits whose value in base 10 is its distance from 0.
pub vprintfmt-decimal :
    (v : ℕ)
    → v < 2 ^ 64
    → (ds : List ℕ) × ((vprintfmt 2 (37 ∷ 100 ∷ []) (word v ∷ [])
          ≡ printed (minus v ++ characters ds))
        × (IsDigits 10 ds × (value 10 ds 0 ≡ magnitude v)))
vprintfmt-decimal v h = elim (Bool-cases (ltb v (2 ^ 63))) [
  | inl p ↦
      let (ds, (r, (ok, e))) = put_decimal v (word v ∷ []) h in
      let wrap : ltb (v % 2 ^ 64) (2 ^ 63) ≡ true = ground arith in
      (
        ds,
        (
          run_decimal v
              ∙ (rw wrap (ap finish r) ∙ (ap printed (append-nil (characters ds)) ∙ rw p refl)),
          (ok, e ∙ rw p refl),
        ),
      )
  | inr p ↦
      let (ds, (r, (ok, e))) = put_decimal (2 ^ 64 - v % 2 ^ 64) (word v ∷ []) (ground arith) in
      let wrap : ltb (v % 2 ^ 64) (2 ^ 63) ≡ false = ground arith in
      (
        ds,
        (
          run_decimal v
              ∙ (rw wrap (ap (λ (o : Option (List ℕ)). finish (put_after (45 ∷ []) o)) r)
                  ∙ (ap printed (append-nil (45 ∷ characters ds)) ∙ rw p refl)),
          (ok, e ∙ rw p (omega arith)),
        ),
      )
]
