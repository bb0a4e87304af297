-- ===== src/Number.antt =====
-- Numbers in text: `printnum` of lib/printfmt.c and `strtol` of lib/string.c.
-- Both run on fuel: `none` and `unended` are a run that has not ended.
pub mod RoundTrip
use comp530h.Base.{
  ℕ, zero, suc, ◌+◌, ◌-◌, ◌*◌, ◌/◌, ◌%◌, ◌^◌, Bool, ◌&&◌, ◌||◌, ltb, leb, ◌==◌, if◌then◌else◌,
  Option, none, some, List, [], ◌∷◌, ◌++◌,
}
use comp530h.Bytes.{Memory}

-- "0123456789abcdef"[d]
abbrev pub digit : ℕ → ℕ
digit d = if ltb d 10 then 48 + d else 87 + d

abbrev pub repeat : (n c : ℕ) → List ℕ
repeat zero c = []
repeat (suc n) c = c ∷ repeat n c

abbrev pub then_put : Option (List ℕ) → ℕ → Option (List ℕ)
then_put none c = none
then_put (some out) c = some (out ++ c ∷ [])

-- The characters put, in order. A width that the source has below 0 is 0 here: neither pads.
unfoldable pub printnum : (fuel num base width padc : ℕ) → Option (List ℕ)
printnum zero num base width padc = none
printnum (suc f) num base width padc =
    let more = printnum f (num / base) base (width - 1) padc in
    if leb base num
    then then_put more (digit (num % base))
    else some (repeat (width - 1) padc ++ digit (num % base) ∷ [])

unfoldable pub skip_blanks : (fuel s : ℕ) → Memory → Option ℕ
skip_blanks zero s m = none
skip_blanks (suc f) s m =
    let rest = skip_blanks f (s + 1) m in if (m s == 32) || (m s == 9) then rest else some s

-- The value of a digit, or none when the character is no digit or letter.
abbrev pub digit_value : ℕ → Option ℕ
digit_value c =
    if leb 48 c && leb c 57
    then some (c - 48)
    else if leb 97 c && leb c 122
    then some (c - 97 + 10)
    else if leb 65 c && leb c 90
    then some (c - 65 + 10)
    else none

-- What strtol gives: the value and where the digits end; or the value has left the range of a long,
-- where C leaves the behaviour open. Fuel can run out.
pub data Reading : Type 0 where
  reads : (val s : ℕ) → Reading
  overflows : Reading
  unended : Reading

abbrev pub long_limit : ℕ
long_limit = 2 ^ 63

-- The loop on digits; `val` is not negative in it.
unfoldable pub digits_from : (fuel s base val : ℕ) → Memory → Reading
digits_from zero s base val m = unended
digits_from (suc f) s base val m = elim (digit_value (m s)) [
  | none ↦ reads val s
  | some dig ↦
      let rest = digits_from f (s + 1) base (val * base + dig) m in
      if leb base dig
      then reads val s
      else if leb long_limit (val * base + dig)
      then overflows
      else rest
]

-- The base and the start of the digits.
abbrev pub base_prefix : (s base : ℕ) → Memory → ℕ × ℕ
base_prefix s base m =
    if ((base == 0) || (base == 16)) && ((m s == 48) && (m (s + 1) == 120))
    then (s + 2, 16)
    else if (base == 0) && (m s == 48)
    then (s + 1, 8)
    else if base == 0
    then (s, 10)
    else (s, base)

abbrev pub with_sign : (neg : Bool) → Reading → Reading
with_sign neg (reads val s) = reads (if neg then (2 ^ 64 - val) % 2 ^ 64 else val) s
with_sign neg overflows = overflows
with_sign neg unended = unended

-- From the sign on.
abbrev pub strtol_from : (fuel s base : ℕ) → Memory → Reading
strtol_from f s base m =
    let neg = m s == 45 in
    let p = base_prefix (if (m s == 43) || neg then s + 1 else s) base m in
    with_sign neg (digits_from f p.0 p.1 0 m)

abbrev pub after_blanks : Option ℕ → (fuel base : ℕ) → Memory → Reading
after_blanks none f base m = unended
after_blanks (some t) f base m = strtol_from f t base m

-- The result as a 64-bit pattern, and what `*endptr` gets.
unfoldable pub strtol : (fuel s base : ℕ) → Memory → Reading
strtol f s base m = after_blanks (skip_blanks f s m) f base m
