-- ===== src/Number/RoundTrip.antt =====
-- `strtol` reads back what `printnum` prints, and `printnum` ends.
use comp530h.Base.{
  ℕ, zero, suc, ◌+◌, ◌-◌, ◌*◌, ◌/◌, ◌%◌, ◌^◌, ◌≤◌, ◌<◌, ◌≡◌, inl, inr, refl, true, false, ◌||◌, leb,
  ◌==◌, Option, some, List, [], ◌∷◌, ◌++◌, length, arith, ap, ◌∙◌, sym, Bool-cases, length-append,
}
use native.Mathlib.Nat.{
  mul-le-mul_left, mod-lt, mod-eq_of_lt, pow-suc, div-lt_iff_lt-mul, div-add-mod',
}
use mathlib.Core.List.{append_assoc}
use mathlib.Core.Path.{subst}
use mathlib.Core.Option.{some-injective}
use comp530h.Bytes.{Memory}
use comp530h.Strings.{IsString}
use comp530h.Number.{
  digit, then_put, repeat, printnum, digit_value, digits_from, strtol_from, strtol, skip_blanks,
  with_sign, base_prefix, reads, after_blanks,
}

digit_value-digit : (d base : ℕ) → d < base → base ≤ 16 → digit_value (digit d) ≡ some d
digit_value-digit d base h k = ground arith

-- The digits `ds`, the first the most significant, read after the value `v`.
abbrev pub value : (base : ℕ) → List ℕ → ℕ → ℕ
value base [] v = v
value base (d ∷ ds) v = value base ds (v * base + d)

abbrev pub IsDigits : ℕ → List ℕ → Type 0
IsDigits base [] = Unit {0}
IsDigits base (d ∷ ds) = (d < base) × IsDigits base ds

abbrev pub characters : List ℕ → List ℕ
characters [] = []
characters (d ∷ ds) = digit d ∷ characters ds

value-append :
    (base : ℕ) (ds : List ℕ) (v d : ℕ) → value base (ds ++ d ∷ []) v ≡ value base ds v * base + d
value-append base [] v d = refl
value-append base (e ∷ ds) v d = value-append base ds (v * base + e) d

value_grows : (base : ℕ) (ds : List ℕ) (v : ℕ) → 1 ≤ base → v ≤ value base ds v
value_grows base [] v h = omega arith
value_grows base (d ∷ ds) v h =
    let step : v * 1 ≤ v * base = mul-le-mul_left v h in
    omega (arith, step, value_grows base ds (v * base + d) h)

IsDigits-append :
    (base : ℕ) (ds : List ℕ) (d : ℕ) → IsDigits base ds → d < base → IsDigits base (ds ++ d ∷ [])
IsDigits-append base [] d h k = (k, tt)
IsDigits-append base (e ∷ ds) d (p, h) k = (p, IsDigits-append base ds d h k)

characters-append :
    (ds : List ℕ) (d : ℕ) → characters (ds ++ d ∷ []) ≡ characters ds ++ digit d ∷ []
characters-append [] d = refl
characters-append (e ∷ ds) d = ap (λ (cs : List ℕ). digit e ∷ cs) (characters-append ds d)

length-characters : (ds : List ℕ) → length (characters ds) ≡ length ds
length-characters [] = refl
length-characters (e ∷ ds) = ap suc (length-characters ds)

-- The pad characters and the digits that `printnum` puts.
abbrev Prints : (num base width padc : ℕ) → Option (List ℕ) → List ℕ → Type 0
Prints num base width padc r ds =
    (r ≡ some (repeat (width - length ds) padc ++ characters ds))
    × (IsDigits base ds × ((value base ds 0 ≡ num) × (1 ≤ length ds)))

quotient_bound : (f num base : ℕ) → 1 < base → num < 2 ^ suc f → num / base < 2 ^ f
quotient_bound f num base h lt =
    let wide : 2 ^ f * 2 ≤ 2 ^ f * base = mul-le-mul_left (2 ^ f) h in
    let e : 2 ^ suc f ≡ 2 ^ f * 2 = pow-suc 2 f in (div-lt_iff_lt-mul (omega arith)).1 (omega arith)

-- The last digit, alone and after the others.
one_digit :
    (f num base width padc : ℕ)
    → num < base
    → Prints num base width padc (printnum (suc f) num base width padc) (num ∷ [])
unfolding printnum
one_digit f num base width padc lt =
    let out : leb base num ≡ false = ground arith in
    let d : num % base ≡ num = mod-eq_of_lt lt in
    (
      rw out (ap (λ (x : ℕ). some (repeat (width - 1) padc ++ digit x ∷ [])) d),
      ((lt, tt), (omega arith, omega arith)),
    )

more_digits :
    (f num base width padc : ℕ) (ds : List ℕ)
    → 1 < base
    → base ≤ num
    → Prints
        (num / base)
        base
        (width - 1)
        padc
        (printnum (suc f) (num / base) base (width - 1) padc)
        ds
    → Prints num base width padc
        (printnum (suc (suc f)) num base width padc)
        (ds ++ num % base ∷ [])
unfolding printnum
more_digits f num base width padc ds h le (r, (ok, (v, len))) =
    let more : leb base num ≡ true = ground arith in
    let d : num % base < base = mod-lt num (omega arith) in
    let n : length (ds ++ num % base ∷ []) ≡ length ds + 1 = length-append ds (num % base ∷ []) in
    (
      rw more (
          ap (λ (o : Option (List ℕ)). then_put o (digit (num % base))) r
          ∙ ap some (
              append_assoc (repeat (width - 1 - length ds) padc) (characters ds)
                (digit (num % base) ∷ [])
              ∙ (ap (λ (l : List ℕ). repeat (width - 1 - length ds) padc ++ l)
                    (sym (characters-append ds (num % base)))
                  ∙ ap (λ (k : ℕ). repeat k padc ++ characters (ds ++ num % base ∷ []))
                      (omega (arith, n))))),
      (
        IsDigits-append base ds (num % base) ok d,
        (
          value-append base ds 0 (num % base)
              ∙ (ap (λ (x : ℕ). x * base + num % base) v ∙ div-add-mod' num base),
          omega (arith, n),
        ),
      ),
    )

-- With fuel for the bits of the number, `printnum` ends.
pub printnum-Prints :
    (f num base width padc : ℕ)
    → 1 < base
    → num < 2 ^ suc f
    → (ds : List ℕ) × Prints num base width padc (printnum (suc f) num base width padc) ds
printnum-Prints zero num base width padc h lt =
    (num ∷ [], one_digit zero num base width padc (omega arith))
printnum-Prints (suc f) num base width padc h lt = elim (Bool-cases (leb base num)) [
  | inl p ↦
      let (ds, r) =
        printnum-Prints f (num / base) base (width - 1) padc h
          (quotient_bound (suc f) num base h lt) in
      (ds ++ num % base ∷ [], more_digits f num base width padc ds h (ground arith) r)
  | inr p ↦ (num ∷ [], one_digit (suc f) num base width padc (ground arith))
]

digits_from-value :
    (ds : List ℕ) (f s base v : ℕ) (m : Memory)
    → 1 < base
    → base ≤ 16
    → IsDigits base ds
    → IsString m s (characters ds)
    → value base ds v < 2 ^ 63
    → length ds < f
    → digits_from f s base v m ≡ reads (value base ds v) (s + length ds)
unfolding digits_from
digits_from-value ds zero s base v m h k ok str lt en = ground arith
digits_from-value [] (suc f) s base v m h k ok str lt en =
    rw (digits_from, str) (ap (λ (t : ℕ). reads v t) (omega arith))
digits_from-value (d ∷ ds) (suc f) s base v m h k (dlt, ok) (e, (ne, str)) lt en =
    let grows : v * base + d ≤ value base ds (v * base + d) =
      value_grows base ds (v * base + d) (omega arith) in
    let small : leb (2 ^ 63) (v * base + d) ≡ false = ground (arith, grows, lt) in
    let out : leb base d ≡ false = ground arith in
    rw (digits_from, e, digit_value-digit d base dlt k, out, small)
      (digits_from-value ds f (s + 1) base (v * base + d) m h k ok str lt (omega arith)
        ∙ ap (λ (t : ℕ). reads (value base ds (v * base + d)) t) (omega arith))

-- No digit is a blank, a sign or an `x`.
abbrev IsPlain : ℕ → Type 0
IsPlain c =
    (((c == 32) || (c == 9)) ≡ false)
    × (((c == 45) ≡ false) × (((c == 43) ≡ false) × ((c == 120) ≡ false)))

digit-IsPlain : (d : ℕ) → d < 16 → IsPlain (digit d)
digit-IsPlain d h = ground arith

no_x :
    (ds : List ℕ) (s base : ℕ) (m : Memory)
    → base ≤ 16
    → IsDigits base ds
    → IsString m s (characters ds)
    → (m s == 120) ≡ false
no_x [] s base m k ok str = rw str refl
no_x (d ∷ ds) s base m k (lt, ok) (e, (ne, str)) = rw e (digit-IsPlain d (omega arith)).1.1.1

base_prefix_none :
    (s base : ℕ) (m : Memory)
    → 1 < base
    → (m (s + 1) == 120) ≡ false
    → base_prefix s base m ≡ (s, base)
base_prefix_none s base m h x = ground arith

-- A string of digits in the base reads as their value.
strtol-value :
    (ds : List ℕ) (f s base : ℕ) (m : Memory)
    → 1 < base
    → base ≤ 16
    → 1 ≤ length ds
    → IsDigits base ds
    → IsString m s (characters ds)
    → value base ds 0 < 2 ^ 63
    → length ds < f
    → strtol f s base m ≡ reads (value base ds 0) (s + length ds)
unfolding strtol skip_blanks
strtol-value [] f s base m h k n ok str lt en = ground arith
strtol-value (d ∷ ds) zero s base m h k n ok str lt en = ground arith
strtol-value (d ∷ ds) (suc f) s base m h k n (dlt, ok) (e, (ne, str)) lt en =
    let (blank, (minus, (plus, x))) = digit-IsPlain d (omega arith) in
    let next : (m (s + 1) == 120) ≡ false = no_x ds (s + 1) base m k ok str in
    let run : digits_from (suc f) s base 0 m ≡ reads (value base (d ∷ ds) 0) (s + suc (length ds)) =
      digits_from-value (d ∷ ds) (suc f) s base 0 m h k (dlt, ok) (e, (ne, str)) lt en in
    let skip : skip_blanks (suc f) s m ≡ some s = rw (skip_blanks, e, blank) refl in
    let from : strtol_from (suc f) s base m ≡ reads (value base (d ∷ ds) 0) (s + suc (length ds)) =
      rw (e, plus, minus) (rw (base_prefix_none s base m h next) (ap (with_sign false) run)) in
    ap (λ (o : Option ℕ). after_blanks o (suc f) base m) skip ∙ from

-- For a base from 2 to 16 and a number below 2^63, what printnum prints with a width of at most 1,
-- with fuel for the bits of the number, strtol reads back in that base, with fuel for the
-- characters: it returns the number and the end of the text.
pub strtol-printnum :
    (num base width padc f g s : ℕ) (out : List ℕ) (m : Memory)
    → 1 < base
    → base ≤ 16
    → num < 2 ^ 63
    → width ≤ 1
    → printnum (suc f) num base width padc ≡ some out
    → num < 2 ^ suc f
    → IsString m s out
    → length out < g
    → strtol g s base m ≡ reads num (s + length out)
strtol-printnum num base width padc f g s out m h k big narrow run fuel str en =
    let (ds, (r, (ok, (v, n)))) = printnum-Prints f num base width padc h fuel in
    let e : out ≡ characters ds = some-injective out (characters ds) (
      sym run
      ∙ (r ∙ ap (λ (w : ℕ). some (repeat w padc ++ characters ds)) {y = 0} (omega arith))) in
    let len : length out ≡ length ds = ap length e ∙ length-characters ds in
    strtol-value ds g s base m h k n ok (subst (λ (l : List ℕ). IsString m s l) e str)
      (omega (arith, v)) (omega (arith, len))
    ∙ (ap (λ (x : ℕ). reads x (s + length ds)) v ∙ ap (λ (x : ℕ). reads num (s + x)) (sym len))
