-- ===== src/Print/Total.antt =====
-- `vprintfmt` ends: every turn of its loop takes at least one character of the format.
use comp530h.Base.{
  ℕ, zero, suc, ◌≤◌, ◌<◌, ◌≢◌, ◌==◌, Option, none, some, List, [], ◌∷◌, length, arith, refl, inl,
  inr, Option-cases, Bool-cases,
}
use comp530h.Format.{Arg, Flags, directive, flag}
use comp530h.Print.{
  Printed, printed, bad_argument, out_of_fuel, Turn, convert, take_arg, with_rest, turn, vprintfmt,
  put_first, put_arg, start_flags, is_conversion,
}

directive-shorter : (cs : List ℕ) (s : Flags) → length (directive cs s).1.0 ≤ length cs
unfolding directive
directive-shorter [] s = omega arith
directive-shorter (c ∷ cs) s = elim (Option-cases (flag c s)) [
  | inl e ↦ rw (directive, e) (omega arith)
  | inr (t, e) ↦ rw (directive, e) (omega (arith, directive-shorter cs t))
]

-- What a turn leaves of the format is at most `n` characters.
abbrev Leaves : Turn → ℕ → Type 0
Leaves none n = Unit {0}
Leaves (some (out, (rest, args))) n = length rest ≤ n

with_rest-Leaves :
    (o : Option (List ℕ)) (rest : List ℕ) (args : List Arg) (n : ℕ)
    → length rest ≤ n
    → Leaves (with_rest o rest args) n
with_rest-Leaves none rest args n h = tt
with_rest-Leaves (some out) rest args n h = h

take_arg-Leaves :
    (ch : ℕ) (rest : List ℕ) (s : Flags) (args : List Arg) (n : ℕ)
    → length rest ≤ n
    → Leaves (take_arg ch rest s args) n
take_arg-Leaves ch rest s [] n h = tt
take_arg-Leaves ch rest s (a ∷ args) n h = with_rest-Leaves (put_arg ch a s) rest args n h

convert-Leaves :
    (cs : List ℕ) (ch : ℕ) (rest : List ℕ) (s : Flags) (args : Option (List Arg)) (n : ℕ)
    → length cs ≤ n
    → length rest ≤ n
    → Leaves (convert cs ch rest s args) n
convert-Leaves cs ch rest s none n h k = tt
convert-Leaves cs ch rest s (some args) n h k = elim (Bool-cases (is_conversion ch)) [
  | inl e ↦ rw e (take_arg-Leaves ch rest s args n k)
  | inr e ↦ elim (Bool-cases (ch == 37)) [ inl p ↦ rw (e, p) k | inr p ↦ rw (e, p) h ]
]

turn-Leaves : (c : ℕ) (cs : List ℕ) (args : List Arg) → Leaves (turn c cs args) (length cs)
unfolding turn
turn-Leaves c cs args =
    let s = start_flags args in
    elim (Bool-cases (c == 37)) [
      | inl e ↦
          rw (turn, e)
            (convert-Leaves cs (directive cs s).0 (directive cs s).1.0 (directive cs s).1.1
              (directive cs s).1.1.args (length cs) (omega arith) (directive-shorter cs s))
      | inr e ↦ rw (turn, e) (omega arith)
    ]

put_first-ends : (out : List ℕ) (r : Printed) → r ≢ out_of_fuel → put_first out r ≢ out_of_fuel
put_first-ends out (printed more) h e = cc e
put_first-ends out bad_argument h e = cc e
put_first-ends out out_of_fuel h e = h refl

-- The loop after a turn, for a loop that ends on what is left.
after :
    (f n : ℕ) (t : Turn)
    → ((fmt : List ℕ) (args : List Arg) → length fmt ≤ n → vprintfmt f fmt args ≢ out_of_fuel)
    → Leaves t n
    → elim t [
      | none ↦ bad_argument
      | some (out, (rest, args)) ↦ put_first out (vprintfmt f rest args)
    ]
      ≢ out_of_fuel
after f n none ih h e = cc e
after f n (some (out, (rest, args))) ih h e =
    put_first-ends out (vprintfmt f rest args) (ih rest args h) e

-- With more fuel than the format has characters, vprintfmt does not run out of fuel, whatever the
-- arguments.
pub vprintfmt-ends :
    (f : ℕ) (fmt : List ℕ) (args : List Arg) → length fmt < f → vprintfmt f fmt args ≢ out_of_fuel
unfolding vprintfmt
vprintfmt-ends zero fmt args h e = absurd (omega arith)
vprintfmt-ends (suc f) [] args h e = cc e
vprintfmt-ends (suc f) (c ∷ cs) args h e =
    after f (length cs) (turn c cs args) (λ fmt more le. vprintfmt-ends f fmt more (omega arith))
      (turn-Leaves c cs args) e
