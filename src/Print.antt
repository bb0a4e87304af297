-- ===== src/Print.antt =====
-- lib/printfmt.c: what `vprintfmt` prints.
--
-- A format is the list of its bytes before the null byte. What is put is the list of the characters given to
-- `putch`, as 32-bit patterns.
pub mod Total
pub mod Buffer
pub mod Signed
use comp530h.Base.{
  ℕ, zero, suc, ◌+◌, ◌-◌, ◌%◌, ◌^◌, Bool, false, ◌&&◌, ◌||◌, ltb, ◌==◌, if◌then◌else◌, Option, none,
  some, List, [], ◌∷◌, ◌++◌, length,
}
use comp530h.Number.{printnum, repeat}
use comp530h.Format.{Arg, word, text, null, Flags, directive}

-- The end of a call: the characters put, an argument that is not there or not of the format's kind (which
-- C leaves open), or no fuel left.
pub data Printed : Type 0 where
  printed : List ℕ → Printed
  bad_argument out_of_fuel : Printed

abbrev pub error_string : ℕ → Option (List ℕ)
error_string e =
    if e == 1
    then some (
        117 ∷ 110 ∷ 115 ∷ 112 ∷ 101 ∷ 99 ∷ 105 ∷ 102 ∷ 105 ∷ 101 ∷ 100 ∷ 32 ∷ 101 ∷ 114 ∷ 114 ∷ 111
        ∷ 114 ∷ [])
    else if e == 2
    then some
        (98 ∷ 97 ∷ 100 ∷ 32 ∷ 101 ∷ 110 ∷ 118 ∷ 105 ∷ 114 ∷ 111 ∷ 110 ∷ 109 ∷ 101 ∷ 110 ∷ 116 ∷ [])
    else if e == 3
    then some (
        105 ∷ 110 ∷ 118 ∷ 97 ∷ 108 ∷ 105 ∷ 100 ∷ 32 ∷ 112 ∷ 97 ∷ 114 ∷ 97 ∷ 109 ∷ 101 ∷ 116 ∷ 101
        ∷ 114 ∷ [])
    else if e == 4
    then some (111 ∷ 117 ∷ 116 ∷ 32 ∷ 111 ∷ 102 ∷ 32 ∷ 109 ∷ 101 ∷ 109 ∷ 111 ∷ 114 ∷ 121 ∷ [])
    else if e == 5
    then some (
        111 ∷ 117 ∷ 116 ∷ 32 ∷ 111 ∷ 102 ∷ 32 ∷ 101 ∷ 110 ∷ 118 ∷ 105 ∷ 114 ∷ 111 ∷ 110 ∷ 109 ∷ 101
        ∷ 110 ∷ 116 ∷ 115 ∷ [])
    else if e == 6
    then some (
        115 ∷ 101 ∷ 103 ∷ 109 ∷ 101 ∷ 110 ∷ 116 ∷ 97 ∷ 116 ∷ 105 ∷ 111 ∷ 110 ∷ 32 ∷ 102 ∷ 97 ∷ 117
        ∷ 108 ∷ 116 ∷ [])
    else if e == 8
    then some (
        101 ∷ 110 ∷ 118 ∷ 32 ∷ 105 ∷ 115 ∷ 32 ∷ 110 ∷ 111 ∷ 116 ∷ 32 ∷ 114 ∷ 101 ∷ 99 ∷ 118 ∷ 105
        ∷ 110 ∷ 103 ∷ [])
    else if e == 9
    then some (
        117 ∷ 110 ∷ 101 ∷ 120 ∷ 112 ∷ 101 ∷ 99 ∷ 116 ∷ 101 ∷ 100 ∷ 32 ∷ 101 ∷ 110 ∷ 100 ∷ 32 ∷ 111
        ∷ 102 ∷ 32 ∷ 102 ∷ 105 ∷ 108 ∷ 101 ∷ [])
    else none

abbrev pub value_or : (d : ℕ) → Option ℕ → ℕ
value_or d none = d
value_or d (some n) = n

-- number: printnum on a 64-bit number, with fuel for its bits
abbrev pub put_number : (num base : ℕ) → Flags → Option (List ℕ)
put_number num base s = printnum 64 (num % 2 ^ 64) base (value_or 0 s.width) s.padc

abbrev pub put_after : List ℕ → Option (List ℕ) → Option (List ℕ)
put_after cs none = none
put_after cs (some ds) = some (cs ++ ds)

-- `%d`: the slot is read as a `long long`.
abbrev pub put_signed : ℕ → Flags → Option (List ℕ)
put_signed v s =
    if ltb (v % 2 ^ 64) (2 ^ 63)
    then put_number v 10 s
    else put_after (45 ∷ []) (put_number (2 ^ 64 - v % 2 ^ 64) 10 s)

-- The part of a string that `%s` prints.
abbrev pub first : (precision : Option ℕ) → List ℕ → List ℕ
first none cs = cs
first (some zero) cs = []
first (some (suc n)) [] = []
first (some (suc n)) (c ∷ cs) = c ∷ first (some n) cs

-- A `char` passed to `putch`: sign-extended, or a question mark when the flag `#` asks for it.
abbrev pub shown : (altflag : Bool) → ℕ → ℕ
shown altflag c =
    if altflag && (ltb c 32 || ltb 126 c) then 63 else if ltb c 128 then c else c + (2 ^ 32 - 256)

abbrev pub shown_all : (altflag : Bool) → List ℕ → List ℕ
shown_all altflag [] = []
shown_all altflag (c ∷ cs) = shown altflag c ∷ shown_all altflag cs

-- `%s`: padded on the left unless the flag `-` asks for the right.
abbrev pub put_text : List ℕ → Flags → List ℕ
put_text p s =
    let w = value_or 0 s.width in
    let out = first s.precision p in
    if s.padc == 45
    then shown_all s.altflag out ++ repeat (w - length out) 32
    else repeat (w - length out) s.padc ++ shown_all s.altflag out

abbrev pub plain_flags : Flags
plain_flags = record {
  number = none;
  padc = 32;
  width = none;
  precision = none;
  altflag = false;
  args = none;
}

-- `%e` on the absolute value of an `int`: printfmt with "%s" or "error %d". The least `int` has none.
abbrev pub put_error : ℕ → Option (List ℕ)
put_error e = if e == 2 ^ 31 then none else elim (error_string e) [
  | none ↦ put_after (101 ∷ 114 ∷ 114 ∷ 111 ∷ 114 ∷ 32 ∷ []) (put_signed e plain_flags)
  | some p ↦ some (put_text p plain_flags)
]

abbrev pub int_abs : ℕ → ℕ
int_abs v = if ltb (v % 2 ^ 32) (2 ^ 31) then v % 2 ^ 32 else 2 ^ 32 - v % 2 ^ 32

-- A conversion of a slot.
abbrev pub put_word : (ch v : ℕ) → Flags → Option (List ℕ)
put_word ch v s =
    if ch == 99
    then some (v % 2 ^ 32 ∷ [])
    else if ch == 101
    then put_error (int_abs v)
    else if ch == 100
    then put_signed v s
    else if ch == 117
    then put_number v 10 s
    else if ch == 111
    then put_number v 8 s
    else if ch == 112
    then put_after (48 ∷ 120 ∷ []) (put_number v 16 s)
    else if ch == 120
    then put_number v 16 s
    else none

-- A conversion of the next argument.
abbrev pub put_arg : (ch : ℕ) → Arg → Flags → Option (List ℕ)
put_arg ch (word v) s = put_word ch v s
put_arg ch (text p) s = if ch == 115 then some (put_text p s) else none
put_arg ch null s =
    if ch == 115 then some (put_text (40 ∷ 110 ∷ 117 ∷ 108 ∷ 108 ∷ 41 ∷ []) s) else none

abbrev pub is_conversion : ℕ → Bool
is_conversion c =
    (c == 99)
    || ((c == 101)
        || ((c == 115)
            || ((c == 100) || ((c == 117) || ((c == 111) || ((c == 112) || (c == 120)))))))

-- The characters put, what is left of the format, and the arguments left.
abbrev pub Turn : Type 0
Turn = Option (List ℕ × (List ℕ × List Arg))

abbrev pub with_rest : Option (List ℕ) → List ℕ → List Arg → Turn
with_rest none rest args = none
with_rest (some out) rest args = some (out, (rest, args))

abbrev pub take_arg : (ch : ℕ) → List ℕ → Flags → List Arg → Turn
take_arg ch rest s [] = none
take_arg ch rest s (a ∷ more) = with_rest (put_arg ch a s) rest more

-- The conversion `ch` with `rest` after it. A sequence that is not known is printed literally: the format
-- goes on at `back`, behind the `%`.
abbrev pub convert : (back : List ℕ) (ch : ℕ) (rest : List ℕ) → Flags → Option (List Arg) → Turn
convert back ch rest s none = none
convert back ch rest s (some args) =
    if is_conversion ch
    then take_arg ch rest s args
    else if ch == 37
    then some (37 ∷ [], (rest, args))
    else some (37 ∷ [], (back, args))

abbrev pub start_flags : List Arg → Flags
start_flags args = record {
  number = none;
  padc = 32;
  width = none;
  precision = none;
  altflag = false;
  args = some args;
}

unfoldable pub turn : ℕ → List ℕ → List Arg → Turn
turn c cs args =
    if c == 37
    then (let d = directive cs (start_flags args) in convert cs d.0 d.1.0 d.1.1 d.1.1.args)
    else some (c ∷ [], (cs, args))

abbrev pub put_first : List ℕ → Printed → Printed
put_first out (printed more) = printed (out ++ more)
put_first out bad_argument = bad_argument
put_first out out_of_fuel = out_of_fuel

unfoldable pub vprintfmt : (fuel : ℕ) → List ℕ → List Arg → Printed
vprintfmt zero fmt args = out_of_fuel
vprintfmt (suc f) [] args = printed []
vprintfmt (suc f) (c ∷ cs) args = elim (turn c cs args) [
  | none ↦ bad_argument
  | some (out, (rest, args)) ↦ put_first out (vprintfmt f rest args)
]
