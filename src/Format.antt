-- ===== src/Format.antt =====
-- lib/printfmt.c: the flags between `%` and a conversion.
--
-- An argument is the 8-byte slot of the call, or the string that a pointer in it points to.
use comp530h.Base.{
  ℕ, ◌+◌, ◌-◌, ◌*◌, ◌%◌, ◌^◌, Bool, true, ◌&&◌, ltb, leb, ◌==◌, if◌then◌else◌, Option, none, some,
  List, [], ◌∷◌,
}

pub data Arg : Type 0 where
  word : ℕ → Arg
  text : List ℕ → Arg
  null : Arg

-- The flags of a %-sequence. A width or a precision below 0 is `none`. `number` is the field that is
-- being read, and `args` is `none` when a `*` had no argument. `lflag` is set and not used.
pub record Flags : Type 0 where
  pub number : Option ℕ
  pub padc : ℕ
  pub width : Option ℕ
  pub precision : Option ℕ
  pub altflag : Bool
  pub args : Option (List Arg)

-- process_precision
abbrev pub set_field : Option ℕ → Flags → Flags
set_field n s = elim s.width [
  | none ↦ record s { width = n; precision = none; number = none }
  | some w ↦ record s { precision = n; number = none }
]

abbrev pub end_field : Flags → Flags
end_field s = elim s.number [ none ↦ s | some n ↦ set_field (some n) s ]

-- An `int` from a slot: none when it is negative.
abbrev pub int_arg : ℕ → Option ℕ
int_arg v = if ltb (v % 2 ^ 32) (2 ^ 31) then some (v % 2 ^ 32) else none

-- va_arg(aq, int) for a `*`
abbrev pub star_at : Option (List Arg) → Flags → Flags
star_at (some (word v ∷ rest)) s = record (set_field (int_arg v) s) { args = some rest }
star_at _ s = record s { args = none }

abbrev pub dot : Flags → Flags
dot s = elim s.width [ none ↦ record s { width = some 0 } | some w ↦ s ]

abbrev pub is_digit : ℕ → Bool
is_digit c = leb 48 c && leb c 57

-- A character after the fields before it: the flags after it, or none when it is the conversion.
abbrev pub flag_char : ℕ → Flags → Option Flags
flag_char c s =
    if c == 45
    then some (record s { padc = 45 })
    else if c == 48
    then some (record s { padc = 48 })
    else if is_digit c
    then some (record s { number = some (c - 48) })
    else if c == 42
    then some (star_at s.args s)
    else if c == 46
    then some (dot s)
    else if c == 35
    then some (record s { altflag = true })
    else if c == 108
    then some s
    else none

-- One turn of the `switch`, or of the loop that reads a number.
abbrev pub flag : ℕ → Flags → Option Flags
flag c s = elim s.number [
  | none ↦ flag_char c s
  | some n ↦
      if is_digit c
      then some (record s { number = some (n * 10 + (c - 48)) })
      else flag_char c (end_field s)
]

-- The conversion, what follows it, and the flags; the conversion is 0 at the end of the format.
unfoldable pub directive : List ℕ → Flags → ℕ × (List ℕ × Flags)
directive [] s = (0, ([], end_field s))
directive (c ∷ cs) s = elim (flag c s) [ none ↦ (c, (cs, end_field s)) | some t ↦ directive cs t ]
