-- ===== src/Console.antt =====
-- kern/console.c: the input buffer, filled by the devices and read by `cons_getc`.
--
-- A device is the list of the values that its `proc` returns before -1.
pub mod Queue
pub mod Keyboard
pub mod Screen
use comp530h.Base.{
  ℕ, ◌+◌, ◌%◌, Bool, Option, none, some, List, [], ◌∷◌, update, ◌==◌, if◌then◌else◌,
}

abbrev pub consbufsize : ℕ
consbufsize = 512

-- `cons`
pub record Cons : Type 0 where
  pub buf : ℕ → ℕ
  pub rpos : ℕ
  pub wpos : ℕ

-- A position after one more step, back at 0 behind the end.
abbrev pub advance : ℕ → ℕ
advance p = if p + 1 == consbufsize then 0 else p + 1

unfoldable pub cons_intr : List ℕ → Cons → Cons
cons_intr [] c = c
cons_intr (x ∷ xs) c =
    if x == 0
    then cons_intr xs c
    else cons_intr xs
        (record { buf = update c.buf c.wpos (x % 256); rpos = c.rpos; wpos = advance c.wpos })

unfoldable pub serial_intr : (serial_exists : Bool) → List ℕ → Cons → Cons
serial_intr serial_exists xs c = if serial_exists then cons_intr xs c else c

abbrev pub kbd_intr : List ℕ → Cons → Cons
kbd_intr xs c = cons_intr xs c

abbrev pub take_char : Cons → ℕ × Cons
take_char c =
    if c.rpos == c.wpos
    then (0, c)
    else (c.buf c.rpos, record { buf = c.buf; rpos = advance c.rpos; wpos = c.wpos })

-- What the serial port and the keyboard have at one poll.
unfoldable pub cons_getc : (serial_exists : Bool) (serial kbd : List ℕ) → Cons → ℕ × Cons
cons_getc serial_exists serial kbd c = take_char (kbd_intr kbd (serial_intr serial_exists serial c))

-- `getchar` polls until a character comes: `none` when the polls run out.
unfoldable pub getchar : (serial_exists : Bool) → List (List ℕ × List ℕ) → Cons → Option (ℕ × Cons)
getchar serial_exists [] c = none
getchar serial_exists ((serial, kbd) ∷ polls) c =
    let r = cons_getc serial_exists serial kbd c in
    let rest = getchar serial_exists polls r.1 in if r.0 == 0 then rest else some r
