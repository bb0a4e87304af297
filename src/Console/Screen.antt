-- ===== src/Console/Screen.antt =====
-- kern/console.c: `cons_putc` and `cga_putc`, the text screen.
pub mod Cursor
use comp530h.Base.{
  ℕ, ◌+◌, ◌-◌, ◌*◌, ◌/◌, ◌%◌, ◌^◌, List, [], ◌∷◌, ◌++◌, ltb, leb, ◌==◌, if◌then◌else◌, update,
}

abbrev pub crt_cols : ℕ
crt_cols = 80

abbrev pub crt_size : ℕ
crt_size = 25 * crt_cols

-- The characters given to the serial and the parallel port, the screen memory and the cursor.
pub record Screen : Type 0 where
  pub sent : List ℕ
  pub crt_buf : ℕ → ℕ
  pub crt_pos : ℕ

-- Black on white when no attribute is given: the low byte is the character.
abbrev pub attributed : ℕ → ℕ
attributed c = if c / 256 == 0 then c + 0x0700 else c

-- A line up: the last line is blank.
abbrev pub scrolled : (ℕ → ℕ) → ℕ → ℕ
scrolled b i =
    if ltb i (crt_size - crt_cols) then b (i + crt_cols) else if ltb i crt_size then 0x0720 else b i

unfoldable pub scroll : Screen → Screen
scroll s =
    if leb crt_size s.crt_pos
    then record s { crt_buf = scrolled s.crt_buf; crt_pos = s.crt_pos - crt_cols }
    else s

abbrev pub line_start : ℕ → ℕ
line_start p = p - p % crt_cols

-- The cases of the `switch` less the tabulator; `crt_pos` is a uint16_t.
unfoldable pub write_char : ℕ → Screen → Screen
write_char c s =
    if c % 256 == 8
    then if s.crt_pos == 0 then s else record s {
      crt_buf = update s.crt_buf (s.crt_pos - 1) ((c / 256 * 256 + 32) % 2 ^ 16);
      crt_pos = s.crt_pos - 1;
    }
    else if c % 256 == 10
    then record s { crt_pos = line_start ((s.crt_pos + crt_cols) % 2 ^ 16) }
    else if c % 256 == 13
    then record s { crt_pos = line_start s.crt_pos }
    else record s {
      crt_buf = update s.crt_buf s.crt_pos (c % 2 ^ 16);
      crt_pos = (s.crt_pos + 1) % 2 ^ 16;
    }

abbrev pub send : ℕ → Screen → Screen
send c s = record s { sent = s.sent ++ (c % 256) ∷ [] }

-- `cons_putc(' ')`
unfoldable pub put_blank : Screen → Screen
put_blank s = scroll (write_char (attributed 32) (send 32 s))

unfoldable pub cga_putc : ℕ → Screen → Screen
cga_putc c s =
    if attributed c % 256 == 9
    then scroll (put_blank (put_blank (put_blank (put_blank (put_blank s)))))
    else scroll (write_char (attributed c) s)

unfoldable pub cons_putc : ℕ → Screen → Screen
cons_putc c s = cga_putc c (send c s)
