-- ===== src/Console/Keyboard.antt =====
-- kern/console.c: `kbd_proc_data`, which turns scan codes into characters.
pub mod Escape
use comp530h.Base.{
  ℕ, zero, suc, ◌+◌, ◌-◌, ◌^◌, Bool, false, not, ◌&&◌, ◌||◌, List, [], ◌∷◌, ltb, leb, ◌==◌,
  if◌then◌else◌, bit_and, bit_or,
}
use Prim.Native.Nat.{bit_xor}

-- inc/kbdreg.h and the bits of `shift`
abbrev pub key_del : ℕ
key_del = 0xE9

abbrev pub e0esc : ℕ
e0esc = 64

abbrev pub shiftcode : ℕ → ℕ
shiftcode d =
    if (d == 0x1D) || (d == 0x9D)
    then 2
    else if (d == 0x2A) || (d == 0x36)
    then 1
    else if (d == 0x38) || (d == 0xB8)
    then 4
    else 0

abbrev pub togglecode : ℕ → ℕ
togglecode d = if d == 0x3A then 8 else if d == 0x45 then 16 else if d == 0x46 then 32 else 0

-- `a[i]` of an initialised array, whose other elements are 0
abbrev pub entry : List ℕ → ℕ → ℕ
entry [] i = 0
entry (x ∷ xs) zero = x
entry (x ∷ xs) (suc i) = entry xs i

-- The keys after E0 that the tables share.
abbrev pub special : (home divide : ℕ) → ℕ → ℕ
special home divide d =
    if d == home
    then 0xE0
    else if d == 0xB5
    then divide
    else if d == 0xC8
    then 0xE2
    else if d == 0xC9
    then 0xE6
    else if d == 0xCB
    then 0xE4
    else if d == 0xCD
    then 0xE5
    else if d == 0xCF
    then 0xE1
    else if d == 0xD0
    then 0xE3
    else if d == 0xD1
    then 0xE7
    else if d == 0xD2
    then 0xE8
    else if d == 0xD3
    then 0xE9
    else 0

abbrev pub normalmap_row : List ℕ
normalmap_row =
    0 ∷ 27 ∷ 49 ∷ 50 ∷ 51 ∷ 52 ∷ 53 ∷ 54 ∷ 55 ∷ 56 ∷ 57 ∷ 48 ∷ 45 ∷ 61 ∷ 8 ∷ 9 ∷ 113 ∷ 119 ∷ 101
    ∷ 114 ∷ 116 ∷ 121 ∷ 117 ∷ 105 ∷ 111 ∷ 112 ∷ 91 ∷ 93 ∷ 10 ∷ 0 ∷ 97 ∷ 115 ∷ 100 ∷ 102 ∷ 103 ∷ 104
    ∷ 106 ∷ 107 ∷ 108 ∷ 59 ∷ 39 ∷ 96 ∷ 0 ∷ 92 ∷ 122 ∷ 120 ∷ 99 ∷ 118 ∷ 98 ∷ 110 ∷ 109 ∷ 44 ∷ 46 ∷ 47
    ∷ 0 ∷ 42 ∷ 0 ∷ 32 ∷ 0 ∷ 0 ∷ 0 ∷ 0 ∷ 0 ∷ 0 ∷ 0 ∷ 0 ∷ 0 ∷ 0 ∷ 0 ∷ 0 ∷ 0 ∷ 55 ∷ 56 ∷ 57 ∷ 45 ∷ 52
    ∷ 53 ∷ 54 ∷ 43 ∷ 49 ∷ 50 ∷ 51 ∷ 48 ∷ 46 ∷ 0 ∷ 0 ∷ 0 ∷ 0 ∷ []

abbrev pub normalmap : ℕ → ℕ
normalmap d =
    if ltb d 88 then entry normalmap_row d else if d == 0x9C then 10 else special 0xC7 47 d

abbrev pub shiftmap_row : List ℕ
shiftmap_row =
    0 ∷ 27 ∷ 33 ∷ 64 ∷ 35 ∷ 36 ∷ 37 ∷ 94 ∷ 38 ∷ 42 ∷ 40 ∷ 41 ∷ 95 ∷ 43 ∷ 8 ∷ 9 ∷ 81 ∷ 87 ∷ 69 ∷ 82
    ∷ 84 ∷ 89 ∷ 85 ∷ 73 ∷ 79 ∷ 80 ∷ 123 ∷ 125 ∷ 10 ∷ 0 ∷ 65 ∷ 83 ∷ 68 ∷ 70 ∷ 71 ∷ 72 ∷ 74 ∷ 75 ∷ 76
    ∷ 58 ∷ 34 ∷ 126 ∷ 0 ∷ 124 ∷ 90 ∷ 88 ∷ 67 ∷ 86 ∷ 66 ∷ 78 ∷ 77 ∷ 60 ∷ 62 ∷ 63 ∷ 0 ∷ 42 ∷ 0 ∷ 32
    ∷ 0 ∷ 0 ∷ 0 ∷ 0 ∷ 0 ∷ 0 ∷ 0 ∷ 0 ∷ 0 ∷ 0 ∷ 0 ∷ 0 ∷ 0 ∷ 55 ∷ 56 ∷ 57 ∷ 45 ∷ 52 ∷ 53 ∷ 54 ∷ 43 ∷ 49
    ∷ 50 ∷ 51 ∷ 48 ∷ 46 ∷ 0 ∷ 0 ∷ 0 ∷ 0 ∷ []

abbrev pub shiftmap : ℕ → ℕ
shiftmap d = if ltb d 88 then entry shiftmap_row d else if d == 0x9C then 10 else special 0xC7 47 d

abbrev pub ctlmap_row : List ℕ
ctlmap_row =
    0 ∷ 0 ∷ 0 ∷ 0 ∷ 0 ∷ 0 ∷ 0 ∷ 0 ∷ 0 ∷ 0 ∷ 0 ∷ 0 ∷ 0 ∷ 0 ∷ 0 ∷ 0 ∷ 17 ∷ 23 ∷ 5 ∷ 18 ∷ 20 ∷ 25 ∷ 21
    ∷ 9 ∷ 15 ∷ 16 ∷ 0 ∷ 0 ∷ 13 ∷ 0 ∷ 1 ∷ 19 ∷ 4 ∷ 6 ∷ 7 ∷ 8 ∷ 10 ∷ 11 ∷ 12 ∷ 0 ∷ 0 ∷ 0 ∷ 0 ∷ 28 ∷ 26
    ∷ 24 ∷ 3 ∷ 22 ∷ 2 ∷ 14 ∷ 13 ∷ 0 ∷ 0 ∷ 239 ∷ 0 ∷ 0 ∷ []

abbrev pub ctlmap : ℕ → ℕ
ctlmap d = if ltb d 56 then entry ctlmap_row d else special 0x97 239 d

-- charcode[shift & (CTL | SHIFT)][data]
abbrev pub charcode : (shift scan : ℕ) → ℕ
charcode shift scan =
    if bit_and shift 3 == 0
    then normalmap scan
    else if bit_and shift 3 == 1
    then shiftmap scan
    else ctlmap scan

-- Letters change case under CAPSLOCK.
abbrev pub caps : (shift c : ℕ) → ℕ
caps shift c =
    if bit_and shift 8 == 0
    then c
    else if leb 97 c && leb c 122
    then c - 32
    else if leb 65 c && leb c 90
    then c + 32
    else c

-- `shift & ~x` on 32 bits
abbrev pub clear : (shift x : ℕ) → ℕ
clear shift x = bit_and shift (2 ^ 32 - 1 - x)

-- The result as a 32-bit pattern, the new `shift`, and whether the machine is told to reboot.
pub record Key : Type 0 where
  pub char : ℕ
  pub shift : ℕ
  pub reboot : Bool

-- A key pressed, whose scan code is `scan` once the escape is taken into account.
unfoldable pub pressed : (shift scan : ℕ) → Key
pressed shift scan =
    let now = bit_xor (bit_or shift (shiftcode scan)) (togglecode scan) in
    let c = caps now (charcode now scan) in
    record { char = c; shift = now; reboot = (bit_and now 6 == 6) && (c == key_del) }

-- `inb(KBSTATP)` and `inb(KBDATAP)` gave `status` and `scan`.
unfoldable pub kbd_proc_data : (status scan shift : ℕ) → Key
kbd_proc_data status scan shift =
    if bit_and status 1 == 0
    then record { char = 2 ^ 32 - 1; shift = shift; reboot = false }
    else if scan == 0xE0
    then record { char = 0; shift = bit_or shift e0esc; reboot = false }
    else if not (bit_and scan 0x80 == 0)
    then (let code = if bit_and shift e0esc == 0 then bit_and scan 0x7F else scan in
        record { char = 0; shift = clear shift (bit_or (shiftcode code) e0esc); reboot = false })
    else if not (bit_and shift e0esc == 0)
    then pressed (clear shift e0esc) (bit_or scan 0x80)
    else pressed shift scan
