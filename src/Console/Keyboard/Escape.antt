-- ===== src/Console/Keyboard/Escape.antt =====
-- The states of the keyboard, by evaluation of all of them: 7 bits of `shift`, 8 bits of scan code.
use comp530h.Base.{
  ℕ, zero, suc, ◌+◌, ◌<◌, ◌≡◌, ◌≢◌, Bool, true, false, ◌&&◌, ◌||◌, ltb, ◌==◌, if◌then◌else◌,
  bit_and, refl, arith, ap, ◌∙◌, inl, inr, Bool-cases, ==→eq, ne→==,
}
use Prim.Native.Nat.{bit_xor}
use comp530h.Console.Keyboard.{Key, kbd_proc_data, pressed, e0esc, clear, shiftcode, togglecode}

-- A test for all numbers below a bound.
abbrev all_below : ℕ → (ℕ → Bool) → Bool
all_below zero p = true
all_below (suc n) p = all_below n p && p n

and_split : (a b : Bool) → (a && b) ≡ true → (a ≡ true) × (b ≡ true)
and_split a b h = ground arith

or_right : (a b : Bool) → a ≡ false → (a || b) ≡ true → b ≡ true
or_right a b h k = ground arith

below : (a b : ℕ) → ltb a b ≡ true → a < b
below a b h = ground arith

all_below-lt : (n : ℕ) (p : ℕ → Bool) → all_below n p ≡ true → (i : ℕ) → i < n → p i ≡ true
all_below-lt zero p h i lt = ground arith
all_below-lt (suc n) p h i lt =
    let (before, here) = and_split (all_below n p) (p n) h in
    elim (Bool-cases (i == n)) [
      | inl e ↦ ap p (==→eq i n e) ∙ here
      | inr e ↦ all_below-lt n p before i (ground arith)
    ]

-- The escape is pending after the scan code 0xE0 and after no other.
abbrev escapes : (scan shift : ℕ) → Bool
escapes scan shift = if scan == 0xE0 then bit_and shift e0esc == e0esc else bit_and shift e0esc == 0

abbrev is_sound : (shift scan : ℕ) → Bool
is_sound shift scan =
    let k = kbd_proc_data 1 scan shift in
    (ltb k.char 256 && ltb k.shift 128) && escapes scan k.shift

sound : all_below 128 (λ shift. all_below 256 (is_sound shift)) ≡ true
unfolding kbd_proc_data pressed
sound = refl

-- For a scan code below 256 and a shift state below 128, kbd_proc_data returns a character below
-- 256 and leaves a state below 128 in which the escape is pending exactly if the scan code was
-- 0xE0.
pub kbd_proc_data-escapes :
    (scan shift : ℕ)
    → scan < 256
    → shift < 128
    → ((kbd_proc_data 1 scan shift).char < 256)
      × (((kbd_proc_data 1 scan shift).shift < 128)
          × (escapes scan (kbd_proc_data 1 scan shift).shift ≡ true))
kbd_proc_data-escapes scan shift h k =
    let all : all_below 256 (is_sound shift) ≡ true =
      all_below-lt 128 (λ shift. all_below 256 (is_sound shift)) sound shift k in
    let here : is_sound shift scan ≡ true = all_below-lt 256 (is_sound shift) all scan h in
    let k : Key = kbd_proc_data 1 scan shift in
    let (bounds, esc) = and_split (ltb k.char 256 && ltb k.shift 128) (escapes scan k.shift) here in
    let (char, state) = and_split (ltb k.char 256) (ltb k.shift 128) bounds in
    (below k.char 256 char, (below k.shift 128 state, esc))

-- A key pressed and released.
abbrev typed : (shift scan : ℕ) → ℕ
typed shift scan = (kbd_proc_data 1 (scan + 128) (kbd_proc_data 1 scan shift).shift).shift

abbrev is_typed : (shift scan : ℕ) → Bool
is_typed shift scan =
    (scan == 0x60) || (typed shift scan == clear (bit_xor shift (togglecode scan)) (shiftcode scan))

all_typed : all_below 64 (λ shift. all_below 128 (is_typed shift)) ≡ true
unfolding kbd_proc_data pressed
all_typed = refl

-- For a scan code below 128 other than 0x60 and a shift state below 64, a key pressed and released
-- flips its toggle, if it has one, clears its modifier, if it is one, and leaves the other bits of
-- the state.
pub kbd_proc_data-typed :
    (scan shift : ℕ)
    → scan < 128
    → scan ≢ 0x60
    → shift < 64
    → typed shift scan ≡ clear (bit_xor shift (togglecode scan)) (shiftcode scan)
kbd_proc_data-typed scan shift h n k =
    let all : all_below 128 (is_typed shift) ≡ true =
      all_below-lt 64 (λ shift. all_below 128 (is_typed shift)) all_typed shift k in
    let here : is_typed shift scan ≡ true = all_below-lt 128 (is_typed shift) all scan h in
    let after : ℕ = clear (bit_xor shift (togglecode scan)) (shiftcode scan) in
    ==→eq (typed shift scan) after
      (or_right (scan == 0x60) (typed shift scan == after) (ne→== scan 0x60 n) here)
