-- ===== src/Readline/Line.antt =====
-- The line that `readline` returns: the characters kept, as a stack.
use comp530h.Base.{
  ℕ, ◌-◌, ◌%◌, ◌^◌, ◌≤◌, ◌<◌, ◌≡◌, refl, Bool, true, false, ◌&&◌, List, [], ◌∷◌, ◌++◌, length,
  update, ltb, leb, if◌then◌else◌, arith, ap, ◌∙◌, sym, Bool-cases, inl, inr, update_ne,
  update_self,
}
use comp530h.Readline.{
  buflen, Editor, Ended, finished, is_rubout, is_return, key, readline_from, readline, echoed,
}

-- The line without its last character.
abbrev pub rubbed : List ℕ → List ℕ
rubbed [] = []
rubbed (x ∷ xs) = xs

-- A key on the line so far, its last character first.
abbrev pub edit : ℕ → List ℕ → List ℕ
edit c line =
    if is_rubout c && ltb 0 (length line)
    then rubbed line
    else if leb 32 c && ltb (length line) (buflen - 1)
    then c % 256 ∷ line
    else line

abbrev pub edit_all : List ℕ → List ℕ → List ℕ
edit_all [] line = line
edit_all (c ∷ cs) line = edit_all cs (edit c line)

-- Keys that neither end the line nor report an error.
abbrev pub AreKeys : List ℕ → Type 0
AreKeys [] = Unit {0}
AreKeys (c ∷ cs) = (c < 2 ^ 31) × (is_return c ≡ false) × AreKeys cs

-- The buffer starts with the line.
abbrev pub Spells : (ℕ → ℕ) → List ℕ → Type 0
Spells buf [] = Unit {0}
Spells buf (c ∷ line) = (buf (length line) ≡ c) × Spells buf line

update-Spells :
    (line : List ℕ) (buf : ℕ → ℕ) (p v : ℕ)
    → length line ≤ p
    → Spells buf line
    → Spells (update buf p v) line
update-Spells [] buf p v h s = tt
update-Spells (c ∷ line) buf p v h (e, s) =
    (update_ne buf p (length line) v (omega arith) ∙ e, update-Spells line buf p v (omega arith) s)

-- The editor holds the line.
record Edits (e : Editor) (line : List ℕ) : Type 0 where
  size : e.i ≡ length line
  room : length line < buflen
  text : Spells e.buf line

rubbed-Edits :
    (line : List ℕ) (e e' : Editor)
    → e'.i ≡ e.i - 1
    → e'.buf ≡ e.buf
    → Edits e line
    → Edits e' (rubbed line)
rubbed-Edits [] e e' p q h = record { size = omega (arith, h.size); room = h.room; text = tt }
rubbed-Edits (c ∷ line) e e' p q h = record {
  size = omega (arith, h.size);
  room = omega (arith, h.room);
  text = rw q h.text.1;
}

key-Edits :
    (echoing : Bool) (c : ℕ) (e : Editor) (line : List ℕ)
    → Edits e line
    → Edits (key echoing c e) (edit c line)
unfolding key
key-Edits echoing c e line h = elim (Bool-cases (is_rubout c && ltb 0 e.i)) [
  | inl p ↦
      let p' : (is_rubout c && ltb 0 (length line)) ≡ true =
        ap (λ (n : ℕ). is_rubout c && ltb 0 n) (sym h.size) ∙ p in
      rw (p, p') (rubbed-Edits line e _ refl refl h)
  | inr p ↦
      let p' : (is_rubout c && ltb 0 (length line)) ≡ false =
        ap (λ (n : ℕ). is_rubout c && ltb 0 n) (sym h.size) ∙ p in
      elim (Bool-cases (leb 32 c && ltb e.i (buflen - 1))) [
        | inl q ↦
            let q' : (leb 32 c && ltb (length line) (buflen - 1)) ≡ true =
              ap (λ (n : ℕ). leb 32 c && ltb n (buflen - 1)) (sym h.size) ∙ q in
            rw (p, p', q, q')
              (record {
                size = omega (arith, h.size);
                room = ground arith;
                text = (
                  ap (update e.buf e.i (c % 256)) (sym h.size) ∙ update_self e.buf e.i (c % 256),
                  update-Spells line e.buf e.i (c % 256) (omega (arith, h.size)) h.text,
                );
              })
        | inr q ↦
            let q' : (leb 32 c && ltb (length line) (buflen - 1)) ≡ false =
              ap (λ (n : ℕ). leb 32 c && ltb n (buflen - 1)) (sym h.size) ∙ q in
            rw (p, p', q, q') h
      ]
]

-- What `readline` gives for a line.
abbrev pub Returns : Ended → List ℕ → Type 0
Returns r line =
    (e : Editor) × (r ≡ finished e)
    × Spells e.buf line
    × (e.buf (length line) ≡ 0)
    × (length line < buflen)

readline_from-Returns :
    (echoing : Bool) (cs : List ℕ) (c : ℕ) (more : List ℕ) (e : Editor) (line : List ℕ)
    → AreKeys cs
    → c < 2 ^ 31
    → is_return c ≡ true
    → Edits e line
    → Returns (readline_from echoing (cs ++ c ∷ more) e) (edit_all cs line)
unfolding readline_from
readline_from-Returns echoing [] c more e line keys small end h =
    let pos : leb (2 ^ 31) c ≡ false = ground arith in
    (
      record { i = e.i; buf = update e.buf e.i 0; echo = echoed echoing 10 e.echo },
      rw (pos, end) refl,
      update-Spells line e.buf e.i 0 (omega (arith, h.size)) h.text,
      ap (update e.buf e.i 0) (sym h.size) ∙ update_self e.buf e.i 0,
      h.room,
    )
readline_from-Returns echoing (k ∷ cs) c more e line (low, other, keys) small end h =
    let pos : leb (2 ^ 31) k ≡ false = ground arith in
    rw (pos, other)
      (readline_from-Returns echoing cs c more (key echoing k e) (edit k line) keys small end
        (key-Edits echoing k e line h))

-- For keys that neither are negative nor end the line, and then a return, readline returns the buffer
-- with the line that the keys make, at most 1023 characters, and a null byte behind it.
pub readline_lem :
    (echoing : Bool) (cs : List ℕ) (c : ℕ) (more : List ℕ) (buf : ℕ → ℕ)
    → AreKeys cs
    → c < 2 ^ 31
    → is_return c ≡ true
    → Returns (readline echoing (cs ++ c ∷ more) buf) (edit_all cs [])
readline_lem echoing cs c more buf keys small end =
    readline_from-Returns echoing cs c more _ [] keys small end
      (record { size = refl; room = omega arith; text = tt })
