-- ===== src/Monitor/Words.antt =====
-- The words of a line, and how runcmd takes them from its front.
use comp530h.Base.{
  ℕ, ◌+◌, ◌≤◌, ◌≡◌, refl, Bool, true, false, Bool-cases, ◌⊎◌, inl, inr, List, [], ◌∷◌, length,
  if◌then◌else◌, arith, ap, ◌∙◌, sym,
}
use comp530h.Monitor.{is_white}

-- A line that is empty or starts with whitespace
abbrev pub is_break : List ℕ → Bool
is_break [] = true
is_break (c ∷ cs) = is_white c

abbrev pub attach : ℕ → List (List ℕ) → List (List ℕ)
attach c [] = (c ∷ []) ∷ []
attach c (w ∷ ws) = (c ∷ w) ∷ ws

-- The words of a line: maximal pieces without whitespace.
abbrev pub words : List ℕ → List (List ℕ)
words [] = []
words (c ∷ cs) =
    let rest = words cs in
    if is_white c then rest else if is_break cs then (c ∷ []) ∷ rest else attach c rest

-- The line without the whitespace it starts with, its first word, and what follows that
abbrev pub trimmed : List ℕ → List ℕ
trimmed [] = []
trimmed (c ∷ cs) = let rest = trimmed cs in if is_white c then rest else c ∷ cs

abbrev pub word : List ℕ → List ℕ
word [] = []
word (c ∷ cs) = let rest = word cs in if is_white c then [] else c ∷ rest

abbrev pub after : List ℕ → List ℕ
after [] = []
after (c ∷ cs) = let rest = after cs in if is_white c then c ∷ cs else rest

pub trimmed-white : (c : ℕ) (cs : List ℕ) → is_white c ≡ true → trimmed (c ∷ cs) ≡ trimmed cs
trimmed-white c cs p = rw p refl

pub trimmed-black : (c : ℕ) (cs : List ℕ) → is_white c ≡ false → trimmed (c ∷ cs) ≡ c ∷ cs
trimmed-black c cs p = rw p refl

pub words-white : (c : ℕ) (cs : List ℕ) → is_white c ≡ true → words (c ∷ cs) ≡ words cs
words-white c cs p = rw p refl

pub words-trimmed : (cs : List ℕ) → words (trimmed cs) ≡ words cs
words-trimmed [] = refl
words-trimmed (c ∷ cs) = elim (Bool-cases (is_white c)) [
  | inl p ↦ ap words (trimmed-white c cs p) ∙ words-trimmed cs ∙ sym (words-white c cs p)
  | inr p ↦ ap words (trimmed-black c cs p)
]

pub break-word : (cs : List ℕ) → is_break cs ≡ true → (word cs ≡ []) × (after cs ≡ cs)
break-word [] p = (refl, refl)
break-word (c ∷ cs) p = (rw p refl, rw p refl)

pub word-black :
    (c : ℕ) (cs : List ℕ)
    → is_white c ≡ false
    → (word (c ∷ cs) ≡ c ∷ word cs) × (after (c ∷ cs) ≡ after cs)
word-black c cs p = (rw p refl, rw p refl)

pub after-is_break : (cs : List ℕ) → is_break (after cs) ≡ true
after-is_break [] = refl
after-is_break (c ∷ cs) = elim (Bool-cases (is_white c)) [
  | inl p ↦ ap is_break (break-word (c ∷ cs) p).1 ∙ p
  | inr p ↦ ap is_break (word-black c cs p).1 ∙ after-is_break cs
]

words-last :
    (c : ℕ) (cs : List ℕ)
    → is_white c ≡ false
    → is_break cs ≡ true
    → words (c ∷ cs) ≡ (c ∷ []) ∷ words cs
words-last c cs p q = rw (p, q) refl

words-more :
    (c : ℕ) (cs : List ℕ)
    → is_white c ≡ false
    → is_break cs ≡ false
    → words (c ∷ cs) ≡ attach c (words cs)
words-more c cs p q = rw (p, q) refl

word_parts :
    (c : ℕ) (cs : List ℕ)
    → is_white c ≡ false
    → word (c ∷ cs) ∷ words (after (c ∷ cs)) ≡ (c ∷ word cs) ∷ words (after cs)
word_parts c cs p =
    let e = word-black c cs p in
    ap (λ w. w ∷ words (after (c ∷ cs))) e.0 ∙ ap (λ a. (c ∷ word cs) ∷ words a) e.1

pub words-word :
    (c : ℕ) (cs : List ℕ)
    → is_white c ≡ false
    → words (c ∷ cs) ≡ word (c ∷ cs) ∷ words (after (c ∷ cs))
words-word c [] p = words-last c [] p refl ∙ sym (word_parts c [] p)
words-word c (d ∷ cs) p = elim (Bool-cases (is_white d)) [
  | inl q ↦
      let e = break-word (d ∷ cs) q in
      words-last c (d ∷ cs) p q
      ∙ sym (ap (λ w. (c ∷ w) ∷ words (after (d ∷ cs))) e.0 ∙ ap (λ a. (c ∷ []) ∷ words a) e.1)
      ∙ sym (word_parts c (d ∷ cs) p)
  | inr q ↦
      words-more c (d ∷ cs) p q ∙ ap (attach c) (words-word d cs q) ∙ sym (word_parts c (d ∷ cs) p)
]

-- After trimming, a line is empty or starts with a character of a word, and is not longer.
pub trimmed-head :
    (cs : List ℕ)
    → (trimmed cs ≡ []) ⊎ ((d : ℕ) × (ds : List ℕ) × (trimmed cs ≡ d ∷ ds) × (is_white d ≡ false))
trimmed-head [] = inl refl
trimmed-head (c ∷ cs) = elim (Bool-cases (is_white c)) [
  | inl p ↦ rw (trimmed-white c cs p) (trimmed-head cs)
  | inr p ↦ inr (c, cs, trimmed-black c cs p, p)
]

pub length-trimmed : (cs : List ℕ) → length (trimmed cs) ≤ length cs
length-trimmed [] = omega arith
length-trimmed (c ∷ cs) = elim (Bool-cases (is_white c)) [
  | inl p ↦ rw (trimmed-white c cs p) (omega (arith, length-trimmed cs))
  | inr p ↦ rw (trimmed-black c cs p) (omega arith)
]

pub length-after : (cs : List ℕ) → length (word cs) + length (after cs) ≡ length cs
length-after [] = refl
length-after (c ∷ cs) = elim (Bool-cases (is_white c)) [
  | inl p ↦ rw ((break-word (c ∷ cs) p).0, (break-word (c ∷ cs) p).1) (omega arith)
  | inr p ↦ rw ((word-black c cs p).0, (word-black c cs p).1) (omega (arith, length-after cs))
]
