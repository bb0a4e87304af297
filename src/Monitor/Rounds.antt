-- ===== src/Monitor/Rounds.antt =====
-- One round of runcmd's loop over the line.
use comp530h.Base.{
  ℕ, suc, ◌+◌, ◌-◌, ◌≤◌, ◌<◌, ◌≡◌, ◌≢◌, ◌⊎◌, refl, true, inl, inr, some, List, [], ◌∷◌, length,
  update, ne→==, arith, ap, ◌∙◌, sym, Bool-cases,
}
use mathlib.Core.Path.{subst}
use comp530h.Bytes.{Memory}
use comp530h.Strings.{IsString}
use comp530h.Monitor.{maxargs, is_white, gobble, scan, too_many_args, args, parse}
use comp530h.Monitor.Words.{
  is_break, words, trimmed, word, after, break-word, word-black, words-trimmed, words-word,
  trimmed-head, length-trimmed, length-after,
}
use comp530h.Monitor.Loops.{gobble_lem, scan_lem, plus_zero, plus_suc}

-- A word that stays in memory and gets a null byte behind it is a string.
pub word-IsString :
    (cs : List ℕ) (p : ℕ) (m m' : Memory)
    → IsString m p cs
    → ((a : ℕ) → a < p + length (word cs) → m' a ≡ m a)
    → m' (p + length (word cs)) ≡ 0
    → IsString m' p (word cs)
word-IsString [] p m m' h same end = ap m' (plus_zero p) ∙ end
word-IsString (c ∷ cs) p m m' (e, (ne, h)) same end = elim (Bool-cases (is_white c)) [
  | inl q ↦
      let w = (break-word (c ∷ cs) q).0 in
      rw w (ap m' (plus_zero p ∙ ap (λ v. p + length v) (sym w)) ∙ end)
  | inr q ↦
      let w = (word-black c cs q).0 in
      let len : p + length (word (c ∷ cs)) ≡ p + 1 + length (word cs) =
        ap (λ v. p + length v) w ∙ sym (plus_suc p (length (word cs))) in
      rw w (
        same p (omega (arith, len)) ∙ e,
        (
          ne,
          word-IsString cs (p + 1) m m' h (λ a l. same a (omega (arith, len)))
              (ap m' (sym len) ∙ end),
        ),
      )
]

module _ (f b argc : ℕ) (argv : ℕ → ℕ) (m : Memory) (p : ℕ) (m' : Memory)
    (r : gobble f b m ≡ some (p, m')) where
  pub parse-ends : m' p ≡ 0 → parse (suc f) b argc argv m ≡ some (args argc (update argv argc 0) m')
  unfolding parse
  parse-ends z = rw (r, z) refl

  pub parse-full : m' p ≢ 0 → argc ≡ maxargs - 1 → parse (suc f) b argc argv m ≡ some too_many_args
  unfolding parse
  parse-full n z = rw (r, ne→== (m' p) 0 n, z) refl

  pub parse-goes :
      (q : ℕ)
      → m' p ≢ 0
      → argc ≢ maxargs - 1
      → scan f p m' ≡ some q
      → parse (suc f) b argc argv m ≡ parse f q (suc argc) (update argv argc p) m'
  unfolding parse
  parse-goes q n n' s = rw (r, ne→== (m' p) 0 n, ne→== argc 15 n', s) refl

-- What the first round finds in a line with a word: where the word starts and ends, the memory then,
-- and the line behind it.
abbrev pub HasWord : (f b : ℕ) → Memory → List ℕ → Type 0
HasWord f b m cs =
    (p : ℕ) × (m' : Memory) × (ds : List ℕ) × (gobble f b m ≡ some (p, m'))
    × (m' p ≢ 0)
    × (scan f p m' ≡ some (p + length (word ds)))
    × IsString m' p ds
    × IsString m' (p + length (word ds)) (after ds)
    × (words cs ≡ word ds ∷ words (after ds))
    × (b ≤ p)
    × (0 < length (word ds))
    × (length (after ds) < length cs)
    × ((a : ℕ) → a < b → m' a ≡ m a)
    × (is_break cs ≡ true → m' b ≡ 0)

-- And in one without.
abbrev pub HasNone : (f b : ℕ) → Memory → List ℕ → Type 0
HasNone f b m cs =
    (p : ℕ) × (m' : Memory) × (gobble f b m ≡ some (p, m'))
    × (m' p ≡ 0)
    × (words cs ≡ [])
    × ((a : ℕ) → a < b → m' a ≡ m a)
    × (is_break cs ≡ true → m' b ≡ 0)

pub round-cases :
    (f b : ℕ) (m : Memory) (cs : List ℕ)
    → IsString m b cs
    → length cs < f
    → HasNone f b m cs ⊎ HasWord f b m cs
round-cases f b m cs h lt =
    let (p, m', r, len, s, low, stop) = gobble_lem cs f b m h lt in
    elim (trimmed-head cs) [
      | inl t ↦
          inl (p, m', r, subst (IsString m' p) t s, sym (words-trimmed cs) ∙ ap words t, low, stop)
      | inr (d, ds, t, q) ↦
          let s' = subst (IsString m' p) t s in
          let size : length (trimmed cs) ≡ length (d ∷ ds) = ap length t in
          let first : length (word (d ∷ ds)) ≡ suc (length (word ds)) =
            ap length (word-black d ds q).0 in
          let (found, behind) =
            scan_lem (d ∷ ds) f p m' s' (omega (arith, size, length-trimmed cs)) in
          inr (
            p,
            m',
            d ∷ ds,
            r,
            λ z. s'.1.0 (sym s'.0 ∙ z),
            found,
            s',
            behind,
            sym (words-trimmed cs) ∙ ap words t ∙ words-word d ds q,
            omega (arith, len, length-trimmed cs),
            omega (arith, first),
            omega (arith, first, size, length-trimmed cs, length-after (d ∷ ds)),
            low,
            stop,
          )
    ]
