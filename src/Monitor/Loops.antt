-- ===== src/Monitor/Loops.antt =====
-- What the two inner loops of runcmd do to the string of the line.
use comp530h.Base.{
  ℕ, zero, suc, ◌+◌, ◌<◌, ◌≡◌, ◌≢◌, refl, Bool, true, false, ◌&&◌, not, Bool-cases, inl, inr, some,
  List, [], ◌∷◌, length, update, update_self, update_ne, ◌==◌, arith, ap, ◌∙◌,
}
use mathlib.Core.Path.{subst}
use comp530h.Bytes.{Memory}
use comp530h.Strings.{IsString}
use comp530h.Strings.Copy.{IsString-update}
use comp530h.Monitor.{is_white, gobble, scan}
use comp530h.Monitor.Words.{
  is_break, trimmed, word, after, trimmed-white, trimmed-black, break-word, word-black,
}

and_false : (b : Bool) → (b && false) ≡ false
and_false true = refl
and_false false = refl

gobble-more :
    (c f b : ℕ) (m : Memory)
    → m b ≡ c
    → c ≢ 0
    → is_white c ≡ true
    → gobble (suc f) b m ≡ gobble f (b + 1) (update m b 0)
unfolding gobble
gobble-more c f b m e ne q = let more : (m b == 0) ≡ false = ground arith in rw (more, e, q) refl

gobble-stops :
    (c f b : ℕ) (m : Memory) → m b ≡ c → is_white c ≡ false → gobble (suc f) b m ≡ some (b, m)
unfolding gobble
gobble-stops c f b m e q = rw (e, q, and_false (not (c == 0))) refl

-- `gobble` stops where the trimmed line starts, and the whitespace before it has become null bytes.
pub gobble_lem :
    (cs : List ℕ) (f b : ℕ) (m : Memory)
    → IsString m b cs
    → length cs < f
    → (p : ℕ) × (m' : Memory) × (gobble f b m ≡ some (p, m'))
      × (b + length cs ≡ p + length (trimmed cs))
      × IsString m' p (trimmed cs)
      × ((a : ℕ) → a < b → m' a ≡ m a)
      × (is_break cs ≡ true → m' b ≡ 0)
unfolding gobble
gobble_lem cs zero b m h lt = absurd (omega arith)
gobble_lem [] (suc f) b m h lt = (b, m, rw h refl, refl, h, λ a l. refl, λ q. h)
gobble_lem (c ∷ cs) (suc f) b m (e, (ne, h)) lt = elim (Bool-cases (is_white c)) [
  | inl q ↦
      let (p, m', r, len, s, low, stop) =
        gobble_lem cs f (b + 1) (update m b 0) (IsString-update cs m (b + 1) b 0 (omega arith) h)
          (omega arith) in
      (
        p,
        m',
        gobble-more c f b m e ne q ∙ r,
        rw (trimmed-white c cs q) (omega arith),
        rw (trimmed-white c cs q) s,
        λ a l. low a (omega arith) ∙ update_ne m b a 0 (omega arith),
        λ q'. low b (omega arith) ∙ update_self m b 0,
      )
  | inr q ↦ (
    b,
    m,
    gobble-stops c f b m e q,
    rw (trimmed-black c cs q) refl,
    rw (trimmed-black c cs q) (e, (ne, h)),
    λ a l. refl,
    λ q'. absurd (cc (q, q')),
  )
]

scan-stops :
    (f b : ℕ) (cs : List ℕ) (m : Memory)
    → IsString m b cs
    → is_break cs ≡ true
    → scan (suc f) b m ≡ some b
unfolding scan
scan-stops f b [] m h q = rw h refl
scan-stops f b (c ∷ cs) m (e, (ne, h)) q = rw (e, q, and_false (not (c == 0))) refl

scan-more :
    (c f b : ℕ) (m : Memory)
    → m b ≡ c
    → c ≢ 0
    → is_white c ≡ false
    → scan (suc f) b m ≡ scan f (b + 1) m
unfolding scan
scan-more c f b m e ne q = let more : (m b == 0) ≡ false = ground arith in rw (more, e, q) refl

pub plus_zero : (b : ℕ) → b ≡ b + 0
plus_zero b = omega arith

pub plus_suc : (b n : ℕ) → b + 1 + n ≡ b + suc n
plus_suc b n = omega arith

-- `scan` stops at the end of the first word.
pub scan_lem :
    (cs : List ℕ) (f b : ℕ) (m : Memory)
    → IsString m b cs
    → length cs < f
    → (scan f b m ≡ some (b + length (word cs))) × IsString m (b + length (word cs)) (after cs)
scan_lem cs zero b m h lt = absurd (omega arith)
scan_lem [] (suc f) b m h lt =
    (scan-stops f b [] m h refl ∙ ap some (omega arith), ap m (omega arith) ∙ h)
scan_lem (c ∷ cs) (suc f) b m (e, (ne, h)) lt = elim (Bool-cases (is_white c)) [
  | inl q ↦
      let parts = break-word (c ∷ cs) q in
      (
        scan-stops f b (c ∷ cs) m (e, (ne, h)) q ∙ ap some (rw parts.0 (omega arith)),
        rw (parts.0, parts.1) (subst (λ x. IsString m x (c ∷ cs)) (plus_zero b) (e, (ne, h))),
      )
  | inr q ↦
      let parts = word-black c cs q in
      let r = scan_lem cs f (b + 1) m h (omega arith) in
      (
        scan-more c f b m e ne q ∙ r.0 ∙ ap some (rw parts.0 (omega arith)),
        rw (parts.0, parts.1)
            (subst (λ x. IsString m x (after cs)) (plus_suc b (length (word cs))) r.1),
      )
]
