-- ===== src/Monitor/Args.antt =====
-- The arguments that runcmd finds in a line.
use comp530h.Base.{
  ℕ, zero, suc, ◌+◌, ◌-◌, ◌≤◌, ◌<◌, ◌≡◌, true, inl, inr, some, List, [], ◌∷◌, length, update,
  update_self, update_ne, arith, ap, ◌∙◌, sym,
}
use mathlib.Core.Path.{subst}
use native.Mathlib.Decide.{ℕ_discrete}
use comp530h.Bytes.{Memory}
use comp530h.Strings.{IsString}
use comp530h.Monitor.{maxargs, too_many_args, args, parse}
use comp530h.Monitor.Words.{is_break, words, word, after, after-is_break}
use comp530h.Monitor.Rounds.{
  word-IsString, parse-ends, parse-full, parse-goes, HasNone, round-cases,
}

-- From index `k` on, `argv` points to the words and ends with a null pointer.
abbrev pub ArePointers : (argv : ℕ → ℕ) (k : ℕ) → Memory → List (List ℕ) → Type 0
ArePointers argv k m [] = argv k ≡ 0
ArePointers argv k m (w ∷ ws) = IsString m (argv k) w × ArePointers argv (suc k) m ws

-- The line's words become arguments; no pointer below `argc` and no byte below `b` changes.
abbrev pub Parses : (f b argc : ℕ) (argv : ℕ → ℕ) → Memory → List ℕ → Type 0
Parses f b argc argv m cs =
    (argv' : ℕ → ℕ) × (m' : Memory) × (parse f b argc argv m
      ≡ some (args (argc + length (words cs)) argv' m'))
    × ((i : ℕ) → i < argc → argv' i ≡ argv i)
    × ArePointers argv' argc m' (words cs)
    × ((a : ℕ) → a < b → m' a ≡ m a)
    × (is_break cs ≡ true → m' b ≡ 0)

ends-Parses :
    (f b argc : ℕ) (argv : ℕ → ℕ) (m : Memory) (cs : List ℕ)
    → HasNone f b m cs
    → Parses (suc f) b argc argv m cs
ends-Parses f b argc argv m cs (p, m', r, z, w, low, stop) = (
  update argv argc 0,
  m',
  parse-ends f b argc argv m p m' r z
      ∙ ap (λ n. some (args n (update argv argc 0) m')) (rw w (omega arith)),
  λ i l. update_ne argv argc i 0 (omega arith),
  rw w (update_self argv argc 0),
  low,
  stop,
)

pub parse-Parses :
    (f b argc : ℕ) (argv : ℕ → ℕ) (m : Memory) (cs : List ℕ)
    → IsString m b cs
    → length cs + 1 < f
    → argc + length (words cs) < maxargs
    → Parses f b argc argv m cs
parse-Parses zero b argc argv m cs h lt few = absurd (omega arith)
parse-Parses (suc f) b argc argv m cs h lt few = elim (round-cases f b m cs h (omega arith)) [
  | inl e ↦ ends-Parses f b argc argv m cs e
  | inr (p, m', ds, r, nz, found, s, behind, w, le, pos, less, low, stop) ↦
      let count : length (words cs) ≡ suc (length (words (after ds))) = ap length w in
      let q = p + length (word ds) in
      let (argv', m'', r', ptrs, more, low', stop') =
        parse-Parses f q (suc argc) (update argv argc p) m' (after ds) behind (omega arith)
          (omega (arith, count)) in
      (
        argv',
        m'',
        parse-goes f b argc argv m p m' r q nz (omega (arith, count)) found
            ∙ r'
            ∙ ap (λ n. some (args n argv' m'')) (omega (arith, count)),
        λ i l. ptrs i (omega arith) ∙ update_ne argv argc i p (omega arith),
        subst (ArePointers argv' argc m'') (sym w) (
          subst (λ a. IsString m'' a (word ds))
              (sym (ptrs argc (omega arith) ∙ update_self argv argc p))
              (word-IsString ds p m' m'' s low' (stop' (after-is_break ds))),
          more,
        ),
        λ a l. low' a (omega arith) ∙ low a l,
        λ t. low' b (omega arith) ∙ stop t,
      )
]

-- With more words than fit, the error is found at the sixteenth.
pub parse-too_many :
    (f b argc : ℕ) (argv : ℕ → ℕ) (m : Memory) (cs : List ℕ)
    → IsString m b cs
    → length cs + 1 < f
    → argc < maxargs
    → maxargs ≤ argc + length (words cs)
    → parse f b argc argv m ≡ some too_many_args
parse-too_many zero b argc argv m cs h lt low many = absurd (omega arith)
parse-too_many (suc f) b argc argv m cs h lt low many =
    elim (round-cases f b m cs h (omega arith)) [
      | inl (p, m', r, z, w, _, _) ↦
          let count : length (words cs) ≡ 0 = ap length w in absurd (omega (arith, count))
      | inr (p, m', ds, r, nz, found, s, behind, w, le, pos, less, _, _) ↦
          let count : length (words cs) ≡ suc (length (words (after ds))) = ap length w in
          let q = p + length (word ds) in
          elim (ℕ_discrete argc (maxargs - 1)) [
            | yes e ↦ parse-full f b argc argv m p m' r nz e
            | no n ↦
                parse-goes f b argc argv m p m' r q nz n found
                ∙ parse-too_many f q (suc argc) (update argv argc p) m' (after ds) behind
                    (omega arith) (omega arith) (omega (arith, count))
          ]
    ]
