-- ===== src/Monitor/Commands.antt =====
-- What runcmd answers to a line.
use comp530h.Base.{
  ℕ, suc, ◌+◌, ◌<◌, ◌≤◌, ◌≡◌, refl, Bool, true, false, ◌&&◌, ◌||◌, Option, none, some, List, [],
  ◌∷◌, has, length, ◌==◌, if◌then◌else◌, ne→==, arith, ap, ◌∙◌,
}
use mathlib.Core.Path.{subst}
use comp530h.Bytes.{Memory}
use comp530h.Strings.{IsString}
use comp530h.Monitor.{
  maxargs, Command, commands, is_name, lookup, Reply, nothing_entered, too_many, answer, invoke,
  reply, Parsed, args, too_many_args, parse, runcmd,
}
use comp530h.Monitor.Words.{words}
use comp530h.Monitor.Args.{ArePointers, parse-Parses, parse-too_many}

-- Equality of two names
abbrev same_name : List ℕ → List ℕ → Bool
same_name [] [] = true
same_name [] (d ∷ ds) = false
same_name (c ∷ cs) [] = false
same_name (c ∷ cs) (d ∷ ds) = (c == d) && same_name cs ds

-- The command of a name, in a table
abbrev pub command_in : List (List ℕ × Command) → List ℕ → Option Command
command_in [] w = none
command_in ((name, func) ∷ cs) w = if same_name w name then some func else command_in cs w

-- A line without words, with more than 15, with an unknown first word, or with a command, which gets
-- the words as its arguments
abbrev pub Answers : Option Reply → List (List ℕ) → Type 0
Answers r [] = r ≡ some nothing_entered
Answers r (w ∷ ws) =
    ((maxargs ≤ suc (length ws)) → r ≡ some too_many)
    × ((suc (length ws) < maxargs)
        → (argv : ℕ → ℕ) × (m : Memory) × (r
            ≡ some (answer (suc (length ws)) argv m (command_in commands w)))
          × ArePointers argv 0 m (w ∷ ws))

or-false : (a b : Bool) → (a || b) ≡ false → (a ≡ false) × (b ≡ false)
or-false true b h = absurd (cc h)
or-false false b h = (refl, h)

IsString-is_name :
    (name w : List ℕ) (m : Memory) (s : ℕ)
    → IsString m s w
    → has 0 name ≡ false
    → is_name m s name ≡ same_name w name
IsString-is_name [] [] m s h t = rw h refl
IsString-is_name [] (c ∷ w) m s (e, (ne, h)) t = rw (e, ne→== c 0 ne) refl
IsString-is_name (d ∷ ds) [] m s h t = rw (h, (or-false (0 == d) (has 0 ds) t).0) refl
IsString-is_name (d ∷ ds) (c ∷ w) m s (e, (ne, h)) t =
    rw e (
      ap (λ b. (c == d) && b)
        (IsString-is_name ds w m (s + 1) h (or-false (0 == d) (has 0 ds) t).1))

-- The names of a table have no null bytes.
abbrev AreNames : List (List ℕ × Command) → Type 0
AreNames [] = Unit {0}
AreNames ((name, func) ∷ cs) = (has 0 name ≡ false) × AreNames cs

lookup-command_in :
    (cs : List (List ℕ × Command)) (w : List ℕ) (m : Memory) (s : ℕ)
    → IsString m s w
    → AreNames cs
    → lookup m s cs ≡ command_in cs w
lookup-command_in [] w m s h t = refl
lookup-command_in ((name, func) ∷ cs) w m s h (t, ts) =
    ap (λ b. if b then some func else lookup m s cs) (IsString-is_name name w m s h t)
    ∙ ap (λ o. if same_name w name then some func else o) (lookup-command_in cs w m s h ts)

commands-AreNames : AreNames commands
commands-AreNames = (refl, (refl, (refl, tt)))

runcmd-parse :
    (f buf : ℕ) (m : Memory) (r : Parsed)
    → parse f buf 0 (λ i. 0) m ≡ some r
    → runcmd f buf m ≡ some (invoke r)
unfolding runcmd
runcmd-parse f buf m r e = ap reply e

invoke-args :
    (n : ℕ) (argv : ℕ → ℕ) (m : Memory)
    → invoke (args (suc n) argv m) ≡ answer (suc n) argv m (lookup m (argv 0) commands)
invoke-args n argv m =
    ap (λ b. if b then nothing_entered else answer (suc n) argv m (lookup m (argv 0) commands))
      (ne→== (suc n) 0 (omega arith))

words-Answers :
    (f buf : ℕ) (m : Memory) (cs : List ℕ) (ws : List (List ℕ))
    → words cs ≡ ws
    → IsString m buf cs
    → length cs + 1 < f
    → Answers (runcmd f buf m) ws
words-Answers f buf m cs [] e h lt =
    let none_left : length (words cs) ≡ 0 = ap length e in
    let (argv, m', r, _, _, _, _) =
      parse-Parses f buf 0 (λ i. 0) m cs h lt (omega (arith, none_left)) in
    let count : 0 + length (words cs) ≡ 0 = omega (arith, none_left) in
    runcmd-parse f buf m (args (0 + length (words cs)) argv m') r
    ∙ ap (λ n. some (invoke (args n argv m'))) count
words-Answers f buf m cs (w ∷ ws) e h lt =
    let count : length (words cs) ≡ suc (length ws) = ap length e in
    (
      λ many.
          runcmd-parse f buf m too_many_args
            (parse-too_many f buf 0 (λ i. 0) m cs h lt (omega arith) (omega (arith, count))),
      λ few.
          let (argv, m', r, _, ptrs, _, _) =
            parse-Parses f buf 0 (λ i. 0) m cs h lt (omega (arith, count)) in
          let argc : 0 + length (words cs) ≡ suc (length ws) = omega (arith, count) in
          let ptrs' = subst (ArePointers argv 0 m') e ptrs in
          (
            argv,
            m',
            runcmd-parse f buf m (args (0 + length (words cs)) argv m') r
                ∙ ap (λ n. some (invoke (args n argv m'))) argc
                ∙ ap some (invoke-args (length ws) argv m')
                ∙ ap (λ o. some (answer (suc (length ws)) argv m' o))
                    (lookup-command_in commands w m' (argv 0) ptrs'.0 commands-AreNames),
            ptrs',
          ),
    )

-- For a line of the characters `cs` in memory, and fuel for two rounds more than it has characters,
-- runcmd ends: without a call when the line has no word, with the error "Too many arguments" when it
-- has 16 or more, with "Unknown command" when its first word is no command's name, and else with the
-- call of that command, whose argc counts the words and whose argv points to each of them as a string, in
-- order, with a null pointer behind the last.
pub runcmd-Answers :
    (f buf : ℕ) (m : Memory) (cs : List ℕ)
    → IsString m buf cs
    → length cs + 1 < f
    → Answers (runcmd f buf m) (words cs)
runcmd-Answers f buf m cs h lt = words-Answers f buf m cs (words cs) refl h lt
