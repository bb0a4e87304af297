-- ===== src/Monitor.antt =====
-- kern/monitor.c: the command interpreter of the kernel monitor, on a line in memory.
--
-- A loop over the line runs on fuel: `none` is a run that has not ended. What is printed is left out.
pub mod Words
pub mod Loops
pub mod Rounds
pub mod Args
pub mod Commands
use comp530h.Base.{
  ℕ, zero, suc, ◌+◌, ◌-◌, Bool, ◌&&◌, not, Option, none, some, List, [], ◌∷◌, has, update, ◌==◌,
  if◌then◌else◌,
}
use comp530h.Bytes.{Memory}

-- WHITESPACE, "\t\r\n ", and strchr(WHITESPACE, c) for a character that is not null
abbrev pub whitespace : List ℕ
whitespace = 9 ∷ 13 ∷ 10 ∷ 32 ∷ []

unfoldable pub is_white : ℕ → Bool
is_white c = has c whitespace

abbrev pub maxargs : ℕ
maxargs = 16

-- The whitespace at `buf` is overwritten: the end of it and the memory.
unfoldable pub gobble : (fuel buf : ℕ) → Memory → Option (ℕ × Memory)
gobble zero buf m = none
gobble (suc f) buf m =
    let rest = gobble f (buf + 1) (update m buf 0) in
    if not (m buf == 0) && is_white (m buf) then rest else some (buf, m)

-- The end of the word at `buf`
unfoldable pub scan : (fuel buf : ℕ) → Memory → Option ℕ
scan zero buf m = none
scan (suc f) buf m =
    let rest = scan f (buf + 1) m in
    if not (m buf == 0) && not (is_white (m buf)) then rest else some buf

-- The arguments, or the error "Too many arguments"
pub data Parsed : Type 0 where
  too_many_args : Parsed
  args : (argc : ℕ) (argv : ℕ → ℕ) → Memory → Parsed

abbrev pub with_end : Option ℕ → (ℕ → Option Parsed) → Option Parsed
with_end none rest = none
with_end (some q) rest = rest q

-- A round behind the whitespace: the end of the line, the error, or the next argument
abbrev pub with_word :
    Option (ℕ × Memory) → (argc : ℕ) (argv : ℕ → ℕ) → (ℕ → Memory → Option Parsed) → Option Parsed
with_word none argc argv rest = none
with_word (some (p, m)) argc argv rest =
    if m p == 0
    then some (args argc (update argv argc 0) m)
    else if argc == maxargs - 1
    then some too_many_args
    else rest p m

-- The rounds of `while (1)`
unfoldable pub parse : (fuel buf argc : ℕ) → (argv : ℕ → ℕ) → Memory → Option Parsed
parse zero buf argc argv m = none
parse (suc f) buf argc argv m =
    with_word (gobble f buf m) argc argv
      λ p m'. with_end (scan f p m') λ q. parse f q (suc argc) (update argv argc p) m'

-- The functions of `commands`, and their names
pub data Command : Type 0 where
  mon_help mon_kerninfo mon_backtrace : Command

-- "help", "kerninfo" and "backtrace"
abbrev pub commands : List (List ℕ × Command)
commands =
    (104 ∷ 101 ∷ 108 ∷ 112 ∷ [], mon_help)
    ∷ (107 ∷ 101 ∷ 114 ∷ 110 ∷ 105 ∷ 110 ∷ 102 ∷ 111 ∷ [], mon_kerninfo)
    ∷ (98 ∷ 97 ∷ 99 ∷ 107 ∷ 116 ∷ 114 ∷ 97 ∷ 99 ∷ 101 ∷ [], mon_backtrace)
    ∷ []

-- strcmp(s, name) == 0 for a literal `name`
abbrev pub is_name : Memory → (s : ℕ) → List ℕ → Bool
is_name m s [] = m s == 0
is_name m s (c ∷ cs) = (m s == c) && is_name m (s + 1) cs

abbrev pub lookup : Memory → (s : ℕ) → List (List ℕ × Command) → Option Command
lookup m s [] = none
lookup m s ((name, func) ∷ cs) = if is_name m s name then some func else lookup m s cs

-- How runcmd ends: an empty line, one of the two errors, or the call of a command.
pub data Reply : Type 0 where
  nothing_entered too_many unknown_command : Reply
  called : Command → (argc : ℕ) (argv : ℕ → ℕ) → Memory → Reply

abbrev pub answer : (argc : ℕ) (argv : ℕ → ℕ) → Memory → Option Command → Reply
answer argc argv m none = unknown_command
answer argc argv m (some func) = called func argc argv m

abbrev pub invoke : Parsed → Reply
invoke too_many_args = too_many
invoke (args argc argv m) =
    if argc == 0 then nothing_entered else answer argc argv m (lookup m (argv 0) commands)

abbrev pub reply : Option Parsed → Option Reply
reply none = none
reply (some r) = some (invoke r)

unfoldable pub runcmd : (fuel buf : ℕ) → Memory → Option Reply
runcmd f buf m = reply (parse f buf 0 (λ i. 0) m)
