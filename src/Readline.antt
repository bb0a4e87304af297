-- ===== src/Readline.antt =====
-- lib/readline.c: the line editor. The keys are the values of `getchar`, as 32-bit patterns.
pub mod Line
use comp530h.Base.{
  ℕ, ◌+◌, ◌-◌, ◌%◌, ◌^◌, Bool, ◌&&◌, ◌||◌, List, [], ◌∷◌, ◌++◌, update, ltb, leb, ◌==◌,
  if◌then◌else◌,
}

abbrev pub buflen : ℕ
buflen = 1024

-- The variable `i`, the array `buf`, and what was given to `cputchar`.
pub record Editor : Type 0 where
  pub i : ℕ
  pub buf : ℕ → ℕ
  pub echo : List ℕ

-- The end: NULL after a negative key, the buffer, or no key is left.
pub data Ended : Type 0 where
  read_error : Ended
  finished : Editor → Ended
  waiting : Ended

abbrev pub echoed : (echoing : Bool) → ℕ → List ℕ → List ℕ
echoed echoing c l = if echoing then l ++ c ∷ [] else l

abbrev pub is_rubout : ℕ → Bool
is_rubout c = (c == 8) || (c == 127)

abbrev pub is_return : ℕ → Bool
is_return c = (c == 10) || (c == 13)

-- The branches that go on. A return is no character for them.
unfoldable pub key : (echoing : Bool) → ℕ → Editor → Editor
key echoing c e =
    if is_rubout c && ltb 0 e.i
    then record { i = e.i - 1; buf = e.buf; echo = echoed echoing 8 e.echo }
    else if leb 32 c && ltb e.i (buflen - 1)
    then record { i = e.i + 1; buf = update e.buf e.i (c % 256); echo = echoed echoing c e.echo }
    else e

-- `echoing` is what `iscons(0)` gives.
unfoldable pub readline_from : (echoing : Bool) → List ℕ → Editor → Ended
readline_from echoing [] e = waiting
readline_from echoing (c ∷ cs) e =
    let rest = readline_from echoing cs (key echoing c e) in
    if leb (2 ^ 31) c
    then read_error
    else if is_return c
    then finished (record { i = e.i; buf = update e.buf e.i 0; echo = echoed echoing 10 e.echo })
    else rest

abbrev pub readline : (echoing : Bool) → List ℕ → (buf : ℕ → ℕ) → Ended
readline echoing cs buf = readline_from echoing cs (record { i = 0; buf = buf; echo = [] })
