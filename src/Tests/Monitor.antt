-- ===== src/Tests/Monitor.antt =====
-- The line "  help me" in memory.
use comp530h.Base.{ℕ, ◌+◌, ◌≡◌, refl, if◌then◌else◌, ◌==◌, some, List, [], ◌∷◌, arith}
use comp530h.Bytes.{Memory}
use comp530h.Strings.{IsString}
use comp530h.Monitor.{is_white, gobble, scan, parse, runcmd, unknown_command, too_many}
use comp530h.Monitor.Words.{words}
use comp530h.Monitor.Commands.{Answers, runcmd-Answers}

-- The bytes of a list from an address on
abbrev text : List ℕ → (at : ℕ) → Memory
text [] at a = 0
text (c ∷ cs) at a = if a == at then c else text cs (at + 1) a

abbrev help_me : List ℕ
help_me = 32 ∷ 32 ∷ 104 ∷ 101 ∷ 108 ∷ 112 ∷ 9 ∷ 109 ∷ 101 ∷ []

abbrev line : Memory
line = text help_me 256

words_run : words help_me ≡ (104 ∷ 101 ∷ 108 ∷ 112 ∷ []) ∷ (109 ∷ 101 ∷ []) ∷ []
unfolding is_white
words_run = refl

unknown_run : runcmd 20 259 line ≡ some unknown_command
unfolding runcmd parse gobble scan is_white
unknown_run = refl

-- Sixteen words of one character
abbrev sixteen : List ℕ
sixteen =
    97 ∷ 32 ∷ 97 ∷ 32 ∷ 97 ∷ 32 ∷ 97 ∷ 32 ∷ 97 ∷ 32 ∷ 97 ∷ 32 ∷ 97 ∷ 32 ∷ 97 ∷ 32 ∷ 97 ∷ 32 ∷ 97
    ∷ 32 ∷ 97 ∷ 32 ∷ 97 ∷ 32 ∷ 97 ∷ 32 ∷ 97 ∷ 32 ∷ 97 ∷ 32 ∷ 97 ∷ []

too_many_run : runcmd 34 256 (text sixteen 256) ≡ some too_many
unfolding runcmd parse gobble scan is_white
too_many_run = refl

help_me-IsString : IsString line 256 help_me
help_me-IsString = (
  refl,
  (
    omega arith,
    (
      refl,
      (
        omega arith,
        (
          refl,
          (
            omega arith,
            (
              refl,
              (
                omega arith,
                (
                  refl,
                  (
                    omega arith,
                    (
                      refl,
                      (
                        omega arith,
                        (refl, (omega arith, (refl, (omega arith, (refl, (omega arith, refl)))))),
                      ),
                    ),
                  ),
                ),
              ),
            ),
          ),
        ),
      ),
    ),
  ),
)

runcmd-Answers_example : Answers (runcmd 20 256 line) (words help_me)
runcmd-Answers_example = runcmd-Answers 20 256 line help_me help_me-IsString (omega arith)
