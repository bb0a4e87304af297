-- ===== src/Console/Screen/Cursor.antt =====
-- The cursor stays on the screen, and the writes stay in the screen memory.
use comp530h.Base.{ℕ, ◌%◌, ◌≤◌, ◌<◌, ◌≡◌, ◌==◌, arith, Bool-cases, inl, inr}
use comp530h.Console.Screen.{
  Screen, crt_size, scroll, write_char, send, attributed, put_blank, cga_putc, cons_putc,
}

-- The cursor is on the screen, and what is not screen memory is as in `b`.
pub record IsOnScreen (b : ℕ → ℕ) (s : Screen) : Type 0 where
  pub cursor : s.crt_pos < crt_size
  pub outside : (i : ℕ) → crt_size ≤ i → s.crt_buf i ≡ b i

step-IsOnScreen :
    (b : ℕ → ℕ) (c : ℕ) (s : Screen) → IsOnScreen b s → IsOnScreen b (scroll (write_char c s))
unfolding scroll write_char
step-IsOnScreen b c s h = record {
  cursor = ground (arith, h.cursor);
  outside = λ i le. ground (arith, h.cursor, h.outside i le);
}

send-IsOnScreen : (b : ℕ → ℕ) (c : ℕ) (s : Screen) → IsOnScreen b s → IsOnScreen b (send c s)
send-IsOnScreen b c s h = record { cursor = h.cursor; outside = h.outside }

blank-IsOnScreen : (b : ℕ → ℕ) (s : Screen) → IsOnScreen b s → IsOnScreen b (put_blank s)
unfolding put_blank
blank-IsOnScreen b s h = step-IsOnScreen b (attributed 32) (send 32 s) (send-IsOnScreen b 32 s h)

scroll-IsOnScreen : (b : ℕ → ℕ) (s : Screen) → IsOnScreen b s → IsOnScreen b (scroll s)
unfolding scroll
scroll-IsOnScreen b s h = record {
  cursor = ground (arith, h.cursor);
  outside = λ i le. ground (arith, h.cursor, h.outside i le);
}

-- If the cursor is on the screen and the memory outside the 25 lines is as in b, both are so after
-- cons_putc of any character.
pub cons_putc-IsOnScreen :
    (b : ℕ → ℕ) (c : ℕ) (s : Screen) → IsOnScreen b s → IsOnScreen b (cons_putc c s)
unfolding cons_putc cga_putc
cons_putc-IsOnScreen b c s h =
    let sent_on : IsOnScreen b (send c s) = send-IsOnScreen b c s h in
    elim (Bool-cases (attributed c % 256 == 9)) [
      | inl e ↦ rw e (
          scroll-IsOnScreen b (put_blank (put_blank (put_blank (put_blank (put_blank (send c s))))))
            (blank-IsOnScreen b (put_blank (put_blank (put_blank (put_blank (send c s))))) (
              blank-IsOnScreen b (put_blank (put_blank (put_blank (send c s)))) (
                blank-IsOnScreen b (put_blank (put_blank (send c s))) (
                  blank-IsOnScreen b (put_blank (send c s))
                    (blank-IsOnScreen b (send c s) sent_on))))))
      | inr e ↦ rw e (step-IsOnScreen b (attributed c) (send c s) sent_on)
    ]
