-- ===== src/Printf.antt =====
-- lib/printf.c: `putch` and `vcprintf` of programs, which collect characters for `sys_cputs`, and
-- kern/printf.c: `vcprintf` of the kernel, which puts them on the console.
pub mod Chunks
use comp530h.Base.{
  ℕ, zero, suc, ◌+◌, ◌%◌, ◌^◌, Option, none, some, List, [], ◌∷◌, ◌++◌, update, ◌==◌, if◌then◌else◌,
}
use comp530h.Format.{Arg}
use comp530h.Print.{printed, bad_argument, out_of_fuel, vprintfmt}
use comp530h.Console.Screen.{Screen, cons_putc}

-- `struct printbuf`, with the strings that were given to `sys_cputs`, in order.
pub record Printbuf : Type 0 where
  pub idx : ℕ
  pub cnt : ℕ
  pub buf : ℕ → ℕ
  pub sent : List (List ℕ)

-- The elements of an array from `i` on, `n` of them.
abbrev pub elements : (ℕ → ℕ) → (i n : ℕ) → List ℕ
elements a i zero = []
elements a i (suc n) = a i ∷ elements a (i + 1) n

-- sys_cputs(b->buf, n)
abbrev pub sys_cputs : ℕ → Printbuf → Printbuf
sys_cputs n b = record b { sent = b.sent ++ elements b.buf 0 n ∷ [] }

abbrev pub put : ℕ → Printbuf → Printbuf
put ch b = record b { buf = update b.buf b.idx (ch % 256); idx = b.idx + 1 }

unfoldable pub putch : ℕ → Printbuf → Printbuf
putch ch b =
    if b.idx + 1 == 255
    then record (sys_cputs 255 (put ch b)) { idx = 0; cnt = b.cnt + 1 }
    else record (put ch b) { cnt = b.cnt + 1 }

abbrev pub putch_all : List ℕ → Printbuf → Printbuf
putch_all [] b = b
putch_all (c ∷ cs) b = putch_all cs (putch c b)

-- `cnt` is an `int`. The array is not initialised.
unfoldable pub vcprintf :
    (fuel : ℕ) → List ℕ → List Arg → (garbage : ℕ → ℕ) → Option (ℕ × List (List ℕ))
vcprintf fuel fmt args garbage = elim (vprintfmt fuel fmt args) [
  | printed out ↦
      let b = putch_all out (record { idx = 0; cnt = 0; buf = garbage; sent = [] }) in
      some (b.cnt % 2 ^ 32, (sys_cputs b.idx b).sent)
  | bad_argument ↦ none
  | out_of_fuel ↦ none
]

-- The kernel's `putch` counts up its copy of the pointer to the count, and not the count.
abbrev pub kernel_putch : ℕ → Screen × ℕ → Screen × ℕ
kernel_putch ch (s, cnt) = (cons_putc ch s, cnt)

abbrev pub kernel_putch_all : List ℕ → Screen × ℕ → Screen × ℕ
kernel_putch_all [] r = r
kernel_putch_all (c ∷ cs) r = kernel_putch_all cs (kernel_putch c r)

unfoldable pub kernel_vcprintf : (fuel : ℕ) → List ℕ → List Arg → Screen → Option (ℕ × Screen)
kernel_vcprintf fuel fmt args s = elim (vprintfmt fuel fmt args) [
  | printed out ↦ (let r = kernel_putch_all out (s, 0) in some (r.1, r.0))
  | bad_argument ↦ none
  | out_of_fuel ↦ none
]
