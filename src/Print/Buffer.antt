-- ===== src/Print/Buffer.antt =====
-- lib/printfmt.c: `sprintputch` and `vsnprintf`, which print to a buffer of `n` bytes.
use comp530h.Base.{
  ℕ, zero, suc, ◌+◌, ◌-◌, ◌%◌, ◌^◌, ◌≤◌, ◌<◌, ◌≡◌, ◌≢◌, true, false, ◌&&◌, ◌||◌, ltb, leb, ◌==◌,
  if◌then◌else◌, List, [], ◌∷◌, length, arith, ap, ◌∙◌, sym, update,
}
use mathlib.Core.Path.{subst}
use comp530h.Bytes.{Memory}
use comp530h.Format.{Arg}
use comp530h.Print.{Printed, printed, bad_argument, out_of_fuel, vprintfmt}

-- `struct sprintbuf`, with the memory that its pointers point into.
pub record Sprintbuf : Type 0 where
  pub buf : ℕ
  pub ebuf : ℕ
  pub cnt : ℕ
  pub memory : Memory

unfoldable pub sprintputch : ℕ → Sprintbuf → Sprintbuf
sprintputch ch b =
    if ltb b.buf b.ebuf
    then record {
      buf = b.buf + 1;
      ebuf = b.ebuf;
      cnt = b.cnt + 1;
      memory = update b.memory b.buf (ch % 256);
    }
    else record { buf = b.buf; ebuf = b.ebuf; cnt = b.cnt + 1; memory = b.memory }

-- The calls of `putch` that `vprintfmt` makes.
abbrev pub put_all : List ℕ → Sprintbuf → Sprintbuf
put_all [] b = b
put_all (c ∷ cs) b = put_all cs (sprintputch c b)

-- The count with the memory, -E_INVAL, or what `vprintfmt` ends with otherwise.
pub data Buffered : Type 0 where
  counted : ℕ → Memory → Buffered
  invalid no_argument no_fuel : Buffered

-- The null byte at the end; the count is an `int`.
abbrev pub terminate : Sprintbuf → Buffered
terminate b = counted (b.cnt % 2 ^ 32) (update b.memory b.buf 0)

abbrev pub put_printed : Printed → Sprintbuf → Buffered
put_printed (printed out) b = terminate (put_all out b)
put_printed bad_argument b = no_argument
put_printed out_of_fuel b = no_fuel

-- `n` is a 32-bit pattern, and a pointer that is NULL is 0.
unfoldable pub vsnprintf : (fuel buf n : ℕ) → List ℕ → List Arg → Memory → Buffered
vsnprintf fuel buf n fmt args m =
    if (buf == 0) || ((n == 0) || leb (2 ^ 31) n)
    then invalid
    else put_printed (vprintfmt fuel fmt args)
        (record { buf = buf; ebuf = buf + n - 1; cnt = 0; memory = m })

-- Character `i` of a list, as a byte.
abbrev pub byte_at : List ℕ → ℕ → ℕ
byte_at [] i = 0
byte_at (c ∷ cs) zero = c % 256
byte_at (c ∷ cs) (suc i) = byte_at cs i

-- How many of `len` characters go into `room` bytes.
abbrev pub fitting : (len room : ℕ) → ℕ
fitting len room = if ltb len room then len else room

-- The memory after the first `k` characters of `out` are put at `buf`.
abbrev pub put_at : (out : List ℕ) (buf k : ℕ) → Memory → Memory
put_at out buf k m a = if leb buf a && ltb a (buf + k) then byte_at out (a - buf) else m a

next_byte :
    (c : ℕ) (cs : List ℕ) (a buf : ℕ)
    → suc buf ≤ a
    → byte_at (c ∷ cs) (a - buf) ≡ byte_at cs (a - suc buf)
next_byte c cs a buf h = ap (byte_at (c ∷ cs)) {y = suc (a - suc buf)} (omega arith)

first_byte : (c : ℕ) (cs : List ℕ) (a buf : ℕ) → a ≡ buf → byte_at (c ∷ cs) (a - buf) ≡ c % 256
first_byte c cs a buf h = ap (byte_at (c ∷ cs)) {y = 0} (omega arith)

-- A buffer with `room` bytes left before the last.
abbrev Puts : List ℕ → (buf room cnt : ℕ) → Memory → Sprintbuf → Type 0
Puts out buf room cnt m b =
    (b.buf ≡ buf + fitting (length out) room)
    × ((b.cnt ≡ cnt + length out)
        × ((a : ℕ) → b.memory a ≡ put_at out buf (fitting (length out) room) m a))

abbrev state : (buf e cnt : ℕ) → Memory → Sprintbuf
state buf e cnt m = record { buf = buf; ebuf = e; cnt = cnt; memory = m }

put_full :
    (c buf e cnt : ℕ) (m : Memory)
    → ltb buf e ≡ false
    → sprintputch c (state buf e cnt m) ≡ state buf e (cnt + 1) m
unfolding sprintputch
put_full c buf e cnt m h = rw h

put_one :
    (c buf e cnt : ℕ) (m : Memory)
    → ltb buf e ≡ true
    → sprintputch c (state buf e cnt m) ≡ state (buf + 1) e (cnt + 1) (update m buf (c % 256))
unfolding sprintputch
put_one c buf e cnt m h = rw h

fitting_none : (n : ℕ) → fitting n 0 ≡ 0
fitting_none n = ground arith

fitting_more : (n room : ℕ) → fitting (suc n) (suc room) ≡ suc (fitting n room)
fitting_more n room = ground arith

put_at_first :
    (c : ℕ) (cs : List ℕ) (buf k a : ℕ) (m : Memory)
    → put_at cs (buf + 1) k (update m buf (c % 256)) a ≡ put_at (c ∷ cs) buf (suc k) m a
put_at_first c cs buf k a m = ground (arith, next_byte c cs a buf, first_byte c cs a buf)

put_all-Puts :
    (out : List ℕ) (buf room e cnt : ℕ) (m : Memory)
    → e ≡ buf + room
    → Puts out buf room cnt m (put_all out (state buf e cnt m))
put_all-Puts [] buf room e cnt m h = (ground arith, (omega arith, λ a. ground arith))
put_all-Puts (c ∷ cs) buf zero e cnt m h =
    let (p, (q, r)) = put_all-Puts cs buf 0 e (cnt + 1) m h in
    subst (λ (b : Sprintbuf). Puts (c ∷ cs) buf 0 cnt m (put_all cs b))
      (sym (put_full c buf e cnt m (ground arith)))
      (
        omega (arith, p, fitting_none (length cs), fitting_none (suc (length cs))),
        (
          omega (arith, q),
          λ a. r a ∙ ground (arith, fitting_none (length cs), fitting_none (suc (length cs))),
        ),
      )
put_all-Puts (c ∷ cs) buf (suc room) e cnt m h =
    let (p, (q, r)) =
      put_all-Puts cs (buf + 1) room e (cnt + 1) (update m buf (c % 256)) (omega arith) in
    subst (λ (b : Sprintbuf). Puts (c ∷ cs) buf (suc room) cnt m (put_all cs b))
      (sym (put_one c buf e cnt m (ground arith)))
      (
        omega (arith, p, fitting_more (length cs) room),
        (
          omega (arith, q),
          λ a.
              r a
              ∙ (put_at_first c cs buf (fitting (length cs) room) a m
                  ∙ ap (λ (k : ℕ). put_at (c ∷ cs) buf k m a)
                      (sym (fitting_more (length cs) room))),
        ),
      )

-- What a buffer of `n` bytes holds of `out`: at most n - 1 characters and a null byte, and nothing
-- else is written.
abbrev pub buffered : (out : List ℕ) (buf n : ℕ) → Memory → Memory
buffered out buf n m a =
    if a == buf + fitting (length out) (n - 1)
    then 0
    else put_at out buf (fitting (length out) (n - 1)) m a

-- If the buffer is not NULL, n is from 1 to 2^31 - 1, and vprintfmt prints `out`, vsnprintf returns
-- the number of characters of `out`, cut to 32 bits, and writes the first of them, n - 1 at most,
-- as bytes and a null byte behind them; no other byte of the memory changes.
pub vsnprintf_lem :
    (fuel buf n : ℕ) (fmt out : List ℕ) (args : List Arg) (m : Memory)
    → buf ≢ 0
    → 1 ≤ n
    → n < 2 ^ 31
    → vprintfmt fuel fmt args ≡ printed out
    → (m' : Memory) × ((vsnprintf fuel buf n fmt args m ≡ counted (length out % 2 ^ 32) m')
        × ((a : ℕ) → m' a ≡ buffered out buf n m a))
unfolding vsnprintf
vsnprintf_lem fuel buf n fmt out args m h k l run =
    let b : Sprintbuf = put_all out (state buf (buf + n - 1) 0 m) in
    let (p, (q, r)) = put_all-Puts out buf (n - 1) (buf + n - 1) 0 m (omega arith) in
    let count : b.cnt ≡ length out = omega (arith, q) in
    let open_buffer : ((buf == 0) || ((n == 0) || leb (2 ^ 31) n)) ≡ false = ground arith in
    (
      update b.memory b.buf 0,
      (
        rw open_buffer (
            ap (λ (x : Printed). put_printed x (state buf (buf + n - 1) 0 m)) run
            ∙ ap (λ (x : ℕ). counted (x % 2 ^ 32) (update b.memory b.buf 0)) count),
        λ a.
            ap (λ (x : ℕ). update b.memory x 0 a) p
            ∙ ap (λ (x : ℕ). if a == buf + fitting (length out) (n - 1) then 0 else x) (r a),
      ),
    )
