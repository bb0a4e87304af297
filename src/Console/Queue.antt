-- ===== src/Console/Queue.antt =====
-- The buffer as a queue: while fewer than 512 characters wait, none is lost and none changes its place.
use comp530h.Base.{
  ℕ, zero, suc, ◌+◌, ◌%◌, ◌<◌, ◌≡◌, ◌≢◌, inl, inr, refl, Bool, true, false, List, [], ◌∷◌, ◌++◌,
  length, length-append, update, update_ne, ◌==◌, if◌then◌else◌, arith, ap, ◌∙◌, sym, Bool-cases,
  eq→==, ne→==,
}
use mathlib.Core.List.{append_assoc, append-nil}
use mathlib.Core.Path.{subst, subst₂}
use comp530h.Console.{
  Cons, consbufsize, advance, cons_intr, serial_intr, kbd_intr, take_char, cons_getc,
}

-- The characters from `r` on, `n` of them.
abbrev pub contents : (ℕ → ℕ) → (r n : ℕ) → List ℕ
contents buf r zero = []
contents buf r (suc n) = buf r ∷ contents buf (advance r) n

-- The queue that a buffer stands for.
pub record Holds (c : Cons) (q : List ℕ) : Type 0 where
  pub in_range : c.rpos < consbufsize
  pub shorter : length q < consbufsize
  pub behind : c.wpos ≡ (c.rpos + length q) % consbufsize
  pub chars : contents c.buf c.rpos (length q) ≡ q

-- The characters of an interrupt that are kept.
abbrev pub keep : List ℕ → List ℕ
keep [] = []
keep (x ∷ xs) = if x == 0 then keep xs else x % 256 ∷ keep xs

advance_bound : (r : ℕ) → r < consbufsize → advance r < consbufsize
advance_bound r h = ground arith

advance_sum :
    (r n : ℕ) → r < consbufsize → (advance r + n) % consbufsize ≡ (r + suc n) % consbufsize
advance_sum r n h = ground arith

-- The position to write is not one of the `n` that are filled.
other_place : (r n : ℕ) → r < consbufsize → suc n < consbufsize → r ≢ (r + suc n) % consbufsize
other_place r n h k e = ground arith

advance_mod : (p n r : ℕ) → p ≡ (r + n) % consbufsize → advance p ≡ (r + suc n) % consbufsize
advance_mod p n r e = ground arith

contents-update :
    (n r p v : ℕ) (buf : ℕ → ℕ)
    → r < consbufsize
    → n < consbufsize
    → p ≡ (r + n) % consbufsize
    → contents (update buf p v) r (suc n) ≡ contents buf r n ++ v ∷ []
contents-update zero r p v buf h k e = ap (λ (x : ℕ). x ∷ []) (rw e (ground arith))
contents-update (suc n) r p v buf h k e =
    let rest : contents (update buf p v) (advance r) (suc n)
        ≡ contents buf (advance r) n ++ v ∷ [] =
      contents-update n (advance r) p v buf (advance_bound r h) (omega arith)
        (e ∙ sym (advance_sum r n h)) in
    let place : r ≢ p = λ i. other_place r n h k (i ∙ e) in
    ap (λ (x : ℕ). x ∷ contents (update buf p v) (advance r) (suc n)) (update_ne buf p r v place)
    ∙ ap (λ (l : List ℕ). buf r ∷ l) rest

abbrev pushed : ℕ → Cons → Cons
pushed x c = record { buf = update c.buf c.wpos x; rpos = c.rpos; wpos = advance c.wpos }

pushed-Holds :
    (x : ℕ) (c : Cons) (q : List ℕ)
    → Holds c q
    → suc (length q) < consbufsize
    → Holds (pushed x c) (q ++ x ∷ [])
pushed-Holds x c q h lt =
    let n : length (q ++ x ∷ []) ≡ suc (length q) = omega (arith, length-append q (x ∷ [])) in
    record {
      in_range = h.in_range;
      shorter = omega (arith, n);
      behind =
          advance_mod c.wpos (length q) c.rpos h.behind
          ∙ ap (λ (l : ℕ). (c.rpos + l) % consbufsize) (sym n);
      chars =
          ap (contents (update c.buf c.wpos x) c.rpos) n
          ∙ (contents-update (length q) c.rpos c.wpos x c.buf h.in_range h.shorter h.behind
              ∙ ap (λ (l : List ℕ). l ++ x ∷ []) h.chars);
    }

-- One character of an interrupt.
intr_step :
    (x : ℕ) (xs : List ℕ) (c : Cons)
    → (x == 0) ≡ false
    → cons_intr (x ∷ xs) c ≡ cons_intr xs (pushed (x % 256) c)
unfolding cons_intr
intr_step x xs c e = rw e refl

intr_skip :
    (x : ℕ) (xs : List ℕ) (c : Cons) → (x == 0) ≡ true → cons_intr (x ∷ xs) c ≡ cons_intr xs c
unfolding cons_intr
intr_skip x xs c e = rw e refl

cons_intr-Holds :
    (xs : List ℕ) (c : Cons) (q : List ℕ)
    → Holds c q
    → length (q ++ keep xs) < consbufsize
    → Holds (cons_intr xs c) (q ++ keep xs)
unfolding cons_intr
cons_intr-Holds [] c q h lt = subst (Holds c) (sym (append-nil q)) h
cons_intr-Holds (x ∷ xs) c q h lt = elim (Bool-cases (x == 0)) [
  | inl e ↦
      let same : keep (x ∷ xs) ≡ keep xs = rw e refl in
      subst₂ Holds (sym (intr_skip x xs c e)) (ap (λ (l : List ℕ). q ++ l) (sym same))
        (cons_intr-Holds xs c q h (subst (λ (l : List ℕ). length (q ++ l) < consbufsize) same lt))
  | inr e ↦
      let more : keep (x ∷ xs) ≡ x % 256 ∷ keep xs = rw e refl in
      let split : (q ++ x % 256 ∷ []) ++ keep xs ≡ q ++ keep (x ∷ xs) =
        append_assoc q (x % 256 ∷ []) (keep xs) ∙ ap (λ (l : List ℕ). q ++ l) (sym more) in
      let n : length ((q ++ x % 256 ∷ []) ++ keep xs) < consbufsize =
        subst (λ (l : List ℕ). length l < consbufsize) (sym split) lt in
      let m : suc (length q) < consbufsize =
        omega
          (arith, n, length-append (q ++ x % 256 ∷ []) (keep xs), length-append q (x % 256 ∷ [])) in
      subst₂ Holds (sym (intr_step x xs c e)) split (
        cons_intr-Holds xs (pushed (x % 256) c) (q ++ x % 256 ∷ []) (pushed-Holds (x % 256) c q h m)
          n)
]

abbrev pub front : List ℕ → ℕ
front [] = 0
front (x ∷ xs) = x

abbrev pub rest : List ℕ → List ℕ
rest [] = []
rest (x ∷ xs) = xs

-- What a read gives, and the queue after it.
abbrev pub Reads : ℕ × Cons → List ℕ → Type 0
Reads r q = (r.0 ≡ front q) × Holds r.1 (rest q)

take_char-Reads : (c : Cons) (q : List ℕ) → Holds c q → Reads (take_char c) q
take_char-Reads c [] h =
    let e : (c.rpos == c.wpos) ≡ true = eq→== c.rpos c.wpos (omega (arith, h.behind, h.in_range)) in
    let r : take_char c ≡ (0, c) = rw e refl in
    subst (λ (r : ℕ × Cons). Reads r []) (sym r) (refl, h)
take_char-Reads c (x ∷ q) h =
    let e : (c.rpos == c.wpos) ≡ false =
      ne→== c.rpos c.wpos
        (λ i. other_place c.rpos (length q) h.in_range h.shorter (i ∙ h.behind)) in
    let r : take_char c
        ≡ (c.buf c.rpos, record { buf = c.buf; rpos = advance c.rpos; wpos = c.wpos }) =
      rw e refl in
    subst (λ (r : ℕ × Cons). Reads r (x ∷ q)) (sym r)
      (
        ap front h.chars,
        record {
          in_range = advance_bound c.rpos h.in_range;
          shorter = omega (arith, h.shorter);
          behind = h.behind ∙ sym (advance_sum c.rpos (length q) h.in_range);
          chars = ap rest h.chars;
        },
      )

-- What an interrupt of the serial port brings.
abbrev pub serial_chars : Bool → List ℕ → List ℕ
serial_chars serial_exists xs = if serial_exists then keep xs else []

serial_intr-Holds :
    (serial_exists : Bool) (xs : List ℕ) (c : Cons) (q : List ℕ)
    → Holds c q
    → length (q ++ serial_chars serial_exists xs) < consbufsize
    → Holds (serial_intr serial_exists xs c) (q ++ serial_chars serial_exists xs)
unfolding serial_intr
serial_intr-Holds true xs c q h lt = cons_intr-Holds xs c q h lt
serial_intr-Holds false xs c q h lt = subst (Holds c) (sym (append-nil q)) h

-- Let the buffer hold a queue (Holds), and let fewer than 512 characters be waiting once the serial
-- port, if it exists, and the keyboard have been polled. Then cons_getc returns the first of the
-- old and the new characters that are not 0, in their order, or 0 if there are none, and the buffer
-- holds the rest.
pub cons_getc-Reads :
    (serial_exists : Bool) (serial kbd : List ℕ) (c : Cons) (q : List ℕ)
    → Holds c q
    → length ((q ++ serial_chars serial_exists serial) ++ keep kbd) < consbufsize
    → Reads
        (cons_getc serial_exists serial kbd c)
        ((q ++ serial_chars serial_exists serial) ++ keep kbd)
unfolding cons_getc
cons_getc-Reads serial_exists serial kbd c q h lt =
    let some_chars : List ℕ = q ++ serial_chars serial_exists serial in
    let n : length some_chars < consbufsize =
      omega (arith, lt, length-append some_chars (keep kbd)) in
    take_char-Reads (kbd_intr kbd (serial_intr serial_exists serial c)) (some_chars ++ keep kbd) (
      cons_intr-Holds kbd (serial_intr serial_exists serial c) some_chars
        (serial_intr-Holds serial_exists serial c q h n) lt)

-- The place of the next character after an interrupt.
cons_intr_place :
    (xs : List ℕ) (c : Cons)
    → c.wpos < consbufsize
    → (cons_intr xs c).wpos ≡ (c.wpos + length (keep xs)) % consbufsize
unfolding cons_intr
cons_intr_place [] c h = ground arith
cons_intr_place (x ∷ xs) c h = ground (
  arith,
  cons_intr_place xs c,
  cons_intr_place xs (pushed (x % 256) c),
  advance_sum c.wpos (length (keep xs)),
)

cons_intr_read : (xs : List ℕ) (c : Cons) → (cons_intr xs c).rpos ≡ c.rpos
unfolding cons_intr
cons_intr_read [] c = refl
cons_intr_read (x ∷ xs) c =
    ground (arith, cons_intr_read xs c, cons_intr_read xs (pushed (x % 256) c))

-- If the buffer holds no characters and an interrupt brings 512 that are not 0, the next read
-- returns 0: all of them are lost.
pub cons_intr-full :
    (xs : List ℕ) (c : Cons)
    → Holds c []
    → length (keep xs) ≡ consbufsize
    → (take_char (cons_intr xs c)).0 ≡ 0
cons_intr-full xs c h n =
    let e : ((cons_intr xs c).rpos == (cons_intr xs c).wpos) ≡ true =
      eq→== (cons_intr xs c).rpos (cons_intr xs c).wpos (
        omega (
          arith,
          cons_intr_read xs c,
          cons_intr_place xs c (omega (arith, h.behind, h.in_range)),
          n,
          h.behind,
          h.in_range,
        )) in
    rw e refl
