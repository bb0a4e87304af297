-- ===== src/Printf/Chunks.antt =====
-- What programs print reaches the console whole, in strings of at most 255 characters.
use comp530h.Base.{
  ℕ, zero, suc, ◌+◌, ◌%◌, ◌^◌, ◌≤◌, ◌<◌, ◌≡◌, refl, sym, ap, ◌∙◌, some, List, [], ◌∷◌, ◌++◌, length,
  update, update_self, update_ne, ◌==◌, arith, Bool-cases, inl, inr, ==→eq, length-append,
}
use mathlib.Core.List.{append_assoc, append-nil}
use mathlib.Core.Path.{subst}
use comp530h.Format.{Arg}
use comp530h.Print.{printed, vprintfmt}
use comp530h.Console.Screen.{Screen, cons_putc}
use comp530h.Printf.{
  Printbuf, elements, sys_cputs, put, putch, putch_all, vcprintf, kernel_putch_all, kernel_vcprintf,
}

abbrev pub concat : List (List ℕ) → List ℕ
concat [] = []
concat (l ∷ ls) = l ++ concat ls

abbrev pub as_bytes : List ℕ → List ℕ
as_bytes [] = []
as_bytes (c ∷ cs) = c % 256 ∷ as_bytes cs

-- No string is longer than the buffer holds.
abbrev pub AreShort : List (List ℕ) → Type 0
AreShort [] = Unit {0}
AreShort (l ∷ ls) = (length l ≤ 255) × AreShort ls

concat-append : (ls : List (List ℕ)) (l : List ℕ) → concat (ls ++ l ∷ []) ≡ concat ls ++ l
concat-append [] l = append-nil l
concat-append (x ∷ ls) l =
    ap (λ (r : List ℕ). x ++ r) (concat-append ls l) ∙ sym (append_assoc x (concat ls) l)

append-AreShort :
    (ls : List (List ℕ)) (l : List ℕ) → AreShort ls → length l ≤ 255 → AreShort (ls ++ l ∷ [])
append-AreShort [] l h k = (k, tt)
append-AreShort (x ∷ ls) l (p, h) k = (p, append-AreShort ls l h k)

length-elements : (a : ℕ → ℕ) (i n : ℕ) → length (elements a i n) ≡ n
length-elements a i zero = refl
length-elements a i (suc n) = ap suc (length-elements a (i + 1) n)

-- The element after the others, written to its place.
elements-update :
    (a : ℕ → ℕ) (i n v p : ℕ)
    → p ≡ i + n
    → elements (update a p v) i (suc n) ≡ elements a i n ++ v ∷ []
elements-update a i zero v p e =
    ap (λ (x : ℕ). x ∷ []) (ap (update a p v) {y = p} (omega arith) ∙ update_self a p v)
elements-update a i (suc n) v p e =
    ap (λ (x : ℕ). x ∷ elements (update a p v) (i + 1) (suc n)) (update_ne a p i v (omega arith))
    ∙ ap (λ (l : List ℕ). a i ∷ l) (elements-update a (i + 1) n v p (omega arith))

-- What has been put so far is `out`.
record HasPut (b : Printbuf) (out : List ℕ) : Type 0 where
  room : b.idx < 255
  counted : b.cnt ≡ length out
  short : AreShort b.sent
  whole : concat b.sent ++ elements b.buf 0 b.idx ≡ as_bytes out

as_bytes-append : (out : List ℕ) (c : ℕ) → as_bytes (out ++ c ∷ []) ≡ as_bytes out ++ c % 256 ∷ []
as_bytes-append [] c = refl
as_bytes-append (x ∷ out) c = ap (λ (l : List ℕ). x % 256 ∷ l) (as_bytes-append out c)

put_whole :
    (b : Printbuf) (out : List ℕ) (c : ℕ)
    → HasPut b out
    → concat b.sent ++ elements (put c b).buf 0 (suc b.idx) ≡ as_bytes (out ++ c ∷ [])
put_whole b out c h =
    ap (λ (l : List ℕ). concat b.sent ++ l)
      (elements-update b.buf 0 b.idx (c % 256) b.idx (omega arith))
    ∙ (sym (append_assoc (concat b.sent) (elements b.buf 0 b.idx) (c % 256 ∷ []))
        ∙ (ap (λ (l : List ℕ). l ++ c % 256 ∷ []) h.whole ∙ sym (as_bytes-append out c)))

one_more : (out : List ℕ) (c : ℕ) → length (out ++ c ∷ []) ≡ length out + 1
one_more out c = length-append out (c ∷ [])

putch-HasPut :
    (b : Printbuf) (out : List ℕ) (c : ℕ) → HasPut b out → HasPut (putch c b) (out ++ c ∷ [])
unfolding putch
putch-HasPut b out c h = elim (Bool-cases (b.idx + 1 == 255)) [
  | inl e ↦
      let full : b.idx + 1 ≡ 255 = ==→eq (b.idx + 1) 255 e in
      let same : elements (put c b).buf 0 255 ≡ elements (put c b).buf 0 (suc b.idx) =
        ap (elements (put c b).buf 0) {x = 255} {y = suc b.idx} (omega arith) in
      rw e (record {
        room = omega arith;
        counted = omega (arith, h.counted, one_more out c);
        short =
            append-AreShort b.sent (elements (put c b).buf 0 255) h.short
              (omega (arith, length-elements (put c b).buf 0 255));
        whole =
            append-nil (concat (b.sent ++ elements (put c b).buf 0 255 ∷ []))
            ∙ (concat-append b.sent (elements (put c b).buf 0 255)
                ∙ (ap (λ (l : List ℕ). concat b.sent ++ l) same ∙ put_whole b out c h));
      })
  | inr e ↦ rw e (record {
    room = ground (arith, h.room);
    counted = omega (arith, h.counted, one_more out c);
    short = h.short;
    whole =
        ap (λ (n : ℕ). concat b.sent ++ elements (put c b).buf 0 n) {x = b.idx + 1} {y = suc b.idx}
          (omega arith)
        ∙ put_whole b out c h;
  })
]

putch_all-HasPut :
    (cs out : List ℕ) (b : Printbuf) → HasPut b out → HasPut (putch_all cs b) (out ++ cs)
putch_all-HasPut [] out b h = subst (HasPut b) (sym (append-nil out)) h
putch_all-HasPut (c ∷ cs) out b h =
    subst (HasPut (putch_all cs (putch c b))) (append_assoc out (c ∷ []) cs)
      (putch_all-HasPut cs (out ++ c ∷ []) (putch c b) (putch-HasPut b out c h))

-- If vprintfmt prints `out`, vcprintf of a program returns the number of its characters, cut to 32
-- bits, and the strings that it gives to sys_cputs are of at most 255 characters and make up, one
-- after the other, the bytes of `out`.
pub vcprintf_lem :
    (fuel : ℕ) (fmt out : List ℕ) (args : List Arg) (garbage : ℕ → ℕ)
    → vprintfmt fuel fmt args ≡ printed out
    → (ls : List (List ℕ)) × (vcprintf fuel fmt args garbage ≡ some (length out % 2 ^ 32, ls))
      × AreShort ls
      × (concat ls ≡ as_bytes out)
unfolding vcprintf
vcprintf_lem fuel fmt out args garbage run =
    let b = putch_all out (record { idx = 0; cnt = 0; buf = garbage; sent = [] }) in
    let h : HasPut b out =
      putch_all-HasPut out [] _
        (record { room = omega arith; counted = refl; short = tt; whole = refl }) in
    (
      (sys_cputs b.idx b).sent,
      rw (vcprintf, run) (ap (λ (n : ℕ). some (n % 2 ^ 32, (sys_cputs b.idx b).sent)) h.counted),
      append-AreShort b.sent (elements b.buf 0 b.idx) h.short
          (omega (arith, h.room, length-elements b.buf 0 b.idx)),
      concat-append b.sent (elements b.buf 0 b.idx) ∙ h.whole,
    )

kernel_count : (cs : List ℕ) (s : Screen) (n : ℕ) → (kernel_putch_all cs (s, n)).1 ≡ n
kernel_count [] s n = refl
kernel_count (c ∷ cs) s n = kernel_count cs (cons_putc c s) n

-- If vprintfmt prints, however much, vcprintf of the kernel returns 0.
pub kernel_vcprintf-zero :
    (fuel : ℕ) (fmt out : List ℕ) (args : List Arg) (s : Screen)
    → vprintfmt fuel fmt args ≡ printed out
    → (t : Screen) × (kernel_vcprintf fuel fmt args s ≡ some (0, t))
unfolding kernel_vcprintf
kernel_vcprintf-zero fuel fmt out args s run = (
  (kernel_putch_all out (s, 0)).0,
  rw (kernel_vcprintf, run)
      (ap (λ (n : ℕ). some (n, (kernel_putch_all out (s, 0)).0)) (kernel_count out s 0)),
)
