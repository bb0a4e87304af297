-- ===== src/Detect/Total.antt =====
-- The sizes that multiboot_read adds up, when no entries overlap.
use comp530h.Base.{
  ℕ, ◌+◌, ◌%◌, ◌^◌, ◌≤◌, ◌<◌, ◌≡◌, refl, ap, ◌∙◌, false, ◌&&◌, inl, inr, Option, none, some, List,
  [], ◌∷◌, length, ltb, leb, ◌==◌, if◌then◌else◌, arith, Bool-cases,
}
use mathlib.Core.Logic.{∥∥₁_elim}
use native.Mathlib.Nat.{ℕ_set}
use mathlib.Core.List.{Perm, Permᴰ, map}
use comp530h.Layout.{add64}
use comp530h.Detect.{
  Region, sanitize, sanitized, is_memory, sizes, known, gather, slots, multiboot_read,
}
use comp530h.Detect.Sorted.{gather-sorted}

-- The bytes of usable memory in the entries
unfoldable pub memory_of : List Region → ℕ
memory_of [] = 0
memory_of (r ∷ rs) = (if is_memory r.type then r.len else 0) + memory_of rs

-- Each entry ends where the next begins or before, and the last below 2^64.
abbrev pub AreApart : List Region → Type 0
AreApart [] = Unit {0}
AreApart (r ∷ []) = r.base + r.len < 2 ^ 64
AreApart (r ∷ s ∷ rs) = (r.base + r.len ≤ s.base) × AreApart (s ∷ rs)

total : List (Option Region) → ℕ
total [] = 0
total (none ∷ rs) = total rs
total (some r ∷ rs) = (if is_memory r.type then r.len else 0) + total rs

end-lt : (r : Region) (rs : List Region) → AreApart (r ∷ rs) → r.base + r.len < 2 ^ 64
end-lt r [] h = h
end-lt r (s ∷ rs) h = omega (arith, end-lt s rs h.1)

AreApart-ends :
    (r s : Region) (rs : List Region)
    → r.base + r.len ≡ s.base + s.len
    → AreApart (r ∷ rs)
    → AreApart (s ∷ rs)
AreApart-ends r s [] e h = omega arith
AreApart-ends r s (x ∷ rs) e h = (omega (arith, h.0), h.1)

total-sanitize :
    (prev : Region) (rs : List Region)
    → AreApart (prev ∷ rs)
    → total (sanitize prev rs) ≡ memory_of (prev ∷ rs)
unfolding total sanitize memory_of
total-sanitize prev [] h = refl
total-sanitize prev (this ∷ rest) h =
    let end : add64 prev.base prev.len ≡ prev.base + prev.len =
      omega (arith, end-lt prev (this ∷ rest) h) in
    elim (Bool-cases ((add64 prev.base prev.len == this.base) && (prev.type == this.type))) [
      | inl same ↦
          let touch : prev.base + prev.len ≡ this.base = ground arith in
          let types : prev.type ≡ this.type = ground arith in
          let sum : add64 prev.len this.len ≡ prev.len + this.len =
            omega (arith, end-lt this rest h.1) in
          let ih =
            total-sanitize
              (record { base = prev.base; len = add64 prev.len this.len; type = this.type }) rest
              (AreApart-ends this
                (record { base = prev.base; len = add64 prev.len this.len; type = this.type }) rest
                (omega arith) h.1) in
          rw same (ih ∙ ground (arith, ap is_memory types))
      | inr other ↦
          let apart : ltb this.base (add64 prev.base prev.len) ≡ false = ground (arith, h.0) in
          rw (other, apart)
            (ap (λ x. (if is_memory prev.type then prev.len else 0) + x)
              (total-sanitize this rest h.1))
    ]

total-sanitized : (rs : List Region) → AreApart rs → total (sanitized rs) ≡ memory_of rs
unfolding total memory_of
total-sanitized [] h = refl
total-sanitized (r ∷ rs) h = total-sanitize r rs h

sizes-total :
    (rs : List (Option Region)) (b e : ℕ)
    → ((sizes rs b e).0 + (sizes rs b e).1) % 2 ^ 64 ≡ (b + e + total rs) % 2 ^ 64
unfolding sizes total
sizes-total [] b e = omega arith
sizes-total (none ∷ rs) b e = sizes-total rs b e
sizes-total (some r ∷ rs) b e =
    let below = if is_memory r.type && ltb r.base 0x100000 then add64 b r.len else b in
    let above = if is_memory r.type && leb 0x100000 r.base then add64 e r.len else e in
    sizes-total rs below above ∙ ground arith

memory_of-perm_d : {rs ss : List Region} → Permᴰ rs ss → memory_of rs ≡ memory_of ss
unfolding memory_of
memory_of-perm_d Permᴰ.nil = refl
memory_of-perm_d (Permᴰ.cons {a = a} {b = b} e d) =
    let x : (if is_memory a.type then a.len else 0) ≡ (if is_memory b.type then b.len else 0) =
      ap (λ x. if is_memory x.type then x.len else 0) e in
    omega (arith, x, memory_of-perm_d d)
memory_of-perm_d (Permᴰ.swap {a = a} {b = b} {a' = c} {b' = d} {l = l} e f) =
    let x : (if is_memory a.type then a.len else 0) ≡ (if is_memory d.type then d.len else 0) =
      ap (λ x. if is_memory x.type then x.len else 0) e in
    let y : (if is_memory b.type then b.len else 0) ≡ (if is_memory c.type then c.len else 0) =
      ap (λ x. if is_memory x.type then x.len else 0) f in
    omega (arith, x, y)
memory_of-perm_d (Permᴰ.trans d e) = memory_of-perm_d d ∙ memory_of-perm_d e

memory_of-perm : {rs ss : List Region} → Perm rs ss → memory_of rs ≡ memory_of ss
memory_of-perm p = ∥∥₁_elim p (ℕ_set _ _) memory_of-perm_d

-- When the entries of the memory map do not overlap, and the last ends below 2^64, the base memory and
-- the memory above that multiboot_read finds are, modulo 2^64, the bytes of the usable and the
-- ACPI-reclaimable entries that it was given: sorting and merging lose none and count none twice.
pub multiboot_read-total :
    (garbage : ℕ → Region) (regions : List Region)
    → AreApart (slots (gather 0 garbage regions) 0 (length regions))
    → ((multiboot_read garbage regions).0 + (multiboot_read garbage regions).1) % 2 ^ 64
      ≡ memory_of (map known regions) % 2 ^ 64
unfolding multiboot_read
multiboot_read-total garbage regions h =
    let list = slots (gather 0 garbage regions) 0 (length regions) in
    let e : total (sanitized list) ≡ memory_of (map known regions) =
      total-sanitized list h ∙ memory_of-perm ((gather-sorted garbage regions).1) in
    sizes-total (sanitized list) 0 0 ∙ ap (λ n. n % 2 ^ 64) (omega (arith, e))
