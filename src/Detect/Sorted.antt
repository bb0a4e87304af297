-- ===== src/Detect/Sorted.antt =====
-- The list that multiboot_read makes: ascending, and the entries that it was given.
use comp530h.Base.{
  ℕ, suc, ◌+◌, ◌≤◌, ◌≡◌, sym, inl, inr, List, [], ◌∷◌, ◌++◌, length, ltb, arith, Bool-cases,
}
use mathlib.Core.Path.{subst}
use mathlib.Core.List.{Perm, perm_middle, append-nil, map}
use mathlib.Core.List.Perm
use comp530h.Detect.{Region, known, place, gather, slots}
use comp530h.Detect.Slots.{insert_region, place-insert_region}

-- Ascending addresses, none below `low`
abbrev pub IsAscending : (low : ℕ) → List Region → Type 0
IsAscending low [] = Unit {0}
IsAscending low (r ∷ rs) = (low ≤ r.base) × IsAscending r.base rs

insert_region-IsAscending :
    (low : ℕ) (r : Region) (rs : List Region)
    → low ≤ r.base
    → IsAscending low rs
    → IsAscending low (insert_region r rs)
unfolding insert_region
insert_region-IsAscending low r [] h s = (h, tt)
insert_region-IsAscending low r (x ∷ xs) h s = elim (Bool-cases (ltb r.base x.base)) [
  | inl above ↦ rw above (h, (ground arith, s.1))
  | inr other ↦ rw other (s.0, insert_region-IsAscending x.base r xs (ground arith) s.1)
]

insert_region-perm : (r : Region) (rs : List Region) → Perm (insert_region r rs) (r ∷ rs)
unfolding insert_region
insert_region-perm r [] = Perm.refl (r ∷ [])
insert_region-perm r (x ∷ xs) = elim (Bool-cases (ltb r.base x.base)) [
  | inl above ↦ rw above (Perm.refl (r ∷ x ∷ xs))
  | inr other ↦ rw other (Perm.trans (Perm.cons x (insert_region-perm r xs)) (Perm.swap r x xs))
]

gather-IsAscending :
    (rs : List Region) (i : ℕ) (list : ℕ → Region)
    → IsAscending 0 (slots list 0 i)
    → IsAscending 0 (slots (gather i list rs) 0 (i + length rs))
unfolding gather
gather-IsAscending [] i list h =
    subst (λ n. IsAscending 0 (slots list 0 n)) {x = i} {y = i + 0} (omega arith) h
gather-IsAscending (r ∷ rs) i list h =
    let inserted : IsAscending 0 (slots (place (known r) i list) 0 (suc i)) =
      subst (IsAscending 0) (sym (place-insert_region (known r) i list))
        (insert_region-IsAscending 0 (known r) (slots list 0 i) (omega arith) h) in
    let next = place (known r) i list in
    subst (λ n. IsAscending 0 (slots (gather (i + 1) next rs) 0 n)) {x = i + 1 + length rs}
      {y = i + suc (length rs)} (omega arith)
      (gather-IsAscending rs (i + 1) next (
        subst (λ n. IsAscending 0 (slots next 0 n)) {x = suc i} {y = i + 1} (omega arith) inserted))

gather-perm :
    (rs : List Region) (i : ℕ) (list : ℕ → Region)
    → Perm (slots (gather i list rs) 0 (i + length rs)) (map known rs ++ slots list 0 i)
unfolding gather
gather-perm [] i list =
    subst (λ n. Perm (slots list 0 n) (slots list 0 i)) {x = i} {y = i + 0} (omega arith)
      (Perm.refl (slots list 0 i))
gather-perm (r ∷ rs) i list =
    let next = place (known r) i list in
    let inserted : Perm (slots next 0 (i + 1)) (known r ∷ slots list 0 i) =
      subst (λ n. Perm (slots next 0 n) (known r ∷ slots list 0 i)) {x = suc i} {y = i + 1}
        (omega arith)
        (subst (λ xs. Perm xs (known r ∷ slots list 0 i))
          (sym (place-insert_region (known r) i list))
          (insert_region-perm (known r) (slots list 0 i))) in
    let rest : Perm (slots (gather (i + 1) next rs) 0 (i + 1 + length rs))
        (map known rs ++ slots next 0 (i + 1)) =
      gather-perm rs (i + 1) next in
    subst
      (λ n. Perm (slots (gather (i + 1) next rs) 0 n) (known r ∷ (map known rs ++ slots list 0 i)))
      {x = i + 1 + length rs} {y = i + suc (length rs)} (omega arith)
      (Perm.trans rest (
        Perm.trans (Perm.append_left (map known rs) inserted)
          (perm_middle (map known rs) (slots list 0 i))))

-- Whatever the array held before, after the first loop of multiboot_read its slots from 0 on hold the
-- entries of the memory map, unknown types made reserved: each as often as it was given, by ascending
-- addresses.
pub gather-sorted :
    (garbage : ℕ → Region) (rs : List Region)
    → IsAscending 0 (slots (gather 0 garbage rs) 0 (length rs))
      × Perm (slots (gather 0 garbage rs) 0 (length rs)) (map known rs)
unfolding slots
gather-sorted garbage rs =
    let e : 0 + length rs ≡ length rs = omega arith in
    (
      subst (λ n. IsAscending 0 (slots (gather 0 garbage rs) 0 n)) e
          (gather-IsAscending rs 0 garbage tt),
      subst (λ n. Perm (slots (gather 0 garbage rs) 0 n) (map known rs)) e
          (subst (Perm (slots (gather 0 garbage rs) 0 (0 + length rs))) (append-nil (map known rs))
            (gather-perm rs 0 garbage)),
    )
