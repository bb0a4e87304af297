-- ===== src/Detect/Slots.antt =====
-- The array of the memory map as a list: what a round of multiboot_read puts in.
use comp530h.Base.{
  ℕ, zero, suc, ◌+◌, ◌-◌, ◌≤◌, ◌<◌, ◌≡◌, refl, sym, ap, ◌∙◌, true, false, ◌&&◌, inl, inr, List, [],
  ◌∷◌, ltb, leb, ◌==◌, if◌then◌else◌, update, update_self, update_ne, arith, Bool-cases,
}
use mathlib.Core.Path.{subst}
use comp530h.Detect.{Region, find_slot, shift, place, slots}

-- Before the first entry with a larger address, or at the end
unfoldable pub insert_region : Region → List Region → List Region
insert_region r [] = r ∷ []
insert_region r (x ∷ xs) =
    let rest = insert_region r xs in if ltb r.base x.base then r ∷ x ∷ xs else x ∷ rest

find_slot_bounds :
    (r : Region) (list : ℕ → Region) (n j : ℕ)
    → (j ≤ find_slot r list n j) × (find_slot r list n j ≤ j + n)
unfolding find_slot
find_slot_bounds r list zero j = omega arith
find_slot_bounds r list (suc n) j = ground (arith, find_slot_bounds r list n (j + 1))

shift_lem :
    (n last : ℕ) (list : ℕ → Region) (k : ℕ)
    → n ≤ last
    → shift n last list k ≡ (if ltb (last - n) k && leb k last then list (k - 1) else list k)
unfolding shift
shift_lem zero last list k h = ground arith
shift_lem (suc n) last list k h =
    ground (arith, shift_lem n (last - 1) (update list last (list (last - 1))) k)

slots-ap :
    (f g : ℕ → Region) (s t n : ℕ)
    → ((i : ℕ) → i < n → f (s + i) ≡ g (t + i))
    → slots f s n ≡ slots g t n
unfolding slots
slots-ap f g s t zero h = refl
slots-ap f g s t (suc n) h =
    let e : f s ≡ g t =
      ap f {x = s} {y = s + 0} (omega arith)
      ∙ h 0 (omega arith)
      ∙ ap g {x = t + 0} {y = t} (omega arith) in
    let rest : slots f (s + 1) n ≡ slots g (t + 1) n = slots-ap f g (s + 1) (t + 1) n (λ i l.
      ap f {x = s + 1 + i} {y = s + suc i} (omega arith)
      ∙ h (suc i) (omega arith)
      ∙ ap g {x = t + suc i} {y = t + 1 + i} (omega arith)) in
    cc (e, rest)

-- The array after the round, with the slot found at `j`
placed : Region → (i j : ℕ) → (ℕ → Region) → ℕ → Region
placed r i j list = update (if j == i then list else shift (i + 1 - j) (i + 1) list) j r

placed_self : (r : Region) (i j : ℕ) (list : ℕ → Region) → placed r i j list j ≡ r
unfolding placed
placed_self r i j list = update_self (if j == i then list else shift (i + 1 - j) (i + 1) list) j r

placed_before :
    (r : Region) (i j : ℕ) (list : ℕ → Region) (k : ℕ)
    → k < j
    → j ≤ i
    → placed r i j list k ≡ list k
unfolding placed
placed_before r i j list k h l = ground (
  arith,
  update_ne (if j == i then list else shift (i + 1 - j) (i + 1) list) j k r,
  shift_lem (i + 1 - j) (i + 1) list k,
)

placed_after :
    (r : Region) (i j : ℕ) (list : ℕ → Region) (k : ℕ)
    → j ≤ k
    → k < i
    → placed r i j list (k + 1) ≡ list k
unfolding placed
placed_after r i j list k h l = ground (
  arith,
  update_ne (if j == i then list else shift (i + 1 - j) (i + 1) list) j (k + 1) r,
  shift_lem (i + 1 - j) (i + 1) list (k + 1),
)

module _ (r : Region) (list : ℕ → Region) (n s : ℕ) where
  find_slot-above : ltb r.base (list s).base ≡ true → find_slot r list (suc n) s ≡ s
  unfolding find_slot
  find_slot-above h = ground arith

  find_slot-other :
      ltb r.base (list s).base ≡ false → find_slot r list (suc n) s ≡ find_slot r list n (s + 1)
  unfolding find_slot
  find_slot-other h = ground arith

module _ (r x : Region) (xs : List Region) where
  insert_region-above : ltb r.base x.base ≡ true → insert_region r (x ∷ xs) ≡ r ∷ x ∷ xs
  unfolding insert_region
  insert_region-above h = ground arith

  insert_region-other :
      ltb r.base x.base ≡ false → insert_region r (x ∷ xs) ≡ x ∷ insert_region r xs
  unfolding insert_region
  insert_region-other h = ground arith

-- The slots behind the place of the new entry hold what stood there.
slots-placed :
    (r : Region) (i s n : ℕ) (list : ℕ → Region)
    → s + n ≡ i
    → slots (placed r i s list) s (suc n) ≡ r ∷ slots list s n
unfolding slots
slots-placed r i s n list e =
    let rest : slots (placed r i s list) (s + 1) n ≡ slots list s n =
      slots-ap (placed r i s list) list (s + 1) s n (λ k l.
        ap (placed r i s list) {x = s + 1 + k} {y = s + k + 1} (omega arith)
        ∙ placed_after r i s list (s + k) (omega arith) (omega arith)) in
    cc (placed_self r i s list, rest)

-- From slot `s` on, with `n` slots left to search
placed-insert_region :
    (r : Region) (i s n j : ℕ) (list : ℕ → Region)
    → s + n ≡ i
    → find_slot r list n s ≡ j
    → slots (placed r i j list) s (suc n) ≡ insert_region r (slots list s n)
unfolding find_slot insert_region slots
placed-insert_region r i s zero j list e f =
    subst (λ x. slots (placed r i x list) s 1 ≡ r ∷ []) f (slots-placed r i s zero list e)
placed-insert_region r i s (suc n) j list e f = elim (Bool-cases (ltb r.base (list s).base)) [
  | inl above ↦
      let g : s ≡ j = sym (find_slot-above r list n s above) ∙ f in
      subst
        (λ x. slots (placed r i x list) s (suc (suc n)) ≡ insert_region r (slots list s (suc n))) g
        (slots-placed r i s (suc n) list e
          ∙ sym (insert_region-above r (list s) (slots list (s + 1) n) above))
  | inr other ↦
      let g : find_slot r list n (s + 1) ≡ j = sym (find_slot-other r list n s other) ∙ f in
      let before : placed r i j list s ≡ list s =
        placed_before r i j list s (omega (arith, find_slot_bounds r list n (s + 1)))
          (omega (arith, find_slot_bounds r list n (s + 1))) in
      let rest : slots (placed r i j list) (s + 1) (suc n)
          ≡ insert_region r (slots list (s + 1) n) =
        placed-insert_region r i (s + 1) n j list (omega arith) g in
      ap (λ x. x ∷ slots (placed r i j list) (s + 1) (suc n)) before
      ∙ ap (λ xs. list s ∷ xs) rest
      ∙ sym (insert_region-other r (list s) (slots list (s + 1) n) other)
]

-- A round of multiboot_read inserts the entry behind those with smaller or equal addresses.
pub place-insert_region :
    (r : Region) (i : ℕ) (list : ℕ → Region)
    → slots (place r i list) 0 (suc i) ≡ insert_region r (slots list 0 i)
unfolding place placed
place-insert_region r i list =
    placed-insert_region r i 0 i (find_slot r list i 0) list (omega arith) refl
