-- ===== src/Boot/Segment.antt =====
-- What readseg has loaded.
use comp530h.Base.{
  ℕ, zero, suc, ◌+◌, ◌-◌, ◌*◌, ◌/◌, ◌%◌, ◌^◌, ◌≤◌, ◌<◌, ◌≡◌, refl, ap, ◌∙◌, bit_or, Option, some,
  List, [], ◌∷◌, ltb, arith, Bool-cases, inl, inr, ◌⊎◌,
}
use comp530h.Base.Bits.{bit_or_step, zero-bit_or}
use comp530h.Bytes.{Memory}
use comp530h.Boot.{sector_ports, readsect, readseg_loop, readseg}

-- Writes with a sector number of 28 bits in the LBA registers give the bytes of this sector of the image.
abbrev pub IsAta : (List (ℕ × ℕ) → ℕ → ℕ) → (ℕ → ℕ) → Type 0
IsAta disk image =
    (a b c d i : ℕ)
    → a < 256
    → b < 256
    → c < 256
    → d < 16
    → disk
        ((0x1F2, 1) ∷ (0x1F3, a) ∷ (0x1F4, b) ∷ (0x1F5, c) ∷ (0x1F6, 0xE0 + d) ∷ (0x1F7, 0x20) ∷ [])
        i
      ≡ image ((a + b * 2 ^ 8 + c * 2 ^ 16 + d * 2 ^ 24) * 512 + i)

lt-cases : (a b : ℕ) → (a < b) ⊎ (b ≤ a)
lt-cases a b = elim (Bool-cases (ltb a b)) [
  | inl t ↦ inl (ground arith)
  | inr f ↦ inr (ground arith)
]

-- The drive's bits are above the four highest of the sector number.
drive_bits : (d : ℕ) → d < 16 → bit_or d 0xE0 % 256 ≡ 0xE0 + d
drive_bits d h =
    let zero_left : bit_or (d / 2 / 2 / 2 / 2) 14 ≡ 14 =
      ap (λ x. bit_or x 14) {x = d / 2 / 2 / 2 / 2} {y = 0} (omega arith) ∙ zero-bit_or 14 in
    omega (
      arith,
      bit_or_step d 0xE0,
      bit_or_step (d / 2) 0x70,
      bit_or_step (d / 2 / 2) 0x38,
      bit_or_step (d / 2 / 2 / 2) 0x1C,
      zero_left,
    )

module _ (disk : List (ℕ × ℕ) → ℕ → ℕ) (image : ℕ → ℕ) (ata : IsAta disk image) where
  sector_bytes : (s i : ℕ) → s < 2 ^ 28 → disk (sector_ports s) i ≡ image (s * 512 + i)
  sector_bytes s i h =
      let bits : bit_or (s / 2 ^ 24) 0xE0 % 256 ≡ 0xE0 + s / 2 ^ 24 =
        drive_bits (s / 2 ^ 24) (omega arith) in
      ap
        (λ last.
          disk
            ((0x1F2, 1)
              ∷ (0x1F3, s % 256)
              ∷ (0x1F4, s / 2 ^ 8 % 256)
              ∷ (0x1F5, s / 2 ^ 16 % 256)
              ∷ (0x1F6, last)
              ∷ (0x1F7, 0x20)
              ∷ [])
            i)
        bits
      ∙ ata (s % 256) (s / 2 ^ 8 % 256) (s / 2 ^ 16 % 256) (s / 2 ^ 24) i (omega arith)
          (omega arith) (omega arith) (omega arith)
      ∙ ap image (omega arith)

  -- Memory below `pa` is kept, and sector `s` and those after it stand from `pa` to `end_pa`.
  abbrev pub Loads : (pa end_pa s : ℕ) → Memory → Option Memory → Type 0
  Loads pa end_pa s m result =
      (loaded : Memory) × (result ≡ some loaded)
      × ((a : ℕ) → a < pa → loaded a ≡ m a)
      × ((a : ℕ) → pa ≤ a → a < end_pa → loaded a ≡ image (s * 512 + (a - pa)))

  -- The bytes that a read of a sector leaves
  readsect_inside :
      (dst s a : ℕ) (m : Memory)
      → s < 2 ^ 28
      → dst ≤ a
      → a < dst + 512
      → readsect disk dst s m a ≡ image (s * 512 + (a - dst))
  unfolding readsect
  readsect_inside dst s a m h l u = let e = sector_bytes s (a - dst) h in ground arith

  readsect_outside : (dst s a : ℕ) (m : Memory) → a < dst → readsect disk dst s m a ≡ m a
  unfolding readsect
  readsect_outside dst s a m h = ground arith

  readseg_loop-more :
      (fuel pa end_pa s : ℕ) (m : Memory)
      → pa < end_pa
      → end_pa + 512 ≤ 2 ^ 32
      → readseg_loop disk (suc fuel) pa end_pa s m
        ≡ readseg_loop disk fuel (pa + 512) end_pa (s + 1) (readsect disk pa s m)
  unfolding readseg_loop
  readseg_loop-more fuel pa end_pa s m h g =
      let e : (pa + 512) % 2 ^ 32 ≡ pa + 512 = omega arith in
      let more : readseg_loop disk (suc fuel) pa end_pa s m
          ≡ readseg_loop disk fuel ((pa + 512) % 2 ^ 32) end_pa (s + 1) (readsect disk pa s m) =
        ground arith in
      more ∙ ap (λ x. readseg_loop disk fuel x end_pa (s + 1) (readsect disk pa s m)) e

  readseg_loop-stops :
      (fuel pa end_pa s : ℕ) (m : Memory)
      → end_pa ≤ pa
      → readseg_loop disk (suc fuel) pa end_pa s m ≡ some m
  unfolding readseg_loop
  readseg_loop-stops fuel pa end_pa s m h = ground arith

  readseg_loop-Loads :
      (fuel pa end_pa s : ℕ) (m : Memory)
      → end_pa + 512 ≤ 2 ^ 32
      → pa < end_pa + 512
      → end_pa + 512 ≤ pa + 512 * fuel
      → s + fuel ≤ 2 ^ 28
      → Loads pa end_pa s m (readseg_loop disk fuel pa end_pa s m)
  readseg_loop-Loads zero pa end_pa s m h b f g = absurd (omega arith)
  readseg_loop-Loads (suc fuel) pa end_pa s m h b f g = elim (lt-cases pa end_pa) [
    | inl l ↦
        let (loaded, e, below, inside) =
          readseg_loop-Loads fuel (pa + 512) end_pa (s + 1) (readsect disk pa s m) h (omega arith)
            (omega arith) (omega arith) in
        (
          loaded,
          readseg_loop-more fuel pa end_pa s m l h ∙ e,
          (λ a k. below a (omega arith) ∙ readsect_outside pa s a m k),
          λ a k u. elim (lt-cases a (pa + 512)) [
            | inl v ↦ below a v ∙ readsect_inside pa s a m (omega arith) k v
            | inr v ↦ inside a v u ∙ ap image (omega arith)
          ],
        )
    | inr l ↦
        (m, readseg_loop-stops fuel pa end_pa s m l, (λ a k. refl), λ a k u. absurd (omega arith))
  ]

  -- On an ATA disk, when `pa` and `offset` lie alike in their sectors and the segment ends below the last
  -- sector of the 32-bit addresses, readseg ends and has stored the `count` bytes from byte 512 + `offset`
  -- of the disk on at `pa`, and has changed nothing below the sector of `pa`.
  pub readseg_lem :
      (fuel pa count offset : ℕ) (m : Memory)
      → pa + count + 512 ≤ 2 ^ 32
      → offset < 2 ^ 32
      → pa % 512 ≡ offset % 512
      → count + 1023 < 512 * fuel
      → fuel ≤ 2 ^ 27
      → (loaded : Memory) × (readseg disk fuel pa count offset m ≡ some loaded)
        × ((a : ℕ) → a < pa - pa % 512 → loaded a ≡ m a)
        × ((i : ℕ) → i < count → loaded (pa + i) ≡ image (512 + offset + i))
  unfolding readseg
  readseg_lem fuel pa count offset m h o al f g =
      let start : ℕ = pa - pa % 512 in
      let e : (pa + count) % 2 ^ 32 ≡ pa + count = omega arith in
      let (loaded, l, below, inside) =
        readseg_loop-Loads fuel start (pa + count) (offset / 512 + 1) m h (omega arith)
          (omega arith) (omega arith) in
      (
        loaded,
        ap (λ x. readseg_loop disk fuel start x (offset / 512 + 1) m) e ∙ l,
        below,
        λ i k. inside (pa + i) (omega arith) (omega arith) ∙ ap image (omega arith),
      )
