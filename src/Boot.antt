-- ===== src/Boot.antt =====
-- boot/main.c: the boot loader reads the kernel from the disk.
--
-- The disk is a parameter: `disk ports i` is byte `i` of what it gives after the writes `ports` to its
-- registers. waitdisk, which reads the status until the disk is ready, is left out. Memory is that of
-- the C library: the byte at each 32-bit address.
pub mod Segment
use comp530h.Base.{
  ℕ, zero, suc, ◌+◌, ◌-◌, ◌*◌, ◌/◌, ◌%◌, ◌^◌, bit_or, not, ◌&&◌, Option, none, some, List, [], ◌∷◌,
  ltb, leb, ◌==◌, if◌then◌else◌,
}
use comp530h.Bytes.{Memory}
use comp530h.Mp.{read16, read32}

abbrev pub sectsize : ℕ
sectsize = 512

-- ELFHDR
abbrev pub elfhdr : ℕ
elfhdr = 0x10000

abbrev pub elf_magic : ℕ
elf_magic = 0x464C457F

infixl 5 ◌>>=◌
abbrev pub ◌>>=◌ : {A B : Type 0} → Option A → (A → Option B) → Option B
none >>= f = none
some a >>= f = f a

-- The writes of readsect: the port and the byte
abbrev pub sector_ports : (offset : ℕ) → List (ℕ × ℕ)
sector_ports offset =
    (0x1F2, 1)
    ∷ (0x1F3, offset % 256)
    ∷ (0x1F4, offset / 2 ^ 8 % 256)
    ∷ (0x1F5, offset / 2 ^ 16 % 256)
    ∷ (0x1F6, bit_or (offset / 2 ^ 24) 0xE0 % 256)
    ∷ (0x1F7, 0x20)
    ∷ []

pub data Booted : Type 0 where
  jumped : (entry : ℕ) → Memory → Booted
  bad : Memory → Booted

module _ (disk : List (ℕ × ℕ) → ℕ → ℕ) where
  unfoldable pub readsect : (dst offset : ℕ) → Memory → Memory
  readsect dst offset m =
      λ a. if leb dst a && ltb a (dst + sectsize) then disk (sector_ports offset) (a - dst) else m a

  -- At most `fuel` sectors; none when they do not suffice.
  unfoldable pub readseg_loop : (fuel pa end_pa offset : ℕ) → Memory → Option Memory
  readseg_loop zero pa end_pa offset m = none
  readseg_loop (suc fuel) pa end_pa offset m =
      let rest =
        readseg_loop fuel ((pa + sectsize) % 2 ^ 32) end_pa (offset + 1) (readsect pa offset m) in
      if ltb pa end_pa then rest else some m

  unfoldable pub readseg : (fuel pa count offset : ℕ) → Memory → Option Memory
  readseg fuel pa count offset m =
      readseg_loop fuel (pa - pa % sectsize) ((pa + count) % 2 ^ 32) (offset / sectsize + 1) m

  -- The `n` program headers from `ph` on; each has 56 bytes.
  unfoldable pub load_segments : (fuel n ph : ℕ) → Memory → Option Memory
  load_segments fuel zero ph m = some m
  load_segments fuel (suc n) ph m = do
    loaded ← readseg fuel (read32 m (ph + 24)) (read32 m (ph + 40)) (read32 m (ph + 8)) m
    load_segments fuel n (ph + 56) loaded

  unfoldable pub bootmain : (fuel : ℕ) → Memory → Option Booted
  bootmain fuel m = do
    header ← readseg fuel elfhdr (sectsize * 8) 0 m
    if not (read32 header elfhdr == elf_magic) then some (bad header) else (do
      loaded ←
          load_segments fuel (read16 header (elfhdr + 56))
            ((elfhdr + read32 header (elfhdr + 32)) % 2 ^ 32) header
      some (jumped (read32 loaded (elfhdr + 24)) loaded))
