-- ===== src/Tests/Memory.antt =====
-- The memory map of a machine with 640 KB and two adjacent pieces above 1 MB.
use comp530h.Base.{ℕ, ◌+◌, ◌-◌, ◌*◌, ◌%◌, ◌^◌, ◌≤◌, ◌≡◌, refl, some, List, [], ◌∷◌, arith}
use mathlib.Core.List.{Perm, map}
use comp530h.Layout.{pgsize, ulim, upages, uvpt, kernbase}
use comp530h.Detect.{
  Region, known, find_slot, shift, place, gather, slots, sanitize, sizes, restrictive_type,
  multiboot_read, i386_detect_memory, npages_ext, nvram_read, sizeof_page_info,
}
use comp530h.Detect.Sorted.{IsAscending, gather-sorted}
use comp530h.Detect.Total.{AreApart, memory_of, multiboot_read-total}
use comp530h.Detect.Limit.{i386_detect_memory-fits}

abbrev regions : List Region
regions =
    record { base = 0x200000; len = 0x100000; type = 1 }
    ∷ record { base = 0; len = 0xA0000; type = 1 }
    ∷ record { base = 0x100000; len = 0x100000; type = 1 }
    ∷ record { base = 0xF0000; len = 0x10000; type = 9 }
    ∷ []

abbrev empty : ℕ → Region
empty i = record { base = 0; len = 0; type = 0 }

abbrev no_nvram : ℕ → ℕ
no_nvram r = 0

multiboot_read_run : multiboot_read empty regions ≡ (0xA0000, 0x200000)
unfolding multiboot_read gather place find_slot shift slots sanitize sizes restrictive_type
multiboot_read_run = refl

regions-AreApart : AreApart (slots (gather 0 empty regions) 0 4)
unfolding gather place find_slot shift slots
regions-AreApart = omega arith

gather-sorted_example :
    IsAscending 0 (slots (gather 0 empty regions) 0 4)
    × Perm (slots (gather 0 empty regions) 0 4) (map known regions)
gather-sorted_example = gather-sorted empty regions

multiboot_read-total_example :
    ((multiboot_read empty regions).0 + (multiboot_read empty regions).1) % 2 ^ 64
    ≡ memory_of (map known regions) % 2 ^ 64
multiboot_read-total_example = multiboot_read-total empty regions regions-AreApart

detected : i386_detect_memory no_nvram empty (some regions) ≡ some (768, 160)
unfolding i386_detect_memory npages_ext nvram_read multiboot_read gather place find_slot shift slots
    sanitize sizes restrictive_type
detected = refl

i386_detect_memory-fits_example :
    (768 * sizeof_page_info ≤ ulim - upages) × (kernbase + 768 * pgsize ≤ uvpt)
i386_detect_memory-fits_example =
    i386_detect_memory-fits no_nvram empty (some regions) 768 160 detected
