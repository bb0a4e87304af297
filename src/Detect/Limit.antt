-- ===== src/Detect/Limit.antt =====
-- How much memory i386_detect_memory lets the kernel use.
use comp530h.Base.{ℕ, ◌+◌, ◌-◌, ◌*◌, ◌≤◌, ◌≡◌, Option, some, List, arith}
use comp530h.Layout.{pgsize, ulim, upages, uvpt, kernbase}
use comp530h.Detect.{Region, i386_detect_memory, sizeof_page_info}

-- Whatever the boot loader and the non-volatile memory say, when i386_detect_memory finds base memory,
-- the array of a struct PageInfo for each page fits between UPAGES and ULIM, and the pages mapped at
-- KERNBASE end at UVPT or below.
pub i386_detect_memory-fits :
    (nvram : ℕ → ℕ) (garbage : ℕ → Region) (mbinfo : Option (List Region)) (npages basemem : ℕ)
    → i386_detect_memory nvram garbage mbinfo ≡ some (npages, basemem)
    → (npages * sizeof_page_info ≤ ulim - upages) × (kernbase + npages * pgsize ≤ uvpt)
unfolding i386_detect_memory
i386_detect_memory-fits nvram garbage mbinfo npages basemem h = ground arith
