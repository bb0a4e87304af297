-- ===== src/Tests/Pages.antt =====
-- The page allocator and the address macros at concrete pages and addresses.
use comp530h.Base.{◌+◌, ◌≡◌, refl, none, some, [], ◌∷◌, arith, update}
use comp530h.Kernel.{Kernel, done}
use comp530h.Alloc.{page_init, page_alloc, page_decref, alloc_zero, first_free}
use comp530h.Alloc.Chain.{IsFree}
use comp530h.Alloc.Init.{page_init_lem}
use comp530h.Alloc.Free.{dropped, page_alloc_lem, page_decref_lem}
use comp530h.Tests.Sample.{sample, page_of, memory, sample-IsFree, sample-IsHeld}

-- Before `page_init`.
abbrev blank : Kernel
blank = record sample { page_free_list = none }

-- The kernel's data ends in page 8, and page 7 holds the code of MPENTRY_PADDR.
page_init_lem_example :
    (k' : Kernel) × (page_init 0 blank ≡ done tt k')
    × IsFree k' (1 ∷ 2 ∷ 3 ∷ 10 ∷ 11 ∷ 12 ∷ 13 ∷ 14 ∷ 15 ∷ [])
    × ((k'.pages 10).pp_ref ≡ 0)
unfolding first_free
page_init_lem_example = page_init_lem 0 blank 10 refl (omega arith) (omega arith)

page_alloc_lem_example :
    (k' : Kernel) × (page_alloc alloc_zero sample ≡ done (some 10) k')
    × IsFree k' (11 ∷ [])
    × (k'.pages ≡ update page_of 10 (record { pp_link = none; pp_ref = 0 }))
    × (k'.mem ≡ update memory 10 (λ _. 0))
page_alloc_lem_example = page_alloc_lem sample (10 ∷ 11 ∷ []) sample-IsFree

page_decref_lem_example :
    (page_decref 5 sample ≡ done tt (dropped 5 sample))
    × (((dropped 5 sample).pages 5).pp_ref + 1 ≡ 1)
    × IsFree (dropped 5 sample) (5 ∷ 10 ∷ 11 ∷ [])
page_decref_lem_example = page_decref_lem sample 5 (10 ∷ 11 ∷ []) sample-IsFree refl sample-IsHeld
