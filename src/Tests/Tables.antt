-- ===== src/Tests/Tables.antt =====
-- The page tables of the sample.
use comp530h.Base.{◌+◌, ◌*◌, ◌<◌, ◌≡◌, refl, false, some, [], ◌∷◌, arith, ◌==◌, ◌&&◌, if◌then◌else◌}
use comp530h.Layout.{flag, ulim, round_up, round_down}
use comp530h.Kernel.{Kernel, done, ok, kaddr}
use comp530h.Table.{
  pml4e_walk, page_lookup, page_insert, in_use, user_mem_check, user_mem_pages, check_entry,
  pdpe_walk, pgdir_walk, pte_slot, open_entry,
}
use comp530h.Table.Route.{slot, opened, pml4e_walk-route, IsRoute}
use comp530h.Table.Insert.{leaf_entry, page_lookup-page_insert, page_insert-replaces}
use comp530h.Table.Check.{user_mem_check-below}
use comp530h.Tests.Sample.{
  slots, sample, sample-IsRoute, sample-IsRoute_next, sample-Passes, sample-IsHeld, present, absent,
}

pml4e_walk-route_example :
    pml4e_walk 1 0x5000 false sample ≡ done (some (slot 4 5)) (opened 2 0 sample)
pml4e_walk-route_example =
    pml4e_walk-route sample 1 0x5000 2 3 4 false sample-IsRoute (sample-Passes false)

page_lookup-page_insert_example :
    (k' k'' : Kernel) × (page_insert 1 12 0x6000 7 sample ≡ done (ok 0) k')
    × (page_lookup 1 0x6000 k' ≡ done (some (12, slot 4 6)) k'')
    × (k'.mem 4 6 ≡ leaf_entry 12 7)
    × ((k'.pages 12).pp_ref ≡ 0 + 1)
page_lookup-page_insert_example =
    page_lookup-page_insert sample 1 0x6000 2 3 4 12 7 sample-IsRoute_next (sample-Passes false)
      absent (omega arith) (omega arith) (omega arith)

page_insert-replaces_example :
    (k' : Kernel) × (page_insert 1 12 0x5000 7 sample ≡ done (ok 0) k')
    × (k'.mem 4 5 ≡ leaf_entry 12 7)
    × ((k'.pages 5).pp_ref + 1 ≡ 1)
    × ((k'.pages 12).pp_ref ≡ 0 + 1)
    × (k'.page_free_list ≡ some 5)
    × (k'.tlb ≡ 0x5000 ∷ [])
unfolding in_use
page_insert-replaces_example =
    page_insert-replaces sample 1 0x5000 2 3 4 12 7 sample-IsRoute (sample-Passes false) present
      (omega arith) sample-IsHeld (omega arith)

-- The same tables under entry 1 of page 8, whose entry 0 is zero.
abbrev high : Kernel
high = record sample { mem = λ t i. if (t == 8) && (i == 1) then 2 * 4096 + 7 else sample.mem t i }

high-IsRoute : IsRoute high 8 0x8000005000 2 3 4
unfolding flag
high-IsRoute = record {
  small = omega arith;
  top = record { present = refl; frame = refl; in_range = omega arith };
  middle = record { present = refl; frame = refl; in_range = omega arith };
  bottom = record { present = refl; frame = refl; in_range = omega arith };
  apart = (omega arith, omega arith, omega arith, omega arith, omega arith, omega arith);
}

readable : user_mem_check (slots 0) 0x5000 10 4 sample ≡ done (ok 0) (opened 2 0 sample)
unfolding user_mem_check user_mem_pages check_entry round_up round_down pml4e_walk pdpe_walk
    pgdir_walk pte_slot kaddr flag open_entry
readable = refl

user_mem_check-below_example : 0x5009 < ulim
user_mem_check-below_example =
    user_mem_check-below (slots 0) 0x5000 10 4 sample (opened 2 0 sample) 0x5009 (omega arith)
      readable (omega arith) (omega arith)
