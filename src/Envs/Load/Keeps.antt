-- ===== src/Envs/Load/Keeps.antt =====
-- Loading a segment leaves the environments and %cr3 alone.
use comp530h.Base.{
  ℕ, zero, suc, ◌+◌, ◌-◌, ◌/◌, not, ◌==◌, ◌*◌, ◌≤◌, ◌<◌, ◌≡◌, false, none, some, arith,
}
use comp530h.Layout.{utop, pgsize, round_up, round_down, add64, sub64}
use comp530h.Kernel.{Kernel, K, ok, err}
use comp530h.Kernel.Keeps.{
  Same, Keeps, by_done, by_panic, then-Keeps, when-Keeps, deref-Keeps, bounded-Keeps,
  known_choice-Keeps,
}
use comp530h.Bytes.{Memory}
use comp530h.Mp.{read16, read32}
use comp530h.Alloc.{alloc_zero, incref}
use comp530h.Table.Keeps.{page_alloc-Keeps, page_insert-Keeps}
use comp530h.Envs.Load.{read64, region_pages, region_alloc, load_segment}

not-false : (n : ℕ) → not (n == 1) ≡ false → n ≡ 1
not-false n h = ground arith

region_pages-Keeps :
    (e n start : ℕ) {k0 : Kernel} (k : Kernel) → Same k0 k → Keeps k0 (region_pages e n start k)
unfolding region_pages incref
region_pages-Keeps e zero start k h = by_done h
region_pages-Keeps e (suc n) start k h = then-Keeps (page_alloc-Keeps alloc_zero k h) (elim [
  | none ↦ λ k h. by_panic
  | some pp ↦ λ k h. then-Keeps (deref-Keeps (k.envs e).env_pml4e _ h) λ table k h.
      then-Keeps (page_insert-Keeps table pp start 7 k h) (elim [
        | err c ↦ λ k h. by_panic
        | ok v ↦ λ k h.
            then-Keeps (when-Keeps (not (v == 0)) _ k h by_panic)
              λ _ k h. region_pages-Keeps e n (start + pgsize) k h
      ])
])

pub region_alloc-Keeps :
    (e va len : ℕ) {k0 : Kernel} (k : Kernel) → Same k0 k → Keeps k0 (region_alloc e va len k)
unfolding region_alloc
region_alloc-Keeps e va len k h =
    region_pages-Keeps e ((round_up (add64 va len) pgsize - round_down va pgsize) / pgsize)
      (round_down va pgsize) k h

-- A store below UTOP changes no environment and not %cr3; it may fault.
abbrev pub IsStore : (ℕ → ℕ → K (Unit {0})) → Type 0
IsStore write_user =
    (va byte : ℕ) → va < utop → (k0 k : Kernel) → Same k0 k → Keeps k0 (write_user va byte k)

-- The program header at byte `ph`, if it is to be loaded, fills memory below UTOP, with no more from the
-- image than it takes in all.
abbrev pub IsBelowUtop : Memory → (ph : ℕ) → Type 0
IsBelowUtop binary ph =
    read32 binary ph ≡ 1
    → (read64 binary (ph + 16) + read64 binary (ph + 40) ≤ utop)
      × (read64 binary (ph + 32) ≤ read64 binary (ph + 40))

-- Each program header of the image
abbrev pub AreBelowUtop : Memory → Type 0
AreBelowUtop binary =
    (i : ℕ) → i < read16 binary 56 → IsBelowUtop binary (read64 binary 32 + i * 56)

module _ (write_user : ℕ → ℕ → K (Unit {0})) (binary : Memory) (is_store : IsStore write_user) where
  pub load_segment-Keeps :
      (e ph : ℕ) {k0 : Kernel} (k : Kernel)
      → IsBelowUtop binary ph
      → Same k0 k
      → Keeps k0 (load_segment write_user binary e ph k)
  unfolding load_segment
  load_segment-Keeps e ph {k0} k below h =
      known_choice-Keeps (not (read32 binary ph == 1)) (λ _. by_done h)
        λ load.
          let (top, size) = below (not-false (read32 binary ph) load) in
          let va = read64 binary (ph + 16) in
          let filesz = read64 binary (ph + 32) in
          let memsz = read64 binary (ph + 40) in
          then-Keeps (region_alloc-Keeps e va memsz k h) λ _ k h.
            then-Keeps
              (bounded-Keeps filesz 0 _ k
                (λ j l u k h. is_store (add64 va j) _ (omega arith) k0 k h) h)
              λ _ k h.
                bounded-Keeps (sub64 memsz filesz) 0 _ k
                  (λ j l u k h. is_store (add64 (add64 va filesz) j) _ (omega arith) k0 k h) h
