-- ===== src/Tests/Loading.antt =====
-- env_create on an image without program headers, and on one with a segment.
use comp530h.Base.{
  ℕ, ◌+◌, ◌-◌, ◌*◌, ◌/◌, ◌%◌, ◌^◌, ◌||◌, update, arith, ◌≡◌, refl, Bool, true, false, none, some,
  [], ◌==◌, if◌then◌else◌,
}
use comp530h.Kernel.{Kernel, K, Outcome, done, panics, free, user_type, for_range, kaddr}
use comp530h.Kernel.Keeps.{by_done, by_panic, choice-Keeps}
use comp530h.Layout.{flag, ppn, ptx, pdx, pdpe_index, pml4_index, round_up, round_down}
use comp530h.Alloc.{page_alloc, page_clear, incref}
use comp530h.Table.{
  page_insert, pml4e_walk, pdpe_walk, pgdir_walk, table_entry, open_entry, pte_slot,
}
use comp530h.Envs.{env_alloc, env_setup_vm, fresh_env, next_env_id}
use comp530h.Bytes.{Memory}
use comp530h.Envs.Load.{read64, load_segment, env_create, load_icode, region_alloc, region_pages}
use comp530h.Envs.Load.Keeps.{IsStore, IsBelowUtop, AreBelowUtop}
use comp530h.Kernel.Ends.{Ends}
use comp530h.Envs.Load.Ready.{IsCreated, env_create-Ends}
use comp530h.Tests.Sample.{env_of}

-- Pages 10 and up are free, and environment 0.
abbrev pub roomy : Kernel
roomy = record {
  npages = 64;
  npages_basemem = 8;
  nextfree = none;
  pages = λ i. record { pp_link = some (i + 1); pp_ref = 0 };
  page_free_list = some 10;
  mem = λ t i. 0;
  boot_pml4e = 6;
  mmio_base = 0;
  user_mem_check_addr = 0;
  envs = λ i. env_of 0 0 free none false;
  env_free_list = some 0;
  curenv = none;
  cpunum = 0;
  cr3 = 24576;
  tlb = [];
}

-- The magic number, the entry 0x800020 and no header
abbrev pub image : Memory
image i =
    if i == 0
    then 0x7F
    else if i == 1
    then 0x45
    else if i == 2
    then 0x4C
    else if i == 3
    then 0x46
    else if i == 24
    then 0x20
    else if i == 26
    then 0x80
    else 0

abbrev pub ignore_store : ℕ → ℕ → K (Unit {0})
ignore_store va byte k = done tt k

abbrev pub is_done : Outcome (Unit {0}) → Bool
is_done (done a k) = true
is_done o = false

env_create_run : is_done (env_create ignore_store image user_type roomy) ≡ true
unfolding env_create env_alloc env_setup_vm page_alloc flag incref load_icode for_range region_alloc
    region_pages round_up fresh_env page_insert pml4e_walk table_entry pdpe_walk pgdir_walk
    page_clear next_env_id kaddr round_down open_entry pte_slot
env_create_run = refl

abbrev pub refs_of : ℕ → Outcome (Unit {0}) → ℕ
refs_of p (done a k) = (k.pages p).pp_ref
refs_of p o = 0

-- The page of the stack, mapped once, has two references: region_alloc and page_insert each count one.
stack_page_run : refs_of 11 (env_create ignore_store image user_type roomy) ≡ 2
unfolding env_create env_alloc env_setup_vm page_alloc flag incref load_icode for_range region_alloc
    region_pages round_up fresh_env page_insert pml4e_walk table_entry pdpe_walk pgdir_walk
    page_clear next_env_id kaddr round_down open_entry pte_slot
stack_page_run = refl

-- The processor's store of a byte through the page map in %cr3; memory is words of eight bytes. A page
-- that is not mapped faults, which the kernel answers with a panic.
abbrev put_byte : (w i byte : ℕ) → ℕ
put_byte w i byte = w - w / 256 ^ i % 256 * 256 ^ i + byte % 256 * 256 ^ i

abbrev leaf : Kernel → (va : ℕ) → ℕ
leaf k va =
    k.mem
      (ppn (k.mem (ppn (k.mem (ppn (k.mem (ppn k.cr3) (pml4_index va))) (pdpe_index va))) (pdx va)))
      (ptx va)

abbrev through_map : ℕ → ℕ → K (Unit {0})
through_map va byte k =
    if leaf k va % 2 == 1
    then done tt (record k {
      mem = update k.mem (ppn (leaf k va)) (
          update (k.mem (ppn (leaf k va))) (va % 4096 / 8)
            (put_byte (k.mem (ppn (leaf k va)) (va % 4096 / 8)) (va % 8) byte));
    })
    else panics

through_map-IsStore : IsStore through_map
through_map-IsStore va byte lt k0 k h = choice-Keeps (leaf k va % 2 == 1) (by_done h) by_panic

-- One program header at byte 64: two bytes of the image, at 200, for the address 0x800000, and a third
-- byte of zeros
abbrev with_segment : Memory
with_segment i =
    if i == 32
    then 64
    else if (i == 56) || (i == 64)
    then 1
    else if i == 72
    then 200
    else if i == 82
    then 0x80
    else if i == 96
    then 2
    else if i == 104
    then 3
    else if i == 200
    then 0xAB
    else if i == 201
    then 0xCD
    else image i

with_segment-AreBelowUtop : AreBelowUtop with_segment
with_segment-AreBelowUtop i lt = at i (omega arith)
  where
    at : (i : ℕ) → i ≡ 0 → IsBelowUtop with_segment (read64 with_segment 32 + i * 56)
    at i e = rw e (λ _. (omega arith, omega arith))

-- The bytes are in the frame of the segment's page.
abbrev word_at : (va : ℕ) → Outcome (Unit {0}) → ℕ
word_at va (done a k) = k.mem (ppn (leaf (record k { cr3 = (k.envs 0).env_cr3 }) va)) 0
word_at va o = 0

segment_run : word_at 0x800000 (env_create through_map with_segment user_type roomy) ≡ 0xCDAB
unfolding env_create env_alloc env_setup_vm page_alloc flag incref load_icode load_segment for_range
    region_alloc region_pages round_up fresh_env page_insert pml4e_walk table_entry pdpe_walk
    pgdir_walk page_clear next_env_id kaddr round_down open_entry pte_slot
segment_run = refl

env_create-Ends_example :
    Ends (IsCreated with_segment) (env_create through_map with_segment user_type roomy)
env_create-Ends_example =
    env_create-Ends through_map with_segment through_map-IsStore with_segment-AreBelowUtop user_type
      roomy
