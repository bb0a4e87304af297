-- ===== src/Tests/Ending.antt =====
-- The end of the environment that env_create makes, and x64_vm_init.
use comp530h.Base.{ℕ, ◌+◌, ◌≡◌, refl, true, none, some}
use comp530h.Layout.{flag, round_up, round_down, pgaddr, kernbase}
use comp530h.Kernel.{Kernel, user_type, for_range, kaddr, pure, ◌>>◌}
use comp530h.Alloc.{
  page_alloc, page_clear, incref, page_decref, page_free, pa2page, boot_alloc, first_free,
  page_init,
}
use comp530h.Table.{
  page_insert, pml4e_walk, pdpe_walk, pgdir_walk, table_entry, open_entry, pte_slot, page_remove,
  page_lookup, tlb_invalidate, in_use, boot_map_region,
}
use comp530h.Envs.{env_alloc, env_setup_vm, fresh_env, next_env_id}
use comp530h.Envs.Load.{env_create, load_icode, region_alloc, region_pages}
use comp530h.Reap.{pdeno_limit, env_free, env_destroy}
use comp530h.Vm.{kstack_base, x64_vm_init, paddr, map_kstack, mem_init_mp}
use comp530h.Tests.Loading.{roomy, image, ignore_store, is_done, refs_of}

env_destroy_run : is_done ((env_create ignore_store image user_type >> env_destroy 0) roomy) ≡ true
unfolding env_create env_alloc env_setup_vm page_alloc flag incref load_icode for_range region_alloc
    region_pages round_up fresh_env page_insert pml4e_walk table_entry pdpe_walk pgdir_walk
    page_clear next_env_id kaddr round_down open_entry pte_slot env_free env_destroy page_remove
    page_lookup page_decref page_free pa2page tlb_invalidate in_use pgaddr
env_destroy_run = refl

-- In the fourth directory env_free stops at entry PDX(UTOP), which is 4. The stack is behind it, and its
-- page keeps both references.
directories_run : pdeno_limit 3 ≡ 4
directories_run = refl

stack_page_left : refs_of 11 ((env_create ignore_store image user_type >> env_destroy 0) roomy) ≡ 2
unfolding env_create env_alloc env_setup_vm page_alloc flag incref load_icode for_range region_alloc
    region_pages round_up fresh_env page_insert pml4e_walk table_entry pdpe_walk pgdir_walk
    page_clear next_env_id kaddr round_down open_entry pte_slot env_free env_destroy page_remove
    page_lookup page_decref page_free pa2page tlb_invalidate in_use pgaddr
stack_page_left = refl

abbrev bare : Kernel
bare = record roomy { page_free_list = none; pages = λ i. record { pp_link = none; pp_ref = 0 } }

abbrev stacks_at : ℕ → ℕ
stacks_at i = kernbase + 0x2000

x64_vm_init_run :
    is_done (
      x64_vm_init stacks_at
        (kernbase + 0x10000)
        (kernbase + 0x1000)
        16
        bare.pages
        bare.envs
        (pure tt)
        (some (96, 8))
        bare)
    ≡ true
unfolding x64_vm_init boot_alloc first_free paddr page_init boot_map_region mem_init_mp map_kstack
    kstack_base page_alloc flag incref for_range round_up pml4e_walk table_entry pdpe_walk
    pgdir_walk page_clear kaddr round_down open_entry pte_slot
x64_vm_init_run = refl
