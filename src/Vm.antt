-- ===== src/Vm.antt =====
-- kern/pmap.c, x64_vm_init and mem_init_mp: the kernel's page map at boot.
--
-- Parameters are what the linker places, `end`, `bootstack` and `percpu_kstacks`, the size of struct Env, and
-- what the memory holds that boot_alloc gives for the arrays `pages` and `envs`. The self-tests that
-- x64_vm_init calls (check_page_free_list, check_page_alloc, page_check and check_boot_pml4e) are a
-- parameter too: the first puts the free list in another order and fills free pages with 0x97.
pub mod Stacks
use comp530h.Base.{ℕ, ◌+◌, ◌-◌, ◌*◌, ◌%◌, ◌^◌, Option, none, some, ltb, if◌then◌else◌, update}
use comp530h.Layout.{pgsize, ptsize, ppn, kernbase, kstacktop, upages, uenvs, pte_w, pte_addr}
use comp530h.Kernel.Env.{Env}
use comp530h.Kernel.{PageInfo, K, done, ◌>>=◌, ◌>>◌, get, panic, kaddr, for_range}
use comp530h.Alloc.{boot_alloc, page_init}
use comp530h.Table.{boot_map_region}
use comp530h.Envs.{nenv}
use comp530h.Detect.{sizeof_page_info}

abbrev pub kstksize : ℕ
kstksize = 16 * pgsize

abbrev pub kstkgap : ℕ
kstkgap = 8 * pgsize

-- NCPU
abbrev pub cpu_limit : ℕ
cpu_limit = 8

-- PADDR(kva) panics below KERNBASE.
unfoldable pub paddr : ℕ → K ℕ
paddr kva k = if ltb kva kernbase then panic k else done (kva - kernbase) k

-- kstacktop_i in the source: the lowest address of the stack of CPU `i`
unfoldable pub kstack_base : ℕ → ℕ
kstack_base i = kstacktop - i * (kstksize + kstkgap) - kstksize

module _ (percpu_kstacks : ℕ → ℕ) where
  -- One round of the loop
  unfoldable pub map_kstack : ℕ → K (Unit {0})
  map_kstack i = do
    pa ← paddr (percpu_kstacks i)
    k ← get
    boot_map_region k.boot_pml4e (kstack_base i) kstksize pa pte_w

  unfoldable pub mem_init_mp : K (Unit {0})
  mem_init_mp = for_range cpu_limit 0 map_kstack

  module _ (end bootstack sizeof_env : ℕ) (old_pages : ℕ → PageInfo) (old_envs : ℕ → Env)
      (self_tests : K (Unit {0})) where
    -- `detected` is what i386_detect_memory finds, none where its assertion fails.
    unfoldable pub x64_vm_init : (detected : Option (ℕ × ℕ)) → K (Unit {0})
    x64_vm_init none = panic
    x64_vm_init (some (n, basemem)) = do
      (λ k. done tt (record k { npages = n; npages_basemem = basemem }))
      pml4e ← boot_alloc end pgsize
      boot_cr3 ← paddr pml4e
      (λ k.
          done tt
            (record k { mem = update k.mem (ppn boot_cr3) (λ _. 0); boot_pml4e = ppn boot_cr3 }))
      pages ← boot_alloc end (n * sizeof_page_info % 2 ^ 32)
      (λ k. done tt (record k { pages = old_pages }))
      envs ← boot_alloc end (nenv * sizeof_env % 2 ^ 32)
      (λ k. done tt (record k { envs = old_envs }))
      page_init end
      pages_pa ← paddr pages
      boot_map_region (ppn boot_cr3) upages ptsize pages_pa 5
      envs_pa ← paddr envs
      boot_map_region (ppn boot_cr3) uenvs ptsize envs_pa 5
      stack_pa ← paddr bootstack
      boot_map_region (ppn boot_cr3) (kstacktop - kstksize) kstksize stack_pa pte_w
      boot_map_region (ppn boot_cr3) kernbase (n * pgsize % 2 ^ 64) 0 pte_w
      mem_init_mp
      self_tests
      k ← get
      pdpe ← kaddr (pte_addr (k.mem (ppn boot_cr3) 1))
      k ← get
      kaddr (pte_addr (k.mem (ppn pdpe) 0))
      (λ k. done tt (record k { cr3 = boot_cr3 }))
