-- ===== src/Alloc.antt =====
-- kern/pmap.c, the physical page allocator: `boot_alloc`, `page_init`, `page_alloc`, `page_free`,
-- `page_decref`, and the conversions of kern/pmap.h. A page is its index in `pages`.
pub mod Chain
pub mod Init
pub mod Free
pub mod Double
use comp530h.Base.{
  ℕ, zero, suc, ◌+◌, ◌*◌, ◌/◌, ◌%◌, Bool, true, false, ◌||◌, not, Option, none, some, update, ltb,
  leb, ◌==◌, if◌then◌else◌,
}
use comp530h.Layout.{pgsize, ppn, flag, round_up, add64, sub64, kernbase, mpentry_paddr}
use comp530h.Kernel.{Kernel, K, done, pure, ◌>>=◌, ◌>>◌, when, panic, set_page, kaddr}

-- ALLOC_ZERO
abbrev pub alloc_zero : ℕ
alloc_zero = 1

-- page2pa: `pages` has fewer than 2 ^ 52 elements, so that the shift loses no bit.
abbrev pub page2pa : ℕ → ℕ
page2pa p = p * 4096

-- pa2page panics unless the page number is below `npages`.
unfoldable pub pa2page : ℕ → K ℕ
pa2page pa k = if leb k.npages (ppn pa) then panic k else done (ppn pa) k

-- `nextfree` as `boot_alloc` finds it: set on the first call. `end` is the linker's symbol behind
-- the kernel's data.
unfoldable pub first_free : ℕ → Kernel → ℕ
first_free end k = elim k.nextfree [ none ↦ round_up end pgsize | some v ↦ v ]

-- `n` is a uint32_t.
unfoldable pub boot_alloc : ℕ → ℕ → K ℕ
boot_alloc end n k =
    let first = first_free end k in
    let next = if ltb 0 n then round_up (add64 first n) pgsize else first in
    done first (record k { nextfree = some next })

-- memset(page2kva(pp), 0, PGSIZE)
unfoldable pub page_clear : ℕ → K (Unit {0})
unfolding kaddr
page_clear p = kaddr (page2pa p) >> λ k. done tt (record k { mem = update k.mem p (λ _. 0) })

unfoldable pub page_alloc : ℕ → K (Option ℕ)
unfolding page_clear
page_alloc flags k = elim k.page_free_list [
  | none ↦ done none k
  | some p ↦
      (do
        when (flag flags alloc_zero) (page_clear p)
        (λ k. done tt (record k { page_free_list = (k.pages p).pp_link }))
        (λ k. done tt (set_page p (record (k.pages p) { pp_link = none }) k))
        when (flag flags alloc_zero) (page_clear p)
        pure (some p))
        k
]

is_null : Option ℕ → Bool
is_null none = true
is_null (some p) = false

unfoldable pub page_free : ℕ → K (Unit {0})
unfolding is_null
page_free p k =
    if not ((k.pages p).pp_ref == 0) || not (is_null (k.pages p).pp_link)
    then panic k
    else done tt (record (set_page p (record (k.pages p) { pp_link = k.page_free_list }) k) {
      page_free_list = some p;
    })

-- `pp->pp_ref++` on a uint16_t
unfoldable pub incref : ℕ → K (Unit {0})
incref p k =
    done tt (set_page p (record (k.pages p) { pp_ref = ((k.pages p).pp_ref + 1) % 65536 }) k)

-- `--pp->pp_ref` on a uint16_t, then the test
unfoldable pub page_decref : ℕ → K (Unit {0})
unfolding page_free
page_decref p k =
    let ref = ((k.pages p).pp_ref + 65535) % 65536 in
    let k' = set_page p (record (k.pages p) { pp_ref = ref }) k in
    if ref == 0 then page_free p k' else done tt k'

-- The pages that `page_init` puts on the free list.
abbrev pub starts_free : (basemem kern_end : ℕ) → ℕ → Bool
starts_free basemem kern_end i =
    if (i == 0) || (i == mpentry_paddr / pgsize) then false else ltb i basemem || ltb kern_end i

-- `last->pp_link = &pages[i]`, or the head of the list
append_free : Option ℕ → ℕ → Kernel → Kernel
append_free none i k = record k { page_free_list = some i }
append_free (some l) i k = set_page l (record (k.pages l) { pp_link = some i }) k

-- One round of the loop: the new `last`, and the new state.
page_init_round : ℕ → ℕ → Option ℕ → Kernel → Option ℕ × Kernel
unfolding append_free
page_init_round kern_end i last k =
    if (i == 0) || (i == mpentry_paddr / pgsize)
    then (last, set_page i (record { pp_link = none; pp_ref = 1 }) k)
    else if ltb i k.npages_basemem || ltb kern_end i
    then (some i, append_free last i (set_page i (record { pp_link = none; pp_ref = 0 }) k))
    else (last, set_page i (record { pp_link = none; pp_ref = 1 }) k)

-- `n` rounds from page `i` on
page_init_loop : ℕ → ℕ → ℕ → Option ℕ → Kernel → Kernel
unfolding page_init_round
page_init_loop kern_end zero i last k = k
page_init_loop kern_end (suc n) i last k =
    let (last', k') = page_init_round kern_end i last k in
    page_init_loop kern_end n (i + 1) last' k'

unfoldable pub page_init : ℕ → K (Unit {0})
unfolding boot_alloc page_init_loop
page_init end = boot_alloc end 0 >>= λ v k.
    done tt (page_init_loop (sub64 v kernbase / pgsize) k.npages 0 none k)
