-- ===== src/User/Fork.antt =====
-- lib/fork.c and lib/pgfault.c: copy-on-write fork.
pub mod Shares
pub mod Order
use comp530h.Base.{
  ℕ, zero, suc, ◌+◌, ◌-◌, ◌*◌, ◌/◌, ◌%◌, ◌^◌, Bool, true, false, not, ◌&&◌, ◌||◌, List, ◌==◌,
  if◌then◌else◌,
}
use comp530h.Layout.{pgsize, ptsize, flag, pte_p, ustacktop, uxstacktop, round_down}
use comp530h.User.{
  Call, page_alloc, page_map, page_unmap, exofork, set_upcall, set_status, copy_page, returned, U,
  return, panic, ◌>>=◌, ◌>>◌, made, is_negative, syscall_stub, must,
}

abbrev pub pte_cow : ℕ
pte_cow = 0x800

abbrev pub utext : ℕ
utext = 4 * ptsize

abbrev pub pftemp : ℕ
pftemp = 2 * ptsize + ptsize - pgsize

-- PTE_P | PTE_U | PTE_W
abbrev pub perm_write : ℕ
perm_write = 7

-- PTE_COW | PTE_U | PTE_P
abbrev pub perm_cow : ℕ
perm_cow = 0x805

abbrev pub perm_read : ℕ
perm_read = 5

abbrev pub env_runnable : ℕ
env_runnable = 2

abbrev pub minus_one : ℕ
minus_one = 2 ^ 32 - 1

-- memcpy(dst, src, PGSIZE)
abbrev pub copy : (dst src : ℕ) → U (Unit {0})
copy dst src p = returned tt (made (copy_page dst src) p)

-- uvpt, uvpd, uvpde and uvpml4e
pub data Level : Type 0 where
  uvpt uvpd uvpde uvpml4e : Level

module _ (answer : List Call → Call → ℕ) (tables : List Call → Level → ℕ → ℕ) (self : ℕ) where
  -- The fault address and the error code of `utf`
  unfoldable pub pgfault : (fault_va err : ℕ) → U (Unit {0})
  pgfault fault_va err p =
      let addr = round_down fault_va pgsize in
      if not (flag (tables p.calls uvpt (addr / pgsize)) pte_cow && flag (err % 2 ^ 32) 2)
      then panic p
      else (do
        must answer (page_alloc self pftemp perm_write)
        copy pftemp addr
        must answer (page_map self pftemp self addr perm_write)
        must answer (page_unmap self pftemp))
          p

  -- A mapping that fails makes `duppage` return -1.
  abbrev pub attempt : Call → U ℕ → U ℕ
  attempt c more = do
    r ← syscall_stub answer true c
    if is_negative r then return minus_one else more

  -- `pn` is an unsigned.
  unfoldable pub duppage : (env pn : ℕ) → U ℕ
  duppage env pn p =
      let addr = pn % 2 ^ 32 * pgsize in
      if flag (tables p.calls uvpt (pn % 2 ^ 32)) pte_cow
        || flag (tables p.calls uvpt (pn % 2 ^ 32)) 2
      then attempt (page_map self addr env addr perm_cow)
          (attempt (page_map self addr self addr perm_cow) (return 0)) p
      else attempt (page_map self addr env addr perm_read) (return 0) p

  -- The handler is registered at the kernel the first time.
  unfoldable pub set_pgfault_handler : U (Unit {0})
  set_pgfault_handler p =
      if p.handler_set
      then return tt p
      else (do
        must answer (page_alloc self (uxstacktop - pgsize) perm_write)
        must answer (set_upcall self)
        λ p. returned tt (record p { handler_set = true }))
          p

  -- Whether the page of `addr` is mapped.
  abbrev pub is_mapped : List Call → ℕ → Bool
  is_mapped calls addr =
      flag (tables calls uvpml4e (addr / 2 ^ 39)) pte_p
      && (flag (tables calls uvpde (addr / 2 ^ 30)) pte_p
          && (flag (tables calls uvpd (addr / 2 ^ 21)) pte_p
              && flag (tables calls uvpt (addr / 2 ^ 12)) 5))

  -- The result of `duppage` is not used.
  abbrev pub dup_mapped : (child addr : ℕ) → U (Unit {0})
  dup_mapped child addr p =
      if is_mapped p.calls addr
      then (do duppage child (addr / 2 ^ 12); return tt) p
      else returned tt p

  -- `n` pages from `addr` on
  unfoldable pub dup_pages : (child n addr : ℕ) → U (Unit {0})
  dup_pages child zero addr = return tt
  dup_pages child (suc n) addr = dup_mapped child addr >> dup_pages child n (addr + pgsize)

  -- What follows the loop: the child's stack and exception stack, its upcall and its status.
  unfoldable pub finish_child : (child : ℕ) → U ℕ
  finish_child child = do
    must answer (page_alloc self pftemp perm_write)
    copy pftemp (ustacktop - pgsize)
    must answer (page_map self pftemp child (ustacktop - pgsize) perm_write)
    must answer (page_unmap self pftemp)
    must answer (page_alloc child (uxstacktop - pgsize) perm_write)
    must answer (set_upcall child)
    must answer (set_status child env_runnable)
    return child

  -- `end` is the linker's symbol; ENVX(self) is the low 10 bits.
  unfoldable pub fork : (end : ℕ) → U ℕ
  fork end = do
    set_pgfault_handler
    child ← syscall_stub answer false exofork
    if child == 0
        then (λ p. returned 0 (record p { thisenv = self % 1024 }))
        else if is_negative child
        then return minus_one
        else (do dup_pages child ((end - utext + pgsize - 1) / pgsize) utext; finish_child child)
