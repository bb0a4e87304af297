-- ===== src/Reap.antt =====
-- kern/env.c: `env_free` and `env_destroy`, and `user_mem_assert` of kern/pmap.c.
pub mod Freed
pub mod Gone
use comp530h.Base.{ℕ, ◌*◌, ◌&&◌, not, none, some, ◌==◌, if◌then◌else◌, bit_or}
use comp530h.Layout.{ppn, flag, pte_p, pte_u, pte_addr, pgaddr, pdx, utop}
use comp530h.Kernel.{
  K, done, pure, ◌>>=◌, ◌>>◌, when, get, deref, store, set_env, kaddr, for_range, ok, err, free,
  dying, running, same_status,
}
use comp530h.Kernel.Env.{Env}
use comp530h.Alloc.{pa2page, page_decref}
use comp530h.Table.{page_remove, user_mem_check}
use comp530h.Envs.{is_cur}
use comp530h.Sched.{sched_yield}

-- Drops the reference to a table in the frame `pa`.
release : ℕ → K (Unit {0})
release pa = do page ← pa2page pa; page_decref page

-- Entry `pteno` of the page table `pt`.
unmap_entry : (pml4e pt i pdeno pteno : ℕ) → K (Unit {0})
unmap_entry pml4e pt i pdeno pteno = do
  k ← get
  when (flag (k.mem pt pteno) pte_p) (page_remove pml4e (pgaddr 0 i pdeno pteno 0))

-- Entry `pdeno` of the page directory `pgdir`: the page table's entries below PTX(~0), which is 511,
-- and the table.
free_page_table : (pml4e pgdir i pdeno : ℕ) → K (Unit {0})
unfolding release unmap_entry
free_page_table pml4e pgdir i pdeno = do
  k ← get
  let entry = k.mem pgdir pdeno
  when (flag entry pte_p) (do
    pt ← kaddr (pte_addr entry)
    for_range 511 0 (unmap_entry pml4e (ppn pt) i pdeno)
    store (record { table = pgdir; index = pdeno }) 0
    release (pte_addr entry))

-- PDX(UTOP) in the fourth directory, PDX(0xFFFFFFFF) in the others
abbrev pub pdeno_limit : ℕ → ℕ
pdeno_limit i = if i == 3 then pdx utop else pdx 0xFFFFFFFF

-- Entry `i` of the second-level table, with its page directory.
free_directory : (pml4e pdpe i : ℕ) → K (Unit {0})
unfolding free_page_table
free_directory pml4e pdpe i = do
  k ← get
  when (flag (k.mem pdpe i) pte_p) (do
    pgdir ← kaddr (pte_addr (k.mem pdpe i))
    for_range (pdeno_limit i) 0 (free_page_table pml4e (ppn pgdir) i)
    k ← get
    store (record { table = pdpe; index = i }) 0
    release (pte_addr (k.mem pdpe i)))

abbrev put_env : ℕ → (Env → Env) → K (Unit {0})
put_env e f k = done tt (set_env e (f (k.envs e)) k)

-- Back to the list of free environments.
free_slot : ℕ → K (Unit {0})
free_slot e k =
    done tt
      (record (set_env e (record (k.envs e) { env_status = free; env_link = k.env_free_list }) k) {
        env_free_list = some e;
      })

unfoldable pub env_free : ℕ → K (Unit {0})
unfolding release free_directory free_slot
env_free e = do
  k ← get
  when (is_cur e k.curenv) (λ k. done tt (record k { cr3 = k.boot_pml4e * 4096 }))
  pml4e ← deref (k.envs e).env_pml4e
  pdpe ← kaddr (pte_addr (k.mem pml4e 0))
  for_range 4 0 (free_directory pml4e (ppn pdpe))
  k ← get
  release (pte_addr (k.mem pml4e 0))
  store (record { table = pml4e; index = 0 }) 0
  k ← get
  put_env e (λ env. record env { env_pml4e = none; env_cr3 = 0 })
  release (k.envs e).env_cr3
  free_slot e

unfoldable pub env_destroy : ℕ → K (Unit {0})
env_destroy e k =
    if same_status (k.envs e).env_status running && not (is_cur e k.curenv)
    then put_env e (λ env. record env { env_status = dying }) k
    else (do
      env_free e
      k ← get
      if is_cur e k.curenv then (λ k. sched_yield (record k { curenv = none })) else pure tt)
        k

unfoldable pub user_mem_assert : (e va len perm : ℕ) → K (Unit {0})
user_mem_assert e va len perm = do
  k ← get
  r ← user_mem_check (k.envs e) va len (bit_or perm pte_u)
  elim r [ ok _ ↦ pure tt | err _ ↦ env_destroy e ]
