-- ===== src/Envs/Load.antt =====
-- kern/env.c: region_alloc, load_icode and env_create.
--
-- `binary` gives the bytes of the ELF image. `write_user va byte` is the processor's store of a byte at
-- an address of the page map in %cr3, which the copies to the segments are made of.
pub mod Given
pub mod Keeps
pub mod Ready
use comp530h.Base.{
  ℕ, zero, suc, ◌+◌, ◌-◌, ◌*◌, ◌/◌, ◌^◌, not, ◌==◌, Option, none, some, if◌then◌else◌,
}
use comp530h.Layout.{pgsize, ustacktop, round_up, round_down, add64, sub64}
use comp530h.Kernel.{
  K, done, pure, ◌>>=◌, ◌>>◌, get, deref, when, panic, set_env, for_range, ok, err, e_no_mem,
  e_no_free_env,
}
use comp530h.Kernel.Env.{Env, EnvType}
use comp530h.Boot.{elf_magic}
use comp530h.Bytes.{Memory}
use comp530h.Mp.{read16, read32}
use comp530h.Alloc.{page_alloc, alloc_zero, incref}
use comp530h.Table.{page_insert}
use comp530h.Envs.{env_alloc}

abbrev pub read64 : Memory → ℕ → ℕ
read64 m a = read32 m a + read32 m (a + 4) * 2 ^ 32

-- `n` pages from `start` on; page_insert counts a reference too.
unfoldable pub region_pages : (e n start : ℕ) → K (Unit {0})
region_pages e zero start = pure tt
region_pages e (suc n) start = do
  page ← page_alloc alloc_zero
  elim page [
    | none ↦ panic
    | some pp ↦ do
      incref pp
      k ← get
      table ← deref (k.envs e).env_pml4e
      flag ← page_insert table pp start 7
      elim flag [
        | err c ↦ panic
        | ok v ↦ do when (not (v == 0)) panic; region_pages e n (start + pgsize)
      ]
  ]

unfoldable pub region_alloc : (e va len : ℕ) → K (Unit {0})
region_alloc e va len =
    let end = round_up (add64 va len) pgsize in
    let start = round_down va pgsize in region_pages e ((end - start) / pgsize) start

abbrev pub change_env_at : ℕ → (Env → Env) → K (Unit {0})
change_env_at e f k = done tt (set_env e (f (k.envs e)) k)

module _ (write_user : ℕ → ℕ → K (Unit {0})) (binary : Memory) where
  -- The program header at byte `ph` of the image
  unfoldable pub load_segment : (e ph : ℕ) → K (Unit {0})
  load_segment e ph k =
      let va = read64 binary (ph + 16) in
      let filesz = read64 binary (ph + 32) in
      let memsz = read64 binary (ph + 40) in
      if not (read32 binary ph == 1)
      then pure tt k
      else (do
        region_alloc e va memsz
        for_range filesz 0 (λ i. write_user (add64 va i) (binary (read64 binary (ph + 8) + i)))
        for_range (sub64 memsz filesz) 0 (λ i. write_user (add64 (add64 va filesz) i) 0))
          k

  -- The field `elf` of struct Env is left out.
  unfoldable pub load_icode : Option ℕ → K (Unit {0})
  load_icode o = do
    when (not (read32 binary 0 == elf_magic)) panic
    e ← deref o
    (λ k. done tt (record k { cr3 = (k.envs e).env_cr3 }))
    for_range (read16 binary 56) 0 (λ i. load_segment e (read64 binary 32 + i * 56))
    (λ k. done tt (record k { cr3 = k.boot_pml4e * 4096 }))
    change_env_at e
        (λ env. record env { env_tf = record (env.env_tf) { tf_rip = read64 binary 24 } })
    region_alloc e (ustacktop - pgsize) pgsize

  -- The two errors of env_alloc panic.
  unfoldable pub env_create : EnvType → K (Unit {0})
  env_create type = do
    (r, o) ← env_alloc 0
    elim r [ err e_no_free_env ↦ panic | err e_no_mem ↦ panic | _ ↦ pure tt ]
    load_icode o
    e ← deref o
    change_env_at e (λ env. record env { env_type = type; env_parent_id = 0 })
