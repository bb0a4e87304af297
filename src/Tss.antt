-- ===== src/Tss.antt =====
-- kern/trap.c, trap_init_percpu: the task state segment of a CPU and its descriptor in the gdt of
-- kern/env.c, with the bit-fields and SETTSS of inc/mmu.h.
--
-- A descriptor is written as the little-endian words its bit-fields make; memory gives the word of eight
-- bytes at an address. Where the linker puts `gdt` and `cpus` are parameters.
pub mod Fields
pub mod Words
pub mod Loaded
use comp530h.Base.{ℕ, ◌+◌, ◌-◌, ◌*◌, ◌/◌, ◌%◌, ◌^◌, List, [], ◌∷◌, update, ltb, if◌then◌else◌}
use comp530h.Layout.{kstacktop}
use comp530h.Vm.{kstksize, kstkgap, cpu_limit}

-- struct Segdesc without sd_s, sd_p and the fields that all the segments of the gdt share, and SEG64
abbrev pub seg64 : (type base lim dpl : ℕ) → ℕ
seg64 type base lim dpl =
    lim / 2 ^ 12 % 2 ^ 16
    + base % 2 ^ 16 * 2 ^ 16
    + base / 2 ^ 16 % 2 ^ 8 * 2 ^ 32
    + type * 2 ^ 40
    + 1 * 2 ^ 44
    + dpl * 2 ^ 45
    + 1 * 2 ^ 47
    + lim / 2 ^ 28 % 2 ^ 4 * 2 ^ 48
    + 1 * 2 ^ 53
    + 1 * 2 ^ 55
    + base / 2 ^ 24 % 2 ^ 8 * 2 ^ 56

-- The initial slots: null, kernel text and data, user text and data.
abbrev pub gdt_segments : List ℕ
gdt_segments =
    0
    ∷ seg64 0xA 0 0xFFFFFFFF 0
    ∷ seg64 0x2 0 0xFFFFFFFF 0
    ∷ seg64 0xA 0 0xFFFFFFFF 3
    ∷ seg64 0x2 0 0xFFFFFFFF 3
    ∷ []

abbrev pub sizeof_gdt : ℕ
sizeof_gdt = 8 * (2 * cpu_limit + 5)

abbrev pub gd_tss0 : ℕ
gd_tss0 = 0x28

abbrev pub sts_t64a : ℕ
sts_t64a = 0x9

-- sizeof(struct Taskstate), which is packed
abbrev pub sizeof_taskstate : ℕ
sizeof_taskstate = 104

-- struct SystemSegdesc64
pub record SystemSegdesc64 : Type 0 where
  pub lim_15_0 : ℕ
  pub base_15_0 : ℕ
  pub base_23_16 : ℕ
  pub type : ℕ
  pub s : ℕ
  pub dpl : ℕ
  pub p : ℕ
  pub lim_19_16 : ℕ
  pub avl : ℕ
  pub rsv1 : ℕ
  pub g : ℕ
  pub base_31_24 : ℕ
  pub base_63_32 : ℕ
  pub res1 : ℕ
  pub clear : ℕ
  pub res2 : ℕ

-- The macro ignores its parameter `dpl`.
unfoldable pub settss : (type base lim : ℕ) → SystemSegdesc64
settss t base lim = record {
  lim_15_0 = lim % 2 ^ 16;
  base_15_0 = base % 2 ^ 16;
  base_23_16 = base / 2 ^ 16 % 2 ^ 8;
  type = t;
  s = 0;
  dpl = 0;
  p = 1;
  lim_19_16 = lim / 2 ^ 16 % 2 ^ 4;
  avl = 0;
  rsv1 = 0;
  g = 0;
  base_31_24 = base / 2 ^ 24 % 2 ^ 8;
  base_63_32 = base / 2 ^ 32 % 2 ^ 32;
  res1 = 0;
  clear = 0;
  res2 = 0;
}

-- The two words of a descriptor
abbrev pub low_word : SystemSegdesc64 → ℕ
low_word d =
    d.lim_15_0
    + d.base_15_0 * 2 ^ 16
    + d.base_23_16 * 2 ^ 32
    + d.type * 2 ^ 40
    + d.s * 2 ^ 44
    + d.dpl * 2 ^ 45
    + d.p * 2 ^ 47
    + d.lim_19_16 * 2 ^ 48
    + d.avl * 2 ^ 52
    + d.rsv1 * 2 ^ 53
    + d.g * 2 ^ 55
    + d.base_31_24 * 2 ^ 56

abbrev pub high_word : SystemSegdesc64 → ℕ
high_word d = d.base_63_32 + d.res1 * 2 ^ 32 + d.clear * 2 ^ 40 + d.res2 * 2 ^ 48

-- The fields of struct CpuInfo that are read or written, by the index of the CPU, what `ltr` has loaded
-- on it and whether `lidt` was executed, and memory.
pub record Cpus : Type 0 where
  pub cpu_id : ℕ → ℕ
  pub ts_esp0 : ℕ → ℕ
  pub task_register : ℕ → ℕ
  pub idt_loaded : ℕ → ℕ
  pub words : ℕ → ℕ

-- `w >> 16` of a signed long
abbrev pub shift16 : ℕ → ℕ
shift16 w = if ltb w (2 ^ 63) then w / 2 ^ 16 else w / 2 ^ 16 + (2 ^ 64 - 2 ^ 48)

-- The first eight of the ten bytes of gdt_pd
abbrev pub gdt_pd : (gdt : ℕ) → ℕ
gdt_pd gdt = (sizeof_gdt - 1 + gdt * 2 ^ 16) % 2 ^ 64

unfoldable pub clear_s : ℕ → ℕ
clear_s w = w - w / 2 ^ 44 % 2 * 2 ^ 44

unfoldable pub set_busy : ℕ → ℕ
set_busy w = w + (1 - w / 2 ^ 41 % 2) * 2 ^ 41

abbrev pub put_descriptor : (a : ℕ) → SystemSegdesc64 → (ℕ → ℕ) → ℕ → ℕ
put_descriptor a d words = update (update words a (low_word d)) (a + 8) (high_word d)

-- `gdt[(GD_TSS0 >> 3) + 2 * id].sd_s = 0`
abbrev pub clear_slot : (gdt id : ℕ) → (ℕ → ℕ) → ℕ → ℕ
clear_slot gdt id words =
    let slot = gdt + 8 * (gd_tss0 / 2 ^ 3 + 2 * id) in update words slot (clear_s (words slot))

-- ltr(sel) of inc/x86.h marks the descriptor as busy, by the processor's manual: bit 1 of its type, which
-- is bit 41 of its first word.
abbrev pub ltr : (gdt sel : ℕ) → (ℕ → ℕ) → ℕ → ℕ
ltr gdt sel words = update words (gdt + sel) (set_busy (words (gdt + sel)))

-- `gdt` is the address of the table, `cpu_ts` gives the address of cpus[c].cpu_ts, and `c` is cpunum().
module _ (gdt : ℕ) (cpu_ts : ℕ → ℕ) where
  abbrev pub write_tss : (c id : ℕ) → (ℕ → ℕ) → ℕ → ℕ
  write_tss c id words = clear_slot gdt id (
      put_descriptor (shift16 (gdt_pd gdt) + 40 + 16 * id)
        (settss sts_t64a (cpu_ts c) sizeof_taskstate) words)

  abbrev pub load_tss : (c id : ℕ) → (ℕ → ℕ) → ℕ → ℕ
  load_tss c id words = ltr gdt (gd_tss0 + id * 16) (write_tss c id words)

  unfoldable pub trap_init_percpu : (c : ℕ) → Cpus → Cpus
  trap_init_percpu c cpus =
      let id = cpus.cpu_id c in
      record cpus {
        ts_esp0 = update cpus.ts_esp0 c (kstacktop - id * (kstksize + kstkgap));
        words = load_tss c id cpus.words;
        task_register = update cpus.task_register c (gd_tss0 + id * 16);
        idt_loaded = update cpus.idt_loaded c 1;
      }
