-- ===== src/Mp.antt =====
-- kern/mpconfig.c: the search for the multiprocessor configuration table, and the CPUs that it names.
--
-- Memory gives the byte at a physical address. The prints are left out.
pub mod Search
pub mod Entries
use comp530h.Base.{
  ℕ, zero, suc, ◌+◌, ◌-◌, ◌*◌, ◌/◌, ◌%◌, ◌^◌, Bool, true, false, not, ◌&&◌, ◌||◌, Option, none,
  some, List, [], ◌∷◌, update, ltb, leb, ◌==◌, if◌then◌else◌, bit_and,
}
use comp530h.Bytes.{Memory}

-- Fields of two and of four bytes
abbrev pub read16 : Memory → ℕ → ℕ
read16 m a = m a + m (a + 1) * 256

abbrev pub read32 : Memory → ℕ → ℕ
read32 m a = read16 m a + read16 m (a + 2) * 65536

-- memcmp(p, s, n) == 0 for a literal `s`
abbrev pub starts_with : Memory → ℕ → List ℕ → Bool
starts_with m a [] = true
starts_with m a (c ∷ cs) = (m a == c) && starts_with m (a + 1) cs

abbrev pub byte_sum : Memory → (a n : ℕ) → ℕ
byte_sum m a zero = 0
byte_sum m a (suc n) = m a + byte_sum m (a + 1) n

-- The result is a uint8_t.
abbrev pub sum : Memory → (a n : ℕ) → ℕ
sum m a n = byte_sum m a n % 256

-- `struct mp` has 16 bytes; "_MP_".
abbrev pub sizeof_mp : ℕ
sizeof_mp = 16

abbrev pub is_mp : Memory → ℕ → Bool
is_mp m a = starts_with m a (95 ∷ 77 ∷ 80 ∷ 95 ∷ []) && (sum m a sizeof_mp == 0)

unfoldable pub search_from : Memory → (n a : ℕ) → Option ℕ
search_from m zero a = none
search_from m (suc n) a =
    let rest = search_from m n (a + sizeof_mp) in if is_mp m a then some a else rest

-- A pointer that may be NULL, or a panic of KADDR.
pub data Found : Type 0 where
  panicked : Found
  pointer : Option ℕ → Found

-- KADDR(pa) does not panic.
abbrev pub kaddr_ok : (npages pa : ℕ) → Bool
kaddr_ok npages pa = ltb (pa / 4096 % 2 ^ 32) npages

-- The loop runs while `mp < end`.
unfoldable pub mpsearch1 : (npages : ℕ) → Memory → (a len : ℕ) → Found
mpsearch1 npages m a len =
    if kaddr_ok npages a && kaddr_ok npages (a + len)
    then pointer (search_from m ((len + 15) / sizeof_mp) a)
    else panicked

abbrev pub or_rom : (npages : ℕ) → Memory → Found → Found
or_rom npages m panicked = panicked
or_rom npages m (pointer none) = mpsearch1 npages m 0xF0000 0x10000
or_rom npages m (pointer (some a)) = pointer (some a)

-- The BIOS data area is at 0x400; `p` is a uint32_t.
unfoldable pub mpsearch : (npages : ℕ) → Memory → Found
mpsearch npages m =
    if not (kaddr_ok npages 0x400)
    then panicked
    else if not (read16 m 0x40E == 0)
    then or_rom npages m (mpsearch1 npages m (read16 m 0x40E * 16) 1024)
    else or_rom npages m
        (mpsearch1 npages m ((read16 m 0x413 * 1024 + 2 ^ 32 - 1024) % 2 ^ 32) 1024)

-- The fields of `struct mp` and of `struct mpconf` that are read.
abbrev pub mp_physaddr : Memory → ℕ → ℕ
mp_physaddr m a = read32 m (a + 4)

abbrev pub mp_type : Memory → ℕ → ℕ
mp_type m a = m (a + 11)

abbrev pub conf_length : Memory → ℕ → ℕ
conf_length m a = read16 m (a + 4)

abbrev pub conf_version : Memory → ℕ → ℕ
conf_version m a = m (a + 6)

abbrev pub conf_entry : Memory → ℕ → ℕ
conf_entry m a = read16 m (a + 34)

abbrev pub conf_lapicaddr : Memory → ℕ → ℕ
conf_lapicaddr m a = read32 m (a + 36)

abbrev pub conf_xlength : Memory → ℕ → ℕ
conf_xlength m a = read16 m (a + 40)

abbrev pub conf_xchecksum : Memory → ℕ → ℕ
conf_xchecksum m a = m (a + 42)

abbrev pub conf_entries : ℕ → ℕ
conf_entries a = a + 44

-- "PCMP"
abbrev pub is_conf : Memory → ℕ → Bool
is_conf m a =
    starts_with m a (80 ∷ 67 ∷ 77 ∷ 80 ∷ [])
    && ((sum m a (conf_length m a) == 0)
        && (((conf_version m a == 1) || (conf_version m a == 4))
            && (sum m (a + conf_length m a) (conf_xlength m a) == conf_xchecksum m a)))

abbrev pub config_at : (npages : ℕ) → Memory → Found → Found
config_at npages m panicked = panicked
config_at npages m (pointer none) = pointer none
config_at npages m (pointer (some mp)) =
    if (mp_physaddr m mp == 0) || not (mp_type m mp == 0)
    then pointer none
    else if not (kaddr_ok npages (mp_physaddr m mp))
    then panicked
    else if is_conf m (mp_physaddr m mp)
    then pointer (some (mp_physaddr m mp))
    else pointer none

-- The configuration table.
unfoldable pub mpconfig : (npages : ℕ) → Memory → Found
mpconfig npages m = config_at npages m (mpsearch npages m)

abbrev pub ncpu_max : ℕ
ncpu_max = 8

-- `ncpu`, `cpu_id` of each slot of `cpus`, the slot of `bootcpu`, the slots with the status CPU_STARTED,
-- `ismp` and `lapicaddr`
pub record Cpus : Type 0 where
  pub ncpu : ℕ
  pub cpu_id : ℕ → ℕ
  pub bootcpu : ℕ
  pub started : ℕ → Bool
  pub ismp : Bool
  pub lapicaddr : ℕ

-- A processor entry: its flags are MPROC_EN and MPPROC_BOOT.
abbrev pub boot_entry : (flags : ℕ) → Cpus → Cpus
boot_entry flags s = if bit_and flags 2 == 0 then s else record s { bootcpu = s.ncpu }

unfoldable pub add_entry : (flags : ℕ) → Cpus → Cpus
add_entry flags s =
    if ltb s.ncpu ncpu_max && not (bit_and flags 1 == 0)
    then record s { cpu_id = update s.cpu_id s.ncpu s.ncpu; ncpu = s.ncpu + 1 }
    else s

-- The `n` entries left, from `p` on. After an entry of another type no entry is read.
unfoldable pub entries_from : Memory → (n p : ℕ) → Cpus → Cpus
entries_from m zero p s = s
entries_from m (suc n) p s =
    let proc = entries_from m n (p + 20) (add_entry (m (p + 3)) (boot_entry (m (p + 3)) s)) in
    let other = entries_from m n (p + 8) s in
    if m p == 0 then proc else if leb (m p) 4 then other else record s { ismp = false }

-- `bootcpu->cpu_status = CPU_STARTED`, and the fall back to one CPU.
abbrev pub settle : Cpus → Cpus
settle s =
    let t = record s { started = update s.started s.bootcpu true } in
    if t.ismp then t else record t { ncpu = 1; lapicaddr = 0 }

abbrev pub init_at : Memory → Found → Cpus → Option Cpus
init_at m panicked s = none
init_at m (pointer none) s = some s
init_at m (pointer (some conf)) s = some (
    settle (
      entries_from m (conf_entry m conf) (conf_entries conf)
        (record s { ismp = true; lapicaddr = conf_lapicaddr m conf })))

-- None is a panic.
unfoldable pub mp_init : (npages : ℕ) → Memory → Cpus → Option Cpus
mp_init npages m s = init_at m (mpconfig npages m) (record s { bootcpu = 0 })
