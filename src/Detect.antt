-- ===== src/Detect.antt =====
-- kern/pmap.c, multiboot_read and i386_detect_memory, with restrictive_type of kern/multiboot.h.
--
-- An entry of the boot loader's memory map is a `Region`, its two 64-bit numbers put together from
-- their halves. `mmap_list` is an array of pointers to distinct entries, so that it holds the entries
-- themselves, NULL being none. The non-volatile memory is the byte at each register.
pub mod Slots
pub mod Sorted
pub mod Total
pub mod Limit
use comp530h.Base.{
  ℕ, zero, suc, ◌+◌, ◌-◌, ◌*◌, ◌/◌, ◌%◌, ◌^◌, Bool, ◌&&◌, ◌||◌, Option, none, some, List, [], ◌∷◌,
  ltb, leb, ◌==◌, if◌then◌else◌, update, length, bit_or,
}
use comp530h.Layout.{add64, sub64, pgsize, extphysmem, ulim, upages, uvpt, kernbase}

pub record Region : Type 0 where
  pub base : ℕ
  pub len : ℕ
  pub type : ℕ

abbrev pub usable : ℕ
usable = 1

abbrev pub reserved : ℕ
reserved = 2

abbrev pub acpi_reclm : ℕ
acpi_reclm = 3

abbrev pub acpi_nvs : ℕ
acpi_nvs = 4

abbrev pub bad : ℕ
bad = 5

unfoldable pub restrictive_type : ℕ → ℕ → ℕ
restrictive_type t1 t2 =
    if (t1 == bad) || (t2 == bad)
    then bad
    else if (t1 == acpi_nvs) || (t2 == acpi_nvs)
    then acpi_nvs
    else if (t1 == reserved) || (t2 == reserved)
    then reserved
    else if (t1 == acpi_reclm) || (t2 == acpi_reclm)
    then acpi_reclm
    else usable

-- A type out of range counts as reserved.
abbrev pub known : Region → Region
known r = record r { type = if ltb 5 r.type || ltb r.type 1 then reserved else r.type }

-- The first slot from `j` on, of `n`, with an address above that of `r`, or the slot after them
unfoldable pub find_slot : Region → (ℕ → Region) → (n j : ℕ) → ℕ
find_slot r list zero j = j
find_slot r list (suc n) j =
    let rest = find_slot r list n (j + 1) in if ltb r.base (list j).base then j else rest

-- The slots that end at `last`, `n` of them, each get what stood in the slot before.
unfoldable pub shift : (n last : ℕ) → (ℕ → Region) → ℕ → Region
shift zero last list = list
shift (suc n) last list = shift n (last - 1) (update list last (list (last - 1)))

-- One round: `i` entries are in the list.
unfoldable pub place : Region → (i : ℕ) → (ℕ → Region) → ℕ → Region
place r i list =
    let j = find_slot r list i 0 in
    update (if j == i then list else shift (i + 1 - j) (i + 1) list) j r

unfoldable pub gather : (i : ℕ) → (ℕ → Region) → List Region → ℕ → Region
gather i list [] = list
gather i list (r ∷ rs) = gather (i + 1) (place (known r) i list) rs

-- The slots from `s` on, `n` of them
unfoldable pub slots : (ℕ → Region) → (s n : ℕ) → List Region
slots list s zero = []
slots list s (suc n) = list s ∷ slots list (s + 1) n

-- Merges each entry with the one before, or gives the two the same type where they overlap. An entry
-- that is merged into the next one is NULL.
unfoldable pub sanitize : Region → List Region → List (Option Region)
sanitize prev [] = some prev ∷ []
sanitize prev (this ∷ rest) =
    let end = add64 prev.base prev.len in
    let merged : Region = record {
      base = prev.base;
      len = add64 prev.len this.len;
      type = this.type;
    } in
    let common = restrictive_type prev.type this.type in
    let whole = sanitize merged rest in
    let overlapping = sanitize (record this { type = common }) rest in
    let apart = sanitize this rest in
    if (end == this.base) && (prev.type == this.type)
    then none ∷ whole
    else if ltb this.base end
    then some (record prev { type = common }) ∷ overlapping
    else some prev ∷ apart

abbrev pub sanitized : List Region → List (Option Region)
sanitized [] = []
sanitized (r ∷ rs) = sanitize r rs

abbrev pub is_memory : ℕ → Bool
is_memory t = (t == usable) || (t == acpi_reclm)

-- The sizes of the memory below 1 MB, by the address of an entry, and of that above
unfoldable pub sizes : List (Option Region) → (basemem extmem : ℕ) → ℕ × ℕ
sizes [] basemem extmem = (basemem, extmem)
sizes (none ∷ rest) basemem extmem = sizes rest basemem extmem
sizes (some r ∷ rest) basemem extmem =
    sizes rest (if is_memory r.type && ltb r.base 0x100000 then add64 basemem r.len else basemem)
      (if is_memory r.type && leb 0x100000 r.base then add64 extmem r.len else extmem)

-- `garbage` is what the array holds before.
unfoldable pub multiboot_read : (garbage : ℕ → Region) → List Region → ℕ × ℕ
multiboot_read garbage regions =
    sizes (sanitized (slots (gather 0 garbage regions) 0 (length regions))) 0 0

abbrev pub nvram_extlo : ℕ
nvram_extlo = 0xe + 9

abbrev pub nvram_baselo : ℕ
nvram_baselo = 0xe + 7

abbrev pub nvram_extgt16lo : ℕ
nvram_extgt16lo = 0xe + 38

-- sizeof(struct PageInfo): a pointer, a uint16_t and padding
abbrev pub sizeof_page_info : ℕ
sizeof_page_info = 16

module _ (nvram : ℕ → ℕ) where
  unfoldable pub nvram_read : ℕ → ℕ
  nvram_read r = bit_or (nvram r) (nvram (r + 1) * 2 ^ 8)

  -- The product of two ints, widened to a size_t
  abbrev pub int_to_size : ℕ → ℕ
  int_to_size v = if leb (2 ^ 31) (v % 2 ^ 32) then 2 ^ 64 - 2 ^ 32 + v % 2 ^ 32 else v % 2 ^ 32

  unfoldable pub npages_ext : (extmem : ℕ) → ℕ
  npages_ext extmem =
      if nvram_read nvram_extlo == 0xffff
      then sub64 (add64 (16 * 1024 * 1024) (int_to_size (nvram_read nvram_extgt16lo * (64 * 1024))))
          (1024 * 1024)
        / pgsize
      else extmem / pgsize

  abbrev pub max_npages : ℕ
  max_npages =
      let upages_max = (ulim - upages) / sizeof_page_info in
      let kern_mem_max = (uvpt - kernbase) / pgsize in
      if ltb upages_max kern_mem_max then upages_max else kern_mem_max

  -- `npages` and `npages_basemem`; none where the assertion fails. `mbinfo` is none without a memory map.
  unfoldable pub i386_detect_memory : (garbage : ℕ → Region) → Option (List Region) → Option (ℕ × ℕ)
  i386_detect_memory garbage mbinfo =
      let found : ℕ × ℕ = elim mbinfo [
        | some regions ↦ multiboot_read garbage regions
        | none ↦ (nvram_read nvram_baselo * 1024, nvram_read nvram_extlo * 1024)
      ] in
      let basemem = found.0 in
      let ext = npages_ext found.1 in
      let npages = if ext == 0 then basemem / pgsize else extphysmem / pgsize + ext in
      if basemem == 0
      then none
      else some (if ltb max_npages npages then max_npages - 1024 else npages, basemem / pgsize)
