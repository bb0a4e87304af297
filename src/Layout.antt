-- ===== src/Layout.antt =====
-- inc/mmu.h, inc/memlayout.h and inc/types.h: the pieces of a linear address, the page-table flags,
-- the address-space layout and the rounding macros. An address is a number below 2 ^ 64.
pub mod Address
use comp530h.Base.{ℕ, ◌+◌, ◌-◌, ◌*◌, ◌/◌, ◌%◌, ◌^◌, Bool, not, ◌==◌, bit_and, bit_or}

-- Arithmetic of uint64_t.
abbrev pub word : ℕ
word = 2 ^ 64

abbrev pub add64 : ℕ → ℕ → ℕ
add64 a b = (a + b) % word

abbrev pub sub64 : ℕ → ℕ → ℕ
sub64 a b = (a + word - b) % word

abbrev pub pgsize : ℕ
pgsize = 4096

abbrev pub pgshift : ℕ
pgshift = 12

abbrev pub nptentries : ℕ
nptentries = 512

abbrev pub ptsize : ℕ
ptsize = 4096 * 512

-- PPN(pa): the page number field of an address.
abbrev pub ppn : ℕ → ℕ
ppn pa = pa / 2 ^ 12

-- The four table indices, nine bits each, and the offset in the page.
abbrev pub pml4_index : ℕ → ℕ
pml4_index la = la / 2 ^ 39 % 512

abbrev pub pdpe_index : ℕ → ℕ
pdpe_index la = la / 2 ^ 30 % 512

abbrev pub pdx : ℕ → ℕ
pdx la = la / 2 ^ 21 % 512

abbrev pub ptx : ℕ → ℕ
ptx la = la / 2 ^ 12 % 512

abbrev pub pgoff : ℕ → ℕ
pgoff la = la % 2 ^ 12

-- PGADDR: a linear address from its four indices and its offset.
unfoldable pub pgaddr : (m p d t o : ℕ) → ℕ
pgaddr m p d t o =
    bit_or (bit_or (bit_or (bit_or (m * 2 ^ 39) (p * 2 ^ 30)) (d * 2 ^ 21)) (t * 2 ^ 12)) o

abbrev pub pte_p : ℕ
pte_p = 0x001

abbrev pub pte_w : ℕ
pte_w = 0x002

abbrev pub pte_u : ℕ
pte_u = 0x004

abbrev pub pte_pwt : ℕ
pte_pwt = 0x008

abbrev pub pte_pcd : ℕ
pte_pcd = 0x010

-- PTE_SYSCALL = PTE_AVAIL | PTE_P | PTE_W | PTE_U
abbrev pub pte_syscall : ℕ
pte_syscall = 0xE07

-- PTE_ADDR(pte), `pte & ~0xFFF`: the address field of an entry.
abbrev pub pte_addr : ℕ → ℕ
pte_addr e = e / 4096 * 4096

-- `x & mask` as the condition of an `if`.
unfoldable pub flag : ℕ → ℕ → Bool
flag x mask = not (bit_and x mask == 0)

-- inc/memlayout.h
abbrev pub kernbase : ℕ
kernbase = 0x8004000000

abbrev pub iophysmem : ℕ
iophysmem = 0x0A0000

abbrev pub extphysmem : ℕ
extphysmem = 0x100000

abbrev pub kstacktop : ℕ
kstacktop = kernbase

abbrev pub mmiolim : ℕ
mmiolim = kstacktop - ptsize

abbrev pub mmiobase : ℕ
mmiobase = mmiolim - ptsize

abbrev pub ulim : ℕ
ulim = mmiobase

abbrev pub uvpt : ℕ
uvpt = 0x10000000000

abbrev pub upages : ℕ
upages = ulim - 25 * ptsize

abbrev pub uenvs : ℕ
uenvs = upages - ptsize

abbrev pub utop : ℕ
utop = uenvs

abbrev pub uxstacktop : ℕ
uxstacktop = 0xef800000

abbrev pub ustacktop : ℕ
ustacktop = uxstacktop - 2 * pgsize

abbrev pub mpentry_paddr : ℕ
mpentry_paddr = 0x7000

-- ROUNDDOWN and ROUNDUP over uint64_t, with the sum's wrap-around.
unfoldable pub round_down : ℕ → ℕ → ℕ
round_down a n = a - a % n

unfoldable pub round_up : ℕ → ℕ → ℕ
unfolding round_down
round_up a n = round_down (sub64 (add64 a n) 1) n
