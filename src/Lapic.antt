-- ===== src/Lapic.antt =====
-- kern/lapic.c, boot_aps of kern/init.c and kern/picirq.c: how the other CPUs are started and the
-- interrupt controllers are set up, as the sequence of what is written.
--
-- What a read of a register gives is a parameter. A loop that waits for a device or a CPU is one event.
-- The lowest pages of memory exist, so that KADDR gives their addresses.
pub mod Startup
use comp530h.Base.{
  ℕ, zero, suc, ◌+◌, ◌-◌, ◌*◌, ◌/◌, ◌%◌, ◌^◌, Bool, true, false, List, [], ◌∷◌, ◌++◌, leb, ◌==◌,
  if◌then◌else◌, bit_or,
}
use comp530h.Layout.{mpentry_paddr}
use comp530h.Vm.{kstksize}

pub data Event : Type 0 where
  -- outb, a write to a register of the local APIC, and one of two bytes to a physical address
  outb : (port value : ℕ) → Event
  register : (index value : ℕ) → Event
  store16 : (pa value : ℕ) → Event
  -- `while (lapic[ICRLO] & DELIVS)`
  wait_delivered : Event
  -- the entry code is copied, `mpentry_kstack` is set, and the wait for `cpu_status`
  copy_entry : Event
  set_kstack : (va : ℕ) → Event
  wait_started : (c : ℕ) → Event

-- The indices of the registers
abbrev pub icrlo : ℕ
icrlo = 0x0300 / 4

abbrev pub icrhi : ℕ
icrhi = 0x0310 / 4

abbrev pub lapicw : (index value : ℕ) → Event
lapicw index value = register index value

-- `is_bsp` is thiscpu == bootcpu, and `ver` the value of the register VER. The page of the registers is
-- mapped by mmio_map_region before.
unfoldable pub lapic_init : (lapicaddr : ℕ) (is_bsp : Bool) (ver : ℕ) → List Event
lapic_init lapicaddr is_bsp ver =
    if lapicaddr == 0
    then []
    else lapicw (0x00F0 / 4) 0x127
        ∷ lapicw (0x03E0 / 4) 0xB
        ∷ lapicw (0x0320 / 4) 0x20020
        ∷ lapicw (0x0380 / 4) 10000000
        ∷ (if is_bsp then [] else lapicw (0x0350 / 4) 0x10000 ∷ [])
      ++ lapicw (0x0360 / 4) 0x10000
        ∷ (if leb 4 (ver / 2 ^ 16 % 256) then lapicw (0x0340 / 4) 0x10000 ∷ [] else [])
      ++ lapicw (0x0370 / 4) 0x33
        ∷ lapicw (0x0280 / 4) 0
        ∷ lapicw (0x0280 / 4) 0
        ∷ lapicw (0x00B0 / 4) 0
        ∷ lapicw icrhi 0
        ∷ lapicw icrlo 0x88500
        ∷ wait_delivered
        ∷ lapicw (0x0080 / 4) 0
        ∷ []

-- `mapped` says that `lapic` is not NULL, and `id` is the value of the register ID.
unfoldable pub cpunum : (mapped : Bool) (id : ℕ) → ℕ
cpunum mapped id = if mapped then id / 2 ^ 24 else 0

unfoldable pub lapic_eoi : (mapped : Bool) → List Event
lapic_eoi mapped = if mapped then lapicw (0x00B0 / 4) 0 ∷ [] else []

-- One of the two rounds of the loop
abbrev pub send_startup : (apicid addr : ℕ) → List Event → List Event
send_startup apicid addr rest =
    lapicw icrhi (apicid * 2 ^ 24) ∷ lapicw icrlo (bit_or 0x600 (addr / 2 ^ 12)) ∷ rest

unfoldable pub lapic_startap : (apicid addr : ℕ) → List Event
lapic_startap apicid addr =
    outb 0x70 0xF
    ∷ outb 0x71 0x0A
    ∷ store16 0x467 0
    ∷ store16 0x469 (addr / 2 ^ 4 % 2 ^ 16)
    ∷ lapicw icrhi (apicid * 2 ^ 24)
    ∷ lapicw icrlo 0xC500
    ∷ lapicw icrlo 0x8500
    ∷ send_startup apicid addr (send_startup apicid addr [])

unfoldable pub lapic_ipi : (vector : ℕ) → List Event
lapic_ipi vector = lapicw icrlo (bit_or 0xC0000 vector) ∷ wait_delivered ∷ []

-- `self` is cpunum().
module _ (self : ℕ) (cpu_id : ℕ → ℕ) (percpu_kstacks : ℕ → ℕ) where
  unfoldable pub boot_ap : (c : ℕ) → List Event
  boot_ap c =
      if c == self
      then []
      else set_kstack (percpu_kstacks c + kstksize) ∷ lapic_startap (cpu_id c) mpentry_paddr
        ++ wait_started c ∷ []

  unfoldable pub boot_from : (n c : ℕ) → List Event
  boot_from zero c = []
  boot_from (suc n) c = boot_ap c ++ boot_from n (c + 1)

  unfoldable pub boot_aps : (ncpu : ℕ) → List Event
  boot_aps ncpu = copy_entry ∷ boot_from ncpu 0

-- The mask that is kept, and what is written when the controllers are initialised
unfoldable pub irq_setmask_8259A : (mask : ℕ) (didinit : Bool) → ℕ × List Event
irq_setmask_8259A mask didinit =
    (mask, if didinit then outb 0x21 (mask % 256) ∷ outb 0xA1 (mask / 256 % 256) ∷ [] else [])

unfoldable pub pic_init : (mask : ℕ) → List Event
unfolding irq_setmask_8259A
pic_init mask =
    outb 0x21 0xFF
    ∷ outb 0xA1 0xFF
    ∷ outb 0x20 0x11
    ∷ outb 0x21 32
    ∷ outb 0x21 4
    ∷ outb 0x21 3
    ∷ outb 0xA0 0x11
    ∷ outb 0xA1 40
    ∷ outb 0xA1 2
    ∷ outb 0xA1 1
    ∷ outb 0x20 0x68
    ∷ outb 0x20 0x0A
    ∷ outb 0xA0 0x68
    ∷ outb 0xA0 0x0A
    ∷ (if mask == 0xFFFF then [] else (irq_setmask_8259A mask true).1)
