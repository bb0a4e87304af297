-- ===== src/Tests/Tss.antt =====
-- Two CPUs, the second first, with the gdt and the CPUs' structures above KERNBASE.
use comp530h.Base.{
  ℕ, ◌+◌, ◌*◌, ◌<◌, ◌≡◌, ◌≢◌, refl, true, if◌then◌else◌, ◌==◌, List, [], ◌∷◌, has, arith,
}
use comp530h.Tss.{Cpus, gdt_segments, settss, clear_s, set_busy, trap_init_percpu}
use comp530h.Tss.Loaded.{IsLoaded, start, trap_init_percpu-IsLoaded}

abbrev gdt_addr : ℕ
gdt_addr = 0x8004100000

abbrev ts_addr : ℕ → ℕ
ts_addr c = 0x8004200018 + c * 128

-- The word of a list at an offset from the gdt, zero behind it
abbrev segment_at : List ℕ → (a at : ℕ) → ℕ
segment_at [] a at = 0
segment_at (w ∷ ws) a at = if a == at then w else segment_at ws a (at + 8)

abbrev at_boot : Cpus
at_boot = record {
  cpu_id = λ c. c;
  ts_esp0 = λ c. 0;
  task_register = λ c. 0;
  idt_loaded = λ c. 0;
  words = λ a. segment_at gdt_segments a gdt_addr;
}

-- The descriptor of CPU 1
tss_run :
    ((start gdt_addr ts_addr (1 ∷ 0 ∷ []) at_boot).words 0x8004100038 ≡ 0x04008B2000980068)
    × ((start gdt_addr ts_addr (1 ∷ 0 ∷ []) at_boot).words 0x8004100040 ≡ 0x80)
unfolding trap_init_percpu settss clear_s set_busy
tss_run = (refl, refl)

kernel_text_run : segment_at gdt_segments 0x8004100008 gdt_addr ≡ 0x00AF9A000000FFFF
kernel_text_run = refl

trap_init_percpu-IsLoaded_example :
    IsLoaded gdt_addr ts_addr 1 (start gdt_addr ts_addr (1 ∷ 0 ∷ []) at_boot)
    × ((d : ℕ)
        → has d (1 ∷ 0 ∷ []) ≡ true
        → d ≢ 1
        → (start gdt_addr ts_addr (1 ∷ 0 ∷ []) at_boot).task_register d
          ≢ (start gdt_addr ts_addr (1 ∷ 0 ∷ []) at_boot).task_register 1)
    × ((j : ℕ)
        → j < 5
        → (start gdt_addr ts_addr (1 ∷ 0 ∷ []) at_boot).words (gdt_addr + 8 * j)
          ≡ at_boot.words (gdt_addr + 8 * j))
trap_init_percpu-IsLoaded_example =
    trap_init_percpu-IsLoaded gdt_addr ts_addr (omega arith) (1 ∷ 0 ∷ []) at_boot (λ i. refl) 1
      (omega arith) (omega arith) refl
