-- ===== src/Tests/Programs.antt =====
-- The user library, with a kernel that accepts every call and gives a child the id 0x1001, and the boot
-- loader.
use comp530h.Base.{
  ◌*◌, ◌%◌, ap, zero, arith, suc, some, ◌<◌, ◌^◌, ℕ, ◌-◌, ◌+◌, List, [], ◌∷◌, ◌≡◌, refl, true,
  false,
}
use comp530h.Layout.{flag, pgsize, uxstacktop}
use comp530h.User.{
  Call, page_alloc, page_map, exofork, set_upcall, Process, returned, syscall_stub, must,
}
use comp530h.User.Fork.{
  Level, fork, finish_child, dup_pages, duppage, set_pgfault_handler, utext, perm_cow,
}
use comp530h.User.Fork.Shares.{Guards, fork-Guards}
use comp530h.User.Ipc.{minus_not_recv, ipc_send}
use comp530h.User.Ipc.Send.{attempt_of, rounds, result_of, ipc_send_lem}
use comp530h.User.Fork.Order.{child_calls, AreTaken, fork-IsReady}
use comp530h.Bytes.{Memory}
use comp530h.Boot.{readseg}
use comp530h.Boot.Segment.{IsAta, readseg_lem}

abbrev accepts : List Call → Call → ℕ
accepts cs exofork = 0x1001
accepts cs _ = 0

-- Every page is mapped, and may be written.
abbrev writable : List Call → Level → ℕ → ℕ
writable cs level i = 7

abbrev fresh : Process
fresh = record { calls = []; handler_set = false; thisenv = 0 }

abbrev self : ℕ
self = 0x1000

-- A program of one page
abbrev end_of_text : ℕ
end_of_text = utext + pgsize

abbrev before_child : List Call
before_child =
    page_map self utext self utext perm_cow
    ∷ page_map self utext 0x1001 utext perm_cow
    ∷ exofork
    ∷ set_upcall self
    ∷ page_alloc self (uxstacktop - pgsize) 7
    ∷ []

abbrev forked : Process
forked = record {
  calls = child_calls accepts self 0x1001 before_child;
  handler_set = true;
  thisenv = 0;
}

fork_run : fork accepts writable self end_of_text fresh ≡ returned 0x1001 forked
unfolding fork finish_child dup_pages duppage set_pgfault_handler syscall_stub must flag
fork_run = refl

fork-Guards_example : Guards accepts self (fork accepts writable self end_of_text fresh)
fork-Guards_example = fork-Guards accepts writable self end_of_text fresh tt

fork-IsReady_example :
    (before : List Call) × (forked.calls ≡ child_calls accepts self 0x1001 before)
    × AreTaken accepts 7 forked.calls
fork-IsReady_example =
    fork-IsReady accepts writable self end_of_text 0x1001 fresh forked fork_run (omega arith) refl

-- A receiver that waits from the third attempt on
abbrev waits_later : List Call → Call → ℕ
waits_later (a ∷ b ∷ c ∷ d ∷ cs) e = 0
waits_later cs e = 2 ^ 64 - 8

refused_twice :
    (i : ℕ)
    → i < 2
    → result_of waits_later (rounds i (attempt_of 0x1001 5 0 0) []) (attempt_of 0x1001 5 0 0)
      ≡ minus_not_recv
refused_twice zero l = refl
refused_twice (suc zero) l = refl
refused_twice (suc (suc i)) l = absurd (omega arith)

ipc_send_lem_example :
    ipc_send waits_later 3 0x1001 5 0 0 fresh
    ≡ returned
        (some tt)
        (record fresh { calls = attempt_of 0x1001 5 0 0 ∷ rounds 2 (attempt_of 0x1001 5 0 0) [] })
ipc_send_lem_example =
    ipc_send_lem waits_later 0x1001 5 0 0 2 3 fresh (omega arith) refused_twice (omega arith)

-- Byte `i` of the disk is `i % 256`.
abbrev image : ℕ → ℕ
image i = i % 256

abbrev disk : List (ℕ × ℕ) → ℕ → ℕ
disk (count ∷ (_, a) ∷ (_, b) ∷ (_, c) ∷ (_, d) ∷ rest) i =
    image ((a + b * 2 ^ 8 + c * 2 ^ 16 + (d - 0xE0) * 2 ^ 24) * 512 + i)
disk ports i = 0

disk-IsAta : IsAta disk image
disk-IsAta a b c d i ha hb hc hd =
    ap (λ x. image ((a + b * 2 ^ 8 + c * 2 ^ 16 + x * 2 ^ 24) * 512 + i)) {x = 0xE0 + d - 0xE0}
      {y = d} (omega arith)

abbrev no_memory : Memory
no_memory a = 0

readseg_lem_example :
    (loaded : Memory) × (readseg disk 3 0x10010 100 16 no_memory ≡ some loaded)
    × ((a : ℕ) → a < 0x10000 → loaded a ≡ 0)
    × ((i : ℕ) → i < 100 → loaded (0x10010 + i) ≡ image (528 + i))
readseg_lem_example =
    readseg_lem disk image disk-IsAta 3 0x10010 100 16 no_memory (omega arith) (omega arith) refl
      (omega arith) (omega arith)
