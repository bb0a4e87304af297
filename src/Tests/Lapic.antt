-- ===== src/Tests/Lapic.antt =====
-- Three CPUs, the first of which starts the others.
use comp530h.Base.{ℕ, ◌+◌, ◌*◌, ◌≡◌, [], ◌∷◌}
use comp530h.Lapic.{boot_aps}
use comp530h.Lapic.Startup.{startups, waits, twice, boot_aps-startups}

abbrev stacks : ℕ → ℕ
stacks c = 0x8004300000 + c * 0x10000

boot_aps-startups_example :
    (startups 0 0 (boot_aps 0 (λ c. c) stacks 3) ≡ twice 0 (λ c. c) stacks (1 ∷ 2 ∷ []))
    × (waits 0 (boot_aps 0 (λ c. c) stacks 3) ≡ (1, 0x8004320000) ∷ (2, 0x8004330000) ∷ [])
boot_aps-startups_example = boot_aps-startups 0 (λ c. c) stacks 3 0 0
