-- ===== src/Lapic/Startup.antt =====
-- What the writes of boot_aps start, by the processor's manual.
use comp530h.Base.{
  ℕ, zero, suc, ◌+◌, ◌*◌, ◌/◌, ◌%◌, ◌^◌, ◌≡◌, refl, not, Bool-cases, inl, inr, List, [], ◌∷◌,
  select, ◌==◌, if◌then◌else◌, arith, ap, ◌∙◌,
}
use comp530h.Layout.{mpentry_paddr}
use comp530h.Vm.{kstksize}
use comp530h.Lapic.{
  Event, outb, register, store16, wait_delivered, copy_entry, set_kstack, wait_started, icrlo,
  icrhi, lapic_startap, boot_ap, boot_from, boot_aps,
}

-- A startup message: the CPU it goes to, where that begins, and the stack that the entry code takes
pub record Start : Type 0 where
  pub apicid : ℕ
  pub address : ℕ
  pub kstack : ℕ

-- A write to ICRLO whose delivery mode is 6, start-up, sends the message to the CPU in the top byte of
-- ICRHI, with the page of the address in the lowest byte.
abbrev pub sent : (hi kstack value : ℕ) → List Start → List Start
sent hi kstack value rest =
    if value / 256 % 8 == 6
    then record { apicid = hi / 2 ^ 24; address = value % 256 * 4096; kstack = kstack } ∷ rest
    else rest

-- The startup messages of a sequence of events, with what ICRHI and `mpentry_kstack` hold before it
abbrev pub startups : (hi kstack : ℕ) → List Event → List Start
startups hi kstack [] = []
startups hi kstack (register index value ∷ es) =
    if index == icrhi
    then startups value kstack es
    else let rest = startups hi kstack es in
      if index == icrlo then sent hi kstack value rest else rest
startups hi kstack (set_kstack va ∷ es) = startups hi va es
startups hi kstack (outb port value ∷ es) = startups hi kstack es
startups hi kstack (store16 pa value ∷ es) = startups hi kstack es
startups hi kstack (wait_delivered ∷ es) = startups hi kstack es
startups hi kstack (copy_entry ∷ es) = startups hi kstack es
startups hi kstack (wait_started c ∷ es) = startups hi kstack es

-- The CPUs that are waited for, each with what `mpentry_kstack` holds then
abbrev pub waits : (kstack : ℕ) → List Event → List (ℕ × ℕ)
waits kstack [] = []
waits kstack (wait_started c ∷ es) = (c, kstack) ∷ waits kstack es
waits kstack (set_kstack va ∷ es) = waits va es
waits kstack (register index value ∷ es) = waits kstack es
waits kstack (outb port value ∷ es) = waits kstack es
waits kstack (store16 pa value ∷ es) = waits kstack es
waits kstack (wait_delivered ∷ es) = waits kstack es
waits kstack (copy_entry ∷ es) = waits kstack es

shifted : (a : ℕ) → a * 2 ^ 24 / 2 ^ 24 ≡ a
shifted a = omega arith

module _ (self : ℕ) (cpu_id percpu_kstacks : ℕ → ℕ) where
  -- The top of the stack of CPU `c`, and the message for it
  abbrev pub top : (c : ℕ) → ℕ
  top c = percpu_kstacks c + kstksize

  abbrev start_at : (a c : ℕ) → Start
  start_at a c = record { apicid = a; address = mpentry_paddr; kstack = top c }

  abbrev pub start_of : (c : ℕ) → Start
  start_of c = start_at (cpu_id c) c

  abbrev rest : (n c : ℕ) → List Event
  rest n c = boot_from self cpu_id percpu_kstacks n (c + 1)

  -- Two messages for each CPU
  abbrev pub twice : List ℕ → List Start
  twice [] = []
  twice (c ∷ cs) = start_of c ∷ start_of c ∷ twice cs

  abbrev pub tops : List ℕ → List (ℕ × ℕ)
  tops [] = []
  tops (c ∷ cs) = (c, top c) ∷ tops cs

  boot_from-startups :
      (n c hi kstack : ℕ)
      → startups hi kstack (boot_from self cpu_id percpu_kstacks n c)
        ≡ twice (select (λ d. not (d == self)) n c)
  unfolding boot_from boot_ap lapic_startap
  boot_from-startups zero c hi kstack = refl
  boot_from-startups (suc n) c hi kstack = elim (Bool-cases (c == self)) [
    | inl e ↦ rw e (boot_from-startups n (c + 1) hi kstack)
    | inr e ↦ rw e (
        ap (λ a. start_at a c ∷ start_at a c ∷ startups (cpu_id c * 2 ^ 24) (top c) (rest n c))
          (shifted (cpu_id c))
        ∙ ap (λ l. start_of c ∷ start_of c ∷ l)
            (boot_from-startups n (c + 1) (cpu_id c * 2 ^ 24) (top c)))
  ]

  boot_from-waits :
      (n c kstack : ℕ)
      → waits kstack (boot_from self cpu_id percpu_kstacks n c)
        ≡ tops (select (λ d. not (d == self)) n c)
  unfolding boot_from boot_ap lapic_startap
  boot_from-waits zero c kstack = refl
  boot_from-waits (suc n) c kstack = elim (Bool-cases (c == self)) [
    | inl e ↦ rw e (boot_from-waits n (c + 1) kstack)
    | inr e ↦ rw e (ap (λ l. (c, top c) ∷ l) (boot_from-waits n (c + 1) (top c)))
  ]

  -- Whatever ICRHI and `mpentry_kstack` hold before, boot_aps sends two startup messages to every CPU but
  -- its own, in the order of `cpus`, and no others: to the CPU's local APIC, at the page of the entry
  -- code, with `mpentry_kstack` at the top of the CPU's stack; and that is what `mpentry_kstack` holds
  -- still while boot_aps waits for the CPU, which it does for each of them.
  pub boot_aps-startups :
      (ncpu hi kstack : ℕ)
      → (startups hi kstack (boot_aps self cpu_id percpu_kstacks ncpu)
          ≡ twice (select (λ d. not (d == self)) ncpu 0))
        × (waits kstack (boot_aps self cpu_id percpu_kstacks ncpu)
            ≡ tops (select (λ d. not (d == self)) ncpu 0))
  unfolding boot_aps
  boot_aps-startups ncpu hi kstack =
      (boot_from-startups ncpu 0 hi kstack, boot_from-waits ncpu 0 kstack)
