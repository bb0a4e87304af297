-- ===== src/Tss/Loaded.antt =====
-- The task state segments after the CPUs have started, in any order.
use comp530h.Base.{
  ℕ, ◌+◌, ◌-◌, ◌*◌, ◌^◌, ◌≤◌, ◌<◌, ◌≡◌, ◌≢◌, refl, sym, ap, ◌∙◌, inl, inr, ◌⊎◌, List, [], ◌∷◌, true,
  Bool-cases, ◌==◌, ==→eq, has, update_self, update_ne, arith,
}
use mathlib.Core.Path.{subst}
use comp530h.Layout.{kstacktop}
use comp530h.Vm.{kstksize, kstkgap, cpu_limit, kstack_base}
use comp530h.Tss.{Cpus, trap_init_percpu, sizeof_taskstate, sizeof_gdt, gd_tss0, load_tss, set_busy}
use comp530h.Tss.Fields.{
  base_of, limit_of, access_of, base_of-settss, limit_of-settss, access_of-settss,
}
use comp530h.Tss.Words.{tss_slot, tss_word, tss_high, load_tss-low, load_tss-high, load_tss-other}

register_inj : (c d : ℕ) → gd_tss0 + c * 16 ≡ gd_tss0 + d * 16 → c ≡ d
register_inj c d h = omega arith

module _ (gdt : ℕ) (cpu_ts : ℕ → ℕ) where
  -- What `ltr` has loaded on CPU `c` is the selector of a descriptor inside the gdt, and of a present
  -- task state segment, marked as busy, with the address of cpus[c].cpu_ts, whose stack pointer is at the top of
  -- the CPU's kernel stack; and the interrupt table is loaded.
  abbrev pub IsLoaded : (c : ℕ) → Cpus → Type 0
  IsLoaded c cpus =
      (cpus.task_register c + 16 ≤ sizeof_gdt)
      × (base_of (cpus.words (gdt + cpus.task_register c))
            (cpus.words (gdt + cpus.task_register c + 8))
          ≡ cpu_ts c)
      × (limit_of (cpus.words (gdt + cpus.task_register c)) ≡ sizeof_taskstate)
      × (access_of (cpus.words (gdt + cpus.task_register c)) ≡ 0x8B)
      × (cpus.ts_esp0 c ≡ kstack_base c + kstksize)
      × (cpus.idt_loaded c ≡ 1)

  -- The same by the descriptor's words
  abbrev Loaded : (c : ℕ) → Cpus → Type 0
  Loaded c cpus =
      (cpus.task_register c ≡ gd_tss0 + c * 16)
      × (cpus.words (tss_slot gdt c) ≡ set_busy (tss_word cpu_ts c))
      × (cpus.words (tss_slot gdt c + 8) ≡ tss_high cpu_ts c)
      × (cpus.ts_esp0 c ≡ kstacktop - c * (kstksize + kstkgap))
      × (cpus.idt_loaded c ≡ 1)

  -- The CPUs run trap_init_percpu one after the other: boot_aps waits for each.
  abbrev pub start : List ℕ → Cpus → Cpus
  start [] cpus = cpus
  start (c ∷ cs) cpus = start cs (trap_init_percpu gdt cpu_ts c cpus)

module _ (gdt : ℕ) (cpu_ts : ℕ → ℕ) (h : gdt < 2 ^ 47) where
  ltr_lem : (c : ℕ) → gdt + (gd_tss0 + c * 16) ≡ tss_slot gdt c
  ltr_lem c = omega arith

  own-Loaded :
      (c : ℕ) (cpus : Cpus)
      → cpus.cpu_id c ≡ c
      → Loaded gdt cpu_ts c (trap_init_percpu gdt cpu_ts c cpus)
  unfolding trap_init_percpu
  own-Loaded c cpus e = (
    update_self cpus.task_register c (gd_tss0 + cpus.cpu_id c * 16) ∙ ap (λ i. gd_tss0 + i * 16) e,
    ap (λ i. load_tss gdt cpu_ts c i cpus.words (tss_slot gdt c)) e
        ∙ load_tss-low gdt cpu_ts h c c cpus.words,
    ap (λ i. load_tss gdt cpu_ts c i cpus.words (tss_slot gdt c + 8)) e
        ∙ load_tss-high gdt cpu_ts h c c cpus.words,
    update_self cpus.ts_esp0 c (kstacktop - cpus.cpu_id c * (kstksize + kstkgap))
        ∙ ap (λ i. kstacktop - i * (kstksize + kstkgap)) e,
    update_self cpus.idt_loaded c 1,
  )

  other-Loaded :
      (c d : ℕ) (cpus : Cpus)
      → cpus.cpu_id d ≡ d
      → c ≢ d
      → Loaded gdt cpu_ts c cpus
      → Loaded gdt cpu_ts c (trap_init_percpu gdt cpu_ts d cpus)
  unfolding trap_init_percpu
  other-Loaded c d cpus e n (r, l, t, s, i) = (
    update_ne cpus.task_register d c (gd_tss0 + cpus.cpu_id d * 16) n ∙ r,
    ap (λ j. load_tss gdt cpu_ts d j cpus.words (tss_slot gdt c)) e
        ∙ load_tss-other gdt cpu_ts h d d cpus.words (tss_slot gdt c) (omega arith) (omega arith)
        ∙ l,
    ap (λ j. load_tss gdt cpu_ts d j cpus.words (tss_slot gdt c + 8)) e
        ∙ load_tss-other gdt cpu_ts h d d cpus.words (tss_slot gdt c + 8) (omega arith)
            (omega arith)
        ∙ t,
    update_ne cpus.ts_esp0 d c (kstacktop - cpus.cpu_id d * (kstksize + kstkgap)) n ∙ s,
    update_ne cpus.idt_loaded d c 1 n ∙ i,
  )

  Loaded-IsLoaded :
      (c : ℕ) (cpus : Cpus)
      → c < cpu_limit
      → cpu_ts c < 2 ^ 64
      → Loaded gdt cpu_ts c cpus
      → IsLoaded gdt cpu_ts c cpus
  unfolding kstack_base
  Loaded-IsLoaded c cpus b hb (r, l, t, s, i) =
      let low = ap (λ a. cpus.words (gdt + a)) r ∙ ap cpus.words (ltr_lem c) ∙ l in
      let high =
        ap (λ a. cpus.words (gdt + a + 8)) r ∙ ap (λ a. cpus.words (a + 8)) (ltr_lem c) ∙ t in
      (
        omega arith,
        ap (λ w. base_of w (cpus.words (gdt + cpus.task_register c + 8))) low
            ∙ ap (base_of (set_busy (tss_word cpu_ts c))) high
            ∙ base_of-settss (cpu_ts c) sizeof_taskstate hb,
        ap limit_of low ∙ limit_of-settss (cpu_ts c) sizeof_taskstate (omega arith),
        ap access_of low ∙ access_of-settss (cpu_ts c) sizeof_taskstate,
        s ∙ omega arith,
        i,
      )

  start-segments :
      (cs : List ℕ) (cpus : Cpus) (j : ℕ)
      → ((i : ℕ) → cpus.cpu_id i ≡ i)
      → j < 5
      → (start gdt cpu_ts cs cpus).words (gdt + 8 * j) ≡ cpus.words (gdt + 8 * j)
  unfolding trap_init_percpu
  start-segments [] cpus j e b = refl
  start-segments (d ∷ cs) cpus j e b =
      start-segments cs (trap_init_percpu gdt cpu_ts d cpus) j e b
      ∙ load_tss-other gdt cpu_ts h d (cpus.cpu_id d) cpus.words (gdt + 8 * j) (omega arith)
          (omega arith)

  start-Loaded :
      (c : ℕ) (cs : List ℕ) (cpus : Cpus)
      → ((i : ℕ) → cpus.cpu_id i ≡ i)
      → (has c cs ≡ true) ⊎ Loaded gdt cpu_ts c cpus
      → Loaded gdt cpu_ts c (start gdt cpu_ts cs cpus)
  unfolding trap_init_percpu
  start-Loaded c [] cpus e (inr p) = p
  start-Loaded c [] cpus e (inl p) = absurd (cc p)
  start-Loaded c (d ∷ cs) cpus e p =
      start-Loaded c cs (trap_init_percpu gdt cpu_ts d cpus) e (elim (Bool-cases (c == d)) [
        | inl q ↦ inr (
            subst (λ x. Loaded gdt cpu_ts c (trap_init_percpu gdt cpu_ts x cpus)) (==→eq c d q)
              (own-Loaded c cpus (e c)))
        | inr q ↦ elim p [
          | inl m ↦ inl (cc (q, m))
          | inr l ↦ inr (other-Loaded c d cpus (e d) (λ r. absurd (ground arith)) l)
        ]
      ])

  -- When cpu_id is each CPU's own index, as mp_init sets it, and the CPUs of a list run trap_init_percpu
  -- one after the other in that order, then on every CPU `c` of the list below NCPU what `ltr` loaded
  -- is inside the gdt and describes a present task state segment, marked as busy, of the size of
  -- cpus[c].cpu_ts at its address, with the stack pointer at the top of the stack that mem_init_mp maps
  -- for `c`, and the interrupt table is loaded. Two of the CPUs have not loaded the same descriptor,
  -- and the null, kernel and user segments are as they were. The gdt is below 2^47, so that
  -- `gdt_pd >> 16` is not negative.
  pub trap_init_percpu-IsLoaded :
      (cs : List ℕ) (cpus : Cpus)
      → ((i : ℕ) → cpus.cpu_id i ≡ i)
      → (c : ℕ) → c < cpu_limit
      → cpu_ts c < 2 ^ 64
      → has c cs ≡ true
      → IsLoaded gdt cpu_ts c (start gdt cpu_ts cs cpus)
        × ((d : ℕ)
            → has d cs ≡ true
            → d ≢ c
            → (start gdt cpu_ts cs cpus).task_register d
              ≢ (start gdt cpu_ts cs cpus).task_register c)
        × ((j : ℕ)
            → j < 5
            → (start gdt cpu_ts cs cpus).words (gdt + 8 * j) ≡ cpus.words (gdt + 8 * j))
  trap_init_percpu-IsLoaded cs cpus e c b hb m =
      let l = start-Loaded c cs cpus e (inl m) in
      (
        Loaded-IsLoaded c (start gdt cpu_ts cs cpus) b hb l,
        λ d m' n p.
            let l' = start-Loaded d cs cpus e (inl m') in
            n (register_inj d c (sym (l'.0) ∙ p ∙ l.0)),
        λ j. start-segments cs cpus j e,
      )
