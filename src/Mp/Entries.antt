-- ===== src/Mp/Entries.antt =====
-- The CPUs that `mp_init` enters.
use comp530h.Base.{
  ℕ, zero, suc, ◌+◌, ◌≤◌, ◌<◌, ◌≡◌, true, none, some, leb, ◌==◌, arith, ap, ◌∙◌, Bool-cases, inl,
  inr,
}
use mathlib.Core.Path.{subst}
use mathlib.Core.Option.{some-injective}
use comp530h.Bytes.{Memory}
use comp530h.Mp.{
  Cpus, ncpu_max, add_entry, boot_entry, entries_from, settle, init_at, Found, panicked, pointer,
  mpconfig, mp_init, conf_entry, conf_entries, conf_lapicaddr,
}

-- The slots below `ncpu` are numbered, and there are at most NCPU; the boot CPU's slot is not behind them.
pub record IsNumbered (s : Cpus) : Type 0 where
  pub few : s.ncpu ≤ ncpu_max
  pub ids : (j : ℕ) → j < s.ncpu → s.cpu_id j ≡ j
  pub first : s.cpu_id 0 ≡ 0
  pub boot : s.bootcpu ≤ ncpu_max

boot_entry-IsNumbered : (flags : ℕ) (s : Cpus) → IsNumbered s → IsNumbered (boot_entry flags s)
boot_entry-IsNumbered flags s h = record {
  few = ground (arith, h.few);
  ids = λ j lt. ground (arith, h.ids j);
  first = ground (arith, h.first);
  boot = ground (arith, h.few, h.boot);
}

add_entry-IsNumbered : (flags : ℕ) (s : Cpus) → IsNumbered s → IsNumbered (add_entry flags s)
unfolding add_entry
add_entry-IsNumbered flags s h = record {
  few = ground (arith, h.few);
  ids = λ j lt. ground (arith, h.ids j);
  first = ground (arith, h.first);
  boot = ground (arith, h.boot);
}

entries_from-IsNumbered :
    (m : Memory) (n p : ℕ) (s : Cpus) → IsNumbered s → IsNumbered (entries_from m n p s)
unfolding entries_from
entries_from-IsNumbered m zero p s h = h
entries_from-IsNumbered m (suc n) p s h = elim (Bool-cases (m p == 0)) [
  | inl e ↦ rw e (
      entries_from-IsNumbered m n (p + 20) (add_entry (m (p + 3)) (boot_entry (m (p + 3)) s)) (
        add_entry-IsNumbered (m (p + 3)) (boot_entry (m (p + 3)) s)
          (boot_entry-IsNumbered (m (p + 3)) s h)))
  | inr e ↦ elim (Bool-cases (leb (m p) 4)) [
    | inl f ↦ rw (e, f) (entries_from-IsNumbered m n (p + 8) s h)
    | inr f ↦ rw (e, f) (record { few = h.few; ids = h.ids; first = h.first; boot = h.boot })
  ]
]

settle-IsNumbered : (s : Cpus) → IsNumbered s → IsNumbered (settle s)
settle-IsNumbered s h = elim (Bool-cases s.ismp) [
  | inl e ↦ rw e (record { few = h.few; ids = h.ids; first = h.first; boot = h.boot })
  | inr e ↦ rw e (record {
    few = omega arith;
    ids = λ j lt. ap s.cpu_id {x = j} {y = 0} (omega arith) ∙ (h.first ∙ omega arith);
    first = h.first;
    boot = h.boot;
  })
]

init_at-IsNumbered :
    (m : Memory) (c : Found) (s t : Cpus) → IsNumbered s → init_at m c s ≡ some t → IsNumbered t
init_at-IsNumbered m panicked s t h e = cc e
init_at-IsNumbered m (pointer none) s t h e = subst IsNumbered (some-injective s t e) h
init_at-IsNumbered m (pointer (some conf)) s t h e =
    let begun : Cpus = record s { ismp = true; lapicaddr = conf_lapicaddr m conf } in
    let read : Cpus = entries_from m (conf_entry m conf) (conf_entries conf) begun in
    subst IsNumbered (some-injective (settle read) t e) (
      settle-IsNumbered read (
        entries_from-IsNumbered m (conf_entry m conf) (conf_entries conf) begun
          (record { few = h.few; ids = h.ids; first = h.first; boot = h.boot })))

-- If at most NCPU slots are entered, each with its own number, slot 0 has the number 0, and the boot
-- CPU's slot is at most NCPU, then all this is so after mp_init, whatever the configuration table holds,
-- unless it panics.
pub mp_init-IsNumbered :
    (npages : ℕ) (m : Memory) (s t : Cpus)
    → IsNumbered s
    → mp_init npages m s ≡ some t
    → IsNumbered t
unfolding mp_init
mp_init-IsNumbered npages m s t h =
    init_at-IsNumbered m (mpconfig npages m) (record s { bootcpu = 0 }) t
      (record { few = h.few; ids = h.ids; first = h.first; boot = omega arith })
