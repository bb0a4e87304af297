-- ===== src/Lock/Progress.antt =====
-- A CPU that waits for the lock can always get it.
use comp530h.Base.{
  ℕ, ◌<◌, ◌≤◌, ◌≡◌, ◌≢◌, refl, true, Option, none, some, arith, update, ==_self, ◌∙◌,
}
use native.Mathlib.Decide.{dec_lt}
use comp530h.Lock.{
  Spinlock, Pc, outside, found_locked, spinning, entered, critical, saw_locked, held, leaving,
  panicked, Move, win, record_cpu, unlock, own, clear_cpu, release, System, Step, turn, start,
  Reach, here, later,
}
use comp530h.Lock.Safety.{Inv, Step-Inv, Reach-Inv, start-Inv, mine, Shows, is_owner, is_inside}

not_lt→le : (a b : ℕ) → ¬ (a < b) → b ≤ a
not_lt→le a b h = omega arith

Reach-trans : {n : ℕ} {s t u : System} → Reach n s t → Reach n t u → Reach n s u
Reach-trans r here = r
Reach-trans r (later q st) = later (Reach-trans r q) st

-- CPUs from `n` on never move.
Reach-outside : {n : ℕ} {s : System} (i : ℕ) → n ≤ i → Reach n start s → s.pc i ≡ outside
Reach-outside i h here = refl
Reach-outside i h (later r (turn j lt m)) = ground (arith, Reach-outside i h r)

-- CPU `i` moves from `p`.
step :
    (n : ℕ) (s : System) (i : ℕ) (p q : Pc) (l : Spinlock)
    → i < n
    → s.pc i ≡ p
    → Move i s.lock p l q
    → Step n s (record { lock = l; pc = update s.pc i q })
step n s i p q l lt e m = turn i lt (rw e m)

-- From here on CPU `j` can enter.
abbrev Enters : (n : ℕ) → System → ℕ → Type 0
Enters n s j = (t : System) × Reach n s t × (t.pc j ≡ entered)

module _ (n i j : ℕ) (i_lt : i < n) (j_lt : j < n) where
  Enters-free : (s : System) → s.lock.locked ≡ 0 → s.pc j ≡ spinning → Enters n s j
  Enters-free s z e = (
    record { lock = record { locked = 1; cpu = s.lock.cpu }; pc = update s.pc j entered },
    later here (step n s j spinning entered _ j_lt e (win z)),
    rw (==_self j) refl,
  )

  -- One step of `i`, and what follows it.
  then-Enters :
      (s : System) (p q : Pc) (l : Spinlock)
      → s.pc i ≡ p
      → Move i s.lock p l q
      → Enters n (record { lock = l; pc = update s.pc i q }) j
      → Enters n s j
  then-Enters s p q l e m (t, r, f) = (t, Reach-trans (later here (step n s i p q l i_lt e m)) r, f)

  keeps :
      (s : System) (p q : Pc)
      → s.pc i ≡ p
      → s.pc j ≡ spinning
      → p ≢ spinning
      → update s.pc i q j ≡ spinning
  keeps s p q e f ne = ground (arith, e, f)

  Enters-leaving : (s : System) → s.pc i ≡ leaving → s.pc j ≡ spinning → Enters n s j
  Enters-leaving s e f =
      then-Enters s leaving outside (record (s.lock) { locked = 0 }) e release
        (Enters-free _ refl (ground (arith, e, f)))

  Enters-held : (s : System) → s.pc i ≡ held → s.pc j ≡ spinning → Enters n s j
  Enters-held s e f =
      then-Enters s held leaving (record (s.lock) { cpu = none }) e clear_cpu
        (Enters-leaving _ (rw (==_self i) refl) (ground (arith, e, f)))

  Enters-saw_locked : (s : System) → Inv s → s.pc i ≡ saw_locked → s.pc j ≡ spinning → Enters n s j
  Enters-saw_locked s v e f =
      then-Enters s saw_locked held s.lock e (own (mine s i saw_locked v e refl).1)
        (Enters-held _ (rw (==_self i) refl) (ground (arith, e, f)))

  Enters-critical : (s : System) → Inv s → s.pc i ≡ critical → s.pc j ≡ spinning → Enters n s j
  Enters-critical s v e f =
      let m : Move i s.lock critical s.lock saw_locked =
        unlock (omega (arith, (mine s i critical v e refl).0)) in
      then-Enters s critical saw_locked s.lock e m (
        Enters-saw_locked _ (Step-Inv (step n s i critical saw_locked s.lock i_lt e m) v)
          (rw (==_self i) refl) (ground (arith, e, f)))

  Enters-entered : (s : System) → Inv s → s.pc i ≡ entered → s.pc j ≡ spinning → Enters n s j
  Enters-entered s v e f =
      then-Enters s entered critical (record (s.lock) { cpu = some i }) e record_cpu
        (Enters-critical _ (Step-Inv (step n s i entered critical _ i_lt e record_cpu) v)
          (rw (==_self i) refl) (ground (arith, e, f)))

  Enters-inside :
      (s : System) (p : Pc)
      → Inv s
      → s.pc i ≡ p
      → is_inside p ≡ true
      → s.pc j ≡ spinning
      → Enters n s j
  Enters-inside s entered v e is f = Enters-entered s v e f
  Enters-inside s critical v e is f = Enters-critical s v e f
  Enters-inside s saw_locked v e is f = Enters-saw_locked s v e f
  Enters-inside s held v e is f = Enters-held s e f
  Enters-inside s leaving v e is f = Enters-leaving s e f
  Enters-inside s outside v e is f = absurd (cc is)
  Enters-inside s found_locked v e is f = absurd (cc is)
  Enters-inside s spinning v e is f = absurd (cc is)
  Enters-inside s panicked v e is f = absurd (cc is)

-- In every state that n CPUs reach from the initialised lock, a CPU that spins can get the lock:
-- there is a run of the CPUs from there that ends with its exchange having succeeded.
pub Reach-Enters :
    (n : ℕ) (s : System) (j : ℕ) → j < n → Reach n start s → s.pc j ≡ spinning → Enters n s j
Reach-Enters n s j lt r f = let v = Reach-Inv r start-Inv in by_owner v.owner v v.shows v.alone
  where
    by_owner :
        (o : Option ℕ)
        → Inv s
        → Shows s.lock s.pc o
        → ((i : ℕ) → is_inside (s.pc i) ≡ is_owner i o)
        → Enters n s j
    by_owner none v sh a = Enters-free n j j lt lt s sh.0 f
    by_owner (some i) v sh a =
        let is : is_inside (s.pc i) ≡ true = a i ∙ ==_self i in
        elim (dec_lt i n) [
          | yes small ↦ Enters-inside n i j small lt s (s.pc i) v refl is f
          | no big ↦ absurd (ground (arith, Reach-outside i (not_lt→le i n big) r, is))
        ]
