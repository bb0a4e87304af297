-- ===== src/Lock/Safety.antt =====
-- Mutual exclusion: at most one CPU is between the exchanges of `spin_lock` and `spin_unlock`.
use comp530h.Base.{
  ℕ, ◌≡◌, ◌≢◌, refl, sym, Bool, true, false, Option, none, some, arith, update, ◌==◌, if◌then◌else◌,
  ==_self, ne→==, ap, ◌∙◌,
}
use comp530h.Lock.{
  Spinlock, Pc, outside, found_locked, spinning, entered, critical, saw_locked, held, leaving,
  panicked, Move, not_locked, is_locked, already_holding, not_holding, pause, win, record_cpu,
  unlock, unlock_unlocked, own, not_own, clear_cpu, release, System, Step, turn, start, Reach, here,
  later,
}

-- The lock is taken by the exchange of this CPU.
abbrev pub is_inside : Pc → Bool
is_inside entered = true
is_inside critical = true
is_inside saw_locked = true
is_inside held = true
is_inside leaving = true
is_inside _ = false

-- `lk->cpu` names the CPU that stands here.
abbrev pub is_named : Pc → Bool
is_named critical = true
is_named saw_locked = true
is_named held = true
is_named _ = false

abbrev pub has_panicked : Pc → Bool
has_panicked panicked = true
has_panicked _ = false

abbrev pub is_owner : ℕ → Option ℕ → Bool
is_owner j none = false
is_owner j (some i) = j == i

-- The lock's word and its owner's name.
abbrev pub Shows : Spinlock → (ℕ → Pc) → Option ℕ → Type 0
Shows l pc none = (l.locked ≡ 0) × (l.cpu ≡ none)
Shows l pc (some i) = (l.locked ≡ 1) × (l.cpu ≡ (if is_named (pc i) then some i else none))

-- Of all CPUs the owner alone is inside, and no CPU has panicked.
pub record Inv (s : System) : Type 0 where
  pub owner : Option ℕ
  pub shows : Shows s.lock s.pc owner
  pub alone : (j : ℕ) → is_inside (s.pc j) ≡ is_owner j owner
  pub calm : (j : ℕ) → has_panicked (s.pc j) ≡ false

pub start-Inv : Inv start
start-Inv = record { owner = none; shows = (refl, refl); alone = λ j. refl; calm = λ j. refl }

module _ (s : System) (i : ℕ) where
  -- A CPU outside that leaves the lock as it is, or sets it again.
  stays :
      (l : Spinlock) (p : Pc)
      → is_inside (s.pc i) ≡ false
      → is_inside p ≡ false
      → has_panicked p ≡ false
      → l.locked ≡ s.lock.locked
      → l.cpu ≡ s.lock.cpu
      → Inv s
      → Inv (record { lock = l; pc = update s.pc i p })
  stays l p was is calm e e' v = record {
    owner = v.owner;
    shows = shows v.owner v.shows (v.alone i);
    alone = λ j. ground (arith, v.alone j, was);
    calm = λ j. ground (arith, v.calm j);
  }
    where
      shows :
          (o : Option ℕ)
          → Shows s.lock s.pc o
          → is_inside (s.pc i) ≡ is_owner i o
          → Shows l (update s.pc i p) o
      shows none h a = ground arith
      shows (some o) h a = ground (arith)

  -- A CPU that is inside is the owner.
  owner-is :
      Inv s
      → is_inside (s.pc i) ≡ true
      → (v : Shows s.lock s.pc (some i)) × ((j : ℕ) → is_inside (s.pc j) ≡ (j == i))
  owner-is v h = go v.owner v.shows v.alone
    where
      go :
          (o : Option ℕ)
          → Shows s.lock s.pc o
          → ((j : ℕ) → is_inside (s.pc j) ≡ is_owner j o)
          → (v : Shows s.lock s.pc (some i)) × ((j : ℕ) → is_inside (s.pc j) ≡ (j == i))
      go none sh a = absurd (ground (arith, a i, h))
      go (some o) sh a = let e : i ≡ o = ground (arith, a i, h) in rw e (sh, a)

  -- A CPU that is the only one inside from now on.
  takes :
      (l : Spinlock) (p : Pc)
      → is_inside p ≡ true
      → ((j : ℕ) → j ≢ i → is_inside (s.pc j) ≡ false)
      → l.locked ≡ 1
      → l.cpu ≡ (if is_named p then some i else none)
      → Inv s
      → Inv (record { lock = l; pc = update s.pc i p })
  takes l p is others e e' v = record {
    owner = some i;
    shows = (e, rw (==_self i) e');
    alone = λ j. ground (arith, others j, is);
    calm = λ j. ground (arith, v.calm j, is);
  }

  leaves :
      (l : Spinlock)
      → ((j : ℕ) → j ≢ i → is_inside (s.pc j) ≡ false)
      → l.locked ≡ 0
      → l.cpu ≡ none
      → Inv s
      → Inv (record { lock = l; pc = update s.pc i outside })
  leaves l others e e' v = record {
    owner = none;
    shows = (e, e');
    alone = λ j. ground (arith, others j);
    calm = λ j. ground (arith, v.calm j);
  }

  -- While the word is 0 nobody is inside.
  nobody : Inv s → s.lock.locked ≡ 0 → ((j : ℕ) → is_inside (s.pc j) ≡ false) × (s.lock.cpu ≡ none)
  nobody v z = go v.owner v.shows v.alone
    where
      go :
          (o : Option ℕ)
          → Shows s.lock s.pc o
          → ((j : ℕ) → is_inside (s.pc j) ≡ is_owner j o)
          → ((j : ℕ) → is_inside (s.pc j) ≡ false) × (s.lock.cpu ≡ none)
      go none sh a = (a, sh.1)
      go (some o) sh a = absurd (omega (arith, sh.0, z))

  -- A CPU outside is not named, and a word that is not 0 is 1.
  unnamed :
      Inv s
      → is_inside (s.pc i) ≡ false
      → (s.lock.cpu ≢ some i) × (s.lock.locked ≢ 0 → s.lock.locked ≡ 1)
  unnamed v out = go v.owner v.shows v.alone
    where
      go :
          (o : Option ℕ)
          → Shows s.lock s.pc o
          → ((j : ℕ) → is_inside (s.pc j) ≡ is_owner j o)
          → (s.lock.cpu ≢ some i) × (s.lock.locked ≢ 0 → s.lock.locked ≡ 1)
      go none sh a = (λ e. cc (sh.1, e), λ ne. absurd (ne sh.0))
      go (some o) sh a = (λ e. ground (arith, sh.1, e, a i, out), λ ne. sh.0)

  -- What the owner knows.
  pub mine :
      (p : Pc)
      → Inv s
      → s.pc i ≡ p
      → is_inside p ≡ true
      → (s.lock.locked ≡ 1)
        × (s.lock.cpu ≡ (if is_named p then some i else none))
        × ((j : ℕ) → j ≢ i → is_inside (s.pc j) ≡ false)
  mine p v e is =
      let (sh, a) = owner-is v (rw e is) in
      (sh.0, sh.1 ∙ ap (λ x. if is_named x then some i else none) e, λ j ne. a j ∙ ne→== j i ne)

-- Every step keeps the invariant: an outsider does not find its own name in the lock, and the owner
-- finds the lock set with its name.
Move-Inv :
    (s : System) (i : ℕ) (p q : Pc) (l : Spinlock)
    → s.pc i ≡ p
    → Move i s.lock p l q
    → Inv s
    → Inv (record { lock = l; pc = update s.pc i q })
Move-Inv s i _ _ _ e (not_locked h) v = stays s i s.lock spinning (rw e refl) refl refl refl refl v
Move-Inv s i _ _ _ e (is_locked h) v =
    stays s i s.lock found_locked (rw e refl) refl refl refl refl v
Move-Inv s i _ _ _ e (already_holding h) v = absurd ((unnamed s i v (rw e refl)).0 h)
Move-Inv s i _ _ _ e (not_holding h) v = stays s i s.lock spinning (rw e refl) refl refl refl refl v
Move-Inv s i _ _ _ e (pause h) v =
    stays s i (record { locked = 1; cpu = s.lock.cpu }) spinning (rw e refl) refl refl
      (sym ((unnamed s i v (rw e refl)).1 h)) refl v
Move-Inv s i _ _ _ e (win h) v =
    let (out, clear) = nobody s i v h in
    takes s i (record { locked = 1; cpu = s.lock.cpu }) entered refl (λ j ne. out j) refl clear v
Move-Inv s i _ _ _ e record_cpu v =
    let (one, _, out) = mine s i entered v e refl in
    takes s i (record { locked = s.lock.locked; cpu = some i }) critical refl out one refl v
Move-Inv s i _ _ _ e (unlock h) v =
    let (one, name, out) = mine s i critical v e refl in
    takes s i s.lock saw_locked refl out one name v
Move-Inv s i _ _ _ e (unlock_unlocked h) v =
    absurd (omega (arith, (mine s i critical v e refl).0, h))
Move-Inv s i _ _ _ e (own h) v =
    let (one, name, out) = mine s i saw_locked v e refl in takes s i s.lock held refl out one name v
Move-Inv s i _ _ _ e (not_own h) v = absurd (h (mine s i saw_locked v e refl).1)
Move-Inv s i _ _ _ e clear_cpu v =
    let (one, _, out) = mine s i held v e refl in
    takes s i (record { locked = s.lock.locked; cpu = none }) leaving refl out one refl v
Move-Inv s i _ _ _ e release v =
    let (_, name, out) = mine s i leaving v e refl in
    leaves s i (record { locked = 0; cpu = s.lock.cpu }) out refl name v

pub Step-Inv : {n : ℕ} {s t : System} → Step n s t → Inv s → Inv t
Step-Inv {s = s} (turn i {l} {p} h m) v = Move-Inv s i (s.pc i) p l refl m v

pub Reach-Inv : {n : ℕ} {s t : System} → Reach n s t → Inv s → Inv t
Reach-Inv here v = v
Reach-Inv (later r st) v = Step-Inv st (Reach-Inv r v)

-- In every state that n CPUs reach from the initialised lock, interleaved in any order, while one CPU
-- is between the exchange of spin_lock and that of spin_unlock, no other CPU is.
pub Reach-exclusive :
    (n : ℕ) (s : System) (i j : ℕ)
    → Reach n start s
    → is_inside (s.pc i) ≡ true
    → j ≢ i
    → is_inside (s.pc j) ≡ false
Reach-exclusive n s i j r a ne = (mine s i (s.pc i) (Reach-Inv r start-Inv) refl a).2 j ne

-- In every state that n CPUs reach from the initialised lock, no CPU has panicked: none finds that
-- it already holds the lock it asks for, or does not hold the one it releases.
pub Reach-calm : (n : ℕ) (s : System) (i : ℕ) → Reach n start s → s.pc i ≢ panicked
Reach-calm n s i r e = ground (arith, (Reach-Inv r start-Inv).calm i, e)
