-- ===== src/Lock.antt =====
-- kern/spinlock.c and kern/spinlock.h: the big kernel lock, one shared access at a time. The record of
-- the call stack and the lock's name, which serve the debugger, are left out.
pub mod Safety
pub mod Progress
use comp530h.Base.{ℕ, ◌<◌, ◌≡◌, ◌≢◌, Option, none, some, update}

-- `struct spinlock`
pub record Spinlock : Type 0 where
  pub locked : ℕ
  pub cpu : Option ℕ

-- __spin_initlock
abbrev pub spin_initlock : Spinlock
spin_initlock = record { locked = 0; cpu = none }

-- Where a CPU stands.
pub data Pc : Type 0 where
  outside : Pc  -- before `spin_lock`, or after `spin_unlock`
  found_locked : Pc  -- in `holding` of `spin_lock`, with `locked` set
  spinning : Pc  -- the `while` of `spin_lock`
  entered : Pc  -- the exchange gave 0
  critical : Pc  -- `spin_lock` has returned
  saw_locked : Pc  -- in `holding` of `spin_unlock`, with `locked` set
  held : Pc  -- before `lk->cpu = 0`
  leaving : Pc  -- before the exchange of `spin_unlock`
  panicked : Pc

-- One step of CPU `i`. The exchange is atomic.
pub data Move (i : ℕ) (l : Spinlock) : Pc → Spinlock → Pc → Type 0 where
  -- spin_lock
  not_locked : l.locked ≡ 0 → Move i l outside l spinning
  is_locked : l.locked ≢ 0 → Move i l outside l found_locked
  already_holding : l.cpu ≡ some i → Move i l found_locked l panicked
  not_holding : l.cpu ≢ some i → Move i l found_locked l spinning
  pause : l.locked ≢ 0 → Move i l spinning (record l { locked = 1 }) spinning
  win : l.locked ≡ 0 → Move i l spinning (record l { locked = 1 }) entered
  record_cpu : Move i l entered (record l { cpu = some i }) critical
  -- spin_unlock
  unlock : l.locked ≢ 0 → Move i l critical l saw_locked
  unlock_unlocked : l.locked ≡ 0 → Move i l critical l panicked
  own : l.cpu ≡ some i → Move i l saw_locked l held
  not_own : l.cpu ≢ some i → Move i l saw_locked l panicked
  clear_cpu : Move i l held (record l { cpu = none }) leaving
  release : Move i l leaving (record l { locked = 0 }) outside

-- `n` CPUs on one lock, interleaved in any order.
pub record System : Type 0 where
  pub lock : Spinlock
  pub pc : ℕ → Pc

pub data Step (n : ℕ) (s : System) : System → Type 0 where
  turn :
      (i : ℕ) {l : Spinlock} {p : Pc}
      → i < n
      → Move i s.lock (s.pc i) l p
      → Step n s (record { lock = l; pc = update s.pc i p })

abbrev pub start : System
start = record { lock = spin_initlock; pc = λ _. outside }

pub data Reach (n : ℕ) (s : System) : System → Type 0 where
  here : Reach n s s
  later : {t u : System} → Reach n s t → Step n t u → Reach n s u
