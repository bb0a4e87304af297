-- ===== src/Kernel/Defs.antt =====
-- The kernel's state, its outcomes, and the reads and writes that the other modules are made of.
use comp530h.Base.{
  ℕ, zero, suc, ◌+◌, ◌%◌, ◌^◌, Bool, true, false, Option, none, some, List, update, leb,
  if◌then◌else◌,
}
use comp530h.Layout.{ppn}
use comp530h.Kernel.Env.{Env}

-- `struct PageInfo`
pub record PageInfo : Type 0 where
  pub pp_link : Option ℕ
  pub pp_ref : ℕ

-- Where a `pte_t *` points: a frame, and the index of a word in it.
pub record Slot : Type 0 where
  pub table : ℕ
  pub index : ℕ

-- `tlb` logs the addresses given to `invlpg`, `cr3` is the register, `cpunum` this CPU's number.
pub record Kernel : Type 0 where
  pub npages : ℕ
  pub npages_basemem : ℕ
  pub nextfree : Option ℕ
  pub pages : ℕ → PageInfo
  pub page_free_list : Option ℕ
  pub mem : ℕ → ℕ → ℕ
  pub boot_pml4e : ℕ
  pub mmio_base : ℕ
  pub user_mem_check_addr : ℕ
  pub envs : ℕ → Env
  pub env_free_list : Option ℕ
  pub curenv : Option ℕ
  pub cpunum : ℕ
  pub cr3 : ℕ
  pub tlb : List ℕ

-- How kernel code ends: with a value, in an environment (`env_run`), in `hlt` (`sched_halt`), in the
-- kernel monitor, in `panic`, or in a fault on a NULL pointer.
pub data Outcome {ℓ} (A : Type ℓ) : Type ℓ where
  done : A → Kernel → Outcome A
  runs : ℕ → Kernel → Outcome A
  halts : Kernel → Outcome A
  in_monitor : Kernel → Outcome A
  panics : Outcome A
  faults : Outcome A

abbrev pub K : Type 0 → Type 0
K A = Kernel → Outcome A

abbrev pub pure : {A : Type 0} → A → K A
pure a k = done a k

module _ {A B : Type 0} where
  abbrev pub and_then : Outcome A → (A → K B) → Outcome B
  and_then (done a k) f = f a k
  and_then (runs e k) f = runs e k
  and_then (halts k) f = halts k
  and_then (in_monitor k) f = in_monitor k
  and_then panics f = panics
  and_then faults f = faults

  infixl 5 ◌>>=◌ ◌>>◌
  abbrev pub ◌>>=◌ : K A → (A → K B) → K B
  m >>= f = λ k. and_then (m k) f

  abbrev pub ◌>>◌ : K A → K B → K B
  m >> n = m >>= λ _. n

-- `if (c) m;`
abbrev pub when : Bool → K (Unit {0}) → K (Unit {0})
when true m = m
when false m = pure tt

abbrev pub panic : {A : Type 0} → K A
panic k = panics

-- The state itself, for code that reads several globals.
abbrev pub get : K Kernel
get k = done k k

abbrev pub put : Kernel → K (Unit {0})
put k _ = done tt k

-- What a pointer points to; a fault at NULL.
abbrev pub deref : {A : Type 0} → Option A → K A
deref none k = faults
deref (some a) k = done a k

-- `pages[p] = i`
abbrev pub set_page : ℕ → PageInfo → Kernel → Kernel
set_page p i k = record k { pages = update k.pages p i }

abbrev pub set_env : ℕ → Env → Kernel → Kernel
set_env e v k = record k { envs = update k.envs e v }

-- `table[i] = w` in a frame
abbrev pub write : ℕ → ℕ → ℕ → Kernel → Kernel
write t i w k = record k { mem = update k.mem t (update (k.mem t) i w) }

abbrev pub store : Slot → ℕ → K (Unit {0})
store s w k = done tt (write s.table s.index w k)

abbrev pub load : Slot → K ℕ
load s k = done (k.mem s.table s.index) k

-- `for (j = i; j < i + n; j++) body(j);`
unfoldable pub for_range : ℕ → ℕ → (ℕ → K (Unit {0})) → K (Unit {0})
for_range zero i body = pure tt
for_range (suc n) i body = body i >> for_range n (i + 1) body

-- KADDR(pa): it panics unless the page number, cut to 32 bits, is below `npages`. The pointer is
-- given as the physical address.
unfoldable pub kaddr : ℕ → K ℕ
kaddr pa k = if leb k.npages (ppn pa % 2 ^ 32) then panics else done pa k
