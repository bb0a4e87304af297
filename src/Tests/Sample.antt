-- ===== src/Tests/Sample.antt =====
-- A small kernel: 16 pages, of which 10 and 11 are free; page 1 is a page map that leads through the
-- tables 2, 3 and 4, and maps page 5 at 0x5000 for reading; page 6 is the kernel's page map.
use comp530h.Base.{
  ℕ, ◌+◌, ◌*◌, ◌≡◌, refl, Bool, true, false, Option, none, some, [], ◌∷◌, ◌==◌, ◌&&◌, if◌then◌else◌,
  arith,
}
use comp530h.Layout.{flag}
use comp530h.Kernel.{Kernel, PageInfo, Status, free, runnable, running, not_runnable, user_type}
use comp530h.Kernel.Env.{Env}
use comp530h.Alloc.Chain.{nil, cons, IsFree}
use comp530h.Alloc.Free.{IsHeld}
use comp530h.Table.Route.{IsRoute, Passes}
use comp530h.Envs.{new_tf}

abbrev pub page_of : ℕ → PageInfo
page_of p =
    if p == 10
    then record { pp_link = some 11; pp_ref = 0 }
    else if p == 11
    then record { pp_link = none; pp_ref = 0 }
    else if p == 12
    then record { pp_link = none; pp_ref = 0 }
    else record { pp_link = none; pp_ref = 1 }

abbrev pub memory : ℕ → ℕ → ℕ
memory t i =
    if (t == 1) && (i == 0)
    then 2 * 4096 + 7
    else if (t == 2) && (i == 0)
    then 3 * 4096 + 7
    else if (t == 3) && (i == 0)
    then 4 * 4096 + 7
    else if (t == 4) && (i == 5)
    then 5 * 4096 + 5
    else if (t == 6) && (i == 1)
    then 2 * 4096 + 3
    else 0

abbrev pub env_of : (id parent_id : ℕ) → Status → Option ℕ → Bool → Env
env_of id parent_id status map waits = record {
  env_tf = new_tf;
  env_link = none;
  env_id = id;
  env_parent_id = parent_id;
  env_type = user_type;
  env_status = status;
  env_runs = 1;
  env_cpunum = 0;
  env_pml4e = map;
  env_cr3 = 4096;
  env_pgfault_upcall = 0;
  env_ipc_recving = waits;
  env_ipc_dstva = 0;
  env_ipc_value = 0;
  env_ipc_from = 0;
  env_ipc_perm = 7;
}

-- Slot 0 is the current environment, its child in slot 1 waits for a message, slot 2 can run, and the
-- others are free, slot 3 first.
abbrev pub slots : ℕ → Env
slots e =
    if e == 0
    then env_of 4096 0 running (some 1) false
    else if e == 1
    then env_of 4097 4096 not_runnable (some 1) true
    else if e == 2
    then env_of 4098 0 runnable (some 1) false
    else env_of 0 0 free none false

abbrev pub sample : Kernel
sample = record {
  npages = 16;
  npages_basemem = 4;
  nextfree = some 0x8004009000;
  pages = page_of;
  page_free_list = some 10;
  mem = memory;
  boot_pml4e = 6;
  mmio_base = 0;
  user_mem_check_addr = 0;
  envs = slots;
  env_free_list = some 3;
  curenv = some 0;
  cpunum = 0;
  cr3 = 4096;
  tlb = [];
}

pub sample-IsFree : IsFree sample (10 ∷ 11 ∷ [])
sample-IsFree = record {
  chain = cons (omega arith) refl refl (cons (omega arith) refl refl nil);
  small = omega arith;
}

-- A route for every address in the first two megabytes.
pub sample-IsRoute : IsRoute sample 1 0x5000 2 3 4
unfolding flag
sample-IsRoute = record {
  small = omega arith;
  top = record { present = refl; frame = refl; in_range = omega arith };
  middle = record { present = refl; frame = refl; in_range = omega arith };
  bottom = record { present = refl; frame = refl; in_range = omega arith };
  apart = (omega arith, omega arith, omega arith, omega arith, omega arith, omega arith);
}

pub sample-IsRoute_next : IsRoute sample 1 0x6000 2 3 4
unfolding flag
sample-IsRoute_next = record {
  small = omega arith;
  top = record { present = refl; frame = refl; in_range = omega arith };
  middle = record { present = refl; frame = refl; in_range = omega arith };
  bottom = record { present = refl; frame = refl; in_range = omega arith };
  apart = (omega arith, omega arith, omega arith, omega arith, omega arith, omega arith);
}

pub sample-Passes : (create : Bool) → Passes sample create 1 2
sample-Passes create = record { at_top = refl; at_middle = refl }

pub sample-IsHeld : IsHeld sample 5
sample-IsHeld = record {
  in_range = omega arith;
  link = refl;
  pos = omega arith;
  small = omega arith;
}

pub present : flag (sample.mem 4 5) 1 ≡ true
unfolding flag
present = refl

pub read_only : flag (sample.mem 4 5) 2 ≡ false
unfolding flag
read_only = refl

pub absent : flag (sample.mem 4 6) 1 ≡ false
unfolding flag
absent = refl
