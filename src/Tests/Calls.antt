-- ===== src/Tests/Calls.antt =====
-- The system calls at the sample.
use comp530h.Base.{ℕ, ◌≡◌, ◌≢◌, refl, Bool, true, false, none, some, [], ◌∷◌, arith}
use comp530h.Layout.{flag, ppn, pte_w}
use comp530h.Kernel.{Kernel, done, ok, err, e_bad_env}
use comp530h.Table.Route.{opened}
use comp530h.Table.Map.{opened-IsRoute, opened-Passes}
use comp530h.Table.Insert.{leaf_entry}
use comp530h.Envs.{envid2env}
use comp530h.Syscall.{perm_ok, perm_some, sys_page_alloc, sys_page_map}
use comp530h.Syscall.Pages.{sys_page_alloc-new, sys_page_map-read_only}
use comp530h.Ipc.{sys_ipc_try_send}
use comp530h.Ipc.Send.{Received, sys_ipc_try_send-value}
use comp530h.Tests.Sample.{
  sample, slots, sample-IsFree, sample-IsRoute, sample-IsRoute_next, sample-Passes, present,
  read_only, absent,
}

self_id : envid2env 0 true sample ≡ done (some 0, ok 0) sample
unfolding envid2env
self_id = refl

child_id : (check : Bool) → envid2env 4097 check sample ≡ done (some 1, ok 0) sample
unfolding envid2env
child_id true = refl
child_id false = refl

-- The environment in slot 2 is not the caller's child.
no_id : envid2env 4098 true sample ≡ done (none, err e_bad_env) sample
unfolding envid2env
no_id = refl

seven_ok : perm_ok 7 ≡ true
unfolding perm_ok flag
seven_ok = refl

seven_some : perm_some 7 ≡ true
unfolding perm_some flag
seven_some = refl

writable : flag 7 pte_w ≡ true
unfolding flag
writable = refl

opened-absent : flag ((opened 2 0 sample).mem 4 6) 1 ≡ false
unfolding flag
opened-absent = refl

sys_page_alloc-new_example :
    (k' : Kernel) × (sys_page_alloc 0 0x6000 7 sample ≡ done (ok 0) k')
    × (k'.mem 4 6 ≡ leaf_entry 10 7)
    × (ppn (k'.mem 4 6) ≡ 10)
    × ((k'.pages 10).pp_ref ≡ 1)
    × (k'.mem 10 ≡ (λ _. 0))
sys_page_alloc-new_example =
    sys_page_alloc-new sample 0 0x6000 7 0 1 2 3 4 10 (11 ∷ []) self_id refl seven_ok refl
      sample-IsFree sample-IsRoute_next (sample-Passes true)
      (omega arith, omega arith, omega arith, omega arith) absent

sys_page_map-read_only_example :
    (k' : Kernel) × (sys_page_map 0 0x5000 4097 0x6000 7 sample ≡ done (ok 0) k')
    × (k'.mem 4 6 ≡ leaf_entry 5 7)
    × (flag (k'.mem 4 6) pte_w ≡ true)
sys_page_map-read_only_example =
    sys_page_map-read_only sample 0 0x5000 4097 0x6000 7 0 1 1 2 3 4 1 2 3 4 self_id (child_id true)
      refl refl seven_some seven_ok refl refl sample-IsRoute (sample-Passes false) (omega arith)
      present read_only writable (opened-IsRoute sample 1 0x6000 2 3 4 sample-IsRoute_next)
      (opened-Passes sample 1 0x6000 2 3 4 sample-IsRoute_next true (sample-Passes true))
      opened-absent

sys_ipc_try_send-value_example :
    (k' : Kernel) × (sys_ipc_try_send 4097 5 0xf000000000 0 sample ≡ done (ok 0) k')
    × Received 4096 5 (slots 1) (k'.envs 1)
    × ((i : ℕ) → i ≢ 1 → k'.envs i ≡ slots i)
sys_ipc_try_send-value_example =
    sys_ipc_try_send-value sample 4097 5 0xf000000000 0 0 1 (child_id false) refl refl refl
