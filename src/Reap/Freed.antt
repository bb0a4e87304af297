-- ===== src/Reap/Freed.antt =====
-- What env_free leaves.
use comp530h.Base.{
  ℕ, ◌*◌, ◌≡◌, ◌≢◌, refl, ap, ◌∙◌, Bool, true, false, none, some, if◌then◌else◌, update,
  update_self, update_ne,
}
use comp530h.Layout.{ppn, flag, pte_p, pte_addr, pgaddr}
use comp530h.Kernel.{Kernel, done, free, set_env, when, write}
use comp530h.Kernel.Env.{Env}
use comp530h.Kernel.Keeps.{
  Same, Keeps, by_done, by_panic, then-Keeps, choice-Keeps, when-Keeps, deref-Keeps, kaddr-Keeps,
  for_range-Keeps,
}
use comp530h.Kernel.Ends.{Ends, by_return, then-Ends, Keeps-Ends}
use comp530h.Alloc.{pa2page}
use comp530h.Table.{page_remove}
use comp530h.Table.Keeps.{page_decref-Keeps, page_remove-Keeps}
use comp530h.Envs.{is_cur}
use comp530h.Reap.{
  release, unmap_entry, free_page_table, pdeno_limit, free_directory, free_slot, env_free,
}

release-Keeps : (pa : ℕ) {k0 : Kernel} (k : Kernel) → Same k0 k → Keeps k0 (release pa k)
unfolding release pa2page
release-Keeps pa k h =
    then-Keeps (choice-Keeps _ by_panic (by_done h)) λ page k h. page_decref-Keeps page k h

unmap_entry-Keeps :
    (pml4e pt i pdeno pteno : ℕ) {k0 : Kernel} (k : Kernel)
    → Same k0 k
    → Keeps k0 (unmap_entry pml4e pt i pdeno pteno k)
unfolding unmap_entry
unmap_entry-Keeps pml4e pt i pdeno pteno k h =
    when-Keeps (flag (k.mem pt pteno) pte_p) (page_remove pml4e (pgaddr 0 i pdeno pteno 0)) k h
      (page_remove-Keeps pml4e (pgaddr 0 i pdeno pteno 0) k h)

free_page_table-Keeps :
    (pml4e pgdir i pdeno : ℕ) {k0 : Kernel} (k : Kernel)
    → Same k0 k
    → Keeps k0 (free_page_table pml4e pgdir i pdeno k)
unfolding free_page_table
free_page_table-Keeps pml4e pgdir i pdeno {k0} k h =
    when-Keeps (flag (k.mem pgdir pdeno) pte_p) _ k h (
      then-Keeps (kaddr-Keeps (pte_addr (k.mem pgdir pdeno)) {k0 = k0} k h) λ pt k1 h.
        then-Keeps
          (for_range-Keeps 511 0 (unmap_entry pml4e (ppn pt) i pdeno) {k0 = k0} k1
            (λ j k h. unmap_entry-Keeps pml4e (ppn pt) i pdeno j k h) h)
          λ _ k2 h. release-Keeps (pte_addr (k.mem pgdir pdeno)) _ h)

free_directory-Keeps :
    (pml4e pdpe i : ℕ) {k0 : Kernel} (k : Kernel)
    → Same k0 k
    → Keeps k0 (free_directory pml4e pdpe i k)
unfolding free_directory
free_directory-Keeps pml4e pdpe i {k0} k h = when-Keeps (flag (k.mem pdpe i) pte_p) _ k h (
    then-Keeps (kaddr-Keeps (pte_addr (k.mem pdpe i)) {k0 = k0} k h) λ pgdir k1 h.
      then-Keeps
        (for_range-Keeps (pdeno_limit i) 0 (free_page_table pml4e (ppn pgdir) i) {k0 = k0} k1
          (λ j k h. free_page_table-Keeps pml4e (ppn pgdir) i j k h) h)
        λ _ k2 h. release-Keeps (pte_addr (k2.mem pdpe i)) _ h)

-- Environment `e` is free, has no page map and heads the free list, and nothing else of the
-- environments changed; %cr3 is the kernel's if `e` is the current environment.
pub record IsFreed (e : ℕ) (k k' : Kernel) : Type 0 where
  pub status : (k'.envs e).env_status ≡ free
  pub no_map : (k'.envs e).env_pml4e ≡ none
  pub no_cr3 : (k'.envs e).env_cr3 ≡ 0
  pub link : (k'.envs e).env_link ≡ k.env_free_list
  pub head : k'.env_free_list ≡ some e
  pub others : (i : ℕ) → i ≢ e → k'.envs i ≡ k.envs i
  pub current : k'.curenv ≡ k.curenv
  pub map : k'.cr3 ≡ (if is_cur e k.curenv then k.boot_pml4e * 4096 else k.cr3)

-- The state after the first line of env_free
abbrev off_map : ℕ → Kernel → Kernel
off_map e k = record k { cr3 = if is_cur e k.curenv then k.boot_pml4e * 4096 else k.cr3 }

leave_map-Ends :
    (b : Bool) (k : Kernel)
    → Ends
        (λ _. Same (record k { cr3 = if b then k.boot_pml4e * 4096 else k.cr3 }))
        (when b (λ k. done tt (record k { cr3 = k.boot_pml4e * 4096 })) k)
leave_map-Ends true k = by_return (refl, refl, refl, refl, refl)
leave_map-Ends false k = by_return (refl, refl, refl, refl, refl)

abbrev without_map : Env → Env
without_map env = record env { env_pml4e = none; env_cr3 = 0 }

-- free_slot after the fields of the page map were cleared
free_slot-IsFreed :
    (e : ℕ) (k k5 k8 : Kernel)
    → Same (off_map e k) k5
    → Same (set_env e (without_map (k5.envs e)) k5) k8
    → Ends (λ _. IsFreed e k) (free_slot e k8)
unfolding free_slot
free_slot-IsFreed e k k5 k8 h s =
    let last = record (k8.envs e) { env_status = free; env_link = k8.env_free_list } in
    let now : update k8.envs e last e ≡ last = update_self k8.envs e last in
    let was : k8.envs e ≡ without_map (k5.envs e) =
      ap (λ f. f e) s.0 ∙ update_self k5.envs e (without_map (k5.envs e)) in
    by_return (record {
      status = ap Env.env_status now;
      no_map = ap Env.env_pml4e now ∙ ap Env.env_pml4e was;
      no_cr3 = ap Env.env_cr3 now ∙ ap Env.env_cr3 was;
      link = ap Env.env_link now ∙ s.4 ∙ h.4;
      head = refl;
      others = λ i ne.
          update_ne k8.envs e i last ne
          ∙ ap (λ f. f i) s.0
          ∙ update_ne k5.envs e i (without_map (k5.envs e)) ne
          ∙ ap (λ f. f i) h.0;
      current = s.3 ∙ h.3;
      map = s.1 ∙ h.1;
    })

-- Whatever its page tables hold, env_free of `e` panics or faults, or returns with `e` free, without a page
-- map and at the head of the free list, with the other environments and the current one as they were, and
-- with the kernel's page map in %cr3 if `e` is the current environment.
pub env_free-Ends : (e : ℕ) (k : Kernel) → Ends (λ _. IsFreed e k) (env_free e k)
unfolding env_free
env_free-Ends e k = then-Ends (leave_map-Ends (is_cur e k.curenv) k) λ _ k1 s1.
    Keeps-Ends (deref-Keeps (k.envs e).env_pml4e {k0 = off_map e k} k1 s1) λ pml4e k2 h2.
      Keeps-Ends (kaddr-Keeps _ {k0 = off_map e k} k2 h2) λ pdpe k3 h3.
        Keeps-Ends
          (for_range-Keeps 4 0 (free_directory pml4e (ppn pdpe)) {k0 = off_map e k} k3
            (λ j q g. free_directory-Keeps pml4e (ppn pdpe) j q g) h3)
          λ _ k4 h4.
            Keeps-Ends (release-Keeps (pte_addr (k4.mem pml4e 0)) {k0 = off_map e k} k4 h4)
              λ _ k5 h5.
                let k6 : Kernel = write pml4e 0 0 k5 in
                let k7 : Kernel = set_env e (without_map (k6.envs e)) k6 in
                Keeps-Ends
                  (release-Keeps (k6.envs e).env_cr3 {k0 = k7} k7 (refl, refl, refl, refl, refl))
                  λ _ k8 s8. free_slot-IsFreed e k k6 k8 h5 s8
