-- ===== src/Ipc/Send.antt =====
-- `sys_ipc_try_send` and `sys_ipc_recv`: what a send delivers, and how a receiver waits.
use comp530h.Base.{
  ℕ, ◌%◌, ◌<◌, ◌≡◌, ◌≢◌, inl, refl, ap, ◌∙◌, Bool, true, false, not, ◌&&◌, some, arith, ◌==◌, ltb,
  ne→==, ==_self,
}
use comp530h.Layout.{pgsize, utop}
use comp530h.Kernel.{
  Kernel, done, Result, ok, err, e_inval, e_ipc_not_recv, set_env, runnable, free, same_status,
}
use comp530h.Kernel.Env.{Env}
use comp530h.Envs.{nenv, envx, envid2env}
use comp530h.Envs.Ids.{envid2env-found}
use comp530h.Sched.{env_run}
use comp530h.Sched.Next.{sched_yield-runs}
use comp530h.Ipc.{sys_ipc_try_send, sys_ipc_recv, ipc_send_to, ipc_deliver, delivered, receiving}

-- A send to an environment that envid2env finds and that does not wait returns -E_IPC_NOT_RECV and
-- changes nothing.
pub sys_ipc_try_send-not_waiting :
    (k : Kernel) (envid value srcva perm e : ℕ)
    → envid2env envid false k ≡ done (some e, ok 0) k
    → (k.envs e).env_ipc_recving ≡ false
    → sys_ipc_try_send envid value srcva perm k ≡ done (err e_ipc_not_recv) k
unfolding sys_ipc_try_send
sys_ipc_try_send-not_waiting k envid value srcva perm e i w = rw (i, w) refl

-- The receiver after the send of a value.
abbrev pub Received : (from value : ℕ) → Env → Env → Type 0
Received from value old new =
    (new.env_ipc_recving ≡ false)
    × (new.env_ipc_from ≡ from)
    × (new.env_ipc_value ≡ value)
    × (new.env_status ≡ runnable)
    × (new.env_tf.tf_regs.reg_rax ≡ 0)
    × (new.env_ipc_perm ≡ old.env_ipc_perm)

send-delivered :
    (k : Kernel) (envid value srcva perm c e : ℕ)
    → envid2env envid false k ≡ done (some e, ok 0) k
    → k.curenv ≡ some c
    → (k.envs e).env_ipc_recving ≡ true
    → ltb srcva utop ≡ false
    → sys_ipc_try_send envid value srcva perm k
      ≡ done (ok 0) (set_env e (delivered (k.envs c).env_id value (k.envs e)) k)
unfolding sys_ipc_try_send ipc_send_to ipc_deliver
send-delivered k envid value srcva perm c e i cur w high = ground (arith, i, cur, w, high)

-- A send with srcva not below UTOP to a waiting environment that envid2env finds: the target has
-- the value and the id of the sender, waits no longer, is runnable, will see the result 0, and
-- keeps its old env_ipc_perm; no other slot changes.
pub sys_ipc_try_send-value :
    (k : Kernel) (envid value srcva perm c e : ℕ)
    → envid2env envid false k ≡ done (some e, ok 0) k
    → k.curenv ≡ some c
    → (k.envs e).env_ipc_recving ≡ true
    → ltb srcva utop ≡ false
    → (k' : Kernel) × (sys_ipc_try_send envid value srcva perm k ≡ done (ok 0) k')
      × Received (k.envs c).env_id value (k.envs e) (k'.envs e)
      × ((i : ℕ) → i ≢ e → k'.envs i ≡ k.envs i)
sys_ipc_try_send-value k envid value srcva perm c e i cur w high =
    let got : Received (k.envs c).env_id value (k.envs e)
        ((set_env e (delivered (k.envs c).env_id value (k.envs e)) k).envs e) =
      rw (==_self e) (refl, refl, refl, refl, refl, refl) in
    (
      set_env e (delivered (k.envs c).env_id value (k.envs e)) k,
      send-delivered k envid value srcva perm c e i cur w high,
      got,
      λ j ne. rw (ne→== j e ne) refl,
    )

-- After a send with srcva not below UTOP to a waiting environment in use, named by an id other than
-- 0, any second send to it returns -E_IPC_NOT_RECV and changes nothing.
pub sys_ipc_try_send-twice :
    (k : Kernel) (envid value value' srcva srcva' perm perm' c : ℕ)
    → k.curenv ≡ some c
    → envid ≢ 0
    → (k.envs (envx envid)).env_id ≡ envid
    → same_status (k.envs (envx envid)).env_status free ≡ false
    → (k.envs (envx envid)).env_ipc_recving ≡ true
    → ltb srcva utop ≡ false
    → (k' : Kernel) × (sys_ipc_try_send envid value srcva perm k ≡ done (ok 0) k')
      × (sys_ipc_try_send envid value' srcva' perm' k' ≡ done (err e_ipc_not_recv) k')
sys_ipc_try_send-twice k envid value value' srcva srcva' perm perm' c cur nz id used w high =
    let e = envx envid in
    let k' = set_env e (delivered (k.envs c).env_id value (k.envs e)) k in
    (
      k',
      send-delivered k envid value srcva perm c e
          (envid2env-found k c envid false cur nz id used (inl refl)) cur w high,
      sys_ipc_try_send-not_waiting k' envid value' srcva' perm' e
          (envid2env-found k' c envid false cur nz (rw (==_self e) id) (rw (==_self e) refl)
            (inl refl))
          (rw (==_self e) refl),
    )

-- The receiver's address is a page boundary or not below UTOP.
abbrev pub good_dstva : ℕ → Bool
good_dstva dstva = not (ltb dstva utop && not (dstva % pgsize == 0))

idle-receiving :
    (k : Kernel) (dstva c e : ℕ)
    → same_status ((set_env c (receiving dstva (k.envs c)) k).envs e).env_status runnable ≡ true
    → e ≢ c
idle-receiving k dstva c e run = λ eq. ground (arith, run, eq)

-- sys_ipc_recv with an address that is a page boundary or not below UTOP marks the caller as
-- waiting and not runnable and, if another environment is runnable, runs an environment that is not
-- the caller.
pub sys_ipc_recv-waits :
    (k : Kernel) (dstva c e : ℕ)
    → k.curenv ≡ some c
    → good_dstva dstva ≡ true
    → e < nenv
    → e ≢ c
    → same_status (k.envs e).env_status runnable ≡ true
    → (e' : ℕ) × (e' ≢ c)
      × (sys_ipc_recv dstva k ≡ env_run e' (set_env c (receiving dstva (k.envs c)) k))
unfolding sys_ipc_recv
sys_ipc_recv-waits k dstva c e cur good lt ne run =
    let k1 = set_env c (receiving dstva (k.envs c)) k in
    let (e', (j, _, at, r, _), y) = sched_yield-runs Result k1 e lt (rw (ne→== e c ne) run) in
    (
      e',
      idle-receiving k dstva c e' (ap (λ s. same_status (k1.envs s).env_status runnable) at ∙ r),
      ground (arith, cur, y),
    )

-- A misaligned address below UTOP is refused with -E_INVAL, and nothing changes.
pub sys_ipc_recv-misaligned :
    (k : Kernel) (dstva : ℕ)
    → good_dstva dstva ≡ false
    → sys_ipc_recv dstva k ≡ done (err e_inval) k
unfolding sys_ipc_recv
sys_ipc_recv-misaligned k dstva bad = ground arith
