-- ===== src/User/Ipc.antt =====
-- lib/ipc.c.
pub mod Send
use comp530h.Base.{
  ℕ, zero, suc, ◌-◌, ◌^◌, Bool, true, false, not, Option, none, some, List, [], ◌∷◌, ◌==◌,
  if◌then◌else◌,
}
use comp530h.User.{
  Call, ipc_try_send, ipc_recv, yield, U, return, panic, ◌>>=◌, ◌>>◌, is_negative, syscall_stub,
}

-- (void *) -1
abbrev pub no_page : ℕ
no_page = 2 ^ 64 - 1

abbrev pub page_or_none : ℕ → ℕ
page_or_none pg = if pg == 0 then no_page else pg

-- -E_IPC_NOT_RECV as an int
abbrev pub minus_not_recv : ℕ
minus_not_recv = 2 ^ 32 - 8

-- What the kernel has left in struct Env of the program after the calls
pub record Received : Type 0 where
  pub ipc_from : ℕ
  pub ipc_perm : ℕ
  pub ipc_value : ℕ

module _ (answer : List Call → Call → ℕ) where
  -- One round of the loop that does not end it goes on with `more`.
  abbrev pub send_round : (to_env val pg perm : ℕ) → U (Option (Unit {0})) → U (Option (Unit {0}))
  send_round to_env val pg perm more = do
    result ← syscall_stub answer false (ipc_try_send to_env val pg perm)
    if result == 0
        then return (some tt)
        else if not (result == minus_not_recv)
        then panic
        else (do syscall_stub answer false yield; more)

  -- At most `fuel` rounds; none when they do not suffice.
  unfoldable pub send_loop : (fuel to_env val pg perm : ℕ) → U (Option (Unit {0}))
  send_loop zero to_env val pg perm = return none
  send_loop (suc fuel) to_env val pg perm =
      send_round to_env val pg perm (send_loop fuel to_env val pg perm)

  unfoldable pub ipc_send : (fuel to_env val pg perm : ℕ) → U (Option (Unit {0}))
  ipc_send fuel to_env val pg perm = send_loop fuel to_env val (page_or_none pg) perm

  -- The result and what is stored at `from_env_store` and `perm_store`, none where the pointer is NULL
  unfoldable pub ipc_recv_value :
      (this_env : List Call → Received)
      → (wants_from : Bool) → (pg : ℕ) → (wants_perm : Bool) → U (ℕ × Option ℕ × Option ℕ)
  ipc_recv_value this_env wants_from pg wants_perm = do
    result ← syscall_stub answer true (ipc_recv (page_or_none pg))
    λ p.
        let got : Received = this_env p.calls in
        (if is_negative result
            then return
                (result, if wants_from then some 0 else none, if wants_perm then some 0 else none)
            else return (
              got.ipc_value,
              if wants_from then some got.ipc_from else none,
              if wants_perm then some got.ipc_perm else none,
            ))
          p

-- The types and ids of `envs` from slot 0 on, NENV of them
unfoldable pub ipc_find_env : (type : ℕ) → List (ℕ × ℕ) → ℕ
ipc_find_env type [] = 0
ipc_find_env type ((env_type, env_id) ∷ envs) =
    if env_type == type then env_id else ipc_find_env type envs
