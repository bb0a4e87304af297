-- ===== src/User/Ipc/Send.antt =====
-- ipc_send of lib/ipc.c.
use comp530h.Base.{
  ℕ, zero, suc, ◌%◌, ◌^◌, ◌≡◌, ◌≢◌, Option, some, List, ◌∷◌, ◌<◌, ◌==◌, if◌then◌else◌, arith, ◌∙◌,
}
use comp530h.User.{Call, ipc_try_send, yield, Process, returned, panicked, syscall_stub, made, End}
use comp530h.User.Ipc.{page_or_none, minus_not_recv, send_loop, ipc_send}

-- The calls after `n` refused rounds, the latest first
abbrev pub rounds : ℕ → Call → List Call → List Call
rounds zero c cs = cs
rounds (suc n) c cs = rounds n c (yield ∷ c ∷ cs)

abbrev pub attempt_of : (to_env val pg perm : ℕ) → Call
attempt_of to_env val pg perm = ipc_try_send to_env val (page_or_none pg) perm

module _ (answer : List Call → Call → ℕ) where
  -- The int that the kernel answers
  abbrev pub result_of : List Call → Call → ℕ
  result_of cs c = answer cs c % 2 ^ 32

  -- `c` was made after the calls `cs`: 0 ends the loop, an error is a panic.
  abbrev pub sent : Process → List Call → Call → End (Option (Unit {0}))
  sent p cs c =
      if result_of cs c == 0
      then returned (some tt) (record p { calls = c ∷ cs })
      else panicked (record p { calls = c ∷ cs })

  module _ (to_env val pg perm : ℕ) where
    send_loop-refused :
        (fuel : ℕ) (p : Process)
        → result_of p.calls (ipc_try_send to_env val pg perm) ≡ minus_not_recv
        → send_loop answer (suc fuel) to_env val pg perm p
          ≡ send_loop answer fuel to_env val pg perm
              (made yield (made (ipc_try_send to_env val pg perm) p))
    unfolding send_loop syscall_stub
    send_loop-refused fuel p e = ground arith

    send_loop-sent :
        (fuel : ℕ) (p : Process)
        → result_of p.calls (ipc_try_send to_env val pg perm) ≢ minus_not_recv
        → send_loop answer (suc fuel) to_env val pg perm p
          ≡ sent p p.calls (ipc_try_send to_env val pg perm)
    unfolding send_loop syscall_stub
    send_loop-sent fuel p e = ground arith

    send_loop-rounds :
        (n fuel : ℕ) (p : Process)
        → n < fuel
        → ((i : ℕ)
            → i < n
            → result_of
                (rounds i (ipc_try_send to_env val pg perm) p.calls)
                (ipc_try_send to_env val pg perm)
              ≡ minus_not_recv)
        → result_of
            (rounds n (ipc_try_send to_env val pg perm) p.calls)
            (ipc_try_send to_env val pg perm)
          ≢ minus_not_recv
        → send_loop answer fuel to_env val pg perm p
          ≡ sent p
              (rounds n (ipc_try_send to_env val pg perm) p.calls)
              (ipc_try_send to_env val pg perm)
    send_loop-rounds n zero p l h e = absurd (omega arith)
    send_loop-rounds zero (suc fuel) p l h e = send_loop-sent fuel p e
    send_loop-rounds (suc n) (suc fuel) p l h e =
        send_loop-refused fuel p (h 0 (omega arith))
        ∙ send_loop-rounds n fuel (made yield (made (ipc_try_send to_env val pg perm) p))
            (omega arith) (λ i k. h (suc i) (omega arith)) e

  -- If the kernel answers -E_IPC_NOT_RECV to the first n attempts, each followed by a yield, and something
  -- else to the next, then with fuel above n ipc_send ends with that attempt and has made these calls and
  -- no others: it returns when the answer is 0, and panics when it is any other error.
  pub ipc_send_lem :
      (to_env val pg perm n fuel : ℕ) (p : Process)
      → n < fuel
      → ((i : ℕ)
          → i < n
          → result_of
              (rounds i (attempt_of to_env val pg perm) p.calls)
              (attempt_of to_env val pg perm)
            ≡ minus_not_recv)
      → result_of (rounds n (attempt_of to_env val pg perm) p.calls) (attempt_of to_env val pg perm)
        ≢ minus_not_recv
      → ipc_send answer fuel to_env val pg perm p
        ≡ sent p (rounds n (attempt_of to_env val pg perm) p.calls) (attempt_of to_env val pg perm)
  unfolding ipc_send
  ipc_send_lem to_env val pg perm n fuel p l h e =
      send_loop-rounds to_env val (page_or_none pg) perm n fuel p l h e
