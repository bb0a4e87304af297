-- ===== src/User.antt =====
-- The user library: lib/syscall.c, lib/fork.c, lib/pgfault.c and lib/ipc.c.
--
-- The kernel is a parameter: `answer calls c` is the 64-bit pattern that it returns for the call `c`
-- after the calls `calls`, the latest first, and `tables` gives the entries of the page tables as a
-- program reads them through its own mapping of them. `self` is what sys_getenvid returns.
pub mod Fork
pub mod Ipc
use comp530h.Base.{ℕ, ◌%◌, ◌^◌, Bool, true, ◌&&◌, List, ◌∷◌, ltb, leb, if◌then◌else◌}

-- The calls that change something, and the copy of a page by `memcpy`. An upcall is always
-- `_pgfault_upcall`.
pub data Call : Type 0 where
  page_alloc : (env va perm : ℕ) → Call
  page_map : (src srcva dst dstva perm : ℕ) → Call
  page_unmap : (env va : ℕ) → Call
  exofork : Call
  set_upcall : (env : ℕ) → Call
  set_status : (env status : ℕ) → Call
  ipc_try_send : (env value va perm : ℕ) → Call
  ipc_recv : (va : ℕ) → Call
  yield : Call
  copy_page : (dst src : ℕ) → Call

-- The calls made, whether `_pgfault_handler` is set, and the slot of `thisenv`.
pub record Process : Type 0 where
  pub calls : List Call
  pub handler_set : Bool
  pub thisenv : ℕ

pub data End (A : Type 0) : Type 0 where
  returned : A → Process → End A
  panicked : Process → End A

abbrev pub U : Type 0 → Type 0
U A = Process → End A

abbrev pub return : {A : Type 0} → A → U A
return a p = returned a p

abbrev pub panic : {A : Type 0} → U A
panic p = panicked p

module _ {A B : Type 0} where
  abbrev pub then_run : End A → (A → U B) → End B
  then_run (returned a p) f = f a p
  then_run (panicked p) f = panicked p

  infixl 5 ◌>>=◌ ◌>>◌
  abbrev pub ◌>>=◌ : U A → (A → U B) → U B
  m >>= f = λ p. then_run (m p) f

  abbrev pub ◌>>◌ : U A → U B → U B
  m >> n = m >>= λ _. n

abbrev pub made : Call → Process → Process
made c p = record p { calls = c ∷ p.calls }

-- An `int` below 0
abbrev pub is_negative : ℕ → Bool
is_negative r = leb (2 ^ 31) r

abbrev pub is_positive64 : ℕ → Bool
is_positive64 r = ltb 0 r && ltb r (2 ^ 63)

module _ (answer : List Call → Call → ℕ) where
  -- The stub with `check`: a positive result is a panic. The result is cut to an `int`.
  unfoldable pub syscall_stub : (check : Bool) → Call → U ℕ
  syscall_stub check c p =
      if check && is_positive64 (answer p.calls c)
      then panicked (made c p)
      else returned (answer p.calls c % 2 ^ 32) (made c p)

  -- result = call(); if (result < 0) panic(...);
  unfoldable pub must : Call → U (Unit {0})
  must c = do r ← syscall_stub true c; if is_negative r then panic else return tt
