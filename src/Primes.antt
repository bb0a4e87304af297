-- ===== src/Primes.antt =====
-- user/primes.c: the chain of processes that sieves primes, as steps of the whole chain.
--
-- A process runs alone from one exchange to the next, and an exchange is one step: ipc_send gives its
-- value when the process on the right waits in ipc_recv. A step takes any pair that can exchange, so that
-- every order of the processes is covered. After `room` forks of processes in the chain the kernel
-- has no environment left: the next one panics when it has printed its prime, and receives no more. The
-- loop of umain is left where `i++` would leave the range of an int.
pub mod Sieve
pub mod Order
use comp530h.Base.{
  ℕ, ◌+◌, ◌%◌, ◌≡◌, Option, none, some, List, [], ◌∷◌, ◌==◌, if◌then◌else◌, suc, zero, ◌^◌, ◌<◌,
  ◌-◌,
}

-- A process that has printed `p`: one that forked, with what it holds for `id`, none while it waits for
-- the next `i`; or one whose fork failed, after `panic`
pub data Filter : Type 0 where
  filter : (p : ℕ) (held : Option ℕ) → Filter
  stopped : (p : ℕ) → Filter

-- `i % p` is the condition.
abbrev pub filtered : (i p : ℕ) → Filter
filtered i p = filter p (if i % p == 0 then none else some i)

-- The process that waits at `top` has got `i`: it prints it as its prime and forks.
abbrev pub begin : (room i : ℕ) → Filter
begin zero i = stopped i
begin (suc room) i = filter i none

-- ipc_send(id, i, 0, 0) to the first of a row of processes, or, when it is empty, to the one that waits at
-- `top`; none while the receiver is not waiting. `room` counts the forks that are possible from the row's
-- first place on.
abbrev pub deliver : (room i : ℕ) → List Filter → Option (List Filter)
deliver room i [] = some (begin room i ∷ [])
deliver room i (filter p none ∷ fs) = some (filtered i p ∷ fs)
deliver room i (filter p (some j) ∷ fs) = none
deliver room i (stopped p ∷ fs) = none

-- A process gives the value it holds to the next one.
pub data Pass : (room : ℕ) → List Filter → List Filter → Type 0 where
  here :
      {room p i : ℕ} {fs fs' : List Filter}
      → deliver room i fs ≡ some fs'
      → Pass (suc room) (filter p (some i) ∷ fs) (filter p none ∷ fs')
  there :
      {room : ℕ} {f : Filter} {fs fs' : List Filter}
      → Pass room fs fs'
      → Pass (suc room) (f ∷ fs) (f ∷ fs')

-- The loop of umain is at `i`; the processes from left to right, which is the order of their prints
pub record Chain : Type 0 where
  pub i : ℕ
  pub filters : List Filter

abbrev pub int_max : ℕ
int_max = 2 ^ 31 - 1

pub data Step (room : ℕ) : Chain → Chain → Type 0 where
  feed :
      {i : ℕ} {fs fs' : List Filter}
      → i < int_max
      → deliver room i fs ≡ some fs'
      → Step room (record { i = i; filters = fs }) (record { i = i + 1; filters = fs' })
  pass :
      {i : ℕ} {fs fs' : List Filter}
      → Pass room fs fs'
      → Step room (record { i = i; filters = fs }) (record { i = i; filters = fs' })

abbrev pub started : Chain
started = record { i = 2; filters = [] }

pub data Reach (room : ℕ) : Chain → Type 0 where
  start : Reach room started
  step : {c d : Chain} → Reach room c → Step room c d → Reach room d

-- What the processes have printed, in order
abbrev pub printed : List Filter → List ℕ
printed [] = []
printed (filter p held ∷ fs) = p ∷ printed fs
printed (stopped p ∷ fs) = p ∷ printed fs
