-- ===== src/Tests/Primes.antt =====
-- The chain when umain has sent 5: the numbers 2 and 3 are printed, and 5 is on its way.
use comp530h.Base.{◌≤◌, ◌<◌, arith, refl, none, some, [], ◌∷◌}
use comp530h.Primes.{filter, stopped, int_max, Chain, Step, here, feed, pass, Reach, start, step}
use comp530h.Primes.Order.{AreNextPrimes, Reach-primes}

abbrev sent_five : Chain
sent_five = record { i = 6; filters = filter 2 (some 5) ∷ filter 3 none ∷ [] }

-- With 1021 forks in the chain it has 1022 processes; umain and user/idle have the rest of NENV.
sent_five-Reach : Reach 1021 sent_five
sent_five-Reach =
    step
      (step
        (step (step (step start (feed (omega arith) refl)) (feed (omega arith) refl))
          (pass (here refl)))
        (feed (omega arith) refl))
      (feed (omega arith) refl)

Reach-primes_example :
    AreNextPrimes [] (2 ∷ 3 ∷ [])
    × (2 ≤ 1022)
    × (2 ≤ 1021 → 6 < int_max → (d : Chain) × Step 1021 sent_five d)
Reach-primes_example = Reach-primes 1021 sent_five sent_five-Reach

-- With one fork in the chain the second process stops, and the first cannot give it 5.
stuck : Reach 1 (record { i = 6; filters = filter 2 (some 5) ∷ stopped 3 ∷ [] })
stuck =
    step
      (step
        (step (step (step start (feed (omega arith) refl)) (feed (omega arith) refl))
          (pass (here refl)))
        (feed (omega arith) refl))
      (feed (omega arith) refl)
