-- ===== src/Throttle/Tests.antt =====
-- The throttling of a message that may come ten times a second.
use mavlink_router.Prelude.{
  some, lookup, ℕ, ◌+◌, ◌*◌, ◌/◌, ◌≤◌, ◌≡◌, refl, ◌⊎◌, List, [], ◌∷◌, arith, ltb, ◌==◌,
}
use mavlink_router.Throttle.{RateOps, ThrottleInfo, ThrottleMap, period}
use mavlink_router.Throttle.Rate.{passed, passed_bound}

abbrev whole_rates : RateOps ℕ
whole_rates = record {
  above_epsilon = λ r. ltb 0 r;
  below_epsilon = λ r. r == 0;
  period_usec = λ r. 1000000 / r;
}

abbrev info : ThrottleInfo ℕ
info = record { rate = 10; next_timestamp = 500 }

abbrev limited : ThrottleMap ℕ
limited = (30, info) ∷ []

abbrev times : List ℕ
times = 400 ∷ 600 ∷ 700 ∷ 100000500 ∷ []

info_known : lookup 30 limited ≡ some info
unfolding lookup
info_known = refl

passed_bound_example :
    (passed whole_rates 30 times limited ≡ 0)
    ⊎ (500 + passed whole_rates 30 times limited * period whole_rates info
        ≤ 100000500 + period whole_rates info)
passed_bound_example =
    passed_bound whole_rates 30 100000500 times limited info info_known refl
      (omega arith, (omega arith, (omega arith, (omega arith, tt))))
