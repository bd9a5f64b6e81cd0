-- ===== src/Timers/Tests.antt =====
-- The removal of timers at a concrete list.
use mavlink_router.Prelude.{ℕ, true, false, Bool, ◌≡◌, refl, List, [], ◌∷◌}
use mavlink_router.Timers.{Timeout, timespec_of, del_timeouts, del_behind}
use mavlink_router.Timers.Removal.{IsRemoval, del_timeouts-IsRemoval}

abbrev marked : ℕ → Bool → Timeout
marked fd gone = record {
  fd = fd;
  interval = timespec_of 5;
  value = timespec_of 5;
  remove_me = gone;
}

abbrev three : List Timeout
three = marked 4 true ∷ marked 5 false ∷ marked 6 true ∷ []

del_timeouts_runs : (del_timeouts three).removed ≡ 4 ∷ 6 ∷ []
unfolding del_timeouts del_behind
del_timeouts_runs = refl

del_timeouts-IsRemoval_example : IsRemoval three (del_timeouts three)
del_timeouts-IsRemoval_example = del_timeouts-IsRemoval three
