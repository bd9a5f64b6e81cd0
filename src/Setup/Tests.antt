-- ===== src/Setup/Tests.antt =====
-- src/endpoint.cpp, `setup`: runs and witnesses, with whole numbers for floats.
use mavlink_router.Prelude.{List, ℕ, ◌-◌, ◌/◌, ◌%◌, ◌^◌, ◌≡◌, refl, true, [], ◌∷◌, ltb, ◌==◌}
use mavlink_router.Throttle.{RateOps}
use mavlink_router.Filter.{no_filters}
use mavlink_router.Setup.{Options, IdOps}
use mavlink_router.Setup.Baud.{
  add_speeds, BaudSearch, Ioctls, set_speed, Works, AllWork, baud_at, Happening, baud_run,
  expirations, expires, reads, add_speeds_lem,
}

abbrev whole_rates : RateOps ℕ
whole_rates = record {
  above_epsilon = λ r. ltb 0 r;
  below_epsilon = λ r. r == 0;
  period_usec = λ r. 1000000 / r;
}

abbrev whole_ids : IdOps ℕ
whole_ids = record { exceeds = λ n. ltb (2 ^ 32 - 1) n; to_uint32 = λ n. n % 2 ^ 32 }

-- The heartbeat is blocked, and the attitude limited to 10 per second.
abbrev options : Options ℕ
options = record {
  filters = record no_filters { blocked_outgoing_msg_ids = 0 ∷ [] };
  group = b'g' ∷ [];
  coalesce_bytes = 200;
  coalesce_ms = 10;
  coalesce_nodelay = [];
  message_throttling = (30, 5) ∷ (30, 10) ∷ [];
  throttle_cache = 30 ∷ [];
}

abbrev working : Ioctls
working = record { is_open = true; gets = true; sets = true; flushes = true }

abbrev searching : BaudSearch
searching = record {
  baudrates = 9600 ∷ 57600 ∷ [];
  current_baud_idx = 0;
  searching = true;
  line_speed = 9600;
}

-- Three expirations, and then a message.
abbrev happenings : List Happening
happenings = expires working ∷ expires working ∷ expires working ∷ reads true ∷ expires working ∷ []

works : Works working
unfolding Works
works = (refl, refl, refl)

all_work : AllWork happenings
unfolding AllWork
all_work = (works, (works, (works, (works, tt))))

add_speeds_lem_example :
    ((baud_run happenings searching).current_baud_idx ≡ 1)
    × ((baud_run happenings searching).line_speed ≡ 57600)
unfolding add_speeds expirations set_speed baud_at
add_speeds_lem_example =
    add_speeds_lem working 115200 (9600 ∷ 57600 ∷ []) happenings searching refl works all_work
