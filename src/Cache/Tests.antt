-- ===== src/Cache/Tests.antt =====
-- The message cache of an endpoint whose link has room for one message only.
use mavlink_router.Prelude.{ℕ, ◌+◌, ◌/◌, true, none, List, [], ◌∷◌, arith, ltb, ◌==◌, if◌then◌else◌}
use mavlink_router.Os.{count, failed, enobufs}
use mavlink_router.Message.{Msg}
use mavlink_router.Throttle.{RateOps}
use mavlink_router.Cache.{cache_size, Cached, Link, resend_queued_msgs}
use mavlink_router.Cache.Bounds.{IsBounded}
use mavlink_router.Cache.Order.{Resends, resend_queued_msgs-Resends}

abbrev whole_rates : RateOps ℕ
whole_rates = record {
  above_epsilon = λ r. ltb 0 r;
  below_epsilon = λ r. r == 0;
  period_usec = λ r. 1000000 / r;
}

abbrev numbered : ℕ → Msg
numbered n = record {
  bytes = n ∷ [];
  msg_id = 30;
  target_sysid = none;
  target_compid = none;
  src_sysid = 1;
  src_compid = 1;
  payload_len = 0;
  payload_ofs = 0;
}

abbrev held : Cached
held = record { cache = (30, numbered 1 ∷ []) ∷ []; dropped = 0 }

held-IsBounded : IsBounded held
unfolding cache_size
held-IsBounded = record { rises = (omega arith, tt); within = omega arith }

-- The state is the room that is left and the time.
abbrev narrow : Link (ℕ × ℕ)
narrow = record {
  write_msg = λ m s. if ltb 0 s.0 then (count 1, (0, s.1)) else (failed enobufs, s);
  is_open = λ s. true;
  read_clock = λ s. (s.1, (s.0, s.1 + 10));
}

abbrev queue : List Msg
queue = numbered 1 ∷ numbered 2 ∷ []

resend_queued_msgs-Resends_example :
    Resends narrow whole_rates 30 queue
      (1, 0)
      (resend_queued_msgs whole_rates narrow 30 queue [] (1, 0))
resend_queued_msgs-Resends_example =
    resend_queued_msgs-Resends narrow whole_rates 30 queue [] (1, 0)
