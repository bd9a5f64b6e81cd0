-- ===== src/Accept/Tests.antt =====
-- `accept_msg` at a concrete endpoint: it has seen component 1 of system 1, and limits the message 30,
-- of which one waits in its cache.
use mavlink_router.Prelude.{◌==◌, ◌/◌, ℕ, ◌≡◌, ◌↔◌, some, [], ◌∷◌, arith, ltb}
use mavlink_router.Message.{Msg}
use mavlink_router.Throttle.{RateOps}
use mavlink_router.Filter.{no_filters}
use mavlink_router.Accept.{cached, Gate, accept_msg}
use mavlink_router.Accept.Target.{IsAddressed}
use mavlink_router.Accept.Verdict.{Verdict, accept_msg_iff}

-- A rate in messages per second
abbrev whole_rates : RateOps ℕ
whole_rates = record {
  above_epsilon = λ r. ltb 0 r;
  below_epsilon = λ r. r == 0;
  period_usec = λ r. 1000000 / r;
}

abbrev gate : Gate ℕ
gate = record {
  sys_comp_ids = 257 ∷ [];
  filters = no_filters;
  throttle = (30, record { rate = 10; next_timestamp = 500 }) ∷ [];
  throttle_cache_ids = 30 ∷ [];
  cached_ids = 30 ∷ [];
}

abbrev to_one : Msg
to_one = record {
  bytes = 0 ∷ [];
  msg_id = 30;
  target_sysid = some 1;
  target_compid = some 1;
  src_sysid = 9;
  src_compid = 1;
  payload_len = 0;
  payload_ofs = 0;
}

to_one-IsAddressed : IsAddressed to_one
to_one-IsAddressed = record {
  to_sysid = omega arith;
  to_compid = omega arith;
  from_sysid = omega arith;
  from_compid = omega arith;
}

accept_msg_iff_example :
    (accept_msg whole_rates 0 400 gate to_one ≡ cached)
    ↔ Verdict whole_rates 0 400 gate to_one cached
accept_msg_iff_example = accept_msg_iff whole_rates 0 400 gate to_one to_one-IsAddressed cached
