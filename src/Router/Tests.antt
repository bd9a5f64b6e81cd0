-- ===== src/Router/Tests.antt =====
-- The main loop with a serial endpoint that has seen component 1 of system 1, and a UDP endpoint that
-- has seen component 190 of system 255.
use mavlink_router.Prelude.{
  get_or, lookup, ◌-◌, ℕ, ◌+◌, ◌*◌, ◌/◌, ◌^◌, ◌≤◌, ◌≡◌, refl, ◌⊎◌, inl, inr, ◌↔◌, true, false, none,
  some, List, [], ◌∷◌, arith, ltb, ◌==◌,
}
use mavlink_router.Os.{count}
use mavlink_router.Message.{Msg}
use mavlink_router.Throttle.{RateOps}
use mavlink_router.Filter.{no_filters}
use mavlink_router.Accept.Target.{IsAddressed}
use mavlink_router.Tx.{TxBuf, Sock}
use mavlink_router.Router.{
  Device, uart, udp, Endpoint, Mainloop, Answers, route_msg, process_tcp_hangups, reschedule_resend,
  nsec_per_msec,
}
use mavlink_router.Router.Loop.{TreatsEach, RejectEach, BreaksSome, route_msg_lem}
use mavlink_router.Router.Resend.{resend_timeout}
use mavlink_router.Router.Resend.Pending.{Pending, Rearmed}
use mavlink_router.Router.Resend.Run.{routes, hangs_up, here, onward, resend_never_forgets}
use mavlink_router.Router.Source.{Paired, route_msg_source}
use mavlink_router.Router.Timer.{
  NothingCached, NoneDueBefore, SomeDueAt, Wakes, reschedule_resend_lem,
}

abbrev whole_rates : RateOps ℕ
whole_rates = record {
  above_epsilon = λ r. ltb 0 r;
  below_epsilon = λ r. r == 0;
  period_usec = λ r. 1000000 / r;
}

abbrev empty_buffer : TxBuf
empty_buffer = record { pending = []; bytes = 0; total = 0 }

abbrev socket : Sock
socket = record {
  fd = some 5;
  tx = empty_buffer;
  has_peer = true;
  coalesce_bytes = 0;
  coalesce_ms = 0;
  coalesce_nodelay = [];
  timer = 0;
  write_scheduled = false;
  valid = true;
  retry_timeout = 0;
  reconnects = 0;
}

abbrev endpoint : Device → List ℕ → Endpoint ℕ
endpoint device ids = record {
  device = device;
  sys_comp_ids = ids;
  filters = no_filters;
  throttle = [];
  throttle_cache_ids = [];
  cached = record { cache = []; dropped = 0 };
  dropped_msgs = 0;
  armed = false;
}

abbrev vehicle : Endpoint ℕ
vehicle = endpoint (uart (record { fd = some 4; tx = empty_buffer })) (257 ∷ [])

abbrev ground_station : Endpoint ℕ
ground_station = endpoint (udp false socket) (65470 ∷ [])

abbrev running : Mainloop ℕ
running = record {
  endpoints = vehicle ∷ ground_station ∷ [];
  msg_to_unknown = 0;
  should_process_tcp_hangups = false;
  resend = record { scheduled = false; delay_ms = 0 };
}

abbrev world : ℕ → Answers
world place = record {
  accept_time = 1000;
  update_time = 1001;
  arm_time = 1002;
  system₁ = count 3;
  system₂ = count 3;
  timer_made = true;
}

-- From the vehicle, to all.
abbrev heartbeat : Msg
heartbeat = record {
  bytes = 1 ∷ 2 ∷ 3 ∷ [];
  msg_id = 0;
  target_sysid = none;
  target_compid = none;
  src_sysid = 1;
  src_compid = 1;
  payload_len = 0;
  payload_ofs = 0;
}

heartbeat-IsAddressed : IsAddressed heartbeat
heartbeat-IsAddressed = record {
  to_sysid = tt;
  to_compid = tt;
  from_sysid = omega arith;
  from_compid = omega arith;
}

route_msg_lem_example :
    let l' = route_msg whole_rates 0 world heartbeat running in
    TreatsEach whole_rates 0 heartbeat world 0 running.endpoints l'.endpoints
    × ((RejectEach whole_rates 0 heartbeat world 0 running.endpoints × (l'.msg_to_unknown ≡ 1))
        ⊎ ((¬ RejectEach whole_rates 0 heartbeat world 0 running.endpoints)
            × (l'.msg_to_unknown ≡ 0)))
    × ((l'.should_process_tcp_hangups ≡ true)
        ↔ ((false ≡ true) ⊎ BreaksSome whole_rates 0 heartbeat world 0 running.endpoints))
route_msg_lem_example = route_msg_lem whole_rates 0 heartbeat world running

first-Paired :
    (e : Endpoint ℕ) (es es' : List (Endpoint ℕ))
    → TreatsEach whole_rates 0 heartbeat world 0 (e ∷ es) es'
    → Paired e (get_or es' 0 e) (e ∷ es) es'
first-Paired e es [] t = absurd t
first-Paired e es (y ∷ ys) t = inl (refl, refl)

route_msg_source_example :
    get_or (route_msg whole_rates 0 world heartbeat running).endpoints 0 vehicle ≡ vehicle
route_msg_source_example =
    route_msg_source whole_rates 0 heartbeat world running vehicle
      (get_or (route_msg whole_rates 0 world heartbeat running).endpoints 0 vehicle)
      heartbeat-IsAddressed (inl refl)
      (first-Paired vehicle (ground_station ∷ []) _
        (route_msg_lem whole_rates 0 heartbeat world running).0)

-- A message of an id that has no rate is overdue.
abbrev holding : List (Endpoint ℕ)
holding = record vehicle { cached = record { cache = (0, heartbeat ∷ []) ∷ []; dropped = 0 } } ∷ []

holding_near : (d : ℕ) → SomeDueAt d holding → d ≤ 1000 + (2 ^ 32 - 1) * nsec_per_msec
unfolding lookup
holding_near d (inl (inl e)) = omega (arith, e)
holding_near d (inl (inr n)) = absurd n
holding_near d (inr n) = absurd n

reschedule_resend_lem_example :
    (NothingCached holding × (reschedule_resend 1000 holding running.resend ≡ none))
    ⊎ ((d : ℕ) × NoneDueBefore d holding
        × SomeDueAt d holding
        × (delay : ℕ) × Wakes 1000 d delay
        × (reschedule_resend 1000 holding running.resend
            ≡ some (record { scheduled = false; delay_ms = delay })))
reschedule_resend_lem_example = reschedule_resend_lem 1000 holding running.resend holding_near

abbrev waiting : Mainloop ℕ
waiting = record running {
  endpoints = holding;
  resend = record { scheduled = true; delay_ms = 10 };
}

resend_never_forgets_example :
    let k = process_tcp_hangups whole_rates (route_msg whole_rates 0 world heartbeat waiting) in
    let out = resend_timeout whole_rates (λ place. world) 2000 k in
    Pending k.endpoints k.resend
    × Rearmed whole_rates out.0 out.1
    × Pending out.1.endpoints out.1.resend
unfolding Pending
resend_never_forgets_example =
    resend_never_forgets whole_rates 0 waiting _ (λ place. world) 2000 (inr refl)
      (onward (onward here (routes heartbeat world (λ i. refl))) hangs_up)
