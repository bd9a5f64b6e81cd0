-- ===== src/Handle/Tests.antt =====
-- A heartbeat that the serial endpoint reads, where it is in one group with the UDP endpoint.
use mavlink_router.Prelude.{
  zero, suc, get_or, ℕ, ◌+◌, ◌/◌, ◌≡◌, refl, true, false, none, some, List, [], ◌∷◌, arith, ltb,
  ◌==◌,
}
use mavlink_router.Os.{count}
use mavlink_router.Message.{Msg}
use mavlink_router.Throttle.{RateOps}
use mavlink_router.Filter.{no_filters}
use mavlink_router.Accept.Target.{IsAddressed}
use mavlink_router.Tx.{TxBuf, Sock}
use mavlink_router.Router.{Device, uart, udp, Endpoint, Mainloop, Answers}
use mavlink_router.Dedup.{new_packet_or_timed_out, empty, check_packet}
use mavlink_router.Groups.Closure.{AreMembers}
use mavlink_router.Handle.{Node, handle_msg}
use mavlink_router.Handle.Echo.{handle_msg_lem}

abbrev whole_rates : RateOps ℕ
whole_rates = record {
  above_epsilon = λ r. ltb 0 r;
  below_epsilon = λ r. r == 0;
  period_usec = λ r. 1000000 / r;
}

abbrev empty_buffer : TxBuf
empty_buffer = record { pending = []; bytes = 0; total = 0 }

abbrev socket : Sock
socket = record {
  fd = some 5;
  tx = empty_buffer;
  has_peer = true;
  coalesce_bytes = 0;
  coalesce_ms = 0;
  coalesce_nodelay = [];
  timer = 0;
  write_scheduled = false;
  valid = true;
  retry_timeout = 0;
  reconnects = 0;
}

abbrev endpoint : Device → List ℕ → Endpoint ℕ
endpoint device ids = record {
  device = device;
  sys_comp_ids = ids;
  filters = no_filters;
  throttle = [];
  throttle_cache_ids = [];
  cached = record { cache = []; dropped = 0 };
  dropped_msgs = 0;
  armed = false;
}

abbrev vehicle : Endpoint ℕ
vehicle = endpoint (uart (record { fd = some 4; tx = empty_buffer })) []

abbrev ground_station : Endpoint ℕ
ground_station = endpoint (udp false socket) (65470 ∷ [])

abbrev running : Mainloop ℕ
running = record {
  endpoints = vehicle ∷ ground_station ∷ [];
  msg_to_unknown = 0;
  should_process_tcp_hangups = false;
  resend = record { scheduled = false; delay_ms = 0 };
}

abbrev world : ℕ → Answers
world place = record {
  accept_time = 1000;
  update_time = 1001;
  arm_time = 1002;
  system₁ = count 3;
  system₂ = count 3;
  timer_made = true;
}

-- From the vehicle, to all.
abbrev heartbeat : Msg
heartbeat = record {
  bytes = 1 ∷ 2 ∷ 3 ∷ [];
  msg_id = 0;
  target_sysid = none;
  target_compid = none;
  src_sysid = 1;
  src_compid = 1;
  payload_len = 0;
  payload_ofs = 0;
}

heartbeat-IsAddressed : IsAddressed heartbeat
heartbeat-IsAddressed = record {
  to_sysid = tt;
  to_compid = tt;
  from_sysid = omega arith;
  from_compid = omega arith;
}

abbrev node : Node ℕ
node = record { dedup = record { period = 0; impl = empty }; loop = running }

abbrev sum : List ℕ → ℕ
sum [] = 0
sum (x ∷ xs) = x + sum xs

abbrev members : ℕ → List ℕ
members zero = 1 ∷ []
members (suc zero) = 0 ∷ []
members (suc (suc j)) = []

members-AreMembers : AreMembers members 1 1 2
members-AreMembers zero = (omega arith, tt)
members-AreMembers (suc zero) = (omega arith, tt)
members-AreMembers (suc (suc j)) = tt

passes_dedup :
    check_packet sum 1000 heartbeat.bytes node.dedup ≡ some (new_packet_or_timed_out, node.dedup)
unfolding check_packet
passes_dedup = refl

handle_msg_lem_example :
    (n' : Node ℕ) × (handle_msg whole_rates sum members 0 world 1000 0 no_filters heartbeat node
      ≡ some n')
    × (n'.dedup ≡ node.dedup)
    × (ids : List ℕ) × (get_or n'.loop.endpoints 0 vehicle ≡ record vehicle { sys_comp_ids = ids })
handle_msg_lem_example =
    handle_msg_lem whole_rates sum members 0 world 1000 0 no_filters heartbeat node vehicle
      new_packet_or_timed_out node.dedup passes_dedup members-AreMembers (omega arith)
      heartbeat-IsAddressed
