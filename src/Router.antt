-- ===== src/Router.antt =====
-- src/mainloop.cpp: `Mainloop::write_msg`, `route_msg`, `process_tcp_hangups` and the timer for cached
-- messages; and the `accept_msg` of the kinds of endpoint in src/endpoint.cpp.
pub mod Loop
pub mod Timer
pub mod Source
pub mod Resend
mod Tests
use mavlink_router.Prelude.{
  ℕ, ◌+◌, ◌*◌, ◌-◌, ◌/◌, ◌%◌, ◌^◌, Bool, true, false, ◌&&◌, ◌||◌, not, Option, none, some, List, [],
  ◌∷◌, ◌++◌, map, min, max, ltb, leb, if◌then◌else◌, is_some, keep,
}
use mavlink_router.Os.{Ret, is_eagain, is_enobufs, is_epipe}
use mavlink_router.Message.{Msg}
use mavlink_router.Throttle.{
  RateOps, ThrottleMap, is_throttling_enabled, update_throttle_info, is_empty,
}
use mavlink_router.Filter.{Filters}
use mavlink_router.Accept.{
  AcceptState, accepted, filtered, rejected, throttled, cached, Gate, accept_msg,
}
use mavlink_router.Cache.{Cached, cache_msg, next_resend_deadline}
use mavlink_router.Tx.{Uart, uart_write_msg, Sock, udp_write_msg, tcp_write_msg}

-- What is particular to the kind of an endpoint. A UDP endpoint may be in the mode `Receiver`.
pub data Device : Type 0 where
  uart : Uart → Device
  udp : Bool → Sock → Device
  tcp : Sock → Device

-- `fd >= 0`
abbrev pub is_open : Device → Bool
is_open (uart u) = is_some u.fd
is_open (udp receiver s) = is_some s.fd
is_open (tcp s) = is_some s.fd

-- An endpoint, with `cached` for the message cache and its counter. `armed` tells whether EPOLLOUT is
-- among the events for its descriptor.
pub record Endpoint (Rate : Type 0) : Type 0 where
  pub device : Device
  pub sys_comp_ids : List ℕ
  pub filters : Filters
  pub throttle : ThrottleMap Rate
  pub throttle_cache_ids : List ℕ
  pub cached : Cached
  pub dropped_msgs : ℕ
  pub armed : Bool

-- `_resend_scheduled`, and the time for which `_resend_timer` was last armed.
pub record ResendTimer : Type 0 where
  pub scheduled : Bool
  pub delay_ms : ℕ

pub record Mainloop (Rate : Type 0) : Type 0 where
  pub endpoints : List (Endpoint Rate)
  pub msg_to_unknown : ℕ
  pub should_process_tcp_hangups : Bool
  pub resend : ResendTimer

-- What the loop of `route_msg` changes besides the endpoints.
pub record Routing : Type 0 where
  pub unknown : Bool
  pub hangups : Bool
  pub resend : ResendTimer

-- What the clock and the system answer while one endpoint is looked at: the time in `accept_msg`, at
-- the update of the throttling and at the arming of the timer; what the writes return; and whether a
-- new timer can be made.
pub record Answers : Type 0 where
  pub accept_time : ℕ
  pub update_time : ℕ
  pub arm_time : ℕ
  pub system₁ : Ret
  pub system₂ : Ret
  pub timer_made : Bool

abbrev pub resend_retry_ms : ℕ
resend_retry_ms = 10

abbrev pub nsec_per_msec : ℕ
nsec_per_msec = 1000000

-- `delay_ms` of `_reschedule_resend`
pub resend_delay : ℕ → ℕ → ℕ
resend_delay now earliest =
    if leb earliest now
    then resend_retry_ms
    else min (max ((earliest - now + nsec_per_msec - 1) / nsec_per_msec) 1) (2 ^ 32 - 1)

-- The smaller of two time points, where the longest one stands for `none`.
abbrev pub earlier : Option ℕ → Option ℕ → Option ℕ
earlier none b = b
earlier (some a) none = some a
earlier (some a) (some b) = some (min a b)

module _ {Rate : Type 0} where
  -- The earliest time at which a cached message of an endpoint is due.
  pub earliest_deadline : List (Endpoint Rate) → Option ℕ
  earliest_deadline [] = none
  earliest_deadline (e ∷ es) =
      earlier
        (if not (is_empty e.cached.cache)
          then next_resend_deadline e.throttle e.cached.cache
          else none)
        (earliest_deadline es)

  -- `_reschedule_resend`: `none` for the result false.
  pub reschedule_resend : ℕ → List (Endpoint Rate) → ResendTimer → Option ResendTimer
  reschedule_resend now es t = elim (earliest_deadline es) [
    | none ↦ none
    | some earliest ↦ some (record t { delay_ms = resend_delay now earliest })
  ]

  pub schedule_resend : Answers → List (Endpoint Rate) → ResendTimer → ResendTimer
  schedule_resend a es t =
      let made =
        if t.scheduled then t else record { scheduled = true; delay_ms = resend_retry_ms } in
      if not t.scheduled && not a.timer_made
      then t
      else elim (reschedule_resend a.arm_time es made) [ none ↦ made | some t' ↦ t' ]

module _ {Rate : Type 0} (ops : RateOps Rate) where
  pub gate : Endpoint Rate → Gate Rate
  gate e = record {
    sys_comp_ids = e.sys_comp_ids;
    filters = e.filters;
    throttle = e.throttle;
    throttle_cache_ids = e.throttle_cache_ids;
    cached_ids = map (λ q. q.0) e.cached.cache;
  }

  -- `accept_msg`, which the UDP and the TCP endpoint override.
  pub accept : ℕ → ℕ → Endpoint Rate → Msg → AcceptState
  accept sniffer now e m = elim e.device [
    | uart u ↦ accept_msg ops sniffer now (gate e) m
    | udp receiver s ↦
        if receiver
        then filtered
        else if not s.has_peer
        then rejected
        else accept_msg ops sniffer now (gate e) m
    | tcp s ↦ if not (is_some s.fd) then rejected else accept_msg ops sniffer now (gate e) m
  ]

  -- `Endpoint::write_msg`
  pub device_write : Answers → Msg → Device → Ret × Device
  device_write a m (uart u) = let w = uart_write_msg a.system₂ m u in (w.result, uart w.after)
  device_write a m (udp receiver s) =
      let w = udp_write_msg a.system₁ a.system₂ m s in (w.result, udp receiver w.after)
  device_write a m (tcp s) =
      let w = tcp_write_msg a.system₁ a.system₂ m s in (w.result, tcp w.after)

  -- `Mainloop::write_msg`. The events go with the descriptor when it is closed.
  pub write_msg : Answers → Msg → Endpoint Rate → Ret × Endpoint Rate
  write_msg a m e =
      let (r, device) = device_write a m e.device in
      (
        r,
        record e {
          device = device;
          dropped_msgs = if is_enobufs r then (e.dropped_msgs + 1) % 2 ^ 32 else e.dropped_msgs;
          armed = is_open device && (e.armed || is_eagain r || is_enobufs r);
        },
      )

  -- One turn of the loop in `route_msg`, for the endpoint `e` between those in `before` and `behind`.
  pub route_turn :
      ℕ
      → Answers
      → Msg
      → List (Endpoint Rate)
      → Endpoint Rate
      → List (Endpoint Rate)
      → Routing
      → Endpoint Rate × Routing
  route_turn sniffer a m before e behind r =
      let (result, written) = write_msg a m e in
      let timed =
        if is_throttling_enabled m.msg_id written.throttle
        then record written {
          throttle = update_throttle_info ops a.update_time m.msg_id written.throttle;
        }
        else written in
      let holding = record e { cached = cache_msg m e.cached } in
      let known = record r { unknown = false } in
      elim (accept sniffer a.accept_time e m) [
        | accepted ↦ (timed, record known { hangups = r.hangups || is_epipe result })
        | filtered ↦ (e, known)
        | throttled ↦ (e, known)
        | cached ↦ (
          holding,
          record known { resend = schedule_resend a (before ++ (holding ∷ behind)) r.resend },
        )
        | rejected ↦ (e, r)
      ]

  -- The loop: what the clock and the system answer depends on the place of the endpoint.
  pub route_each :
      ℕ
      → (ℕ → Answers)
      → Msg
      → ℕ
      → List (Endpoint Rate)
      → List (Endpoint Rate)
      → Routing
      → List (Endpoint Rate) × Routing
  route_each sniffer world m place before [] r = (before, r)
  route_each sniffer world m place before (e ∷ es) r =
      let (e', r') = route_turn sniffer (world place) m before e es r in
      route_each sniffer world m (place + 1) (before ++ (e' ∷ [])) es r'

  pub route_msg : ℕ → (ℕ → Answers) → Msg → Mainloop Rate → Mainloop Rate
  route_msg sniffer world m l =
      let (es, r) =
        route_each sniffer world m 0 [] l.endpoints
          (record { unknown = true; hangups = l.should_process_tcp_hangups; resend = l.resend }) in
      record {
        endpoints = es;
        msg_to_unknown = if r.unknown then (l.msg_to_unknown + 1) % 2 ^ 32 else l.msg_to_unknown;
        should_process_tcp_hangups = r.hangups;
        resend = r.resend;
      }

  -- Whether `process_tcp_hangups` leaves an endpoint in the list.
  abbrev pub stays : Endpoint Rate → Bool
  stays e = elim e.device [ uart u ↦ true | udp receiver s ↦ true | tcp s ↦ s.valid ]

  pub process_tcp_hangups : Mainloop Rate → Mainloop Rate
  process_tcp_hangups l = record l {
    endpoints = keep stays l.endpoints;
    should_process_tcp_hangups = false;
  }
