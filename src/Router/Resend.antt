-- ===== src/Router/Resend.antt =====
-- src/mainloop.cpp, `Mainloop::_resend_timeout`: the timer that resends cached messages.
pub mod Pending
pub mod Run
use mavlink_router.Prelude.{
  ℕ, ◌+◌, Bool, true, false, ◌&&◌, ◌||◌, Option, none, some, List, [], ◌∷◌, if◌then◌else◌,
}
use mavlink_router.Os.{Ret}
use mavlink_router.Message.{Msg}
use mavlink_router.Throttle.{RateOps}
use mavlink_router.Cache.{Cached, Link, Resent, resend_cached_msgs}
use mavlink_router.Router.{
  Device, is_open, Endpoint, ResendTimer, Mainloop, Answers, device_write, reschedule_resend,
}

-- An endpoint's device, and how often the clock or the system was asked.
pub record LinkState : Type 0 where
  pub device : Device
  pub turn : ℕ

module _ {Rate : Type 0} (ops : RateOps Rate) where
  -- What `resend_cached_msgs` uses of an endpoint, where `world` answers each reading of the clock and
  -- each write.
  pub device_link : (ℕ → Answers) → Link LinkState
  device_link world = record {
    write_msg = λ m s.
        let (r, device) = device_write ops (world s.turn) m s.device in
        (r, record { device = device; turn = s.turn + 1 });
    is_open = λ s. is_open s.device;
    read_clock = λ s. ((world s.turn).accept_time, record s { turn = s.turn + 1 });
  }

  -- `resend_cached_msgs` of an endpoint, and whether it sets `should_process_tcp_hangups`.
  pub resend_endpoint : (ℕ → Answers) → Endpoint Rate → Endpoint Rate × Bool
  resend_endpoint world e =
      let r =
        resend_cached_msgs ops (device_link world) e.cached.cache e.throttle
          (record { device = e.device; turn = 0 }) in
      (
        record e {
          device = r.link_state.device;
          throttle = r.throttle;
          cached = record { cache = r.kept; dropped = e.cached.dropped };
          armed = is_open r.link_state.device && (e.armed || r.armed);
        },
        r.hangup,
      )

  pub resend_each : (ℕ → ℕ → Answers) → ℕ → List (Endpoint Rate) → List (Endpoint Rate) × Bool
  resend_each worlds place [] = ([], false)
  resend_each worlds place (e ∷ es) =
      let (e', hangup) = resend_endpoint (worlds place) e in
      let (es', hangups) = resend_each worlds (place + 1) es in (e' ∷ es', hangup || hangups)

  -- What `_resend_timeout` does about its timer, and returns.
  pub settle : Option ResendTimer → Mainloop Rate → Bool × Mainloop Rate
  settle none l = (false, record l { resend = record l.resend { scheduled = false } })
  settle (some t) l = (true, record l { resend = t })

  -- `_resend_timeout`
  pub resend_timeout : (ℕ → ℕ → Answers) → ℕ → Mainloop Rate → Bool × Mainloop Rate
  resend_timeout worlds now l =
      let (es, hangups) = resend_each worlds 0 l.endpoints in
      let sent = record l {
        endpoints = es;
        should_process_tcp_hangups = l.should_process_tcp_hangups || hangups;
      } in
      settle (reschedule_resend now es l.resend) sent
