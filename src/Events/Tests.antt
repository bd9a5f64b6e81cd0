-- ===== src/Events/Tests.antt =====
-- src/mainloop.cpp, `Mainloop::loop`: runs and a witness.
use mavlink_router.Prelude.{◌≡◌, refl, ℕ, true, false, none, some, List, [], ◌∷◌, map}
use mavlink_router.Events.{
  Pollable, Poller, Event, Reply, Target, command_pipe, endpoint, timer, removed, Wait, events,
  loop, finish_batch, process_tcp_hangups, destroy_each, destroyed, stays, handle_each,
  handle_event, dispatch, failed_event, writable_event, readable_event, read_from, expired, runs,
  handled, new_each, del_each, del_timeout, shut_each, retry_timers, shut_down, is_invalid,
  reopened, is_tcp_target, fail, set_invalid, command_each, handle_tcp_connection, has_endpoint,
  has_timer,
}
use mavlink_router.Events.Owners.{Owned, Timers, owned, holds}
use mavlink_router.Events.Exists.{exists_target, IsAdded}
use mavlink_router.Events.Steady.{Steady, breaks}
use mavlink_router.Events.Steps.{Calm, Comes, Accepts}
use mavlink_router.Events.Safe.{
  never_dangles, each_exists, all_exist, uses, callback_uses, CalmEach, Orderly, loop_never_dangles,
}

abbrev quiet : Reply
quiet = record {
  negative = false;
  pending = false;
  answer = true;
  shut = [];
  new_timers = [];
  deleted = [];
  met_epipe = false;
  accepted = none;
  commands = [];
}

-- A client of the TCP server, and a connection that reconnects.
abbrev client : Pollable
client = record { number = 1; is_tcp = true; reconnects = false; valid = true; armed = false }

abbrev ground_station : Pollable
ground_station = record { number = 2; is_tcp = true; reconnects = true; valid = true; armed = true }

abbrev started : Poller
started = record {
  endpoints = client ∷ ground_station ∷ [];
  timers =
      record { number = 11; owner = some 1; lasting = false; remove_me = false }
      ∷ record { number = 12; owner = some 2; lasting = false; remove_me = false }
      ∷ [];
  hangups = false;
  should_exit = false;
  failure = false;
}

abbrev event : Target → Event
event to = record {
  target = to;
  readable = true;
  writable = false;
  failed = false;
  hung_up = false;
}

-- Both connections are shut down, and the timers for coalescing expire in the same batch; then the
-- timer to reconnect expires.
abbrev shut_reply : ℕ → ℕ → Reply
shut_reply n number = record quiet { negative = true; shut = (n, number) ∷ [] }

abbrev both_shut : List Wait
both_shut =
    events (
      (event (endpoint 1), shut_reply 1 21)
      ∷ (event (timer 11), quiet)
      ∷ (event (endpoint 2), shut_reply 2 22)
      ∷ (event (timer 12), quiet)
      ∷ [])
    ∷ events ((event (timer 22), record quiet { answer = false }) ∷ [])
    ∷ []

loop_never_dangles_example :
    (never_dangles both_shut started ≡ true) × Owned (loop both_shut started)
unfolding loop finish_batch process_tcp_hangups destroy_each destroyed stays handle_each
    handle_event dispatch failed_event writable_event readable_event read_from expired runs handled
    new_each del_each del_timeout shut_each retry_timers shut_down is_invalid reopened is_tcp_target
    fail set_invalid command_each handle_tcp_connection has_endpoint has_timer exists_target
    never_dangles each_exists all_exist uses callback_uses Owned Orderly CalmEach Calm Steady breaks
    Timers owned holds Accepts IsAdded Comes
loop_never_dangles_example =
    loop_never_dangles both_shut started (refl, (refl, tt))
      (
        (refl, (refl, (refl, (refl, tt)))),
        (
          (tt, tt, tt, (refl, (refl, tt))),
          (
            (tt, tt, tt, (refl, (refl, tt))),
            ((tt, tt, tt, (refl, (refl, tt))), ((tt, tt, tt, (refl, (refl, tt))), tt)),
          ),
        ),
        ((refl, tt), ((tt, tt, tt, (refl, tt)), tt), tt),
      )

both_shut_ends : map (λ e. e.number) (loop both_shut started).endpoints ≡ 2 ∷ []
unfolding loop finish_batch process_tcp_hangups destroy_each destroyed stays handle_each
    handle_event dispatch failed_event writable_event readable_event read_from expired runs handled
    new_each del_each del_timeout shut_each retry_timers shut_down is_invalid reopened is_tcp_target
    fail set_invalid command_each handle_tcp_connection has_endpoint has_timer
both_shut_ends = refl

-- A command that removes the endpoint of a later event of the batch.
removal_dangles :
    never_dangles
      (events (
          (event command_pipe, record quiet { commands = removed 1 ∷ [] })
          ∷ (event (endpoint 1), quiet)
          ∷ [])
        ∷ [])
      started
    ≡ false
unfolding loop finish_batch process_tcp_hangups destroy_each destroyed stays handle_each
    handle_event dispatch failed_event writable_event readable_event read_from expired runs handled
    new_each del_each del_timeout shut_each retry_timers shut_down is_invalid reopened is_tcp_target
    fail set_invalid command_each handle_tcp_connection has_endpoint has_timer exists_target
    never_dangles each_exists all_exist uses callback_uses
removal_dangles = refl

-- The end of the stream and an error in one event, on the connection that reconnects: the endpoint goes,
-- and its timer to reconnect stays.
error_dangles :
    never_dangles
      (events ((record (event (endpoint 2)) { failed = true }, shut_reply 2 22) ∷ [])
        ∷ events ((event (timer 22), quiet) ∷ [])
        ∷ [])
      started
    ≡ false
unfolding loop finish_batch process_tcp_hangups destroy_each destroyed stays handle_each
    handle_event dispatch failed_event writable_event readable_event read_from expired runs handled
    new_each del_each del_timeout shut_each retry_timers shut_down is_invalid reopened is_tcp_target
    fail set_invalid command_each handle_tcp_connection has_endpoint has_timer exists_target
    never_dangles each_exists all_exist uses callback_uses
error_dangles = refl
