-- ===== src/Events.antt =====
-- src/mainloop.cpp, `Mainloop::loop`: the batches of events that epoll reports, and the objects they point to.

pub mod Owners
pub mod Exists
pub mod Hangups
pub mod Steady
pub mod Steps
pub mod Safe
mod Tests
use mavlink_router.Prelude.{
  ℕ, ◌==◌, Bool, true, false, ◌&&◌, ◌||◌, not, Option, none, some, List, [], ◌∷◌, ◌++◌, map,
  if◌then◌else◌, keep, any,
}

-- An endpoint as the loop sees it: a number that no other object ever has, for its address; whether it
-- is a `TcpEndpoint`; `_retry_timeout > 0`; `_valid`; and whether EPOLLOUT is armed for it.
pub record Pollable : Type 0 where
  pub number : ℕ
  pub is_tcp : Bool
  pub reconnects : Bool
  pub valid : Bool
  pub armed : Bool

-- A `Timeout`: its number; the endpoint that its callback works on, if not the main loop; whether it is
-- one that the destructor of this endpoint does not delete; and `remove_me`. The timers that destructors
-- delete are those for coalescing and for a silent peer. Those that they leave are the timers to
-- reconnect and to change the baud rate.
pub record Timer : Type 0 where
  pub number : ℕ
  pub owner : Option ℕ
  pub lasting : Bool
  pub remove_me : Bool

-- What the pointer of an event is compared with and then cast to.
pub data Target : Type 0 where
  tcp_server : Target
  command_pipe : Target
  endpoint : ℕ → Target
  timer : ℕ → Target

-- An event: EPOLLIN, EPOLLOUT, EPOLLERR and EPOLLHUP.
pub record Event : Type 0 where
  pub target : Target
  pub readable : Bool
  pub writable : Bool
  pub failed : Bool
  pub hung_up : Bool

-- What a command of the pipe does to the lists.
pub data Change : Type 0 where
  added : Pollable → List Timer → Change
  removed : ℕ → Change

-- What the handlers answer, and what they do to the lists of the loop: `negative` for a result of
-- `handle_read` below zero; `pending` for the one of `handle_canwrite`; `answer` for that of a timer's
-- callback; the connections that turned out to be shut down (EOF or EPIPE), each with the number for
-- a timer; new timers of the main loop; the timers given to `del_timeout`; whether a message met EPIPE;
-- the endpoint that the TCP server accepted; and the changes by commands.
pub record Reply : Type 0 where
  pub negative : Bool
  pub pending : Bool
  pub answer : Bool
  pub shut : List (ℕ × ℕ)
  pub new_timers : List ℕ
  pub deleted : List ℕ
  pub met_epipe : Bool
  pub accepted : Option (Pollable × Timer)
  pub commands : List Change

-- `g_endpoints`, `_timeouts`, `should_process_tcp_hangups`, and `should_exit` with the exit code, where
-- `failure` stands for EXIT_FAILURE.
pub record Poller : Type 0 where
  pub endpoints : List Pollable
  pub timers : List Timer
  pub hangups : Bool
  pub should_exit : Bool
  pub failure : Bool

pub has_endpoint : ℕ → List Pollable → Bool
has_endpoint n es = any (λ e. e.number == n) es

pub has_timer : ℕ → List Timer → Bool
has_timer n ts = any (λ t. t.number == n) ts

-- `set_invalid`, and an assignment of false to `_valid`, in the object at `n`.
pub set_invalid : ℕ → Pollable → Pollable
set_invalid n e = if (e.number == n) && e.is_tcp then record e { valid = false } else e

-- Where a read meets the end of the stream, or a write EPIPE: the connection stays valid if
-- `_schedule_reconnect` makes a timer for it.
pub shut_down : ℕ → Pollable → Pollable
shut_down n e = if (e.number == n) && e.is_tcp then record e { valid = e.reconnects } else e

pub retry_timers : ℕ → ℕ → List Pollable → List Timer
retry_timers n number [] = []
retry_timers n number (e ∷ es) =
    if (e.number == n) && (e.is_tcp && e.reconnects)
    then record { number = number; owner = some n; lasting = true; remove_me = false } ∷ []
    else retry_timers n number es

pub shut_each : List (ℕ × ℕ) → Poller → Poller
shut_each [] l = l
shut_each ((n, number) ∷ more) l = shut_each more (record l {
  endpoints = map (shut_down n) l.endpoints;
  timers = retry_timers n number l.endpoints ++ l.timers;
})

pub del_timeout : ℕ → Timer → Timer
del_timeout n t = if t.number == n then record t { remove_me = true } else t

pub del_each : List ℕ → List Timer → List Timer
del_each [] ts = ts
del_each (n ∷ more) ts = del_each more (map (del_timeout n) ts)

pub new_each : List ℕ → List Timer → List Timer
new_each [] ts = ts
new_each (n ∷ more) ts =
    new_each more (record { number = n; owner = none; lasting = false; remove_me = false } ∷ ts)

-- What any handler of an endpoint or a timer does to the lists.
pub handled : Reply → Poller → Poller
handled r l =
    let s = shut_each r.shut l in
    record s {
      timers = new_each r.new_timers (del_each r.deleted s.timers);
      hangups = s.hangups || r.met_epipe;
    }

-- The destructor of the endpoint `n`: it deletes timers.
pub destroyed : ℕ → Timer → Timer
destroyed n t =
    if not t.lasting && (elim t.owner [ none ↦ false | some o ↦ o == n ])
    then record t { remove_me = true }
    else t

pub destroy_each : List Pollable → List Timer → List Timer
destroy_each [] ts = ts
destroy_each (e ∷ es) ts = destroy_each es (map (destroyed e.number) ts)

-- `handle_tcp_connection`
pub handle_tcp_connection : Reply → Poller → Poller
handle_tcp_connection r l = elim r.accepted [
  | none ↦ l
  | some a ↦ record l { endpoints = l.endpoints ++ (a.0 ∷ []); timers = a.1 ∷ l.timers }
]

-- The commands that `handle_command_pipe` obeys, as far as the lists go.
pub command_each : List Change → Poller → Poller
command_each [] l = l
command_each (added e ts ∷ more) l =
    command_each more (record l { endpoints = l.endpoints ++ (e ∷ []); timers = ts ++ l.timers })
command_each (removed n ∷ more) l = command_each more (record l {
  endpoints = keep (λ e. not (e.number == n)) l.endpoints;
  timers = map (destroyed n) l.timers;
})

-- `!p->is_valid()`
pub is_invalid : Target → List Pollable → Bool
is_invalid (endpoint n) es = any (λ e. (e.number == n) && not e.valid) es
is_invalid _ es = false

-- Whether the callback of the timer `n` runs: `handle_read` calls none for a deleted timer.
pub runs : ℕ → List Timer → Bool
runs n ts = any (λ t. (t.number == n) && not t.remove_me) ts

-- `open` in the callback of the timer to reconnect sets `_valid` of its endpoint.
pub reopened : ℕ → List Timer → Pollable → Pollable
reopened n ts e =
    if e.is_tcp
      && any
          (λ t.
            (t.number == n)
            && (t.lasting && (elim t.owner [ none ↦ false | some o ↦ o == e.number ])))
          ts
    then record e { valid = true }
    else e

-- EPOLLIN for a timer: the callback runs, and its answer false deletes the timer. So answers the one to
-- reconnect if it has opened the connection.
pub expired : ℕ → Reply → Poller → Poller
expired n r l =
    let h = handled r l in
    let over = record h {
      endpoints = map (reopened n h.timers) h.endpoints;
      timers = map (del_timeout n) h.timers;
    } in
    if not (runs n l.timers) then l else if r.answer then h else over

-- `handle_read` of the object, and the test of its result.
pub read_from : Target → Reply → Poller → Poller
read_from (timer n) r l = expired n r l
read_from to r l =
    let h = handled r l in
    record h { hangups = h.hangups || (r.negative && is_invalid to h.endpoints) }

pub readable_event : Event → Reply → Poller → Poller
readable_event ev r l = if ev.readable then read_from ev.target r l else l

pub disarm : Target → Pollable → Pollable
disarm (endpoint n) e = if e.number == n then record e { armed = false } else e
disarm _ e = e

pub writable_event : Event → Reply → Poller → Poller
writable_event ev r l =
    if ev.writable && not r.pending
    then record l { endpoints = map (disarm ev.target) l.endpoints }
    else l

-- Whether the pointer is one to a `TcpEndpoint`.
pub is_tcp_target : Target → List Pollable → Bool
is_tcp_target (endpoint n) es = any (λ e. (e.number == n) && e.is_tcp) es
is_tcp_target _ es = false

pub fail : Target → Pollable → Pollable
fail (endpoint n) e = set_invalid n e
fail _ e = e

pub failed_event : Event → Poller → Poller
failed_event ev l =
    if ev.failed
    then if is_tcp_target ev.target l.endpoints
      then record l { endpoints = map (fail ev.target) l.endpoints; hangups = true }
      else record l { should_exit = true; failure = true }
    else l

-- What the loop does for the pointer of an event.
pub dispatch : Target → Event → Reply → Poller → Poller
dispatch tcp_server ev r l = handle_tcp_connection r l
dispatch command_pipe ev r l = command_each r.commands l
dispatch to ev r l = failed_event ev (writable_event ev r (readable_event ev r l))

-- A turn of the loop over the events.
pub handle_event : Event × Reply → Poller → Poller
handle_event (ev, r) l = dispatch ev.target ev r l

-- `process_tcp_hangups`
pub stays : Pollable → Bool
stays e = not e.is_tcp || e.valid

pub process_tcp_hangups : Poller → Poller
process_tcp_hangups l = record l {
  endpoints = keep stays l.endpoints;
  timers = destroy_each (keep (λ e. not (stays e)) l.endpoints) l.timers;
  hangups = false;
}

-- What follows the loop over the events; `_del_timeouts` frees the timers that are deleted.
pub finish_batch : Poller → Poller
finish_batch l =
    let h = if l.hangups then process_tcp_hangups l else l in
    record h { timers = keep (λ t. not t.remove_me) h.timers }

pub handle_each : List (Event × Reply) → Poller → Poller
handle_each [] l = l
handle_each (e ∷ es) l = handle_each es (handle_event e l)

-- What `epoll_wait` reports: EINTR, or events.
pub data Wait : Type 0 where
  interrupted : Wait
  events : List (Event × Reply) → Wait

-- The loop, for what `epoll_wait` reports in turn.
pub loop : List Wait → Poller → Poller
loop [] l = l
loop (interrupted ∷ more) l = if l.should_exit then l else loop more l
loop (events es ∷ more) l = if l.should_exit then l else loop more (finish_batch (handle_each es l))
