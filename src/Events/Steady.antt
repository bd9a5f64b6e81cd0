-- ===== src/Events/Steady.antt =====
-- src/mainloop.cpp, `Mainloop::loop`: errors on connections that would not reconnect.
use mavlink_router.Prelude.{
  ℕ, ◌≡◌, refl, Bool, true, false, ◌&&◌, not, List, [], ◌∷◌, map, inl, inr, Bool-cases,
  if◌then◌else◌, All, arith, All-map,
}
use mavlink_router.Events.{
  Pollable, Timer, Poller, Event, Reply, Target, tcp_server, command_pipe, endpoint, timer,
  set_invalid, shut_down, shut_each, handled, reopened, expired, runs, read_from, readable_event,
  disarm, writable_event, is_tcp_target, fail,
}
use mavlink_router.Events.Owners.{holds}

-- Whether an event with an error is one for the connection `e`, which would reconnect.
unfoldable pub breaks : Event → Pollable → Bool
breaks ev e = ev.failed && (is_tcp_target ev.target (e ∷ []) && e.reconnects)

-- No error is reported for a connection that would reconnect.
unfoldable pub Steady : Event → List Pollable → Type 0
Steady ev es = All (λ e. breaks ev e ≡ false) es

-- A change that leaves alone what `breaks` reads.
Alike : (Pollable → Pollable) → Type 0
Alike f = (e : Pollable) (ev : Event) → breaks ev (f e) ≡ breaks ev e

Steady-map :
    (f : Pollable → Pollable) (ev : Event) (es : List Pollable)
    → Alike f
    → Steady ev es
    → Steady ev (map f es)
unfolding Steady Alike
Steady-map f ev es k a = All-map _ _ f (λ e h. rw (k e ev) h) es a

either_breaks :
    (b : Bool) (e e' : Pollable) (ev : Event)
    → breaks ev e' ≡ breaks ev e
    → breaks ev (if b then e' else e) ≡ breaks ev e
either_breaks true e e' ev h = h
either_breaks false e e' ev h = refl

same_kind :
    (e : Pollable) (valid armed : Bool) (ev : Event)
    → breaks ev (record e { valid = valid; armed = armed }) ≡ breaks ev e
unfolding breaks is_tcp_target
same_kind e valid armed ev = go ev.target
  where
    go :
        (to : Target)
        → ev.failed
            && (is_tcp_target to ((record e { valid = valid; armed = armed }) ∷ []) && e.reconnects)
          ≡ ev.failed && (is_tcp_target to (e ∷ []) && e.reconnects)
    go tcp_server = refl
    go command_pipe = refl
    go (endpoint n) = refl
    go (timer n) = refl

shut_down-Alike : (n : ℕ) → Alike (shut_down n)
unfolding Alike shut_down
shut_down-Alike n e ev = either_breaks _ e _ ev (same_kind e e.reconnects e.armed ev)

reopened-Alike : (n : ℕ) (ts : List Timer) → Alike (reopened n ts)
unfolding Alike reopened
reopened-Alike n ts e ev = either_breaks _ e _ ev (same_kind e true e.armed ev)

disarm-Alike : (to : Target) → Alike (disarm to)
unfolding Alike disarm
disarm-Alike tcp_server e ev = refl
disarm-Alike command_pipe e ev = refl
disarm-Alike (endpoint n) e ev = either_breaks _ e _ ev (same_kind e e.valid false ev)
disarm-Alike (timer n) e ev = refl

shut_each-Steady :
    (xs : List (ℕ × ℕ)) (ev : Event) (l : Poller)
    → Steady ev l.endpoints
    → Steady ev (shut_each xs l).endpoints
unfolding shut_each
shut_each-Steady [] ev l a = a
shut_each-Steady ((n, number) ∷ xs) ev l a =
    shut_each-Steady xs ev _ (Steady-map (shut_down n) ev l.endpoints (shut_down-Alike n) a)

expired-Steady :
    (n : ℕ) (r : Reply) (ev : Event) (l : Poller)
    → Steady ev l.endpoints
    → Steady ev (expired n r l).endpoints
unfolding expired handled
expired-Steady n r ev l a = elim (Bool-cases (runs n l.timers)) [
  | inr idle ↦ simp idle a
  | inl running ↦ elim (Bool-cases r.answer) [
    | inl more ↦ simp (running, more) (shut_each-Steady r.shut ev l a)
    | inr over ↦
        simp (running, over)
          (Steady-map _ ev _ (reopened-Alike n _) (shut_each-Steady r.shut ev l a))
  ]
]

read_from-Steady :
    (from : Target) (r : Reply) (ev : Event) (l : Poller)
    → Steady ev l.endpoints
    → Steady ev (read_from from r l).endpoints
unfolding read_from handled
read_from-Steady (timer n) r ev l a = expired-Steady n r ev l a
read_from-Steady tcp_server r ev l a = shut_each-Steady r.shut ev l a
read_from-Steady command_pipe r ev l a = shut_each-Steady r.shut ev l a
read_from-Steady (endpoint n) r ev l a = shut_each-Steady r.shut ev l a

pub writable_event-Steady :
    (ev : Event) (r : Reply) (l : Poller)
    → Steady ev l.endpoints
    → Steady ev (writable_event ev r l).endpoints
unfolding writable_event
writable_event-Steady ev r l a = elim (Bool-cases (ev.writable && not r.pending)) [
  | inr idle ↦ simp idle a
  | inl due ↦ simp due (Steady-map _ ev l.endpoints (disarm-Alike ev.target) a)
]

pub readable_event-Steady :
    (ev : Event) (r : Reply) (l : Poller)
    → Steady ev l.endpoints
    → Steady ev (readable_event ev r l).endpoints
unfolding readable_event
readable_event-Steady ev r l a = elim (Bool-cases ev.readable) [
  | inr idle ↦ simp idle a
  | inl due ↦ simp due (read_from-Steady ev.target r ev l a)
]

right_half : (a b : Bool) → a ≡ true → a && b ≡ false → b ≡ false
right_half true b f s = s
right_half false b f s = cc

-- An error changes an endpoint that would not reconnect, and this one keeps its timers.
pub holds-fail :
    (ev : Event) (o : ℕ) (lasting : Bool) (e : Pollable)
    → ev.failed ≡ true
    → breaks ev e ≡ false
    → holds o lasting e ≡ true
    → holds o lasting (fail ev.target e) ≡ true
unfolding breaks holds fail set_invalid is_tcp_target
holds-fail ev o lasting e f s h = go ev.target (right_half ev.failed _ f s)
  where
    go :
        (to : Target)
        → is_tcp_target to (e ∷ []) && e.reconnects ≡ false
        → holds o lasting (fail to e) ≡ true
    go tcp_server s = h
    go command_pipe s = h
    go (endpoint n) s = ground (arith, s, h)
    go (timer n) s = h
