-- ===== src/Events/Steps.antt =====
-- src/mainloop.cpp, `Mainloop::loop`: handling an event leaves each timer its owner.
use mavlink_router.Prelude.{
  ℕ, ◌≡◌, refl, Bool, true, false, ◌&&◌, ◌||◌, not, Option, none, some, List, [], ◌∷◌, ◌++◌, map,
  inl, inr, Bool-cases, All, any, All-mono, any-append_right,
}
use mavlink_router.Events.{
  Pollable, Timer, Poller, Change, added, removed, Event, Reply, Target, tcp_server, command_pipe,
  endpoint, timer, handled, handle_tcp_connection, command_each, reopened, expired, runs, read_from,
  readable_event, dispatch, writable_event, del_timeout, is_tcp_target, fail, failed_event,
  handle_event,
}
use mavlink_router.Events.Owners.{
  holds, owned, Timers, Owned, Timers-map, Timers-append, Timers-append_right, Timers-both,
  Timers-del_timeout, handled-Owned, Holding-disarm, Holding-reopened,
}
use mavlink_router.Events.Exists.{IsAdded}
use mavlink_router.Events.Steady.{Steady, readable_event-Steady, writable_event-Steady, holds-fail}

-- New timers work on the endpoint they come with.
unfoldable pub Comes : Change → Type 0
Comes (added e ts) = Timers (e ∷ []) ts
Comes (removed n) = Unit

unfoldable pub Accepts : Option (Pollable × Timer) → Type 0
Accepts none = Unit
Accepts (some a) = Timers (a.0 ∷ []) (a.1 ∷ [])

-- No command removes an endpoint, and no error is reported for a connection that would reconnect.
unfoldable pub Calm : Event × Reply → Poller → Type 0
Calm (ev, r) l =
    All IsAdded r.commands × All Comes r.commands × Accepts r.accepted × Steady ev l.endpoints

expired-Owned : (n : ℕ) (r : Reply) (l : Poller) → Owned l → Owned (expired n r l)
unfolding expired Timers Owned
expired-Owned n r l a = elim (Bool-cases (runs n l.timers)) [
  | inr idle ↦ simp idle a
  | inl running ↦ elim (Bool-cases r.answer) [
    | inl more ↦ simp (running, more) (handled-Owned r l a)
    | inr over ↦ simp (running, over) (closed (handled r l) (handled-Owned r l a))
  ]
]
  where
    closed :
        (h : Poller)
        → Owned h
        → Owned (record h {
          endpoints = map (reopened n h.timers) h.endpoints;
          timers = map (del_timeout n) h.timers;
        })
    closed h a =
        Timers-del_timeout n _ _ (Timers-map _ h.endpoints h.timers (Holding-reopened n h.timers) a)

read_from-Owned : (from : Target) (r : Reply) (l : Poller) → Owned l → Owned (read_from from r l)
unfolding read_from Owned
read_from-Owned (timer n) r l a = expired-Owned n r l a
read_from-Owned tcp_server r l a = handled-Owned r l a
read_from-Owned command_pipe r l a = handled-Owned r l a
read_from-Owned (endpoint n) r l a = handled-Owned r l a

readable_event-Owned :
    (ev : Event) (r : Reply) (l : Poller) → Owned l → Owned (readable_event ev r l)
unfolding readable_event
readable_event-Owned ev r l a = elim (Bool-cases ev.readable) [
  | inr idle ↦ simp idle a
  | inl due ↦ simp due (read_from-Owned ev.target r l a)
]

writable_event-Owned :
    (ev : Event) (r : Reply) (l : Poller) → Owned l → Owned (writable_event ev r l)
unfolding writable_event Owned
writable_event-Owned ev r l a = elim (Bool-cases (ev.writable && not r.pending)) [
  | inr idle ↦ simp idle a
  | inl due ↦ simp due (Timers-map _ l.endpoints l.timers (Holding-disarm ev.target) a)
]

-- A change of some of the endpoints.
maps_some :
    (p : Pollable → Bool) (f : Pollable → Pollable) (Q : Pollable → Type 0)
    → ((e : Pollable) → Q e → p e ≡ true → p (f e) ≡ true)
    → (es : List Pollable) → All Q es
    → any p es ≡ true
    → any p (map f es) ≡ true
maps_some p f Q k [] a h = cc
maps_some p f Q k (e ∷ es) (q, a) h = elim (Bool-cases (p e)) [
  | inl found ↦ rw (k e q found) refl
  | inr skipped ↦
      let rest : any p es ≡ true = cc in
      any-append_right p (f e ∷ []) (map f es) (maps_some p f Q k es a rest)
]

owned-fail :
    (ev : Event) (es : List Pollable) (t : Timer)
    → ev.failed ≡ true
    → Steady ev es
    → owned es t ≡ true
    → owned (map (fail ev.target) es) t ≡ true
unfolding owned Steady
owned-fail ev es t f s h = go t.remove_me t.owner h
  where
    go :
        (gone : Bool) (owner : Option ℕ)
        → gone || (elim owner as (λ _. Bool) [ none ↦ true | some o ↦ any (holds o t.lasting) es ])
          ≡ true
        → gone || (elim owner as (λ _. Bool) [
          | none ↦ true
          | some o ↦ any (holds o t.lasting) (map (fail ev.target) es)
        ])
          ≡ true
    go true owner h = refl
    go false none h = refl
    go false (some o) h =
        maps_some (holds o t.lasting) (fail ev.target) _ (λ e. holds-fail ev o t.lasting e f) es s h

failed_event-Owned :
    (ev : Event) (l : Poller) → Steady ev l.endpoints → Owned l → Owned (failed_event ev l)
unfolding failed_event Owned Timers
failed_event-Owned ev l s a = elim (Bool-cases ev.failed) [
  | inr fine ↦ simp fine a
  | inl due ↦ elim (Bool-cases (is_tcp_target ev.target l.endpoints)) [
    | inl tcp ↦
        simp (due, tcp) (All-mono _ _ (λ t h. owned-fail ev l.endpoints t due s h) l.timers a)
    | inr other ↦ simp (due, other) a
  ]
]

command_each-Owned :
    (cs : List Change) (l : Poller)
    → All IsAdded cs
    → All Comes cs
    → Owned l
    → Owned (command_each cs l)
unfolding command_each IsAdded Comes Owned
command_each-Owned [] l a c h = h
command_each-Owned (added e ts ∷ cs) l (_, a) (c, more) h = command_each-Owned cs _ a more (
    Timers-both _ ts l.timers (Timers-append_right l.endpoints (e ∷ []) ts c)
      (Timers-append l.endpoints (e ∷ []) l.timers h))
command_each-Owned (removed n ∷ cs) l (never, a) c h = absurd never

handle_tcp_connection-Owned :
    (r : Reply) (l : Poller) → Accepts r.accepted → Owned l → Owned (handle_tcp_connection r l)
unfolding handle_tcp_connection Accepts Owned
handle_tcp_connection-Owned r l = go r.accepted
  where
    go :
        (o : Option (Pollable × Timer))
        → Accepts o
        → Owned l
        → Owned (elim o as (λ _. Poller) [
          | none ↦ l
          | some a ↦ record l { endpoints = l.endpoints ++ (a.0 ∷ []); timers = a.1 ∷ l.timers }
        ])
    go none c h = h
    go (some (e, t)) c h =
        Timers-both _ (t ∷ []) l.timers (Timers-append_right l.endpoints (e ∷ []) (t ∷ []) c)
          (Timers-append l.endpoints (e ∷ []) l.timers h)

pub handle_event-Owned :
    (e : Event × Reply) (l : Poller) → Calm e l → Owned l → Owned (handle_event e l)
unfolding handle_event dispatch Calm
handle_event-Owned (ev, r) l (adds, comes, accepts, steady) a = go ev.target
  where
    others : Owned (failed_event ev (writable_event ev r (readable_event ev r l)))
    others =
        failed_event-Owned ev _ (writable_event-Steady ev r _ (readable_event-Steady ev r l steady))
          (writable_event-Owned ev r _ (readable_event-Owned ev r l a))

    go : (from : Target) → Owned (dispatch from ev r l)
    go tcp_server = handle_tcp_connection-Owned r l accepts a
    go command_pipe = command_each-Owned r.commands l adds comes a
    go (endpoint n) = others
    go (timer n) = others
