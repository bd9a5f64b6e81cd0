-- ===== src/Events/Exists.antt =====
-- src/mainloop.cpp, `Mainloop::loop`: the objects that exist, and that handling an event removes none.
use mavlink_router.Prelude.{
  ℕ, ◌≡◌, refl, Bool, true, false, ◌&&◌, not, Option, none, some, List, [], ◌∷◌, ◌++◌, map, inl,
  inr, Bool-cases, ◌==◌, if◌then◌else◌, All, any-map, any-append_left, any-append_right,
}
use mavlink_router.Events.{
  Pollable, Timer, Poller, Change, added, removed, Event, Reply, Target, tcp_server, command_pipe,
  endpoint, timer, has_endpoint, has_timer, set_invalid, shut_down, retry_timers, shut_each,
  del_timeout, del_each, new_each, handled, handle_tcp_connection, command_each, reopened, expired,
  runs, read_from, readable_event, dispatch, disarm, writable_event, is_tcp_target, fail,
  failed_event, handle_event,
}

-- Whether the object is there that a pointer of the poll set points to.
unfoldable pub exists_target : Target → Poller → Bool
exists_target tcp_server l = true
exists_target command_pipe l = true
exists_target (endpoint n) l = has_endpoint n l.endpoints
exists_target (timer n) l = has_timer n l.timers

-- No object is gone from `l` to `k`.
unfoldable pub Keeps : Poller → Poller → Type 0
Keeps l k = (to : Target) → exists_target to l ≡ true → exists_target to k ≡ true

-- The two lists may only grow.
Keeps-lists :
    (l k : Poller)
    → ((n : ℕ) → has_endpoint n l.endpoints ≡ true → has_endpoint n k.endpoints ≡ true)
    → ((n : ℕ) → has_timer n l.timers ≡ true → has_timer n k.timers ≡ true)
    → Keeps l k
unfolding Keeps exists_target
Keeps-lists l k a b tcp_server h = refl
Keeps-lists l k a b command_pipe h = refl
Keeps-lists l k a b (endpoint n) h = a n h
Keeps-lists l k a b (timer n) h = b n h

-- A change of an object keeps its number.
Numbered : (Pollable → Pollable) → Type 0
Numbered f = (e : Pollable) → (f e).number ≡ e.number

has_endpoint-map :
    (f : Pollable → Pollable) (n : ℕ) (es : List Pollable)
    → Numbered f
    → has_endpoint n es ≡ true
    → has_endpoint n (map f es) ≡ true
unfolding has_endpoint Numbered
has_endpoint-map f n es k h =
    any-map (λ e. e.number == n) (λ e. e.number == n) f (λ e h. rw (k e) h) es h

either_number :
    (b : Bool) (e e' : Pollable) → e'.number ≡ e.number → (if b then e' else e).number ≡ e.number
either_number true e e' h = h
either_number false e e' h = refl

shut_down-Numbered : (n : ℕ) → Numbered (shut_down n)
unfolding Numbered shut_down
shut_down-Numbered n e = either_number _ e (record e { valid = e.reconnects }) refl

disarm-Numbered : (to : Target) → Numbered (disarm to)
unfolding Numbered disarm
disarm-Numbered tcp_server e = refl
disarm-Numbered command_pipe e = refl
disarm-Numbered (endpoint n) e = either_number _ e (record e { armed = false }) refl
disarm-Numbered (timer n) e = refl

fail-Numbered : (to : Target) → Numbered (fail to)
unfolding Numbered fail set_invalid
fail-Numbered tcp_server e = refl
fail-Numbered command_pipe e = refl
fail-Numbered (endpoint n) e = either_number _ e (record e { valid = false }) refl
fail-Numbered (timer n) e = refl

reopened-Numbered : (n : ℕ) (ts : List Timer) → Numbered (reopened n ts)
unfolding Numbered reopened
reopened-Numbered n ts e = either_number _ e (record e { valid = true }) refl

has_timer-del_timeout :
    (m n : ℕ) (ts : List Timer)
    → has_timer n ts ≡ true
    → has_timer n (map (del_timeout m) ts) ≡ true
unfolding has_timer del_timeout
has_timer-del_timeout m n ts h =
    any-map (λ t. t.number == n) (λ t. t.number == n) (del_timeout m)
      (λ t h. go (t.number == m) t h) ts h
  where
    go :
        (b : Bool) (t : Timer)
        → t.number == n ≡ true
        → (if b then record t { remove_me = true } else t).number == n ≡ true
    go true t h = h
    go false t h = h

has_timer-del_each :
    (ms : List ℕ) (n : ℕ) (ts : List Timer)
    → has_timer n ts ≡ true
    → has_timer n (del_each ms ts) ≡ true
unfolding del_each
has_timer-del_each [] n ts h = h
has_timer-del_each (m ∷ ms) n ts h = has_timer-del_each ms n _ (has_timer-del_timeout m n ts h)

has_timer-new_each :
    (ms : List ℕ) (n : ℕ) (ts : List Timer)
    → has_timer n ts ≡ true
    → has_timer n (new_each ms ts) ≡ true
unfolding new_each has_timer
has_timer-new_each [] n ts h = h
has_timer-new_each (m ∷ ms) n ts h =
    let t : Timer = record { number = m; owner = none; lasting = false; remove_me = false } in
    has_timer-new_each ms n (t ∷ ts) (any-append_right (λ t. t.number == n) (t ∷ []) ts h)

shut_each-Keeps : (xs : List (ℕ × ℕ)) (l : Poller) → Keeps l (shut_each xs l)
unfolding shut_each Keeps has_timer
shut_each-Keeps [] l to h = h
shut_each-Keeps ((n, number) ∷ xs) l to h = shut_each-Keeps xs _ to (
    Keeps-lists l _ (λ m. has_endpoint-map (shut_down n) m l.endpoints (shut_down-Numbered n))
      (λ m. any-append_right (λ t. t.number == m) (retry_timers n number l.endpoints) l.timers) to
      h)

handled-Keeps : (r : Reply) (l : Poller) → Keeps l (handled r l)
unfolding handled Keeps
handled-Keeps r l to h =
    Keeps-lists (shut_each r.shut l) _ (λ m h. h)
      (λ m h. has_timer-new_each r.new_timers m _ (has_timer-del_each r.deleted m _ h)) to
      (shut_each-Keeps r.shut l to h)

expired-Keeps : (n : ℕ) (r : Reply) (l : Poller) → Keeps l (expired n r l)
unfolding expired Keeps
expired-Keeps n r l to h = elim (Bool-cases (runs n l.timers)) [
  | inr idle ↦ simp idle h
  | inl running ↦ elim (Bool-cases r.answer) [
    | inl more ↦ simp (running, more) (handled-Keeps r l to h)
    | inr over ↦
        simp (running, over)
          (Keeps-lists (handled r l) _ (λ m. has_endpoint-map _ m _ (reopened-Numbered n _))
            (λ m. has_timer-del_timeout n m _) to (handled-Keeps r l to h))
  ]
]

read_from-Keeps : (from : Target) (r : Reply) (l : Poller) → Keeps l (read_from from r l)
unfolding read_from Keeps
read_from-Keeps (timer n) r l to h = expired-Keeps n r l to h
read_from-Keeps tcp_server r l to h =
    Keeps-lists (handled r l) _ (λ m h. h) (λ m h. h) to (handled-Keeps r l to h)
read_from-Keeps command_pipe r l to h =
    Keeps-lists (handled r l) _ (λ m h. h) (λ m h. h) to (handled-Keeps r l to h)
read_from-Keeps (endpoint n) r l to h =
    Keeps-lists (handled r l) _ (λ m h. h) (λ m h. h) to (handled-Keeps r l to h)

readable_event-Keeps : (ev : Event) (r : Reply) (l : Poller) → Keeps l (readable_event ev r l)
unfolding readable_event Keeps
readable_event-Keeps ev r l = elim (Bool-cases ev.readable) [
  | inr idle ↦ simp idle (λ to h. h)
  | inl due ↦ simp due (read_from-Keeps ev.target r l)
]

writable_event-Keeps : (ev : Event) (r : Reply) (l : Poller) → Keeps l (writable_event ev r l)
unfolding writable_event Keeps
writable_event-Keeps ev r l = elim (Bool-cases (ev.writable && not r.pending)) [
  | inr idle ↦ simp idle (λ to h. h)
  | inl due ↦
      simp due
        (Keeps-lists l _ (λ m. has_endpoint-map _ m _ (disarm-Numbered ev.target)) (λ m h. h))
]

failed_event-Keeps : (ev : Event) (l : Poller) → Keeps l (failed_event ev l)
unfolding failed_event Keeps
failed_event-Keeps ev l = elim (Bool-cases ev.failed) [
  | inr fine ↦ simp fine (λ to h. h)
  | inl due ↦ elim (Bool-cases (is_tcp_target ev.target l.endpoints)) [
    | inl tcp ↦
        simp (due, tcp)
          (Keeps-lists l _ (λ m. has_endpoint-map _ m _ (fail-Numbered ev.target)) (λ m h. h))
    | inr other ↦ simp (due, other) (Keeps-lists l _ (λ m h. h) (λ m h. h))
  ]
]

handle_tcp_connection-Keeps : (r : Reply) (l : Poller) → Keeps l (handle_tcp_connection r l)
unfolding handle_tcp_connection Keeps has_endpoint has_timer
handle_tcp_connection-Keeps r l = go r.accepted
  where
    go :
        (o : Option (Pollable × Timer))
        → Keeps l (elim o as (λ _. Poller) [
          | none ↦ l
          | some a ↦ record l { endpoints = l.endpoints ++ (a.0 ∷ []); timers = a.1 ∷ l.timers }
        ])
    go none to h = h
    go (some (e, t)) to h =
        Keeps-lists l _ (λ m. any-append_left (λ e. e.number == m) l.endpoints (e ∷ []))
          (λ m. any-append_right (λ t. t.number == m) (t ∷ []) l.timers) to h

-- A command that removes no endpoint.
unfoldable pub IsAdded : Change → Type 0
IsAdded (added e ts) = Unit
IsAdded (removed n) = ⊥

command_each-Keeps : (cs : List Change) (l : Poller) → All IsAdded cs → Keeps l (command_each cs l)
unfolding command_each Keeps IsAdded has_endpoint has_timer
command_each-Keeps [] l a to h = h
command_each-Keeps (added e ts ∷ cs) l (_, a) to h = command_each-Keeps cs _ a to (
    Keeps-lists l _ (λ m. any-append_left (λ e. e.number == m) l.endpoints (e ∷ []))
      (λ m. any-append_right (λ t. t.number == m) ts l.timers) to h)
command_each-Keeps (removed n ∷ cs) l (never, a) to h = absurd never

pub handle_event-Keeps :
    (ev : Event) (r : Reply) (l : Poller)
    → All IsAdded r.commands
    → Keeps l (handle_event (ev, r) l)
unfolding handle_event dispatch Keeps
handle_event-Keeps ev r l a = go ev.target
  where
    others : Keeps l (failed_event ev (writable_event ev r (readable_event ev r l)))
    others to h =
        failed_event-Keeps ev _ to
          (writable_event-Keeps ev r _ to (readable_event-Keeps ev r l to h))

    go : (from : Target) → Keeps l (dispatch from ev r l)
    go tcp_server = handle_tcp_connection-Keeps r l
    go command_pipe = command_each-Keeps r.commands l a
    go (endpoint n) = others
    go (timer n) = others
