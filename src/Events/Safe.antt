-- ===== src/Events/Safe.antt =====
-- src/mainloop.cpp, `Mainloop::loop`: the loop works only on objects that exist.
use mavlink_router.Prelude.{
  ℕ, ◌≡◌, refl, Bool, true, false, ◌&&◌, ◌||◌, not, Option, none, some, List, [], ◌∷◌, inl, inr,
  Bool-cases, ◌==◌, if◌then◌else◌, All, any, arith, All-mono, any-append_right,
}
use mavlink_router.Events.{
  Pollable, Timer, Poller, Event, Reply, Target, tcp_server, command_pipe, endpoint, timer,
  has_endpoint, handle_event, handle_each, finish_batch, loop, Wait, interrupted, events,
}
use mavlink_router.Events.Owners.{holds, owned, Timers, Owned}
use mavlink_router.Events.Exists.{exists_target, Keeps, handle_event-Keeps}
use mavlink_router.Events.Steps.{Calm, handle_event-Owned}
use mavlink_router.Events.Hangups.{finish_batch-Owned}

-- The endpoint that the callback of the timer `n` works on, if it runs and works on one.
unfoldable pub callback_uses : ℕ → List Timer → List Target
callback_uses n [] = []
callback_uses n (t ∷ ts) =
    let rest = callback_uses n ts in
    if (t.number == n) && not t.remove_me
    then (elim t.owner [ none ↦ rest | some o ↦ endpoint o ∷ rest ])
    else rest

-- The objects that the loop works on for an event.
unfoldable pub uses : Target → Poller → List Target
uses (timer n) l = timer n ∷ callback_uses n l.timers
uses to l = to ∷ []

-- Whether each object exists that the loop works on, when it works on it: in a batch of events, and for
-- all that `epoll_wait` reports.
unfoldable pub all_exist : List Target → Poller → Bool
all_exist [] l = true
all_exist (to ∷ more) l = exists_target to l && all_exist more l

unfoldable pub each_exists : List (Event × Reply) → Poller → Bool
each_exists [] l = true
each_exists (e ∷ es) l = all_exist (uses e.0.target l) l && each_exists es (handle_event e l)

unfoldable pub never_dangles : List Wait → Poller → Bool
never_dangles [] l = true
never_dangles (interrupted ∷ more) l = if l.should_exit then true else never_dangles more l
never_dangles (events es ∷ more) l =
    let rest = never_dangles more (finish_batch (handle_each es l)) in
    if l.should_exit then true else each_exists es l && rest

-- The events of a batch are calm, each when the loop comes to it.
unfoldable pub CalmEach : List (Event × Reply) → Poller → Type 0
CalmEach [] l = Unit
CalmEach (e ∷ es) l = Calm e l × CalmEach es (handle_event e l)

-- What is supposed of the reports: `epoll_wait` reports objects that exist when it returns, and the batch
-- is calm.
unfoldable pub Orderly : List Wait → Poller → Type 0
Orderly [] l = Unit
Orderly (interrupted ∷ more) l = Orderly more l
Orderly (events es ∷ more) l =
    All (λ e. exists_target e.0.target l ≡ true) es
    × CalmEach es l
    × Orderly more (finish_batch (handle_each es l))

any-weaker :
    (p q : Pollable → Bool)
    → ((e : Pollable) → p e ≡ true → q e ≡ true)
    → (es : List Pollable) → any p es ≡ true
    → any q es ≡ true
any-weaker p q k [] h = cc
any-weaker p q k (e ∷ es) h = elim (Bool-cases (p e)) [
  | inl found ↦ rw (k e found) refl
  | inr skipped ↦
      let rest : any p es ≡ true = cc in any-append_right q (e ∷ []) es (any-weaker p q k es rest)
]

holds-has_endpoint :
    (o : ℕ) (lasting : Bool) (es : List Pollable)
    → any (holds o lasting) es ≡ true
    → has_endpoint o es ≡ true
unfolding has_endpoint holds
holds-has_endpoint o lasting es h =
    any-weaker (holds o lasting) (λ e. e.number == o) (λ e k. ground (arith, k)) es h

callback_uses-exist :
    (n : ℕ) (l : Poller) (ts : List Timer)
    → Timers l.endpoints ts
    → all_exist (callback_uses n ts) l ≡ true
unfolding callback_uses all_exist Timers owned exists_target
callback_uses-exist n l [] a = refl
callback_uses-exist n l (t ∷ ts) (h, a) =
    go (t.number == n) t.remove_me t.owner h (callback_uses-exist n l ts a)
  where
    go :
        (b gone : Bool) (owner : Option ℕ)
        → gone || (elim owner as (λ _. Bool) [
          | none ↦ true
          | some o ↦ any (holds o t.lasting) l.endpoints
        ])
          ≡ true
        → all_exist (callback_uses n ts) l ≡ true
        → all_exist
            (if b && not gone
              then (elim owner as (λ _. List Target) [
                | none ↦ callback_uses n ts
                | some o ↦ endpoint o ∷ callback_uses n ts
              ])
              else callback_uses n ts)
            l
          ≡ true
    go false gone owner h rest = rest
    go true true owner h rest = rest
    go true false none h rest = rest
    go true false (some o) h rest = rw (holds-has_endpoint o t.lasting l.endpoints h) rest

-- Each object that the loop works on for an event exists, if the one that is reported does.
uses-exist :
    (to : Target) (l : Poller)
    → Owned l
    → exists_target to l ≡ true
    → all_exist (uses to l) l ≡ true
unfolding uses all_exist Owned exists_target
uses-exist tcp_server l a h = refl
uses-exist command_pipe l a h = refl
uses-exist (endpoint n) l a h = rw h refl
uses-exist (timer n) l a h = rw h (callback_uses-exist n l l.timers a)

handle_each-Owned :
    (es : List (Event × Reply)) (l : Poller) → CalmEach es l → Owned l → Owned (handle_each es l)
unfolding handle_each CalmEach
handle_each-Owned [] l c a = a
handle_each-Owned (e ∷ es) l (c, more) a = handle_each-Owned es _ more (handle_event-Owned e l c a)

each_exists_lem :
    (es : List (Event × Reply)) (l : Poller)
    → All (λ e. exists_target e.0.target l ≡ true) es
    → CalmEach es l
    → Owned l
    → each_exists es l ≡ true
unfolding each_exists CalmEach Calm Keeps
each_exists_lem [] l h c a = refl
each_exists_lem (e ∷ es) l (h, hs) (c, more) a =
    let still = All-mono _ _ (λ x k. handle_event-Keeps e.0 e.1 l c.0 x.0.target k) es hs in
    rw (uses-exist e.0.target l a h)
      (each_exists_lem es (handle_event e l) still more (handle_event-Owned e l c a))

-- The loop never works on an object that is gone: neither an event nor the callback of a timer meets an
-- endpoint or a timer that was freed, whatever the batches are, if each batch reports objects that
-- exist when it begins, no command removes an endpoint, and no error is reported for a TCP connection
-- that would reconnect. For the loop removes connections and timers at the end of a batch only, and the
-- destructors delete the timers that work on what they destroy. After the loop, every timer that is not
-- deleted still has its endpoint, as it must have had before; a new endpoint comes with timers of its
-- own only.
pub loop_never_dangles :
    (ws : List Wait) (l : Poller)
    → Owned l
    → Orderly ws l
    → (never_dangles ws l ≡ true) × Owned (loop ws l)
unfolding never_dangles Orderly loop
loop_never_dangles [] l a o = (refl, a)
loop_never_dangles (interrupted ∷ more) l a o = elim (Bool-cases l.should_exit) [
  | inl over ↦ simp over (refl, a)
  | inr on ↦ simp on (loop_never_dangles more l a o)
]
loop_never_dangles (events es ∷ more) l a (h, c, o) = elim (Bool-cases l.should_exit) [
  | inl over ↦ simp over (refl, a)
  | inr on ↦
      simp (on, each_exists_lem es l h c a)
        (loop_never_dangles more _ (finish_batch-Owned _ (handle_each-Owned es l c a)) o)
]
