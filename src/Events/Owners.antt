-- ===== src/Events/Owners.antt =====
-- src/mainloop.cpp, `Mainloop::loop`: the endpoints that the callbacks of the timers work on.
use mavlink_router.Prelude.{
  ℕ, ◌≡◌, refl, Bool, true, false, ◌&&◌, ◌||◌, not, Option, none, some, List, [], ◌∷◌, ◌++◌, map,
  inl, inr, Bool-cases, ◌==◌, if◌then◌else◌, All, any, arith, any-map, any-append_left,
  any-append_right, All-append, All-map, All-mono,
}
use mavlink_router.Events.{
  Pollable, Timer, Poller, Reply, Target, tcp_server, command_pipe, endpoint, timer, shut_down,
  retry_timers, shut_each, del_timeout, del_each, new_each, handled, destroyed, reopened, disarm,
}

-- Whether the endpoint `e` may own a timer of `o`: one that its destructor would not delete only if the
-- loop does not remove `e`.
unfoldable pub holds : ℕ → Bool → Pollable → Bool
holds o lasting e =
    if e.number == o then not lasting || (e.valid && (not e.is_tcp || e.reconnects)) else false

-- A timer that is not deleted works on an endpoint that exists, if on any.
unfoldable pub owned : List Pollable → Timer → Bool
owned es t = t.remove_me || (elim t.owner [ none ↦ true | some o ↦ any (holds o t.lasting) es ])

-- A change of the endpoints that lets each keep its timers.
unfoldable pub Holding : (Pollable → Pollable) → Type 0
Holding f =
    (o : ℕ) (lasting : Bool) (e : Pollable)
    → holds o lasting e ≡ true
    → holds o lasting (f e) ≡ true

pub owned-map :
    (f : Pollable → Pollable) (es : List Pollable) (t : Timer)
    → Holding f
    → owned es t ≡ true
    → owned (map f es) t ≡ true
unfolding owned Holding
owned-map f es t k h = go t.remove_me t.owner h
  where
    go :
        (gone : Bool) (owner : Option ℕ)
        → gone || (elim owner as (λ _. Bool) [ none ↦ true | some o ↦ any (holds o t.lasting) es ])
          ≡ true
        → gone || (elim owner as (λ _. Bool) [
          | none ↦ true
          | some o ↦ any (holds o t.lasting) (map f es)
        ])
          ≡ true
    go true owner h = refl
    go false none h = refl
    go false (some o) h = any-map (holds o t.lasting) (holds o t.lasting) f (k o t.lasting) es h

pub owned-append :
    (es more : List Pollable) (t : Timer) → owned es t ≡ true → owned (es ++ more) t ≡ true
unfolding owned
owned-append es more t h = go t.remove_me t.owner h
  where
    go :
        (gone : Bool) (owner : Option ℕ)
        → gone || (elim owner as (λ _. Bool) [ none ↦ true | some o ↦ any (holds o t.lasting) es ])
          ≡ true
        → gone || (elim owner as (λ _. Bool) [
          | none ↦ true
          | some o ↦ any (holds o t.lasting) (es ++ more)
        ])
          ≡ true
    go true owner h = refl
    go false none h = refl
    go false (some o) h = any-append_left (holds o t.lasting) es more h

pub owned-append_right :
    (es more : List Pollable) (t : Timer) → owned more t ≡ true → owned (es ++ more) t ≡ true
unfolding owned
owned-append_right es more t h = go t.remove_me t.owner h
  where
    go :
        (gone : Bool) (owner : Option ℕ)
        → gone
            || (elim owner as (λ _. Bool) [ none ↦ true | some o ↦ any (holds o t.lasting) more ])
          ≡ true
        → gone || (elim owner as (λ _. Bool) [
          | none ↦ true
          | some o ↦ any (holds o t.lasting) (es ++ more)
        ])
          ≡ true
    go true owner h = refl
    go false none h = refl
    go false (some o) h = any-append_right (holds o t.lasting) es more h

pub Holding-shut_down : (n : ℕ) → Holding (shut_down n)
unfolding Holding holds shut_down
Holding-shut_down n o lasting e h = ground (arith, h)

pub Holding-disarm : (to : Target) → Holding (disarm to)
unfolding Holding holds disarm
Holding-disarm tcp_server o lasting e h = h
Holding-disarm command_pipe o lasting e h = h
Holding-disarm (endpoint n) o lasting e h = ground (arith, h)
Holding-disarm (timer n) o lasting e h = h

pub Holding-reopened : (n : ℕ) (ts : List Timer) → Holding (reopened n ts)
unfolding Holding holds reopened
Holding-reopened n ts o lasting e h = ground (arith, h)

-- A timer that is deleted needs no owner.
owned-gone : (es : List Pollable) (t : Timer) → t.remove_me ≡ true → owned es t ≡ true
unfolding owned
owned-gone es t h = rw h refl

either_way :
    (es : List Pollable) (b : Bool) (t : Timer)
    → owned es t ≡ true
    → owned es (if b then record t { remove_me = true } else t) ≡ true
either_way es true t h = owned-gone es (record t { remove_me = true }) refl
either_way es false t h = h

pub owned-del_timeout :
    (n : ℕ) (es : List Pollable) (t : Timer) → owned es t ≡ true → owned es (del_timeout n t) ≡ true
unfolding del_timeout
owned-del_timeout n es t h = either_way es (t.number == n) t h

pub owned-destroyed :
    (n : ℕ) (es : List Pollable) (t : Timer) → owned es t ≡ true → owned es (destroyed n t) ≡ true
unfolding destroyed
owned-destroyed n es t h = either_way es _ t h

-- All timers of `ts` are owned.
unfoldable pub Timers : List Pollable → List Timer → Type 0
Timers es ts = All (λ t. owned es t ≡ true) ts

-- Every timer that is not deleted works on an endpoint that the loop has, if on any.
unfoldable pub Owned : Poller → Type 0
Owned l = Timers l.endpoints l.timers

pub Timers-map :
    (f : Pollable → Pollable) (es : List Pollable) (ts : List Timer)
    → Holding f
    → Timers es ts
    → Timers (map f es) ts
unfolding Timers
Timers-map f es ts k a = All-mono _ _ (λ t h. owned-map f es t k h) ts a

pub Timers-append :
    (es more : List Pollable) (ts : List Timer) → Timers es ts → Timers (es ++ more) ts
unfolding Timers
Timers-append es more ts a = All-mono _ _ (λ t h. owned-append es more t h) ts a

pub Timers-append_right :
    (es more : List Pollable) (ts : List Timer) → Timers more ts → Timers (es ++ more) ts
unfolding Timers
Timers-append_right es more ts a = All-mono _ _ (λ t h. owned-append_right es more t h) ts a

pub Timers-both :
    (es : List Pollable) (ts us : List Timer) → Timers es ts → Timers es us → Timers es (ts ++ us)
unfolding Timers
Timers-both es ts us a b = All-append _ ts us a b

pub Timers-del_timeout :
    (n : ℕ) (es : List Pollable) (ts : List Timer)
    → Timers es ts
    → Timers es (map (del_timeout n) ts)
unfolding Timers
Timers-del_timeout n es ts a = All-map _ _ (del_timeout n) (owned-del_timeout n es) ts a

shut_holds :
    (n : ℕ) (e : Pollable)
    → (e.number == n) && (e.is_tcp && e.reconnects) ≡ true
    → holds n true (shut_down n e) ≡ true
unfolding holds shut_down
shut_holds n e h = ground (arith, h)

-- A connection that was shut down, and its timer.
retry_timers-shut_down :
    (n number : ℕ) (es : List Pollable) → Timers (map (shut_down n) es) (retry_timers n number es)
unfolding Timers retry_timers owned
retry_timers-shut_down n number [] = tt
retry_timers-shut_down n number (e ∷ es) =
    elim (Bool-cases ((e.number == n) && (e.is_tcp && e.reconnects))) [
      | inl h ↦ rw h (first h, tt)
      | inr h ↦ rw h (
          Timers-append_right (shut_down n e ∷ []) (map (shut_down n) es) _
            (retry_timers-shut_down n number es))
    ]
  where
    first :
        (e.number == n) && (e.is_tcp && e.reconnects) ≡ true
        → owned
            (map (shut_down n) (e ∷ es))
            (record { number = number; owner = some n; lasting = true; remove_me = false })
          ≡ true
    first h = rw (shut_holds n e h) refl

shut_each-Owned : (xs : List (ℕ × ℕ)) (l : Poller) → Owned l → Owned (shut_each xs l)
unfolding shut_each Owned
shut_each-Owned [] l a = a
shut_each-Owned ((n, number) ∷ xs) l a = shut_each-Owned xs _ (
    joined (retry_timers-shut_down n number l.endpoints)
      (Timers-map (shut_down n) l.endpoints l.timers (Holding-shut_down n) a))
  where
    joined :
        Timers (map (shut_down n) l.endpoints) (retry_timers n number l.endpoints)
        → Timers (map (shut_down n) l.endpoints) l.timers
        → Timers (map (shut_down n) l.endpoints) (retry_timers n number l.endpoints ++ l.timers)
    joined a b = Timers-both _ (retry_timers n number l.endpoints) l.timers a b

del_each-Timers :
    (ns : List ℕ) (es : List Pollable) (ts : List Timer) → Timers es ts → Timers es (del_each ns ts)
unfolding del_each
del_each-Timers [] es ts a = a
del_each-Timers (n ∷ ns) es ts a = del_each-Timers ns es _ (Timers-del_timeout n es ts a)

new_each-Timers :
    (ns : List ℕ) (es : List Pollable) (ts : List Timer) → Timers es ts → Timers es (new_each ns ts)
unfolding new_each Timers owned
new_each-Timers [] es ts a = a
new_each-Timers (n ∷ ns) es ts a = new_each-Timers ns es _ (refl, a)

pub handled-Owned : (r : Reply) (l : Poller) → Owned l → Owned (handled r l)
unfolding handled Owned
handled-Owned r l a =
    new_each-Timers r.new_timers _ _ (del_each-Timers r.deleted _ _ (shut_each-Owned r.shut l a))
