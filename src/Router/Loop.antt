-- ===== src/Router/Loop.antt =====
-- src/mainloop.cpp, `Mainloop::route_msg`: what becomes of each endpoint and of the message.
use mavlink_router.Prelude.{
  ℕ, ◌+◌, ◌%◌, ◌^◌, ◌≡◌, refl, sym, ◌∙◌, ◌⊎◌, inl, inr, ◌↔◌, Bool, true, false, ◌||◌, List, [], ◌∷◌,
  ◌++◌, arith, if◌then◌else◌, append-nil, append_assoc, Bool-cases,
}
use mavlink_router.Os.{is_epipe}
use mavlink_router.Message.{Msg}
use mavlink_router.Throttle.{RateOps, is_throttling_enabled, update_throttle_info}
use mavlink_router.Accept.{AcceptState, accepted, filtered, rejected, throttled, cached}
use mavlink_router.Cache.{cache_msg}
use mavlink_router.Router.{
  Endpoint, Routing, Mainloop, Answers, accept, write_msg, route_turn, route_each, route_msg,
}

or_cases : (a b : Bool) {P : Type 0} → P → (a || b) ≡ true → (a ≡ true) ⊎ (P × (b ≡ true))
or_cases true b p h = inl refl
or_cases false b p h = inr (p, h)

either_turn : {P Q R S T : Type 0} → P ↔ (Q ⊎ R) → Q ↔ (S ⊎ T) → P ↔ (S ⊎ (T ⊎ R))
either_turn {P} {Q} {R} {S} {T} (f, g) (h, k) = (there, back)
  where
    after : Q ⊎ R → S ⊎ (T ⊎ R)
    after (inl q) = elim (h q) [ inl s ↦ inl s | inr t ↦ inr (inl t) ]
    after (inr r) = inr (inr r)

    there : P → S ⊎ (T ⊎ R)
    there p = after (f p)

    back : S ⊎ (T ⊎ R) → P
    back (inl s) = g (inl (k (inl s)))
    back (inr (inl t)) = g (inl (k (inr t)))
    back (inr (inr r)) = g (inr r)

module _ {Rate : Type 0} (ops : RateOps Rate) (sniffer : ℕ) (m : Msg) where
  -- What a message does to an endpoint, by what `accept_msg` says of it.
  pub data Treats (a : Answers) (e e' : Endpoint Rate) : Type 0 where
    -- It is written once, and the throttling moves on.
    sends :
        accept ops sniffer a.accept_time e m ≡ accepted
        → (let w = (write_msg ops a m e).1 in
            e' ≡ (
              if is_throttling_enabled m.msg_id w.throttle
              then record w {
                throttle = update_throttle_info ops a.update_time m.msg_id w.throttle;
              }
              else w))
        → Treats a e e'
    holds :
        accept ops sniffer a.accept_time e m ≡ cached
        → e' ≡ record e { cached = cache_msg m e.cached }
        → Treats a e e'
    discards :
        (accept ops sniffer a.accept_time e m ≡ filtered)
          ⊎ (accept ops sniffer a.accept_time e m ≡ throttled)
        → e' ≡ e
        → Treats a e e'
    passes_by : accept ops sniffer a.accept_time e m ≡ rejected → e' ≡ e → Treats a e e'

  module _ (world : ℕ → Answers) where
    -- The endpoints from a place on are treated each on its own, with what the system answers there.
    abbrev pub TreatsEach : ℕ → List (Endpoint Rate) → List (Endpoint Rate) → Type 0
    TreatsEach place [] [] = Unit
    TreatsEach place [] (e' ∷ es') = ⊥
    TreatsEach place (e ∷ es) [] = ⊥
    TreatsEach place (e ∷ es) (e' ∷ es') = Treats (world place) e e' × TreatsEach (place + 1) es es'

    -- All endpoints from a place on reject the message.
    abbrev pub RejectEach : ℕ → List (Endpoint Rate) → Type 0
    RejectEach place [] = Unit
    RejectEach place (e ∷ es) =
        (accept ops sniffer (world place).accept_time e m ≡ rejected) × RejectEach (place + 1) es

    -- Some endpoint from a place on gets the message, and its write finds the peer gone.
    abbrev pub BreaksSome : ℕ → List (Endpoint Rate) → Type 0
    BreaksSome place [] = ⊥
    BreaksSome place (e ∷ es) =
        ((accept ops sniffer (world place).accept_time e m ≡ accepted)
          × (is_epipe (write_msg ops (world place) m e).0 ≡ true))
        ⊎ BreaksSome (place + 1) es

    -- What one turn does.
    record Turned (a : Answers) (e : Endpoint Rate) (r : Routing) (out : Endpoint Rate × Routing)
        : Type 0 where
      treats : Treats a e out.0
      unknown :
          (out.1.unknown ≡ true)
          ↔ ((r.unknown ≡ true) × (accept ops sniffer a.accept_time e m ≡ rejected))
      hangups : (out.1.hangups ≡ true) ↔ (
          (r.hangups ≡ true)
          ⊎ ((accept ops sniffer a.accept_time e m ≡ accepted)
              × (is_epipe (write_msg ops a m e).0 ≡ true)))

    route_turn-Turned :
        (a : Answers) (before : List (Endpoint Rate)) (e : Endpoint Rate)
        (behind : List (Endpoint Rate)) (r : Routing)
        → Turned a e r (route_turn ops sniffer a m before e behind r)
    unfolding route_turn
    route_turn-Turned a before e behind r = go (accept ops sniffer a.accept_time e m) refl
      where
        go :
            (s : AcceptState)
            → accept ops sniffer a.accept_time e m ≡ s
            → Turned a e r (route_turn ops sniffer a m before e behind r)
        go accepted h =
            rw (route_turn, h)
              (record {
                treats = sends h refl;
                unknown = (λ e. cc, λ p. ground (arith, h, p));
                hangups = (or_cases r.hangups _ h, λ p. ground (arith, p));
              })
        go filtered h =
            rw (route_turn, h)
              (record {
                treats = discards (inl h) refl;
                unknown = (λ e. cc, λ p. ground (arith, h, p));
                hangups = (inl, λ p. ground (arith, p, h));
              })
        go rejected h =
            rw (route_turn, h)
              (record {
                treats = passes_by h refl;
                unknown = (λ e. (e, h), λ p. p.0);
                hangups = (inl, λ p. ground (arith, p, h));
              })
        go throttled h =
            rw (route_turn, h)
              (record {
                treats = discards (inr h) refl;
                unknown = (λ e. cc, λ p. ground (arith, h, p));
                hangups = (inl, λ p. ground (arith, p, h));
              })
        go cached h =
            rw (route_turn, h)
              (record {
                treats = holds h refl;
                unknown = (λ e. cc, λ p. ground (arith, h, p));
                hangups = (inl, λ p. ground (arith, p, h));
              })

    -- What the loop does from a place on, with what it has done so far in front.
    record Looped (place : ℕ) (before es : List (Endpoint Rate)) (r : Routing)
        (out : List (Endpoint Rate) × Routing) : Type 0 where
      tail : List (Endpoint Rate)
      joined : out.0 ≡ before ++ tail
      treats : TreatsEach place es tail
      unknown : (out.1.unknown ≡ true) ↔ ((r.unknown ≡ true) × RejectEach place es)
      hangups : (out.1.hangups ≡ true) ↔ ((r.hangups ≡ true) ⊎ BreaksSome place es)

    route_each-Looped :
        (place : ℕ) (before es : List (Endpoint Rate)) (r : Routing)
        → Looped place before es r (route_each ops sniffer world m place before es r)
    unfolding route_each
    route_each-Looped place before [] r = record {
      tail = [];
      joined = sym (append-nil before);
      treats = tt;
      unknown = (λ e. (e, tt), λ p. p.0);
      hangups = (inl, λ p. elim p [ inl e ↦ e | inr n ↦ absurd n ]);
    }
    route_each-Looped place before (e ∷ es) r =
        let turn = route_turn ops sniffer (world place) m before e es r in
        let first = route_turn-Turned (world place) before e es r in
        let rest = route_each-Looped (place + 1) (before ++ (turn.0 ∷ [])) es turn.1 in
        record {
          tail = turn.0 ∷ rest.tail;
          joined = rest.joined ∙ append_assoc before (turn.0 ∷ []) rest.tail;
          treats = (first.treats, rest.treats);
          unknown = (
            λ u.
                let (v, rejects) = rest.unknown.0 u in
                let (w, reject) = first.unknown.0 v in (w, (reject, rejects)),
            λ p. rest.unknown.1 (first.unknown.1 (p.0, p.1.0), p.1.1),
          );
          hangups = either_turn rest.hangups first.hangups;
        }

    -- `route_msg` treats each endpoint once and by its own `accept_msg`, whatever becomes of the others:
    -- it writes the message and moves the throttling on, or caches it, or leaves the endpoint as it is.
    -- The message counts as one to an unknown target exactly if all endpoints reject it. A check for hung
    -- up TCP connections is asked for exactly if one was asked for before or a write returns -EPIPE.
    pub route_msg_lem :
        (l : Mainloop Rate)
        → let l' = route_msg ops sniffer world m l in
          TreatsEach 0 l.endpoints l'.endpoints
          × ((RejectEach 0 l.endpoints × (l'.msg_to_unknown ≡ (l.msg_to_unknown + 1) % 2 ^ 32))
              ⊎ ((¬ RejectEach 0 l.endpoints) × (l'.msg_to_unknown ≡ l.msg_to_unknown)))
          × ((l'.should_process_tcp_hangups ≡ true)
              ↔ ((l.should_process_tcp_hangups ≡ true) ⊎ BreaksSome 0 l.endpoints))
    unfolding route_msg
    route_msg_lem l =
        let start : Routing = record {
          unknown = true;
          hangups = l.should_process_tcp_hangups;
          resend = l.resend;
        } in
        let out = route_each ops sniffer world m 0 [] l.endpoints start in
        let looped = route_each-Looped 0 [] l.endpoints start in
        (
          rw looped.joined looped.treats,
          elim (Bool-cases out.1.unknown) [
            | inl e ↦ inl ((looped.unknown.0 e).1, rw e refl)
            | inr e ↦ inr (λ rejects. cc (looped.unknown.1 (refl, rejects), e), rw e refl)
          ],
          looped.hangups,
        )
