-- ===== src/Cache/Order.antt =====
-- src/endpoint.cpp, `Endpoint::resend_queued_msgs`: which cached messages go out, and in which order.
use mavlink_router.Prelude.{
  ℕ, ◌≡◌, refl, ap, ◌⊎◌, inl, inr, true, false, List, [], ◌∷◌, ◌++◌, Bool-cases,
}
use mavlink_router.Os.{count, is_enobufs, is_failure}
use mavlink_router.Message.{Msg}
use mavlink_router.Throttle.{RateOps, ThrottleMap, should_throttle_msg}
use mavlink_router.Cache.{Link, Resending, resend_queued_msgs}

module _ {S : Type 0} (link : Link S) where
  -- The link went from one state to another by writing these messages, in this order, each by a call of
  -- `write_msg` that left it open and did not fail; and by readings of the clock.
  pub data Writes : S → List Msg → S → Type 0 where
    done : {s : S} → Writes s [] s
    reads : {s t : S} {ms : List Msg} → Writes (link.read_clock s).1 ms t → Writes s ms t
    writes :
        {s t : S} {ms : List Msg} (m : Msg)
        → link.is_open (link.write_msg m s).1 ≡ true
        → is_failure (link.write_msg m s).0 ≡ false
        → Writes (link.write_msg m s).1 ms t
        → Writes s (m ∷ ms) t

  -- The same, and then at most one call of `write_msg` more, with the next message. If this closed the link
  -- or returned -ENOBUFS, the message is the first of those that are left; if it failed otherwise, the
  -- message is given up, and the clock is read.
  pub data Attempts : S → List Msg → List Msg → List Msg → S → Type 0 where
    settled : {s t : S} {ms left : List Msg} → Writes s ms t → Attempts s ms [] left t
    refused :
        {s t : S} {ms left : List Msg} (m : Msg)
        → Writes s ms t
        → (link.is_open (link.write_msg m t).1 ≡ false) ⊎ (is_enobufs (link.write_msg m t).0 ≡ true)
        → Attempts s ms [] (m ∷ left) (link.write_msg m t).1
    given_up :
        {s t : S} {ms left : List Msg} (m : Msg)
        → Writes s ms t
        → link.is_open (link.write_msg m t).1 ≡ true
        → is_enobufs (link.write_msg m t).0 ≡ false
        → is_failure (link.write_msg m t).0 ≡ true
        → Attempts s ms (m ∷ []) left (link.read_clock (link.write_msg m t).1).1

  Attempts-reads :
      {s t : S} {ms lost left : List Msg}
      → Attempts (link.read_clock s).1 ms lost left t
      → Attempts s ms lost left t
  Attempts-reads (settled w) = settled (reads w)
  Attempts-reads (refused m w why) = refused m (reads w) why
  Attempts-reads (given_up m w o n f) = given_up m (reads w) o n f

  Attempts-writes :
      {s t : S} {ms lost left : List Msg} (m : Msg)
      → link.is_open (link.write_msg m s).1 ≡ true
      → is_failure (link.write_msg m s).0 ≡ false
      → Attempts (link.write_msg m s).1 ms lost left t
      → Attempts s (m ∷ ms) lost left t
  Attempts-writes m still ok (settled w) = settled (writes m still ok w)
  Attempts-writes m still ok (refused n w why) = refused n (writes m still ok w) why
  Attempts-writes m still ok (given_up n w o e f) = given_up n (writes m still ok w) o e f

  module _ {Rate : Type 0} (ops : RateOps Rate) where
    -- Why `resend_queued_msgs` returns: nothing is left; the clock says that the next message is not due;
    -- or the last write closed the link, was refused for want of room, or failed.
    pub data Stops (id : ℕ) (r : Resending Rate S) : Type 0 where
      drained : r.queue ≡ [] → r.result ≡ count 0 → Stops id r
      not_due :
          (t : S)
          → should_throttle_msg ops (link.read_clock t).0 id r.throttle ≡ true
          → r.link_state ≡ (link.read_clock t).1
          → r.result ≡ count 0
          → Stops id r
      closed : link.is_open r.link_state ≡ false → Stops id r
      no_room : is_enobufs r.result ≡ true → Stops id r
      write_error : is_failure r.result ≡ true → Stops id r

    -- What it does with a queue: it splits into what was written, what was given up, and what is left.
    pub record Resends (id : ℕ) (queue : List Msg) (s : S) (r : Resending Rate S) : Type 0 where
      pub sent : List Msg
      pub lost : List Msg
      pub split : queue ≡ sent ++ (lost ++ r.queue)
      pub trace : Attempts s sent lost r.queue r.link_state
      pub stops : Stops id r

    -- `resend_queued_msgs` writes the first part of the queue, in order and each message once, by calls of
    -- `write_msg` that succeed. It stops only when the queue is drained, the next message is not due, or
    -- the last write closed the link or failed. Then all others are left in the queue, in their order, also
    -- the one of a write that closed the link or returned -ENOBUFS. Only the one of a write that failed
    -- with another error is taken off the queue all the same: the endpoint may keep it in its transmit
    -- buffer, or lose it.
    pub resend_queued_msgs-Resends :
        (id : ℕ) (queue : List Msg) (throttle : ThrottleMap Rate) (s : S)
        → Resends id queue s (resend_queued_msgs ops link id queue throttle s)
    unfolding resend_queued_msgs
    resend_queued_msgs-Resends id [] throttle s = record {
      sent = [];
      lost = [];
      split = refl;
      trace = settled done;
      stops = drained refl refl;
    }
    resend_queued_msgs-Resends id (m ∷ queue) throttle s =
        let s₁ = (link.read_clock s).1 in
        let r = link.write_msg m s₁ in
        elim (Bool-cases (should_throttle_msg ops (link.read_clock s).0 id throttle)) [
          | inl wait ↦ rw wait (record {
            sent = [];
            lost = [];
            split = refl;
            trace = settled (reads done);
            stops = not_due s wait refl refl;
          })
          | inr due ↦ rw due (elim (Bool-cases (link.is_open r.1)) [
            | inr shut ↦ rw shut (record {
              sent = [];
              lost = [];
              split = refl;
              trace = refused m (reads done) (inl shut);
              stops = closed shut;
            })
            | inl still ↦ rw still (elim (Bool-cases (is_enobufs r.0)) [
              | inl full ↦ rw full (record {
                sent = [];
                lost = [];
                split = refl;
                trace = refused m (reads done) (inr full);
                stops = no_room full;
              })
              | inr taken ↦ rw taken (elim (Bool-cases (is_failure r.0)) [
                | inl failure ↦ rw failure (record {
                  sent = [];
                  lost = m ∷ [];
                  split = refl;
                  trace = given_up m (reads done) still taken failure;
                  stops = write_error failure;
                })
                | inr success ↦
                    rw success (onward still success (resend_queued_msgs-Resends id queue _ _))
              ])
            ])
          ])
        ]
      where
        onward :
            {r : Resending Rate S}
            → link.is_open (link.write_msg m (link.read_clock s).1).1 ≡ true
            → is_failure (link.write_msg m (link.read_clock s).1).0 ≡ false
            → Resends id queue (link.read_clock (link.write_msg m (link.read_clock s).1).1).1 r
            → Resends id (m ∷ queue) s r
        onward still ok w = record {
          sent = m ∷ w.sent;
          lost = w.lost;
          split = ap (◌∷◌ m) w.split;
          trace = Attempts-reads (Attempts-writes m still ok (Attempts-reads w.trace));
          stops = w.stops;
        }
