-- ===== src/Router/Resend/Run.antt =====
-- src/mainloop.cpp: sequences of messages, of expirations of the timer for cached messages and of removals.
use mavlink_router.Prelude.{ℕ, ◌≡◌, true, []}
use mavlink_router.Message.{Msg}
use mavlink_router.Throttle.{RateOps}
use mavlink_router.Router.{Mainloop, Answers, route_msg, process_tcp_hangups}
use mavlink_router.Router.Resend.{resend_timeout}
use mavlink_router.Router.Resend.Pending.{
  Pending, Rearmed, route_each-Pending, resend_timeout-Pending, process_tcp_hangups-Pending,
}

module _ {Rate : Type 0} (ops : RateOps Rate) (sniffer : ℕ) where
  -- One thing that the main loop does about cached messages. New timers can be made.
  pub data Step (l : Mainloop Rate) : Mainloop Rate → Type 0 where
    routes :
        (m : Msg) (world : ℕ → Answers)
        → ((i : ℕ) → (world i).timer_made ≡ true)
        → Step l (route_msg ops sniffer world m l)
    expires : (worlds : ℕ → ℕ → Answers) (now : ℕ) → Step l (resend_timeout ops worlds now l).1
    hangs_up : Step l (process_tcp_hangups ops l)

  pub data Reach (l : Mainloop Rate) : Mainloop Rate → Type 0 where
    here : Reach l l
    onward : {k n : Mainloop Rate} → Reach l k → Step k n → Reach l n

  Step-Pending :
      (l k : Mainloop Rate) → Step l k → Pending l.endpoints l.resend → Pending k.endpoints k.resend
  unfolding route_msg
  Step-Pending l _ (routes m world made) p =
      route_each-Pending ops sniffer m world 0 [] l.endpoints _ made p
  Step-Pending l _ (expires worlds now) p = (resend_timeout-Pending ops worlds now l p).0
  Step-Pending l _ hangs_up p = process_tcp_hangups-Pending ops l p

  Reach-Pending :
      (l k : Mainloop Rate)
      → Reach l k
      → Pending l.endpoints l.resend
      → Pending k.endpoints k.resend
  Reach-Pending l _ here p = p
  Reach-Pending l _ (onward {k} {n} r s) p = Step-Pending k n s (Reach-Pending l k r p)

  -- No cached message is forgotten: while the loop routes messages, resends them and removes endpoints,
  -- in any order, either no endpoint caches a message or the timer to resend runs. When it expires,
  -- `_resend_timeout` lets it run on exactly if some endpoint still caches a message, and then this holds
  -- again. At the start this has to hold, and each new timer can be made.
  pub resend_never_forgets :
      (l k : Mainloop Rate) (worlds : ℕ → ℕ → Answers) (now : ℕ)
      → Pending l.endpoints l.resend
      → Reach l k
      → (let out = resend_timeout ops worlds now k in
          Pending k.endpoints k.resend
          × Rearmed ops out.0 out.1
          × Pending out.1.endpoints out.1.resend)
  resend_never_forgets l k worlds now p r =
      let held = Reach-Pending l k r p in
      let out = resend_timeout-Pending ops worlds now k held in (held, out.1, out.0)
