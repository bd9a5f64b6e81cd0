-- ===== src/Router/Source.antt =====
-- src/mainloop.cpp, `Mainloop::route_msg`: what becomes of the endpoint that a message came from.
use mavlink_router.Prelude.{
  subst, ℕ, ◌+◌, ◌≡◌, sym, ◌∙◌, ◌⊎◌, inl, inr, true, false, not, List, [], ◌∷◌, if◌then◌else◌,
  Bool-cases, is_some,
}
use mavlink_router.Message.{Msg}
use mavlink_router.Throttle.{RateOps}
use mavlink_router.Accept.{AcceptState, accepted, filtered, rejected, throttled, cached, accept_msg}
use mavlink_router.Accept.Target.{Knows, IsAddressed}
use mavlink_router.Accept.Verdict.{own, accept_msg_iff}
use mavlink_router.Router.{
  Device, uart, udp, tcp, Endpoint, Mainloop, Answers, gate, accept, route_msg,
}
use mavlink_router.Router.Loop.{
  Treats, sends, holds, discards, passes_by, TreatsEach, route_msg_lem,
}

-- `e` and `e'` stand at the same place of two lists.
abbrev pub Paired : {A : Type 0} → A → A → List A → List A → Type 0
Paired e e' [] es' = ⊥
Paired e e' (x ∷ xs) [] = ⊥
Paired e e' (x ∷ xs) (y ∷ ys) = ((x ≡ e) × (y ≡ e')) ⊎ Paired e e' xs ys

-- The results with which the endpoint does not become a target of the message.
abbrev Declines : AcceptState → Type 0
Declines accepted = ⊥
Declines cached = ⊥
Declines throttled = ⊥
Declines filtered = Unit
Declines rejected = Unit

module _ {Rate : Type 0} (ops : RateOps Rate) (sniffer : ℕ) (m : Msg) where
  accept_msg_own :
      (now : ℕ) (e : Endpoint Rate)
      → IsAddressed m
      → Knows m.src_sysid m.src_compid e.sys_comp_ids
      → accept_msg ops sniffer now (gate ops e) m ≡ rejected
  unfolding gate
  accept_msg_own now e a k = (accept_msg_iff ops sniffer now (gate ops e) m a rejected).1 (own k)

  accept-Declines :
      (now : ℕ) (e : Endpoint Rate)
      → IsAddressed m
      → Knows m.src_sysid m.src_compid e.sys_comp_ids
      → Declines (accept ops sniffer now e m)
  unfolding accept
  accept-Declines now e a k = go e.device
    where
      back : accept_msg ops sniffer now (gate ops e) m ≡ rejected
      back = accept_msg_own now e a k

      go :
          (d : Device)
          → Declines (elim d [
            | uart u ↦ accept_msg ops sniffer now (gate ops e) m
            | udp receiver s ↦
                if receiver
                then filtered
                else if not s.has_peer
                then rejected
                else accept_msg ops sniffer now (gate ops e) m
            | tcp s ↦
                if not (is_some s.fd) then rejected else accept_msg ops sniffer now (gate ops e) m
          ])
      go (uart u) = rw back tt
      go (udp true s) = tt
      go (udp false s) = elim (Bool-cases s.has_peer) [
        | inl e ↦ simp e (rw back tt)
        | inr e ↦ simp e tt
      ]
      go (tcp s) = elim (Bool-cases (is_some s.fd)) [
        | inl e ↦ simp e (rw back tt)
        | inr e ↦ simp e tt
      ]

  Treats-same :
      (a : Answers) (e e' : Endpoint Rate)
      → Declines (accept ops sniffer a.accept_time e m)
      → Treats ops sniffer m a e e'
      → e' ≡ e
  Treats-same a e e' d (sends h p) = absurd (rw h at d)
  Treats-same a e e' d (holds h p) = absurd (rw h at d)
  Treats-same a e e' d (discards h p) = p
  Treats-same a e e' d (passes_by h p) = p

  TreatsEach-same :
      (world : ℕ → Answers) (place : ℕ) (e e' : Endpoint Rate) (es es' : List (Endpoint Rate))
      → IsAddressed m
      → Knows m.src_sysid m.src_compid e.sys_comp_ids
      → TreatsEach ops sniffer m world place es es'
      → Paired e e' es es'
      → e' ≡ e
  TreatsEach-same world place e e' [] es' a k t p = absurd p
  TreatsEach-same world place e e' (x ∷ xs) [] a k t p = absurd p
  TreatsEach-same world place e e' (x ∷ xs) (y ∷ ys) a k (t, ts) (inr p) =
      TreatsEach-same world (place + 1) e e' xs ys a k ts p
  TreatsEach-same world place e e' (x ∷ xs) (y ∷ ys) a k (t, ts) (inl (p, q)) =
      sym q
      ∙ Treats-same (world place) x y
          (accept-Declines (world place).accept_time x a
            (subst (λ z. Knows m.src_sysid m.src_compid z.sys_comp_ids) (sym p) k))
          t
      ∙ p

  -- An endpoint that has seen the source of a message is left by `route_msg` as it was: nothing is
  -- written to it, cached for it or counted, whatever the target of the message, and also if it is the
  -- endpoint of the sniffer. The addresses of the message are bytes.
  pub route_msg_source :
      (world : ℕ → Answers) (l : Mainloop Rate) (e e' : Endpoint Rate)
      → IsAddressed m
      → Knows m.src_sysid m.src_compid e.sys_comp_ids
      → Paired e e' l.endpoints (route_msg ops sniffer world m l).endpoints
      → e' ≡ e
  route_msg_source world l e e' a k p =
      TreatsEach-same world 0 e e' l.endpoints _ a k (route_msg_lem ops sniffer m world l).0 p
