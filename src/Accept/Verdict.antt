-- ===== src/Accept/Verdict.antt =====
-- src/endpoint.cpp, `Endpoint::accept_msg`: its results and their conditions.
use mavlink_router.Prelude.{
  ℕ, ◌<◌, ◌≡◌, ◌≢◌, refl, sym, ap, ◌∙◌, ◌⊎◌, inl, inr, ◌↔◌, Bool, true, false, ◌&&◌, not, some,
  List, [], ◌∷◌, arith, ltb, ◌==◌, if◌then◌else◌, contains, In, contains→In, In→contains,
  Bool-cases, Option-cases, ==_iff, lookup,
}
use mavlink_router.Message.{Msg}
use mavlink_router.Throttle.{
  RateOps, ThrottleInfo, ThrottleMap, uint32_max, is_throttling_enabled, should_throttle_msg,
  is_empty,
}
use mavlink_router.Filter.{filtered_out}
use mavlink_router.Filter.Spec.{PassesOutgoing, filtered_out_iff}
use mavlink_router.Accept.{
  AcceptState, accepted, filtered, rejected, throttled, cached, Gate, has_sys_comp_id, is_target,
  throttle_msg, accept_msg,
}
use mavlink_router.Accept.Target.{
  Knows, IsTarget, IsAddressed, is_target_iff, has_sys_comp_id→Knows, Knows→has_sys_comp_id,
}

-- A test that decides `P` gives its answer.
abbrev Decides : Bool → Type 0 → Type 0
Decides b P = ((b ≡ true) × P) ⊎ ((b ≡ false) × ¬ P)

holds : {b : Bool} {P : Type 0} → Decides b P → P → b ≡ true
holds (inl (e, p)) q = e
holds (inr (e, n)) q = absurd (n q)

fails : {b : Bool} {P : Type 0} → Decides b P → ¬ P → b ≡ false
fails (inl (e, p)) n = absurd (n p)
fails (inr (e, n)) q = e

module _ {Rate : Type 0} (ops : RateOps Rate) (sniffer now : ℕ) (g : Gate Rate) (m : Msg) where
  -- The message's id has a rate, and the time of the next message has not come.
  abbrev pub IsEarly : Type 0
  IsEarly =
      (m.msg_id ≢ uint32_max)
      × (info : ThrottleInfo Rate) × (lookup m.msg_id g.throttle ≡ some info)
      × (ops.below_epsilon info.rate ≡ false)
      × (now < info.next_timestamp)

  -- The message's id has a rate.
  abbrev pub HasRate : Type 0
  HasRate =
      (m.msg_id ≢ uint32_max)
      × (info : ThrottleInfo Rate) × (lookup m.msg_id g.throttle ≡ some info)

  abbrev pub IsOwn : Type 0
  IsOwn = Knows m.src_sysid m.src_compid g.sys_comp_ids

  -- It is neither the endpoint's own, nor filtered, nor for others.
  abbrev pub IsRouted : Type 0
  IsRouted = (¬ IsOwn) × PassesOutgoing g.filters m × IsTarget sniffer g.sys_comp_ids m

  -- It has to wait behind messages of its id that are cached already.
  abbrev pub Waits : Type 0
  Waits = HasRate × In m.msg_id g.throttle_cache_ids × In m.msg_id g.cached_ids

  pub data Verdict : AcceptState → Type 0 where
    own : IsOwn → Verdict rejected
    discarded : ¬ IsOwn → ¬ PassesOutgoing g.filters m → Verdict filtered
    for_others :
        ¬ IsOwn
        → PassesOutgoing g.filters m
        → ¬ IsTarget sniffer g.sys_comp_ids m
        → Verdict rejected
    too_early : IsRouted → IsEarly → ¬ In m.msg_id g.throttle_cache_ids → Verdict throttled
    kept : IsRouted → IsEarly → In m.msg_id g.throttle_cache_ids → Verdict cached
    queued : IsRouted → ¬ IsEarly → Waits → Verdict cached
    sent : IsRouted → ¬ IsEarly → ¬ Waits → Verdict accepted

  contains-cases : (a : ℕ) (xs : List ℕ) → Decides (contains a xs) (In a xs)
  contains-cases a xs = elim (Bool-cases (contains a xs)) [
    | inl e ↦ inl (e, contains→In a xs e)
    | inr e ↦ inr (e, λ i. ground (arith, In→contains a xs i))
  ]

  some-inj : {a b : ThrottleInfo Rate} → some a ≡ some b → a ≡ b
  some-inj e = cc

  some-ne-empty :
      (t : ThrottleMap Rate) (info : ThrottleInfo Rate)
      → lookup m.msg_id t ≡ some info
      → is_empty t ≡ false
  unfolding lookup
  some-ne-empty [] info e = cc
  some-ne-empty (x ∷ t) info e = refl

  rate-cases : Decides (is_throttling_enabled m.msg_id g.throttle) HasRate
  unfolding is_throttling_enabled
  rate-cases = elim (Option-cases (lookup m.msg_id g.throttle)) [
    | inl e ↦ inr (ground arith, λ r. cc (r.2))
    | inr (info, e) ↦ elim (Bool-cases (m.msg_id == uint32_max)) [
      | inl same ↦ inr (ground arith, λ r. r.0 ((==_iff m.msg_id uint32_max).0 same))
      | inr other ↦ inl (ground (arith, some-ne-empty g.throttle info e), (ground arith, info, e))
    ]
  ]

  early-cases : HasRate → Decides (should_throttle_msg ops now m.msg_id g.throttle) IsEarly
  unfolding should_throttle_msg
  early-cases (known, info, e) =
      let one_info = λ (info' : ThrottleInfo Rate) (e' : lookup m.msg_id g.throttle ≡ some info').
        some-inj (sym e ∙ e') in
      elim (Bool-cases (ops.below_epsilon info.rate)) [
        | inl tiny ↦ inr (
          ground arith,
          λ r. ground (arith, ap (λ i. ops.below_epsilon i.rate) (one_info r.1 r.2)),
        )
        | inr valid ↦ elim (Bool-cases (ltb now info.next_timestamp)) [
          | inl early ↦ inl (ground arith, (known, info, e, valid, ground arith))
          | inr late ↦ inr (
            ground arith,
            λ r.
                ground (arith, ap (λ (i : ThrottleInfo Rate). i.next_timestamp) (one_info r.1 r.2)),
          )
        ]
      ]

  throttle_msg-Verdict : IsRouted → Verdict (throttle_msg ops now g m)
  unfolding throttle_msg
  throttle_msg-Verdict routed = elim rate-cases [
    | inr (off, free) ↦ rw off (sent routed (λ e. free (e.0, e.1, e.2)) (λ w. free w.0))
    | inl (on, rated) ↦ rw on (elim (early-cases rated) [
      | inl (early, is_early) ↦ rw early (elim (contains-cases m.msg_id g.throttle_cache_ids) [
        | inl (c, i) ↦ rw c (kept routed is_early i)
        | inr (c, i) ↦ rw c (too_early routed is_early i)
      ])
      | inr (late, not_early) ↦ rw late (elim (contains-cases m.msg_id g.throttle_cache_ids) [
        | inr (c, i) ↦ rw c (sent routed not_early (λ w. i w.1))
        | inl (c, i) ↦ rw c (elim (contains-cases m.msg_id g.cached_ids) [
          | inl (c', i') ↦ rw c' (queued routed not_early (rated, i, i'))
          | inr (c', i') ↦ rw c' (sent routed not_early (λ w. i' w.2))
        ])
      ])
    ])
  ]

  module _ (a : IsAddressed m) where
    own-cases : Decides (has_sys_comp_id m.src_sysid m.src_compid g.sys_comp_ids) IsOwn
    own-cases = elim (Bool-cases (has_sys_comp_id m.src_sysid m.src_compid g.sys_comp_ids)) [
      | inl e ↦ inl (e, has_sys_comp_id→Knows _ _ _ a.from_sysid a.from_compid e)
      | inr e ↦
          inr (e, λ k. ground (arith, Knows→has_sys_comp_id _ _ _ a.from_sysid a.from_compid k))
    ]

    filter-cases : Decides (not (filtered_out g.filters m)) (PassesOutgoing g.filters m)
    filter-cases = elim (Bool-cases (filtered_out g.filters m)) [
      | inl e ↦ inr (ap not e, λ p. ground (arith, (filtered_out_iff g.filters m).1 p))
      | inr e ↦ inl (ap not e, (filtered_out_iff g.filters m).0 e)
    ]

    unfiltered : {b : Bool} → not (filtered_out g.filters m) ≡ b → filtered_out g.filters m ≡ not b
    unfiltered e = ground arith

    IsTarget-cases :
        Decides (is_target sniffer g.sys_comp_ids m) (IsTarget sniffer g.sys_comp_ids m)
    IsTarget-cases = elim (Bool-cases (is_target sniffer g.sys_comp_ids m)) [
      | inl e ↦ inl (e, (is_target_iff sniffer g.sys_comp_ids m a).0 e)
      | inr e ↦ inr (e, λ t. ground (arith, (is_target_iff sniffer g.sys_comp_ids m a).1 t))
    ]

    verdict : Verdict (accept_msg ops sniffer now g m)
    unfolding accept_msg
    verdict = elim own-cases [
      | inl (e, o) ↦ rw e (own o)
      | inr (e, o) ↦ rw e (elim filter-cases [
        | inr (e', f) ↦ rw (unfiltered e') (discarded o f)
        | inl (e', f) ↦ rw (unfiltered e') (elim IsTarget-cases [
          | inr (e'', t) ↦ rw e'' (for_others o f t)
          | inl (e'', t) ↦ rw e'' (throttle_msg-Verdict (o, f, t))
        ])
      ])
    ]

    unlimited :
        is_throttling_enabled m.msg_id g.throttle ≡ false → throttle_msg ops now g m ≡ accepted
    unfolding throttle_msg
    unlimited off = rw off

    early :
        IsEarly
        → throttle_msg ops now g m
          ≡ (if contains m.msg_id g.throttle_cache_ids then cached else throttled)
    unfolding throttle_msg
    early e =
        let rated : HasRate = (e.0, e.1, e.2) in
        rw (holds rate-cases rated, holds (early-cases rated) e)

    late :
        is_throttling_enabled m.msg_id g.throttle ≡ true
        → should_throttle_msg ops now m.msg_id g.throttle ≡ false
        → throttle_msg ops now g m ≡ (
            if contains m.msg_id g.throttle_cache_ids && contains m.msg_id g.cached_ids
            then cached
            else accepted)
    unfolding throttle_msg
    late on due = rw (on, due)

    routed_on : IsRouted → accept_msg ops sniffer now g m ≡ throttle_msg ops now g m
    unfolding accept_msg
    routed_on (o, f, t) =
        rw (fails own-cases o, unfiltered (holds filter-cases f), holds IsTarget-cases t)

    on_time : ¬ IsEarly → ¬ Waits → throttle_msg ops now g m ≡ accepted
    on_time e w = elim rate-cases [
      | inr (off, free) ↦ unlimited off
      | inl (on, rated) ↦
          late on (fails (early-cases rated) e)
          ∙ (elim (contains-cases m.msg_id g.throttle_cache_ids) [
            | inr (c, i) ↦ rw c
            | inl (c, i) ↦
                rw (c, fails (contains-cases m.msg_id g.cached_ids) (λ j. w (rated, i, j)))
          ])
    ]

    given : {s : AcceptState} → Verdict s → accept_msg ops sniffer now g m ≡ s
    unfolding accept_msg
    given (own i) = rw (holds own-cases i)
    given (discarded o f) = rw (fails own-cases o, unfiltered (fails filter-cases f))
    given (for_others o f t) =
        rw (fails own-cases o, unfiltered (holds filter-cases f), fails IsTarget-cases t)
    given (too_early r e c) =
        routed_on r ∙ early e ∙ rw (fails (contains-cases m.msg_id g.throttle_cache_ids) c)
    given (kept r e c) =
        routed_on r ∙ early e ∙ rw (holds (contains-cases m.msg_id g.throttle_cache_ids) c)
    given (queued r e (rated, c, c')) =
        routed_on r
        ∙ late (holds rate-cases rated) (fails (early-cases rated) e)
        ∙ rw (
          holds (contains-cases m.msg_id g.throttle_cache_ids) c,
          holds (contains-cases m.msg_id g.cached_ids) c',
        )
    given (sent r e w) = routed_on r ∙ on_time e w

    -- `accept_msg` gives each of its results exactly when the conditions for it are met: what the
    -- endpoint has sent itself is rejected, whatever else holds; then come the filters, the routing
    -- targets, and the throttling with its cache. The addresses of the message are bytes; of the
    -- sniffer's id, whatever it is, the low byte counts.
    pub accept_msg_iff : (s : AcceptState) → (accept_msg ops sniffer now g m ≡ s) ↔ Verdict s
    accept_msg_iff s = (λ e. rw e at verdict, given)
