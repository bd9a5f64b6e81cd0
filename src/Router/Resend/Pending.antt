-- ===== src/Router/Resend/Pending.antt =====
-- src/mainloop.cpp: the timer for cached messages runs while a message is cached.
use mavlink_router.Prelude.{
  ℕ, ◌+◌, ◌≡◌, refl, sym, ap, ◌∙◌, subst, arith, ◌⊎◌, inl, inr, Bool, true, false, ◌&&◌, ◌||◌, not,
  Option, none, some, List, [], ◌∷◌, ◌++◌, if◌then◌else◌, All, append_assoc, append-nil, Bool-cases,
  keep,
}
use mavlink_router.Message.{Msg}
use mavlink_router.Throttle.{RateOps}
use mavlink_router.Accept.{AcceptState, accepted, filtered, rejected, throttled, cached}
use mavlink_router.Cache.{resend_cached_msgs}
use mavlink_router.Cache.Deadline.{SomeAt}
use mavlink_router.Router.{
  Endpoint, ResendTimer, Mainloop, Routing, Answers, accept, write_msg, reschedule_resend,
  resend_delay, schedule_resend, route_turn, route_each, process_tcp_hangups, earliest_deadline,
}
use mavlink_router.Router.Timer.{
  NothingCached, SomeDueAt, FindsDue, nowhere, due, earliest_deadline-FindsDue,
}
use mavlink_router.Router.Resend.{resend_endpoint, resend_each, settle, resend_timeout}

made_scheduled :
    (t : ResendTimer) (delay : ℕ)
    → (if t.scheduled then t else record { scheduled = true; delay_ms = delay }).scheduled ≡ true
made_scheduled t delay = elim (Bool-cases t.scheduled) [
  | inl runs ↦ simp runs refl
  | inr idle ↦ simp idle refl
]

otherwise :
    (b : Bool) (t u : ResendTimer)
    → b ≡ false
    → u.scheduled ≡ true
    → (if b then t else u).scheduled ≡ true
otherwise true t u h k = cc
otherwise false t u h k = k

module _ {Rate : Type 0} where
  -- No endpoint caches a message, or the timer runs.
  unfoldable pub Pending : List (Endpoint Rate) → ResendTimer → Type 0
  Pending es t = NothingCached es ⊎ (t.scheduled ≡ true)

  reschedule_resend-scheduled :
      (now : ℕ) (es : List (Endpoint Rate)) (t u : ResendTimer)
      → t.scheduled ≡ true
      → u.scheduled ≡ true
      → (elim (reschedule_resend now es t) as (λ _. ResendTimer) [
        | none ↦ u
        | some t' ↦ t'
      ]).scheduled
        ≡ true
  unfolding reschedule_resend
  reschedule_resend-scheduled now es t u h k = go (earliest_deadline es)
    where
      go :
          (o : Option ℕ)
          → (elim (elim o as (λ _. Option ResendTimer) [
            | none ↦ none
            | some earliest ↦ some (record t { delay_ms = resend_delay now earliest })
          ])
              as (λ _. ResendTimer) [ none ↦ u | some t' ↦ t' ]).scheduled
            ≡ true
      go none = k
      go (some d) = h

  NothingCached-none : (es : List (Endpoint Rate)) → NothingCached es → earliest_deadline es ≡ none
  NothingCached-none es n = go (earliest_deadline es) (earliest_deadline-FindsDue es)
    where
      none_due :
          (e : Endpoint Rate) (d : ℕ) → e.cached.cache ≡ [] → SomeAt e.throttle d e.cached.cache → ⊥
      none_due e d gone due_at = subst (λ c. SomeAt e.throttle d c) gone due_at

      empty_due : (es : List (Endpoint Rate)) (d : ℕ) → NothingCached es → SomeDueAt d es → ⊥
      empty_due [] d n due_at = due_at
      empty_due (e ∷ es) d (gone, n) (inl due_at) = none_due e d gone due_at
      empty_due (e ∷ es) d (gone, n) (inr due_at) = empty_due es d n due_at

      go : (o : Option ℕ) → FindsDue es o → o ≡ none
      go none f = refl
      go (some d) (due _ before due_at) = absurd (empty_due es d n due_at)

  -- `schedule_resend` starts the timer, if it is not running and can be made.
  schedule_resend-scheduled :
      (a : Answers) (es : List (Endpoint Rate)) (t : ResendTimer)
      → a.timer_made ≡ true
      → (schedule_resend a es t).scheduled ≡ true
  unfolding schedule_resend
  schedule_resend-scheduled a es t h =
      otherwise (not t.scheduled && not a.timer_made) t _ (ground (arith, h))
        (reschedule_resend-scheduled a.arm_time es _ _ (made_scheduled t _) (made_scheduled t _))

  All-middle :
      (P : Endpoint Rate → Type 0) (before behind : List (Endpoint Rate)) (e e' : Endpoint Rate)
      → (P e → P e')
      → All P (before ++ (e ∷ behind))
      → All P (before ++ (e' ∷ behind))
  All-middle P [] behind e e' k (h, a) = (k h, a)
  All-middle P (x ∷ before) behind e e' k (h, a) = (h, All-middle P before behind e e' k a)

module _ {Rate : Type 0} (ops : RateOps Rate) (sniffer : ℕ) (m : Msg) where
  write_msg-cached : (a : Answers) (e : Endpoint Rate) → ((write_msg ops a m e).1).cached ≡ e.cached
  unfolding write_msg
  write_msg-cached a e = refl

  timed_cached :
      (b : Bool) (w : Endpoint Rate) (u : Endpoint Rate)
      → u.cached ≡ w.cached
      → (if b then u else w).cached ≡ w.cached
  timed_cached true w u h = h
  timed_cached false w u h = refl

  -- A turn of the loop in `route_msg`.
  route_turn-Pending :
      (a : Answers) (before : List (Endpoint Rate)) (e : Endpoint Rate)
      (behind : List (Endpoint Rate)) (r : Routing)
      → a.timer_made ≡ true
      → Pending (before ++ (e ∷ behind)) r.resend
      → (let t = route_turn ops sniffer a m before e behind r in
          Pending (before ++ (t.0 ∷ behind)) t.1.resend)
  unfolding route_turn Pending
  route_turn-Pending a before e behind r made p = go (accept ops sniffer a.accept_time e m) refl
    where
      go :
          (s : AcceptState)
          → accept ops sniffer a.accept_time e m ≡ s
          → (let t = route_turn ops sniffer a m before e behind r in
              Pending (before ++ (t.0 ∷ behind)) t.1.resend)
      go accepted h =
          rw (route_turn, h)
            (elim p [
              | inl n ↦ inl (
                  All-middle _ before behind e _
                    (λ gone.
                      ap (λ c. c.cache)
                        (timed_cached _ (write_msg ops a m e).1 _ refl ∙ write_msg-cached a e)
                      ∙ gone)
                    n)
              | inr runs ↦ inr runs
            ])
      go filtered h = rw (route_turn, h) p
      go throttled h = rw (route_turn, h) p
      go rejected h = rw (route_turn, h) p
      go cached h = rw (route_turn, h) (inr (schedule_resend-scheduled a _ r.resend made))

  pub route_each-Pending :
      (world : ℕ → Answers) (place : ℕ) (before es : List (Endpoint Rate)) (r : Routing)
      → ((i : ℕ) → (world i).timer_made ≡ true)
      → Pending (before ++ es) r.resend
      → (let out = route_each ops sniffer world m place before es r in Pending out.0 out.1.resend)
  unfolding route_each
  route_each-Pending world place before [] r made p =
      subst (λ es. Pending es r.resend) (append-nil before) p
  route_each-Pending world place before (e ∷ es) r made p =
      let t = route_turn ops sniffer (world place) m before e es r in
      route_each-Pending world (place + 1) (before ++ (t.0 ∷ [])) es t.1 made (
        subst (λ es. Pending es t.1.resend) (sym (append_assoc before (t.0 ∷ []) es))
          (route_turn-Pending (world place) before e es r (made place) p))

module _ {Rate : Type 0} (ops : RateOps Rate) where
  resend_endpoint-empty :
      (world : ℕ → Answers) (e : Endpoint Rate)
      → e.cached.cache ≡ []
      → (resend_endpoint ops world e).0.cached.cache ≡ []
  unfolding resend_endpoint resend_cached_msgs
  resend_endpoint-empty world e h = simp h refl

  resend_each-NothingCached :
      (worlds : ℕ → ℕ → Answers) (place : ℕ) (es : List (Endpoint Rate))
      → NothingCached es
      → NothingCached (resend_each ops worlds place es).0
  unfolding resend_each
  resend_each-NothingCached worlds place [] n = tt
  resend_each-NothingCached worlds place (e ∷ es) (gone, n) = (
    resend_endpoint-empty (worlds place) e gone,
    resend_each-NothingCached worlds (place + 1) es n,
  )

  -- What `_resend_timeout` answers: true if a message is still cached, for the timer to run on; false
  -- if none is, and then the timer counts as stopped.
  pub data Rearmed (answer : Bool) (l : Mainloop Rate) : Type 0 where
    on : (d : ℕ) → answer ≡ true → SomeDueAt d l.endpoints → Rearmed answer l
    off : answer ≡ false → NothingCached l.endpoints → l.resend.scheduled ≡ false → Rearmed answer l

  pub resend_timeout-Pending :
      (worlds : ℕ → ℕ → Answers) (now : ℕ) (l : Mainloop Rate)
      → Pending l.endpoints l.resend
      → (let out = resend_timeout ops worlds now l in
          Pending out.1.endpoints out.1.resend × Rearmed out.0 out.1)
  unfolding resend_timeout reschedule_resend Pending settle
  resend_timeout-Pending worlds now l p =
      go (earliest_deadline es) (earliest_deadline-FindsDue es) (Pending-resent p)
    where
      es : List (Endpoint Rate)
      es = (resend_each ops worlds 0 l.endpoints).0

      sent : Mainloop Rate
      sent = record l {
        endpoints = es;
        should_process_tcp_hangups =
            l.should_process_tcp_hangups || (resend_each ops worlds 0 l.endpoints).1;
      }

      Pending-resent : Pending l.endpoints l.resend → Pending es l.resend
      Pending-resent (inl n) = inl (resend_each-NothingCached worlds 0 l.endpoints n)
      Pending-resent (inr runs) = inr runs

      go :
          (o : Option ℕ)
          → FindsDue es o
          → Pending es l.resend
          → (let out =
                settle ops
                  (elim o as (λ _. Option ResendTimer) [
                    | none ↦ none
                    | some earliest ↦
                        some (record l.resend { delay_ms = resend_delay now earliest })
                  ])
                  sent in
              Pending out.1.endpoints out.1.resend × Rearmed out.0 out.1)
      go none (nowhere n) p = (inl n, off refl n refl)
      go (some d) (due _ before due_at) (inl n) = (inl n, on d refl due_at)
      go (some d) (due _ before due_at) (inr runs) = (inr runs, on d refl due_at)

  keep-NothingCached :
      (q : Endpoint Rate → Bool) (es : List (Endpoint Rate))
      → NothingCached es
      → NothingCached (keep q es)
  keep-NothingCached q [] n = tt
  keep-NothingCached q (e ∷ es) (gone, n) = elim (Bool-cases (q e)) [
    | inl stay ↦ rw stay (gone, keep-NothingCached q es n)
    | inr go ↦ rw go (keep-NothingCached q es n)
  ]

  pub process_tcp_hangups-Pending :
      (l : Mainloop Rate)
      → Pending l.endpoints l.resend
      → (let l' = process_tcp_hangups ops l in Pending l'.endpoints l'.resend)
  unfolding process_tcp_hangups Pending
  process_tcp_hangups-Pending l (inl n) = inl (keep-NothingCached _ l.endpoints n)
  process_tcp_hangups-Pending l (inr runs) = inr runs
