-- ===== src/Router/Timer.antt =====
-- src/mainloop.cpp, `_reschedule_resend`: when the timer for cached messages fires.
use mavlink_router.Prelude.{
  ℕ, ◌+◌, ◌*◌, ◌-◌, ◌^◌, ◌≤◌, ◌<◌, ◌≡◌, refl, ◌⊎◌, inl, inr, not, Option, none, some, List, [], ◌∷◌,
  arith, min, leb, if◌then◌else◌, All, Bool-cases,
}
use mavlink_router.Throttle.{is_empty}
use mavlink_router.Cache.{MsgCache, next_resend_deadline}
use mavlink_router.Cache.Deadline.{
  NoneBefore, SomeAt, NoneBefore-le, Finds, nothing, first, next_resend_deadline-Finds,
}
use mavlink_router.Router.{
  Endpoint, ResendTimer, resend_delay, resend_retry_ms, nsec_per_msec, earlier, earliest_deadline,
  reschedule_resend,
}

module _ {Rate : Type 0} where
  -- No endpoint holds back a message.
  abbrev pub NothingCached : List (Endpoint Rate) → Type 0
  NothingCached es = All (λ e. e.cached.cache ≡ []) es

  -- No cached message of any endpoint is due before `d`.
  abbrev pub NoneDueBefore : ℕ → List (Endpoint Rate) → Type 0
  NoneDueBefore d es = All (λ e. NoneBefore e.throttle d e.cached.cache) es

  -- Some cached message is due at `d`.
  abbrev pub SomeDueAt : ℕ → List (Endpoint Rate) → Type 0
  SomeDueAt d [] = ⊥
  SomeDueAt d (e ∷ es) = SomeAt e.throttle d e.cached.cache ⊎ SomeDueAt d es

  NoneDueBefore-le :
      (d d' : ℕ) (es : List (Endpoint Rate)) → d ≤ d' → NoneDueBefore d' es → NoneDueBefore d es
  NoneDueBefore-le d d' [] h n = tt
  NoneDueBefore-le d d' (e ∷ es) h (a, n) =
      (NoneBefore-le e.throttle d d' e.cached.cache h a, NoneDueBefore-le d d' es h n)

  pub data FindsDue (es : List (Endpoint Rate)) : Option ℕ → Type 0 where
    nowhere : NothingCached es → FindsDue es none
    due : (d : ℕ) → NoneDueBefore d es → SomeDueAt d es → FindsDue es (some d)

  NoneBefore-nil :
      (e : Endpoint Rate) (d : ℕ) → e.cached.cache ≡ [] → NoneBefore e.throttle d e.cached.cache
  NoneBefore-nil e d gone = rw gone tt

  FindsDue-cons :
      (e : Endpoint Rate) (es : List (Endpoint Rate)) (a b : Option ℕ)
      → Finds e.throttle e.cached.cache a
      → FindsDue es b
      → FindsDue (e ∷ es) (earlier a b)
  FindsDue-cons e es none none (nothing gone) (nowhere n) = nowhere (gone, n)
  FindsDue-cons e es none (some d) (nothing gone) (due _ before at) =
      due d (NoneBefore-nil e d gone, before) (inr at)
  FindsDue-cons e es (some d) none (first _ before at) (nowhere n) =
      due d (before, empties es n) (inl at)
    where
      empties : (es : List (Endpoint Rate)) → NothingCached es → NoneDueBefore d es
      empties [] n = tt
      empties (e ∷ es) (gone, n) = (NoneBefore-nil e d gone, empties es n)
  FindsDue-cons e es (some d) (some d') (first _ before at) (due _ before' at') =
      elim (Bool-cases (leb d d')) [
        | inl le ↦
            let small : min d d' ≡ d = ground (arith, le) in
            rw small
              (due d (before, NoneDueBefore-le d d' es (ground (arith, le)) before') (inl at))
        | inr gt ↦
            let small : min d d' ≡ d' = ground (arith, gt) in
            rw small (
              due d'
                (NoneBefore-le e.throttle d' d e.cached.cache (ground (arith, gt)) before, before')
                (inr at'))
      ]

  cached-Finds :
      (e : Endpoint Rate)
      → Finds e.throttle e.cached.cache (
          if not (is_empty e.cached.cache)
          then next_resend_deadline e.throttle e.cached.cache
          else none)
  cached-Finds e = go e.cached.cache (next_resend_deadline-Finds e.throttle e.cached.cache)
    where
      go :
          (cache : MsgCache)
          → Finds e.throttle cache (next_resend_deadline e.throttle cache)
          → Finds e.throttle cache
              (if not (is_empty cache) then next_resend_deadline e.throttle cache else none)
      go [] f = nothing refl
      go (q ∷ cache) f = f

  pub earliest_deadline-FindsDue : (es : List (Endpoint Rate)) → FindsDue es (earliest_deadline es)
  unfolding earliest_deadline
  earliest_deadline-FindsDue [] = nowhere tt
  earliest_deadline-FindsDue (e ∷ es) =
      FindsDue-cons e es _ _ (cached-Finds e) (earliest_deadline-FindsDue es)

-- When a timer that is armed at `now` for `delay` milliseconds fires, for a message that is due at `d`:
-- at the fixed cadence, if the message is overdue; else at the first whole millisecond that is not
-- before `d`, and never at once.
pub data Wakes (now d delay : ℕ) : Type 0 where
  overdue : d ≤ now → delay ≡ resend_retry_ms → Wakes now d delay
  on_time :
      d ≤ now + delay * nsec_per_msec
      → now + delay * nsec_per_msec < d + nsec_per_msec
      → 0 < delay
      → Wakes now d delay

resend_delay-Wakes :
    (now d : ℕ) → d ≤ now + (2 ^ 32 - 1) * nsec_per_msec → Wakes now d (resend_delay now d)
unfolding resend_delay
resend_delay-Wakes now d fits = elim (Bool-cases (leb d now)) [
  | inl late ↦ rw late (overdue (ground (arith, late)) refl)
  | inr early ↦
      rw early (on_time (ground (arith, early)) (ground (arith, early)) (ground (arith, early)))
]

module _ {Rate : Type 0} where
  -- `_reschedule_resend` returns false exactly if no endpoint holds back a message. Else it arms the timer
  -- for the earliest time at which a message of any endpoint is due: it fires no more than a millisecond
  -- after that time and not before it, and if that time is over, after the fixed `RESEND_RETRY_MS`. The
  -- next message has to be due within 2^32 - 1 milliseconds, where the source stops.
  pub reschedule_resend_lem :
      (now : ℕ) (es : List (Endpoint Rate)) (t : ResendTimer)
      → ((d : ℕ) → SomeDueAt d es → d ≤ now + (2 ^ 32 - 1) * nsec_per_msec)
      → (NothingCached es × (reschedule_resend now es t ≡ none))
        ⊎ ((d : ℕ) × NoneDueBefore d es
            × SomeDueAt d es
            × (delay : ℕ) × Wakes now d delay
            × (reschedule_resend now es t ≡ some (record t { delay_ms = delay })))
  unfolding reschedule_resend
  reschedule_resend_lem now es t near = go (earliest_deadline es) (earliest_deadline-FindsDue es)
    where
      go :
          (o : Option ℕ)
          → FindsDue es o
          → (NothingCached es
              × (elim o as (λ _. Option ResendTimer) [
                | none ↦ none
                | some earliest ↦ some (record t { delay_ms = resend_delay now earliest })
              ]
                  ≡ none))
            ⊎ ((d : ℕ) × NoneDueBefore d es
                × SomeDueAt d es
                × (delay : ℕ) × Wakes now d delay
                × (elim o as (λ _. Option ResendTimer) [
                  | none ↦ none
                  | some earliest ↦ some (record t { delay_ms = resend_delay now earliest })
                ]
                    ≡ some (record t { delay_ms = delay })))
      go none (nowhere n) = inl (n, refl)
      go (some d) (due _ before at) =
          inr (d, before, at, resend_delay now d, resend_delay-Wakes now d (near d at), refl)
