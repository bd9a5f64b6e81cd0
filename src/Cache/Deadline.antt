-- ===== src/Cache/Deadline.antt =====
-- src/endpoint.cpp, `Endpoint::next_resend_deadline`: the earliest time at which a queue is due.
use mavlink_router.Prelude.{
  ℕ, ◌≤◌, ◌≡◌, refl, ◌⊎◌, inl, inr, Option, none, some, [], ◌∷◌, arith, min, leb, All, lookup,
  Bool-cases, Option-cases,
}
use mavlink_router.Throttle.{ThrottleInfo, ThrottleMap}
use mavlink_router.Cache.{MsgCache, next_resend_deadline}

-- When a queue of cached messages is due: at once, if its id has no rate.
abbrev pub deadline : {Rate : Type 0} → ThrottleMap Rate → ℕ → ℕ
deadline throttle id = elim (lookup id throttle) [ none ↦ 0 | some info ↦ info.next_timestamp ]

-- No queue is due before `d`.
abbrev pub NoneBefore : {Rate : Type 0} → ThrottleMap Rate → ℕ → MsgCache → Type 0
NoneBefore throttle d cache = All (λ q. d ≤ deadline throttle q.0) cache

-- Some queue is due at `d`.
abbrev pub SomeAt : {Rate : Type 0} → ThrottleMap Rate → ℕ → MsgCache → Type 0
SomeAt throttle d [] = ⊥
SomeAt throttle d ((id, queue) ∷ rest) = (deadline throttle id ≡ d) ⊎ SomeAt throttle d rest

module _ {Rate : Type 0} (throttle : ThrottleMap Rate) where
  pub NoneBefore-le :
      (d d' : ℕ) (cache : MsgCache)
      → d ≤ d'
      → NoneBefore throttle d' cache
      → NoneBefore throttle d cache
  NoneBefore-le d d' [] h n = tt
  NoneBefore-le d d' ((id, queue) ∷ rest) h (a, n) = (omega (arith, a), NoneBefore-le d d' rest h n)

  NoneBefore-zero : (cache : MsgCache) → NoneBefore throttle 0 cache
  NoneBefore-zero [] = tt
  NoneBefore-zero ((id, queue) ∷ rest) = (omega arith, NoneBefore-zero rest)

  deadline_missing : (id : ℕ) → lookup id throttle ≡ none → deadline throttle id ≡ 0
  deadline_missing id e = rw (deadline, e) refl

  deadline_known :
      (id : ℕ) (info : ThrottleInfo Rate)
      → lookup id throttle ≡ some info
      → deadline throttle id ≡ info.next_timestamp
  deadline_known id info e = rw (deadline, e) refl

  -- What `next_resend_deadline` finds.
  pub data Finds (cache : MsgCache) : Option ℕ → Type 0 where
    nothing : cache ≡ [] → Finds cache none
    first : (d : ℕ) → NoneBefore throttle d cache → SomeAt throttle d cache → Finds cache (some d)

  pub next_resend_deadline-Finds :
      (cache : MsgCache) → Finds cache (next_resend_deadline throttle cache)
  unfolding next_resend_deadline
  next_resend_deadline-Finds [] = nothing refl
  next_resend_deadline-Finds ((id, queue) ∷ rest) = elim (Option-cases (lookup id throttle)) [
    | inl e ↦
        rw (next_resend_deadline, e)
          (first 0 (omega arith, NoneBefore-zero rest) (inl (deadline_missing id e)))
    | inr (info, e) ↦
        rw (next_resend_deadline, e)
          (go info e (next_resend_deadline throttle rest) (next_resend_deadline-Finds rest))
  ]
    where
      go :
          (info : ThrottleInfo Rate)
          → lookup id throttle ≡ some info
          → (later : Option ℕ) → Finds rest later
          → Finds ((id, queue) ∷ rest) (elim later [
            | none ↦ some info.next_timestamp
            | some t ↦ some (min info.next_timestamp t)
          ])
      go info e none (nothing gone) =
          let at = deadline_known id info e in
          first info.next_timestamp (omega (arith, at), rw gone tt) (inl at)
      go info e (some t) (first _ before later_at) =
          let at = deadline_known id info e in
          elim (Bool-cases (leb info.next_timestamp t)) [
            | inl le ↦
                let small : min info.next_timestamp t ≡ info.next_timestamp = ground (arith, le) in
                rw small (
                  first info.next_timestamp
                    (
                      omega (arith, at),
                      NoneBefore-le info.next_timestamp t rest (ground (arith, le)) before,
                    )
                    (inl at))
            | inr gt ↦
                let small : min info.next_timestamp t ≡ t = ground (arith, gt) in
                rw small (first t (ground (arith, at, gt), before) (inr later_at))
          ]
