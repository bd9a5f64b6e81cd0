-- ===== src/Setup/Rates.antt =====
-- src/endpoint.cpp: which rate the configuration gives a message.
use mavlink_router.Prelude.{
  ℕ, ◌≡◌, refl, sym, ◌∙◌, ap, inl, inr, Bool, true, false, ◌||◌, Option, none, some, List, [], ◌∷◌,
  ◌++◌, arith, append-nil, append_assoc, ◌==◌, if◌then◌else◌, contains, lookup, lookup-insert,
  lookup-erase, Bool-cases, ==_iff, subst,
}
use mavlink_router.Throttle.{RateOps, ThrottleMap, set_message_throttling}
use mavlink_router.Setup.{IdOps, push_each, set_add_each, throttle_each}

module _ {F : Type 0} (ops : RateOps F) (ids : IdOps F) where
  -- The rate of an id in a map.
  pub rate_of : ℕ → ThrottleMap F → Option F
  rate_of id m = elim (lookup id m) [ none ↦ none | some info ↦ some info.rate ]

  -- The last pair for an id decides: its rate, or none if it is not above the least one. `before` is what
  -- holds if there is no pair for it.
  pub last_rate : ℕ → List (F × F) → Option F → Option F
  last_rate id [] before = before
  last_rate id ((n, rate) ∷ more) before = last_rate id more (
      if ids.to_uint32 n == id
      then (if ops.above_epsilon rate then some rate else none)
      else before)

  pub no_rate : (id : ℕ) → rate_of id [] ≡ none
  unfolding rate_of lookup
  no_rate id = refl

  rate_of-set :
      (now id n : ℕ) (rate : F) (m : ThrottleMap F)
      → rate_of id (set_message_throttling ops now n rate m)
        ≡ (if n == id then (if ops.above_epsilon rate then some rate else none) else rate_of id m)
  unfolding rate_of set_message_throttling
  rate_of-set now id n rate m = elim (Bool-cases (ops.above_epsilon rate)) [
    | inl above ↦
        rw (above, rate_of, lookup-insert n id _ m)
          (elim (Bool-cases (n == id)) [ inl same ↦ rw same refl | inr other ↦ rw other refl ])
    | inr below ↦
        rw (below, rate_of, lookup-erase n id m)
          (elim (Bool-cases (n == id)) [ inl same ↦ rw same refl | inr other ↦ rw other refl ])
  ]

  -- Whether some pair has an id that is too large.
  unfoldable pub exceeds_some : List (F × F) → Bool
  exceeds_some [] = false
  exceeds_some ((id, rate) ∷ more) = ids.exceeds id || exceeds_some more

  -- The loop fails exactly if some id is too large, and else gives each id its last rate.
  pub data Throttled (pairs : List (F × F)) (m : ThrottleMap F)
      : Option (ThrottleMap F) → Type 0 where
    too_large : exceeds_some pairs ≡ true → Throttled pairs m none
    set :
        (m' : ThrottleMap F)
        → exceeds_some pairs ≡ false
        → ((id : ℕ) → rate_of id m' ≡ last_rate id pairs (rate_of id m))
        → Throttled pairs m (some m')

  Throttled-cons :
      (now : ℕ) (id rate : F) (pairs : List (F × F)) (m : ThrottleMap F)
      (o : Option (ThrottleMap F))
      → ids.exceeds id ≡ false
      → Throttled pairs (set_message_throttling ops now (ids.to_uint32 id) rate m) o
      → Throttled ((id, rate) ∷ pairs) m o
  unfolding last_rate exceeds_some
  Throttled-cons now id rate pairs m _ h (too_large e) = too_large (rw h e)
  Throttled-cons now id rate pairs m _ h (set m' e f) =
      set m' (rw h e)
        (λ n. f n ∙ ap (last_rate n pairs) (rate_of-set now n (ids.to_uint32 id) rate m))

  pub throttle_each-Throttled :
      (now : ℕ) (pairs : List (F × F)) (m : ThrottleMap F)
      → Throttled pairs m (throttle_each ops ids now pairs m)
  unfolding throttle_each last_rate exceeds_some
  throttle_each-Throttled now [] m = set m refl (λ id. refl)
  throttle_each-Throttled now ((id, rate) ∷ pairs) m = elim (Bool-cases (ids.exceeds id)) [
    | inl large ↦ rw large (too_large (rw large refl))
    | inr fits ↦
        rw fits (Throttled-cons now id rate pairs m _ fits (throttle_each-Throttled now pairs _))
  ]

pub push_each_lem : (xs target : List ℕ) → push_each xs target ≡ target ++ xs
unfolding push_each
push_each_lem [] target = sym (append-nil target)
push_each_lem (x ∷ xs) target =
    push_each_lem xs (target ++ (x ∷ [])) ∙ append_assoc target (x ∷ []) xs

contains-append :
    (id : ℕ) (xs ys : List ℕ) → contains id (xs ++ ys) ≡ contains id xs || contains id ys
contains-append id [] ys = refl
contains-append id (x ∷ xs) ys = elim (Bool-cases (x == id)) [
  | inl same ↦ rw same refl
  | inr other ↦ rw (other, contains-append id xs ys) refl
]

-- The ids to be cached are those that are configured, and those from before.
pub throttle_cache_lem :
    (id : ℕ) (new old : List ℕ)
    → contains id (set_add_each new old) ≡ contains id old || contains id new
unfolding set_add_each
throttle_cache_lem id [] old = ground arith
throttle_cache_lem id (n ∷ new) old = throttle_cache_lem id new _ ∙ step
  where
    or_middle : (a x b : Bool) → (a || (x || false)) || b ≡ a || (x || b)
    or_middle true x b = refl
    or_middle false true b = refl
    or_middle false false b = refl

    step :
        contains id (if contains n old then old else old ++ (n ∷ [])) || contains id new
        ≡ contains id old || (n == id || contains id new)
    step = elim (Bool-cases (contains n old)) [
      | inr absent ↦
          rw (absent, contains-append id old (n ∷ []))
            (or_middle (contains id old) (n == id) (contains id new))
      | inl there ↦ elim (Bool-cases (n == id)) [
        | inr other ↦ rw (there, other) refl
        | inl same ↦
            let found : contains id old ≡ true =
              subst (λ k. contains k old ≡ true) ((==_iff n id).0 same) there in
            rw (there, found) refl
      ]
    ]
