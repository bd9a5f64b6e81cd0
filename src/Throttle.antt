-- ===== src/Throttle.antt =====
-- src/endpoint.cpp and src/endpoint.h: the throttling of messages by their id.
pub mod Rate
mod Tests
use mavlink_router.Prelude.{
  ℕ, ◌+◌, ◌*◌, ◌-◌, ◌^◌, Bool, true, false, ◌&&◌, not, Option, none, some, List, [], ◌∷◌, ltb, ◌==◌,
  if◌then◌else◌, lookup, insert, erase, is_some,
}

-- What the code does with the `float` of a rate: `rate > FLT_EPSILON`, `rate < FLT_EPSILON`, and the
-- microseconds of `1.f / rate`.
pub record RateOps (Rate : Type 0) : Type 0 where
  pub above_epsilon : Rate → Bool
  pub below_epsilon : Rate → Bool
  pub period_usec : Rate → ℕ

-- Time points of the steady clock are in nanoseconds.
pub record ThrottleInfo (Rate : Type 0) : Type 0 where
  pub rate : Rate
  pub next_timestamp : ℕ

-- `_message_throttle_map`
abbrev pub ThrottleMap : Type 0 → Type 0
ThrottleMap Rate = List (ℕ × ThrottleInfo Rate)

abbrev pub uint32_max : ℕ
uint32_max = 2 ^ 32 - 1

abbrev pub is_empty {ℓ} : {A : Type ℓ} → List A → Bool
is_empty [] = true
is_empty (x ∷ xs) = false

module _ {Rate : Type 0} (ops : RateOps Rate) where
  abbrev pub period : ThrottleInfo Rate → ℕ
  period info = ops.period_usec info.rate * 1000

  -- A new entry of the map begins with the time at which it is made.
  unfoldable pub set_message_throttling : ℕ → ℕ → Rate → ThrottleMap Rate → ThrottleMap Rate
  set_message_throttling now msg_id rate m =
      if ops.above_epsilon rate
      then insert msg_id
          (record {
            rate = rate;
            next_timestamp = elim (lookup msg_id m) [
              | none ↦ now
              | some info ↦ info.next_timestamp
            ];
          })
          m
      else erase msg_id m

  unfoldable pub should_throttle_msg : ℕ → ℕ → ThrottleMap Rate → Bool
  should_throttle_msg now msg_id m = elim (lookup msg_id m) [
    | none ↦ false
    | some info ↦ if ops.below_epsilon info.rate then false else ltb now info.next_timestamp
  ]

  pub advance : ℕ → ThrottleInfo Rate → ThrottleInfo Rate
  advance now info =
      let base =
        if ltb (info.next_timestamp + 2 * period info) now then now else info.next_timestamp in
      record info { next_timestamp = base + period info }

  pub update_throttle_info : ℕ → ℕ → ThrottleMap Rate → ThrottleMap Rate
  unfolding advance
  update_throttle_info now msg_id m = elim (lookup msg_id m) [
    | none ↦ m
    | some info ↦ insert msg_id (advance now info) m
  ]

unfoldable pub is_throttling_enabled : {Rate : Type 0} → ℕ → ThrottleMap Rate → Bool
is_throttling_enabled msg_id m =
    not (msg_id == uint32_max) && not (is_empty m) && is_some (lookup msg_id m)
