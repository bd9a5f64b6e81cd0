-- ===== src/Throttle/Rate.antt =====
-- src/endpoint.cpp: how many messages of one id pass the throttling.
use mavlink_router.Prelude.{
  ℕ, suc, ◌+◌, ◌*◌, ◌≤◌, ◌≡◌, refl, ◌∙◌, ◌⊎◌, inl, inr, false, some, List, [], ◌∷◌, arith, ltb,
  if◌then◌else◌, lookup, lookup-insert, Bool-cases, All, ==_refl,
}
use mavlink_router.Throttle.{
  RateOps, ThrottleInfo, ThrottleMap, period, should_throttle_msg, advance, update_throttle_info,
}

one_more :
    (n next next' p end : ℕ)
    → next + p ≤ next'
    → next ≤ end
    → (n ≡ 0) ⊎ (next' + n * p ≤ end + p)
    → next + suc n * p ≤ end + p
one_more n next next' p end step due (inl none_later) = rw none_later (omega arith)
one_more n next next' p end step due (inr later) = omega arith

module _ {Rate : Type 0} (ops : RateOps Rate) where
  -- Messages of one id come at these times: how many are let through, where each of those moves the
  -- time stamp on.
  pub passed : ℕ → List ℕ → ThrottleMap Rate → ℕ
  passed msg_id [] m = 0
  passed msg_id (now ∷ times) m =
      let through = suc (passed msg_id times (update_throttle_info ops now msg_id m)) in
      let held_back = passed msg_id times m in
      if should_throttle_msg ops now msg_id m then held_back else through

  advance-le :
      (now : ℕ) (info : ThrottleInfo Rate)
      → info.next_timestamp + period ops info ≤ (advance ops now info).next_timestamp
  unfolding advance
  advance-le now info = ground arith

  rate-advance : (now : ℕ) (info : ThrottleInfo Rate) → (advance ops now info).rate ≡ info.rate
  unfolding advance
  rate-advance now info = refl

  lookup-update :
      (now msg_id : ℕ) (m : ThrottleMap Rate) (info : ThrottleInfo Rate)
      → lookup msg_id m ≡ some info
      → lookup msg_id (update_throttle_info ops now msg_id m) ≡ some (advance ops now info)
  unfolding update_throttle_info
  lookup-update now msg_id m info known =
      rw (known, update_throttle_info)
        (lookup-insert msg_id msg_id (advance ops now info) m ∙ rw (==_refl msg_id))

  passes :
      (now msg_id : ℕ) (m : ThrottleMap Rate) (info : ThrottleInfo Rate)
      → lookup msg_id m ≡ some info
      → ops.below_epsilon info.rate ≡ false
      → should_throttle_msg ops now msg_id m ≡ ltb now info.next_timestamp
  unfolding should_throttle_msg
  passes now msg_id m info known valid = ground arith

  -- Of the messages of a throttled id that come up to the time `end`, so many pass that their number
  -- times the period is at most the time from the first time stamp to `end`, and one period; or none
  -- pass. The id has a rate that the throttling takes for valid.
  pub passed_bound :
      (msg_id end : ℕ) (times : List ℕ) (m : ThrottleMap Rate) (info : ThrottleInfo Rate)
      → lookup msg_id m ≡ some info
      → ops.below_epsilon info.rate ≡ false
      → All (λ t. t ≤ end) times
      → (passed msg_id times m ≡ 0)
        ⊎ (info.next_timestamp + passed msg_id times m * period ops info ≤ end + period ops info)
  unfolding passed advance
  passed_bound msg_id end [] m info known valid within = inl refl
  passed_bound msg_id end (now ∷ times) m info known valid within =
      let test = passes now msg_id m info known valid in
      let step = advance-le now info in
      elim (Bool-cases (ltb now info.next_timestamp)) [
        | inl early ↦ rw (test ∙ early) (passed_bound msg_id end times m info known valid within.1)
        | inr due ↦ rw (test ∙ due) (
            inr (
              one_more _ info.next_timestamp (advance ops now info).next_timestamp (period ops info)
                end step (ground arith)
                (passed_bound msg_id end times (update_throttle_info ops now msg_id m)
                  (advance ops now info) (lookup-update now msg_id m info known)
                  (rw (rate-advance now info) valid) within.1)))
      ]
