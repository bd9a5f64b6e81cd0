-- ===== src/Accept.antt =====
-- src/endpoint.cpp: the addresses that an endpoint has seen, and `Endpoint::accept_msg`, which
-- decides whether a message goes out on an endpoint.
pub mod Target
pub mod Verdict
mod Tests
use mavlink_router.Prelude.{
  ℕ, ◌+◌, ◌*◌, ◌-◌, ◌^◌, ◌/◌, ◌%◌, Bool, true, false, ◌&&◌, ◌||◌, not, Option, none, some, List, [],
  ◌∷◌, ltb, ◌==◌, if◌then◌else◌, contains, any, lookup, is_some,
}
use mavlink_router.Message.{Msg}
use mavlink_router.Throttle.{RateOps, ThrottleMap, is_throttling_enabled, should_throttle_msg}
use mavlink_router.Filter.{Filters, filtered_out}

pub data AcceptState : Type 0 where
  accepted filtered rejected throttled cached : AcceptState

-- `(sysid << 8) | compid`, of two bytes
unfoldable pub sys_comp_id : ℕ → ℕ → ℕ
sys_comp_id sysid compid = sysid % 256 * 256 + compid % 256

-- `has_sys_id` on the list `_sys_comp_ids`, whose entries are of 16 bits
pub has_sys_id : ℕ → List ℕ → Bool
has_sys_id sysid ids = any (λ id. id / 256 == sysid % 256) ids

-- `has_sys_comp_id` with two arguments
unfoldable pub has_sys_comp_id : ℕ → ℕ → List ℕ → Bool
has_sys_comp_id sysid compid ids = contains (sys_comp_id sysid compid) ids

-- A target of -1 as the `unsigned` that it becomes; its lowest byte is all that is used of it.
abbrev pub as_unsigned : Option ℕ → ℕ
as_unsigned none = 2 ^ 32 - 1
as_unsigned (some n) = n

-- `target == 0 || target == -1`
abbrev pub is_broadcast : Option ℕ → Bool
is_broadcast none = true
is_broadcast (some n) = n == 0

-- `target > 0`
abbrev pub is_positive : Option ℕ → Bool
is_positive none = false
is_positive (some n) = ltb 0 n

-- Whether the endpoint is a routing target of the message.
pub is_target : ℕ → List ℕ → Msg → Bool
is_target sniffer_sysid ids m =
    is_broadcast m.target_sysid
    || (is_positive m.target_compid
        && has_sys_comp_id (as_unsigned m.target_sysid) (as_unsigned m.target_compid) ids)
    || (is_broadcast m.target_compid && has_sys_id (as_unsigned m.target_sysid) ids)
    || (not (sniffer_sysid == 0) && has_sys_id sniffer_sysid ids)

-- What `accept_msg` reads of an endpoint. `cached_ids` are the ids with a queue in `_msg_cache`.
pub record Gate (Rate : Type 0) : Type 0 where
  pub sys_comp_ids : List ℕ
  pub filters : Filters
  pub throttle : ThrottleMap Rate
  pub throttle_cache_ids : List ℕ
  pub cached_ids : List ℕ

module _ {Rate : Type 0} (ops : RateOps Rate) where
  -- The throttling rules, from the end of `accept_msg`.
  pub throttle_msg : ℕ → Gate Rate → Msg → AcceptState
  throttle_msg now g m =
      let should_be_cached = contains m.msg_id g.throttle_cache_ids in
      if is_throttling_enabled m.msg_id g.throttle
      then (if should_throttle_msg ops now m.msg_id g.throttle
          then (if should_be_cached then cached else throttled)
          else if should_be_cached && contains m.msg_id g.cached_ids
          then cached
          else accepted)
      else accepted

  pub accept_msg : ℕ → ℕ → Gate Rate → Msg → AcceptState
  accept_msg sniffer_sysid now g m =
      if has_sys_comp_id m.src_sysid m.src_compid g.sys_comp_ids
      then rejected
      else if filtered_out g.filters m
      then filtered
      else if not (is_target sniffer_sysid g.sys_comp_ids m)
      then rejected
      else throttle_msg now g m
