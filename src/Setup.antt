-- ===== src/Setup.antt =====
-- src/endpoint.cpp, `setup` of the UART, UDP and TCP endpoints; and the search for a baud rate. What the
-- system returns is an input. The comparison and the conversion of the float that stands for an id are
-- parameters.
pub mod Rates
pub mod Outcome
pub mod Baud
mod Tests
use mavlink_router.Prelude.{
  ℕ, ◌%◌, ◌^◌, Bool, true, false, ◌&&◌, not, Option, none, some, List, [], ◌∷◌, ◌++◌, if◌then◌else◌,
  contains, length, ◌==◌,
}
use mavlink_router.Os.{Ret, is_failure}
use mavlink_router.Text.{Bytes}
use mavlink_router.Throttle.{RateOps, ThrottleMap, set_message_throttling}
use mavlink_router.Filter.{Filters, no_filters}

-- What the configurations have in common. Pairs of `message_throttling` are floats. A UART endpoint has
-- no coalescing: there its three fields are 0 and empty.
pub record Options (F : Type 0) : Type 0 where
  pub filters : Filters
  pub group : Bytes
  pub coalesce_bytes : ℕ
  pub coalesce_ms : ℕ
  pub coalesce_nodelay : List ℕ
  pub message_throttling : List (F × F)
  pub throttle_cache : List ℕ

-- What `setup` sets in an endpoint, less the copies of the mode and the address.
pub record Applied (F : Type 0) : Type 0 where
  pub filters : Filters
  pub group_name : Bytes
  pub coalesce_bytes : ℕ
  pub coalesce_ms : ℕ
  pub coalesce_nodelay : List ℕ
  pub throttle : ThrottleMap F
  pub throttle_cache_ids : List ℕ

-- A float as an id: whether it is more than `UINT32_MAX`, and its conversion to a `uint32_t`.
pub record IdOps (F : Type 0) : Type 0 where
  pub exceeds : F → Bool
  pub to_uint32 : F → ℕ

abbrev pub fresh : {F : Type 0} → Applied F
fresh = record {
  filters = no_filters;
  group_name = [];
  coalesce_bytes = 0;
  coalesce_ms = 0;
  coalesce_nodelay = [];
  throttle = [];
  throttle_cache_ids = [];
}

-- A loop that calls one of the functions `filter_add_...`.
pub push_each : List ℕ → List ℕ → List ℕ
push_each [] target = target
push_each (x ∷ xs) target = push_each xs (target ++ (x ∷ []))

-- The twelve loops.
pub add_filters : Filters → Filters → Filters
add_filters c f = record {
  allowed_outgoing_msg_ids = push_each c.allowed_outgoing_msg_ids f.allowed_outgoing_msg_ids;
  blocked_outgoing_msg_ids = push_each c.blocked_outgoing_msg_ids f.blocked_outgoing_msg_ids;
  allowed_outgoing_src_comps = push_each c.allowed_outgoing_src_comps f.allowed_outgoing_src_comps;
  blocked_outgoing_src_comps = push_each c.blocked_outgoing_src_comps f.blocked_outgoing_src_comps;
  allowed_outgoing_src_systems =
      push_each c.allowed_outgoing_src_systems f.allowed_outgoing_src_systems;
  blocked_outgoing_src_systems =
      push_each c.blocked_outgoing_src_systems f.blocked_outgoing_src_systems;
  allowed_incoming_msg_ids = push_each c.allowed_incoming_msg_ids f.allowed_incoming_msg_ids;
  blocked_incoming_msg_ids = push_each c.blocked_incoming_msg_ids f.blocked_incoming_msg_ids;
  allowed_incoming_src_comps = push_each c.allowed_incoming_src_comps f.allowed_incoming_src_comps;
  blocked_incoming_src_comps = push_each c.blocked_incoming_src_comps f.blocked_incoming_src_comps;
  allowed_incoming_src_systems =
      push_each c.allowed_incoming_src_systems f.allowed_incoming_src_systems;
  blocked_incoming_src_systems =
      push_each c.blocked_incoming_src_systems f.blocked_incoming_src_systems;
}

-- `throttle_cache_add_msg_id` and `add_no_coalesce_msg_id`, into a `std::set`.
pub set_add_each : List ℕ → List ℕ → List ℕ
set_add_each [] ids = ids
set_add_each (id ∷ more) ids = set_add_each more (if contains id ids then ids else ids ++ (id ∷ []))

-- What `set_speed` says of the one baud rate, or `add_speeds` of any other number: it refuses to take none.
pub speed_fails : Ret → List ℕ → Bool
speed_fails speed [] = true
speed_fails speed (b ∷ []) = is_failure speed
speed_fails speed (b ∷ c ∷ more) = false

module _ {F : Type 0} (ops : RateOps F) (ids : IdOps F) where
  -- The loop over `message_throttling`: `none` where it makes `setup` return false.
  pub throttle_each : ℕ → List (F × F) → ThrottleMap F → Option (ThrottleMap F)
  throttle_each now [] m = some m
  throttle_each now ((id, rate) ∷ more) m =
      let rest =
        throttle_each now more (set_message_throttling ops now (ids.to_uint32 id) rate m) in
      if ids.exceeds id then none else rest

  -- What the three functions do alike: `none` for the result false. `_coalesce_bytes` has 32 bits, and the
  -- field of the configuration 64.
  pub apply_options : ℕ → Options F → Applied F → Option (Applied F)
  apply_options now c a = elim (throttle_each now c.message_throttling a.throttle) [
    | none ↦ none
    | some throttle ↦ some (record {
      filters = add_filters c.filters a.filters;
      group_name = c.group;
      coalesce_bytes = c.coalesce_bytes % 2 ^ 32;
      coalesce_ms = c.coalesce_ms;
      coalesce_nodelay = set_add_each c.coalesce_nodelay a.coalesce_nodelay;
      throttle = throttle;
      throttle_cache_ids = set_add_each c.throttle_cache a.throttle_cache_ids;
    })
  ]

  -- `UdpEndpoint::setup`, for the results of `validate_config` and `open`.
  pub udp_setup : Bool → Bool → ℕ → Options F → Applied F → Option (Applied F)
  udp_setup valid opened now c a =
      if not valid then none else if not opened then none else apply_options now c a

  -- The end of `TcpEndpoint::setup`: whether it schedules to open the connection again.
  pub tcp_opened : Bool → Bool → Option (Applied F) → Option (Applied F × Bool)
  tcp_opened opened retries none = none
  tcp_opened opened retries (some a) = some (a, not opened && retries)

  -- `TcpEndpoint::setup`, for the results of `validate_config` and `open`, and `_retry_timeout > 0`.
  pub tcp_setup : Bool → Bool → Bool → ℕ → Options F → Applied F → Option (Applied F × Bool)
  tcp_setup valid opened retries now c a =
      if not valid then none else tcp_opened opened retries (apply_options now c a)

  -- `UartEndpoint::setup`, for the results of `open`, `set_speed` and `set_flow_control`.
  pub uart_setup :
      Bool → Bool → Ret → List ℕ → Bool → Ret → ℕ → Options F → Applied F → Option (Applied F)
  uart_setup valid opened speed baudrates flowcontrol flow now c a =
      if not valid
      then none
      else if not opened
      then none
      else if speed_fails speed baudrates
      then none
      else if flowcontrol && is_failure flow
      then none
      else apply_options now c a
