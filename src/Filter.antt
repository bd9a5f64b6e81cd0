-- ===== src/Filter.antt =====
-- src/endpoint.h and src/endpoint.cpp: the message filters of an endpoint.
pub mod Spec
mod Tests
use mavlink_router.Prelude.{
  ℕ, Bool, true, false, ◌&&◌, ◌||◌, not, List, [], ◌∷◌, ◌++◌, ◌==◌, if◌then◌else◌, contains,
}
use mavlink_router.Message.{Msg}
use mavlink_router.Throttle.{uint32_max, is_empty}

-- The lists `_allowed_outgoing_msg_ids` to `_blocked_incoming_src_systems` of an `Endpoint`.
pub record Filters : Type 0 where
  pub allowed_outgoing_msg_ids : List ℕ
  pub blocked_outgoing_msg_ids : List ℕ
  pub allowed_outgoing_src_comps : List ℕ
  pub blocked_outgoing_src_comps : List ℕ
  pub allowed_outgoing_src_systems : List ℕ
  pub blocked_outgoing_src_systems : List ℕ
  pub allowed_incoming_msg_ids : List ℕ
  pub blocked_incoming_msg_ids : List ℕ
  pub allowed_incoming_src_comps : List ℕ
  pub blocked_incoming_src_comps : List ℕ
  pub allowed_incoming_src_systems : List ℕ
  pub blocked_incoming_src_systems : List ℕ

unfoldable pub no_filters : Filters
no_filters = record {
  allowed_outgoing_msg_ids = [];
  blocked_outgoing_msg_ids = [];
  allowed_outgoing_src_comps = [];
  blocked_outgoing_src_comps = [];
  allowed_outgoing_src_systems = [];
  blocked_outgoing_src_systems = [];
  allowed_incoming_msg_ids = [];
  blocked_incoming_msg_ids = [];
  allowed_incoming_src_comps = [];
  blocked_incoming_src_comps = [];
  allowed_incoming_src_systems = [];
  blocked_incoming_src_systems = [];
}

-- The filters of `accept_msg`, in the order of its tests: whether one of them discards the message.
pub filtered_out : Filters → Msg → Bool
filtered_out f m =
    if not (m.msg_id == uint32_max)
      && not (is_empty f.allowed_outgoing_msg_ids)
      && not (contains m.msg_id f.allowed_outgoing_msg_ids)
    then true
    else if not (m.msg_id == uint32_max)
        && not (is_empty f.blocked_outgoing_msg_ids)
        && contains m.msg_id f.blocked_outgoing_msg_ids
    then true
    else if not (m.msg_id == uint32_max)
        && not (is_empty f.allowed_outgoing_src_comps)
        && not (contains m.src_compid f.allowed_outgoing_src_comps)
    then true
    else if not (m.msg_id == uint32_max)
        && not (is_empty f.blocked_outgoing_src_comps)
        && contains m.src_compid f.blocked_outgoing_src_comps
    then true
    else if not (m.msg_id == uint32_max)
        && not (is_empty f.allowed_outgoing_src_systems)
        && not (contains m.src_sysid f.allowed_outgoing_src_systems)
    then true
    else not (m.msg_id == uint32_max)
      && not (is_empty f.blocked_outgoing_src_systems)
      && contains m.src_sysid f.blocked_outgoing_src_systems

pub allowed_by_incoming_filters : Filters → Msg → Bool
allowed_by_incoming_filters f m =
    if not (m.msg_id == uint32_max)
      && not (is_empty f.allowed_incoming_msg_ids)
      && not (contains m.msg_id f.allowed_incoming_msg_ids)
    then false
    else if not (m.msg_id == uint32_max)
        && not (is_empty f.blocked_incoming_msg_ids)
        && contains m.msg_id f.blocked_incoming_msg_ids
    then false
    else if not (is_empty f.allowed_incoming_src_comps)
        && not (contains m.src_compid f.allowed_incoming_src_comps)
    then false
    else if not (is_empty f.blocked_incoming_src_comps)
        && contains m.src_compid f.blocked_incoming_src_comps
    then false
    else if not (is_empty f.allowed_incoming_src_systems)
        && not (contains m.src_sysid f.allowed_incoming_src_systems)
    then false
    else if not (is_empty f.blocked_incoming_src_systems)
        && contains m.src_sysid f.blocked_incoming_src_systems
    then false
    else true
