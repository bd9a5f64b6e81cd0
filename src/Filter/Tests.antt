-- ===== src/Filter/Tests.antt =====
-- The filters at concrete lists.
use mavlink_router.Prelude.{◌≡◌, refl, ◌↔◌, true, false, none, [], ◌∷◌}
use mavlink_router.Message.{Msg}
use mavlink_router.Filter.{Filters, no_filters, filtered_out}
use mavlink_router.Filter.Spec.{PassesOutgoing, filtered_out_iff}

abbrev heartbeat : Msg
heartbeat = record {
  bytes = 0 ∷ [];
  msg_id = 0;
  target_sysid = none;
  target_compid = none;
  src_sysid = 1;
  src_compid = 1;
  payload_len = 9;
  payload_ofs = 6;
}

abbrev filters : Filters
filters = record no_filters {
  blocked_outgoing_msg_ids = 0 ∷ [];
  allowed_incoming_src_systems = 1 ∷ [];
}

heartbeat_blocked : filtered_out filters heartbeat ≡ true
unfolding filtered_out no_filters
heartbeat_blocked = refl

filtered_out_iff_example :
    (filtered_out filters heartbeat ≡ false) ↔ PassesOutgoing filters heartbeat
filtered_out_iff_example = filtered_out_iff filters heartbeat
