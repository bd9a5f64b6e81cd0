-- ===== src/Handle.antt =====
-- src/endpoint.cpp, `Endpoint::handle_read`: what an endpoint does with a message that it has read; and
-- `Mainloop::dedup_check_msg`.
pub mod Echo
mod Tests
use mavlink_router.Prelude.{
  ℕ, zero, suc, Bool, true, false, not, Option, none, some, List, [], ◌∷◌, map, length, get_or,
  if◌then◌else◌,
}
use mavlink_router.Message.{Msg}
use mavlink_router.Throttle.{RateOps}
use mavlink_router.Filter.{Filters, allowed_by_incoming_filters}
use mavlink_router.Dedup.{
  Dedup, PacketStatus, new_packet_or_timed_out, already_exists_in_buffer, check_packet,
}
use mavlink_router.Groups.{Table, add_sys_comp_id}
use mavlink_router.Router.{Endpoint, Mainloop, Answers, route_msg}

-- The state that a message changes: the filter for duplicates and the main loop.
pub record Node (Rate : Type 0) : Type 0 where
  pub dedup : Dedup
  pub loop : Mainloop Rate

module _ {Rate : Type 0} where
  abbrev pub ids_table : List (Endpoint Rate) → Table
  ids_table es = map (λ e. e.sys_comp_ids) es

  pub set_ids : Table → List (Endpoint Rate) → List (Endpoint Rate)
  set_ids t [] = []
  set_ids [] (e ∷ es) = e ∷ es
  set_ids (ids ∷ t) (e ∷ es) = record e { sys_comp_ids = ids } ∷ set_ids t es

  -- `_add_sys_comp_id` of the endpoint `i` with the source of the message.
  pub learn : (ℕ → List ℕ) → ℕ → Msg → Mainloop Rate → Option (Mainloop Rate)
  learn members i m l =
      elim (add_sys_comp_id members (suc (length l.endpoints)) m.src_sysid m.src_compid i
        (ids_table l.endpoints)) [
          | none ↦ none
          | some t ↦ some (record l { endpoints = set_ids t l.endpoints })
        ]

module _ {Rate : Type 0} (ops : RateOps Rate) (hash : List ℕ → ℕ) (members : ℕ → List ℕ) where
  -- One turn of the loop in `handle_read`, at the time `now`, of the endpoint `i` with the filters `f`.
  -- `none` stands for an erasure of a hash that is not there, or for fuel that was not enough.
  pub handle_msg : ℕ → (ℕ → Answers) → ℕ → ℕ → Filters → Msg → Node Rate → Option (Node Rate)
  handle_msg sniffer world now i f m n = elim (check_packet hash now m.bytes n.dedup) [
    | none ↦ none
    | some (status, dedup) ↦ elim status [
      | already_exists_in_buffer ↦ elim (learn members i m n.loop) [
        | none ↦ none
        | some loop ↦ some (record { dedup = dedup; loop = loop })
      ]
      | new_packet_or_timed_out ↦
          if not (allowed_by_incoming_filters f m)
          then some (record { dedup = dedup; loop = n.loop })
          else elim (learn members i m n.loop) [
            | none ↦ none
            | some loop ↦ some (record { dedup = dedup; loop = route_msg ops sniffer world m loop })
          ]
    ]
  ]
