-- ===== src/Handle/Echo.antt =====
-- src/endpoint.cpp, `Endpoint::handle_read`: what a message does to the endpoint that read it.
use mavlink_router.Prelude.{
  ℕ, zero, suc, ◌+◌, ◌<◌, ◌≡◌, refl, ap, ◌∙◌, inl, inr, true, some, List, [], ◌∷◌, arith, length,
  get_or, Bool-cases,
}
use mavlink_router.Message.{Msg}
use mavlink_router.Throttle.{RateOps}
use mavlink_router.Filter.{Filters, allowed_by_incoming_filters}
use mavlink_router.Dedup.{
  Dedup, PacketStatus, new_packet_or_timed_out, already_exists_in_buffer, check_packet,
}
use mavlink_router.Accept.{has_sys_comp_id}
use mavlink_router.Accept.Target.{IsAddressed, has_sys_comp_id→Knows}
use mavlink_router.Groups.{Table, ids_of}
use mavlink_router.Groups.Store.{lacking_le}
use mavlink_router.Groups.Closure.{AreMembers, add_sys_comp_id-Adds}
use mavlink_router.Router.{Endpoint, Mainloop, Answers, route_msg}
use mavlink_router.Router.Loop.{TreatsEach, route_msg_lem}
use mavlink_router.Router.Source.{Paired, route_msg_source}
use mavlink_router.Handle.{Node, ids_table, set_ids, learn, handle_msg}

module _ {Rate : Type 0} where
  length-ids_table : (es : List (Endpoint Rate)) → length (ids_table es) ≡ length es
  length-ids_table [] = refl
  length-ids_table (e ∷ es) = ap suc (length-ids_table es)

  length-set_ids : (t : Table) (es : List (Endpoint Rate)) → length (set_ids t es) ≡ length es
  unfolding set_ids
  length-set_ids t [] = refl
  length-set_ids [] (e ∷ es) = refl
  length-set_ids (ids ∷ t) (e ∷ es) = ap suc (length-set_ids t es)

  get_or-set_ids :
      (i : ℕ) (d : Endpoint Rate) (t : Table) (es : List (Endpoint Rate))
      → length t ≡ length es
      → i < length es
      → get_or (set_ids t es) i d ≡ record (get_or es i d) { sys_comp_ids = ids_of i t }
  unfolding set_ids
  get_or-set_ids i d t [] e lt = absurd (omega arith)
  get_or-set_ids i d [] (x ∷ es) e lt = absurd (omega (arith, e))
  get_or-set_ids zero d (ids ∷ t) (x ∷ es) e lt = refl
  get_or-set_ids (suc i) d (ids ∷ t) (x ∷ es) e lt =
      get_or-set_ids i d t es (omega (arith, e)) (omega (arith, lt))

  module _ (ops : RateOps Rate) (sniffer : ℕ) (m : Msg) (world : ℕ → Answers) where
    get_or-Paired :
        (place i : ℕ) (d : Endpoint Rate) (es es' : List (Endpoint Rate))
        → TreatsEach ops sniffer m world place es es'
        → i < length es
        → Paired (get_or es i d) (get_or es' i d) es es'
    get_or-Paired place i d [] es' t lt = absurd (omega arith)
    get_or-Paired place i d (x ∷ xs) [] t lt = absurd t
    get_or-Paired place zero d (x ∷ xs) (y ∷ ys) t lt = inl (refl, refl)
    get_or-Paired place (suc i) d (x ∷ xs) (y ∷ ys) t lt =
        inr (get_or-Paired (place + 1) i d xs ys t.1 (omega (arith, lt)))

  -- What `learn` makes of the endpoint.
  record Learns (members : ℕ → List ℕ) (i : ℕ) (d : Endpoint Rate) (m : Msg) (l : Mainloop Rate)
      : Type 0 where
    after : Mainloop Rate
    returns : learn members i m l ≡ some after
    size : length after.endpoints ≡ length l.endpoints
    ids : List ℕ
    changes : get_or after.endpoints i d ≡ record (get_or l.endpoints i d) { sys_comp_ids = ids }
    knows : has_sys_comp_id m.src_sysid m.src_compid ids ≡ true

  learn-Learns :
      (members : ℕ → List ℕ) (i : ℕ) (d : Endpoint Rate) (m : Msg) (l : Mainloop Rate)
      → AreMembers members m.src_sysid m.src_compid (length l.endpoints)
      → i < length l.endpoints
      → Learns members i d m l
  unfolding learn
  learn-Learns members i d m l valid lt =
      let t = ids_table l.endpoints in
      let size = length-ids_table l.endpoints in
      let a =
        add_sys_comp_id-Adds members m.src_sysid m.src_compid (suc (length l.endpoints))
          (length l.endpoints) i t valid lt size
          (omega (arith, lacking_le m.src_sysid m.src_compid t, size)) in
      record {
        after = record l { endpoints = set_ids a.after l.endpoints };
        returns = rw (learn, a.returns) refl;
        size = length-set_ids a.after l.endpoints;
        ids = ids_of i a.after;
        changes = get_or-set_ids i d a.after l.endpoints (a.size ∙ size) lt;
        knows = a.has.0;
      }

module _ {Rate : Type 0} (ops : RateOps Rate) (hash : List ℕ → ℕ) (members : ℕ → List ℕ) where
  routes_back :
      (sniffer : ℕ) (world : ℕ → Answers) (i : ℕ) (d : Endpoint Rate) (m : Msg) (l : Mainloop Rate)
      → IsAddressed m
      → i < length l.endpoints
      → has_sys_comp_id m.src_sysid m.src_compid (get_or l.endpoints i d).sys_comp_ids ≡ true
      → get_or (route_msg ops sniffer world m l).endpoints i d ≡ get_or l.endpoints i d
  routes_back sniffer world i d m l a lt known =
      route_msg_source ops sniffer m world l (get_or l.endpoints i d)
        (get_or (route_msg ops sniffer world m l).endpoints i d) a
        (has_sys_comp_id→Knows m.src_sysid m.src_compid (get_or l.endpoints i d).sys_comp_ids
          a.from_sysid a.from_compid known)
        (get_or-Paired ops sniffer m world 0 i d l.endpoints _
          (route_msg_lem ops sniffer m world l).0 lt)

  -- Once the filter for duplicates has given its answer, an endpoint handles a message that it has read to
  -- the end: the spread of the sender's address ends, and so does the routing. Of the endpoint itself
  -- nothing changes but its addresses: whatever its targets are, the message is neither written to nor
  -- cached for the endpoint that it came from. The addresses in the message are bytes, and the endpoint
  -- and the members of the groups are among those of the main loop.
  pub handle_msg_lem :
      (sniffer : ℕ) (world : ℕ → Answers) (now i : ℕ) (f : Filters) (m : Msg) (n : Node Rate)
      (d : Endpoint Rate) (status : PacketStatus) (dedup : Dedup)
      → check_packet hash now m.bytes n.dedup ≡ some (status, dedup)
      → AreMembers members m.src_sysid m.src_compid (length n.loop.endpoints)
      → i < length n.loop.endpoints
      → IsAddressed m
      → (n' : Node Rate) × (handle_msg ops hash members sniffer world now i f m n ≡ some n')
        × (n'.dedup ≡ dedup)
        × (ids : List ℕ) × (get_or n'.loop.endpoints i d
            ≡ record (get_or n.loop.endpoints i d) { sys_comp_ids = ids })
  unfolding handle_msg
  handle_msg_lem sniffer world now i f m n d already_exists_in_buffer dedup e valid lt a =
      let k = learn-Learns members i d m n.loop valid lt in
      (
        record { dedup = dedup; loop = k.after },
        rw (handle_msg, e, k.returns) refl,
        refl,
        k.ids,
        k.changes,
      )
  handle_msg_lem sniffer world now i f m n d new_packet_or_timed_out dedup e valid lt a =
      let k = learn-Learns members i d m n.loop valid lt in
      elim (Bool-cases (allowed_by_incoming_filters f m)) [
        | inl pass ↦ (
          record { dedup = dedup; loop = route_msg ops sniffer world m k.after },
          rw (handle_msg, e, pass, k.returns) refl,
          refl,
          k.ids,
          routes_back sniffer world i d m k.after a (omega (arith, k.size, lt))
                (rw k.changes k.knows)
              ∙ k.changes,
        )
        | inr stop ↦ (
          record { dedup = dedup; loop = n.loop },
          rw (handle_msg, e, stop) refl,
          refl,
          (get_or n.loop.endpoints i d).sys_comp_ids,
          refl,
        )
      ]
