-- ===== src/Dedup/Refine.antt =====
-- src/dedup.cpp, `Dedup::check_packet`, over a whole sequence of packets.
use mavlink_router.Prelude.{
  ℕ, ◌+◌, ◌^◌, ◌≤◌, ◌<◌, ◌≡◌, refl, ◌≢◌, Bool, some, List, [], ◌∷◌, map, arith, if◌then◌else◌,
}
use mavlink_router.Dedup.{
  DedupImpl, empty, check_hash, PacketStatus, new_packet_or_timed_out, already_exists_in_buffer,
  Dedup, check_packet, check_all, remember,
}
use mavlink_router.Dedup.Window.{
  Ascends, Ascends-le, History, reference, IsView, expire-IsView, remember-IsView,
}

abbrev verdict : Bool → PacketStatus
verdict fresh = if fresh then new_packet_or_timed_out else already_exists_in_buffer

-- What a filter that never forgets says of the packets.
pub reference_all : (List ℕ → ℕ) → ℕ → History → List (ℕ × List ℕ) → List PacketStatus
reference_all hash period past [] = []
reference_all hash period past ((now, packet) ∷ rest) =
    let (fresh, past') = reference now period (hash packet) past in
    verdict fresh ∷ reference_all hash period past' rest

check_hash-IsView :
    {before now period : ℕ} {past : History} (hash : ℕ) (d : DedupImpl)
    → IsView before period past d
    → before ≤ now
    → now + period < 2 ^ 64
    → let (fresh, past') = reference now period hash past in
      (impl : DedupImpl) × (check_hash now period hash d ≡ some (fresh, impl))
      × IsView now period past' impl
unfolding check_hash
check_hash-IsView {before} {now} {period} {past} hash d v later fits =
    let (e, expired, w) = expire-IsView d v later fits in
    let (same, w') = remember-IsView hash e w in ((remember now hash e).1, ground arith, w')

module _ (hash : List ℕ → ℕ) where
  -- One packet: the verdict of the reference, and a state that still views its history.
  pub check_packet-IsView :
      {before now : ℕ} {past : History} (packet : List ℕ) (d : Dedup)
      → IsView before d.period past d.impl
      → d.period ≢ 0
      → before ≤ now
      → now + d.period < 2 ^ 64
      → let (fresh, past') = reference now d.period (hash packet) past in
        (impl : DedupImpl) × (check_packet hash now packet d
          ≡ some (verdict fresh, record d { impl = impl }))
        × IsView now d.period past' impl
  unfolding check_packet
  check_packet-IsView packet d v on later fits =
      let (impl, checked, w) = check_hash-IsView (hash packet) d.impl v later fits in
      (impl, ground arith, w)

  check_all-reference :
      (before last : ℕ) (past : History) (d : Dedup) (packets : List (ℕ × List ℕ))
      → IsView before d.period past d.impl
      → d.period ≢ 0
      → Ascends before last packets
      → last + d.period < 2 ^ 64
      → check_all hash d packets ≡ some (reference_all hash d.period past packets)
  unfolding check_all reference_all
  check_all-reference before last past d [] v on a fits = refl
  check_all-reference before last past d ((now, packet) ∷ rest) v on a fits =
      let within : now ≤ last = Ascends-le now last rest a.1 in
      let (impl, checked, w) = check_packet-IsView packet d v on a.0 (omega arith) in
      let later = check_all-reference now last _ (record d { impl = impl }) rest w on a.1 fits in
      rw (checked, check_all) (rw (later, check_all))

  -- With a period above 0, a new filter gives every packet of a sequence in order of time the verdict
  -- of a filter that remembers all it let through: a packet is a duplicate exactly when one with its
  -- hash was let through at most the period before. It never erases a hash that its set lacks. The
  -- clock plus the period has to stay below 2^64.
  pub check_all-refines :
      (period last : ℕ) (packets : List (ℕ × List ℕ))
      → period ≢ 0
      → Ascends 0 last packets
      → last + period < 2 ^ 64
      → check_all hash (record { period = period; impl = empty }) packets
        ≡ some (reference_all hash period [] packets)
  unfolding empty
  check_all-refines period last packets on a fits =
      check_all-reference 0 last [] (record { period = period; impl = empty }) packets
        (record { ordered = omega arith; queued = refl; in_step = refl }) on a fits

  -- With the period 0 every packet is let through, and the filter stores nothing.
  pub check_all_disabled :
      (impl : DedupImpl) (packets : List (ℕ × List ℕ))
      → check_all hash (record { period = 0; impl = impl }) packets
        ≡ some (map (λ _. new_packet_or_timed_out) packets)
  unfolding check_all check_packet
  check_all_disabled impl [] = refl
  check_all_disabled impl ((now, packet) ∷ rest) = rw (check_all_disabled impl rest)
