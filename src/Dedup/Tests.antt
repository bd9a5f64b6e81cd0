-- ===== src/Dedup/Tests.antt =====
-- The packet filter at concrete inputs.
use mavlink_router.Prelude.{ℕ, ◌+◌, ◌≡◌, refl, some, List, [], ◌∷◌, arith}
use mavlink_router.Dedup.{
  empty, check_all, check_packet, check_hash, expire, erase_found, remember,
  new_packet_or_timed_out, already_exists_in_buffer, PacketStatus,
}
use mavlink_router.Dedup.Refine.{reference_all, check_all-refines}

abbrev sum : List ℕ → ℕ
sum [] = 0
sum (x ∷ xs) = x + sum xs

abbrev packets : List (ℕ × List ℕ)
packets = (10, 1 ∷ 2 ∷ []) ∷ (15, 1 ∷ 2 ∷ []) ∷ (30, 3 ∷ []) ∷ (31, 1 ∷ 2 ∷ []) ∷ []

abbrev verdicts : List PacketStatus
verdicts =
    new_packet_or_timed_out ∷ already_exists_in_buffer ∷ new_packet_or_timed_out
    ∷ already_exists_in_buffer ∷ []

check_all_runs : check_all sum (record { period = 10; impl = empty }) packets ≡ some verdicts
unfolding check_all check_packet check_hash expire erase_found remember empty
check_all_runs = refl

check_all-refines_example :
    check_all sum (record { period = 10; impl = empty }) packets
    ≡ some (reference_all sum 10 [] packets)
check_all-refines_example =
    check_all-refines sum 10 31 packets (omega arith) (omega arith) (omega arith)
