-- ===== src/Dedup.antt =====
-- src/dedup.cpp and src/dedup.h: the de-duplication of packets by their hash.
pub mod Window
pub mod Refine
mod Tests
use mavlink_router.Prelude.{
  ℕ, ◌+◌, ◌%◌, ◌^◌, Bool, true, false, Option, none, some, List, [], ◌∷◌, ◌++◌, ltb, ◌==◌,
  if◌then◌else◌, contains,
}

-- The queue is `_time_hash_queue`, front first; the list is the content of `_packet_hash_set`.
pub record DedupImpl : Type 0 where
  pub queue : List (ℕ × ℕ)
  pub hashes : List ℕ

pub empty : DedupImpl
empty = record { queue = []; hashes = [] }

-- `set.erase(set.find(h))`; `none` is the erasure of `end()`, whose effect C++ leaves undefined.
pub erase_found : ℕ → List ℕ → Option (List ℕ)
erase_found h [] = none
erase_found h (x ∷ xs) =
    if x == h then some xs else elim (erase_found h xs) [ none ↦ none | some ys ↦ some (x ∷ ys) ]

-- The loop that pops the entries whose time has passed. Times are `uint64_t`.
pub expire : ℕ → ℕ → List (ℕ × ℕ) → List ℕ → Option DedupImpl
expire now period [] hashes = some (record { queue = []; hashes = hashes })
expire now period ((time, hash) ∷ queue) hashes =
    let popped : Option DedupImpl = elim (erase_found hash hashes) [
      | none ↦ none
      | some rest ↦ expire now period queue rest
    ] in
    if ltb ((time + period) % 2 ^ 64) now
    then popped
    else some (record { queue = (time, hash) ∷ queue; hashes = hashes })

-- The set keeps the order of insertion here; nothing but membership is read from it.
pub remember : ℕ → ℕ → DedupImpl → Bool × DedupImpl
remember now hash d =
    if contains hash d.hashes
    then (false, d)
    else (true, record { queue = d.queue ++ ((now, hash) ∷ []); hashes = d.hashes ++ (hash ∷ []) })

-- `DedupImpl::check_packet` at the time `now`, on a packet with this hash.
pub check_hash : ℕ → ℕ → ℕ → DedupImpl → Option (Bool × DedupImpl)
check_hash now period hash d = elim (expire now period d.queue d.hashes) [
  | none ↦ none
  | some e ↦ some (remember now hash e)
]

pub data PacketStatus : Type 0 where
  new_packet_or_timed_out already_exists_in_buffer : PacketStatus

pub record Dedup : Type 0 where
  pub period : ℕ
  pub impl : DedupImpl

pub set_dedup_period : ℕ → Dedup → Dedup
set_dedup_period period d = record d { period = period }

-- `std::hash<std::string>` is a parameter.
module _ (hash : List ℕ → ℕ) where
  unfoldable pub check_packet : ℕ → List ℕ → Dedup → Option (PacketStatus × Dedup)
  check_packet now packet d =
      if d.period == 0
      then some (new_packet_or_timed_out, d)
      else elim (check_hash now d.period (hash packet) d.impl) [
        | none ↦ none
        | some (fresh, impl) ↦ some (
          if fresh then new_packet_or_timed_out else already_exists_in_buffer,
          record d { impl = impl },
        )
      ]

  -- The packets arrive in this order, each with the time at which it is checked.
  pub check_all : Dedup → List (ℕ × List ℕ) → Option (List PacketStatus)
  check_all d [] = some []
  check_all d ((now, packet) ∷ rest) = elim (check_packet now packet d) [
    | none ↦ none
    | some (status, d') ↦ elim (check_all d' rest) [
      | none ↦ none
      | some statuses ↦ some (status ∷ statuses)
    ]
  ]
