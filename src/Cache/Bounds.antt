-- ===== src/Cache/Bounds.antt =====
-- src/endpoint.cpp, `Endpoint::cache_msg`: how large the cache grows, and what it keeps.
use mavlink_router.Prelude.{
  ℕ, ◌+◌, ◌%◌, ◌^◌, ◌≤◌, ◌<◌, ◌≡◌, refl, inl, inr, ◌&&◌, List, [], ◌∷◌, ◌++◌, arith, ltb, leb, ◌==◌,
  if◌then◌else◌, length-append, Bool-cases,
}
use mavlink_router.Message.{Msg}
use mavlink_router.Cache.{MsgCache, msg_cache_max_size, cache_size, append_msg, Cached, cache_msg}

-- The messages of an id that are held back, oldest first.
pub queue_of : ℕ → MsgCache → List Msg
queue_of id [] = []
queue_of id ((j, queue) ∷ rest) = if j == id then queue else queue_of id rest

-- The keys rise, from `lo` on, as they do in a `std::map`.
abbrev pub Rises : ℕ → MsgCache → Type 0
Rises lo [] = Unit
Rises lo ((id, queue) ∷ rest) = (lo ≤ id) × Rises (id + 1) rest

cache_size-append_msg :
    (id : ℕ) (m : Msg) (cache : MsgCache)
    → cache_size (append_msg id m cache) ≡ cache_size cache + 1
unfolding cache_size append_msg
cache_size-append_msg id m [] = omega arith
cache_size-append_msg id m ((j, queue) ∷ rest) =
    ground (arith, cache_size-append_msg id m rest, length-append queue (m ∷ []))

queue_of_below : (lo id : ℕ) (cache : MsgCache) → Rises lo cache → id < lo → queue_of id cache ≡ []
unfolding queue_of
queue_of_below lo id [] r h = refl
queue_of_below lo id ((j, queue) ∷ rest) r h = ground (arith, queue_of_below (j + 1) id rest r.1)

queue_of-append_msg :
    (lo id j : ℕ) (m : Msg) (cache : MsgCache)
    → Rises lo cache
    → queue_of j (append_msg id m cache)
      ≡ (if id == j then queue_of j cache ++ (m ∷ []) else queue_of j cache)
unfolding queue_of append_msg
queue_of-append_msg lo id j m [] r = ground arith
queue_of-append_msg lo id j m ((i, queue) ∷ rest) r = ground (
  arith,
  queue_of-append_msg (i + 1) id j m rest r.1,
  queue_of_below (i + 1) id rest r.1,
  queue_of_below (i + 1) j rest r.1,
)

append_msg-Rises :
    (lo id : ℕ) (m : Msg) (cache : MsgCache)
    → Rises lo cache
    → lo ≤ id
    → Rises lo (append_msg id m cache)
unfolding append_msg
append_msg-Rises lo id m [] r h = (h, tt)
append_msg-Rises lo id m ((j, queue) ∷ rest) r h = elim (Bool-cases (ltb id j)) [
  | inl below ↦ rw below (h, (ground arith, r.1))
  | inr above ↦ rw above (elim (Bool-cases (j == id)) [
    | inl same ↦ rw same (r.0, r.1)
    | inr other ↦ rw other (r.0, append_msg-Rises (j + 1) id m rest r.1 (ground arith))
  ])
]

-- The cache of an endpoint: its ids are those of a map, and it holds no more than
-- `MSG_CACHE_MAX_SIZE` messages.
pub record IsBounded (c : Cached) : Type 0 where
  pub rises : Rises 0 c.cache
  pub within : cache_size c.cache ≤ msg_cache_max_size

-- A message that is to be held back joins the end of the queue of its id, and no other queue changes,
-- while fewer than `MSG_CACHE_MAX_SIZE` are held; else it is counted as dropped (modulo 2^32), and
-- every queue stays as it is. Either way the cache keeps its bound.
pub cache_msg_lem :
    (m : Msg) (c : Cached)
    → IsBounded c
    → let c' = cache_msg m c in
      let room = ltb (cache_size c.cache) msg_cache_max_size in
      IsBounded c'
      × ((id : ℕ)
          → queue_of id c'.cache ≡ (
              if room && (m.msg_id == id)
              then queue_of id c.cache ++ (m ∷ [])
              else queue_of id c.cache))
      × (c'.dropped ≡ (if room then c.dropped else (c.dropped + 1) % 2 ^ 32))
unfolding cache_msg
cache_msg_lem m c b = elim (Bool-cases (leb msg_cache_max_size (cache_size c.cache))) [
  | inl full ↦
      rw full (record { rises = b.rises; within = b.within }, λ id. ground arith, ground arith)
  | inr room ↦ rw room (
    record {
      rises = append_msg-Rises 0 m.msg_id m c.cache b.rises (omega arith);
      within = ground (arith, cache_size-append_msg m.msg_id m c.cache);
    },
    λ id. ground (arith, queue_of-append_msg 0 m.msg_id id m c.cache b.rises),
    ground arith,
  )
]
