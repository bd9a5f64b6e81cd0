-- ===== src/Cache.antt =====
-- src/endpoint.cpp and src/endpoint.h: the cache of messages that the throttling holds back,
-- `Endpoint::cache_msg`, `resend_queued_msgs`, `next_resend_deadline` and `resend_cached_msgs`.
pub mod Bounds
pub mod Order
pub mod Deadline
mod Tests
use mavlink_router.Prelude.{
  ℕ, ◌+◌, ◌^◌, ◌%◌, ◌≡◌, Bool, true, false, ◌||◌, not, Option, none, some, List, [], ◌∷◌, ◌++◌, map,
  min, ltb, leb, ◌==◌, if◌then◌else◌, length, lookup,
}
use mavlink_router.Os.{Ret, count, failed, is_failure, is_zero, is_eagain, is_enobufs, is_epipe}
use mavlink_router.Message.{Msg}
use mavlink_router.Throttle.{
  RateOps, ThrottleMap, is_empty, should_throttle_msg, update_throttle_info,
}

-- `_msg_cache`: the queue of each id, by rising id. A `std::deque` is a list, front first.
abbrev pub MsgCache : Type 0
MsgCache = List (ℕ × List Msg)

abbrev pub msg_cache_max_size : ℕ
msg_cache_max_size = 2048

pub cache_size : MsgCache → ℕ
cache_size [] = 0
cache_size ((id, queue) ∷ rest) = length queue + cache_size rest

-- `_msg_cache[id].emplace_back(m)`
pub append_msg : ℕ → Msg → MsgCache → MsgCache
append_msg id m [] = (id, m ∷ []) ∷ []
append_msg id m ((j, queue) ∷ rest) =
    if ltb id j
    then (id, m ∷ []) ∷ (j, queue) ∷ rest
    else if j == id
    then (j, queue ++ (m ∷ [])) ∷ rest
    else (j, queue) ∷ append_msg id m rest

pub record Cached : Type 0 where
  pub cache : MsgCache
  pub dropped : ℕ

pub cache_msg : Msg → Cached → Cached
cache_msg m c =
    if leb msg_cache_max_size (cache_size c.cache)
    then record c { dropped = (c.dropped + 1) % 2 ^ 32 }
    else record c { cache = append_msg m.msg_id m c.cache }

-- `next_resend_deadline`: the longest and the shortest time point stand for `none` and 0. A queue
-- whose id has no rate is due at once.
pub next_resend_deadline : {Rate : Type 0} → ThrottleMap Rate → MsgCache → Option ℕ
next_resend_deadline throttle [] = none
next_resend_deadline throttle ((id, queue) ∷ rest) = elim (lookup id throttle) [
  | none ↦ some 0
  | some info ↦ elim (next_resend_deadline throttle rest) [
    | none ↦ some info.next_timestamp
    | some later ↦ some (min info.next_timestamp later)
  ]
]

-- What the cache needs of its endpoint: `write_msg`, which each kind of endpoint defines, `fd >= 0`,
-- and the clock, whose readings move on with the state.
pub record Link (S : Type 0) : Type 0 where
  pub write_msg : Msg → S → Ret × S
  pub is_open : S → Bool
  pub read_clock : S → ℕ × S

pub record Resending (Rate S : Type 0) : Type 0 where
  pub result : Ret
  pub queue : List Msg
  pub throttle : ThrottleMap Rate
  pub link_state : S

-- `kept` is what is left of the queues. After `cleared` the whole cache is emptied. `armed` asks for
-- EPOLLOUT, and `hangup` sets `should_process_tcp_hangups`.
pub record Resent (Rate S : Type 0) : Type 0 where
  pub kept : MsgCache
  pub throttle : ThrottleMap Rate
  pub link_state : S
  pub cleared : Bool
  pub armed : Bool
  pub hangup : Bool

-- A drained queue is dropped.
abbrev pub keep_queue : ℕ → List Msg → MsgCache → MsgCache
keep_queue id [] rest = rest
keep_queue id (m ∷ queue) rest = (id, m ∷ queue) ∷ rest

module _ {Rate S : Type 0} (ops : RateOps Rate) (link : Link S) where
  -- `resend_queued_msgs`, with the queue that it leaves.
  pub resend_queued_msgs : ℕ → List Msg → ThrottleMap Rate → S → Resending Rate S
  resend_queued_msgs id [] throttle s = record {
    result = count 0;
    queue = [];
    throttle = throttle;
    link_state = s;
  }
  resend_queued_msgs id (m ∷ queue) throttle s =
      let (before, s₁) = link.read_clock s in
      let (r, s₂) = link.write_msg m s₁ in
      let (after, s₃) = link.read_clock s₂ in
      let throttle' = update_throttle_info ops after id throttle in
      let rest = resend_queued_msgs id queue throttle' s₃ in
      if should_throttle_msg ops before id throttle
      then record { result = count 0; queue = m ∷ queue; throttle = throttle; link_state = s₁ }
      else if not (link.is_open s₂)
      then record { result = r; queue = m ∷ queue; throttle = throttle; link_state = s₂ }
      else if is_enobufs r
      then record { result = r; queue = m ∷ queue; throttle = throttle; link_state = s₂ }
      else if is_failure r
      then record { result = r; queue = queue; throttle = throttle'; link_state = s₃ }
      else rest

  -- The loop of `resend_cached_msgs` over the queues.
  pub resend_queues : MsgCache → ThrottleMap Rate → S → Resent Rate S
  resend_queues [] throttle s = record {
    kept = [];
    throttle = throttle;
    link_state = s;
    cleared = false;
    armed = false;
    hangup = false;
  }
  resend_queues ((id, queue) ∷ rest) throttle s =
      let q = resend_queued_msgs id queue throttle s in
      let onward = resend_queues rest q.throttle q.link_state in
      if not (link.is_open q.link_state)
      then record {
        kept = [];
        throttle = q.throttle;
        link_state = q.link_state;
        cleared = true;
        armed = false;
        hangup = is_epipe q.result;
      }
      else if is_zero q.result
      then record onward { kept = keep_queue id q.queue onward.kept }
      else record {
        kept = keep_queue id q.queue rest;
        throttle = q.throttle;
        link_state = q.link_state;
        cleared = false;
        armed = is_eagain q.result || is_enobufs q.result;
        hangup = is_epipe q.result;
      }

  unfoldable pub resend_cached_msgs : MsgCache → ThrottleMap Rate → S → Resent Rate S
  resend_cached_msgs cache throttle s =
      let nothing : Resent Rate S = record {
        kept = [];
        throttle = throttle;
        link_state = s;
        cleared = false;
        armed = false;
        hangup = false;
      } in
      let r = resend_queues cache throttle s in
      if is_empty cache
      then nothing
      else if not (link.is_open s)
      then nothing
      else if r.cleared
      then record r { kept = [] }
      else r
