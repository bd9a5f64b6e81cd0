-- ===== src/Setup/Outcome.antt =====
-- src/endpoint.cpp, `setup`: what an endpoint has of its configuration afterwards.
use mavlink_router.Prelude.{ℕ, ◌%◌, ◌^◌, ◌≡◌, Bool, true, false, Option, none, some, contains}
use mavlink_router.Throttle.{RateOps}
use mavlink_router.Setup.{Options, Applied, IdOps}
use mavlink_router.Setup.Rates.{rate_of, last_rate}

module _ {F : Type 0} (ops : RateOps F) (ids : IdOps F) where
  -- An endpoint has what a configuration says: its filters, its group, its coalescing, for each id the rate
  -- of the last pair for it, if there is one, and the ids to be cached.
  pub record HasOptions (c : Options F) (a : Applied F) : Type 0 where
    pub filters : a.filters ≡ c.filters
    pub group : a.group_name ≡ c.group
    pub coalesces : (a.coalesce_bytes ≡ c.coalesce_bytes % 2 ^ 32) × (a.coalesce_ms ≡ c.coalesce_ms)
    pub nodelays : (id : ℕ) → contains id a.coalesce_nodelay ≡ contains id c.coalesce_nodelay
    pub rates :
        (id : ℕ) → rate_of ops ids id a.throttle ≡ last_rate ops ids id c.message_throttling none
    pub caches : (id : ℕ) → contains id a.throttle_cache_ids ≡ contains id c.throttle_cache

  -- What `setup` makes of a new endpoint: `ok` says whether it returns true.
  pub data Verdict (ok : Bool) (c : Options F) : Option (Applied F) → Type 0 where
    refused : ok ≡ false → Verdict ok c none
    configured : (a : Applied F) → ok ≡ true → HasOptions c a → Verdict ok c (some a)

  -- The endpoint that `TcpEndpoint::setup` leaves, if it returns true.
  abbrev pub endpoint_of : Option (Applied F × Bool) → Option (Applied F)
  endpoint_of none = none
  endpoint_of (some (a, retries)) = some a
