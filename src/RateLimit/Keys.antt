-- ===== src/RateLimit/Keys.antt =====
-- The budgets of two keys (ratelimit/ratelimit.go).
use money_miner.Base.{ℕ, ◌+◌, ◌≡◌, ◌≢◌, ◌≤◌, arith, length}
use money_miner.Base.Map.{lookup, lookup-insert}
use money_miner.RateLimit.{Buckets, Limiter, allow_key, evict, eviction, max_keys}

module _ (buckets : Buckets) where
  -- Where the map is not dropped, a request under one key leaves the bucket of every other key as it
  -- was.
  allow_key_other :
      (now key other : ℕ) (l : Limiter buckets)
      → key ≢ other
      → length l.m ≤ max_keys
      → now ≤ l.last + eviction
      → lookup other (allow_key buckets now key l).1.m ≡ lookup other l.m
  unfolding allow_key evict
  allow_key_other now key other l ne few recent = grind (arith, lookup-insert)
