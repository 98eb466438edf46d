-- ===== src/RateLimit.antt =====
-- The keyed limiter (money-miner-backend/internal/ratelimit/ratelimit.go) over the token bucket of
-- golang.org/x/time/rate, which is a parameter.
pub mod Keys
use money_miner.Base.{
  ℕ, ◌+◌, ◌*◌, Bool, true, false, ◌||◌, Option, none, some, List, [], ◌∷◌, ltb, ◌==◌, length,
  if◌then◌else◌, Text, is_empty, trim_space,
}
use money_miner.Base.Map.{lookup, insert}

-- A bucket that starts full, and `rate.Limiter.Allow` at a time: the answer and the bucket after it.
pub record Buckets : Type 1 where
  pub Bucket : Type 0
  pub full : (now : ℕ) → Bucket
  pub allow : (now : ℕ) → Bucket → Bool × Bucket

abbrev pub max_keys : ℕ
max_keys = 10000

-- Ten minutes, in seconds.
abbrev pub eviction : ℕ
eviction = 10 * 60

module _ (buckets : Buckets) where
  open buckets use {Bucket, full, allow}

  -- A key is a number, as an id is.
  pub record Limiter : Type 0 where
    pub m : List (ℕ × Bucket)
    pub last : ℕ

  -- Every so often the whole map is dropped.
  unfoldable pub evict : (now : ℕ) → Limiter → Limiter
  evict now l =
      if ltb max_keys (length l.m) || ltb (l.last + eviction) now
      then record { m = []; last = now }
      else l

  abbrev bucket_or_full : (now : ℕ) → Option Bucket → Bucket
  bucket_or_full now none = full now
  bucket_or_full now (some b) = b

  -- `Allow`
  unfoldable pub allow_key : (now key : ℕ) → Limiter → Bool × Limiter
  unfolding evict
  allow_key now key l =
      let l' = evict now l in
      let (ok, b) = allow now (bucket_or_full now (lookup key l'.m)) in
      (ok, record l' { m = insert key b l'.m })

-- The text before the first comma.
unfoldable until_comma : Text → Text
until_comma [] = []
until_comma (c ∷ s) = let rest = until_comma s in if c == b',' then [] else c ∷ rest

-- `ClientIP`: `forwarded` is the header X-Forwarded-For, and `host` what net.SplitHostPort gives of
-- the remote address.
unfoldable pub client_ip : (forwarded remote : Text) → (host : Option Text) → Text
unfolding until_comma
client_ip [] remote none = remote
client_ip [] remote (some h) = h
client_ip (c ∷ s) remote host = trim_space (until_comma (c ∷ s))
