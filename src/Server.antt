-- ===== src/Server.antt =====
-- The router of the API (money-miner-backend/internal/api/server.go): which requests reach which
-- handler, behind the token check and the rate limits, and the cross-origin headers. Paths and bodies
-- are taken apart already; a request comes as the route that it matches.
pub mod Serve
pub mod Guarded
pub mod Steps
use money_miner.Base.{
  ℕ, Bool, true, false, ◌&&◌, ◌||◌, not, Option, none, some, List, [], ◌∷◌, if◌then◌else◌, Text,
  text_eq, is_empty,
}
use money_miner.Base.Int.{ℤ}
use money_miner.Auth.{Jwt, Validator, Claims, middleware}
use money_miner.RateLimit.{Buckets, Limiter, allow_key, client_ip}
use money_miner.Swarm.Codes.{Crypto}
use money_miner.Swarm.Hub.State.{Hub}
use money_miner.Api.Pool.{Net}
use money_miner.Api.Response.{Response, success, failure}
use money_miner.Api.Wallets.{CreateWalletReq}
use money_miner.Api.Miners.{PatchMinerReq}
use money_miner.Api.Miners.Create.{CreateMinerReq}
use money_miner.Api.Settings.{CurrencySettingReq}
use money_miner.Api.Public.{EnrollReq}

-- The authenticated routes but for GET /v1/events, which works on the broker only (the module
-- Events.Stream), with the path values and the decoded bodies. A body that does not
-- decode is none.
pub data Call : Type 0 where
  list_currencies : Call
  get_currency : (symbol : Text) → Call
  list_wallets : Call
  create_wallet : Option CreateWalletReq → Call
  delete_wallet : (id : ℕ) → Call
  list_miners : Call
  create_miner : Option CreateMinerReq → Call
  get_miner : (id : ℕ) → Call
  patch_miner : (id : ℕ) → Option PatchMinerReq → Call
  delete_miner : (id : ℕ) → Call
  start_miner : (id : ℕ) → Call
  stop_miner : (id : ℕ) → Call
  miner_allocation : (id : ℕ) → Option (ℤ × ℤ) → Call
  miner_history : (id : ℕ) → (is_raw : Bool) → (from to : Option ℕ) → Call
  miner_metrics : (id : ℕ) → (limit : Text) → Call
  list_workers : Call
  get_worker : (id : ℕ) → Call
  revoke_worker : (id : ℕ) → Call
  delete_worker : (id : ℕ) → Call
  list_join_codes : Call
  create_join_code : (bytes : Option (List ℕ)) → (salt : ℕ) → Call
  delete_join_code : (id : ℕ) → Call
  swarm_stats : Call
  list_payouts : (currency limit offset : Text) → Call
  list_blocks_found : Call
  list_settings : Call
  put_setting : (key : Text) → (value : Option Text) → Call
  list_currency_settings : Call
  put_currency_setting : (symbol : Text) → Option CurrencySettingReq → Call
  list_exchange_settings : Call
  put_exchange_setting : (exchange : Text) → Option (List Text × Text) → Call

-- A request: the public routes, with what ClientIP reads, and the authenticated ones, with the
-- Authorization header and what a fetch of the realm's keys would give.
pub data Request (jwt : Jwt) : Type 0 where
  healthz : Request jwt
  enroll :
      (forwarded remote : Text)
      → (host : Option Text) → (bytes : Option Text) → Option EnrollReq
      → Request jwt
  join_info : (forwarded remote : Text) → (host : Option Text) → (code : Text) → Request jwt
  authed : (header : Text) → (fetched : Option (List (Text × jwt.Key))) → Call → Request jwt

-- What the server works with: the configuration, and the parameters of its parts. `sub_id` and
-- `ip_id` number the subjects and the addresses.
pub record Env : Type 0 where
  pub crypto : Crypto
  pub net : Net
  pub writable : ℕ → Bool
  pub encrypt : Text → Text → Text
  pub jsonb : Text → Option Text
  pub sub_text : ℕ → Text
  pub sub_id : Text → ℕ
  pub ip_id : Text → ℕ
  pub public_url : Text
  pub key_salt : Text
  pub allow_simulated : Bool

pub record Server (buckets : Buckets) (jwt : Jwt) : Type 0 where
  pub hub : Hub
  pub auth : Validator jwt
  pub authed_rl : Limiter buckets
  pub enroll_rl : Limiter buckets
  pub join_rl : Limiter buckets

-- The status that a response writes.
abbrev status_of : {A : Type 0} → Response A → ℕ
status_of (success status a) = status
status_of (failure status code) = status

abbrev pub answered : {A : Type 0} → Response A × Hub → ℕ × Hub
answered (r, h) = (status_of r, h)

-- The headers of `cors`, and whether the request ends there.
pub record Cors : Type 0 where
  pub allow_origin : Option Text
  pub preflight : Bool

unfoldable is_allowed : Text → List Text → Bool
is_allowed origin [] = false
is_allowed origin (o ∷ os) = text_eq o origin || is_allowed origin os

-- `cors`
unfoldable cors : (allowed : List Text) → (origin : Text) → (is_options : Bool) → Cors
unfolding is_allowed
cors allowed origin is_options = record {
  allow_origin = if not (is_empty origin) && is_allowed origin allowed then some origin else none;
  preflight = is_options;
}
