-- ===== src/Config.antt =====
-- The configuration from the environment (money-miner-backend/internal/config/config.go). The
-- environment, and time.ParseDuration, are parameters; durations are nanoseconds.
pub mod Origins
use money_miner.Base.{
  ℕ, suc, ◌+◌, ◌-◌, ◌*◌, ◌%◌, ◌^◌, Bool, true, false, ◌&&◌, ◌||◌, Option, none, some, List, [], ◌∷◌,
  ◌++◌, ltb, leb, ◌==◌, if◌then◌else◌, Text, text_eq, codes, is_empty, to_lower, trim_space,
  trim_last,
}
use money_miner.Base.Int.{ℤ, pos, negsuc, pos_part, neg_part, sub_ℕ}
use money_miner.Api.Query.{digits, max_int}

pub record Config : Type 0 where
  pub listen : Text
  pub database_url : Text
  pub public_url : Text
  pub issuer : Text
  pub jwks_url : Text
  pub allow_simulated : Bool
  pub allowed_origins : List Text
  pub payout_poll_interval : ℤ
  pub retention_interval : ℤ
  pub exchange_key_salt : Text
  pub seed_test_data : Bool
  pub version : Text

-- `os.Getenv`, empty where a variable is not set.
pub record Environment : Type 0 where
  pub getenv : Text → Text
  pub parse_duration : Text → Option ℤ

abbrev push_front : ℕ → List Text → List Text
push_front c [] = (c ∷ []) ∷ []
push_front c (s ∷ ss) = (c ∷ s) ∷ ss

-- `strings.Split` at one byte
unfoldable split_at : ℕ → Text → List Text
split_at b [] = [] ∷ []
split_at b (c ∷ s) = let rest = split_at b s in if c == b then [] ∷ rest else push_front c rest

-- The parts that are not empty, trimmed.
unfoldable pub trimmed_parts : List Text → List Text
trimmed_parts [] = []
trimmed_parts (o ∷ os) =
    let rest = trimmed_parts os in if is_empty (trim_space o) then rest else trim_space o ∷ rest

-- `strconv.Atoi` with its error, for numbers out of range too
unfoldable pub whole : Text → Option ℤ
whole [] = none
whole (c ∷ s) =
    if c == b'-'
    then elim (digits s) [
      | none ↦ none
      | some n ↦ if ltb (max_int + 1) n then none else some (sub_ℕ 0 n)
    ]
    else elim (if c == b'+' then digits s else digits (c ∷ s)) [
      | none ↦ none
      | some n ↦ if ltb max_int n then none else some (pos n)
    ]

-- An int64 from its residue.
unfoldable signed_64 : ℕ → ℤ
signed_64 n = if ltb (n % 2 ^ 64) (2 ^ 63) then pos (n % 2 ^ 64) else sub_ℕ (n % 2 ^ 64) (2 ^ 64)

abbrev pub nanoseconds : ℕ
nanoseconds = 10 ^ 9

-- `time.Duration(n) * time.Second`, which wraps around.
unfoldable pub seconds : ℤ → ℤ
unfolding signed_64
seconds (pos n) = signed_64 (n * nanoseconds)
seconds (negsuc n) = signed_64 (2 ^ 64 - suc n * nanoseconds % 2 ^ 64)

module _ (e : Environment) where
  -- `env`
  unfoldable pub env : (key def : Text) → Text
  env key def = let v = e.getenv key in if is_empty v then def else v

  -- `envBool`
  unfoldable env_bool : (key : Text) → (def : Bool) → Bool
  env_bool key def =
      let v = to_lower (trim_space (e.getenv key)) in
      if is_empty v
      then def
      else text_eq v (codes "true") || text_eq v (codes "1") || text_eq v (codes "yes")

  -- `envDuration`: a bare number is one of seconds.
  unfoldable env_duration : (key : Text) → (def : ℤ) → ℤ
  unfolding whole seconds
  env_duration key def =
      let v = e.getenv key in
      if is_empty v then def else elim (e.parse_duration v) [
        | some d ↦ d
        | none ↦ elim (whole v) [ some n ↦ seconds n | none ↦ def ]
      ]

  abbrev public_url_of : Text
  public_url_of = trim_last b'/' (env (codes "MM_PUBLIC_URL") (codes "http://127.0.0.1:8080"))

  unfoldable pub allowed_origins_of : List Text
  unfolding split_at trimmed_parts trim_last env
  allowed_origins_of =
      trimmed_parts (split_at b',' (env (codes "MM_ALLOWED_ORIGINS") public_url_of))

  -- What `Load` reads.
  unfoldable pub config_of : Config
  unfolding env_bool env_duration allowed_origins_of
  config_of = record {
    listen = env (codes "MM_LISTEN") (codes "127.0.0.1:8080");
    database_url = e.getenv (codes "MM_DATABASE_URL");
    public_url = public_url_of;
    issuer = env (codes "MM_OIDC_ISSUER") (codes "https://auth.thecsdoctor.com/realms/money-miner");
    jwks_url =
        env (codes "MM_OIDC_JWKS_URL")
          (codes "http://keycloak:8080/realms/money-miner/protocol/openid-connect/certs");
    allow_simulated = env_bool (codes "ALLOW_SIMULATED") false;
    allowed_origins = allowed_origins_of;
    payout_poll_interval = env_duration (codes "MM_PAYOUT_POLL_INTERVAL") (pos (600 * nanoseconds));
    retention_interval = env_duration (codes "MM_RETENTION_INTERVAL") (pos (3600 * nanoseconds));
    exchange_key_salt = env (codes "MM_EXCHANGE_KEY_SALT") (codes "money-miner-v0.1");
    seed_test_data = env_bool (codes "SEED_TEST_DATA") false;
    version = env (codes "MM_VERSION") (codes "dev");
  }

  -- `Load`: none where there is no database URL.
  unfoldable pub load : Option Config
  unfolding config_of
  load = if is_empty config_of.database_url then none else some config_of
