-- ===== src/Auth.antt =====
-- Bearer tokens (money-miner-backend/internal/auth/auth.go): the cache of the realm's keys, and what
-- a token must be to give a tenant. Reading a token and checking a signature are parameters
-- (github.com/golang-jwt/jwt), and so is what a fetch of the key set gives.
pub mod Sound
use money_miner.Base.{
  ℕ, ◌+◌, Bool, true, false, not, ◌&&◌, ◌||◌, Option, none, some, List, [], ◌∷◌, ltb, leb,
  if◌then◌else◌, Text, text_eq, codes, is_empty, trim_space, trim_prefix, has_prefix,
}

pub record Claims : Type 0 where
  pub sub : Text
  pub roles : List Text

-- `HasRole`
unfoldable has_role : Text → List Text → Bool
has_role r [] = false
has_role r (x ∷ xs) = text_eq x r || has_role r xs

-- A token before its signature is checked.
pub record Token : Type 0 where
  pub alg : Text
  pub kid : Text
  pub issuer : Text
  pub expires : Option ℕ
  pub not_before : Option ℕ
  pub subject : Text
  pub roles : List Text

pub record Jwt : Type 1 where
  pub Key : Type 0
  pub read : Text → Option Token
  pub signed_by : Key → Text → Bool

module _ (jwt : Jwt) where
  open jwt use {Key, read, signed_by}

  -- `fresh` is none before the first fetch.
  pub record Validator : Type 0 where
    pub issuer : Text
    pub keys : List (Text × Key)
    pub fresh : Option ℕ

  unfoldable pub find_key : Text → List (Text × Key) → Option Key
  find_key kid [] = none
  find_key kid ((k, key) ∷ ks) =
      let rest = find_key kid ks in if text_eq k kid then some key else rest

  abbrev is_stale : (now : ℕ) → Option ℕ → Bool
  is_stale now none = true
  is_stale now (some t) = ltb (t + 3600) now

  -- `refresh`: `fetched` holds the RSA keys of the document, with the last one first where two have
  -- one id. False where the fetch fails or gives no key.
  unfoldable refresh :
      (now : ℕ) → (fetched : Option (List (Text × Key))) → Validator → Bool × Validator
  refresh now none v = (false, v)
  refresh now (some []) v = (false, v)
  refresh now (some (k ∷ ks)) v = (true, record v { keys = k ∷ ks; fresh = some now })

  -- The key function of Parse: an unknown id or an old cache fetches the keys again.
  unfoldable pub key_for :
      (now : ℕ) → (fetched : Option (List (Text × Key))) → Text → Validator → Option Key × Validator
  unfolding refresh find_key
  key_for now fetched kid v = elim (find_key kid v.keys) [
    | some key ↦
        if is_stale now v.fresh
        then (let (fine, v') = refresh now fetched v in
            (if fine then find_key kid v'.keys else none, v'))
        else (some key, v)
    | none ↦
        let (fine, v') = refresh now fetched v in (if fine then find_key kid v'.keys else none, v')
  ]

  -- The options of ParseWithClaims: the issuer, and an expiry that is there and ahead; a start that
  -- is there has come.
  abbrev pub expires_after : (now : ℕ) → Option ℕ → Bool
  expires_after now none = false
  expires_after now (some t) = ltb now t

  abbrev has_begun : (now : ℕ) → Option ℕ → Bool
  has_begun now none = true
  has_begun now (some t) = leb t now

  abbrev pub claims_of : Token → Claims
  claims_of t = record { sub = t.subject; roles = t.roles }

  abbrev pub accepts : (now : ℕ) → Text → Token → Text → Key → Bool
  accepts now issuer t bearer key =
      signed_by key bearer
      && text_eq t.issuer issuer
      && expires_after now t.expires
      && has_begun now t.not_before

  -- The token without the scheme.
  abbrev pub bare : Text → Text
  bare bearer = trim_space (trim_prefix bearer (codes "Bearer "))

  unfoldable pub parse_token :
      (now : ℕ)
      → (fetched : Option (List (Text × Key))) → Text
      → Token
      → Validator
      → Option Claims × Validator
  unfolding key_for
  parse_token now fetched text t v =
      if not (text_eq t.alg (codes "RS256"))
      then (none, v)
      else (let (found, v') = key_for now fetched t.kid v in
          elim found [
            | none ↦ (none, v')
            | some key ↦
                if not (accepts now v.issuer t text key)
                then (none, v')
                else (if is_empty t.subject then (none, v') else (some (claims_of t), v'))
          ])

  -- `Parse`
  unfoldable pub parse :
      (now : ℕ)
      → (fetched : Option (List (Text × Key))) → Text
      → Validator
      → Option Claims × Validator
  unfolding parse_token
  parse now fetched bearer v =
      if is_empty (bare bearer) then (none, v) else elim (read (bare bearer)) [
        | none ↦ (none, v)
        | some t ↦ parse_token now fetched (bare bearer) t v
      ]

  -- `Middleware`: the claims with which the handler runs; none is the answer 401.
  unfoldable pub middleware :
      (now : ℕ)
      → (fetched : Option (List (Text × Key))) → (header : Text) → Validator
      → Option Claims × Validator
  unfolding parse
  middleware now fetched header v =
      if not (has_prefix header (codes "Bearer ")) then (none, v) else parse now fetched header v
