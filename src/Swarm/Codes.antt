-- ===== src/Swarm/Codes.antt =====
-- Join codes and worker tokens against the database (swarm/codes.go). bcrypt and SHA-256 are
-- parameters.
pub mod SingleUse
pub mod Tokens
use money_miner.Base.{
  ℕ, suc, ◌+◌, ◌*◌, ◌^◌, ◌≡◌, Bool, true, false, not, ◌&&◌, ◌||◌, Option, none, some, List, [], ◌∷◌,
  ◌++◌, ◌==◌, ltb, leb, if◌then◌else◌, length, take, find, select, update, delete, count_where,
  order_by, Text, text_eq, codes, map,
}
use money_miner.Store.Types.{Worker, WorkerStatus, Kind, JoinCode, is_null, is_browser}
use money_miner.Store.Db.{Db}
use money_miner.Swarm.Code.{generate_code, normalize_code}

-- `hash salt text` is bcrypt.GenerateFromPassword with the salt that it draws, and `matches` is
-- CompareHashAndPassword; `sha256_hex` is the hexadecimal SHA-256 and `hex` that of a byte string.
pub record Crypto : Type 0 where
  pub hash : ℕ → Text → Text
  pub matches : Text → Text → Bool
  pub sha256_hex : Text → Text
  pub hex : Text → Text
  pub matches-hash : (salt : ℕ) (text : Text) → matches (hash salt text) text ≡ true

-- `invalid` is ErrCodeInvalid; `refused` the two other errors of AuthenticateWorker; `failed` an
-- error of the random source or the database.
pub data Outcome (A : Type 0) : Type 0 where
  done : A → Outcome A
  invalid refused failed : Outcome A

abbrev pub code_ttl : ℕ
code_ttl = 15 * 60

abbrev pub browser_token_ttl : ℕ
browser_token_ttl = 24 * 3600

pub record CodeInfo : Type 0 where
  pub id : ℕ
  pub expires_at : ℕ
  pub consumed : Bool
  pub created_at : ℕ

-- The descriptor of a machine; a count that is negative is not modelled.
pub record Hardware : Type 0 where
  pub kind : Text
  pub os : Text
  pub arch : Text
  pub cpu_model : Text
  pub cpu_cores : ℕ
  pub gpu_model : Text
  pub vram_mb : ℕ

pub record EnrollResult : Type 0 where
  pub worker_id : ℕ
  pub worker_token : Text
  pub owner : ℕ

abbrev info : JoinCode → CodeInfo
info c = record {
  id = c.id;
  expires_at = c.expires_at;
  consumed = not (is_null c.consumed_by);
  created_at = c.created_at;
}

-- An open code: unconsumed and unexpired.
abbrev pub is_open : ℕ → JoinCode → Bool
is_open now c = is_null c.consumed_by && ltb now c.expires_at

abbrev pub kind_of : Text → Kind
kind_of k = if text_eq k (codes "browser") then Kind.browser else Kind.native

-- `Codes.List`: the newest 50 codes of the owner.
unfoldable pub list_codes : ℕ → Db → List CodeInfo
list_codes owner db = map info (
    take 50
      (order_by (λ a b. leb b.created_at a.created_at) (select (λ c. c.owner == owner) db.codes)))

abbrev is_revocable : ℕ → ℕ → JoinCode → Bool
is_revocable owner id c = c.id == id && c.owner == owner && is_null c.consumed_by

-- `Codes.Revoke`
unfoldable pub revoke : ℕ → ℕ → Db → Outcome (Unit {0}) × Db
revoke owner id db = elim (count_where (is_revocable owner id) db.codes) [
  | ℕ.zero ↦ (invalid, db)
  | suc n ↦ (done tt, record db { codes = delete (is_revocable owner id) db.codes })
]

abbrev pub redeems : JoinCode → ℕ → JoinCode → Bool
redeems c now q = q.id == c.id && is_open now q

abbrev pub new_worker : JoinCode → Text → Hardware → Text → Db → Worker
new_worker c name hw token_hash db = record {
  id = db.fresh;
  owner = c.owner;
  name = name;
  kind = kind_of hw.kind;
  cpu_cores = hw.cpu_cores;
  caps = 0;
  token_hash = token_hash;
  status = WorkerStatus.enrolled;
  last_seen = none;
  enrolled_at = db.clock;
  revoked_at = none;
}

abbrev pub consume : ℕ → ℕ → JoinCode → JoinCode
consume worker now q = record q { consumed_by = some worker; consumed_at = some now }

-- PostgreSQL's text has no zero byte.
unfoldable pub no_zero : Text → Bool
no_zero [] = true
no_zero (c ∷ s) = let rest = no_zero s in not (c == 0) && rest

-- What the INSERT of a worker takes: the two counts are 32-bit columns.
unfoldable pub row_fits : Text → Hardware → Bool
unfolding no_zero
row_fits name hw =
    ltb hw.cpu_cores (2 ^ 31)
    && ltb hw.vram_mb (2 ^ 31)
    && no_zero name
    && no_zero hw.os
    && no_zero hw.arch
    && no_zero hw.cpu_model
    && no_zero hw.gpu_model

-- The transaction of Enroll: the worker row and the consumption of the code, or neither. The row is
-- inserted first; where it does not fit, or no open code is updated, all is rolled back.
unfoldable pub redeem : JoinCode → Text → Hardware → Text × Text → Db → Outcome EnrollResult × Db
unfolding row_fits
redeem c name hw (plain, token_hash) db =
    if not (row_fits name hw)
    then (failed, db)
    else elim (count_where (redeems c db.clock) db.codes) [
      | ℕ.zero ↦ (invalid, db)
      | suc n ↦ (
        done (record { worker_id = db.fresh; worker_token = plain; owner = c.owner }),
        record db {
          fresh = db.fresh + 1;
          workers = db.workers ++ new_worker c name hw token_hash db ∷ [];
          codes = update (redeems c db.clock) (consume db.fresh db.clock) db.codes;
        },
      )
    ]

module _ (crypto : Crypto) where
  open crypto use {hash, matches, sha256_hex, hex}

  -- `NewWorkerToken`: the plaintext and its hash.
  unfoldable pub new_worker_token : Option Text → Option (Text × Text)
  new_worker_token none = none
  new_worker_token (some bytes) = some (hex bytes, sha256_hex (hex bytes))

  -- `HashToken`
  unfoldable pub hash_token : Text → Text
  hash_token plain = sha256_hex plain

  abbrev pub new_code : ℕ → Text → ℕ → Db → JoinCode
  new_code owner plain salt db = record {
    id = db.fresh;
    owner = owner;
    code_hash = hash salt (normalize_code plain);
    expires_at = db.clock + code_ttl;
    consumed_by = none;
    consumed_at = none;
    created_at = db.clock;
  }

  -- `Codes.Create`; the random bytes of the code, then bcrypt's salt.
  unfoldable pub create : ℕ → Option (List ℕ) → ℕ → Db → Outcome (CodeInfo × Text) × Db
  create owner bytes salt db = elim (generate_code bytes) [
    | none ↦ (failed, db)
    | some plain ↦
        let c = new_code owner plain salt db in
        (done (info c, plain), record db { fresh = db.fresh + 1; codes = db.codes ++ c ∷ [] })
  ]

  -- The candidate query of Enroll and its loop: the first open code whose hash matches.
  unfoldable pub candidate : Text → Db → Option JoinCode
  candidate norm db = find (λ c. is_open db.clock c && matches c.code_hash norm) db.codes

  -- `Codes.Enroll`: other sessions may commit between the candidate query and the transaction,
  -- and `meanwhile` is what they do to the database.
  unfoldable pub enroll :
      (meanwhile : Db → Db) → Text → Text → Hardware → Option Text → Db → Outcome EnrollResult × Db
  enroll meanwhile code name hw bytes db =
      let norm = normalize_code code in
      if not (length norm == 10) then (invalid, db) else elim (candidate norm db) [
        | none ↦ (invalid, db)
        | some c ↦ elim (new_worker_token bytes) [
          | none ↦ (failed, db)
          | some token ↦ redeem c name hw token (meanwhile db)
        ]
      ]

  -- The loop of CheckCode, over the hashes of its own query.
  unfoldable pub any_matches : Text → List JoinCode → Bool
  any_matches norm [] = false
  any_matches norm (c ∷ cs) =
      let rest = any_matches norm cs in if matches c.code_hash norm then true else rest

  -- `Codes.CheckCode`: whether the code can be redeemed now.
  unfoldable pub check_code : Text → Db → Outcome (Unit {0})
  unfolding any_matches
  check_code code db =
      let norm = normalize_code code in
      if not (length norm == 10)
      then invalid
      else (if any_matches norm (select (is_open db.clock) db.codes) then done tt else invalid)

  -- `AuthenticateWorker`: the worker's id, owner and kind.
  unfoldable pub authenticate_worker : Text → Db → Outcome (ℕ × ℕ × Kind)
  authenticate_worker token db =
      elim (find (λ w. text_eq w.token_hash (hash_token token)) db.workers) [
        | none ↦ invalid
        | some w ↦
            if not (is_null w.revoked_at)
            then refused
            else if is_browser w.kind && ltb (w.enrolled_at + browser_token_ttl) db.clock
            then refused
            else done (w.id, w.owner, w.kind)
      ]
