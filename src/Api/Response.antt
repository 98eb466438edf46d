-- ===== src/Api/Response.antt =====
-- Responses and the error envelope (api/public.go): the status, then the body or the error code.
use money_miner.Base.{ℕ}
use money_miner.Store.Db.{Db, Query}
use money_miner.Swarm.Hub.State.{Hub}
use money_miner.Store.Types.{Result, ok, err, StoreError}

pub data ErrorCode : Type 0 where
  bad_request not_found internal code_invalid : ErrorCode
  currency_unknown currency_deferred wallet_invalid wallet_exists wallet_unknown : ErrorCode
  wallet_required engine_unavailable simulated_disabled pool_required : ErrorCode
  pool_url_invalid already_running no_code : ErrorCode

pub data Response (A : Type 0) : Type 0 where
  success : (status : ℕ) → A → Response A
  failure : (status : ℕ) → ErrorCode → Response A

-- `storeErr`: what a store error answers; `conflict` is the code that the caller passes.
unfoldable pub store_err : {A : Type 0} → StoreError → (conflict : ErrorCode) → Response A
store_err StoreError.not_found conflict = failure 404 ErrorCode.not_found
store_err StoreError.conflict conflict = failure 409 conflict
store_err StoreError.failed conflict = failure 500 ErrorCode.internal

-- The common end of a handler: the error, or the value with a status.
unfoldable pub respond :
    {A : Type 0} → (status : ℕ) → (conflict : ErrorCode) → Result A → Response A
unfolding store_err
respond status conflict (ok a) = success status a
respond status conflict (err e) = store_err e conflict

abbrev pub malformed : {A : Type 0} → Response A
malformed = failure 400 ErrorCode.bad_request

-- A validation: the code of the 400 that it answers, or what it makes of the input.
pub data Checked (A : Type 0) : Type 0 where
  refuse : ErrorCode → Checked A
  accept : A → Checked A

-- A query on the hub's database, and its answer.
abbrev pub answer :
    {A : Type 0} → (status : ℕ) → (conflict : ErrorCode) → Query A → Hub → Response A × Hub
answer status conflict q h =
    let (r, db) = q h.db in (respond status conflict r, record h { db = db })

-- A query that only reads.
abbrev pub answer_read : {A : Type 0} → (Db → Result A) → Hub → Response A × Hub
answer_read q h = (respond 200 ErrorCode.no_code (q h.db), h)
