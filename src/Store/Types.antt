-- ===== src/Store/Types.antt =====
-- The domain types of store.go. Ids and owner subs are only compared, and are numbers; 0 stands
-- for the empty sub. Texts that the program takes apart are lists of bytes. Hash rates are whole
-- numbers of a fixed unit, and amounts are integers.
use money_miner.Base.{ℕ, ◌≡◌, refl, Bool, true, false, Option, List, ◌⊎◌, inl, inr, ◌==◌, Text}
use money_miner.Base.Int.{ℤ}

pub data StoreError : Type 0 where
  not_found conflict failed : StoreError

pub data Result (A : Type 0) : Type 0 where
  ok : A → Result A
  err : StoreError → Result A

pub Result-cases :
    {A : Type 0} (r : Result A) → ((a : A) × (r ≡ ok a)) ⊎ ((e : StoreError) × (r ≡ err e))
Result-cases (ok a) = inl (a, refl)
Result-cases (err e) = inr (e, refl)

-- `currencies.engine_strategy` and `miners.engine`
pub data Strategy : Type 0 where
  adapter native_go browser_wasm deferred : Strategy

pub data EngineKind : Type 0 where
  adapter native_go simulated : EngineKind

pub data MinerStatus : Type 0 where
  created queued running stopping stopped error : MinerStatus

pub data WorkerStatus : Type 0 where
  enrolled connected assigned mining idle offline revoked : WorkerStatus

pub data JobStatus : Type 0 where
  assigned ack ended error : JobStatus

pub data Kind : Type 0 where
  native browser : Kind

pub data StopReason : Type 0 where
  user error revoked : StopReason

-- One element of `currencies.pools`.
pub record Pool : Type 0 where
  pub name : Text
  pub url : Text
  pub api_tpl : Text

-- `pools` is the decoded jsonb value, `none` where it does not decode.
pub record Currency : Type 0 where
  pub id : ℕ
  pub symbol : Text
  pub algorithm : Text
  pub strategy : Strategy
  pub adapter_config : ℕ
  pub explorer_tx_tpl : Text
  pub pools : Option (List Pool)
  pub enabled : Bool
  pub deferred_note : Option Text

-- A row of `wallets`; `currency` is `currency_id`.
pub record Wallet : Type 0 where
  pub id : ℕ
  pub owner : ℕ
  pub currency : ℕ
  pub address : Text
  pub label : Text
  pub validated : Bool
  pub created_at : ℕ

-- A row of `miners`.
pub record MinerRow : Type 0 where
  pub id : ℕ
  pub owner : ℕ
  pub name : Text
  pub currency : ℕ
  pub wallet_id : Option ℕ
  pub engine : EngineKind
  pub pool_url : Text
  pub cpu_pct : ℕ
  pub gpu_pct : ℕ
  pub status : MinerStatus
  pub created_at : ℕ
  pub updated_at : ℕ

-- The joined view that the queries return.
pub record Miner : Type 0 where
  pub id : ℕ
  pub name : Text
  pub currency : Text
  pub engine : EngineKind
  pub simulated : Bool
  pub wallet_id : Option ℕ
  pub pool_url : Text
  pub cpu_pct : ℕ
  pub gpu_pct : ℕ
  pub status : MinerStatus
  pub hashrate : ℕ
  pub created_at : ℕ
  pub updated_at : ℕ

-- An exact average: `total / samples`, 0 over no samples.
pub record Average : Type 0 where
  pub total : ℕ
  pub samples : ℕ

pub record MinerRun : Type 0 where
  pub id : ℕ
  pub miner : ℕ
  pub started_at : ℕ
  pub stopped_at : Option ℕ
  pub stop_reason : Option StopReason
  pub avg_hashrate : Average
  pub shares_accepted : ℤ
  pub shares_rejected : ℤ

pub record Worker : Type 0 where
  pub id : ℕ
  pub owner : ℕ
  pub name : Text
  pub kind : Kind
  pub cpu_cores : ℕ
  pub caps : ℕ
  pub token_hash : Text
  pub status : WorkerStatus
  pub last_seen : Option ℕ
  pub enrolled_at : ℕ
  pub revoked_at : Option ℕ

-- A row of `join_codes`.
pub record JoinCode : Type 0 where
  pub id : ℕ
  pub owner : ℕ
  pub code_hash : Text
  pub expires_at : ℕ
  pub consumed_by : Option ℕ
  pub consumed_at : Option ℕ
  pub created_at : ℕ

-- A row of `swarm_jobs`.
pub record SwarmJob : Type 0 where
  pub id : ℕ
  pub miner : ℕ
  pub worker : ℕ
  pub ended_at : Option ℕ
  pub status : JobStatus

-- A row of `metric_samples`.
pub record Sample : Type 0 where
  pub miner : ℕ
  pub worker : Option ℕ
  pub ts : ℕ
  pub hashrate : ℕ
  pub accepted : ℤ
  pub rejected : ℤ

-- A row of `metric_rollups`.
pub record Rollup : Type 0 where
  pub miner : ℕ
  pub bucket : ℕ
  pub avg_hashrate : Average
  pub max_hashrate : ℕ
  pub accepted : ℤ
  pub rejected : ℤ

-- A row of `blocks_found`; an absent hash, source or explorer URL is empty.
pub record BlockFound : Type 0 where
  pub id : ℕ
  pub currency : ℕ
  pub miner : Option ℕ
  pub height : Option ℕ
  pub hash : Text
  pub found_at : Option ℕ
  pub source : Text
  pub explorer_url : Text

-- A row of `payouts`; an absent txid or explorer URL is `none`.
pub record Payout : Type 0 where
  pub id : ℕ
  pub owner : ℕ
  pub currency : ℕ
  pub wallet_id : Option ℕ
  pub amount : ℤ
  pub txid : Option Text
  pub explorer_url : Option Text
  pub source_pool : Option Text
  pub verified : Bool
  pub paid_at : Option ℕ
  pub detected_at : ℕ

pub record Setting : Type 0 where
  pub owner : ℕ
  pub key : Text
  pub value : Text

pub record CurrencySetting : Type 0 where
  pub owner : ℕ
  pub currency : ℕ
  pub pool_url : Text
  pub enabled : Bool
  pub custom_adapter : Text

pub record ExchangeSetting : Type 0 where
  pub owner : ℕ
  pub exchange : Text
  pub currencies : List Text
  pub api_key : Option Text

abbrev pub is_simulated : EngineKind → Bool
is_simulated EngineKind.simulated = true
is_simulated _ = false

abbrev pub is_queued : MinerStatus → Bool
is_queued MinerStatus.queued = true
is_queued _ = false

abbrev pub is_running : MinerStatus → Bool
is_running MinerStatus.running = true
is_running _ = false

abbrev pub is_revoked : WorkerStatus → Bool
is_revoked WorkerStatus.revoked = true
is_revoked _ = false

abbrev pub is_browser : Kind → Bool
is_browser Kind.browser = true
is_browser Kind.native = false

-- `IS NULL`, and equality with a column that may be NULL
abbrev pub is_null {ℓ} : {A : Type ℓ} → Option A → Bool
is_null Option.none = true
is_null (Option.some _) = false

abbrev pub is_id : Option ℕ → ℕ → Bool
is_id Option.none k = false
is_id (Option.some j) k = j == k
