-- ===== src/Swarm/Hub/State.antt =====
-- The data of hub.go: connections by number, the live overlay, the job counters, the logs.
use money_miner.Base.{ℕ, Bool, Option, none, some, List, [], ◌∷◌, ◌++◌, Text, is_some}
use money_miner.Base.Int.{ℤ}
use money_miner.Base.Map.{lookup}
use money_miner.Store.Types.{EngineKind, MinerStatus, Kind}
use money_miner.Store.Db.{Db}

-- `mm-<miner>-<worker>`, the name under which the pool accounts a job.
pub record WorkerName : Type 0 where
  pub miner : ℕ
  pub worker : ℕ

-- `wallet.worker`, or the worker name alone without a wallet.
pub data PoolUser : Type 0 where
  paid : Text → WorkerName → PoolUser
  unpaid : WorkerName → PoolUser

pub record EngineConfigPayload : Type 0 where
  pub algorithm : Text
  pub pool_url : Text
  pub pool_user : PoolUser
  pub wallet : Text
  pub worker_name : WorkerName
  pub threads : ℕ
  pub gpu_enabled : Bool
  pub gpu_intensity : ℕ
  pub adapter : ℕ

-- The messages from the server to a worker.
pub data Message : Type 0 where
  job_assign : (job miner : ℕ) → EngineKind → EngineConfigPayload → (simulated : Bool) → Message
  job_cancel : (job : ℕ) → Message
  allocation_update : (job cpu_pct gpu_intensity : ℕ) → Message
  worker_revoke : Message

pub data CloseReason : Type 0 where
  replaced heartbeat_timeout revoked bye : CloseReason

pub data Event : Type 0 where
  worker_joined : (worker : ℕ) → Kind → Event
  worker_left : (worker : ℕ) → Event
  miner_status : (miner : ℕ) → MinerStatus → Event
  miner_assigned : (miner : ℕ) → Event
  worker_revoked : (worker : ℕ) → Event
  payout_detected :
      (currency : Text) (amount : ℤ) (txid explorer_url : Text) (verified : Bool) → Event

-- `Jobs` maps a job to its miner.
pub record LiveWorker : Type 0 where
  pub worker : ℕ
  pub owner : ℕ
  pub kind : Kind
  pub hashrate : ℕ
  pub jobs : List (ℕ × ℕ)
  pub last_msg : ℕ

-- The last cumulative counters of the engine, and the totals of their increments.
pub record JobState : Type 0 where
  pub miner : ℕ
  pub owner : ℕ
  pub last_acc : ℤ
  pub last_rej : ℤ
  pub tot_acc : ℤ
  pub tot_rej : ℤ

pub record LogLine : Type 0 where
  pub at : ℕ
  pub level : Text
  pub msg : Text

pub record Hub : Type 0 where
  pub db : Db
  pub conns : List (ℕ × ℕ)
  pub live : List (ℕ × LiveWorker)
  pub jobs : List (ℕ × JobState)
  pub logs : List (ℕ × List LogLine)
  pub sent : List (ℕ × Message)
  pub closed : List (ℕ × CloseReason)
  pub published : List (ℕ × Event)

abbrev pub send : ℕ → Message → Hub → Hub
send conn m h = record h { sent = h.sent ++ (conn, m) ∷ [] }

-- A send to a worker that may have no connection.
abbrev pub send_if : Option ℕ → Message → Hub → Hub
send_if none m h = h
send_if (some conn) m h = send conn m h

abbrev pub close : ℕ → CloseReason → Hub → Hub
close conn reason h = record h { closed = h.closed ++ (conn, reason) ∷ [] }

abbrev pub publish : ℕ → Event → Hub → Hub
publish owner e h = record h { published = h.published ++ (owner, e) ∷ [] }

abbrev pub with_db : (Db → Db) → Hub → Hub
with_db f h = record h { db = f h.db }

-- `Online`: whether a worker holds a connection.
unfoldable pub online : ℕ → Hub → Bool
online worker h = is_some (lookup worker h.conns)
