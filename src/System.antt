-- ===== src/System.antt =====
-- The server as one transition system: the database operations of store.go and codes.go and the
-- operations of hub.go, in any order. Each operation is one step here, although the code protects only
-- some of them by a transaction or a mutex: Assign, handleAck, handleMetrics, CancelMiner, RevokeWorker
-- and RollupOnce are several statements, and what happens between those is not modelled.
pub mod Keys
pub mod Sound
pub mod Queries
pub mod Hubs
pub mod Handlers
pub mod Tenants
use money_miner.Base.{ℕ, ◌+◌, ◌≡◌, Bool, Option, List, [], Text}
use money_miner.Base.Int.{ℤ}
use money_miner.Store.Types.{
  Currency, JoinCode, Kind, Miner, MinerStatus, SwarmJob, JobStatus, StopReason, Average,
  WorkerStatus,
}
use money_miner.Store.Db.{Db}
use money_miner.Store.Catalog.{create_wallet, delete_wallet}
use money_miner.Store.Miners.{
  CreateMinerParams, create_miner, patch_miner, set_miner_status, set_miner_allocation,
  delete_miner,
}
use money_miner.Store.Runs.{open_run, close_run}
use money_miner.Store.Metrics.{insert_metric_sample, rollup_once}
use money_miner.Store.Payouts.{insert_payout}
use money_miner.Store.Settings.{put_setting, put_currency_setting, put_exchange_setting}
use money_miner.Store.Workers.{
  set_worker_status, update_worker_caps, revoke_worker, delete_worker, set_swarm_job_status,
}
use money_miner.Swarm.Codes.{
  Crypto, Outcome, done, Hardware, create, revoke, redeem, authenticate_worker,
}
use money_miner.Swarm.Hub.State.{Hub, Event, CloseReason, close, publish, with_db}
use money_miner.Swarm.Hub.Connections.{connect, unregister, touch, supervise_tick}
use money_miner.Swarm.Hub.Reports.{Inbound, handle_message}
use money_miner.Swarm.Hub.Assignment.{assign}
use money_miner.Swarm.Hub.Control.{cancel_job, update_allocation, revoke_connection}

-- The operations on the database. A job row is made by Assign only. `redeem_code` is the transaction
-- of Enroll, whatever code the query before it found; `meanwhile` time passes.
pub data Op : Type 0 where
  pass : (seconds : ℕ) → Op
  new_wallet : (owner : ℕ) (symbol address label : Text) → (validated : Bool) → Op
  drop_wallet : (owner id : ℕ) → Op
  new_miner : CreateMinerParams → Op
  patch : (owner id : ℕ) → (name : Option Text) → (wallet : Option ℕ) → (pool : Option Text) → Op
  miner_status : (id : ℕ) → MinerStatus → Op
  allocate : (owner id cpu gpu : ℕ) → Op
  drop_miner : (owner id : ℕ) → Op
  begin_run : (miner : ℕ) → Op
  end_run : (miner : ℕ) → StopReason → Average → (acc rej : ℤ) → Op
  sample : (miner : ℕ) → (worker : Option ℕ) → (hashrate : ℕ) → (acc rej : ℤ) → Op
  roll_up : Op
  payout :
      (owner : ℕ) (symbol address : Text) (amount : ℤ) (txid url pool : Text) (paid_at : Option ℕ)
      → Op
  setting : (jsonb : Text → Option Text) → (owner : ℕ) → (key value : Text) → Op
  currency_setting : (owner : ℕ) → (symbol url : Text) → Bool → (custom : Text) → Op
  exchange_setting :
      (encrypt : Text → Text → Text)
      → (owner : ℕ) → (exchange : Text) → (currencies : List Text) → (key passphrase : Text) → Op
  worker_status : (id : ℕ) → WorkerStatus → Op
  worker_caps : (id caps : ℕ) → Op
  revoke_node : (owner id : ℕ) → Op
  drop_worker : (owner id : ℕ) → Op
  job_status : (id : ℕ) → JobStatus → Op
  new_code : Crypto → (owner : ℕ) → (bytes : Option (List ℕ)) → (salt : ℕ) → Op
  drop_code : (owner id : ℕ) → Op
  redeem_code : JoinCode → (name : Text) → Hardware → (token : Text × Text) → Op

unfoldable pub run_op : Op → Db → Db
run_op (pass seconds) db = record db { clock = db.clock + seconds }
run_op (new_wallet owner symbol address label validated) db =
    (create_wallet owner symbol address label validated db).1
run_op (drop_wallet owner id) db = (delete_wallet owner id db).1
run_op (new_miner p) db = (create_miner p db).1
run_op (patch owner id name wallet pool) db = (patch_miner owner id name wallet pool db).1
run_op (miner_status id status) db = set_miner_status id status db
run_op (allocate owner id cpu gpu) db = (set_miner_allocation owner id cpu gpu db).1
run_op (drop_miner owner id) db = (delete_miner owner id db).1
run_op (begin_run miner) db = (open_run miner db).1
run_op (end_run miner reason avg acc rej) db = close_run miner reason avg acc rej db
run_op (sample miner worker hashrate acc rej) db =
    (insert_metric_sample miner worker hashrate acc rej db).1
run_op roll_up db = rollup_once db
run_op (payout owner symbol address amount txid url pool paid_at) db =
    (insert_payout owner symbol address amount txid url pool paid_at db).1
run_op (setting jsonb owner key value) db = (put_setting jsonb owner key value db).1
run_op (currency_setting owner symbol url enabled custom) db =
    put_currency_setting owner symbol url enabled custom db
run_op (exchange_setting encrypt owner exchange currencies key passphrase) db =
    put_exchange_setting encrypt owner exchange currencies key passphrase db
run_op (worker_status id status) db = set_worker_status id status db
run_op (worker_caps id caps) db = update_worker_caps id caps db
run_op (revoke_node owner id) db = (revoke_worker owner id db).1
run_op (drop_worker owner id) db = (delete_worker owner id db).1
run_op (job_status id status) db = set_swarm_job_status id status db
run_op (new_code crypto owner bytes salt) db = (create crypto owner bytes salt db).1
run_op (drop_code owner id) db = (revoke owner id db).1
run_op (redeem_code c name hw token) db = (redeem c name hw token db).1

-- A worker connects with a token that AuthenticateWorker accepts.
pub data Step : Hub → Hub → Type 0 where
  queries : {h : Hub} (q : Op) → Step h (with_db (run_op q) h)
  publishes : {h : Hub} (owner : ℕ) (e : Event) → Step h (publish owner e h)
  connects :
      {h : Hub} (crypto : Crypto) (token : Text) (worker owner : ℕ) (kind : Kind) (conn : ℕ)
      → authenticate_worker crypto token h.db ≡ done (worker, owner, kind)
      → Step h (connect worker owner kind conn h)
  disconnects : {h : Hub} (worker : ℕ) → Step h (unregister worker h)
  touches : {h : Hub} (worker : ℕ) → Step h (touch worker h)
  supervises :
      {h : Hub} (worker conn : ℕ) (answers : Bool) → Step h (supervise_tick worker conn answers h).1
  hears : {h : Hub} (worker owner : ℕ) (m : Inbound) → Step h (handle_message worker owner m h)
  assigns :
      {h : Hub} (writable : ℕ → Bool) (m : Miner) (cur : Currency) (wallet : Text)
      → Step h (assign writable m cur wallet h).1
  cancels :
      {h : Hub} (miner : ℕ) (reason : StopReason) (j : SwarmJob)
      → Step h (cancel_job miner reason j h)
  reallocates : {h : Hub} (miner cpu gpu : ℕ) → Step h (update_allocation miner cpu gpu h)
  closes : {h : Hub} (conn : ℕ) (reason : CloseReason) → Step h (close conn reason h)
  revokes : {h : Hub} (worker : ℕ) → Step h (revoke_connection worker h)

-- The states that a server reaches from a state at its start.
pub data Reach (first : Hub) : Hub → Type 0 where
  start : Reach first first
  next : {h h' : Hub} → Reach first h → Step h h' → Reach first h'
