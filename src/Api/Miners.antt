-- ===== src/Api/Miners.antt =====
-- The handlers of miners (api/handlers.go).
pub mod Create
pub mod Start
pub mod Tenancy
use money_miner.Base.{
  ℕ, suc, Option, none, some, List, [], ◌∷◌, Bool, true, false, not, ◌&&◌, ◌||◌, ◌-◌, ◌*◌, ltb,
  if◌then◌else◌, Text, to_upper, trim_space, map, is_some,
}
use money_miner.Base.Int.{ℤ, pos_part}
use money_miner.Store.Types.{
  Result, ok, err, Currency, EngineKind, Miner, MinerRun, MinerStatus, StopReason, Worker, Rollup,
  Sample, is_running, is_queued, is_simulated, is_null,
}
use money_miner.Store.Db.{Db}
use money_miner.Store.Catalog.{get_currency, wallet_address}
use money_miner.Store.Miners.{
  list_miners, get_miner, patch_miner, set_miner_status, set_miner_allocation, delete_miner,
}
use money_miner.Store.Runs.{open_run, current_run, list_runs}
use money_miner.Store.Metrics.{live_hashrate, recent_metrics, hourly_rollups, hour}
use money_miner.Store.Workers.{workers_for_miner}
use money_miner.Swarm.Hub.State.{Hub, Event, miner_status, miner_assigned, publish, with_db}
use money_miner.Swarm.Hub.Assignment.{assign, wallet_of}
use money_miner.Swarm.Hub.Control.{cancel_miner, update_allocation}
use money_miner.Api.Response.{
  Response, success, failure, ErrorCode, malformed, answer, answer_read, store_err, respond,
}
use money_miner.Api.Query.{in_range, metrics_limit, atoi}
use money_miner.Api.Pool.{Net, validate_pool_url}

-- `withLive` on one miner: the freshest rate, 0 unless it runs.
unfoldable pub with_live : Db → Miner → Miner
with_live db m = record m { hashrate = if is_running m.status then live_hashrate m.id db else 0 }

unfoldable pub handle_list_miners : (owner : ℕ) → Hub → Response (List Miner) × Hub
handle_list_miners owner h = answer_read (λ db. ok (map (with_live db) (list_miners owner db))) h

pub record MinerDetail : Type 0 where
  pub miner : Miner
  pub current_run : Option MinerRun
  pub workers : List Worker

abbrev detail : Db → Miner → MinerDetail
detail db m = record {
  miner = with_live db m;
  current_run = current_run m.id db;
  workers = workers_for_miner m.id db;
}

unfoldable pub handle_get_miner : (owner id : ℕ) → Hub → Response MinerDetail × Hub
handle_get_miner owner id h = elim (get_miner owner id h.db) [
  | err e ↦ (store_err e ErrorCode.no_code, h)
  | ok m ↦ (success 200 (detail h.db m), h)
]

pub record PatchMinerReq : Type 0 where
  pub name : Option Text
  pub wallet_id : Option ℕ
  pub pool_url : Option Text

abbrev pub pool_accepted : Net → Option Text → Bool
pool_accepted net none = true
pool_accepted net (some url) = validate_pool_url net url

abbrev is_ok : {A : Type 0} → Result A → Bool
is_ok (ok _) = true
is_ok (err _) = false

-- Whether the wallet that a request names, if it names one, is the caller's.
abbrev pub wallet_known : (owner : ℕ) → Option ℕ → Db → Bool
wallet_known owner none db = true
wallet_known owner (some id) db = is_ok (wallet_address owner id db)

unfoldable pub handle_patch_miner :
    Net → (owner id : ℕ) → Option PatchMinerReq → Hub → Response Miner × Hub
handle_patch_miner net owner id none h = (malformed, h)
handle_patch_miner net owner id (some req) h =
    if not (pool_accepted net req.pool_url)
    then (failure 400 ErrorCode.pool_url_invalid, h)
    else (if not (wallet_known owner req.wallet_id h.db)
        then (failure 400 ErrorCode.wallet_unknown, h)
        else answer 200 ErrorCode.no_code (patch_miner owner id req.name req.wallet_id req.pool_url)
            h)

-- The miner is cancelled before the query that asks whose it is.
unfoldable pub handle_delete_miner : (owner id : ℕ) → Hub → Response (Unit {0}) × Hub
handle_delete_miner owner id h =
    answer 204 ErrorCode.no_code (delete_miner owner id) (cancel_miner id StopReason.user h)

abbrev pub needs_wallet : Miner → Bool
needs_wallet m = is_null m.wallet_id && not (is_simulated m.engine)

-- The assignment of a miner that has just been queued, and its event.
unfoldable pub place : (writable : ℕ → Bool) → (owner id : ℕ) → Miner → Currency → Hub → Hub
place writable owner id m cur h =
    let (placed, h') = assign writable m cur (wallet_of writable owner m.wallet_id h.db) h in
    publish owner (if placed then miner_assigned id else miner_status id MinerStatus.queued) h'

unfoldable pub handle_start_miner :
    (writable : ℕ → Bool) → (owner id : ℕ) → Hub → Response Miner × Hub
unfolding place
handle_start_miner writable owner id h = elim (get_miner owner id h.db) [
  | err e ↦ (store_err e ErrorCode.no_code, h)
  | ok m ↦
      if is_running m.status || is_queued m.status
      then (failure 409 ErrorCode.already_running, h)
      else (if needs_wallet m
          then (failure 400 ErrorCode.wallet_required, h)
          else elim (get_currency m.currency h.db) [
            | err e ↦ (store_err e ErrorCode.no_code, h)
            | ok cur ↦
                let (r, db) = open_run m.id h.db in
                elim r [
                  | err e ↦ (store_err e ErrorCode.no_code, record h { db = db })
                  | ok _ ↦ (
                    success 202 (record m { status = MinerStatus.queued }),
                    place writable owner id m cur
                        (record h { db = set_miner_status id MinerStatus.queued db }),
                  )
                ]
          ])
]

unfoldable pub handle_stop_miner : (owner id : ℕ) → Hub → Response Miner × Hub
handle_stop_miner owner id h = elim (get_miner owner id h.db) [
  | err e ↦ (store_err e ErrorCode.no_code, h)
  | ok m ↦ (
    success 202 (record m { status = MinerStatus.stopped }),
    publish owner (miner_status id MinerStatus.stopped)
        (with_db (set_miner_status id MinerStatus.stopped) (cancel_miner id StopReason.user h)),
  )
]

-- The new percentages, as a request gives them.
unfoldable pub handle_miner_allocation :
    (owner id : ℕ) → Option (ℤ × ℤ) → Hub → Response Miner × Hub
handle_miner_allocation owner id none h = (malformed, h)
handle_miner_allocation owner id (some (cpu, gpu)) h =
    if not (in_range 1 100 cpu && in_range 0 100 gpu)
    then (malformed, h)
    else (let (r, db) = set_miner_allocation owner id (pos_part cpu) (pos_part gpu) h.db in
        elim r [
          | err e ↦ (store_err e ErrorCode.no_code, record h { db = db })
          | ok m ↦ (
            success 200 m,
            update_allocation m.id (pos_part cpu) (pos_part gpu) (record h { db = db }),
          )
        ])

pub data Series : Type 0 where
  raw : List Sample → Series
  hourly : List Rollup → Series

abbrev pub or_else {ℓ} : {A : Type ℓ} → Option A → A → A
or_else none a = a
or_else (some b) a = b

-- A week of rollups, or the newest 500 samples; `from` and `to` as `parseTime` gives them.
unfoldable pub handle_miner_history :
    (owner id : ℕ)
    → (is_raw : Bool) → (from to : Option ℕ) → Hub
    → Response (List MinerRun × Series) × Hub
handle_miner_history owner id is_raw from to h = elim (get_miner owner id h.db) [
  | err e ↦ (store_err e ErrorCode.no_code, h)
  | ok _ ↦ (
    success 200 (
      list_runs id 100 h.db,
      (if is_raw
          then raw (recent_metrics id 500 h.db)
          else hourly (
              hourly_rollups id (or_else from (h.db.clock - 7 * 24 * hour)) (or_else to h.db.clock)
                h.db)),
    ),
    h,
  )
]

unfoldable pub handle_miner_metrics :
    (owner id : ℕ) → (limit : Text) → Hub → Response (List Sample) × Hub
handle_miner_metrics owner id limit h = elim (get_miner owner id h.db) [
  | err e ↦ (store_err e ErrorCode.no_code, h)
  | ok _ ↦ (success 200 (recent_metrics id (metrics_limit (atoi limit)) h.db), h)
]
