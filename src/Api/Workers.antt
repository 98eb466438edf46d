-- ===== src/Api/Workers.antt =====
-- The handlers of workers, join codes and statistics (api/handlers.go).
pub mod Foreign
use money_miner.Base.{
  ℕ, Option, none, some, List, [], ◌∷◌, Bool, true, false, not, ◌&&◌, map, Text, if◌then◌else◌,
}
use money_miner.Base.Int.{ℤ}
use money_miner.Store.Types.{Result, ok, err, Worker, WorkerStatus}
use money_miner.Store.Db.{Db}
use money_miner.Store.Workers.{list_workers, get_worker, revoke_worker, delete_worker}
use money_miner.Store.Payouts.{shares_24h, payouts_24h}
use money_miner.Swarm.Codes.{Crypto, Outcome, CodeInfo, list_codes, create, revoke}
use money_miner.Swarm.Hub.State.{Hub, LogLine, Event, worker_revoked, online, publish}
use money_miner.Swarm.Hub.Control.{revoke_connection}
use money_miner.Swarm.Hub.Reports.{worker_logs}
use money_miner.Swarm.Hub.Stats.{LiveStats, live_stats}
use money_miner.Api.Response.{Response, success, failure, ErrorCode, answer, answer_read, store_err}

-- A worker that holds a connection is shown as connected, whatever the row still says.
abbrev shown_status : (is_online : Bool) → WorkerStatus → WorkerStatus
shown_status true WorkerStatus.enrolled = WorkerStatus.connected
shown_status true WorkerStatus.offline = WorkerStatus.connected
shown_status true s = s
shown_status false s = s

abbrev show : Hub → Worker → Worker
show h w = record w { status = shown_status (online w.id h) w.status }

unfoldable pub handle_list_workers : (owner : ℕ) → Hub → Response (List Worker) × Hub
handle_list_workers owner h = answer_read (λ db. ok (map (show h) (list_workers owner db))) h

unfoldable pub handle_get_worker :
    (owner id : ℕ) → Hub → Response (Worker × Bool × List LogLine) × Hub
handle_get_worker owner id h = elim (get_worker owner id h.db) [
  | err e ↦ (store_err e ErrorCode.no_code, h)
  | ok w ↦ (success 200 (w, online w.id h, worker_logs w.id h), h)
]

abbrev found : {A : Type 0} → Result A → Option A
found (ok a) = some a
found (err _) = none

unfoldable pub handle_revoke_worker : (owner id : ℕ) → Hub → Response (Option Worker) × Hub
handle_revoke_worker owner id h =
    let (r, db) = revoke_worker owner id h.db in
    elim r [
      | err e ↦ (store_err e ErrorCode.no_code, record h { db = db })
      | ok _ ↦ (
        success 200 (found (get_worker owner id db)),
        publish owner (worker_revoked id) (revoke_connection id (record h { db = db })),
      )
    ]

-- The connection is revoked before the query that asks whose the worker is.
unfoldable pub handle_delete_worker : (owner id : ℕ) → Hub → Response (Unit {0}) × Hub
handle_delete_worker owner id h =
    answer 204 ErrorCode.no_code (delete_worker owner id) (revoke_connection id h)

unfoldable pub handle_list_join_codes : (owner : ℕ) → Hub → Response (List CodeInfo) × Hub
handle_list_join_codes owner h = answer_read (λ db. ok (list_codes owner db)) h

-- The plaintext leaves here, once.
unfoldable pub handle_create_join_code :
    Crypto → (owner : ℕ) → Option (List ℕ) → (salt : ℕ) → Hub → Response (CodeInfo × Text) × Hub
handle_create_join_code crypto owner bytes salt h =
    let (r, db) = create crypto owner bytes salt h.db in
    elim r [
      | Outcome.done c ↦ (success 201 c, record h { db = db })
      | _ ↦ (failure 500 ErrorCode.internal, record h { db = db })
    ]

unfoldable pub handle_delete_join_code : (owner id : ℕ) → Hub → Response (Unit {0}) × Hub
handle_delete_join_code owner id h =
    let (r, db) = revoke owner id h.db in
    elim r [
      | Outcome.done _ ↦ (success 204 tt, record h { db = db })
      | _ ↦ (failure 404 ErrorCode.not_found, record h { db = db })
    ]

-- The live statistics with the shares and the payouts of a day.
unfoldable pub handle_swarm_stats : (owner : ℕ) → Hub → Response (LiveStats × ℤ × ℤ) × Hub
handle_swarm_stats owner h =
    (success 200 (live_stats owner h, shares_24h owner h.db, payouts_24h owner h.db), h)
