-- ===== src/Api/Workers/Foreign.antt =====
-- Deleting a worker of somebody else (`handleDeleteWorker` of api/handlers.go).
use money_miner.Base.{ℕ, ◌≡◌, ◌++◌, [], ◌∷◌, some, arith, count_where}
use money_miner.Base.Map.{lookup}
use money_miner.Store.Workers.{delete_worker, is_owned_worker}
use money_miner.Swarm.Hub.State.{Hub, worker_revoke, CloseReason}
use money_miner.Swarm.Hub.Control.{revoke_connection}
use money_miner.Api.Response.{failure, ErrorCode, respond, store_err}
use money_miner.Api.Workers.{handle_delete_worker}

-- Deleting a worker that is not the caller's answers 404 and keeps the database, and yet tells the
-- worker that it is revoked and closes its connection.
foreign_delete_disconnects :
    (owner id conn : ℕ) (h : Hub)
    → count_where (is_owned_worker owner id) h.db.workers ≡ 0
    → lookup id h.conns ≡ some conn
    → let (r, h') = handle_delete_worker owner id h in
      (r ≡ failure 404 ErrorCode.not_found)
      × (h'.db ≡ h.db)
      × (h'.sent ≡ h.sent ++ (conn, worker_revoke) ∷ [])
      × (h'.closed ≡ h.closed ++ (conn, CloseReason.revoked) ∷ [])
unfolding handle_delete_worker revoke_connection delete_worker respond store_err
foreign_delete_disconnects owner id conn h foreign connected =
    (ground arith, ground arith, ground arith, ground arith)
