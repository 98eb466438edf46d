-- ===== src/Api/Miners/Tenancy.antt =====
-- Requests for a miner of somebody else (api/handlers.go).
use money_miner.Base.{
  ℕ, ◌≢◌, ◌≡◌, refl, sym, ◌∙◌, Bool, Option, none, some, List, [], ◌∷◌, Text, arith, All, subst,
}
use money_miner.Base.Int.{ℤ, pos_part}
use money_miner.Store.Types.{StopReason, SwarmJob, MinerRow}
use money_miner.Store.Isolation.{IsForeign, foreign_not_found}
use money_miner.Store.Workers.{active_jobs_for_miner, set_swarm_job_status}
use money_miner.Store.Runs.{close_run}
use money_miner.Swarm.Hub.State.{Hub}
use money_miner.Swarm.Hub.Control.{cancel_job, cancel_jobs, cancel_miner}
use money_miner.Swarm.Hub.Control.Cancel.{cancel_miner_ends}
use money_miner.Api.Response.{failure, ErrorCode, store_err, respond}
use money_miner.Api.Pool.{Net}
use money_miner.Api.Miners.{
  handle_get_miner, handle_start_miner, handle_stop_miner, handle_patch_miner,
  handle_miner_allocation, handle_miner_history, handle_miner_metrics, handle_delete_miner,
  PatchMinerReq,
}

module _ (owner id : ℕ) (h : Hub) (foreign : IsForeign owner id h.db) where
  -- Reading, starting and stopping a miner of somebody else, and its history and samples, answer
  -- 404 and leave the hub, its database included, as it was.
  pub foreign_requests_refused :
      (writable : ℕ → Bool) (is_raw : Bool) (from to : Option ℕ) (limit : Text)
      → (handle_get_miner owner id h ≡ (failure 404 ErrorCode.not_found, h))
        × (handle_start_miner writable owner id h ≡ (failure 404 ErrorCode.not_found, h))
        × (handle_stop_miner owner id h ≡ (failure 404 ErrorCode.not_found, h))
        × (handle_miner_history owner id is_raw from to h ≡ (failure 404 ErrorCode.not_found, h))
        × (handle_miner_metrics owner id limit h ≡ (failure 404 ErrorCode.not_found, h))
  unfolding handle_get_miner handle_start_miner handle_stop_miner handle_miner_history
      handle_miner_metrics store_err
  foreign_requests_refused writable is_raw from to limit =
      let (e, _, _, _) = foreign_not_found owner id none none none 0 0 h.db foreign in
      (ground arith, ground arith, ground arith, ground arith, ground arith)

  patch_refused :
      (net : Net) (patch : Option PatchMinerReq) → (handle_patch_miner net owner id patch h).1 ≡ h
  unfolding handle_patch_miner
  patch_refused net none = refl
  patch_refused net (some req) =
      let (_, e, _, _) =
        foreign_not_found owner id req.name req.wallet_id req.pool_url 0 0 h.db foreign in
      ground arith

  shares_refused : (shares : Option (ℤ × ℤ)) → (handle_miner_allocation owner id shares h).1 ≡ h
  unfolding handle_miner_allocation
  shares_refused none = refl
  shares_refused (some (cpu, gpu)) =
      let (_, _, e, _) =
        foreign_not_found owner id none none none (pos_part cpu) (pos_part gpu) h.db foreign in
      ground arith

  -- Patching a miner of somebody else, or setting its shares, changes nothing, whatever the body.
  foreign_changes_refused :
      (net : Net) (patch : Option PatchMinerReq) (shares : Option (ℤ × ℤ))
      → ((handle_patch_miner net owner id patch h).1 ≡ h)
        × ((handle_miner_allocation owner id shares h).1 ≡ h)
  foreign_changes_refused net patch shares = (patch_refused net patch, shares_refused shares)

cancel_jobs-miners :
    (miner : ℕ) (reason : StopReason) (js : List SwarmJob) (h : Hub)
    → (cancel_jobs miner reason js h).db.miners ≡ h.db.miners
unfolding cancel_jobs cancel_job set_swarm_job_status close_run
cancel_jobs-miners miner reason [] h = refl
cancel_jobs-miners miner reason (j ∷ js) h =
    cancel_jobs-miners miner reason js (cancel_job miner reason j h) ∙ ground arith

-- Deleting a miner of somebody else answers 404, and yet ends every open job of that miner.
pub foreign_delete_cancels :
    (owner id : ℕ) (h : Hub)
    → IsForeign owner id h.db
    → ((handle_delete_miner owner id h).0 ≡ failure 404 ErrorCode.not_found)
      × (active_jobs_for_miner id (handle_delete_miner owner id h).1.db ≡ [])
unfolding handle_delete_miner cancel_miner respond store_err
foreign_delete_cancels owner id h foreign =
    let h' = cancel_miner id StopReason.user h in
    let kept : h'.db.miners ≡ h.db.miners =
      cancel_jobs-miners id StopReason.user (active_jobs_for_miner id h.db) h in
    let still =
      subst (λ ms. All (λ (m : MinerRow). m.id ≡ id → m.owner ≢ owner) ms) (sym kept) foreign in
    let (_, _, _, e) = foreign_not_found owner id none none none 0 0 h'.db still in
    (rw e, rw e (cancel_miner_ends id StopReason.user h).0)
