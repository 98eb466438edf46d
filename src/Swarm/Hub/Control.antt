-- ===== src/Swarm/Hub/Control.antt =====
-- Ending and changing jobs: CancelMiner, AllocationUpdate, RevokeWorker (hub.go).
pub mod Cancel
use money_miner.Base.{
  ℕ, ◌+◌, ◌≡◌, Bool, true, false, Option, none, some, List, [], ◌∷◌, ◌==◌, ◌&&◌, leb, if◌then◌else◌,
  length, select,
}
use money_miner.Base.Int.{ℤ, pos}
use money_miner.Base.Map.{lookup, erase, modify}
use money_miner.Store.Types.{JobStatus, StopReason, SwarmJob, Average, Sample, MinerRun}
use money_miner.Store.Db.{Db}
use money_miner.Store.Runs.{close_run, current_run}
use money_miner.Store.Workers.{active_jobs_for_miner, set_swarm_job_status}
use money_miner.Swarm.Hub.State.{
  Hub, JobState, Message, job_cancel, allocation_update, worker_revoke, CloseReason, send, send_if,
  close, with_db,
}

abbrev start_of : Option MinerRun → ℕ
start_of none = 0
start_of (some r) = r.started_at

abbrev sum_rates : List Sample → ℕ
sum_rates [] = 0
sum_rates (s ∷ ss) = s.hashrate + sum_rates ss

-- `runAvgHashrate`: over the samples since the open run began, or over all samples without one.
unfoldable run_avg_hashrate : ℕ → Db → Average
run_avg_hashrate miner db =
    let since = start_of (current_run miner db) in
    let ss = select (λ s. s.miner == miner && leb since s.ts) db.samples in
    record { total = sum_rates ss; samples = length ss }

abbrev acc_of : Option JobState → ℤ
acc_of none = pos 0
acc_of (some js) = js.tot_acc

abbrev rej_of : Option JobState → ℤ
rej_of none = pos 0
rej_of (some js) = js.tot_rej

-- One round of CancelMiner.
unfoldable pub cancel_job : (miner : ℕ) → StopReason → SwarmJob → Hub → Hub
unfolding run_avg_hashrate
cancel_job miner reason j h =
    let js = lookup j.id h.jobs in
    let h' : Hub = record h {
      jobs = erase j.id h.jobs;
      live = modify j.worker (λ lw. record lw { jobs = erase j.id lw.jobs; hashrate = 0 }) h.live;
    } in
    with_db
      (λ db.
        close_run miner reason (run_avg_hashrate miner db) (acc_of js) (rej_of js)
          (set_swarm_job_status j.id JobStatus.ended db))
      (send_if (lookup j.worker h.conns) (job_cancel j.id) h')

unfoldable pub cancel_jobs : (miner : ℕ) → StopReason → List SwarmJob → Hub → Hub
unfolding cancel_job
cancel_jobs miner reason [] h = h
cancel_jobs miner reason (j ∷ js) h = cancel_jobs miner reason js (cancel_job miner reason j h)

-- `CancelMiner`
unfoldable pub cancel_miner : (miner : ℕ) → StopReason → Hub → Hub
unfolding cancel_jobs
cancel_miner miner reason h = cancel_jobs miner reason (active_jobs_for_miner miner h.db) h

unfoldable pub update_jobs : (cpu_pct gpu_pct : ℕ) → List SwarmJob → Hub → Hub
update_jobs cpu_pct gpu_pct [] h = h
update_jobs cpu_pct gpu_pct (j ∷ js) h =
    update_jobs cpu_pct gpu_pct js
      (send_if (lookup j.worker h.conns) (allocation_update j.id cpu_pct gpu_pct) h)

-- `AllocationUpdate`
unfoldable pub update_allocation : (miner cpu_pct gpu_pct : ℕ) → Hub → Hub
unfolding update_jobs
update_allocation miner cpu_pct gpu_pct h =
    update_jobs cpu_pct gpu_pct (active_jobs_for_miner miner h.db) h

-- `Hub.RevokeWorker`: the connection is told and closed; its handler unregisters the worker later.
unfoldable pub revoke_connection : ℕ → Hub → Hub
revoke_connection worker h = elim (lookup worker h.conns) [
  | none ↦ h
  | some conn ↦ close conn CloseReason.revoked (send conn worker_revoke h)
]
