-- ===== src/Swarm/Hub/Reports.antt =====
-- Inbound worker messages: handleMessage, handleAck, handleMetrics, appendLog (hub.go).
pub mod Confined
pub mod Counters
pub mod Logs
use money_miner.Base.{
  ℕ, ◌+◌, ◌-◌, ◌≡◌, Bool, true, false, not, Option, none, some, List, [], ◌∷◌, ◌++◌, ltb, ◌==◌,
  if◌then◌else◌, length, drop, Text, is_empty,
}
use money_miner.Base.Int.{ℤ, pos, ◌+ℤ◌, ◌-ℤ◌, ltb_ℤ}
use money_miner.Base.Map.{lookup, insert, modify}
use money_miner.Store.Types.{Result, ok, err, MinerStatus, WorkerStatus, JobStatus, SwarmJob}
use money_miner.Store.Miners.{set_miner_status}
use money_miner.Store.Metrics.{insert_metric_sample}
use money_miner.Store.Workers.{
  active_job_for_worker, set_swarm_job_status, set_worker_status, update_worker_caps,
}
use money_miner.Swarm.Hub.State.{Hub, JobState, LiveWorker, LogLine, miner_status, publish, with_db}

unfoldable pub fresh_job : (miner owner : ℕ) (acc rej : ℤ) → JobState
fresh_job miner owner acc rej = record {
  miner = miner;
  owner = owner;
  last_acc = acc;
  last_rej = rej;
  tot_acc = pos 0;
  tot_rej = pos 0;
}

-- `handleAck`: `fine` is `status == "ok"`.
unfoldable pub handle_ack : (worker owner job : ℕ) → (fine : Bool) → Hub → Hub
unfolding fresh_job
handle_ack worker owner job fine h = elim (active_job_for_worker job worker h.db) [
  | err _ ↦ h
  | ok j ↦
      if fine
      then (let db = set_worker_status worker WorkerStatus.mining (
            set_miner_status j.miner MinerStatus.running
              (set_swarm_job_status job JobStatus.ack h.db)) in
          publish owner (miner_status j.miner MinerStatus.running) (record h {
            db = db;
            live = modify worker (λ lw. record lw { jobs = insert job j.miner lw.jobs }) h.live;
            jobs = insert job (fresh_job j.miner owner (pos 0) (pos 0)) h.jobs;
          }))
      else publish owner (miner_status j.miner MinerStatus.error) (
          with_db
            (λ db.
              set_miner_status j.miner MinerStatus.error
                (set_swarm_job_status job JobStatus.error db))
            h)
]

-- The increment of a cumulative counter; a counter that fell was restarted by the engine.
unfoldable pub delta : (now last : ℤ) → ℤ
delta now last = let d = now -ℤ last in if ltb_ℤ d (pos 0) then now else d

unfoldable pub count_report : (acc rej : ℤ) → JobState → JobState
unfolding delta
count_report acc rej js = record js {
  last_acc = acc;
  last_rej = rej;
  tot_acc = js.tot_acc +ℤ delta acc js.last_acc;
  tot_rej = js.tot_rej +ℤ delta rej js.last_rej;
}

-- `h.jobs[jobID]`, with a new entry that starts at the reported counters.
abbrev counted_job : Option JobState → (miner owner : ℕ) (acc rej : ℤ) → JobState
counted_job none miner owner acc rej = fresh_job miner owner acc rej
counted_job (some js) miner owner acc rej = js

unfoldable pub handle_metrics : (worker owner job hashrate : ℕ) (acc rej : ℤ) → Hub → Hub
unfolding count_report fresh_job insert_metric_sample
handle_metrics worker owner job hashrate acc rej h = elim (active_job_for_worker job worker h.db) [
  | err _ ↦ h
  | ok j ↦
      let js = counted_job (lookup job h.jobs) j.miner owner acc rej in
      record h {
        jobs = insert job (count_report acc rej js) h.jobs;
        live = modify worker (λ lw. record lw { hashrate = hashrate }) h.live;
        db =
            (insert_metric_sample j.miner (some worker) hashrate (delta acc js.last_acc)
              (delta rej js.last_rej) h.db).1;
      }
]

abbrev log_cap : ℕ
log_cap = 20

-- The last 20 lines.
unfoldable pub trim_log : List LogLine → List LogLine
trim_log l = if ltb log_cap (length l) then drop (length l - log_cap) l else l

abbrev lines_of : Option (List LogLine) → List LogLine
lines_of none = []
lines_of (some l) = l

unfoldable pub append_log : ℕ → Text → Text → Hub → Hub
unfolding trim_log
append_log worker level msg h =
    let l =
      lines_of (lookup worker h.logs)
      ++ record { at = h.db.clock; level = level; msg = msg } ∷ [] in
    record h { logs = insert worker (trim_log l) h.logs }

-- `WorkerLogs`
unfoldable pub worker_logs : ℕ → Hub → List LogLine
worker_logs worker h = lines_of (lookup worker h.logs)

-- A decoded message of a worker. `caps` is absent where the payload does not decode or is empty;
-- what does not decode at all, or has an unknown type, is `other`.
pub data Inbound : Type 0 where
  hello : (caps : Option ℕ) → Inbound
  pong : Inbound
  job_ack : (job : ℕ) → (fine : Bool) → Inbound
  metrics : (job hashrate : ℕ) → (acc rej : ℤ) → Inbound
  share_submit : Inbound
  log : (level msg : Text) → Inbound
  other : Inbound

abbrev update_caps : ℕ → Option ℕ → Hub → Hub
update_caps worker none h = h
update_caps worker (some caps) h = with_db (update_worker_caps worker caps) h

-- `handleMessage`: job id 0 stands for the empty job id, which is ignored.
unfoldable pub handle_message : (worker owner : ℕ) → Inbound → Hub → Hub
unfolding handle_ack handle_metrics append_log
handle_message worker owner (hello caps) h = update_caps worker caps h
handle_message worker owner pong h = h
handle_message worker owner (job_ack job fine) h =
    if job == 0 then h else handle_ack worker owner job fine h
handle_message worker owner (metrics job hashrate acc rej) h =
    if job == 0 then h else handle_metrics worker owner job hashrate acc rej h
handle_message worker owner share_submit h = h
handle_message worker owner (log level msg) h =
    if is_empty msg then h else append_log worker level msg h
handle_message worker owner other h = h
