-- ===== src/Swarm/Hub/Reports/Confined.antt =====
-- What a message of one worker can touch (swarm/hub.go).
use money_miner.Base.{
  ℕ, ◌≡◌, ◌≢◌, refl, Bool, false, none, some, List, [], ◌∷◌, arith, ◌==◌, All, Bool-cases, inl, inr,
  Text, is_empty, find_of_none,
}
use money_miner.Base.Int.{ℤ}
use money_miner.Base.Map.{lookup, lookup-insert, lookup-modify_ne}
use money_miner.Store.Types.{SwarmJob, is_null}
use money_miner.Store.Workers.{active_job_for_worker, is_active_for}
use money_miner.Swarm.Hub.State.{Hub}
use money_miner.Swarm.Hub.Reports.{
  handle_ack, handle_metrics, append_log, handle_message, worker_logs, Inbound, hello, pong,
  job_ack, metrics, share_submit, log, other,
}

-- What no message of a worker changes: the connections, what was sent to them or closed, and the
-- live entry and the logs of every other worker.
abbrev pub Confined : (v : ℕ) → Hub → Hub → Type 0
Confined v h h' =
    (h'.conns ≡ h.conns)
    × (h'.sent ≡ h.sent)
    × (h'.closed ≡ h.closed)
    × (lookup v h'.live ≡ lookup v h.live)
    × (worker_logs v h' ≡ worker_logs v h)

ack-Confined :
    (v worker owner job : ℕ) (fine : Bool) (h : Hub)
    → worker ≢ v
    → Confined v h (handle_ack worker owner job fine h)
unfolding handle_ack worker_logs
ack-Confined v worker owner job fine h ne = grind (arith, lookup-modify_ne)

metrics-Confined :
    (v worker owner job rate : ℕ) (acc rej : ℤ) (h : Hub)
    → worker ≢ v
    → Confined v h (handle_metrics worker owner job rate acc rej h)
unfolding handle_metrics worker_logs
metrics-Confined v worker owner job rate acc rej h ne = grind (arith, lookup-modify_ne)

log-Confined :
    (v worker : ℕ) (level msg : Text) (h : Hub)
    → worker ≢ v
    → Confined v h (append_log worker level msg h)
unfolding append_log worker_logs
log-Confined v worker level msg h ne = grind (arith, lookup-insert)

-- Whatever a worker sends, it changes no connection, sends and closes nothing, and leaves the live
-- entry and the logs of every other worker as they were.
handle_message-Confined :
    (v worker owner : ℕ) (m : Inbound) (h : Hub)
    → worker ≢ v
    → Confined v h (handle_message worker owner m h)
unfolding handle_message
handle_message-Confined v worker owner (hello none) h ne = (refl, refl, refl, refl, refl)
handle_message-Confined v worker owner (hello (some caps)) h ne =
    unfold worker_logs in (refl, refl, refl, refl, refl)
handle_message-Confined v worker owner pong h ne = (refl, refl, refl, refl, refl)
handle_message-Confined v worker owner share_submit h ne = (refl, refl, refl, refl, refl)
handle_message-Confined v worker owner other h ne = (refl, refl, refl, refl, refl)
handle_message-Confined v worker owner (job_ack job fine) h ne = elim (Bool-cases (job == 0)) [
  | inl blank ↦ rw blank (refl, refl, refl, refl, refl)
  | inr named ↦ rw named (ack-Confined v worker owner job fine h ne)
]
handle_message-Confined v worker owner (metrics job rate acc rej) h ne =
    elim (Bool-cases (job == 0)) [
      | inl blank ↦ rw blank (refl, refl, refl, refl, refl)
      | inr named ↦ rw named (metrics-Confined v worker owner job rate acc rej h ne)
    ]
handle_message-Confined v worker owner (log level msg) h ne = elim (Bool-cases (is_empty msg)) [
  | inl blank ↦ rw blank (refl, refl, refl, refl, refl)
  | inr text ↦ rw text (log-Confined v worker level msg h ne)
]

not_active :
    (worker job : ℕ) (rows : List SwarmJob)
    → All (λ (j : SwarmJob). (j.id ≡ job) → (j.worker ≡ worker) → is_null j.ended_at ≡ false) rows
    → All (λ j. is_active_for job worker j ≡ false) rows
not_active worker job [] a = tt
not_active worker job (j ∷ js) (h, a) = (grind (arith, h), not_active worker job js a)

-- A report about a job that is not an open job of the reporting worker changes nothing at all.
foreign_report_ignored :
    (worker owner job rate : ℕ) (acc rej : ℤ) (fine : Bool) (h : Hub)
    → All
        (λ (j : SwarmJob). (j.id ≡ job) → (j.worker ≡ worker) → is_null j.ended_at ≡ false)
        h.db.jobs
    → (handle_message worker owner (job_ack job fine) h ≡ h)
      × (handle_message worker owner (metrics job rate acc rej) h ≡ h)
unfolding handle_message handle_ack handle_metrics active_job_for_worker
foreign_report_ignored worker owner job rate acc rej fine h foreign =
    let none_active =
      find_of_none (is_active_for job worker) h.db.jobs (not_active worker job h.db.jobs foreign) in
    (ground arith, ground arith)
