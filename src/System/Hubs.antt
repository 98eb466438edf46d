-- ===== src/System/Hubs.antt =====
-- The operations of the hub and the invariant.
use money_miner.Base.{
  ℕ, ◌+◌, ◌≡◌, refl, Bool, true, ◌&&◌, Option, none, some, List, [], ◌∷◌, ◌==◌, arith, All-append,
  find, find_sound, find-All, Bool-cases, Option-cases, inl, inr, Text, is_empty, ◌∙◌, ◌<◌,
}
use money_miner.Base.Int.{ℤ}
use money_miner.Base.Map.{lookup}
use money_miner.Store.Types.{
  Result-cases, ok, Currency, Kind, Miner, MinerStatus, Worker, SwarmJob, JobStatus, StopReason,
  WorkerStatus,
}
use money_miner.Store.Db.{Db}
use money_miner.Store.Miners.{miner_owner}
use money_miner.Store.Runs.{close_run, miner_exists}
use money_miner.Store.Metrics.{worker_exists}
use money_miner.Store.Workers.{
  get_worker, create_swarm_job, active_job_for_worker, is_owned_worker, active_jobs_for_miner,
}
use money_miner.Swarm.Hub.State.{Hub, LiveWorker, Message, allocation_update, send_if}
use money_miner.Swarm.Hub.Connections.{register, connect, unregister, touch, supervise_tick}
use money_miner.Swarm.Hub.Reports.{
  Inbound, hello, pong, job_ack, metrics, share_submit, log, other, handle_message, handle_ack,
  handle_metrics, append_log,
}
use money_miner.Swarm.Hub.Assignment.{assign, choose, dispatch}
use money_miner.Swarm.Hub.Control.{cancel_job, update_allocation, update_jobs, revoke_connection}
use money_miner.System.{
  Step, queries, publishes, connects, disconnects, touches, supervises, hears, assigns, cancels,
  reallocates, closes, revokes,
}
use money_miner.System.Queries.{run_op-IsSound}
use money_miner.System.Sound.{
  IsSound, IsPaired, owner_of_miner, owner_of_worker, jobs_later, pair_of,
}
use money_miner.System.Keys.{later-IsTable, IsKeyed}
use money_miner.System.Queries.Others.{insert_metric_sample-Keeps, kept-IsSound}
use money_miner.System.Queries.Miners.{set_miner_status-IsSound}
use money_miner.System.Queries.Workers.{
  set_worker_status-IsSound, update_worker_caps-IsSound, set_swarm_job_status-IsSound,
}

connect-IsSound :
    (worker owner : ℕ) (kind : Kind) (conn : ℕ) (h : Hub)
    → IsSound h.db
    → IsSound (connect worker owner kind conn h).db
unfolding connect register
connect-IsSound worker owner kind conn h a = elim (Option-cases (lookup worker h.conns)) [
  | inl new ↦
      rw (new, connect, register) (set_worker_status-IsSound worker WorkerStatus.connected h.db a)
  | inr (old, held) ↦
      rw (held, connect, register) (set_worker_status-IsSound worker WorkerStatus.connected h.db a)
]

unregister-IsSound : (worker : ℕ) (h : Hub) → IsSound h.db → IsSound (unregister worker h).db
unfolding unregister
unregister-IsSound worker h a = elim (Option-cases (lookup worker h.live)) [
  | inl new ↦ rw (new, unregister) (set_worker_status-IsSound worker WorkerStatus.offline h.db a)
  | inr (old, held) ↦
      rw (held, unregister) (set_worker_status-IsSound worker WorkerStatus.offline h.db a)
]

supervise_tick_db :
    (worker conn : ℕ) (answers : Bool) (h : Hub)
    → (supervise_tick worker conn answers h).1.db ≡ h.db
unfolding supervise_tick
supervise_tick_db worker conn answers h = ground arith

handle_ack-IsSound :
    (worker owner job : ℕ) (fine : Bool) (h : Hub)
    → IsSound h.db
    → IsSound (handle_ack worker owner job fine h).db
unfolding handle_ack
handle_ack-IsSound worker owner job fine h a =
    elim (Result-cases (active_job_for_worker job worker h.db)) [
      | inr (x, foreign) ↦ rw (foreign, handle_ack) a
      | inl (j, own) ↦ elim (Bool-cases fine) [
        | inl good ↦
            rw (own, good, handle_ack)
              (set_worker_status-IsSound worker WorkerStatus.mining _ (
                set_miner_status-IsSound j.miner MinerStatus.running _
                  (set_swarm_job_status-IsSound job JobStatus.ack h.db a)))
        | inr bad ↦
            rw (own, bad, handle_ack)
              (set_miner_status-IsSound j.miner MinerStatus.error _
                (set_swarm_job_status-IsSound job JobStatus.error h.db a))
      ]
    ]

handle_metrics-IsSound :
    (worker owner job hashrate : ℕ) (acc rej : ℤ) (h : Hub)
    → IsSound h.db
    → IsSound (handle_metrics worker owner job hashrate acc rej h).db
unfolding handle_metrics
handle_metrics-IsSound worker owner job hashrate acc rej h a =
    elim (Result-cases (active_job_for_worker job worker h.db)) [
      | inr (x, foreign) ↦ rw (foreign, handle_metrics) a
      | inl (j, own) ↦
          rw (own, handle_metrics)
            (kept-IsSound h.db _
              (insert_metric_sample-Keeps j.miner (some worker) hashrate _ _ h.db) a)
    ]

handle_message-IsSound :
    (worker owner : ℕ) (m : Inbound) (h : Hub)
    → IsSound h.db
    → IsSound (handle_message worker owner m h).db
unfolding handle_message append_log
handle_message-IsSound worker owner (hello none) h a = a
handle_message-IsSound worker owner (hello (some caps)) h a =
    update_worker_caps-IsSound worker caps h.db a
handle_message-IsSound worker owner pong h a = a
handle_message-IsSound worker owner (job_ack job fine) h a = elim (Bool-cases (job == 0)) [
  | inl empty ↦ rw (empty, handle_message) a
  | inr named ↦ rw (named, handle_message) (handle_ack-IsSound worker owner job fine h a)
]
handle_message-IsSound worker owner (metrics job hashrate acc rej) h a =
    elim (Bool-cases (job == 0)) [
      | inl empty ↦ rw (empty, handle_message) a
      | inr named ↦
          rw (named, handle_message) (handle_metrics-IsSound worker owner job hashrate acc rej h a)
    ]
handle_message-IsSound worker owner share_submit h a = a
handle_message-IsSound worker owner (log level msg) h a = elim (Bool-cases (is_empty msg)) [
  | inl empty ↦ rw (empty, handle_message) a
  | inr line ↦ rw (line, handle_message) a
]
handle_message-IsSound worker owner other h a = a

-- A worker that get_worker finds under the miner's owner, and a miner that exists, are of one owner.
found_pair :
    (miner worker : ℕ) (w : Worker) (db : Db)
    → IsSound db
    → miner_exists miner db ≡ true
    → get_worker (miner_owner miner db) worker db ≡ ok w
    → (o : ℕ) × (owner_of_miner miner db.miners ≡ some o)
      × (owner_of_worker worker db.workers ≡ some o)
unfolding get_worker miner_owner
found_pair miner worker w db a exists got =
    elim (Option-cases (find (λ m. m.id == miner) db.miners)) [
      | inl missing ↦ absurd (ground arith)
      | inr (m, found) ↦
          let hit : find (is_owned_worker m.owner worker) db.workers ≡ some w = ground arith in
          let sound : is_owned_worker m.owner worker w ≡ true =
            find_sound (is_owned_worker m.owner worker) db.workers w hit in
          let key : owner_of_worker w.id db.workers ≡ some w.owner =
            find-All (IsKeyed (λ (q : Worker). q.id) (λ q. q.owner) db.workers)
              (is_owned_worker m.owner worker) db.workers w a.workers.keyed hit in
          (m.owner, ground arith, ground arith)
    ]

-- The row that Assign makes for a worker that is the miner's owner's.
create_swarm_job-IsSound :
    (miner worker : ℕ) (w : Worker) (db : Db)
    → get_worker (miner_owner miner db) worker db ≡ ok w
    → IsSound db
    → IsSound (create_swarm_job miner worker db).1
unfolding create_swarm_job
create_swarm_job-IsSound miner worker w db got a =
    elim (Bool-cases (miner_exists miner db && worker_exists (some worker) db)) [
      | inr unknown ↦ rw (unknown, create_swarm_job) a
      | inl known ↦
          let j : SwarmJob = record {
            id = db.fresh;
            miner = miner;
            worker = worker;
            ended_at = none;
            status = JobStatus.assigned;
          } in
          let (o, m, k) = found_pair miner worker w db a (ground arith) got in
          rw (known, create_swarm_job)
            (record {
              older =
                  All-append (λ (q : SwarmJob). q.id < db.fresh + 1) db.jobs (j ∷ [])
                    (jobs_later db.fresh (db.fresh + 1) db.jobs (omega arith) a.older)
                    (omega arith, tt);
              miners = later-IsTable _ _ db.fresh (db.fresh + 1) db.miners (omega arith) a.miners;
              workers =
                  later-IsTable _ _ db.fresh (db.fresh + 1) db.workers (omega arith) a.workers;
              paired =
                  All-append (IsPaired db.miners db.workers) db.jobs (j ∷ []) a.paired
                    (pair_of db.miners db.workers j o m k, tt);
            })
    ]

module _ (writable : ℕ → Bool) (m : Miner) (cur : Currency) (wallet : Text) where
  dispatch-IsSound :
      (target : LiveWorker) (conn : ℕ) (h : Hub)
      → IsSound h.db
      → IsSound (dispatch writable m cur wallet target conn h).1.db
  unfolding dispatch
  dispatch-IsSound target conn h a =
      elim (Result-cases (get_worker (miner_owner m.id h.db) target.worker h.db)) [
        | inr (x, missing) ↦ rw (missing, dispatch) a
        | inl (w, got) ↦
            let b = create_swarm_job-IsSound m.id target.worker w h.db got a in
            elim (Result-cases (create_swarm_job m.id target.worker h.db).0) [
              | inr (x, failed) ↦ rw (got, failed, dispatch) a
              | inl (job, made) ↦ elim (Bool-cases (writable conn)) [
                | inl sent ↦
                    rw (got, made, sent, dispatch)
                      (set_worker_status-IsSound target.worker WorkerStatus.assigned _ b)
                | inr unsent ↦
                    rw (got, made, unsent, dispatch)
                      (set_swarm_job_status-IsSound job JobStatus.error _ b)
              ]
            ]
      ]

  assign-IsSound : (h : Hub) → IsSound h.db → IsSound (assign writable m cur wallet h).1.db
  unfolding assign
  assign-IsSound h a = elim (Option-cases (choose (miner_owner m.id h.db) h h.live none)) [
    | inl nobody ↦ rw (nobody, assign) a
    | inr (target, chosen) ↦ elim (Option-cases (lookup target.worker h.conns)) [
      | inl gone ↦ rw (chosen, gone, assign) a
      | inr (conn, held) ↦ rw (chosen, held, assign) (dispatch-IsSound target conn h a)
    ]
  ]

send_if_db : (c : Option ℕ) (msg : Message) (h : Hub) → (send_if c msg h).db ≡ h.db
send_if_db none msg h = refl
send_if_db (some conn) msg h = refl

cancel_job-IsSound :
    (miner : ℕ) (reason : StopReason) (j : SwarmJob) (h : Hub)
    → IsSound h.db
    → IsSound (cancel_job miner reason j h).db
unfolding cancel_job close_run
cancel_job-IsSound miner reason j h a =
    let b = set_swarm_job_status-IsSound j.id JobStatus.ended h.db a in
    elim (Option-cases (lookup j.worker h.conns)) [
      | inl gone ↦
          rw (gone, cancel_job)
            (record { older = b.older; miners = b.miners; workers = b.workers; paired = b.paired })
      | inr (conn, held) ↦
          rw (held, cancel_job)
            (record { older = b.older; miners = b.miners; workers = b.workers; paired = b.paired })
    ]

update_jobs_db : (cpu gpu : ℕ) (js : List SwarmJob) (h : Hub) → (update_jobs cpu gpu js h).db ≡ h.db
unfolding update_jobs
update_jobs_db cpu gpu [] h = refl
update_jobs_db cpu gpu (j ∷ js) h =
    update_jobs_db cpu gpu js (send_if (lookup j.worker h.conns) (allocation_update j.id cpu gpu) h)
    ∙ send_if_db (lookup j.worker h.conns) (allocation_update j.id cpu gpu) h

revoke_connection_db : (worker : ℕ) (h : Hub) → (revoke_connection worker h).db ≡ h.db
unfolding revoke_connection
revoke_connection_db worker h = ground arith

pub Step-IsSound : (h h' : Hub) → Step h h' → IsSound h.db → IsSound h'.db
unfolding touch update_allocation
Step-IsSound h _ (queries q) a = run_op-IsSound q h.db a
Step-IsSound h _ (publishes owner e) a = a
Step-IsSound h _ (connects crypto token worker owner kind conn e) a =
    connect-IsSound worker owner kind conn h a
Step-IsSound h _ (disconnects worker) a = unregister-IsSound worker h a
Step-IsSound h _ (touches worker) a = a
Step-IsSound h _ (supervises worker conn answers) a = rw (supervise_tick_db worker conn answers h) a
Step-IsSound h _ (hears worker owner m) a = handle_message-IsSound worker owner m h a
Step-IsSound h _ (assigns writable m cur wallet) a = assign-IsSound writable m cur wallet h a
Step-IsSound h _ (cancels miner reason j) a = cancel_job-IsSound miner reason j h a
Step-IsSound h _ (reallocates miner cpu gpu) a =
    rw (update_jobs_db cpu gpu (active_jobs_for_miner miner h.db) h) a
Step-IsSound h _ (closes conn reason) a = a
Step-IsSound h _ (revokes worker) a = rw (revoke_connection_db worker h) a
