-- ===== src/Store/Lifecycle.antt =====
-- Revocations and the ends of jobs and runs (store.go).
use money_miner.Base.{
  ℕ, ◌≡◌, ◌≢◌, refl, true, false, not, none, some, List, [], ◌∷◌, arith, ◌==◌, select, find,
  count_where, update, All, ◌&&◌, find-update, select-update, ℕ-cases, inl, inr, ◌∙◌,
}
use money_miner.Base.Int.{ℤ}
use money_miner.Store.Types.{
  err, StoreError, Worker, WorkerStatus, JobStatus, SwarmJob, StopReason, Average, MinerRun,
  is_revoked, is_null,
}
use money_miner.Store.Db.{Db}
use money_miner.Store.Runs.{is_open_run, close_run, current_run}
use money_miner.Store.Workers.{
  set_worker_status, revoke_worker, is_owned_worker, is_open_job, ends_job, set_swarm_job_status,
  active_job_for_worker, is_active_for,
}

-- The status and the time of a revocation go together.
abbrev IsMarked : Worker → Type 0
IsMarked w = is_revoked w.status ≡ not (is_null w.revoked_at)

abbrev AreMarked : Db → Type 0
AreMarked db = All IsMarked db.workers

set_worker_status-AreMarked :
    (id : ℕ) (status : WorkerStatus) (rows : List Worker) (now : ℕ)
    → is_revoked status ≡ false
    → All IsMarked rows
    → All IsMarked (
        update
          (λ w. w.id == id && not (is_revoked w.status))
          (λ w. record w { status = status; last_seen = some now })
          rows)
set_worker_status-AreMarked id status [] now live a = tt
set_worker_status-AreMarked id status (w ∷ ws) now live (m, a) =
    (ground arith, set_worker_status-AreMarked id status ws now live a)

revoke-AreMarked :
    (owner id now : ℕ) (rows : List Worker)
    → All IsMarked rows
    → All IsMarked (
        update
          (λ w. is_owned_worker owner id w && is_null w.revoked_at)
          (λ w. record w { revoked_at = some now; status = WorkerStatus.revoked })
          rows)
revoke-AreMarked owner id now [] a = tt
revoke-AreMarked owner id now (w ∷ ws) (m, a) = (ground arith, revoke-AreMarked owner id now ws a)

open_rows : ℕ → ℕ → Db → ℕ
open_rows owner id db =
    count_where (λ w. is_owned_worker owner id w && is_null w.revoked_at) db.workers

-- Reporting a status other than `revoked`, and revoking, keep status and time of revocation in
-- step.
status-AreMarked :
    (owner id : ℕ) (status : WorkerStatus) (db : Db)
    → is_revoked status ≡ false
    → AreMarked db
    → AreMarked (set_worker_status id status db) × AreMarked (revoke_worker owner id db).1
unfolding set_worker_status revoke_worker open_rows
status-AreMarked owner id status db live a = (
  set_worker_status-AreMarked id status db.workers db.clock live a,
  elim (ℕ-cases (open_rows owner id db)) [
    | inl nobody ↦ rw (nobody, revoke_worker) a
    | inr (n, some_row) ↦
        rw (some_row, revoke_worker) (revoke-AreMarked owner id db.clock db.workers a)
  ],
)

-- A revoked worker stays revoked, and keeps the time of its revocation, whatever status the hub
-- reports for any worker and whichever worker is revoked afterwards.
revoked_for_good :
    (owner id other : ℕ) (status : WorkerStatus) (db : Db) (w : Worker) (at : ℕ)
    → find (λ r. r.id == id) db.workers ≡ some w
    → w.status ≡ WorkerStatus.revoked
    → w.revoked_at ≡ some at
    → (find (λ r. r.id == id) (set_worker_status other status db).workers ≡ some w)
      × (find (λ r. r.id == id) (revoke_worker owner other db).1.workers ≡ some w)
unfolding set_worker_status revoke_worker open_rows
revoked_for_good owner id other status db w at found st time = (
  find-update (λ r. r.id == id) (λ r. r.id == other && not (is_revoked r.status))
        (λ r. record r { status = status; last_seen = some db.clock }) db.workers (λ r. refl) w
        found
      ∙ ground arith,
  elim (ℕ-cases (open_rows owner other db)) [
    | inl nobody ↦ rw (nobody, revoke_worker) found
    | inr (n, some_row) ↦
        rw (some_row, revoke_worker)
          (find-update (λ r. r.id == id)
              (λ r. is_owned_worker owner other r && is_null r.revoked_at)
              (λ r. record r { revoked_at = some db.clock; status = WorkerStatus.revoked })
              db.workers (λ r. refl) w found
            ∙ ground arith)
  ],
)

ended_rows :
    (job worker : ℕ) (status : JobStatus) (now : ℕ) (rows : List SwarmJob)
    → find (is_active_for job worker) (
        update
          (λ j. j.id == job && is_open_job j)
          (λ j. record j { status = status; ended_at = some now })
          rows)
      ≡ none
ended_rows job worker status now [] = refl
ended_rows job worker status now (j ∷ js) = ground (arith, ended_rows job worker status now js)

-- Once a job is reported as ended or failed, no worker passes the check of ActiveJobForWorker
-- with it any more.
ended_job_inactive :
    (job worker : ℕ) (status : JobStatus) (db : Db)
    → ends_job status ≡ true
    → active_job_for_worker job worker (set_swarm_job_status job status db)
      ≡ err StoreError.not_found
unfolding active_job_for_worker set_swarm_job_status
ended_job_inactive job worker status db ends =
    ground (arith, ended_rows job worker status db.clock db.jobs)

closed_rows :
    (miner now : ℕ) (reason : StopReason) (avg : Average) (acc rej : ℤ) (rows : List MinerRun)
    → select (is_open_run miner) (
        update
          (is_open_run miner)
          (λ r. record r {
            stopped_at = some now;
            stop_reason = some reason;
            avg_hashrate = avg;
            shares_accepted = acc;
            shares_rejected = rej;
          })
          rows)
      ≡ []
closed_rows miner now reason avg acc rej [] = refl
closed_rows miner now reason avg acc rej (r ∷ rs) =
    ground (arith, closed_rows miner now reason avg acc rej rs)

-- Closing the run of a miner leaves it with no open run, and leaves the current run of every other
-- miner alone.
pub close_run_closes :
    (miner other : ℕ) (reason : StopReason) (avg : Average) (acc rej : ℤ) (db : Db)
    → other ≢ miner
    → (current_run miner (close_run miner reason avg acc rej db) ≡ none)
      × (current_run other (close_run miner reason avg acc rej db) ≡ current_run other db)
unfolding current_run close_run
close_run_closes miner other reason avg acc rej db ne = (
  rw (closed_rows miner db.clock reason avg acc rej db.runs),
  rw (
      select-update (is_open_run other) (is_open_run miner)
        (λ r. record r {
          stopped_at = some db.clock;
          stop_reason = some reason;
          avg_hashrate = avg;
          shares_accepted = acc;
          shares_rejected = rej;
        })
        db.runs (λ r h. (ground arith, ground arith))),
)
