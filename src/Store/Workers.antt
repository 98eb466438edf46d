-- ===== src/Store/Workers.antt =====
-- Workers and swarm jobs (store.go).
use money_miner.Base.{
  ℕ, suc, ◌+◌, Bool, true, false, not, none, some, List, [], ◌∷◌, ◌++◌, ◌==◌, ◌&&◌, if◌then◌else◌,
  find, select, update, delete, count_where, order_by, leb, is_some,
}
use money_miner.Store.Types.{
  Result, ok, err, StoreError, Worker, WorkerStatus, JobStatus, SwarmJob, is_revoked, is_null,
  is_id,
}
use money_miner.Store.Db.{Db, Query, one_row}
use money_miner.Store.Runs.{miner_exists}
use money_miner.Store.Metrics.{worker_exists}

-- A revoked worker keeps its status.
unfoldable pub set_worker_status : ℕ → WorkerStatus → Db → Db
set_worker_status id status db = record db {
  workers =
      update (λ w. w.id == id && not (is_revoked w.status))
        (λ w. record w { status = status; last_seen = some db.clock }) db.workers;
}

unfoldable pub update_worker_caps : ℕ → ℕ → Db → Db
update_worker_caps id caps db = record db {
  workers = update (λ w. w.id == id) (λ w. record w { caps = caps }) db.workers;
}

abbrev pub is_owned_worker : ℕ → ℕ → Worker → Bool
is_owned_worker owner id w = w.id == id && w.owner == owner

unfoldable pub get_worker : ℕ → ℕ → Db → Result Worker
get_worker owner id db = one_row (find (is_owned_worker owner id) db.workers)

unfoldable pub list_workers : ℕ → Db → List Worker
list_workers owner db =
    order_by (λ a b. leb b.enrolled_at a.enrolled_at) (select (λ w. w.owner == owner) db.workers)

abbrev pub is_open_job : SwarmJob → Bool
is_open_job j = is_null j.ended_at

-- The open jobs of the worker end with it.
unfoldable pub revoke_worker : ℕ → ℕ → Query (Unit {0})
revoke_worker owner id db =
    elim (count_where (λ w. is_owned_worker owner id w && is_null w.revoked_at) db.workers) [
      | ℕ.zero ↦ (err StoreError.not_found, db)
      | suc n ↦ (
        ok tt,
        record db {
          workers =
              update (λ w. is_owned_worker owner id w && is_null w.revoked_at)
                (λ w. record w { revoked_at = some db.clock; status = WorkerStatus.revoked })
                db.workers;
          jobs =
              update (λ j. j.worker == id && is_open_job j)
                (λ j. record j { ended_at = some db.clock; status = JobStatus.ended }) db.jobs;
        },
      )
    ]

-- Its jobs go with the worker; samples and join codes that refer to it keep a NULL
-- (ON DELETE SET NULL).
unfoldable pub delete_worker : ℕ → ℕ → Query (Unit {0})
delete_worker owner id db = elim (count_where (is_owned_worker owner id) db.workers) [
  | ℕ.zero ↦ (err StoreError.not_found, db)
  | suc n ↦ (
    ok tt,
    record db {
      workers = delete (is_owned_worker owner id) db.workers;
      jobs = delete (λ j. j.worker == id) db.jobs;
      samples = update (λ s. is_id s.worker id) (λ s. record s { worker = none }) db.samples;
      codes = update (λ c. is_id c.consumed_by id) (λ c. record c { consumed_by = none }) db.codes;
    },
  )
]

unfoldable pub create_swarm_job : ℕ → ℕ → Query ℕ
create_swarm_job miner worker db =
    if miner_exists miner db && worker_exists (some worker) db
    then (
      ok db.fresh,
      record db {
        fresh = db.fresh + 1;
        jobs =
            db.jobs
            ++ record {
              id = db.fresh;
              miner = miner;
              worker = worker;
              ended_at = none;
              status = JobStatus.assigned;
            }
              ∷ [];
      },
    )
    else (err StoreError.failed, db)

abbrev pub ends_job : JobStatus → Bool
ends_job JobStatus.ended = true
ends_job JobStatus.error = true
ends_job _ = false

unfoldable pub set_swarm_job_status : ℕ → JobStatus → Db → Db
set_swarm_job_status id status db = record db {
  jobs =
      if ends_job status
      then update (λ j. j.id == id && is_open_job j)
          (λ j. record j { status = status; ended_at = some db.clock }) db.jobs
      else update (λ j. j.id == id) (λ j. record j { status = status }) db.jobs;
}

abbrev pub is_active_for : ℕ → ℕ → SwarmJob → Bool
is_active_for job worker j = j.id == job && j.worker == worker && is_open_job j

-- The job must exist, belong to this worker, and be open.
unfoldable pub active_job_for_worker : ℕ → ℕ → Db → Result SwarmJob
active_job_for_worker job worker db = one_row (find (is_active_for job worker) db.jobs)

unfoldable pub active_jobs_for_miner : ℕ → Db → List SwarmJob
active_jobs_for_miner miner db = select (λ j. j.miner == miner && is_open_job j) db.jobs

-- Each worker once (DISTINCT), by its id.
unfoldable pub workers_for_miner : ℕ → Db → List Worker
workers_for_miner miner db =
    select
      (λ w. is_some (find (λ j. j.worker == w.id && j.miner == miner && is_open_job j) db.jobs))
      db.workers
