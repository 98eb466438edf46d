-- ===== src/System/Queries/Workers.antt =====
-- The operations on workers, jobs and codes, and the invariant (store.go, swarm/codes.go).
use money_miner.Base.{
  ℕ, ◌+◌, ◌<◌, refl, not, ◌&&◌, some, List, [], ◌∷◌, ◌++◌, ◌==◌, arith, All-delete, update, delete,
  count_where, Bool-cases, ℕ-cases, inl, inr, Text,
}
use money_miner.Store.Types.{
  MinerRow, Worker, SwarmJob, JobStatus, WorkerStatus, JoinCode, is_null, is_revoked,
}
use money_miner.Store.Db.{Db}
use money_miner.Store.Workers.{
  set_worker_status, update_worker_caps, revoke_worker, delete_worker, set_swarm_job_status,
  is_owned_worker, is_open_job, ends_job,
}
use money_miner.Swarm.Codes.{Hardware, redeem, redeems, new_worker, row_fits}
use money_miner.System.Sound.{IsSound, ArePaired, paired_owner, pair_of}
use money_miner.System.Keys.{append-IsTable, delete-IsTable, append-Stays, stays_beside}
use money_miner.System.Queries.Rows.{workers-IsSound, update_workers-IsSound, jobs-IsSound}

kept_after_worker :
    (owner gone : ℕ) (miners : List MinerRow) (workers : List Worker) (jobs : List SwarmJob)
    → ArePaired miners workers jobs
    → ArePaired miners
        (delete (is_owned_worker owner gone) workers)
        (delete (λ j. j.worker == gone) jobs)
kept_after_worker owner gone miners workers [] a = tt
kept_after_worker owner gone miners workers (j ∷ jobs) (h, a) =
    elim (Bool-cases (j.worker == gone)) [
      | inl hit ↦ rw hit (kept_after_worker owner gone miners workers jobs a)
      | inr miss ↦
          let (o, m, w) = paired_owner miners workers j h in
          rw miss (
            pair_of miners (delete (is_owned_worker owner gone) workers) j o m
                (stays_beside _ _ owner gone j.worker o workers miss w),
            kept_after_worker owner gone miners workers jobs a,
          )
    ]

pub delete_worker-IsSound :
    (owner id : ℕ) (db : Db) → IsSound db → IsSound (delete_worker owner id db).1
unfolding delete_worker
delete_worker-IsSound owner id db a =
    elim (ℕ-cases (count_where (is_owned_worker owner id) db.workers)) [
      | inl nothing ↦ rw (nothing, delete_worker) a
      | inr (n, some_rows) ↦
          rw (some_rows, delete_worker)
            (record {
              older =
                  All-delete (λ (j : SwarmJob). j.id < db.fresh) (λ j. j.worker == id) db.jobs
                    a.older;
              miners = a.miners;
              workers = delete-IsTable _ _ owner id db.fresh db.workers a.workers;
              paired = kept_after_worker owner id db.miners db.workers db.jobs a.paired;
            })
    ]

pub set_worker_status-IsSound :
    (id : ℕ) (status : WorkerStatus) (db : Db)
    → IsSound db
    → IsSound (set_worker_status id status db)
unfolding set_worker_status
set_worker_status-IsSound id status db a =
    update_workers-IsSound (λ w. w.id == id && not (is_revoked w.status))
      (λ w. record w { status = status; last_seen = some db.clock }) db (λ w. (refl, refl)) a

pub update_worker_caps-IsSound :
    (id caps : ℕ) (db : Db) → IsSound db → IsSound (update_worker_caps id caps db)
unfolding update_worker_caps
update_worker_caps-IsSound id caps db a =
    update_workers-IsSound (λ w. w.id == id) (λ w. record w { caps = caps }) db (λ w. (refl, refl))
      a

pub set_swarm_job_status-IsSound :
    (id : ℕ) (status : JobStatus) (db : Db)
    → IsSound db
    → IsSound (set_swarm_job_status id status db)
unfolding set_swarm_job_status
set_swarm_job_status-IsSound id status db a = elim (Bool-cases (ends_job status)) [
  | inl ends ↦ rw ends (
      jobs-IsSound (λ j. j.id == id && is_open_job j)
        (λ j. record j { status = status; ended_at = some db.clock }) db (λ j. (refl, refl, refl))
        a)
  | inr goes_on ↦ rw goes_on (
      jobs-IsSound (λ j. j.id == id) (λ j. record j { status = status }) db
        (λ j. (refl, refl, refl)) a)
]

pub revoke_worker-IsSound :
    (owner id : ℕ) (db : Db) → IsSound db → IsSound (revoke_worker owner id db).1
unfolding revoke_worker
revoke_worker-IsSound owner id db a =
    elim (ℕ-cases
      (count_where (λ w. is_owned_worker owner id w && is_null w.revoked_at) db.workers)) [
        | inl nothing ↦ rw (nothing, revoke_worker) a
        | inr (n, some_rows) ↦
            rw (some_rows, revoke_worker)
              (jobs-IsSound (λ j. j.worker == id && is_open_job j)
                (λ j. record j { ended_at = some db.clock; status = JobStatus.ended })
                (record db {
                  workers =
                      update (λ w. is_owned_worker owner id w && is_null w.revoked_at)
                        (λ w. record w {
                          revoked_at = some db.clock;
                          status = WorkerStatus.revoked;
                        })
                        db.workers;
                })
                (λ j. (refl, refl, refl))
                (update_workers-IsSound (λ w. is_owned_worker owner id w && is_null w.revoked_at)
                  (λ w. record w { revoked_at = some db.clock; status = WorkerStatus.revoked }) db
                  (λ w. (refl, refl)) a))
      ]

pub redeem-IsSound :
    (c : JoinCode) (name : Text) (hw : Hardware) (token : Text × Text) (db : Db)
    → IsSound db
    → IsSound (redeem c name hw token db).1
unfolding redeem
redeem-IsSound c name hw (plain, token_hash) db a = elim (Bool-cases (row_fits name hw)) [
  | inr big ↦ rw (big, redeem) a
  | inl fits ↦ elim (ℕ-cases (count_where (redeems c db.clock) db.codes)) [
    | inl nothing ↦ rw (fits, nothing, redeem) a
    | inr (n, open_code) ↦
        let w = new_worker c name hw token_hash db in
        let b =
          workers-IsSound (db.workers ++ w ∷ []) (db.fresh + 1) db (omega arith)
            (append-Stays _ _ db.workers (w ∷ []))
            (append-IsTable _ _ w db.fresh db.workers refl a.workers) a in
        rw (fits, open_code, redeem)
          (record { older = b.older; miners = b.miners; workers = b.workers; paired = b.paired })
  ]
]
