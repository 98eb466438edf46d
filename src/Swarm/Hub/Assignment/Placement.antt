-- ===== src/Swarm/Hub/Assignment/Placement.antt =====
-- What Assign does, branch by branch (swarm/hub.go).
use money_miner.Base.{
  ℕ, ◌≡◌, refl, Bool, true, false, none, some, [], ◌∷◌, ◌++◌, arith, Option-cases, Bool-cases, inl,
  inr, Text, All, List, select, update, ==_refl, ◌==◌, ◌&&◌, ◌⊎◌, ◌<◌,
}
use mathlib.Core.List.{Memᴰ}
use money_miner.Base.Map.{lookup}
use money_miner.Store.Types.{ok, Result-cases, Miner, Currency, Worker, SwarmJob, JobStatus}
use money_miner.Store.Miners.{miner_owner}
use money_miner.Store.Workers.{
  get_worker, create_swarm_job, set_worker_status, set_swarm_job_status, active_jobs_for_miner,
  is_open_job,
}
use money_miner.Swarm.Hub.State.{Hub, LiveWorker, job_assign}
use money_miner.Swarm.Hub.Assignment.{eligible, choose, dispatch, assign, config_payload}
use money_miner.Swarm.Hub.Assignment.Choice.{ComesFrom, choose_least}

-- A job of the miner was sent to a live worker of the miner's owner that is connected and no
-- browser, with the id of the new job row; the connection is that worker's.
pub record IsPlaced (writable : ℕ → Bool) (m : Miner) (cur : Currency) (wallet : Text) (h h' : Hub)
    : Type 0 where
  pub entry : ℕ × LiveWorker
  pub listed : Memᴰ entry h.live
  pub fit : eligible (miner_owner m.id h.db) h entry ≡ true
  pub conn : ℕ
  pub held : lookup entry.1.worker h.conns ≡ some conn
  pub accepts : writable conn ≡ true
  pub worker : Worker
  pub known : get_worker (miner_owner m.id h.db) entry.1.worker h.db ≡ ok worker
  pub sent :
      h'.sent
      ≡ h.sent
        ++ (
          conn,
          job_assign h.db.fresh m.id m.engine (config_payload m cur wallet worker) m.simulated,
        )
          ∷ []

-- Nothing was sent, and every miner has the open jobs that it had.
abbrev IsRefused : Hub → Hub → Type 0
IsRefused h h' =
    (h'.sent ≡ h.sent) × ((k : ℕ) → active_jobs_for_miner k h'.db ≡ active_jobs_for_miner k h.db)

abbrev pub AreOlder : ℕ → List SwarmJob → Type 0
AreOlder fresh js = All (λ (j : SwarmJob). j.id < fresh) js

-- A new job row that is set to `error` at once is in no miner's way.
failed_job_inactive :
    (k miner worker fresh now : ℕ) (js : List SwarmJob)
    → AreOlder fresh js
    → let new : SwarmJob = record {
      id = fresh;
      miner = miner;
      worker = worker;
      ended_at = none;
      status = JobStatus.assigned;
    } in
      select
        (λ j. j.miner == k && is_open_job j)
        (update
          (λ j. j.id == fresh && is_open_job j)
          (λ j. record j { status = JobStatus.error; ended_at = some now })
          (js ++ new ∷ []))
      ≡ select (λ j. j.miner == k && is_open_job j) js
failed_job_inactive k miner worker fresh now [] a = ground (arith, ==_refl fresh)
failed_job_inactive k miner worker fresh now (j ∷ js) (h, a) =
    ground (arith, failed_job_inactive k miner worker fresh now js a)

module _ (writable : ℕ → Bool) (m : Miner) (cur : Currency) (wallet : Text) where
  dispatch-true :
      (target : LiveWorker) (conn : ℕ) (h : Hub)
      → (dispatch writable m cur wallet target conn h).0 ≡ true
      → (w : Worker) × (get_worker (miner_owner m.id h.db) target.worker h.db ≡ ok w)
        × (writable conn ≡ true)
        × ((dispatch writable m cur wallet target conn h).1.sent
            ≡ h.sent
              ++ (
                conn,
                job_assign h.db.fresh m.id m.engine (config_payload m cur wallet w) m.simulated,
              )
                ∷ [])
  unfolding dispatch create_swarm_job
  dispatch-true target conn h e =
      elim (Result-cases (get_worker (miner_owner m.id h.db) target.worker h.db)) [
        | inl (w, known) ↦ (w, known, ground arith, ground arith)
        | inr (x, unknown) ↦ absurd (ground arith)
      ]

  dispatch-false :
      (target : LiveWorker) (conn : ℕ) (h : Hub)
      → AreOlder h.db.fresh h.db.jobs
      → (dispatch writable m cur wallet target conn h).0 ≡ false
      → IsRefused h (dispatch writable m cur wallet target conn h).1
  unfolding dispatch create_swarm_job set_swarm_job_status active_jobs_for_miner
  dispatch-false target conn h older e = (
    ground arith,
    λ k.
        ground
          (arith, failed_job_inactive k m.id target.worker h.db.fresh h.db.clock h.db.jobs older),
  )

  dispatch_miners :
      (target : LiveWorker) (conn : ℕ) (h : Hub)
      → (dispatch writable m cur wallet target conn h).1.db.miners ≡ h.db.miners
  unfolding dispatch create_swarm_job set_worker_status set_swarm_job_status
  dispatch_miners target conn h = ground arith

  assign_no_target :
      (h : Hub)
      → choose (miner_owner m.id h.db) h h.live none ≡ none
      → assign writable m cur wallet h ≡ (false, h)
  unfolding assign
  assign_no_target h e = ground arith

  assign_no_conn :
      (h : Hub) (target : LiveWorker)
      → choose (miner_owner m.id h.db) h h.live none ≡ some target
      → lookup target.worker h.conns ≡ none
      → assign writable m cur wallet h ≡ (false, h)
  unfolding assign
  assign_no_conn h target e f = ground arith

  assign-dispatch :
      (h : Hub) (target : LiveWorker) (conn : ℕ)
      → choose (miner_owner m.id h.db) h h.live none ≡ some target
      → lookup target.worker h.conns ≡ some conn
      → assign writable m cur wallet h ≡ dispatch writable m cur wallet target conn h
  unfolding assign
  assign-dispatch h target conn e f = ground arith

  dispatch_places :
      (h : Hub) (target : LiveWorker) (conn : ℕ)
      → ComesFrom (miner_owner m.id h.db) h h.live none (some target)
      → lookup target.worker h.conns ≡ some conn
      → (dispatch writable m cur wallet target conn h).0 ≡ true
      → IsPlaced writable m cur wallet h (dispatch writable m cur wallet target conn h).1
  dispatch_places h target conn (inl start) held done = absurd (cc)
  dispatch_places h target conn (inr (entry, listed, fit, same)) held done =
      let (w, known, accepts, sent) = dispatch-true target conn h done in
      record {
        entry = entry;
        listed = listed;
        fit = fit;
        conn = conn;
        held = rw same held;
        accepts = accepts;
        worker = w;
        known = rw same known;
        sent = sent;
      }

  -- What Assign guarantees by its answer.
  abbrev pub Answered : Hub → Bool × Hub → Type 0
  Answered h (done, h') =
      (((done ≡ true) × IsPlaced writable m cur wallet h h') ⊎ ((done ≡ false) × IsRefused h h'))
      × (h'.db.miners ≡ h.db.miners)

  dispatch-Answered :
      (target : LiveWorker) (conn : ℕ) (h : Hub)
      → AreOlder h.db.fresh h.db.jobs
      → ComesFrom (miner_owner m.id h.db) h h.live none (some target)
      → lookup target.worker h.conns ≡ some conn
      → Answered h (dispatch writable m cur wallet target conn h)
  dispatch-Answered target conn h older chosen held =
      let d = dispatch writable m cur wallet target conn h in
      elim (Bool-cases d.0) [
        | inl e ↦
            (inl (e, dispatch_places h target conn chosen held e), dispatch_miners target conn h)
        | inr e ↦ (inr (e, dispatch-false target conn h older e), dispatch_miners target conn h)
      ]

  -- Where the ids of the job rows are older than the next one: if Assign answers true, the job went
  -- to a fitting worker; if it answers false, nothing was sent, and every miner has the open jobs
  -- that it had. Either way the miners keep their statuses: a miner runs only once a worker has said
  -- so.
  pub assign_places :
      (h : Hub) → AreOlder h.db.fresh h.db.jobs → Answered h (assign writable m cur wallet h)
  assign_places h older = elim (Option-cases (choose (miner_owner m.id h.db) h h.live none)) [
    | inl nobody ↦ rw (assign_no_target h nobody) (inr (refl, (refl, λ k. refl)), refl)
    | inr (target, chosen) ↦ elim (Option-cases (lookup target.worker h.conns)) [
      | inl gone ↦ rw (assign_no_conn h target chosen gone) (inr (refl, (refl, λ k. refl)), refl)
      | inr (conn, held) ↦ rw (assign-dispatch h target conn chosen held) (
          dispatch-Answered target conn h older
            (rw chosen at (choose_least (miner_owner m.id h.db) h).0) held)
    ]
  ]
