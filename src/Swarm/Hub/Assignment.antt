-- ===== src/Swarm/Hub/Assignment.antt =====
-- Placing miners on workers: Assign and AssignQueued (hub.go). `writable` says which connections
-- accept a write.
pub mod Choice
pub mod Placement
use money_miner.Base.{
  ℕ, ◌+◌, ◌-◌, ◌*◌, ◌/◌, ◌≡◌, Bool, true, false, not, Option, none, some, List, [], ◌∷◌, ◌++◌, ltb,
  ◌==◌, ◌&&◌, ◌||◌, if◌then◌else◌, length, Text, is_empty, is_some,
}
use money_miner.Base.Map.{lookup}
use money_miner.Store.Types.{
  Result, ok, err, Currency, Miner, Worker, WorkerStatus, JobStatus, is_browser,
}
use money_miner.Store.Db.{Db}
use money_miner.Store.Catalog.{get_currency, wallet_address}
use money_miner.Store.Miners.{miner_owner, queued_miners_for_owner}
use money_miner.Store.Workers.{
  get_worker, create_swarm_job, set_swarm_job_status, set_worker_status,
}
use money_miner.Swarm.Hub.State.{
  Hub, LiveWorker, Message, job_assign, EngineConfigPayload, PoolUser, paid, unpaid, WorkerName,
  send, with_db,
}

-- A worker that may take a job of the owner: connected, and not a browser.
unfoldable pub eligible : (owner : ℕ) → Hub → ℕ × LiveWorker → Bool
eligible owner h (id, lw) =
    lw.owner == owner && is_some (lookup id h.conns) && not (is_browser lw.kind)

-- `target == nil || len(lw.Jobs) < len(target.Jobs)`
abbrev pub fewer_jobs : Option LiveWorker → LiveWorker → Bool
fewer_jobs none lw = true
fewer_jobs (some target) lw = ltb (length lw.jobs) (length target.jobs)

-- The loop over `h.live`.
unfoldable pub choose :
    (owner : ℕ) → Hub → List (ℕ × LiveWorker) → Option LiveWorker → Option LiveWorker
unfolding eligible
choose owner h [] target = target
choose owner h (e ∷ es) target =
    choose owner h es (if eligible owner h e && fewer_jobs target e.1 then some e.1 else target)

-- A share of the worker's cores in percent, at least one thread.
unfoldable pub threads_for : (cores cpu_pct : ℕ) → ℕ
threads_for cores cpu_pct =
    if ltb 0 cores then (if ltb (cores * cpu_pct / 100) 1 then 1 else cores * cpu_pct / 100) else 1

abbrev pub pool_user : Text → WorkerName → PoolUser
pool_user [] name = unpaid name
pool_user (c ∷ wallet) name = paid (c ∷ wallet) name

unfoldable pub config_payload : Miner → Currency → Text → Worker → EngineConfigPayload
unfolding threads_for
config_payload m cur wallet w =
    let name : WorkerName = record { miner = m.id; worker = w.id } in
    record {
      algorithm = cur.algorithm;
      pool_url = m.pool_url;
      pool_user = pool_user wallet name;
      wallet = wallet;
      worker_name = name;
      threads = threads_for w.cpu_cores m.cpu_pct;
      gpu_enabled = ltb 0 m.gpu_pct;
      gpu_intensity = m.gpu_pct;
      adapter = cur.adapter_config;
    }

module _ (writable : ℕ → Bool) where
  -- The part of Assign after the choice: the job row, the message, the status.
  unfoldable pub dispatch : Miner → Currency → Text → LiveWorker → (conn : ℕ) → Hub → Bool × Hub
  unfolding config_payload
  dispatch m cur wallet target conn h =
      elim (get_worker (miner_owner m.id h.db) target.worker h.db) [
        | err _ ↦ (false, h)
        | ok w ↦
            let (r, db) = create_swarm_job m.id target.worker h.db in
            elim r [
              | err _ ↦ (false, h)
              | ok job ↦
                  if writable conn
                  then (
                    true,
                    with_db (set_worker_status target.worker WorkerStatus.assigned) (
                        send conn
                          (job_assign job m.id m.engine (config_payload m cur wallet w) m.simulated)
                          (record h { db = db })),
                  )
                  else (false, record h { db = set_swarm_job_status job JobStatus.error db })
            ]
      ]

  -- `Assign`: false leaves the miner queued.
  unfoldable pub assign : Miner → Currency → Text → Hub → Bool × Hub
  unfolding choose dispatch
  assign m cur wallet h = elim (choose (miner_owner m.id h.db) h h.live none) [
    | none ↦ (false, h)
    | some target ↦ elim (lookup target.worker h.conns) [
      | none ↦ (false, h)
      | some conn ↦ dispatch m cur wallet target conn h
    ]
  ]

  abbrev address_or_empty : Result Text → Text
  address_or_empty (ok a) = a
  address_or_empty (err _) = []

  -- The wallet's address; an unknown wallet counts as none.
  unfoldable pub wallet_of : (owner : ℕ) → Option ℕ → Db → Text
  wallet_of owner none db = []
  wallet_of owner (some id) db = address_or_empty (wallet_address owner id db)

  unfoldable pub assign_all : (owner : ℕ) → List Miner → Hub → Hub
  unfolding assign wallet_of
  assign_all owner [] h = h
  assign_all owner (m ∷ ms) h = assign_all owner ms (elim (get_currency m.currency h.db) [
    | err _ ↦ h
    | ok cur ↦ (assign m cur (wallet_of owner m.wallet_id h.db) h).1
  ])

  -- `AssignQueued`, on connect.
  unfoldable pub assign_queued : (owner : ℕ) → Hub → Hub
  unfolding assign_all
  assign_queued owner h = assign_all owner (queued_miners_for_owner owner h.db) h
