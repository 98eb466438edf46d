-- ===== src/Worker.antt =====
-- The swarm node (money-miner-backend/cmd/worker/main.go): its jobs, what the messages of the server
-- do to them, and the reconnect delay.
pub mod Jobs
pub mod Runs
pub mod Backoff
pub mod Enroll
use money_miner.Base.{
  ℕ, ◌*◌, Bool, true, false, not, ◌&&◌, ◌||◌, Option, none, some, List, [], ◌∷◌, ◌++◌, ltb, ◌==◌,
  if◌then◌else◌, Text,
}
use money_miner.Base.Map.{lookup, insert, erase, modify}
use money_miner.Store.Types.{EngineKind, is_simulated}
use money_miner.Engine.{
  AdapterConfig, EngineConfig, Engine, Files, prepare, start, stop, set_allocation,
}
use money_miner.Engine.Stats.{EngineStats}

-- The parts of `fileConfig` that a session uses.
pub record FileConfig : Type 0 where
  pub adapters_dir : Text
  pub allow_simulated : Bool

-- `assignPayload`; job 0 stands for the empty job id.
pub record AssignPayload : Type 0 where
  pub job : ℕ
  pub engine : EngineKind
  pub config : EngineConfig
  pub simulated : Bool

pub data Inbound : Type 0 where
  ping : Inbound
  job_assign : AssignPayload → Inbound
  job_cancel : (job : ℕ) → Inbound
  allocation_update : (job cpu_pct gpu_intensity : ℕ) → Inbound
  worker_revoke : Inbound

-- What a worker sends; `fine` is the status "ok". The time and the texts of errors are left out.
pub data Outbound : Type 0 where
  hello : (engines : List Text) (max_threads : ℕ) (gpu_model : Text) (vram_mb : ℕ) → Outbound
  pong : Outbound
  ack : (job : ℕ) → (fine : Bool) → Outbound
  metrics : (job : ℕ) → EngineStats → (engine_kind : Text) → Outbound

-- `lost` has the engines whose entry another assignment of the same job has overwritten: nothing stops
-- them any more.
pub record Session : Type 0 where
  pub jobs : List (ℕ × Engine)
  pub lost : List Engine
  pub sent : List Outbound
  pub over : Bool

abbrev pub reply : Outbound → Session → Session
reply r s = record s { sent = s.sent ++ r ∷ [] }

abbrev at_least_one : ℕ → ℕ
at_least_one n = if ltb n 1 then 1 else n

-- The engine of a job, before it is prepared.
abbrev pub new_engine : AssignPayload → Engine
new_engine p = record {
  kind = if p.simulated then EngineKind.simulated else p.engine;
  cfg = record p.config { threads = at_least_one p.config.threads };
  binary = [];
  api_port = 0;
  running = false;
  log_tail = [];
}

abbrev pub overwritten : Option Engine → List Engine
overwritten none = []
overwritten (some e) = e ∷ []

module _ (cfg : FileConfig) (files : Files) (spawns : Engine → Bool) where
  -- Preparing and starting the engine, and the acknowledgement.
  unfoldable pub launch : (job : ℕ) → Engine → Session → Session
  launch job e s = elim (prepare files cfg.adapters_dir e.cfg e) [
    | none ↦ reply (ack job false) s
    | some ready ↦ elim (start (spawns ready) ready) [
      | none ↦ reply (ack job false) s
      | some running ↦ reply (ack job true) (record s {
        jobs = insert job running s.jobs;
        lost = s.lost ++ overwritten (lookup job s.jobs);
      })
    ]
  ]

  -- `handleAssign`
  unfoldable pub handle_assign : AssignPayload → Session → Session
  unfolding launch
  handle_assign p s =
      if p.job == 0
      then s
      else (if is_simulated (new_engine p).kind && not cfg.allow_simulated
          then reply (ack p.job false) s
          else launch p.job (new_engine p) s)

  abbrev or_same : Option Engine → Engine → Engine
  or_same none e = e
  or_same (some e') e = e'

  abbrev restarted : Engine → Engine
  restarted e = or_same (start (spawns (stop e)) (stop e)) (stop e)

  -- `handleAllocation`: the thread count that is set is 0, and an adapter is stopped and started.
  unfoldable pub handle_allocation : (cpu_pct gpu_intensity : ℕ) → Engine → Engine
  handle_allocation cpu_pct gpu_intensity e =
      let e' = set_allocation 0 gpu_intensity e in
      elim e.kind [
        | EngineKind.adapter ↦ restarted e'
        | EngineKind.native_go ↦ e'
        | EngineKind.simulated ↦ e'
      ]

  -- One message of `runSession`.
  unfoldable pub handle_inbound : Inbound → Session → Session
  unfolding handle_assign handle_allocation
  handle_inbound ping s = reply pong s
  handle_inbound (job_assign p) s = handle_assign p s
  handle_inbound (job_cancel job) s = record s { jobs = erase job s.jobs }
  handle_inbound (allocation_update job cpu gpu) s = record s {
    jobs = modify job (handle_allocation cpu gpu) s.jobs;
  }
  handle_inbound worker_revoke s = record s { over = true }

-- The next delay of `cmdRun` in seconds, before the jitter.
unfoldable pub next_backoff : ℕ → ℕ
next_backoff backoff = if ltb 60 (backoff * 2) then 60 else backoff * 2

-- The delay after a number of lost connections.
unfoldable pub backoff_after : ℕ → ℕ
unfolding next_backoff
backoff_after ℕ.zero = 1
backoff_after (ℕ.suc n) = next_backoff (backoff_after n)
