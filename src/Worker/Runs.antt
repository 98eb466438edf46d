-- ===== src/Worker/Runs.antt =====
-- The sessions of a worker (cmd/worker/main.go): what runSession sends of its own accord, and cmdRun,
-- which runs one session after the other. The reporter's map has no order, here it is the list's.
pub mod Spoken
pub mod Honest
use money_miner.Base.{
  ℕ, Bool, true, false, Option, none, some, List, [], ◌∷◌, ◌++◌, if◌then◌else◌, map, Text, codes,
}
use money_miner.Store.Types.{EngineKind}
use money_miner.Engine.{Engine, AdapterConfig, Files, stop}
use money_miner.Engine.Stats.{EngineStats}
use money_miner.Worker.{
  FileConfig, Session, Inbound, Outbound, hello, metrics, handle_inbound, next_backoff,
}

-- `Name` of the three kinds of engine.
unfoldable engine_name : Engine → Text
engine_name e = elim e.kind [
  | EngineKind.native_go ↦ codes "native-go"
  | EngineKind.simulated ↦ codes "simulated"
  | EngineKind.adapter ↦ elim e.cfg.adapter [
    | none ↦ codes "adapter"
    | some a ↦ codes "adapter(" ++ a.binary ++ codes ")"
  ]
]

-- What `hello` says of the machine.
pub record Machine : Type 0 where
  pub cpus : ℕ
  pub gpu_model : Text
  pub vram_mb : ℕ

unfoldable engines_of : (allow_simulated : Bool) → List Text
engines_of true = codes "adapter" ∷ codes "simulated" ∷ []
engines_of false = codes "adapter" ∷ []

unfoldable hello_of : Machine → (allow_simulated : Bool) → Outbound
unfolding engines_of
hello_of mc allow = hello (engines_of allow) mc.cpus mc.gpu_model mc.vram_mb

-- One tick of the reporter, with what each engine's `Stats` answers at that time.
unfoldable pub reports : (stats : Engine → EngineStats) → List (ℕ × Engine) → List Outbound
unfolding engine_name
reports stats [] = []
reports stats ((job, e) ∷ jobs) = metrics job (stats e) (engine_name e) ∷ reports stats jobs

-- What happens in a session: a message of the server, or a tick of the reporter.
pub data Happening : Type 0 where
  arrives : Inbound → Happening
  ticks : (stats : Engine → EngineStats) → Happening

-- A session that is not dialled, one whose greeting is not written, or one that lasts for a while.
pub data Attempt : Type 0 where
  not_dialled not_greeted : Attempt
  lasts : List Happening → Attempt

unfoldable pub stop_all : List (ℕ × Engine) → List (ℕ × Engine)
stop_all [] = []
stop_all ((job, e) ∷ jobs) = (job, stop e) ∷ stop_all jobs

-- A session at its end, the engines as `stopAll` leaves them, and the delay after it in seconds,
-- before the jitter.
pub record Past : Type 0 where
  pub session : Session
  pub stopped : List (ℕ × Engine)
  pub delay : ℕ

module _ (cfg : FileConfig) (files : Files) (spawns : Engine → Bool) (mc : Machine) where
  unfoldable pub happen : Happening → Session → Session
  unfolding reports
  happen (arrives m) s = handle_inbound cfg files spawns m s
  happen (ticks stats) s = record s { sent = s.sent ++ reports stats s.jobs }

  -- What happens up to the message that ends the session.
  unfoldable pub follow : List Happening → Session → Session
  unfolding happen
  follow [] s = s
  follow (h ∷ hs) s = let rest = follow hs (happen h s) in if s.over then s else rest

  -- `runSession`
  unfoldable pub attempt : Attempt → (jobs : List (ℕ × Engine)) → Session
  unfolding follow hello_of
  attempt not_dialled jobs = record { jobs = jobs; lost = []; sent = []; over = false }
  attempt not_greeted jobs = record { jobs = jobs; lost = []; sent = []; over = false }
  attempt (lasts hs) jobs =
      follow hs (record {
        jobs = jobs;
        lost = [];
        sent = hello_of mc cfg.allow_simulated ∷ [];
        over = false;
      })

  -- The loop of `cmdRun`.
  unfoldable pub run_sessions :
      List Attempt → (jobs : List (ℕ × Engine)) → (backoff : ℕ) → List Past
  unfolding attempt stop_all next_backoff
  run_sessions [] jobs backoff = []
  run_sessions (a ∷ rest) jobs backoff =
      let s = attempt a jobs in
      record { session = s; stopped = stop_all s.jobs; delay = backoff }
      ∷ run_sessions rest [] (next_backoff backoff)

  unfoldable pub cmd_run : List Attempt → List Past
  unfolding run_sessions
  cmd_run attempts = run_sessions attempts [] 1
