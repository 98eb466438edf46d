-- ===== src/Engine.antt =====
-- Mining engines (money-miner-backend/internal/engine): the supervised external miner
-- (adapter/adapter.go), the simulated engine and the native stub. The file system, the search path
-- and the process table are parameters.
pub mod Pinned
pub mod Args
pub mod Stats
use money_miner.Base.{
  ℕ, ◌-◌, Bool, true, false, not, ◌&&◌, Option, none, some, List, [], ◌∷◌, ◌++◌, ltb, if◌then◌else◌,
  Text, text_eq, codes, is_empty, to_lower, contains, length, drop,
}
use money_miner.Store.Types.{EngineKind}

-- `sha256` is the pin for the platform that runs, empty where there is none.
pub record AdapterConfig : Type 0 where
  pub binary : Text
  pub sha256 : Text
  pub args_template : List Text
  pub api_kind : Text
  pub api_port : ℕ

pub record EngineConfig : Type 0 where
  pub algorithm : Text
  pub pool_url : Text
  pub wallet : Text
  pub worker_name : Text
  pub threads : ℕ
  pub gpu_enabled : Bool
  pub gpu_intensity : ℕ
  pub adapter : Option AdapterConfig

-- `is_file` is Stat without an error and not a directory, `look_path` is exec.LookPath,
-- `file_sha256` hashes a file where it can be read, `join` is filepath.Join.
pub record Files : Type 0 where
  pub is_file : Text → Bool
  pub look_path : Text → Option Text
  pub file_sha256 : Text → Option Text
  pub join : Text → Text → Text
  pub free_port : Option ℕ

unfoldable first_file : Files → List Text → Option Text
first_file files [] = none
first_file files (c ∷ cs) =
    let rest = first_file files cs in if files.is_file c then some c else rest

abbrev unless_empty : Text → Text → List Text
unless_empty test path = if is_empty test then [] else path ∷ []

-- Where the binary is: the explicit path, the adapters directory, then PATH.
unfoldable pub locate : Files → (name dir explicit : Text) → Option Text
unfolding first_file
locate files name dir explicit =
    elim (first_file files
      (unless_empty explicit explicit ++ unless_empty dir (files.join dir name))) [
        | some path ↦ some path
        | none ↦ files.look_path name
      ]

-- The digest that was measured is the pinned one, up to the case of its letters.
unfoldable pub pin_holds : (pin : Text) → Option Text → Bool
pin_holds pin none = false
pin_holds pin (some sum) = text_eq (to_lower sum) (to_lower pin)

-- `ResolveBinary`, on a platform that is not Windows.
unfoldable pub resolve_binary : Files → Option AdapterConfig → (dir explicit : Text) → Option Text
unfolding locate pin_holds
resolve_binary files none dir explicit = none
resolve_binary files (some ad) dir explicit =
    if is_empty ad.binary then none else elim (locate files ad.binary dir explicit) [
      | none ↦ none
      | some path ↦
          if is_empty ad.sha256
          then some path
          else (if pin_holds ad.sha256 (files.file_sha256 path) then some path else none)
    ]

-- An engine of any kind; `binary` and `api_port` are those of an adapter.
pub record Engine : Type 0 where
  pub kind : EngineKind
  pub cfg : EngineConfig
  pub binary : Text
  pub api_port : ℕ
  pub running : Bool
  pub log_tail : List Text

abbrev port_of : Option AdapterConfig → ℕ
port_of none = 0
port_of (some ad) = ad.api_port

-- `PrepareWithPaths` of the adapter.
unfoldable pub prepare_adapter :
    Files → (dir explicit : Text) → EngineConfig → Engine → Option Engine
unfolding resolve_binary
prepare_adapter files dir explicit cfg e = elim (resolve_binary files cfg.adapter dir explicit) [
  | none ↦ none
  | some path ↦ elim (port_of cfg.adapter) [
    | ℕ.zero ↦ elim files.free_port [
      | none ↦ none
      | some p ↦ some (record e { cfg = cfg; binary = path; api_port = p })
    ]
    | ℕ.suc p ↦ some (record e { cfg = cfg; binary = path; api_port = ℕ.suc p })
  ]
]

-- `Prepare`: the simulated engine takes any configuration, the native one none.
unfoldable pub prepare : Files → (dir : Text) → EngineConfig → Engine → Option Engine
unfolding prepare_adapter
prepare files dir cfg e = elim e.kind [
  | EngineKind.adapter ↦ prepare_adapter files dir [] cfg e
  | EngineKind.native_go ↦ none
  | EngineKind.simulated ↦ some (record e { cfg = cfg })
]

-- `max(1, cfg.Threads)`, as `renderArgs` and the simulated engine take it.
abbrev pub threads_used : Engine → ℕ
threads_used e = if ltb e.cfg.threads 1 then 1 else e.cfg.threads

-- `Start`; `spawns` is whether the process comes up.
unfoldable pub start : (spawns : Bool) → Engine → Option Engine
start spawns e = elim e.kind [
  | EngineKind.adapter ↦
      if e.running then none else (if spawns then some (record e { running = true }) else none)
  | EngineKind.native_go ↦ none
  | EngineKind.simulated ↦ some (record e { running = true })
]

-- `Stop`
unfoldable pub stop : Engine → Engine
stop e = record e { running = false }

-- `SetAllocation`: an adapter records the intensity only while it runs, and the simulated engine
-- never does.
unfoldable pub set_allocation : (threads gpu_pct : ℕ) → Engine → Engine
set_allocation threads gpu_pct e = elim e.kind [
  | EngineKind.adapter ↦ record e {
    cfg = record e.cfg {
      threads = threads;
      gpu_intensity = if e.running then gpu_pct else e.cfg.gpu_intensity;
    };
  }
  | EngineKind.native_go ↦ e
  | EngineKind.simulated ↦ record e { cfg = record e.cfg { threads = threads } }
]

-- A line of `tailLogs`: the last 50 are kept.
unfoldable append_line : Text → Engine → Engine
append_line line e =
    let l = e.log_tail ++ line ∷ [] in
    record e { log_tail = if ltb 50 (length l) then drop (length l - 50) l else l }
