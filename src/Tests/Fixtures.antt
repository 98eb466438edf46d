-- ===== src/Tests/Fixtures.antt =====
-- A small installation: two owners, one currency, two miners, two workers, one open join code.
use money_miner.Base.{ℕ, true, false, none, some, [], ◌∷◌, Text, codes, text_eq, text_eq_refl}
use money_miner.Store.Types.{
  Currency, Strategy, EngineKind, MinerStatus, WorkerStatus, JobStatus, Kind, MinerRow, Worker,
  JoinCode, SwarmJob, Miner,
}
use money_miner.Store.Db.{Db}
use money_miner.Store.Miners.{CreateMinerParams}
use money_miner.Swarm.Codes.{Crypto, Hardware}
use money_miner.Swarm.Hub.State.{Hub, LiveWorker}

abbrev pub monero : Currency
monero = record {
  id = 1;
  symbol = codes "XMR";
  algorithm = codes "randomx";
  strategy = Strategy.adapter;
  adapter_config = 7;
  explorer_tx_tpl = codes "https://x/{txid}";
  pools = some (
      record {
        name = codes "p";
        url = codes "stratum+tcp://p:1";
        api_tpl = codes "https://p/{address}";
      }
      ∷ []);
  enabled = true;
  deferred_note = none;
}

abbrev pub miner_row : ℕ → ℕ → MinerStatus → MinerRow
miner_row id owner status = record {
  id = id;
  owner = owner;
  name = codes "m";
  currency = 1;
  wallet_id = none;
  engine = EngineKind.adapter;
  pool_url = codes "stratum+tcp://p:1";
  cpu_pct = 50;
  gpu_pct = 0;
  status = status;
  created_at = 5;
  updated_at = 5;
}

abbrev pub worker_row : ℕ → ℕ → Kind → Text → Worker
worker_row id owner kind token_hash = record {
  id = id;
  owner = owner;
  name = codes "w";
  kind = kind;
  cpu_cores = 8;
  caps = 0;
  token_hash = token_hash;
  status = WorkerStatus.connected;
  last_seen = none;
  enrolled_at = 90;
  revoked_at = none;
}

-- Owner 1 has miner 10 and workers 20 (native) and 21 (browser); owner 2 has miner 11.
abbrev pub base_db : Db
base_db = record {
  clock = 100;
  fresh = 50;
  currencies = monero ∷ [];
  wallets = [];
  miners = miner_row 10 1 MinerStatus.queued ∷ miner_row 11 2 MinerStatus.created ∷ [];
  runs = [];
  workers =
      worker_row 20 1 Kind.native (codes "aa") ∷ worker_row 21 1 Kind.browser (codes "bb") ∷ [];
  codes =
      record {
        id = 30;
        owner = 1;
        code_hash = codes "0123456789";
        expires_at = 900;
        consumed_by = none;
        consumed_at = none;
        created_at = 0;
      }
      ∷ [];
  jobs = [];
  samples = [];
  rollups = [];
  payouts = [];
  blocks = [];
  settings = [];
  currency_settings = [];
  exchange_settings = [];
}

abbrev pub open_code : JoinCode
open_code = record {
  id = 30;
  owner = 1;
  code_hash = codes "0123456789";
  expires_at = 900;
  consumed_by = none;
  consumed_at = none;
  created_at = 0;
}

abbrev hash_as_is : ℕ → Text → Text
hash_as_is salt t = t

-- Hashing that keeps the text: enough to run the code.
abbrev pub plain_crypto : Crypto
plain_crypto = record {
  hash = hash_as_is;
  matches = text_eq;
  sha256_hex = λ t. t;
  hex = λ t. t;
  matches-hash = λ salt t. text_eq_refl t;
}

abbrev pub native_hw : Hardware
native_hw = record {
  kind = codes "native";
  os = [];
  arch = [];
  cpu_model = [];
  cpu_cores = 4;
  gpu_model = [];
  vram_mb = 0;
}

abbrev pub params : CreateMinerParams
params = record {
  owner = 1;
  name = codes "new";
  currency = codes "XMR";
  wallet_id = none;
  engine = EngineKind.adapter;
  pool_url = codes "stratum+tcp://p:1";
  cpu_pct = 40;
  gpu_pct = 0;
}

abbrev open_job : SwarmJob
open_job = record { id = 40; miner = 10; worker = 20; ended_at = none; status = JobStatus.assigned }

abbrev live_of : ℕ → Kind → LiveWorker
live_of id kind = record {
  worker = id;
  owner = 1;
  kind = kind;
  hashrate = 0;
  jobs = [];
  last_msg = 95;
}

-- Both workers of owner 1 are connected; connection 200 is worker 20's.
abbrev pub hub : Hub
hub = record {
  db = base_db;
  conns = (20, 200) ∷ (21, 201) ∷ [];
  live = (21, live_of 21 Kind.browser) ∷ (20, live_of 20 Kind.native) ∷ [];
  jobs = [];
  logs = [];
  sent = [];
  closed = [];
  published = [];
}

abbrev pub busy_hub : Hub
busy_hub = record hub { db = record base_db { jobs = open_job ∷ [] } }

abbrev pub queued_miner : Miner
queued_miner = record {
  id = 10;
  name = codes "m";
  currency = codes "XMR";
  engine = EngineKind.adapter;
  simulated = false;
  wallet_id = none;
  pool_url = codes "stratum+tcp://p:1";
  cpu_pct = 50;
  gpu_pct = 0;
  status = MinerStatus.queued;
  hashrate = 0;
  created_at = 5;
  updated_at = 5;
}
