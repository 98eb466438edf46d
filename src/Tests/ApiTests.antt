-- ===== src/Tests/ApiTests.antt =====
-- Requests against the small installation.
use money_miner.Base.{
  ◌≡◌, ◌++◌, ◌||◌, refl, true, false, none, some, Bool, List, [], ◌∷◌, arith, codes, All, to_upper,
  trim_space, is_empty, text_eq, if◌then◌else◌, ℕ,
}
use money_miner.Base.Int.{pos}
use money_miner.Store.Types.{
  ok, Currency, EngineKind, Miner, MinerRun, MinerStatus, is_running, is_queued,
}
use money_miner.Store.Catalog.{get_currency}
use money_miner.Store.Isolation.{IsForeign}
use money_miner.Store.Miners.{CreateMinerParams, get_miner, set_miner_status, percent_ok}
use money_miner.Store.Runs.{is_open_run, open_run}
use money_miner.Store.Workers.{active_jobs_for_miner}
use money_miner.Swarm.Hub.State.{Hub}
use money_miner.Api.Response.{failure, success, ErrorCode, accept}
use money_miner.Api.Pool.{Ip, v4, Net, Url, validate_pool_url}
use money_miner.Api.Pool.Guard.{IsScheme, IsOutward, validate_pool_url-guard}
use money_miner.Api.Miners.{
  handle_get_miner, handle_start_miner, handle_stop_miner, handle_miner_history,
  handle_miner_metrics, handle_delete_miner, needs_wallet, wallet_known,
}
use money_miner.Api.Miners.Start.{handle_start_miner_accepted}
use money_miner.Api.Miners.Tenancy.{foreign_requests_refused, foreign_delete_cancels}
use money_miner.Api.Miners.Create.{CreateMinerReq, check_create, is_deferred, pool_url_for}
use money_miner.Api.Miners.Create.Checks.{IsUsable, check_create_sound}
use money_miner.Tests.Fixtures.{hub, busy_hub, base_db, miner_row}

-- A resolver that knows one public address and one of a private network.
abbrev pub one_net : Net
one_net = record {
  parse_url = λ raw.
      if is_empty raw
      then none
      else some (record { scheme = codes "stratum+tcp"; credentials = false; host = raw });
  lookup_ip =
      λ host. some ((if text_eq host (codes "inside") then v4 10 0 0 7 else v4 5 9 1 2) ∷ []);
}

outside_accepted : validate_pool_url one_net (codes "pool") ≡ true
unfolding validate_pool_url
outside_accepted = refl

inside_refused : validate_pool_url one_net (codes "inside") ≡ false
unfolding validate_pool_url
inside_refused = refl

validate_pool_url-guard_example :
    (u : Url) × (ips : List Ip) × (one_net.parse_url (codes "pool") ≡ some u)
    × (one_net.lookup_ip u.host ≡ some ips)
    × IsScheme u.scheme
    × (u.credentials ≡ false)
    × (is_empty u.host ≡ false)
    × All IsOutward ips
validate_pool_url-guard_example = validate_pool_url-guard one_net (codes "pool") outside_accepted

-- Miner 10 belongs to owner 1, and owner 2 asks for it.
busy_hub-IsForeign : IsForeign 2 10 busy_hub.db
busy_hub-IsForeign = ((λ _ e. absurd (omega arith)), ((λ e _. absurd (omega arith)), tt))

abbrev all_writable : ℕ → Bool
all_writable conn = true

foreign_requests_refused_example :
    (handle_get_miner 2 10 busy_hub ≡ (failure 404 ErrorCode.not_found, busy_hub))
    × (handle_start_miner all_writable 2 10 busy_hub ≡ (failure 404 ErrorCode.not_found, busy_hub))
    × (handle_stop_miner 2 10 busy_hub ≡ (failure 404 ErrorCode.not_found, busy_hub))
    × (handle_miner_history 2 10 true none none busy_hub
        ≡ (failure 404 ErrorCode.not_found, busy_hub))
    × (handle_miner_metrics 2 10 (codes "7") busy_hub ≡ (failure 404 ErrorCode.not_found, busy_hub))
foreign_requests_refused_example =
    foreign_requests_refused 2 10 busy_hub busy_hub-IsForeign all_writable true none none
      (codes "7")

foreign_delete_cancels_example :
    ((handle_delete_miner 2 10 busy_hub).0 ≡ failure 404 ErrorCode.not_found)
    × (active_jobs_for_miner 10 (handle_delete_miner 2 10 busy_hub).1.db ≡ [])
foreign_delete_cancels_example = foreign_delete_cancels 2 10 busy_hub busy_hub-IsForeign

abbrev new_miner_req : CreateMinerReq
new_miner_req = record {
  name = codes "rig";
  currency = codes "xmr";
  wallet_id = none;
  pool_url = codes "pool";
  engine = codes "simulated";
  cpu_pct = pos 0;
  gpu_pct = pos 10;
}

abbrev new_params : CreateMinerParams
new_params = record {
  owner = 1;
  name = codes "rig";
  currency = codes "XMR";
  wallet_id = none;
  engine = EngineKind.simulated;
  pool_url = codes "pool";
  cpu_pct = 50;
  gpu_pct = 10;
}

new_miner_accepted : check_create one_net true 1 new_miner_req base_db ≡ accept new_params
unfolding check_create trim_space get_currency to_upper pool_url_for validate_pool_url
new_miner_accepted = refl

check_create_sound_example :
    (cur : Currency) × (get_currency (codes "XMR") base_db ≡ ok cur)
    × (cur.enabled ≡ true)
    × (is_deferred cur.strategy ≡ false)
    × (new_params.currency ≡ cur.symbol)
    × (new_params.owner ≡ 1)
    × IsUsable true EngineKind.simulated
    × (validate_pool_url one_net (codes "pool") ≡ true)
    × (wallet_known 1 none base_db ≡ true)
    × (percent_ok 50 10 ≡ true)
unfolding to_upper trim_space
check_create_sound_example =
    check_create_sound one_net true 1 new_miner_req base_db new_params new_miner_accepted

-- The first miner of owner 1, simulated and stopped.
abbrev idle_hub : Hub
idle_hub = record hub {
  db = record base_db {
    miners = record (miner_row 10 1 MinerStatus.stopped) { engine = EngineKind.simulated } ∷ [];
  };
}

abbrev idle_view : MinerStatus → Miner
idle_view status = record {
  id = 10;
  name = codes "m";
  currency = codes "XMR";
  engine = EngineKind.simulated;
  simulated = true;
  wallet_id = none;
  pool_url = codes "stratum+tcp://p:1";
  cpu_pct = 50;
  gpu_pct = 0;
  status = status;
  hashrate = 0;
  created_at = 5;
  updated_at = 5;
}

abbrev started : Hub
started = (handle_start_miner all_writable 1 10 idle_hub).1

start_accepted :
    handle_start_miner all_writable 1 10 idle_hub
    ≡ (success 202 (idle_view MinerStatus.queued), started)
unfolding handle_start_miner get_miner get_currency open_run
start_accepted = refl

handle_start_miner_accepted_example :
    (m : Miner) × (run : MinerRun) × (get_miner 1 10 idle_hub.db ≡ ok m)
    × (is_running m.status || is_queued m.status ≡ false)
    × (needs_wallet m ≡ false)
    × (idle_view MinerStatus.queued ≡ record m { status = MinerStatus.queued })
    × (started.db.runs ≡ idle_hub.db.runs ++ run ∷ [])
    × (is_open_run m.id run ≡ true)
    × (started.db.miners ≡ (set_miner_status 10 MinerStatus.queued idle_hub.db).miners)
handle_start_miner_accepted_example =
    handle_start_miner_accepted all_writable 1 10 202 (idle_view MinerStatus.queued) idle_hub
      started start_accepted
