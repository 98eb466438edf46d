-- ===== src/Tests/SystemTests.antt =====
-- Runs of the whole server from the small installation.
use money_miner.Base.{
  none, if◌then◌else◌, text_eq, Option, ℕ, ◌-◌, ◌+◌, ◌≡◌, ◌∷◌, refl, true, false, some, List, [],
  Text, codes, arith, ltb, trim_space,
}
use money_miner.RateLimit.{Buckets, Limiter}
use money_miner.Store.Types.{ok, Kind}
use money_miner.Store.Workers.{get_worker}
use money_miner.Store.Settings.{list_settings}
use money_miner.Swarm.Hub.State.{with_db}
use money_miner.Swarm.Hub.Reports.{handle_message, job_ack}
use money_miner.System.{start, next, queries, drop_worker, run_op}
use money_miner.System.Sound.{IsSound}
use money_miner.System.Tenants.{Reach-IsSound, message_stays_home, IsConfinedTo}
use money_miner.Server.{Env, Server, Request, authed, delete_miner, delete_worker}
use money_miner.Server.Serve.{handle_request}
use money_miner.Server.Guarded.{IsGuarded, handle_request-IsGuarded}
use money_miner.Server.Steps.{run_requests, run_requests-IsSound}
use money_miner.Api.Settings.Refined.{Put, run_puts, spec_puts, view, run_puts-spec_puts}
use money_miner.Swarm.Code.{normalize_code}
use money_miner.Swarm.Codes.{authenticate_worker, done, enroll, candidate, new_worker_token, redeem}
use money_miner.Api.Public.{handle_enroll, wss_url}
use money_miner.Worker.Enroll.{
  Host, EnrollRequest, SavedConfig, enroll_request, cmd_enroll, body_of,
}
use money_miner.Worker.Enroll.Connects.{cmd_enroll-authenticate}
use money_miner.Tests.Fixtures.{native_hw, busy_hub, hub, plain_crypto, worker_row}
use money_miner.Tests.AuthTests.{one_jwt, cold, realm_keys}
use money_miner.Tests.ApiTests.{one_net}

busy_hub-IsSound : IsSound busy_hub.db
busy_hub-IsSound = record {
  older = (omega arith, tt);
  miners = record { older = (omega arith, (omega arith, tt)); keyed = (refl, (refl, tt)) };
  workers = record { older = (omega arith, (omega arith, tt)); keyed = (refl, (refl, tt)) };
  paired = (refl, tt);
}

Reach-IsSound_example : IsSound (with_db (run_op (drop_worker 1 20)) busy_hub).db
Reach-IsSound_example =
    Reach-IsSound busy_hub (with_db (run_op (drop_worker 1 20)) busy_hub) busy_hub-IsSound
      (next start (queries (drop_worker 1 20)))

known_worker : get_worker 1 20 busy_hub.db ≡ ok (worker_row 20 1 Kind.native (codes "aa"))
unfolding get_worker
known_worker = refl

message_stays_home_example :
    IsConfinedTo 1 busy_hub.db (handle_message 20 1 (job_ack 40 true) busy_hub).db
message_stays_home_example =
    message_stays_home 1 20 (worker_row 20 1 Kind.native (codes "aa")) (job_ack 40 true) busy_hub
      busy_hub busy_hub-IsSound start known_worker

abbrev two_tries : Buckets
two_tries = record { Bucket = ℕ; full = λ now. 2; allow = λ now b. (ltb 0 b, b - 1) }

abbrev no_limits : Limiter two_tries
no_limits = record { m = []; last = 100 }

-- A jsonb that refuses the empty string.
abbrev some_jsonb : Text → Option Text
some_jsonb v = if text_eq v (codes "\"\"") then none else some v

abbrev demo_env : Env
demo_env = record {
  crypto = plain_crypto;
  net = one_net;
  writable = λ conn. true;
  encrypt = λ key pass. key;
  jsonb = some_jsonb;
  sub_text = λ owner. codes "alice";
  sub_id = λ sub. 1;
  ip_id = λ ip. 0;
  public_url = codes "https://mm";
  key_salt = codes "s";
  allow_simulated = false;
}

abbrev demo_server : Server two_tries one_jwt
demo_server = record {
  hub = busy_hub;
  auth = cold;
  authed_rl = no_limits;
  enroll_rl = no_limits;
  join_rl = no_limits;
}

handle_request-IsGuarded_example :
    IsGuarded two_tries one_jwt demo_env 100
      (codes "Bearer x")
      realm_keys
      (delete_miner 10)
      demo_server
      (handle_request two_tries one_jwt demo_env 100
        (authed (codes "Bearer x") realm_keys (delete_miner 10))
        demo_server)
handle_request-IsGuarded_example =
    handle_request-IsGuarded two_tries one_jwt demo_env 100 (codes "Bearer x") realm_keys
      (delete_miner 10) demo_server

abbrev two_requests : List (ℕ × Request one_jwt)
two_requests =
    (100, authed (codes "Bearer x") realm_keys (delete_worker 20))
    ∷ (101, authed (codes "Bearer x") realm_keys (delete_miner 10))
    ∷ []

run_requests-IsSound_example :
    IsSound (run_requests two_tries one_jwt demo_env two_requests demo_server).hub.db
run_requests-IsSound_example =
    run_requests-IsSound two_tries one_jwt demo_env two_requests demo_server busy_hub-IsSound

abbrev three_puts : List Put
three_puts =
    (1, codes "theme", some (codes "1"))
    ∷ (1, codes "BAD", some (codes "2"))
    ∷ (1, codes "theme", some (codes "\"\""))
    ∷ []

run_puts-spec_puts_example :
    (view (run_puts some_jsonb three_puts hub).db.settings
      ≡ spec_puts some_jsonb three_puts (view hub.db.settings))
    × ((owner : ℕ) (key : Text)
        → view (list_settings owner (run_puts some_jsonb three_puts hub).db) owner key
          ≡ spec_puts some_jsonb three_puts (view hub.db.settings) owner key)
run_puts-spec_puts_example = run_puts-spec_puts some_jsonb three_puts hub

abbrev rig : Host
rig = record {
  default_config = codes "w.json";
  hostname = codes "rig";
  goos = codes "linux";
  hardware = native_hw;
  adapters = codes "adapters";
}

abbrev rig_args : List Text
rig_args = codes "https://mm/" ∷ codes "--name" ∷ codes "r1" ∷ codes "01234-56789" ∷ []

abbrev rig_request : EnrollRequest
rig_request = record {
  url = codes "https://mm/api/swarm/enroll";
  code = codes "01234-56789";
  name = codes "r1";
  hardware = native_hw;
}

abbrev rig_saved : SavedConfig
rig_saved = record {
  app_url = codes "https://mm";
  worker_id = 50;
  worker_token = codes "tok";
  wss_url = codes "wss://mm/api/swarm/ws";
  name = codes "r1";
  adapters_dir = codes "adapters";
  allow_simulated = false;
}

rig_asks : enroll_request rig rig_args ≡ some rig_request
unfolding enroll_request
rig_asks = refl

rig_saves :
    cmd_enroll rig rig_args
      (handle_enroll plain_crypto
        (codes "https://mm")
        (λ db. db)
        (some (codes "tok"))
        (some (body_of rig_request))
        hub).0
    ≡ some rig_saved
unfolding cmd_enroll handle_enroll trim_space enroll normalize_code candidate new_worker_token
    redeem
rig_saves = refl

cmd_enroll-authenticate_example :
    let db' =
      (handle_enroll plain_crypto
        (codes "https://mm")
        (λ db. db)
        (some (codes "tok"))
        (some (body_of rig_request))
        hub).1.db in
    (owner : ℕ) × (authenticate_worker plain_crypto
        (codes "tok")
        (record db' { clock = db'.clock + 9 })
      ≡ done (50, owner, Kind.native))
    × (codes "wss://mm/api/swarm/ws" ≡ wss_url (codes "https://mm"))
    × (false ≡ false)
cmd_enroll-authenticate_example =
    cmd_enroll-authenticate plain_crypto (codes "https://mm") rig rig_args rig_request (codes "tok")
      9 hub rig_saved refl rig_asks rig_saves
