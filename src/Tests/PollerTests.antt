-- ===== src/Tests/PollerTests.antt =====
-- Polling a pool, subscribing to events, and a worker's session, on concrete inputs.
use money_miner.Base.{
  map, ℕ, ◌+◌, ◌≡◌, ◌⊎◌, refl, true, false, none, some, Bool, List, [], ◌∷◌, Text, codes, is_empty,
  to_lower,
}
use money_miner.Base.Int.{pos}
use money_miner.Store.Types.{EngineKind}
use money_miner.Swarm.Hub.State.{Hub}
use money_miner.Poller.{
  Json, number, text, array, object, item, end, field, no_field, Readers, Payment, PoolApi,
  extract_payments, record_payments,
}
use money_miner.Poller.Repoll.{repoll_idempotent}
use money_miner.Events.Stream.{
  Moment, received, beats, elsewhere, tells, leaves, connected, event, ping, handle_events,
}
use money_miner.Events.Stream.Fifo.{queue_stream, handle_events-queue}
use money_miner.Events.{
  Broker, start, next, subscribes, publishes, subscribe, publish_frame, new_broker,
}
use money_miner.Events.Bounded.{IsBounded, Reach-IsBounded}
use money_miner.Engine.{AdapterConfig, EngineConfig, Engine, Files, locate, resolve_binary}
use money_miner.Engine.Pinned.{resolve_binary_pinned}
use money_miner.Engine.{prepare, prepare_adapter, stop, set_allocation}
use money_miner.Engine
use money_miner.Engine.Stats.{EngineStats}
use money_miner.Worker.{
  FileConfig, hello, ack, metrics, job_assign, allocation_update, worker_revoke, handle_assign,
  launch, handle_inbound,
}
use money_miner.Worker.Runs.{
  Happening, Machine, Attempt, lasts, not_dialled, arrives, ticks, follow, cmd_run,
}
use money_miner.Worker.Runs.Honest.{AreHonest, cmd_run-AreHonest}
use money_miner.Tests.Fixtures.{hub}

abbrev no_readers : Readers
no_readers = record { scan_number = λ s. none; parse_time = λ s. none }

abbrev pool_body : Json
pool_body = object (
    field (codes "payments")
      (array (
        item
          (object (
            field (codes "tx") (text (codes "ab"))
              (field (codes "amount") (number (pos 7)) no_field)))
          (item (number (pos 1)) end)))
      no_field)

abbrev one_payment : Payment
one_payment = record { txid = codes "ab"; amount = pos 7; paid_at = none }

extract_one : extract_payments no_readers pool_body ≡ one_payment ∷ []
unfolding extract_payments
extract_one = refl

abbrev pool_query : PoolApi
pool_query = record {
  owner = 1;
  symbol = codes "XMR";
  address = codes "4x";
  tx_tpl = codes "https://x/{txid}";
  pool_name = codes "p";
  url = codes "https://p/4x";
}

repoll_idempotent_example :
    let h' = record_payments pool_query (one_payment ∷ []) hub in
    let later : Hub = record h' { db = record h'.db { clock = h'.db.clock + 600 } } in
    record_payments pool_query (one_payment ∷ []) later ≡ later
repoll_idempotent_example = repoll_idempotent pool_query (one_payment ∷ []) 600 hub (refl, tt)

abbrev one_subscriber : Broker ℕ
one_subscriber = (subscribe 1 (new_broker {E = ℕ})).1

Reach-IsBounded_example : IsBounded (publish_frame 1 9 one_subscriber)
Reach-IsBounded_example =
    Reach-IsBounded (publish_frame 1 9 one_subscriber)
      (next (next start (subscribes 1)) (publishes 1 9))

abbrev xmrig : AdapterConfig
xmrig = record {
  binary = codes "xmrig";
  sha256 = codes "AB";
  args_template = [];
  api_kind = codes "xmrig";
  api_port = 80;
}

abbrev some_files : Files
some_files = record {
  is_file = λ p. false;
  look_path = λ p. some p;
  file_sha256 = λ p. some (codes "ab");
  join = λ a b. b;
  free_port = none;
}

xmrig_resolved : resolve_binary some_files (some xmrig) [] [] ≡ some (codes "xmrig")
unfolding resolve_binary to_lower
xmrig_resolved = refl

resolve_binary_pinned_example :
    (locate some_files (codes "xmrig") [] [] ≡ some (codes "xmrig"))
    × ((is_empty xmrig.sha256 ≡ true)
        ⊎ ((sum : Text) × (some_files.file_sha256 (codes "xmrig") ≡ some sum)
            × (to_lower sum ≡ to_lower xmrig.sha256)))
resolve_binary_pinned_example =
    resolve_binary_pinned some_files xmrig [] [] (codes "xmrig") xmrig_resolved

abbrev engine_cfg : EngineConfig
engine_cfg = record {
  algorithm = codes "randomx";
  pool_url = codes "p";
  wallet = codes "4x";
  worker_name = codes "mm-1-2";
  threads = 8;
  gpu_enabled = false;
  gpu_intensity = 0;
  adapter = some xmrig;
}

abbrev honest : FileConfig
honest = record { adapters_dir = []; allow_simulated = false }

abbrev comes_up : Engine → Bool
comes_up e = true

abbrev busy_machine : Machine
busy_machine = record { cpus = 8; gpu_model = []; vram_mb = 0 }

abbrev zero_stats : EngineStats
zero_stats = record {
  hashrate = 0;
  shares_accepted = pos 0;
  shares_rejected = pos 0;
  uptime = pos 0;
  running = true;
  stats_available = false;
}

-- An assignment of a simulated engine, one of xmrig, a tick, and the end.
abbrev three_sessions : List Attempt
three_sessions =
    lasts (
      arrives (
        job_assign
          (record { job = 5; engine = EngineKind.adapter; config = engine_cfg; simulated = true }))
      ∷ arrives (
          job_assign (record {
            job = 6;
            engine = EngineKind.adapter;
            config = engine_cfg;
            simulated = false;
          }))
      ∷ arrives (allocation_update 6 10 0)
      ∷ ticks (λ e. zero_stats)
      ∷ arrives worker_revoke
      ∷ [])
    ∷ not_dialled
    ∷ []

what_is_sent :
    map (λ p. p.session.sent) (cmd_run honest some_files comes_up busy_machine three_sessions)
    ≡ (hello (codes "adapter" ∷ []) 8 [] 0
        ∷ ack 5 false
        ∷ ack 6 true
        ∷ metrics 6 zero_stats (codes "adapter(xmrig)")
        ∷ [])
      ∷ []
      ∷ []
unfolding cmd_run follow handle_assign launch prepare prepare_adapter resolve_binary handle_inbound
    to_lower money_miner.Engine.start stop set_allocation
what_is_sent = refl

-- A second assignment of job 6 overwrites the first engine, which goes on running.
abbrev again : Happening
again = arrives (
    job_assign
      (record { job = 6; engine = EngineKind.adapter; config = engine_cfg; simulated = false }))

first_is_lost :
    map
      (λ p. map (λ (e : Engine). e.running) p.session.lost)
      (cmd_run honest some_files comes_up busy_machine (lasts (again ∷ again ∷ []) ∷ []))
    ≡ (true ∷ []) ∷ []
unfolding cmd_run follow handle_assign launch prepare prepare_adapter resolve_binary handle_inbound
    to_lower money_miner.Engine.start stop set_allocation
first_is_lost = refl

cmd_run-AreHonest_example :
    AreHonest three_sessions (cmd_run honest some_files comes_up busy_machine three_sessions)
cmd_run-AreHonest_example =
    cmd_run-AreHonest honest some_files comes_up busy_machine three_sessions refl

-- A frame, its receipt, a heartbeat, and somebody else's departure.
abbrev four_moments : List (Moment ℕ)
four_moments = elsewhere (tells 1 9) ∷ received ∷ beats ∷ elsewhere (leaves 2 0) ∷ []

handle_events-queue_example :
    (handle_events 1 true four_moments one_subscriber).written
    ≡ connected ∷ queue_stream 1 four_moments []
unfolding subscribe
handle_events-queue_example =
    handle_events-queue 1 four_moments one_subscriber refl refl (refl, (refl, (refl, (refl, tt))))

four_written : queue_stream 1 four_moments [] ≡ event 9 ∷ ping ∷ []
four_written = refl
