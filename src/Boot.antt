-- ===== src/Boot.antt =====
-- The start of the server (money-miner-backend/cmd/server/main.go), with the loops that it starts
-- (internal/metrics/retention.go, rollup.go, and Run of internal/payouts/poller.go).
pub mod Seeding
use money_miner.Base.{
  ℕ, ◌*◌, ◌+◌, Bool, true, false, ◌&&◌, not, Option, none, some, List, [], ◌∷◌, ltb, if◌then◌else◌,
  Text, codes, is_empty, length, ◌==◌,
}
use money_miner.Base.Int.{ℤ, pos, negsuc, ltb_ℤ}
use money_miner.Config.{Config, Environment, load, nanoseconds}
use money_miner.Store.Types.{Result, ok, err, EngineKind, Wallet}
use money_miner.Store.Db.{Db}
use money_miner.Store.Catalog.{create_wallet}
use money_miner.Store.Metrics.{rollup_once}
use money_miner.Store.Miners.{CreateMinerParams, create_miner, list_miners}
use money_miner.Api.Pool.{Url}

-- `originHosts`: the hosts of the origins that parse and have one.
unfoldable origin_hosts : (parse_url : Text → Option Url) → List Text → List Text
origin_hosts parse_url [] = []
origin_hosts parse_url (o ∷ os) =
    let rest = origin_hosts parse_url os in
    elim (parse_url o) [ none ↦ rest | some u ↦ if is_empty u.host then rest else u.host ∷ rest ]

abbrev pub demo_xmr : Text
demo_xmr =
    codes
      "44AFFq5kSiGBoZ4sMDRsFSBzNdkW7jcqEW4nQWYkWfFdDHmsFSeNm5xQDLGzP4Srp2TnHv7EwVzq2tZzrVMxV4CUVuDE6Q"

abbrev pub demo_miner : (sub : ℕ) → (allow_simulated : Bool) → Wallet → CreateMinerParams
demo_miner sub allow_simulated w = record {
  owner = sub;
  name = codes "Demo XMR miner";
  currency = codes "XMR";
  wallet_id = some w.id;
  engine = if allow_simulated then EngineKind.simulated else EngineKind.adapter;
  pool_url = codes "stratum+ssl://pool.supportxmr.com:443";
  cpu_pct = 50;
  gpu_pct = 0;
}

-- `seedTestData`; 0 stands for an empty MM_TEST_USER_SUB. Its error is only logged.
unfoldable pub seed_test_data : (sub : ℕ) → (allow_simulated : Bool) → Db → Db
seed_test_data sub allow_simulated db =
    if sub == 0
    then db
    else (if ltb 0 (length (list_miners sub db))
        then db
        else (let (r, db') =
              create_wallet sub (codes "XMR") demo_xmr (codes "demo (seeded)") true db in
            elim r [
              | err _ ↦ db'
              | ok w ↦ (create_miner (demo_miner sub allow_simulated w) db').1
            ]))

-- `time.NewTicker`, which panics unless its interval is positive.
abbrev pub ticks : (interval : ℤ) → Bool
ticks interval = ltb_ℤ (pos 0) interval

-- What `Retention.Run` does up to its context's end: a pass at once and one for each tick; between
-- two passes others change the database. None is the panic of the ticker.
unfoldable pub passes : (between : List (Db → Db)) → Db → Db
passes [] db = db
passes (f ∷ fs) db = passes fs (rollup_once (f db))

unfoldable run_retention : (interval : ℤ) → (between : List (Db → Db)) → Db → Option Db
unfolding passes
run_retention interval between db =
    if ticks interval then some (passes between (rollup_once db)) else none

-- `RunRollupLoop`, which has a default interval and no pass at once. Nothing calls it.
unfoldable run_rollup_loop : (every : ℤ) → (between : List (Db → Db)) → Db → Option Db
unfolding passes
run_rollup_loop every between db =
    let interval = if ticks every then every else pos (3600 * nanoseconds) in
    if ticks interval then some (passes between db) else none

-- `Poller.Run`: a round for each tick; `once` is a round.
unfoldable pub rounds : {S : Type 0} → (once : S → S) → (between : List (S → S)) → S → S
rounds once [] s = s
rounds once (f ∷ fs) s = rounds once fs (once (f s))

unfoldable run_poller :
    {S : Type 0} → (interval : ℤ) → (once : S → S) → (between : List (S → S)) → S → Option S
unfolding rounds
run_poller interval once between s = if ticks interval then some (rounds once between s) else none

-- How `main` goes on: it exits with an error, it panics in a goroutine, or it serves until a signal.
pub data Start : Type 0 where
  config_missing no_database panics no_listener : Start
  serves : Config → Start

-- `main` up to the server: `version` is the build's, `connects` whether the database can be reached,
-- `listens` whether the HTTP server can listen. The tickers and the server start at the same time;
-- where both fail, either may be first. Warming the keys and seeding test data stop nothing.
unfoldable pub main : (version : Text) → Environment → (connects listens : Text → Bool) → Start
main version e connects listens = elim (load e) [
  | none ↦ Start.config_missing
  | some c ↦
      if not (connects c.database_url)
      then Start.no_database
      else (if ticks c.retention_interval && ticks c.payout_poll_interval
          then (if listens c.listen
              then serves (record c { version = version })
              else Start.no_listener)
          else Start.panics)
]
