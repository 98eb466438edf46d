-- ===== src/System/Queries/Others.antt =====
-- The operations that leave miners, workers and jobs alone.
use money_miner.Base.{ℕ, ◌≡◌, ◌≤◌, Bool, Option, List, arith, Text}
use money_miner.Base.Int.{ℤ}
use money_miner.Store.Db.{Db}
use money_miner.Store.Catalog.{create_wallet, delete_wallet}
use money_miner.Store.Runs.{open_run}
use money_miner.Store.Metrics.{insert_metric_sample}
use money_miner.Store.Payouts.{insert_payout}
use money_miner.Store.Settings.{put_currency_setting}
use money_miner.Swarm.Codes.{Crypto, create, revoke}
use money_miner.System.Sound.{IsSound, jobs_later}
use money_miner.System.Keys.{later-IsTable}

-- An operation on other tables; it may draw ids.
pub record Keeps (db db' : Db) : Type 0 where
  pub jobs : db'.jobs ≡ db.jobs
  pub miners : db'.miners ≡ db.miners
  pub workers : db'.workers ≡ db.workers
  pub fresh : db.fresh ≤ db'.fresh

pub kept-IsSound : (db db' : Db) → Keeps db db' → IsSound db → IsSound db'
kept-IsSound db db' k a = record {
  older = rw k.jobs (jobs_later db.fresh db'.fresh db.jobs k.fresh a.older);
  miners = rw k.miners (later-IsTable _ _ db.fresh db'.fresh db.miners k.fresh a.miners);
  workers = rw k.workers (later-IsTable _ _ db.fresh db'.fresh db.workers k.fresh a.workers);
  paired = rw (k.jobs, k.miners, k.workers) a.paired;
}

pub create_wallet-Keeps :
    (owner : ℕ) (symbol address label : Text) (validated : Bool) (db : Db)
    → Keeps db (create_wallet owner symbol address label validated db).1
unfolding create_wallet
create_wallet-Keeps owner symbol address label validated db = record {
  jobs = ground arith;
  miners = ground arith;
  workers = ground arith;
  fresh = ground arith;
}

pub delete_wallet-Keeps : (owner id : ℕ) (db : Db) → Keeps db (delete_wallet owner id db).1
unfolding delete_wallet
delete_wallet-Keeps owner id db = record {
  jobs = ground arith;
  miners = ground arith;
  workers = ground arith;
  fresh = ground arith;
}

pub open_run-Keeps : (miner : ℕ) (db : Db) → Keeps db (open_run miner db).1
unfolding open_run
open_run-Keeps miner db = record {
  jobs = ground arith;
  miners = ground arith;
  workers = ground arith;
  fresh = ground arith;
}

pub insert_metric_sample-Keeps :
    (miner : ℕ) (worker : Option ℕ) (hashrate : ℕ) (acc rej : ℤ) (db : Db)
    → Keeps db (insert_metric_sample miner worker hashrate acc rej db).1
unfolding insert_metric_sample
insert_metric_sample-Keeps miner worker hashrate acc rej db = record {
  jobs = ground arith;
  miners = ground arith;
  workers = ground arith;
  fresh = ground arith;
}

pub insert_payout-Keeps :
    (owner : ℕ) (symbol address : Text) (amount : ℤ) (txid url pool : Text) (paid_at : Option ℕ)
    (db : Db)
    → Keeps db (insert_payout owner symbol address amount txid url pool paid_at db).1
unfolding insert_payout
insert_payout-Keeps owner symbol address amount txid url pool paid_at db = record {
  jobs = ground arith;
  miners = ground arith;
  workers = ground arith;
  fresh = ground arith;
}

pub put_currency_setting-Keeps :
    (owner : ℕ) (symbol url : Text) (enabled : Bool) (custom : Text) (db : Db)
    → Keeps db (put_currency_setting owner symbol url enabled custom db)
unfolding put_currency_setting
put_currency_setting-Keeps owner symbol url enabled custom db = record {
  jobs = ground arith;
  miners = ground arith;
  workers = ground arith;
  fresh = ground arith;
}

pub create-Keeps :
    (crypto : Crypto) (owner : ℕ) (bytes : Option (List ℕ)) (salt : ℕ) (db : Db)
    → Keeps db (create crypto owner bytes salt db).1
unfolding create
create-Keeps crypto owner bytes salt db = record {
  jobs = ground arith;
  miners = ground arith;
  workers = ground arith;
  fresh = ground arith;
}

pub revoke-Keeps : (owner id : ℕ) (db : Db) → Keeps db (revoke owner id db).1
unfolding revoke
revoke-Keeps owner id db = record {
  jobs = ground arith;
  miners = ground arith;
  workers = ground arith;
  fresh = ground arith;
}
