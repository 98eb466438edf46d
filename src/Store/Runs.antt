-- ===== src/Store/Runs.antt =====
-- Runs: one row for each session of a miner from its start to its stop (store.go).
use money_miner.Base.{
  ℕ, ◌+◌, Bool, Option, none, some, List, [], ◌∷◌, ◌++◌, ◌==◌, ◌&&◌, if◌then◌else◌, find, select,
  update, order_by, leb, take, is_some,
}
use money_miner.Base.Int.{ℤ, pos}
use money_miner.Store.Types.{ok, err, StoreError, MinerRun, StopReason, Average, is_null}
use money_miner.Store.Db.{Db, Query}

-- `miner_runs.miner_id` refers to `miners`.
abbrev pub miner_exists : ℕ → Db → Bool
miner_exists id db = is_some (find (λ m. m.id == id) db.miners)

abbrev pub new_run : ℕ → Db → MinerRun
new_run miner db = record {
  id = db.fresh;
  miner = miner;
  started_at = db.clock;
  stopped_at = none;
  stop_reason = none;
  avg_hashrate = record { total = 0; samples = 0 };
  shares_accepted = pos 0;
  shares_rejected = pos 0;
}

unfoldable pub open_run : ℕ → Query ℕ
open_run miner db =
    if miner_exists miner db
    then (ok db.fresh, record db { fresh = db.fresh + 1; runs = db.runs ++ new_run miner db ∷ [] })
    else (err StoreError.failed, db)

abbrev pub is_open_run : ℕ → MinerRun → Bool
is_open_run miner r = r.miner == miner && is_null r.stopped_at

-- Every open run of the miner gets the same end.
unfoldable pub close_run : ℕ → StopReason → Average → ℤ → ℤ → Db → Db
close_run miner reason avg acc rej db = record db {
  runs =
      update (is_open_run miner)
        (λ r. record r {
          stopped_at = some db.clock;
          stop_reason = some reason;
          avg_hashrate = avg;
          shares_accepted = acc;
          shares_rejected = rej;
        })
        db.runs;
}

abbrev pub first {ℓ} : {A : Type ℓ} → List A → Option A
first [] = none
first (x ∷ xs) = some x

-- The open run that started last.
unfoldable pub current_run : ℕ → Db → Option MinerRun
current_run miner db =
    first (order_by (λ a b. leb b.started_at a.started_at) (select (is_open_run miner) db.runs))

unfoldable pub list_runs : ℕ → ℕ → Db → List MinerRun
list_runs miner limit db =
    take limit
      (order_by (λ a b. leb b.started_at a.started_at) (select (λ r. r.miner == miner) db.runs))
