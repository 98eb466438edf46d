-- ===== src/Store/Metrics.antt =====
-- Metric samples, their hourly rollup and their retention (store.go, internal/metrics).
use money_miner.Base.{
  ℕ, ◌+◌, ◌-◌, ◌*◌, ◌%◌, ◌^◌, Bool, true, Option, none, some, List, [], ◌∷◌, ◌++◌, ◌==◌, ◌&&◌,
  if◌then◌else◌, find, select, delete, order_by, leb, ltb, take, is_some,
}
use mathlib.Core.List.{reverse}
use money_miner.Base.Int.{ℤ, pos, negsuc, ◌+ℤ◌}
use money_miner.Store.Types.{ok, err, StoreError, Sample, Rollup}
use money_miner.Store.Db.{Db, Query}
use money_miner.Store.Runs.{miner_exists, first}

abbrev pub hour : ℕ
hour = 3600

abbrev two_days : ℕ
two_days = 48 * hour

-- `date_trunc('hour', ts)`
abbrev pub trunc_hour : ℕ → ℕ
trunc_hour ts = ts - ts % hour

-- The columns `shares_accepted` and `shares_rejected` are 32 bits wide.
unfoldable pub in_int4 : ℤ → Bool
in_int4 (pos n) = ltb n (2 ^ 31)
in_int4 (negsuc n) = ltb n (2 ^ 31)

abbrev pub worker_exists : Option ℕ → Db → Bool
worker_exists none db = true
worker_exists (some id) db = is_some (find (λ w. w.id == id) db.workers)

unfoldable pub insert_metric_sample : ℕ → Option ℕ → ℕ → ℤ → ℤ → Query (Unit {0})
insert_metric_sample miner worker hashrate acc rej db =
    if miner_exists miner db && worker_exists worker db && in_int4 acc && in_int4 rej
    then (
      ok tt,
      record db {
        samples =
            db.samples
            ++ record {
              miner = miner;
              worker = worker;
              ts = db.clock;
              hashrate = hashrate;
              accepted = acc;
              rejected = rej;
            }
              ∷ [];
      },
    )
    else (err StoreError.failed, db)

-- The freshest samples, in chronological order.
unfoldable pub recent_metrics : ℕ → ℕ → Db → List Sample
recent_metrics miner limit db =
    reverse
      (take limit (order_by (λ a b. leb b.ts a.ts) (select (λ s. s.miner == miner) db.samples)))

unfoldable pub live_hashrate : ℕ → Db → ℕ
live_hashrate miner db =
    elim (first (order_by (λ a b. leb b.ts a.ts) (select (λ s. s.miner == miner) db.samples))) [
      | none ↦ 0
      | some s ↦ s.hashrate
    ]

-- Rollups of the buckets in [from, to).
unfoldable pub hourly_rollups : ℕ → ℕ → ℕ → Db → List Rollup
hourly_rollups miner from to db =
    order_by (λ a b. leb a.bucket b.bucket)
      (select (λ r. r.miner == miner && leb from r.bucket && ltb r.bucket to) db.rollups)

abbrev pub is_bucket : ℕ → ℕ → Rollup → Bool
is_bucket miner bucket r = r.miner == miner && r.bucket == bucket

abbrev max_rate : ℕ → ℕ → ℕ
max_rate a b = if ltb a b then b else a

unfoldable pub one_sample : Sample → Rollup
one_sample s = record {
  miner = s.miner;
  bucket = trunc_hour s.ts;
  avg_hashrate = record { total = s.hashrate; samples = 1 };
  max_hashrate = s.hashrate;
  accepted = s.accepted;
  rejected = s.rejected;
}

unfoldable pub merge_sample : Sample → Rollup → Rollup
merge_sample s r = record r {
  avg_hashrate = record {
    total = s.hashrate + r.avg_hashrate.total;
    samples = 1 + r.avg_hashrate.samples;
  };
  max_hashrate = max_rate s.hashrate r.max_hashrate;
  accepted = s.accepted +ℤ r.accepted;
  rejected = s.rejected +ℤ r.rejected;
}

-- `GROUP BY miner_id, bucket` with the aggregates of the statement.
unfoldable pub add_sample : Sample → List Rollup → List Rollup
unfolding one_sample merge_sample
add_sample s [] = one_sample s ∷ []
add_sample s (r ∷ rs) =
    if is_bucket s.miner (trunc_hour s.ts) r then merge_sample s r ∷ rs else r ∷ add_sample s rs

unfoldable pub group_samples : List Sample → List Rollup
unfolding add_sample
group_samples [] = []
group_samples (s ∷ ss) = add_sample s (group_samples ss)

-- `INSERT … ON CONFLICT (miner_id, bucket) DO UPDATE SET …`
unfoldable pub upsert_rollup : Rollup → List Rollup → List Rollup
upsert_rollup r [] = r ∷ []
upsert_rollup r (q ∷ qs) = if is_bucket r.miner r.bucket q then r ∷ qs else q ∷ upsert_rollup r qs

unfoldable pub upsert_rollups : List Rollup → List Rollup → List Rollup
unfolding upsert_rollup
upsert_rollups [] qs = qs
upsert_rollups (r ∷ rs) qs = upsert_rollups rs (upsert_rollup r qs)

abbrev pub is_finished : ℕ → Sample → Bool
is_finished now s = ltb s.ts (trunc_hour now)

abbrev pub is_expired : ℕ → Sample → Bool
is_expired now s = ltb (s.ts + two_days) now

-- `RollupOnce`, which `Retention.once` and `RunRollupLoop` call in each round.
unfoldable pub rollup_once : Db → Db
unfolding group_samples upsert_rollups
rollup_once db = record db {
  rollups = upsert_rollups (group_samples (select (is_finished db.clock) db.samples)) db.rollups;
  samples = delete (is_expired db.clock) db.samples;
}
