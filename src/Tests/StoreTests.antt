-- ===== src/Tests/StoreTests.antt =====
-- The database operations on concrete rows.
use money_miner.Base.{true, ◌⊎◌, ℕ, ◌≡◌, refl, none, some, [], ◌∷◌, arith, codes, find}
use money_miner.Base.Int.{pos, ◌+ℤ◌}
use money_miner.Store.Blocks.{list_blocks_found, deleted_miner_block_shared}
use money_miner.Store.Types.{
  Rollup, BlockFound, ok, err, StoreError, WorkerStatus, Kind, Sample, Worker,
}
use money_miner.Store.Db.{Db}
use money_miner.Store.Miners.{get_miner, patch_miner, set_miner_allocation, delete_miner}
use money_miner.Store.Metrics.{is_bucket, rollup_once, trunc_hour}
use money_miner.Store.Isolation.{foreign_not_found}
use money_miner.Store.Rollup.{
  rollup_once-counts, finished_in, is_any, accepted_of, sum_accepted, rollup_once_shrinks,
}
use money_miner.Tests.Fixtures.{base_db, worker_row}

foreign_not_found_example :
    (get_miner 2 10 base_db ≡ err StoreError.not_found)
    × (patch_miner 2 10 none none none base_db ≡ (err StoreError.not_found, base_db))
    × (set_miner_allocation 2 10 70 10 base_db ≡ (err StoreError.not_found, base_db))
    × (delete_miner 2 10 base_db ≡ (err StoreError.not_found, base_db))
foreign_not_found_example =
    foreign_not_found 2 10 none none none 70 10 base_db
      ((λ _. omega arith), ((λ e. absurd (omega arith)), tt))

abbrev revoked_worker : Worker
revoked_worker = record (worker_row 20 1 Kind.native (codes "aa")) {
  status = WorkerStatus.revoked;
  revoked_at = some 99;
}

abbrev sample_at : ℕ → ℕ → Sample
sample_at ts acc = record {
  miner = 10;
  worker = none;
  ts = ts;
  hashrate = 100;
  accepted = pos acc;
  rejected = pos 0;
}

abbrev sampled_db : ℕ → Db
sampled_db now = record base_db { clock = now; samples = sample_at 3700 2 ∷ sample_at 3800 5 ∷ [] }

rollup_once-counts_example :
    let after = find (is_bucket 10 3600) (rollup_once (sampled_db 9000)).rollups in
    ((finished_in 10 3600 (sampled_db 9000) ≡ [])
      × (after ≡ find (is_bucket 10 3600) (sampled_db 9000).rollups))
    ⊎ ((r : Rollup) × (after ≡ some r)
        × (is_any (finished_in 10 3600 (sampled_db 9000)) ≡ true)
        × (r.accepted ≡ sum_accepted (finished_in 10 3600 (sampled_db 9000))))
rollup_once-counts_example = rollup_once-counts 10 3600 (sampled_db 9000)

-- 48 hours after a moment between the two samples.
rollup_once_shrinks_example :
    let db = sampled_db 176550 in
    let bucket = is_bucket 10 (trunc_hour 3800) in
    (accepted_of (find bucket (rollup_once db).rollups) ≡ pos 2 +ℤ pos 5)
    × (accepted_of (find bucket (rollup_once (rollup_once db)).rollups) ≡ pos 5)
rollup_once_shrinks_example =
    rollup_once_shrinks (sampled_db 176550) (sample_at 3700 2) (sample_at 3800 5) refl refl refl
      refl refl refl refl

abbrev miner_block : BlockFound
miner_block = record {
  id = 70;
  currency = 1;
  miner = some 10;
  height = some 9;
  hash = [];
  found_at = some 80;
  source = [];
  explorer_url = [];
}

abbrev block_db : Db
block_db = record base_db { blocks = miner_block ∷ [] }

miner_deleted : (delete_miner 1 10 block_db).0 ≡ ok tt
unfolding delete_miner
miner_deleted = refl

deleted_miner_block_shared_example :
    (list_blocks_found 2 block_db ≡ [])
    × ((viewer : ℕ)
        → list_blocks_found viewer (delete_miner 1 10 block_db).1
          ≡ record miner_block { miner = none } ∷ [])
deleted_miner_block_shared_example =
    deleted_miner_block_shared 1 2 10 miner_block block_db refl refl refl refl miner_deleted
