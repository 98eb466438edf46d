-- ===== src/System/Queries.antt =====
-- The database operations and the invariant (store.go, swarm/codes.go).
pub mod Rows
pub mod Others
pub mod Miners
pub mod Workers
use money_miner.Base.{Option-cases, inl, inr, none, some, ◌≡◌, refl, ◌≤◌, arith}
use money_miner.Store.Db.{Db}
use money_miner.Store.Runs.{close_run}
use money_miner.Store.Metrics.{rollup_once}
use money_miner.Store.Settings.{put_setting, put_exchange_setting}
use money_miner.System.{
  Op, pass, new_wallet, drop_wallet, new_miner, patch, miner_status, allocate, drop_miner,
  begin_run, end_run, sample, roll_up, payout, setting, currency_setting, exchange_setting,
  worker_status, worker_caps, revoke_node, drop_worker, job_status, new_code, drop_code,
  redeem_code, run_op,
}
use money_miner.System.Sound.{IsSound}
use money_miner.System.Queries.Others.{
  Keeps, kept-IsSound, kept-IsSound, create_wallet-Keeps, delete_wallet-Keeps, open_run-Keeps,
  insert_metric_sample-Keeps, insert_payout-Keeps, put_currency_setting-Keeps, create-Keeps,
  revoke-Keeps,
}
use money_miner.System.Queries.Miners.{
  create_miner-IsSound, patch_miner-IsSound, set_miner_status-IsSound, set_miner_allocation-IsSound,
  delete_miner-IsSound,
}
use money_miner.System.Queries.Workers.{
  delete_worker-IsSound, set_worker_status-IsSound, update_worker_caps-IsSound,
  set_swarm_job_status-IsSound, revoke_worker-IsSound, redeem-IsSound,
}

same-IsSound :
    (db db' : Db)
    → (db'.fresh ≡ db.fresh)
      × (db'.miners ≡ db.miners)
      × (db'.workers ≡ db.workers)
      × (db'.jobs ≡ db.jobs)
    → IsSound db
    → IsSound db'
same-IsSound db db' (f, m, w, j) a =
    kept-IsSound db db' (record { jobs = j; miners = m; workers = w; fresh = omega (arith, f) }) a

pub run_op-IsSound : (q : Op) (db : Db) → IsSound db → IsSound (run_op q db)
unfolding run_op close_run rollup_once put_setting put_exchange_setting
run_op-IsSound (pass seconds) db a = same-IsSound db _ (refl, refl, refl, refl) a
run_op-IsSound (new_wallet owner symbol address label validated) db a =
    kept-IsSound db _ (create_wallet-Keeps owner symbol address label validated db) a
run_op-IsSound (drop_wallet owner id) db a = kept-IsSound db _ (delete_wallet-Keeps owner id db) a
run_op-IsSound (new_miner p) db a = create_miner-IsSound p db a
run_op-IsSound (patch owner id name wallet pool) db a =
    patch_miner-IsSound owner id name wallet pool db a
run_op-IsSound (miner_status id status) db a = set_miner_status-IsSound id status db a
run_op-IsSound (allocate owner id cpu gpu) db a = set_miner_allocation-IsSound owner id cpu gpu db a
run_op-IsSound (drop_miner owner id) db a = delete_miner-IsSound owner id db a
run_op-IsSound (begin_run miner) db a = kept-IsSound db _ (open_run-Keeps miner db) a
run_op-IsSound (end_run miner reason avg acc rej) db a =
    same-IsSound db _ (refl, refl, refl, refl) a
run_op-IsSound (sample miner worker hashrate acc rej) db a =
    kept-IsSound db _ (insert_metric_sample-Keeps miner worker hashrate acc rej db) a
run_op-IsSound roll_up db a = same-IsSound db _ (refl, refl, refl, refl) a
run_op-IsSound (payout owner symbol address amount txid url pool paid_at) db a =
    kept-IsSound db _ (insert_payout-Keeps owner symbol address amount txid url pool paid_at db) a
run_op-IsSound (setting jsonb owner key value) db a = elim (Option-cases (jsonb value)) [
  | inl refused ↦ rw (refused, run_op, put_setting) a
  | inr (v, stored) ↦
      rw (stored, run_op, put_setting) (same-IsSound db _ (refl, refl, refl, refl) a)
]
run_op-IsSound (currency_setting owner symbol url enabled custom) db a =
    kept-IsSound db _ (put_currency_setting-Keeps owner symbol url enabled custom db) a
run_op-IsSound (exchange_setting encrypt owner exchange currencies key passphrase) db a =
    same-IsSound db _ (refl, refl, refl, refl) a
run_op-IsSound (worker_status id status) db a = set_worker_status-IsSound id status db a
run_op-IsSound (worker_caps id caps) db a = update_worker_caps-IsSound id caps db a
run_op-IsSound (revoke_node owner id) db a = revoke_worker-IsSound owner id db a
run_op-IsSound (drop_worker owner id) db a = delete_worker-IsSound owner id db a
run_op-IsSound (job_status id status) db a = set_swarm_job_status-IsSound id status db a
run_op-IsSound (new_code crypto owner bytes salt) db a =
    kept-IsSound db _ (create-Keeps crypto owner bytes salt db) a
run_op-IsSound (drop_code owner id) db a = kept-IsSound db _ (revoke-Keeps owner id db) a
run_op-IsSound (redeem_code c name hw token) db a = redeem-IsSound c name hw token db a
