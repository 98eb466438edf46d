-- ===== src/System/Handlers/Polling.antt =====
-- A round of the payout poller as steps (payouts/poller.go).
use money_miner.Base.{
  true, false, Option, List, [], ◌∷◌, Text, Bool-cases, Option-cases, inl, inr, is_empty, contains,
  codes,
}
use money_miner.Store.Types.{Result-cases, Wallet, Pool, Currency}
use money_miner.Store.Db.{currency_by_id}
use money_miner.Swarm.Hub.State.{Hub}
use money_miner.Poller.{
  PoolApi, Payment, Readers, Json, is_positive, record_payment, record_payments, explorer_url,
  extract_payments, check, check_pools, pool_api, poll_wallets, poll_once,
}
use money_miner.Store.Payouts.{insert_payout}
use money_miner.System.{Reach, next, run_op, queries, publishes, payout}

module _ (first : Hub) where
  -- One round of the payout poller.
  record_payment-Reach :
      (q : PoolApi) (pay : Payment) (h : Hub) → Reach first h → Reach first (record_payment q pay h)
  unfolding record_payment run_op
  record_payment-Reach q pay h r = elim (Bool-cases (is_positive pay.amount)) [
    | inr nothing ↦ rw (nothing, record_payment) r
    | inl paid ↦
        let url = explorer_url q.tx_tpl pay.txid in
        let stored = next r (
          queries
            (payout q.owner q.symbol q.address pay.amount pay.txid url q.pool_name pay.paid_at)) in
        elim (Result-cases
          (insert_payout q.owner q.symbol q.address pay.amount pay.txid url q.pool_name pay.paid_at
            h.db).0) [
              | inr (x, failed) ↦ rw (paid, failed, record_payment) stored
              | inl (true, new) ↦ rw (paid, new, record_payment) (next stored (publishes q.owner _))
              | inl (false, known) ↦ rw (paid, known, record_payment) stored
            ]
  ]

  record_payments-Reach :
      (q : PoolApi) (ps : List Payment) (h : Hub)
      → Reach first h
      → Reach first (record_payments q ps h)
  unfolding record_payments
  record_payments-Reach q [] h r = r
  record_payments-Reach q (pay ∷ ps) h r =
      record_payments-Reach q ps (record_payment q pay h) (record_payment-Reach q pay h r)

  module _ (readers : Readers) (fetch : Text → Option Json) where
    check-Reach : (q : PoolApi) (h : Hub) → Reach first h → Reach first (check readers fetch q h)
    unfolding check
    check-Reach q h r = elim (Option-cases (fetch q.url)) [
      | inl silent ↦ rw (silent, check) r
      | inr (doc, got) ↦
          rw (got, check) (record_payments-Reach q (extract_payments readers doc) h r)
    ]

    check_pools-Reach :
        (w : Wallet) (c : Currency) (pls : List Pool) (h : Hub)
        → Reach first h
        → Reach first (check_pools readers fetch w c pls h)
    unfolding check_pools
    check_pools-Reach w c [] h r = r
    check_pools-Reach w c (pl ∷ pls) h r = elim (Bool-cases (is_empty pl.api_tpl)) [
      | inl mute ↦ rw (mute, check_pools) (check_pools-Reach w c pls h r)
      | inr asks ↦ elim (Bool-cases (contains pl.api_tpl (codes "{address}"))) [
        | inr fixed ↦ rw (asks, fixed, check_pools) (check_pools-Reach w c pls h r)
        | inl templated ↦
            rw (asks, templated, check_pools)
              (check_pools-Reach w c pls _ (check-Reach (pool_api readers fetch w c pl) h r))
      ]
    ]

    poll_wallets-Reach :
        (ws : List Wallet) (h : Hub) → Reach first h → Reach first (poll_wallets readers fetch ws h)
    unfolding poll_wallets
    poll_wallets-Reach [] h r = r
    poll_wallets-Reach (w ∷ ws) h r = elim (Option-cases (currency_by_id w.currency h.db)) [
      | inl unknown ↦ rw (unknown, poll_wallets) (poll_wallets-Reach ws h r)
      | inr (c, known) ↦ elim (Option-cases c.pools) [
        | inl bad ↦ rw (known, bad, poll_wallets) (poll_wallets-Reach ws h r)
        | inr (pls, good) ↦
            rw (known, good, poll_wallets) (poll_wallets-Reach ws _ (check_pools-Reach w c pls h r))
      ]
    ]

    poll_once-Reach : (h : Hub) → Reach first h → Reach first (poll_once readers fetch h)
    unfolding poll_once
    poll_once-Reach h r = poll_wallets-Reach h.db.wallets h r
