-- ===== src/System/Handlers/Control.antt =====
-- The loops of the hub as steps (swarm/hub.go).
use money_miner.Base.{ℕ, Bool, List, [], ◌∷◌, inl, inr}
use money_miner.Store.Types.{Result-cases, Miner, StopReason, SwarmJob}
use money_miner.Store.Catalog.{get_currency}
use money_miner.Store.Miners.{queued_miners_for_owner}
use money_miner.Store.Workers.{active_jobs_for_miner}
use money_miner.Swarm.Hub.State.{Hub}
use money_miner.Swarm.Hub.Assignment.{assign_all, assign_queued, wallet_of}
use money_miner.Swarm.Hub.Control.{cancel_job, cancel_jobs, cancel_miner}
use money_miner.System.{Reach, next, assigns, cancels}

module _ (first : Hub) where
  cancel_jobs-Reach :
      (miner : ℕ) (reason : StopReason) (js : List SwarmJob) (h : Hub)
      → Reach first h
      → Reach first (cancel_jobs miner reason js h)
  unfolding cancel_jobs
  cancel_jobs-Reach miner reason [] h r = r
  cancel_jobs-Reach miner reason (j ∷ js) h r =
      cancel_jobs-Reach miner reason js (cancel_job miner reason j h)
        (next r (cancels miner reason j))

  pub cancel_miner-Reach :
      (miner : ℕ) (reason : StopReason) (h : Hub)
      → Reach first h
      → Reach first (cancel_miner miner reason h)
  unfolding cancel_miner
  cancel_miner-Reach miner reason h r =
      cancel_jobs-Reach miner reason (active_jobs_for_miner miner h.db) h r

  assign_all-Reach :
      (writable : ℕ → Bool) (owner : ℕ) (ms : List Miner) (h : Hub)
      → Reach first h
      → Reach first (assign_all writable owner ms h)
  unfolding assign_all
  assign_all-Reach writable owner [] h r = r
  assign_all-Reach writable owner (m ∷ ms) h r =
      elim (Result-cases (get_currency m.currency h.db)) [
        | inr (x, unknown) ↦ rw (unknown, assign_all) (assign_all-Reach writable owner ms h r)
        | inl (cur, known) ↦
            rw (known, assign_all)
              (assign_all-Reach writable owner ms _
                (next r (assigns writable m cur (wallet_of writable owner m.wallet_id h.db))))
      ]

  pub assign_queued-Reach :
      (writable : ℕ → Bool) (owner : ℕ) (h : Hub)
      → Reach first h
      → Reach first (assign_queued writable owner h)
  unfolding assign_queued
  assign_queued-Reach writable owner h r =
      assign_all-Reach writable owner (queued_miners_for_owner owner h.db) h r
