-- ===== src/Api/Miners/Start.antt =====
-- Starting a miner (`handleStartMiner` of api/handlers.go): when it is accepted, and what it leaves.
use money_miner.Base.{
  ℕ, ◌≡◌, Bool, true, false, ◌||◌, none, [], ◌∷◌, ◌++◌, Text, arith, Option-cases, inl, inr,
  ==_refl,
}
use money_miner.Base.Map.{lookup}
use money_miner.Store.Types.{
  ok, Result-cases, Currency, Miner, MinerRun, MinerStatus, is_running, is_queued,
}
use money_miner.Store.Catalog.{get_currency}
use money_miner.Store.Miners.{get_miner, miner_owner, set_miner_status}
use money_miner.Store.Runs.{open_run, is_open_run, new_run}
use money_miner.Store.Workers.{create_swarm_job, set_swarm_job_status, set_worker_status}
use money_miner.Swarm.Hub.State.{Hub, LiveWorker}
use money_miner.Swarm.Hub.Assignment.{assign, choose, dispatch, wallet_of}
use money_miner.Api.Response.{success, store_err}
use money_miner.Api.Miners.{handle_start_miner, place, needs_wallet}

-- What an assignment does not touch.
abbrev SameMiners : Hub → Hub → Type 0
SameMiners h h' = (h'.db.miners ≡ h.db.miners) × (h'.db.runs ≡ h.db.runs)

module _ (writable : ℕ → Bool) where
  dispatch-SameMiners :
      (m : Miner) (cur : Currency) (wallet : Text) (target : LiveWorker) (conn : ℕ) (h : Hub)
      → SameMiners h (dispatch writable m cur wallet target conn h).1
  unfolding dispatch create_swarm_job set_swarm_job_status set_worker_status
  dispatch-SameMiners m cur wallet target conn h = (ground arith, ground arith)

  assign-SameMiners :
      (m : Miner) (cur : Currency) (wallet : Text) (h : Hub)
      → SameMiners h (assign writable m cur wallet h).1
  unfolding assign
  assign-SameMiners m cur wallet h =
      elim (Option-cases (choose (miner_owner m.id h.db) h h.live none)) [
        | inl unchosen ↦ (ground arith, ground arith)
        | inr (target, chosen) ↦ elim (Option-cases (lookup target.worker h.conns)) [
          | inl closed ↦ (ground arith, ground arith)
          | inr (conn, open_conn) ↦
              let (miners, runs) = dispatch-SameMiners m cur wallet target conn h in
              (ground arith, ground arith)
        ]
      ]

  place-SameMiners :
      (owner id : ℕ) (m : Miner) (cur : Currency) (h : Hub)
      → SameMiners h (place writable owner id m cur h)
  unfolding place
  place-SameMiners owner id m cur h =
      assign-SameMiners m cur (wallet_of writable owner m.wallet_id h.db) h

  -- A start is accepted only for a miner of the caller that is neither running nor queued, and that
  -- has a wallet or is simulated; it then opens one run, still open, and queues the miner, and
  -- touches no other miner and no other run, placed on a worker or not.
  pub handle_start_miner_accepted :
      (owner id status : ℕ) (view : Miner) (h h' : Hub)
      → handle_start_miner writable owner id h ≡ (success status view, h')
      → (m : Miner) × (run : MinerRun) × (get_miner owner id h.db ≡ ok m)
        × (is_running m.status || is_queued m.status ≡ false)
        × (needs_wallet m ≡ false)
        × (view ≡ record m { status = MinerStatus.queued })
        × (h'.db.runs ≡ h.db.runs ++ run ∷ [])
        × (is_open_run m.id run ≡ true)
        × (h'.db.miners ≡ (set_miner_status id MinerStatus.queued h.db).miners)
  unfolding handle_start_miner store_err open_run set_miner_status
  handle_start_miner_accepted owner id status view h h' e =
      elim (Result-cases (get_miner owner id h.db)) [
        | inr (x, f) ↦ absurd (ground arith)
        | inl (m, f) ↦ elim (Result-cases (get_currency m.currency h.db)) [
          | inr (x, g) ↦ absurd (ground arith)
          | inl (cur, g) ↦
              let db = (open_run m.id h.db).1 in
              let (miners, runs) =
                place-SameMiners owner id m cur
                  (record h { db = set_miner_status id MinerStatus.queued db }) in
              (
                m,
                new_run m.id h.db,
                f,
                ground arith,
                ground arith,
                ground arith,
                ground (arith, ==_refl m.id),
                ground (arith, ==_refl m.id),
                ground arith,
              )
        ]
      ]
