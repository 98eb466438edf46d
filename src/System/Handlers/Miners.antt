-- ===== src/System/Handlers/Miners.antt =====
-- The handlers of miners as steps (api/handlers.go).
use money_miner.Base.{ℕ, ◌≡◌, refl, Bool, ◌&&◌, ◌||◌, Option, none, some, ◌⊎◌, Bool-cases, inl, inr}
use money_miner.Base.Int.{ℤ, pos_part}
use money_miner.Store.Types.{Result-cases, MinerStatus, StopReason, is_running, is_queued}
use money_miner.Store.Catalog.{get_currency}
use money_miner.Store.Miners.{get_miner, set_miner_allocation}
use money_miner.Store.Runs.{open_run}
use money_miner.Swarm.Hub.State.{Hub}
use money_miner.Api.Response.{Checked, refuse, accept, ErrorCode}
use money_miner.Api.Query.{in_range}
use money_miner.Api.Pool.{Net}
use money_miner.Api.Miners.{
  PatchMinerReq, pool_accepted, wallet_known, needs_wallet, place, handle_patch_miner,
  handle_delete_miner, handle_start_miner, handle_stop_miner, handle_miner_allocation,
}
use money_miner.Api.Miners.Create.{CreateMinerReq, check_create, handle_create_miner}
use money_miner.System.{
  Reach, next, run_op, queries, publishes, assigns, reallocates, begin_run, miner_status,
  drop_miner, new_miner, patch, allocate,
}
use money_miner.System.Handlers.Control.{cancel_miner-Reach}

Checked-cases :
    {A : Type 0} (c : Checked A)
    → ((code : ErrorCode) × (c ≡ refuse code)) ⊎ ((a : A) × (c ≡ accept a))
Checked-cases (refuse code) = inl (code, refl)
Checked-cases (accept a) = inr (a, refl)

module _ (first : Hub) where
  pub delete_miner-Reach :
      (owner id : ℕ) (h : Hub) → Reach first h → Reach first (handle_delete_miner owner id h).1
  unfolding handle_delete_miner run_op
  delete_miner-Reach owner id h r =
      next (cancel_miner-Reach first id StopReason.user h r) (queries (drop_miner owner id))

  pub stop_miner-Reach :
      (owner id : ℕ) (h : Hub) → Reach first h → Reach first (handle_stop_miner owner id h).1
  unfolding handle_stop_miner run_op
  stop_miner-Reach owner id h r = elim (Result-cases (get_miner owner id h.db)) [
    | inr (x, missing) ↦ rw (missing, handle_stop_miner) r
    | inl (m, found) ↦
        rw (found, handle_stop_miner)
          (next
            (next (cancel_miner-Reach first id StopReason.user h r)
              (queries (miner_status id MinerStatus.stopped)))
            (publishes owner _))
  ]

  pub start_miner-Reach :
      (writable : ℕ → Bool) (owner id : ℕ) (h : Hub)
      → Reach first h
      → Reach first (handle_start_miner writable owner id h).1
  unfolding handle_start_miner place run_op
  start_miner-Reach writable owner id h r = elim (Result-cases (get_miner owner id h.db)) [
    | inr (x, missing) ↦ rw (missing, handle_start_miner) r
    | inl (m, found) ↦ elim (Bool-cases (is_running m.status || is_queued m.status)) [
      | inl busy ↦ rw (found, busy, handle_start_miner) r
      | inr free ↦ elim (Bool-cases (needs_wallet m)) [
        | inl bare ↦ rw (found, free, bare, handle_start_miner) r
        | inr ready ↦ elim (Result-cases (get_currency m.currency h.db)) [
          | inr (x, unknown) ↦ rw (found, free, ready, unknown, handle_start_miner) r
          | inl (cur, known) ↦
              let opened : Reach first (record h { db = (open_run m.id h.db).1 }) =
                next r (queries (begin_run m.id)) in
              elim (Result-cases (open_run m.id h.db).0) [
                | inr (x, refused) ↦
                    rw (found, free, ready, known, refused, handle_start_miner) opened
                | inl (run, made) ↦
                    rw (found, free, ready, known, made, handle_start_miner)
                      (next
                        (next (next opened (queries (miner_status id MinerStatus.queued)))
                          (assigns writable m cur _))
                        (publishes owner _))
              ]
        ]
      ]
    ]
  ]

  pub create_miner-Reach :
      (net : Net) (allow_simulated : Bool) (owner : ℕ) (req : Option CreateMinerReq) (h : Hub)
      → Reach first h
      → Reach first (handle_create_miner net allow_simulated owner req h).1
  unfolding handle_create_miner run_op
  create_miner-Reach net allow_simulated owner none h r = r
  create_miner-Reach net allow_simulated owner (some req) h r =
      elim (Checked-cases (check_create net allow_simulated owner req h.db)) [
        | inl (code, refused) ↦ rw (refused, handle_create_miner) r
        | inr (p, accepted) ↦ rw (accepted, handle_create_miner) (next r (queries (new_miner p)))
      ]

  pub patch_miner-Reach :
      (net : Net) (owner id : ℕ) (req : Option PatchMinerReq) (h : Hub)
      → Reach first h
      → Reach first (handle_patch_miner net owner id req h).1
  unfolding handle_patch_miner run_op
  patch_miner-Reach net owner id none h r = r
  patch_miner-Reach net owner id (some req) h r =
      elim (Bool-cases (pool_accepted net req.pool_url)) [
        | inr bad ↦ rw (bad, handle_patch_miner) r
        | inl fine ↦ elim (Bool-cases (wallet_known owner req.wallet_id h.db)) [
          | inr unknown ↦ rw (fine, unknown, handle_patch_miner) r
          | inl known ↦
              rw (fine, known, handle_patch_miner)
                (next r (queries (patch owner id req.name req.wallet_id req.pool_url)))
        ]
      ]

  pub allocation-Reach :
      (owner id : ℕ) (req : Option (ℤ × ℤ)) (h : Hub)
      → Reach first h
      → Reach first (handle_miner_allocation owner id req h).1
  unfolding handle_miner_allocation run_op
  allocation-Reach owner id none h r = r
  allocation-Reach owner id (some (cpu, gpu)) h r =
      elim (Bool-cases (in_range 1 100 cpu && in_range 0 100 gpu)) [
        | inr bad ↦ rw (bad, handle_miner_allocation) r
        | inl fine ↦
            let stored = next r (queries (allocate owner id (pos_part cpu) (pos_part gpu))) in
            elim (Result-cases
              (set_miner_allocation owner id (pos_part cpu) (pos_part gpu) h.db).0) [
                | inr (x, missing) ↦ rw (fine, missing, handle_miner_allocation) stored
                | inl (m, found) ↦
                    rw (fine, found, handle_miner_allocation)
                      (next stored (reallocates m.id (pos_part cpu) (pos_part gpu)))
              ]
      ]
