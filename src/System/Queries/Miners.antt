-- ===== src/System/Queries/Miners.antt =====
-- The operations on miners and the invariant (store.go).
use money_miner.Base.{
  ℕ, ◌+◌, ◌<◌, refl, ◌&&◌, Option, List, [], ◌∷◌, ◌++◌, ◌==◌, arith, All-delete, find, delete,
  count_where, Bool-cases, Option-cases, ℕ-cases, inl, inr, Text,
}
use money_miner.Store.Types.{MinerRow, Worker, SwarmJob, MinerStatus}
use money_miner.Store.Db.{Db, currency_by_symbol}
use money_miner.Store.Miners.{
  CreateMinerParams, create_miner, patch_miner, patch_row, set_miner_status, set_miner_allocation,
  delete_miner, is_owned_miner, percent_ok, wallet_exists, new_miner,
}
use money_miner.System.Sound.{IsSound, ArePaired, paired_owner, pair_of}
use money_miner.System.Keys.{append-IsTable, delete-IsTable, append-Stays, stays_beside}
use money_miner.System.Queries.Rows.{miners-IsSound, update_miners-IsSound}

pub create_miner-IsSound :
    (p : CreateMinerParams) (db : Db) → IsSound db → IsSound (create_miner p db).1
unfolding create_miner
create_miner-IsSound p db a = elim (Option-cases (currency_by_symbol p.currency db)) [
  | inl missing ↦ rw (missing, create_miner) a
  | inr (c, found) ↦
      elim (Bool-cases (percent_ok p.cpu_pct p.gpu_pct && wallet_exists p.wallet_id db)) [
        | inr bad ↦ rw (found, bad, create_miner) a
        | inl fine ↦
            rw (found, fine, create_miner)
              (miners-IsSound (db.miners ++ new_miner p c.id db ∷ []) (db.fresh + 1) db
                (omega arith) (append-Stays _ _ db.miners (new_miner p c.id db ∷ []))
                (append-IsTable _ _ (new_miner p c.id db) db.fresh db.miners refl a.miners) a)
      ]
]

pub patch_miner-IsSound :
    (owner id : ℕ) (name : Option Text) (wallet : Option ℕ) (pool : Option Text) (db : Db)
    → IsSound db
    → IsSound (patch_miner owner id name wallet pool db).1
unfolding patch_miner patch_row
patch_miner-IsSound owner id name wallet pool db a =
    elim (Option-cases (find (is_owned_miner owner id) db.miners)) [
      | inl missing ↦ rw (missing, patch_miner) a
      | inr (m, found) ↦ elim (Bool-cases (wallet_exists wallet db)) [
        | inr bad ↦ rw (found, bad, patch_miner) a
        | inl fine ↦
            rw (found, fine, patch_miner)
              (update_miners-IsSound (is_owned_miner owner id) (patch_row db.clock name wallet pool)
                db (λ m. (refl, refl)) a)
      ]
    ]

pub set_miner_status-IsSound :
    (id : ℕ) (status : MinerStatus) (db : Db) → IsSound db → IsSound (set_miner_status id status db)
unfolding set_miner_status
set_miner_status-IsSound id status db a =
    update_miners-IsSound (λ m. m.id == id)
      (λ m. record m { status = status; updated_at = db.clock }) db (λ m. (refl, refl)) a

pub set_miner_allocation-IsSound :
    (owner id cpu gpu : ℕ) (db : Db)
    → IsSound db
    → IsSound (set_miner_allocation owner id cpu gpu db).1
unfolding set_miner_allocation
set_miner_allocation-IsSound owner id cpu gpu db a =
    elim (Option-cases (find (is_owned_miner owner id) db.miners)) [
      | inl missing ↦ rw (missing, set_miner_allocation) a
      | inr (m, found) ↦ elim (Bool-cases (percent_ok cpu gpu)) [
        | inr bad ↦ rw (found, bad, set_miner_allocation) a
        | inl fine ↦
            rw (found, fine, set_miner_allocation)
              (update_miners-IsSound (is_owned_miner owner id)
                (λ r. record r { cpu_pct = cpu; gpu_pct = gpu; updated_at = db.clock }) db
                (λ m. (refl, refl)) a)
      ]
    ]

-- The jobs of a deleted miner or worker go with it.
kept_after_miner :
    (owner gone : ℕ) (miners : List MinerRow) (workers : List Worker) (jobs : List SwarmJob)
    → ArePaired miners workers jobs
    → ArePaired
        (delete (is_owned_miner owner gone) miners)
        workers
        (delete (λ j. j.miner == gone) jobs)
kept_after_miner owner gone miners workers [] a = tt
kept_after_miner owner gone miners workers (j ∷ jobs) (h, a) = elim (Bool-cases (j.miner == gone)) [
  | inl hit ↦ rw hit (kept_after_miner owner gone miners workers jobs a)
  | inr miss ↦
      let (o, m, w) = paired_owner miners workers j h in
      rw miss (
        pair_of (delete (is_owned_miner owner gone) miners) workers j o
            (stays_beside _ _ owner gone j.miner o miners miss m) w,
        kept_after_miner owner gone miners workers jobs a,
      )
]

pub delete_miner-IsSound :
    (owner id : ℕ) (db : Db) → IsSound db → IsSound (delete_miner owner id db).1
unfolding delete_miner
delete_miner-IsSound owner id db a =
    elim (ℕ-cases (count_where (is_owned_miner owner id) db.miners)) [
      | inl nothing ↦ rw (nothing, delete_miner) a
      | inr (n, some_rows) ↦
          rw (some_rows, delete_miner)
            (record {
              older =
                  All-delete (λ (j : SwarmJob). j.id < db.fresh) (λ j. j.miner == id) db.jobs
                    a.older;
              miners = delete-IsTable _ _ owner id db.fresh db.miners a.miners;
              workers = a.workers;
              paired = kept_after_miner owner id db.miners db.workers db.jobs a.paired;
            })
    ]
