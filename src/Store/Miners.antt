-- ===== src/Store/Miners.antt =====
-- Miners (store.go).
use money_miner.Base.{
  ℕ, suc, ◌+◌, Bool, true, Option, none, some, List, [], ◌∷◌, ◌++◌, ◌==◌, ◌&&◌, if◌then◌else◌, find,
  select, update, delete, count_where, order_by, leb, Text, is_some,
}
use money_miner.Store.Types.{
  Result, ok, err, StoreError, EngineKind, MinerStatus, MinerRow, Miner, is_simulated, is_queued,
  is_id,
}
use money_miner.Store.Db.{Db, Query, one_row, currency_by_symbol, currency_by_id}

-- One row of `miners m JOIN currencies c ON c.id = m.currency_id`, with `Simulated` filled in.
unfoldable pub miner_view : Db → MinerRow → Option Miner
miner_view db m = elim (currency_by_id m.currency db) [
  | none ↦ none
  | some c ↦ some (record {
    id = m.id;
    name = m.name;
    currency = c.symbol;
    engine = m.engine;
    simulated = is_simulated m.engine;
    wallet_id = m.wallet_id;
    pool_url = m.pool_url;
    cpu_pct = m.cpu_pct;
    gpu_pct = m.gpu_pct;
    status = m.status;
    hashrate = 0;
    created_at = m.created_at;
    updated_at = m.updated_at;
  })
]

unfoldable pub list_views : Db → List MinerRow → List Miner
list_views db [] = []
list_views db (m ∷ ms) = elim (miner_view db m) [
  | none ↦ list_views db ms
  | some v ↦ v ∷ list_views db ms
]

unfoldable pub list_miners : ℕ → Db → List Miner
list_miners owner db =
    list_views db
      (order_by (λ a b. leb a.created_at b.created_at) (select (λ m. m.owner == owner) db.miners))

abbrev pub is_owned_miner : ℕ → ℕ → MinerRow → Bool
is_owned_miner owner id m = m.id == id && m.owner == owner

unfoldable pub get_miner : ℕ → ℕ → Db → Result Miner
unfolding miner_view
get_miner owner id db = elim (find (is_owned_miner owner id) db.miners) [
  | none ↦ err StoreError.not_found
  | some m ↦ one_row (miner_view db m)
]

pub record CreateMinerParams : Type 0 where
  pub owner : ℕ
  pub name : Text
  pub currency : Text
  pub wallet_id : Option ℕ
  pub engine : EngineKind
  pub pool_url : Text
  pub cpu_pct : ℕ
  pub gpu_pct : ℕ

-- The CHECK constraints of `miners`, and its reference to `wallets`.
abbrev pub percent_ok : ℕ → ℕ → Bool
percent_ok cpu gpu = leb 1 cpu && leb cpu 100 && leb gpu 100

abbrev pub wallet_exists : Option ℕ → Db → Bool
wallet_exists none db = true
wallet_exists (some id) db = is_some (find (λ w. w.id == id) db.wallets)

abbrev pub new_miner : CreateMinerParams → ℕ → Db → MinerRow
new_miner p currency db = record {
  id = db.fresh;
  owner = p.owner;
  name = p.name;
  currency = currency;
  wallet_id = p.wallet_id;
  engine = p.engine;
  pool_url = p.pool_url;
  cpu_pct = p.cpu_pct;
  gpu_pct = p.gpu_pct;
  status = MinerStatus.created;
  created_at = db.clock;
  updated_at = db.clock;
}

unfoldable pub create_miner : CreateMinerParams → Query Miner
unfolding get_miner
create_miner p db = elim (currency_by_symbol p.currency db) [
  | none ↦ (err StoreError.not_found, db)
  | some c ↦
      if percent_ok p.cpu_pct p.gpu_pct && wallet_exists p.wallet_id db
      then (let m = new_miner p c.id db in
          let db' : Db = record db { fresh = db.fresh + 1; miners = db.miners ++ m ∷ [] } in
          (get_miner p.owner m.id db', db'))
      else (err StoreError.failed, db)
]

-- `COALESCE($n, column)`
abbrev pub coalesce {ℓ} : {A : Type ℓ} → Option A → A → A
coalesce none a = a
coalesce (some b) a = b

abbrev coalesce_id : Option ℕ → Option ℕ → Option ℕ
coalesce_id none w = w
coalesce_id (some id) w = some id

unfoldable pub patch_row : ℕ → Option Text → Option ℕ → Option Text → MinerRow → MinerRow
patch_row now name wallet pool m = record m {
  name = coalesce name m.name;
  wallet_id = coalesce_id wallet m.wallet_id;
  pool_url = coalesce pool m.pool_url;
  updated_at = now;
}

-- nil fields are left unchanged.
unfoldable pub patch_miner : ℕ → ℕ → Option Text → Option ℕ → Option Text → Query Miner
unfolding miner_view
patch_miner owner id name wallet pool db = elim (find (is_owned_miner owner id) db.miners) [
  | none ↦ (err StoreError.not_found, db)
  | some m ↦
      if wallet_exists wallet db
      then (let f = patch_row db.clock name wallet pool in
          (
            one_row (miner_view db (f m)),
            record db { miners = update (is_owned_miner owner id) f db.miners },
          ))
      else (err StoreError.failed, db)
]

unfoldable pub set_miner_status : ℕ → MinerStatus → Db → Db
set_miner_status id status db = record db {
  miners =
      update (λ m. m.id == id) (λ m. record m { status = status; updated_at = db.clock }) db.miners;
}

unfoldable pub set_miner_allocation : ℕ → ℕ → ℕ → ℕ → Query Miner
unfolding miner_view
set_miner_allocation owner id cpu gpu db = elim (find (is_owned_miner owner id) db.miners) [
  | none ↦ (err StoreError.not_found, db)
  | some m ↦
      if percent_ok cpu gpu
      then (let f =
            λ (r : MinerRow). record r { cpu_pct = cpu; gpu_pct = gpu; updated_at = db.clock } in
          (
            one_row (miner_view db (f m)),
            record db { miners = update (is_owned_miner owner id) f db.miners },
          ))
      else (err StoreError.failed, db)
]

-- Runs, jobs, samples and rollups go with the miner (ON DELETE CASCADE); its blocks keep a NULL
-- (ON DELETE SET NULL).
unfoldable pub delete_miner : ℕ → ℕ → Query (Unit {0})
delete_miner owner id db = elim (count_where (is_owned_miner owner id) db.miners) [
  | ℕ.zero ↦ (err StoreError.not_found, db)
  | suc n ↦ (
    ok tt,
    record db {
      miners = delete (is_owned_miner owner id) db.miners;
      runs = delete (λ r. r.miner == id) db.runs;
      jobs = delete (λ j. j.miner == id) db.jobs;
      samples = delete (λ s. s.miner == id) db.samples;
      rollups = delete (λ r. r.miner == id) db.rollups;
      blocks = update (λ b. is_id b.miner id) (λ b. record b { miner = none }) db.blocks;
    },
  )
]

unfoldable pub queued_miners_for_owner : ℕ → Db → List Miner
unfolding list_views miner_view
queued_miners_for_owner owner db =
    list_views db (select (λ m. m.owner == owner && is_queued m.status) db.miners)

-- `minerOwner` of hub.go: the owner of a miner, the empty sub where there is none.
unfoldable pub miner_owner : ℕ → Db → ℕ
miner_owner id db = elim (find (λ m. m.id == id) db.miners) [ none ↦ 0 | some m ↦ m.owner ]
