-- ===== src/Store/Isolation.antt =====
-- Tenant isolation of store.go: what a query that is scoped by an owner does to the rows of others.
use money_miner.Base.{
  ℕ, ◌≡◌, ◌≢◌, false, Bool, none, some, not, Option, List, [], ◌∷◌, arith, ◌==◌, select, All,
  find_of_none, count_of_none, Text,
}
use money_miner.Store.Types.{err, StoreError, MinerRow, BlockFound}
use money_miner.Store.Db.{Db}
use money_miner.Store.Miners.{
  is_owned_miner, get_miner, patch_miner, set_miner_allocation, delete_miner,
}

abbrev pub names_other : ℕ → BlockFound → Bool
names_other id b = elim b.miner [ none ↦ false | some m ↦ not (m == id) ]

-- The miners of everybody but `owner`.
abbrev pub miners_of_others : ℕ → Db → List MinerRow
miners_of_others owner db = select (λ m. not (m.owner == owner)) db.miners

-- From `db` to `db'`, the rows that hang on a miner are lost or changed only for the miner `id`; a
-- block counts only while it names a miner. The tables that no miner has stay as they are.
abbrev pub KeepsRest : (id : ℕ) → Db → Db → Type 0
KeepsRest id db db' =
    (select (λ r. not (r.miner == id)) db'.runs ≡ select (λ r. not (r.miner == id)) db.runs)
    × (select (λ j. not (j.miner == id)) db'.jobs ≡ select (λ j. not (j.miner == id)) db.jobs)
    × (select (λ s. not (s.miner == id)) db'.samples ≡ select (λ s. not (s.miner == id)) db.samples)
    × (select (λ r. not (r.miner == id)) db'.rollups ≡ select (λ r. not (r.miner == id)) db.rollups)
    × (select (names_other id) db'.blocks ≡ select (names_other id) db.blocks)
    × (record db' {
      miners = db.miners;
      runs = db.runs;
      jobs = db.jobs;
      samples = db.samples;
      rollups = db.rollups;
      blocks = db.blocks;
    }
        ≡ db)

-- Every row with the id belongs to somebody else.
abbrev pub IsForeign : ℕ → ℕ → Db → Type 0
IsForeign owner id db = All (λ (m : MinerRow). m.id ≡ id → m.owner ≢ owner) db.miners

foreign_rows :
    (owner id : ℕ) (rows : List MinerRow)
    → All (λ (m : MinerRow). m.id ≡ id → m.owner ≢ owner) rows
    → All (λ m. is_owned_miner owner id m ≡ false) rows
foreign_rows owner id [] a = tt
foreign_rows owner id (m ∷ ms) (h, a) = (grind (arith, h), foreign_rows owner id ms a)

-- A miner of somebody else looks like one that does not exist: reading, patching, allocating and
-- deleting it all answer ErrNotFound and change nothing.
pub foreign_not_found :
    (owner id : ℕ) (name : Option Text) (wallet : Option ℕ) (pool : Option Text) (cpu gpu : ℕ)
    (db : Db)
    → IsForeign owner id db
    → (get_miner owner id db ≡ err StoreError.not_found)
      × (patch_miner owner id name wallet pool db ≡ (err StoreError.not_found, db))
      × (set_miner_allocation owner id cpu gpu db ≡ (err StoreError.not_found, db))
      × (delete_miner owner id db ≡ (err StoreError.not_found, db))
unfolding get_miner patch_miner set_miner_allocation delete_miner
foreign_not_found owner id name wallet pool cpu gpu db h =
    let none_owned = foreign_rows owner id db.miners h in
    let unfound = find_of_none (is_owned_miner owner id) db.miners none_owned in
    let uncounted = count_of_none (is_owned_miner owner id) db.miners none_owned in
    (
      rw (unfound, get_miner),
      rw (unfound, patch_miner),
      rw (unfound, set_miner_allocation),
      rw (uncounted, delete_miner),
    )
