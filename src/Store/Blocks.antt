-- ===== src/Store/Blocks.antt =====
-- Blocks that miners found (store.go). No part of the program inserts a row.
use money_miner.Base.{
  ℕ, ◌≡◌, Bool, true, false, ◌&&◌, Option, none, some, List, [], ◌∷◌, ◌==◌, find, select, order_by,
  leb, take, is_some, arith, refl, ℕ-cases, count_where, ==_refl, inl, inr,
}
use money_miner.Store.Types.{MinerRow, BlockFound, ok}
use money_miner.Store.Miners.{delete_miner, is_owned_miner}
use money_miner.Store.Db.{Db, currency_by_id}

-- `DESC NULLS LAST`
abbrev found_later : Option ℕ → Option ℕ → Bool
found_later (some a) (some b) = leb b a
found_later (some a) none = true
found_later none (some b) = false
found_later none none = true

abbrev owner_is : (owner : ℕ) → Option MinerRow → Bool
owner_is owner none = false
owner_is owner (some m) = m.owner == owner

-- A block of a miner of the owner, or of no miner.
abbrev pub is_listed : (owner : ℕ) → Db → BlockFound → Bool
is_listed owner db b = elim b.miner [
  | none ↦ true
  | some id ↦ owner_is owner (find (λ m. m.id == id) db.miners)
]

abbrev has_currency : Db → BlockFound → Bool
has_currency db b = is_some (currency_by_id b.currency db)

-- `ListBlocksFound`
unfoldable pub list_blocks_found : ℕ → Db → List BlockFound
list_blocks_found owner db = take 200 (
    order_by (λ a b. found_later a.found_at b.found_at)
      (select (λ b. is_listed owner db b && has_currency db b) db.blocks))

-- A block of a deleted miner is listed to everybody. In a database with one block, of a miner that is
-- not `other`'s: before, `other` is not listed the block; after the miner's owner has deleted the
-- miner, the block has no miner, and every user is listed it.
pub deleted_miner_block_shared :
    (owner other id : ℕ) (b : BlockFound) (db : Db)
    → db.blocks ≡ b ∷ []
    → b.miner ≡ some id
    → has_currency db b ≡ true
    → owner_is other (find (λ m. m.id == id) db.miners) ≡ false
    → (delete_miner owner id db).0 ≡ ok tt
    → (list_blocks_found other db ≡ [])
      × ((viewer : ℕ)
          → list_blocks_found viewer (delete_miner owner id db).1 ≡ record b { miner = none } ∷ [])
unfolding list_blocks_found delete_miner
deleted_miner_block_shared owner other id b db only of_miner known foreign gone =
    elim (ℕ-cases (count_where (is_owned_miner owner id) db.miners)) [
      | inl nothing ↦ absurd (ground arith)
      | inr (n, rows) ↦ (
        rw (only, of_miner, foreign, list_blocks_found) refl,
        λ viewer.
            rw (rows, only, of_miner, ==_refl id, known, list_blocks_found, delete_miner) refl,
      )
    ]
