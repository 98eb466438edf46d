-- ===== src/Store/Catalog.antt =====
-- Currencies and wallets (store.go).
use money_miner.Base.{
  ℕ, suc, ◌+◌, Bool, none, some, List, [], ◌∷◌, ◌++◌, ◌==◌, ◌&&◌, ◌||◌, if◌then◌else◌, find, select,
  delete, count_where, order_by, text_leb, Text, is_some,
}
use money_miner.Store.Types.{Result, ok, err, StoreError, Currency, Wallet, is_id}
use money_miner.Store.Db.{Db, Query, one_row, currency_by_symbol, currency_by_id}

unfoldable pub list_currencies : Db → List Currency
list_currencies db = order_by (λ a b. text_leb a.symbol b.symbol) db.currencies

unfoldable pub get_currency : Text → Db → Result Currency
get_currency symbol db = one_row (currency_by_symbol symbol db)

-- The symbol that the join with `currencies` orders by.
abbrev symbol_of : Db → ℕ → Text
symbol_of db c = elim (currency_by_id c db) [ none ↦ [] | some cur ↦ cur.symbol ]

unfoldable pub list_wallets : ℕ → Db → List Wallet
list_wallets owner db =
    order_by (λ a b. text_leb (symbol_of db a.currency) (symbol_of db b.currency))
      (select (λ w. w.owner == owner && is_some (currency_by_id w.currency db)) db.wallets)

abbrev pub holds_wallet : ℕ → ℕ → Wallet → Bool
holds_wallet owner currency w = w.owner == owner && w.currency == currency

-- `UNIQUE(owner_sub, currency_id)` makes the second wallet of a currency a conflict.
unfoldable pub create_wallet : ℕ → Text → Text → Text → Bool → Query Wallet
create_wallet owner symbol address label validated db = elim (currency_by_symbol symbol db) [
  | none ↦ (err StoreError.not_found, db)
  | some c ↦ elim (find (holds_wallet owner c.id) db.wallets) [
    | some _ ↦ (err StoreError.conflict, db)
    | none ↦
        let w : Wallet = record {
          id = db.fresh;
          owner = owner;
          currency = c.id;
          address = address;
          label = label;
          validated = validated;
          created_at = db.clock;
        } in
        (ok w, record db { fresh = db.fresh + 1; wallets = db.wallets ++ w ∷ [] })
  ]
]

abbrev is_owned_wallet : ℕ → ℕ → Wallet → Bool
is_owned_wallet owner id w = w.id == id && w.owner == owner

-- A wallet that a miner or a payout refers to cannot be deleted: the statement fails.
abbrev wallet_in_use : ℕ → Db → Bool
wallet_in_use id db =
    is_some (find (λ m. is_id m.wallet_id id) db.miners)
    || is_some (find (λ p. is_id p.wallet_id id) db.payouts)

unfoldable pub delete_wallet : ℕ → ℕ → Query (Unit {0})
delete_wallet owner id db = elim (count_where (is_owned_wallet owner id) db.wallets) [
  | ℕ.zero ↦ (err StoreError.not_found, db)
  | suc n ↦
      if wallet_in_use id db
      then (err StoreError.failed, db)
      else (ok tt, record db { wallets = delete (is_owned_wallet owner id) db.wallets })
]

unfoldable pub wallet_address : ℕ → ℕ → Db → Result Text
wallet_address owner id db = elim (find (is_owned_wallet owner id) db.wallets) [
  | none ↦ err StoreError.not_found
  | some w ↦ ok w.address
]
