-- ===== src/Store/Payouts.antt =====
-- Payouts that the poller has observed (store.go).
use money_miner.Base.{
  ℕ, ◌+◌, Bool, true, false, Option, none, some, List, [], ◌∷◌, ◌++◌, ◌==◌, ◌&&◌, ◌||◌, ◌*◌,
  if◌then◌else◌, find, select, order_by, leb, ltb, take, drop, length, is_empty, is_some, text_eq,
  Text,
}
use money_miner.Base.Int.{ℤ, pos, ◌+ℤ◌}
use money_miner.Store.Types.{ok, Currency, Payout, Sample, Wallet}
use money_miner.Store.Db.{Db, Query, currency_by_symbol, currency_by_id}
use money_miner.Store.Metrics.{hour}

-- `NULLIF($n, '')`
abbrev pub null_if_empty : Text → Option Text
null_if_empty [] = none
null_if_empty (c ∷ s) = some (c ∷ s)

-- Two NULLs are distinct under a UNIQUE constraint.
abbrev same_txid : Option Text → Option Text → Bool
same_txid (some s) (some t) = text_eq s t
same_txid none _ = false
same_txid (some _) none = false

abbrev pub is_duplicate : ℕ → Option Text → Payout → Bool
is_duplicate currency txid p = p.currency == currency && same_txid p.txid txid

abbrev id_of : Option Wallet → Option ℕ
id_of none = none
id_of (some w) = some w.id

abbrev pub new_payout : ℕ → ℕ → Text → ℤ → Text → Text → Text → Option ℕ → Db → Payout
new_payout owner currency address amount txid explorer_url source_pool paid_at db = record {
  id = db.fresh;
  owner = owner;
  currency = currency;
  wallet_id = id_of (
      find (λ w. w.owner == owner && w.currency == currency && text_eq w.address address)
        db.wallets);
  amount = amount;
  txid = null_if_empty txid;
  explorer_url = null_if_empty explorer_url;
  source_pool = null_if_empty source_pool;
  verified = false;
  paid_at = paid_at;
  detected_at = db.clock;
}

-- Whether a row was inserted. A currency that is not in the catalog inserts no row, and so does
-- a conflict on (currency_id, txid).
unfoldable pub insert_payout : ℕ → Text → Text → ℤ → Text → Text → Text → Option ℕ → Query Bool
insert_payout owner symbol address amount txid explorer_url source_pool paid_at db =
    elim (currency_by_symbol symbol db) [
      | none ↦ (ok false, db)
      | some c ↦
          if is_some (find (is_duplicate c.id (null_if_empty txid)) db.payouts)
          then (ok false, db)
          else (
            ok true,
            record db {
              fresh = db.fresh + 1;
              payouts =
                  db.payouts
                  ++ new_payout owner c.id address amount txid explorer_url source_pool paid_at db
                    ∷ [];
            },
          )
    ]

abbrev symbol_is : Text → Option Currency → Bool
symbol_is symbol none = false
symbol_is symbol (some c) = is_empty symbol || text_eq c.symbol symbol

-- The rows that `ListPayouts` ranges over: the owner's, of one currency if one is named.
abbrev pub is_listed : Db → ℕ → Text → Payout → Bool
is_listed db owner symbol p = p.owner == owner && symbol_is symbol (currency_by_id p.currency db)

unfoldable pub list_payouts : ℕ → Text → ℕ → ℕ → Db → List Payout × ℕ
list_payouts owner symbol limit offset db =
    let rows = select (is_listed db owner symbol) db.payouts in
    (take limit (drop offset (order_by (λ a b. leb b.detected_at a.detected_at) rows)), length rows)

abbrev sum_amounts : List Payout → ℤ
sum_amounts [] = pos 0
sum_amounts (p ∷ ps) = p.amount +ℤ sum_amounts ps

unfoldable pub payouts_24h : ℕ → Db → ℤ
payouts_24h owner db =
    sum_amounts
      (select (λ p. p.owner == owner && ltb db.clock (p.detected_at + 24 * hour)) db.payouts)

abbrev sum_accepted : List Sample → ℤ
sum_accepted [] = pos 0
sum_accepted (s ∷ ss) = s.accepted +ℤ sum_accepted ss

abbrev owns_miner : Db → ℕ → ℕ → Bool
owns_miner db owner miner = is_some (find (λ m. m.id == miner && m.owner == owner) db.miners)

unfoldable pub shares_24h : ℕ → Db → ℤ
shares_24h owner db =
    sum_accepted
      (select (λ s. owns_miner db owner s.miner && ltb db.clock (s.ts + 24 * hour)) db.samples)
