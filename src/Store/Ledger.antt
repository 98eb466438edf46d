-- ===== src/Store/Ledger.antt =====
-- Recording payouts twice (store.go, payouts/poller.go).
use money_miner.Base.{
  ℕ, ◌+◌, ◌≡◌, refl, false, Option, none, some, List, [], ◌∷◌, ◌++◌, arith, find, Option-cases, inl,
  inr, ◌∙◌, ap, Text, text_eq_refl, length, find-append_miss, length-append,
}
use money_miner.Base.Int.{ℤ}
use money_miner.Store.Types.{ok, Payout, Currency}
use money_miner.Store.Db.{Db, currency_by_symbol}
use money_miner.Store.Payouts.{insert_payout, new_payout, is_duplicate}

no_duplicate_of_none :
    (currency : ℕ) (rows : List Payout) → find (is_duplicate currency none) rows ≡ none
no_duplicate_of_none currency [] = refl
no_duplicate_of_none currency (p ∷ ps) = ground (arith, no_duplicate_of_none currency ps)

module _ (owner : ℕ) (symbol address : Text) (amount : ℤ) (explorer pool : Text)
    (paid : Option ℕ) where
  insert_unnamed :
      (c : Currency) (db : Db)
      → currency_by_symbol symbol db ≡ some c
      → (insert_payout owner symbol address amount [] explorer pool paid db).1 ≡ record db {
        fresh = db.fresh + 1;
        payouts = db.payouts ++ new_payout owner c.id address amount [] explorer pool paid db ∷ [];
      }
  unfolding insert_payout
  insert_unnamed c db known = ground (arith, no_duplicate_of_none c.id db.payouts)

  -- A payment without a transaction id is never taken for a duplicate: every report of it adds a
  -- row, so that polling a pool twice records it twice.
  insert_payout_repeats :
      (c : Currency) (db : Db)
      → currency_by_symbol symbol db ≡ some c
      → let db' = (insert_payout owner symbol address amount [] explorer pool paid db).1 in
        let db'' = (insert_payout owner symbol address amount [] explorer pool paid db').1 in
        length db''.payouts ≡ length db.payouts + 2
  insert_payout_repeats c db known =
      let db' = (insert_payout owner symbol address amount [] explorer pool paid db).1 in
      let once = insert_unnamed c db known in
      let known' : currency_by_symbol symbol db' ≡ some c = rw once known in
      let p = new_payout owner c.id address amount [] explorer pool paid in
      omega (
        arith,
        ap (λ (d : Db). length d.payouts) once,
        ap (λ (d : Db). length d.payouts) (insert_unnamed c db' known'),
        length-append db.payouts (p db ∷ []),
        length-append db'.payouts (p db' ∷ []),
      )

  named_is_found :
      (currency : ℕ) (c : ℕ) (txid : Text) (db : Db)
      → let t = c ∷ txid in
        let p = new_payout owner currency address amount t explorer pool paid db in
        find (is_duplicate currency (some t)) db.payouts ≡ none
        → find (is_duplicate currency (some t)) (db.payouts ++ p ∷ []) ≡ some p
  named_is_found currency c txid db missing =
      let t = c ∷ txid in
      let p = new_payout owner currency address amount t explorer pool paid db in
      find-append_miss (is_duplicate currency (some t)) db.payouts (p ∷ []) missing
      ∙ ground (arith, text_eq_refl t)

  -- Recording a payment with a transaction id a second time inserts nothing and changes nothing,
  -- whatever else the second report says.
  insert_payout_idempotent :
      (amount' : ℤ) (c : ℕ) (txid explorer' pool' : Text) (paid' : Option ℕ) (db : Db)
      → let t = c ∷ txid in
        let db' = (insert_payout owner symbol address amount t explorer pool paid db).1 in
        insert_payout owner symbol address amount' t explorer' pool' paid' db' ≡ (ok false, db')
  unfolding insert_payout
  insert_payout_idempotent amount' c txid explorer' pool' paid' db =
      elim (Option-cases (currency_by_symbol symbol db)) [
        | inl unknown ↦ ground arith
        | inr (cur, known) ↦
            elim (Option-cases (find (is_duplicate cur.id (some (c ∷ txid))) db.payouts)) [
              | inl missing ↦ ground (arith, named_is_found cur.id c txid db missing)
              | inr (p, there) ↦ ground arith
            ]
      ]
