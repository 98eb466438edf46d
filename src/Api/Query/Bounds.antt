-- ===== src/Api/Query/Bounds.antt =====
-- The bounds of paging (api/helpers.go).
use money_miner.Base.{ℕ, zero, ◌≤◌, arith, Text, List, [], ◌∷◌, suc, length, take}
use money_miner.Base.Int.{ℤ, pos, negsuc}
use money_miner.Store.Db.{Db}
use money_miner.Store.Payouts.{list_payouts}
use money_miner.Api.Query.{atoi, page_limit, pagination}

length-take : {A : Type 0} (n : ℕ) (xs : List A) → length (take n xs) ≤ n
length-take zero xs = omega arith
length-take (suc n) [] = omega arith
length-take (suc n) (x ∷ xs) = omega (arith, length-take n xs)

page_limit_bounds : (n : ℤ) → (1 ≤ page_limit n) × (page_limit n ≤ 200)
unfolding page_limit
page_limit_bounds (pos n) = (ground arith, ground arith)
page_limit_bounds (negsuc n) = (ground arith, ground arith)

-- Whatever texts a request gives for limit and offset, a page of payouts has at most 200 rows, and
-- the limit that is used is at least 1.
pagination-list_payouts :
    (owner : ℕ) (symbol limit offset : Text) (db : Db)
    → (1 ≤ (pagination limit offset).0)
      × (length
            (list_payouts owner symbol (pagination limit offset).0 (pagination limit offset).1 db).0
          ≤ 200)
unfolding pagination list_payouts
pagination-list_payouts owner symbol limit offset db =
    let (low, high) = page_limit_bounds (atoi limit) in
    (low, omega (arith, high, length-take (page_limit (atoi limit)) _))
