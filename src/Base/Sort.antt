-- ===== src/Base/Sort.antt =====
-- `ORDER BY` as a stable insertion sort on a key.
use Prim.Native.Nat.{suc}
use mathlib.Core.Path.{◌≡◌, refl}
use mathlib.Core.Bool.{Bool}
use mathlib.Core.List.{List, [], ◌∷◌}
use native.Mathlib.Omega.{arith}
use money_miner.Base.Tests.{if◌then◌else◌}
use money_miner.Base.Lists.{length}

module _ {ℓ} {R : Type ℓ} (before : R → R → Bool) where
  abbrev insert_row : R → List R → List R
  insert_row r [] = r ∷ []
  insert_row r (q ∷ qs) = if before r q then r ∷ q ∷ qs else q ∷ insert_row r qs

  abbrev pub order_by : List R → List R
  order_by [] = []
  order_by (r ∷ rs) = insert_row r (order_by rs)

  length-insert_row : (r : R) (qs : List R) → length (insert_row r qs) ≡ suc (length qs)
  length-insert_row r [] = refl
  length-insert_row r (q ∷ qs) = ground (arith, length-insert_row r qs)

  length-order_by : (rs : List R) → length (order_by rs) ≡ length rs
  length-order_by [] = refl
  length-order_by (r ∷ rs) = omega (arith, length-insert_row r (order_by rs), length-order_by rs)
