-- ===== src/Api/Query.antt =====
-- Numbers in a query string: `strconv.Atoi`, and `pagination` (api/helpers.go).
pub mod Bounds
use money_miner.Base.{
  ℕ, suc, ◌+◌, ◌-◌, ◌*◌, ◌^◌, ◌≡◌, ◌≤◌, Bool, true, false, ◌&&◌, ◌||◌, Option, none, some, List, [],
  ◌∷◌, ltb, leb, ◌==◌, if◌then◌else◌, Text, arith,
}
use money_miner.Base.Int.{ℤ, pos, negsuc, pos_part, ◌≤ℤ◌, sub_ℕ}

abbrev is_digit : ℕ → Bool
is_digit c = leb b'0' c && leb c b'9'

-- The value of a run of decimal digits; `none` for any other byte, and for no digits at all.
unfoldable digits_from : ℕ → Text → Option ℕ
digits_from n [] = some n
digits_from n (c ∷ s) =
    let rest = digits_from (n * 10 + (c - b'0')) s in if is_digit c then rest else none

unfoldable pub digits : Text → Option ℕ
unfolding digits_from
digits [] = none
digits (c ∷ s) = digits_from 0 (c ∷ s)

-- The largest int64; a number out of range comes back as the nearest one in range.
abbrev pub max_int : ℕ
max_int = 2 ^ 63 - 1

abbrev pub positive : Option ℕ → ℤ
positive none = pos 0
positive (some n) = pos (if ltb max_int n then max_int else n)

abbrev pub negative : Option ℕ → ℤ
negative none = pos 0
negative (some n) = if ltb (max_int + 1) n then sub_ℕ 0 (max_int + 1) else sub_ℕ 0 n

-- `n, _ = strconv.Atoi(s)`
unfoldable pub atoi : Text → ℤ
unfolding digits
atoi [] = pos 0
atoi (c ∷ s) =
    if c == b'-'
    then negative (digits s)
    else (if c == b'+' then positive (digits s) else positive (digits (c ∷ s)))

-- An absent parameter is the empty text.
unfoldable pub page_limit : ℤ → ℕ
page_limit (pos n) = if n == 0 then 50 else (if ltb 200 n then 200 else n)
page_limit (negsuc n) = 50

-- `pagination`
unfoldable pub pagination : (limit offset : Text) → ℕ × ℕ
unfolding page_limit atoi
pagination limit offset = (page_limit (atoi limit), pos_part (atoi offset))

-- The limit of `handleMinerMetrics`.
unfoldable pub metrics_limit : ℤ → ℕ
metrics_limit (pos n) = if n == 0 || ltb 1000 n then 120 else n
metrics_limit (negsuc n) = 120

-- A percentage of a request, 0 where it is none.
abbrev pub in_range : ℕ → ℕ → ℤ → Bool
in_range lo hi (pos n) = leb lo n && leb n hi
in_range lo hi (negsuc n) = false
