-- ===== src/Wallet.antt =====
-- Validation of payout addresses (money-miner-backend/internal/wallet/validate.go). Every
-- alternative of the regular expressions there is a run of single characters or classes, and then
-- one class that repeats, anchored at both ends.
pub mod Alphabet
pub mod Chia
use money_miner.Base.{
  ℕ, Bool, true, false, ◌&&◌, ◌||◌, Option, none, some, List, [], ◌∷◌, ◌++◌, ◌==◌, leb, ltb, map,
  if◌then◌else◌, length, Text, text_eq, codes, to_upper, trim_space,
}

-- A character class as ranges of bytes.
abbrev pub Class : Type 0
Class = List (ℕ × ℕ)

abbrev pub in_class : Class → ℕ → Bool
in_class [] c = false
in_class ((lo, hi) ∷ rs) c = leb lo c && leb c hi || in_class rs c

abbrev base58 : Class
base58 =
    (b'1', b'9') ∷ (b'A', b'H') ∷ (b'J', b'N') ∷ (b'P', b'Z') ∷ (b'a', b'k') ∷ (b'm', b'z') ∷ []

abbrev pub bech32 : Class
bech32 =
    (b'0', b'0') ∷ (b'2', b'9') ∷ (b'a', b'a') ∷ (b'c', b'h') ∷ (b'j', b'n') ∷ (b'p', b'z') ∷ []

abbrev hex_digit : Class
hex_digit = (b'0', b'9') ∷ (b'a', b'f') ∷ (b'A', b'F') ∷ []

abbrev pub literal : ℕ → Class
literal c = (c, c) ∷ []

abbrev one_of : Text → Class
one_of s = map (λ c. (c, c)) s

-- `body` repeats from `lo` to `hi` times; without `hi`, without a limit.
pub record Shape : Type 0 where
  pub lead : List Class
  pub body : Class
  pub lo : ℕ
  pub hi : Option ℕ

abbrev pub within : ℕ → Option ℕ → ℕ → Bool
within lo none n = leb lo n
within lo (some hi) n = leb lo n && leb n hi

unfoldable pub all_in : Class → Text → Bool
all_in cls [] = true
all_in cls (c ∷ s) = in_class cls c && all_in cls s

unfoldable pub match_from : List Class → Class → ℕ → Option ℕ → Text → Bool
unfolding all_in
match_from [] body lo hi s = all_in body s && within lo hi (length s)
match_from (cls ∷ lead) body lo hi [] = false
match_from (cls ∷ lead) body lo hi (c ∷ s) = in_class cls c && match_from lead body lo hi s

-- `re.MatchString`
unfoldable pub match_string : List Shape → Text → Bool
unfolding match_from
match_string [] s = false
match_string (p ∷ ps) s = match_from p.lead p.body p.lo p.hi s || match_string ps s

pub record Rule : Type 0 where
  pub family : Text
  pub re : List Shape
  pub min_l : ℕ
  pub max_l : ℕ

abbrev shape : List Class → Class → ℕ → ℕ → Shape
shape lead body lo hi = record { lead = lead; body = body; lo = lo; hi = some hi }

abbrev prefix : Text → List Class
prefix s = map literal s

abbrev rule : Text → List Shape → ℕ → ℕ → Rule
rule family re min_l max_l = record { family = family; re = re; min_l = min_l; max_l = max_l }

abbrev btc_like : Text → Text → Rule
btc_like first hrp =
    rule (codes "btc-like")
      (shape (one_of first ∷ []) base58 25 39 ∷ shape (prefix hrp) bech32 8 87 ∷ []) 26 90

abbrev evm : Rule
evm = rule (codes "evm") (shape (prefix (codes "0x")) hex_digit 40 40 ∷ []) 42 42

abbrev t1_address : Shape
t1_address = shape (prefix (codes "t1")) base58 33 33

abbrev sapling : Shape
sapling = shape (prefix (codes "zs1")) bech32 75 75

abbrev pub chia : Rule
chia = rule (codes "chia") (shape (prefix (codes "xch1")) bech32 59 59 ∷ []) 62 62

unfoldable pub rules : List (Text × Rule)
rules =
    (
      codes "XMR",
      rule (codes "cryptonote") (shape (one_of (codes "48") ∷ []) base58 94 105 ∷ []) 95 106,
    )
    ∷ (
      codes "ZEPH",
      rule (codes "cryptonote") (shape (prefix (codes "ZEPHYR")) base58 90 110 ∷ []) 95 120,
    )
    ∷ (codes "VTC", btc_like (codes "3V") (codes "vtc1"))
    ∷ (
      codes "DASH",
      rule (codes "btc-like") (shape (one_of (codes "Xx7") ∷ []) base58 25 39 ∷ []) 26 42,
    )
    ∷ (codes "DGB", btc_like (codes "DS") (codes "dgb1"))
    ∷ (codes "BTG", btc_like (codes "AG") (codes "btg1"))
    ∷ (codes "RVN", rule (codes "raven") (shape (prefix (codes "R")) base58 25 39 ∷ []) 26 42)
    ∷ (
      codes "CLORE",
      rule (codes "raven") (shape (one_of (codes "CA") ∷ []) base58 25 39 ∷ []) 26 42,
    )
    ∷ (codes "ETC", evm)
    ∷ (codes "OCTA", evm)
    ∷ (codes "FLUX", rule (codes "zcash-t") (t1_address ∷ []) 35 35)
    ∷ (
      codes "ZEC",
      rule (codes "zcash")
          (t1_address
            ∷ shape (prefix (codes "t3")) base58 33 33
            ∷ sapling
            ∷ record { lead = prefix (codes "u1"); body = bech32; lo = 20; hi = none }
            ∷ [])
          35 160,
    )
    ∷ (codes "ARRR", rule (codes "zcash-sapling") (sapling ∷ []) 78 78)
    ∷ (codes "ERG", rule (codes "ergo") (shape (prefix (codes "9")) base58 50 60 ∷ []) 51 61)
    ∷ (codes "KAS", rule (codes "kaspa") (shape (prefix (codes "kaspa:")) bech32 61 63 ∷ []) 67 69)
    ∷ (codes "XEL", rule (codes "xelis") (shape (prefix (codes "xel:")) bech32 20 80 ∷ []) 24 84)
    ∷ (codes "GRIN", rule (codes "grin") (shape (prefix (codes "grin1")) bech32 20 70 ∷ []) 26 76)
    ∷ (
      codes "BEAM",
      rule (codes "beam") (shape [] hex_digit 64 80 ∷ shape [] base58 60 90 ∷ []) 60 90,
    )
    ∷ (codes "XCH", chia)
    ∷ []

unfoldable pub rule_of : Text → List (Text × Rule) → Option Rule
rule_of symbol [] = none
rule_of symbol ((s, r) ∷ rs) = if text_eq s symbol then some r else rule_of symbol rs

pub data Verdict : Type 0 where
  valid no_rule bad_length bad_format : Verdict

unfoldable pub check_rule : Rule → Text → Verdict
unfolding match_string
check_rule r address =
    if ltb (length address) r.min_l || ltb r.max_l (length address)
    then Verdict.bad_length
    else (if match_string r.re address then Verdict.valid else Verdict.bad_format)

-- `Validate`
unfoldable pub validate : Text → Text → Verdict
unfolding rules rule_of check_rule
validate symbol address = elim (rule_of (to_upper symbol) rules) [
  | none ↦ Verdict.no_rule
  | some r ↦ check_rule r (trim_space address)
]
