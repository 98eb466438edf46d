-- ===== src/Api/Pool.antt =====
-- The pools of a currency and the guard on pool URLs (api/handlers.go, api/public.go). Parsing a
-- URL and resolving a host are parameters.
pub mod Guard
use money_miner.Base.{
  ℕ, ◌+◌, ◌*◌, ◌/◌, Bool, true, false, not, ◌&&◌, ◌||◌, Option, none, some, List, [], ◌∷◌, ◌==◌,
  leb, if◌then◌else◌, Text, text_eq, codes, is_empty,
}
use money_miner.Store.Types.{Pool}

-- An address: four bytes, or eight groups of 16 bits. A resolver gives an IPv4 address in the first form.
pub data Ip : Type 0 where
  v4 : (a b c d : ℕ) → Ip
  v6 : (g0 g1 g2 g3 g4 g5 g6 g7 : ℕ) → Ip

abbrev is_loopback : Ip → Bool
is_loopback (v4 a b c d) = a == 127
is_loopback (v6 g0 g1 g2 g3 g4 g5 g6 g7) = (g0 + g1 + g2 + g3 + g4 + g5 + g6) == 0 && g7 == 1

abbrev is_private : Ip → Bool
is_private (v4 a b c d) = a == 10 || (a == 172 && b / 16 == 1) || (a == 192 && b == 168)
is_private (v6 g0 g1 g2 g3 g4 g5 g6 g7) = g0 / 512 == 126

abbrev is_link_local : Ip → Bool
is_link_local (v4 a b c d) = a == 169 && b == 254
is_link_local (v6 g0 g1 g2 g3 g4 g5 g6 g7) = g0 / 64 == 1018

abbrev is_unspecified : Ip → Bool
is_unspecified (v4 a b c d) = (a + b + c + d) == 0
is_unspecified (v6 g0 g1 g2 g3 g4 g5 g6 g7) = (g0 + g1 + g2 + g3 + g4 + g5 + g6 + g7) == 0

abbrev pub is_inward : Ip → Bool
is_inward ip = is_loopback ip || is_private ip || is_link_local ip || is_unspecified ip

-- What `url.Parse` gives of a URL; `credentials` is whether there is a user part.
pub record Url : Type 0 where
  pub scheme : Text
  pub credentials : Bool
  pub host : Text

-- `lookup_ip` is the resolver: `none` where the name does not resolve.
pub record Net : Type 0 where
  pub parse_url : Text → Option Url
  pub lookup_ip : Text → Option (List Ip)

unfoldable pub scheme_allowed : Text → Bool
scheme_allowed s =
    text_eq s (codes "stratum+tcp")
    || text_eq s (codes "stratum+ssl")
    || text_eq s (codes "stratum")
    || text_eq s (codes "http")
    || text_eq s (codes "https")

unfoldable pub all_outward : List Ip → Bool
all_outward [] = true
all_outward (ip ∷ ips) = if is_inward ip then false else all_outward ips

-- `validatePoolURL`: whether there is no error.
unfoldable pub validate_pool_url : Net → Text → Bool
unfolding scheme_allowed all_outward
validate_pool_url net raw = elim (net.parse_url raw) [
  | none ↦ false
  | some u ↦
      if not (scheme_allowed u.scheme)
      then false
      else (if u.credentials
          then false
          else (if is_empty u.host
              then false
              else elim (net.lookup_ip u.host) [ none ↦ false | some ips ↦ all_outward ips ]))
]

-- `parsePools`: no pools where the value does not decode.
abbrev pub parse_pools : Option (List Pool) → List Pool
parse_pools none = []
parse_pools (some ps) = ps

-- The URL of the first pool that has one.
unfoldable pub first_url : List Pool → Text
first_url [] = []
first_url (p ∷ ps) = if is_empty p.url then first_url ps else p.url
