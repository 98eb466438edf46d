-- ===== src/Api/Pool/Guard.antt =====
-- What the guard on pool URLs lets through (`validatePoolURL` of api/public.go).
use money_miner.Base.{
  ◌+◌, ◌≡◌, ◌≢◌, ◌<◌, ◌⊎◌, true, false, some, List, [], ◌∷◌, Text, codes, text_eq, text_eq_iff,
  is_empty, All, arith, Bool-cases, inl, inr, Option-cases,
}
use money_miner.Api.Pool.{
  Ip, v4, v6, is_inward, Url, Net, scheme_allowed, all_outward, validate_pool_url,
}

-- The address is in none of 127/8, 10/8, 172.16/12, 192.168/16, 169.254/16 and 0.0.0.0, and none of
-- ::1, fc00::/7, fe80::/10 and ::.
abbrev pub IsOutward : Ip → Type 0
IsOutward (v4 a b c d) =
    (a ≢ 127)
    × (a ≢ 10)
    × ((a ≢ 172) ⊎ (b < 16) ⊎ (31 < b))
    × ((a ≢ 192) ⊎ (b ≢ 168))
    × ((a ≢ 169) ⊎ (b ≢ 254))
    × (0 < a + b + c + d)
IsOutward (v6 g0 g1 g2 g3 g4 g5 g6 g7) =
    ((0 < g0 + g1 + g2 + g3 + g4 + g5 + g6) ⊎ (g7 ≢ 1))
    × ((g0 < 64512) ⊎ (65023 < g0))
    × ((g0 < 65152) ⊎ (65215 < g0))
    × (0 < g0 + g1 + g2 + g3 + g4 + g5 + g6 + g7)

is_inward-IsOutward : (ip : Ip) → is_inward ip ≡ false → IsOutward ip
is_inward-IsOutward (v4 a b c d) e =
    (ground arith, ground arith, ground arith, ground arith, ground arith, ground arith)
is_inward-IsOutward (v6 g0 g1 g2 g3 g4 g5 g6 g7) e =
    (ground arith, ground arith, ground arith, ground arith)

all_outward_lem : (ips : List Ip) → all_outward ips ≡ true → All IsOutward ips
unfolding all_outward
all_outward_lem [] e = tt
all_outward_lem (ip ∷ ips) e = elim (Bool-cases (is_inward ip)) [
  | inl h ↦ absurd (ground arith)
  | inr h ↦ (is_inward-IsOutward ip h, all_outward_lem ips (ground arith))
]

-- One of the five schemes.
abbrev pub IsScheme : Text → Type 0
IsScheme s =
    (s ≡ codes "stratum+tcp")
    ⊎ (s ≡ codes "stratum+ssl")
    ⊎ (s ≡ codes "stratum")
    ⊎ (s ≡ codes "http")
    ⊎ (s ≡ codes "https")

scheme_allowed-IsScheme : (s : Text) → scheme_allowed s ≡ true → IsScheme s
unfolding scheme_allowed
scheme_allowed-IsScheme s e = elim (Bool-cases (text_eq s (codes "stratum+tcp"))) [
  | inl t ↦ inl ((text_eq_iff s (codes "stratum+tcp")).0 t)
  | inr f ↦ elim (Bool-cases (text_eq s (codes "stratum+ssl"))) [
    | inl t ↦ inr (inl ((text_eq_iff s (codes "stratum+ssl")).0 t))
    | inr g ↦ elim (Bool-cases (text_eq s (codes "stratum"))) [
      | inl t ↦ inr (inr (inl ((text_eq_iff s (codes "stratum")).0 t)))
      | inr h ↦ elim (Bool-cases (text_eq s (codes "http"))) [
        | inl t ↦ inr (inr (inr (inl ((text_eq_iff s (codes "http")).0 t))))
        | inr k ↦ inr (inr (inr (inr ((text_eq_iff s (codes "https")).0 (rw (f, g, h, k) at e)))))
      ]
    ]
  ]
]

-- A pool URL that is accepted parses, has one of the five schemes, no credentials and a host, and the
-- host resolves only to addresses outside the loopback, private, link-local and unspecified ranges of
-- IPv4 and IPv6.
pub validate_pool_url-guard :
    (net : Net) (raw : Text)
    → validate_pool_url net raw ≡ true
    → (u : Url) × (ips : List Ip) × (net.parse_url raw ≡ some u)
      × (net.lookup_ip u.host ≡ some ips)
      × IsScheme u.scheme
      × (u.credentials ≡ false)
      × (is_empty u.host ≡ false)
      × All IsOutward ips
unfolding validate_pool_url
validate_pool_url-guard net raw e = elim (Option-cases (net.parse_url raw)) [
  | inl n ↦ absurd (ground arith)
  | inr (u, p) ↦ elim (Option-cases (net.lookup_ip u.host)) [
    | inl n ↦ absurd (ground arith)
    | inr (ips, q) ↦ (
      u,
      ips,
      p,
      q,
      scheme_allowed-IsScheme u.scheme (ground arith),
      ground arith,
      ground arith,
      all_outward_lem ips (ground arith),
    )
  ]
]
