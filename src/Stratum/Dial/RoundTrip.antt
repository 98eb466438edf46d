-- ===== src/Stratum/Dial/RoundTrip.antt =====
-- An endpoint written as a URL and dialled (stratum/client.go).
use money_miner.Base.{
  ℕ, ◌≡◌, refl, Bool, true, false, some, [], ◌∷◌, ◌++◌, Text, codes, has_prefix, trim_prefix,
}
use money_miner.Stratum.Dial.{dial_target, strip_prefixes, tcp}

-- The ways to write an endpoint.
pub data Scheme : Type 0 where
  bare plain_tcp stratum_tcp stratum_ssl stratum_tls : Scheme

abbrev pub scheme_text : Scheme → Text
scheme_text bare = []
scheme_text plain_tcp = codes "tcp://"
scheme_text stratum_tcp = codes "stratum+tcp://"
scheme_text stratum_ssl = codes "stratum+ssl://"
scheme_text stratum_tls = codes "stratum+tls://"

abbrev pub uses_tls : Scheme → Bool
uses_tls bare = false
uses_tls plain_tcp = false
uses_tls stratum_tcp = false
uses_tls stratum_ssl = true
uses_tls stratum_tls = true

-- What starts like none of the prefixes that Dial takes off.
pub record IsPlain (u : Text) : Type 0 where
  pub no_stratum : has_prefix u (codes "stratum+") ≡ false
  pub no_tcp : has_prefix u tcp ≡ false
  pub no_ssl : has_prefix u (codes "ssl://") ≡ false
  pub no_tls : has_prefix u (codes "tls://") ≡ false

-- An endpoint that is not empty and starts with no prefix, written in any of the five ways, is
-- dialled as it is, with TLS exactly where the scheme says so.
pub dial_target_back :
    (s : Scheme) (c : ℕ) (u : Text)
    → IsPlain (c ∷ u)
    → dial_target (scheme_text s ++ c ∷ u) ≡ some (uses_tls s, c ∷ u)
unfolding dial_target strip_prefixes trim_prefix
dial_target_back bare c u p =
    rw (p.no_stratum, p.no_tcp, p.no_ssl, p.no_tls, dial_target, strip_prefixes, trim_prefix) refl
dial_target_back plain_tcp c u p = rw (p.no_ssl, p.no_tls) refl
dial_target_back stratum_tcp c u p = rw (p.no_ssl, p.no_tls) refl
dial_target_back stratum_ssl c u p = rw (p.no_tls) refl
dial_target_back stratum_tls c u p = refl
