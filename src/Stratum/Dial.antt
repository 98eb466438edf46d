-- ===== src/Stratum/Dial.antt =====
-- What Dial connects to (stratum/client.go).
pub mod RoundTrip
use money_miner.Base.{
  Bool, true, false, not, Option, none, some, List, [], ◌∷◌, if◌then◌else◌, Text, text_eq, codes,
  is_empty, has_prefix, trim_prefix,
}

abbrev pub tcp : Text
tcp = codes "tcp://"

abbrev dial_prefixes : List Text
dial_prefixes = tcp ∷ codes "ssl://" ∷ codes "tls://" ∷ []

-- The loop over the prefixes: whether to use TLS, and what is left of the URL.
unfoldable pub strip_prefixes : List Text → Bool × Text → Bool × Text
unfolding trim_prefix
strip_prefixes [] s = s
strip_prefixes (p ∷ ps) (tls, u) =
    strip_prefixes ps (if has_prefix u p then (not (text_eq p tcp), trim_prefix u p) else (tls, u))

-- The choice of `Dial` before the connection: nothing where no address is left.
unfoldable pub dial_target : Text → Option (Bool × Text)
unfolding strip_prefixes trim_prefix
dial_target url =
    let (tls, u) = strip_prefixes dial_prefixes (false, trim_prefix url (codes "stratum+")) in
    if is_empty u then none else some (tls, u)
