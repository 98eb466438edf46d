-- ===== src/Tests/AuthTests.antt =====
-- A token of a realm with one key.
use money_miner.Base.{
  ℕ, ◌≡◌, ◌<◌, refl, true, false, none, some, Option, List, [], ◌∷◌, Text, codes, is_empty,
  trim_space, trim_prefix,
}
use money_miner.Auth.{Token, Jwt, Validator, find_key, middleware, claims_of, bare}
use money_miner.Auth.Sound.{middleware_sound}

abbrev good_token : Token
good_token = record {
  alg = codes "RS256";
  kid = codes "k";
  issuer = codes "realm";
  expires = some 200;
  not_before = some 90;
  subject = codes "alice";
  roles = [];
}

abbrev pub one_jwt : Jwt
one_jwt = record { Key = ℕ; read = λ s. some good_token; signed_by = λ key s. true }

abbrev pub cold : Validator one_jwt
cold = record { issuer = codes "realm"; keys = []; fresh = none }

abbrev pub realm_keys : Option (List (Text × ℕ))
realm_keys = some ((codes "k", 7) ∷ [])

alice_enters :
    (middleware one_jwt 100 realm_keys (codes "Bearer x") cold).0
    ≡ some (claims_of one_jwt good_token)
unfolding middleware trim_space trim_prefix
alice_enters = refl

expired_refused : (middleware one_jwt 200 realm_keys (codes "Bearer x") cold).0 ≡ none
unfolding middleware trim_space trim_prefix
expired_refused = refl

middleware_sound_example :
    (t : Token) × (key : ℕ) × (expiry : ℕ) × (one_jwt.read (bare one_jwt (codes "Bearer x"))
      ≡ some t)
    × (find_key one_jwt t.kid (middleware one_jwt 100 realm_keys (codes "Bearer x") cold).1.keys
        ≡ some key)
    × (one_jwt.signed_by key (bare one_jwt (codes "Bearer x")) ≡ true)
    × (t.alg ≡ codes "RS256")
    × (t.issuer ≡ cold.issuer)
    × (t.expires ≡ some expiry)
    × (100 < expiry)
    × (claims_of one_jwt good_token ≡ claims_of one_jwt t)
    × (is_empty (codes "alice") ≡ false)
middleware_sound_example =
    middleware_sound one_jwt 100 realm_keys (codes "Bearer x") cold (claims_of one_jwt good_token)
      alice_enters
