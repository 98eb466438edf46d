-- ===== src/Auth/Sound.antt =====
-- Who is let in (auth/auth.go).
use money_miner.Base.{
  ℕ, ◌≡◌, ◌<◌, refl, ap, sym, ◌∙◌, true, false, Option, none, some, List, Text, text_eq,
  text_eq_iff, codes, arith, is_empty, Option-cases, inl, inr,
}
use money_miner.Auth.{
  Claims, Token, Jwt, Validator, find_key, key_for, parse_token, parse, middleware, accepts,
  expires_after, claims_of, bare,
}

module _ (jwt : Jwt) where
  key_for_known :
      (now : ℕ) (fetched : Option (List (Text × jwt.Key))) (kid : Text) (v : Validator jwt)
      (key : jwt.Key)
      → (key_for jwt now fetched kid v).0 ≡ some key
      → find_key jwt kid (key_for jwt now fetched kid v).1.keys ≡ some key
  unfolding key_for
  key_for_known now fetched kid v key e = ground arith

  expiry_ahead :
      (now : ℕ) (o : Option ℕ) → expires_after jwt now o ≡ true → (t : ℕ) × (o ≡ some t) × (now < t)
  expiry_ahead now none e = absurd (ground arith)
  expiry_ahead now (some t) e = (t, refl, ground arith)

  token_sound :
      (now : ℕ) (fetched : Option (List (Text × jwt.Key))) (text : Text) (t : Token)
      (v : Validator jwt) (c : Claims)
      → (parse_token jwt now fetched text t v).0 ≡ some c
      → (key : jwt.Key) × (find_key jwt t.kid (parse_token jwt now fetched text t v).1.keys
          ≡ some key)
        × (text_eq t.alg (codes "RS256") ≡ true)
        × (accepts jwt now v.issuer t text key ≡ true)
        × (is_empty t.subject ≡ false)
        × (c ≡ claims_of jwt t)
  unfolding parse_token
  token_sound now fetched text t v c e = elim (Option-cases (key_for jwt now fetched t.kid v).0) [
    | inl unknown ↦ absurd (ground arith)
    | inr (key, known) ↦
        let there = key_for_known now fetched t.kid v key known in
        (key, ground arith, ground arith, ground arith, ground arith, ground arith)
  ]

  accepts_parts :
      (now : ℕ) (issuer : Text) (t : Token) (text : Text) (key : jwt.Key)
      → accepts jwt now issuer t text key ≡ true
      → (jwt.signed_by key text ≡ true)
        × (text_eq t.issuer issuer ≡ true)
        × (expires_after jwt now t.expires ≡ true)
  accepts_parts now issuer t text key e = (ground arith, ground arith, ground arith)

  -- A header that lets somebody in is one of the scheme with a token that reads.
  middleware-parse_token :
      (now : ℕ) (fetched : Option (List (Text × jwt.Key))) (header : Text) (v : Validator jwt)
      (c : Claims) (t : Token)
      → (middleware jwt now fetched header v).0 ≡ some c
      → jwt.read (bare jwt header) ≡ some t
      → middleware jwt now fetched header v ≡ parse_token jwt now fetched (bare jwt header) t v
  unfolding middleware parse
  middleware-parse_token now fetched header v c t e reads = ground arith

  -- Who is let in has the subject of a token that reads as RS256, of the configured issuer, not yet
  -- expired, and signed by the key that the cache has under the token's key id, after the fetch if
  -- there was one; and the subject is not empty.
  pub middleware_sound :
      (now : ℕ) (fetched : Option (List (Text × jwt.Key))) (header : Text) (v : Validator jwt)
      (c : Claims)
      → (middleware jwt now fetched header v).0 ≡ some c
      → (t : Token) × (key : jwt.Key) × (expiry : ℕ) × (jwt.read (bare jwt header) ≡ some t)
        × (find_key jwt t.kid (middleware jwt now fetched header v).1.keys ≡ some key)
        × (jwt.signed_by key (bare jwt header) ≡ true)
        × (t.alg ≡ codes "RS256")
        × (t.issuer ≡ v.issuer)
        × (t.expires ≡ some expiry)
        × (now < expiry)
        × (c ≡ claims_of jwt t)
        × (is_empty c.sub ≡ false)
  unfolding middleware parse
  middleware_sound now fetched header v c e = elim (Option-cases (jwt.read (bare jwt header))) [
    | inl unread ↦ absurd (ground arith)
    | inr (t, reads) ↦
        let same_run = middleware-parse_token now fetched header v c t e reads in
        let (key, there, alg, accepted, named, same) =
          token_sound now fetched (bare jwt header) t v c (ap (λ r. r.0) (sym same_run) ∙ e) in
        let (signed, issuer, unexpired) =
          accepts_parts now v.issuer t (bare jwt header) key accepted in
        let (expiry, expires, ahead) = expiry_ahead now t.expires unexpired in
        (
          t,
          key,
          expiry,
          reads,
          ap (λ r. find_key jwt t.kid r.1.keys) same_run ∙ there,
          signed,
          (text_eq_iff t.alg (codes "RS256")).0 alg,
          (text_eq_iff t.issuer v.issuer).0 issuer,
          expires,
          ahead,
          same,
          ap (λ (x : Claims). is_empty x.sub) same ∙ named,
        )
  ]
