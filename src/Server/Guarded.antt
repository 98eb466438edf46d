-- ===== src/Server/Guarded.antt =====
-- Requests without a token, or over their limit (api/server.go).
use money_miner.Base.{
  ℕ, ◌≡◌, ◌⊎◌, refl, true, false, Option, none, some, List, Text, Bool-cases, Option-cases, inl,
  inr,
}
use money_miner.Auth.{Jwt, Claims, middleware}
use money_miner.RateLimit.{Buckets, allow_key}
use money_miner.Server.{Env, Call, Server, authed}
use money_miner.Server.Serve.{serve, limited, handle_request}

module _ (buckets : Buckets) (jwt : Jwt) (env : Env) where
  -- An authenticated route is refused with 401 or 429, the hub and the database unchanged, or it is
  -- served for the subject of the token that the check accepts, within that subject's limit.
  abbrev pub IsGuarded :
      (now : ℕ)
      → (header : Text) → (fetched : Option (List (Text × jwt.Key))) → Call
      → Server buckets jwt
      → ℕ × Server buckets jwt
      → Type 0
  IsGuarded now header fetched call s (status, s') =
      ((status ≡ 401) × (s'.hub ≡ s.hub) × ((middleware jwt now fetched header s.auth).0 ≡ none))
      ⊎ ((c : Claims) × ((middleware jwt now fetched header s.auth).0 ≡ some c)
          × (((status ≡ 429)
                × (s'.hub ≡ s.hub)
                × ((allow_key buckets now (env.sub_id c.sub) s.authed_rl).0 ≡ false))
              ⊎ (((status, s'.hub) ≡ serve env (env.sub_id c.sub) call s.hub)
                  × ((allow_key buckets now (env.sub_id c.sub) s.authed_rl).0 ≡ true))))

  -- An authenticated route either answers 401 because the check gives no subject, or 429 because the
  -- subject's limit is spent, both with the hub and the database as they were; or it gives the status
  -- and the state of the handler, run for the subject that the check gives.
  pub handle_request-IsGuarded :
      (now : ℕ) (header : Text) (fetched : Option (List (Text × jwt.Key))) (call : Call)
      (s : Server buckets jwt)
      → IsGuarded now header fetched call s
          (handle_request buckets jwt env now (authed header fetched call) s)
  unfolding handle_request limited
  handle_request-IsGuarded now header fetched call s =
      elim (Option-cases (middleware jwt now fetched header s.auth).0) [
        | inl nobody ↦ rw (nobody, handle_request) (inl (refl, refl, refl))
        | inr (c, known) ↦
            elim (Bool-cases (allow_key buckets now (env.sub_id c.sub) s.authed_rl).0) [
              | inr spent ↦
                  rw (known, spent, handle_request, limited)
                    (inr (c, refl, inl (refl, refl, spent)))
              | inl free ↦
                  rw (known, free, handle_request, limited) (inr (c, refl, inr (refl, free)))
            ]
      ]
