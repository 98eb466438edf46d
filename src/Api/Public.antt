-- ===== src/Api/Public.antt =====
-- The public surface: enrollment and join information (api/public.go, api/server.go).
use money_miner.Base.{
  ℕ, Option, none, some, [], ◌∷◌, ◌++◌, if◌then◌else◌, Text, trim_space, trim_prefix, is_empty,
  codes, has_prefix, drop, length,
}
use money_miner.Store.Db.{Db}
use money_miner.Swarm.Codes.{Crypto, Outcome, Hardware, enroll, check_code}
use money_miner.Swarm.Hub.State.{Hub}
use money_miner.Api.Response.{Response, success, failure, ErrorCode, malformed}

-- `strings.Replace(s, old, new, 1)`
unfoldable replace_one : Text → Text → Text → Text
replace_one [] old new = []
replace_one (c ∷ s) old new =
    let rest = replace_one s old new in
    if has_prefix (c ∷ s) old then new ++ drop (length old) (c ∷ s) else c ∷ rest

-- `wssURL`
unfoldable pub wss_url : Text → Text
unfolding replace_one
wss_url public_url =
    replace_one (replace_one public_url (codes "https://") (codes "wss://")) (codes "http://")
      (codes "ws://")
    ++ codes "/api/swarm/ws"

pub record EnrollReq : Type 0 where
  pub code : Text
  pub name : Text
  pub hardware : Hardware

module _ (crypto : Crypto) (public_url : Text) where
  -- The worker's id, its token and the URL of the control channel. Every failure of the code
  -- answers alike.
  unfoldable pub handle_enroll :
      (meanwhile : Db → Db)
      → (token_bytes : Option Text) → Option EnrollReq
      → Hub
      → Response (ℕ × Text × Text) × Hub
  unfolding wss_url
  handle_enroll meanwhile bytes none h = (malformed, h)
  handle_enroll meanwhile bytes (some req) h =
      if is_empty (trim_space req.name)
      then (malformed, h)
      else (let (r, db) = enroll crypto meanwhile req.code req.name req.hardware bytes h.db in
          elim r [
            | Outcome.done e ↦ (
              success 201 (e.worker_id, e.worker_token, wss_url public_url),
              record h { db = db },
            )
            | _ ↦ (failure 404 ErrorCode.code_invalid, record h { db = db })
          ])

  -- The host of the app, where the code can be redeemed.
  unfoldable pub handle_join_info : (code : Text) → Hub → Response Text × Hub
  handle_join_info code h = elim (check_code crypto code h.db) [
    | Outcome.done _ ↦
        (success 200 (trim_prefix (trim_prefix public_url (codes "https://")) (codes "http://")), h)
    | _ ↦ (failure 404 ErrorCode.code_invalid, h)
  ]
