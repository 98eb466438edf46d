-- ===== src/Worker/Enroll/Connects.antt =====
-- The enroll command and the first connection (cmd/worker/main.go with api/public.go and
-- swarm/codes.go).
use money_miner.Base.{
  ℕ, ◌+◌, ◌≡◌, refl, false, Option, none, some, List, [], ◌∷◌, ◌==◌, Text, codes, is_empty,
  trim_space, find, length, arith, ap, sym, subst, ◌∙◌, Bool-cases, Option-cases, inl, inr,
}
use money_miner.Store.Types.{JoinCode, Kind}
use money_miner.Store.Db.{Db}
use money_miner.Swarm.Code.{normalize_code}
use money_miner.Swarm.Codes.{
  Crypto, done, Hardware, EnrollResult, enroll, candidate, redeem, new_worker_token,
  authenticate_worker, kind_of,
}
use money_miner.Swarm.Codes.Tokens.{has_token, InTime, redeem-authenticate}
use money_miner.Swarm.Hub.State.{Hub}
use money_miner.Api.Response.{Response, success, failure}
use money_miner.Api.Public.{EnrollReq, handle_enroll, wss_url}
use money_miner.System.Handlers.Nodes.{Outcome-cases}
use money_miner.Worker.Enroll.{
  Host, SavedConfig, EnrollRequest, request_of, enroll_request, cmd_enroll, save_reply, body_of,
  parse_args, no_args,
}

redeem_token :
    (c : JoinCode) (name : Text) (hw : Hardware) (plain token_hash : Text) (db : Db)
    (e : EnrollResult)
    → (redeem c name hw (plain, token_hash) db).0 ≡ done e
    → e.worker_token ≡ plain
unfolding redeem
redeem_token c name hw plain token_hash db e h = ground arith

save_reply_given :
    (host : Host) (name : Text) (positional : List Text) (reply : Response (ℕ × Text × Text))
    (saved : SavedConfig)
    → save_reply host name positional reply ≡ some saved
    → (status : ℕ) × (reply ≡ success status (saved.worker_id, saved.worker_token, saved.wss_url))
      × (saved.allow_simulated ≡ false)
unfolding save_reply
save_reply_given host name [] reply saved e = absurd (cc)
save_reply_given host name (app ∷ []) reply saved e = absurd (cc)
save_reply_given host name (app ∷ code ∷ more ∷ rest) reply saved e = absurd (cc)
save_reply_given host name (app ∷ code ∷ []) (failure status error) saved e = absurd (cc)
save_reply_given host name (app ∷ code ∷ []) (success status (id, token, wss)) saved e =
    (status, ground arith, ground arith)

request_native :
    (host : Host) (name : Text) (positional : List Text) (q : EnrollRequest)
    → request_of host name positional ≡ some q
    → q.hardware.kind ≡ codes "native"
unfolding request_of
request_native host name [] q e = absurd (cc)
request_native host name (app ∷ []) q e = absurd (cc)
request_native host name (app ∷ code ∷ more ∷ rest) q e = absurd (cc)
request_native host name (app ∷ code ∷ []) q e = ground arith

module _ (crypto : Crypto) where
  -- An enrollment that is done is a redeemed code, with the token of the random bytes.
  enroll-redeem :
      (code name : Text) (hw : Hardware) (raw : Text) (db : Db) (e : EnrollResult)
      → (enroll crypto (λ db. db) code name hw (some raw) db).0 ≡ done e
      → (c : JoinCode) × (enroll crypto (λ db. db) code name hw (some raw) db
          ≡ redeem c name hw (crypto.hex raw, crypto.sha256_hex (crypto.hex raw)) db)
  unfolding enroll new_worker_token
  enroll-redeem code name hw raw db e h = elim (Bool-cases (length (normalize_code code) == 10)) [
    | inr short ↦ absurd (ground arith)
    | inl ten ↦ elim (Option-cases (candidate crypto (normalize_code code) db)) [
      | inl unknown ↦ absurd (ground arith)
      | inr (c, found) ↦ (c, rw (ten, found, enroll) refl)
    ]
  ]

  enroll-authenticate :
      (code name : Text) (hw : Hardware) (raw : Text) (wait : ℕ) (db : Db) (e : EnrollResult)
      → hw.kind ≡ codes "native"
      → find (has_token crypto (crypto.hex raw)) db.workers ≡ none
      → (enroll crypto (λ db. db) code name hw (some raw) db).0 ≡ done e
      → let db' = (enroll crypto (λ db. db) code name hw (some raw) db).1 in
        (authenticate_worker crypto (crypto.hex raw) (record db' { clock = db'.clock + wait })
          ≡ done (e.worker_id, e.owner, Kind.native))
        × (e.worker_token ≡ crypto.hex raw)
  enroll-authenticate code name hw raw wait db e native unused h =
      let (c, same) = enroll-redeem code name hw raw db e h in
      let did : (redeem c name hw (crypto.hex raw, crypto.sha256_hex (crypto.hex raw)) db).0
          ≡ done e =
        ap (λ r. r.0) (sym same) ∙ h in
      rw same (
        redeem-authenticate crypto c name hw (crypto.hex raw) wait db e unused
              (subst (λ k. InTime k wait) (sym (ap kind_of native)) tt) did
            ∙ ap (λ k. done (e.worker_id, e.owner, k)) (ap kind_of native),
        redeem_token c name hw (crypto.hex raw) (crypto.sha256_hex (crypto.hex raw)) db e did,
      )

  handle_enroll-enroll :
      (public_url : Text) (bytes : Option Text) (req : EnrollReq) (h : Hub) (id : ℕ) (status : ℕ)
      (token wss : Text)
      → (handle_enroll crypto public_url (λ db. db) bytes (some req) h).0
        ≡ success status (id, token, wss)
      → (e : EnrollResult) × ((enroll crypto (λ db. db) req.code req.name req.hardware bytes h.db).0
          ≡ done e)
        × (id ≡ e.worker_id)
        × (token ≡ e.worker_token)
        × (wss ≡ wss_url public_url)
        × ((handle_enroll crypto public_url (λ db. db) bytes (some req) h).1.db
            ≡ (enroll crypto (λ db. db) req.code req.name req.hardware bytes h.db).1)
  unfolding handle_enroll
  handle_enroll-enroll public_url bytes req h id status token wss s =
      elim (Bool-cases (is_empty (trim_space req.name))) [
        | inl nameless ↦ absurd (ground arith)
        | inr named ↦
            elim (Outcome-cases
              (enroll crypto (λ db. db) req.code req.name req.hardware bytes h.db).0) [
                | inl (e, did) ↦ (e, did, ground arith, ground arith, ground arith, ground arith)
                | inr (inl bad) ↦ absurd (ground arith)
                | inr (inr (inl bad)) ↦ absurd (ground arith)
                | inr (inr (inr bad)) ↦ absurd (ground arith)
              ]
      ]

  -- A worker that enrolls with the command can connect: where the server's answer to the request makes
  -- the command save a configuration, the token in it authenticates the worker with the id in it as a
  -- native worker of one owner, however long afterwards, as long as the database stays as the
  -- enrollment left it; the URL in it is the server's control channel, and the simulated engine is
  -- not allowed. The token must not be that of an earlier worker.
  pub cmd_enroll-authenticate :
      (public_url : Text) (host : Host) (args : List Text) (q : EnrollRequest) (raw : Text)
      (wait : ℕ) (h : Hub) (saved : SavedConfig)
      → find (has_token crypto (crypto.hex raw)) h.db.workers ≡ none
      → enroll_request host args ≡ some q
      → cmd_enroll host args
          (handle_enroll crypto public_url (λ db. db) (some raw) (some (body_of q)) h).0
        ≡ some saved
      → let db' =
          (handle_enroll crypto public_url (λ db. db) (some raw) (some (body_of q)) h).1.db in
        (owner : ℕ) × (authenticate_worker crypto saved.worker_token
            (record db' { clock = db'.clock + wait })
          ≡ done (saved.worker_id, owner, Kind.native))
        × (saved.wss_url ≡ wss_url public_url)
        × (saved.allow_simulated ≡ false)
  unfolding cmd_enroll enroll_request
  cmd_enroll-authenticate public_url host args q raw wait h saved unused asked e =
      let a = parse_args args no_args in
      let native = request_native host a.name a.positional q asked in
      let (status, reply, fair) = save_reply_given host a.name a.positional _ saved e in
      let (r, did, id, token, wss, db) =
        handle_enroll-enroll public_url (some raw) (body_of q) h saved.worker_id status
          saved.worker_token saved.wss_url reply in
      let (passes, same) =
        enroll-authenticate q.code q.name q.hardware raw wait h.db r native unused did in
      (r.owner, rw (id, token, same, db) passes, wss, fair)
