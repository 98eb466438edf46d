-- ===== src/Swarm/Codes/Tokens.antt =====
-- Worker tokens and AuthenticateWorker (swarm/codes.go).
use money_miner.Base.{
  ℕ, ◌+◌, ◌≡◌, ◌≤◌, refl, Bool, false, ◌⊎◌, Bool-cases, ◌&&◌, none, some, [], ◌∷◌, ◌++◌, find,
  count_where, Text, text_eq, text_eq_refl, arith, ℕ-cases, Option-cases, inl, inr, ◌∙◌,
  find-append_miss, find-update, ==_refl, count_of_find,
}
use money_miner.Store.Types.{Worker, WorkerStatus, Kind, JoinCode, is_null, is_browser}
use money_miner.Store.Db.{Db}
use money_miner.Store.Workers.{revoke_worker, is_owned_worker}
use money_miner.Swarm.Codes.{
  Crypto, done, refused, Hardware, EnrollResult, new_worker, redeem, redeems, kind_of,
  authenticate_worker, hash_token, browser_token_ttl,
}

abbrev pub has_token : Crypto → Text → Worker → Bool
has_token crypto token w = text_eq w.token_hash (crypto.sha256_hex token)

-- How long a worker may use its token.
abbrev pub InTime : Kind → ℕ → Type 0
InTime Kind.browser wait = wait ≤ browser_token_ttl
InTime Kind.native wait = Unit

module _ (crypto : Crypto) where
  authenticate_of_found :
      (token : Text) (wait : ℕ) (db : Db) (w : Worker) (k : Kind)
      → w.kind ≡ k
      → find (has_token crypto token) db.workers ≡ some w
      → w.revoked_at ≡ none
      → db.clock ≡ w.enrolled_at + wait
      → InTime k wait
      → authenticate_worker crypto token db ≡ done (w.id, w.owner, w.kind)
  unfolding authenticate_worker hash_token
  authenticate_of_found token wait db w Kind.native native found live time h = ground arith
  authenticate_of_found token wait db w Kind.browser browser found live time h = ground arith

  -- The token that an enrollment returns authenticates the new worker as its owner's: a native
  -- one for ever, a browser one for 24 hours, if no earlier worker has the same token hash.
  pub redeem-authenticate :
      (c : JoinCode) (name : Text) (hw : Hardware) (plain : Text) (wait : ℕ) (db : Db)
      (r : EnrollResult)
      → find (has_token crypto plain) db.workers ≡ none
      → InTime (kind_of hw.kind) wait
      → (redeem c name hw (plain, crypto.sha256_hex plain) db).0 ≡ done r
      → let db' = (redeem c name hw (plain, crypto.sha256_hex plain) db).1 in
        authenticate_worker crypto plain (record db' { clock = db'.clock + wait })
        ≡ done (r.worker_id, r.owner, kind_of hw.kind)
  unfolding redeem authenticate_worker hash_token
  redeem-authenticate c name hw plain wait db r unused early e =
      elim (ℕ-cases (count_where (redeems c db.clock) db.codes)) [
        | inl lost ↦ absurd (ground arith)
        | inr (n, rows) ↦
            let w = new_worker c name hw (crypto.sha256_hex plain) db in
            let found : find (has_token crypto plain) (db.workers ++ w ∷ []) ≡ some w =
              find-append_miss (has_token crypto plain) db.workers (w ∷ []) unused
              ∙ ground (arith, text_eq_refl (crypto.sha256_hex plain)) in
            let db' = (redeem c name hw (plain, crypto.sha256_hex plain) db).1 in
            let found' : find (has_token crypto plain) db'.workers ≡ some w = ground arith in
            authenticate_of_found plain wait (record db' { clock = db'.clock + wait }) w
              (kind_of hw.kind) refl found' refl (ground arith) early
            ∙ ground arith
      ]

  -- Whoever authenticates has the id, the owner and the kind of the first worker row with the
  -- token's hash, which is not revoked, and is no browser or was enrolled at most 24 hours ago.
  pub authenticate_sound :
      (token : Text) (db : Db) (id owner : ℕ) (kind : Kind)
      → authenticate_worker crypto token db ≡ done (id, owner, kind)
      → (w : Worker) × (find (has_token crypto token) db.workers ≡ some w)
        × (w.id ≡ id)
        × (w.owner ≡ owner)
        × (w.kind ≡ kind)
        × (w.revoked_at ≡ none)
        × ((is_browser w.kind ≡ false) ⊎ (db.clock ≤ w.enrolled_at + browser_token_ttl))
  unfolding authenticate_worker hash_token
  authenticate_sound token db id owner kind e =
      elim (Option-cases (find (has_token crypto token) db.workers)) [
        | inl missing ↦ absurd (ground arith)
        | inr (w, found) ↦ (
          w,
          found,
          ground arith,
          ground arith,
          ground arith,
          ground arith,
          elim (Bool-cases (is_browser w.kind)) [
            | inl browser ↦ inr (ground arith)
            | inr native ↦ inl native
          ],
        )
      ]

  -- Once its owner has revoked a worker, its token is refused.
  revoked_refused :
      (token : Text) (db : Db) (w : Worker)
      → find (has_token crypto token) db.workers ≡ some w
      → authenticate_worker crypto token (revoke_worker w.owner w.id db).1 ≡ refused
  unfolding authenticate_worker hash_token revoke_worker
  revoked_refused token db w found =
      let target = λ (r : Worker). is_owned_worker w.owner w.id r && is_null r.revoked_at in
      let mark =
        λ (r : Worker). record r { revoked_at = some db.clock; status = WorkerStatus.revoked } in
      elim (Option-cases w.revoked_at) [
        | inl live ↦
            let (n, rows) =
              count_of_find (has_token crypto token) target db.workers w found
                (ground (arith, ==_refl w.id, ==_refl w.owner)) in
            ground (
              arith,
              find-update (has_token crypto token) target mark db.workers (λ r. refl) w found,
              ==_refl w.id,
              ==_refl w.owner,
            )
        | inr (at, dead) ↦
            ground (
              arith,
              find-update (has_token crypto token) target mark db.workers (λ r. refl) w found,
            )
      ]
