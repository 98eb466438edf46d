-- ===== src/System/Handlers/Nodes.antt =====
-- The handlers of workers and of enrollment as steps (api/handlers.go, api/public.go).
use money_miner.Base.{
  ℕ, ◌≡◌, refl, Option, none, some, Text, length, ◌==◌, ◌⊎◌, Bool-cases, Option-cases, inl, inr,
  trim_space, is_empty,
}
use money_miner.Store.Types.{Result-cases}
use money_miner.Store.Workers.{revoke_worker}
use money_miner.Swarm.Hub.State.{Hub}
use money_miner.Api.Public.{EnrollReq, handle_enroll}
use money_miner.Swarm.Code.{normalize_code}
use money_miner.Swarm.Codes.{Crypto, Hardware, Outcome, done, enroll, candidate, new_worker_token}
use money_miner.Api.Workers.{handle_revoke_worker, handle_delete_worker}
use money_miner.System.{
  Reach, next, run_op, queries, publishes, revokes, revoke_node, drop_worker, redeem_code,
}

pub Outcome-cases :
    {A : Type 0} (o : Outcome A)
    → ((a : A) × (o ≡ done a))
      ⊎ ((o ≡ Outcome.invalid) ⊎ (o ≡ Outcome.refused) ⊎ (o ≡ Outcome.failed))
Outcome-cases (done a) = inl (a, refl)
Outcome-cases Outcome.invalid = inr (inl refl)
Outcome-cases Outcome.refused = inr (inr (inl refl))
Outcome-cases Outcome.failed = inr (inr (inr refl))

module _ (first : Hub) where
  pub revoke_worker-Reach :
      (owner id : ℕ) (h : Hub) → Reach first h → Reach first (handle_revoke_worker owner id h).1
  unfolding handle_revoke_worker run_op
  revoke_worker-Reach owner id h r =
      let stored = next r (queries (revoke_node owner id)) in
      elim (Result-cases (revoke_worker owner id h.db).0) [
        | inr (x, missing) ↦ rw (missing, handle_revoke_worker) stored
        | inl (u, found) ↦
            rw (found, handle_revoke_worker) (next (next stored (revokes id)) (publishes owner _))
      ]

  pub delete_worker-Reach :
      (owner id : ℕ) (h : Hub) → Reach first h → Reach first (handle_delete_worker owner id h).1
  unfolding handle_delete_worker run_op
  delete_worker-Reach owner id h r = next (next r (revokes id)) (queries (drop_worker owner id))

  enrolled-Reach :
      (crypto : Crypto) (code name : Text) (hw : Hardware) (bytes : Option Text) (h : Hub)
      → Reach first h
      → Reach first (record h { db = (enroll crypto (λ db. db) code name hw bytes h.db).1 })
  unfolding enroll run_op
  enrolled-Reach crypto code name hw bytes h r =
      elim (Bool-cases (length (normalize_code code) == 10)) [
        | inr short ↦ rw (short, enroll) r
        | inl ten ↦ elim (Option-cases (candidate crypto (normalize_code code) h.db)) [
          | inl unknown ↦ rw (ten, unknown, enroll) r
          | inr (c, found) ↦ elim (Option-cases (new_worker_token crypto bytes)) [
            | inl dry ↦ rw (ten, found, dry, enroll) r
            | inr (token, drawn) ↦
                rw (ten, found, drawn, enroll) (next r (queries (redeem_code c name hw token)))
          ]
        ]
      ]

  pub enroll-Reach :
      (crypto : Crypto) (public_url : Text) (bytes : Option Text) (req : Option EnrollReq) (h : Hub)
      → Reach first h
      → Reach first (handle_enroll crypto public_url (λ db. db) bytes req h).1
  unfolding handle_enroll
  enroll-Reach crypto public_url bytes none h r = r
  enroll-Reach crypto public_url bytes (some req) h r =
      elim (Bool-cases (is_empty (trim_space req.name))) [
        | inl nameless ↦ rw (nameless, handle_enroll) r
        | inr named ↦
            let stored = enrolled-Reach crypto req.code req.name req.hardware bytes h r in
            elim (Outcome-cases
              (enroll crypto (λ db. db) req.code req.name req.hardware bytes h.db).0) [
                | inl (e, did) ↦ rw (named, did, handle_enroll) stored
                | inr (inl bad) ↦ rw (named, bad, handle_enroll) stored
                | inr (inr (inl bad)) ↦ rw (named, bad, handle_enroll) stored
                | inr (inr (inr bad)) ↦ rw (named, bad, handle_enroll) stored
              ]
      ]
