-- ===== src/Server/Steps.antt =====
-- Requests as steps of the system (api/server.go).
use money_miner.System.Sound.{IsSound}
use money_miner.System.Tenants.{Reach-IsSound}
use money_miner.Base.{
  List, [], ◌∷◌, arith, ℕ, ◌≡◌, refl, subst, sym, Bool, Option, Text, Bool-cases, Option-cases, inl,
  inr,
}
use money_miner.Auth.{Jwt, middleware}
use money_miner.RateLimit.{Buckets, allow_key, client_ip}
use money_miner.Store.Types.{Result-cases}
use money_miner.Swarm.Codes.{Crypto}
use money_miner.Store.Miners as Miners
use money_miner.Store.Workers as Workers
use money_miner.Swarm.Hub.State.{Hub}
use money_miner.Api.Wallets.{handle_list_currencies, handle_get_currency, handle_list_wallets}
use money_miner.Api.Miners.{
  handle_list_miners, handle_get_miner, handle_miner_history, handle_miner_metrics,
}
use money_miner.Api.Workers.{
  handle_list_workers, handle_get_worker, handle_list_join_codes, handle_swarm_stats,
}
use money_miner.Api.Settings.{
  handle_list_payouts, handle_list_blocks_found, handle_list_settings,
  handle_list_currency_settings, handle_list_exchange_settings,
}
use money_miner.Api.Public.{handle_join_info}
use money_miner.System.{Reach, start}
use money_miner.System.Handlers.Miners.{
  create_miner-Reach, patch_miner-Reach, delete_miner-Reach, start_miner-Reach, stop_miner-Reach,
  allocation-Reach,
}
use money_miner.System.Handlers.Nodes.{revoke_worker-Reach, delete_worker-Reach, enroll-Reach}
use money_miner.System.Handlers.Accounts.{
  create_wallet-Reach, delete_wallet-Reach, create_join_code-Reach, delete_join_code-Reach,
  put_setting-Reach, put_currency_setting-Reach, put_exchange_setting-Reach,
}
use money_miner.Server.{
  Env, Call, Request, Server, healthz, enroll, join_info, authed, list_currencies, get_currency,
  list_wallets, create_wallet, delete_wallet, list_miners, create_miner, get_miner, patch_miner,
  delete_miner, start_miner, stop_miner, miner_allocation, miner_history, miner_metrics,
  list_workers, get_worker, revoke_worker, delete_worker, list_join_codes, create_join_code,
  delete_join_code, swarm_stats, list_payouts, list_blocks_found, list_settings, put_setting,
  list_currency_settings, put_currency_setting, list_exchange_settings, put_exchange_setting,
}
use money_miner.Server.Serve.{serve, limited, handle_request}

get_miner_reads : (owner id : ℕ) (h : Hub) → (handle_get_miner owner id h).1 ≡ h
unfolding handle_get_miner
get_miner_reads owner id h = elim (Result-cases (Miners.get_miner owner id h.db)) [
  | inl (m, found) ↦ rw (found, handle_get_miner) refl
  | inr (x, missing) ↦ rw (missing, handle_get_miner) refl
]

miner_history_reads :
    (owner id : ℕ) (is_raw : Bool) (from to : Option ℕ) (h : Hub)
    → (handle_miner_history owner id is_raw from to h).1 ≡ h
unfolding handle_miner_history
miner_history_reads owner id is_raw from to h =
    elim (Result-cases (Miners.get_miner owner id h.db)) [
      | inl (m, found) ↦ rw (found, handle_miner_history) refl
      | inr (x, missing) ↦ rw (missing, handle_miner_history) refl
    ]

miner_metrics_reads :
    (owner id : ℕ) (limit : Text) (h : Hub) → (handle_miner_metrics owner id limit h).1 ≡ h
unfolding handle_miner_metrics
miner_metrics_reads owner id limit h = elim (Result-cases (Miners.get_miner owner id h.db)) [
  | inl (m, found) ↦ rw (found, handle_miner_metrics) refl
  | inr (x, missing) ↦ rw (missing, handle_miner_metrics) refl
]

get_worker_reads : (owner id : ℕ) (h : Hub) → (handle_get_worker owner id h).1 ≡ h
unfolding handle_get_worker
get_worker_reads owner id h = elim (Result-cases (Workers.get_worker owner id h.db)) [
  | inl (w, found) ↦ rw (found, handle_get_worker) refl
  | inr (x, missing) ↦ rw (missing, handle_get_worker) refl
]

serve-Reach :
    (first : Hub) (env : Env) (owner : ℕ) (call : Call) (h : Hub)
    → Reach first h
    → Reach first (serve env owner call h).1
unfolding serve handle_list_blocks_found handle_list_currencies handle_get_currency
    handle_list_wallets handle_list_miners handle_list_workers handle_list_join_codes
    handle_swarm_stats handle_list_payouts handle_list_settings handle_list_currency_settings
    handle_list_exchange_settings
serve-Reach first env owner list_currencies h r = r
serve-Reach first env owner (get_currency symbol) h r = r
serve-Reach first env owner list_wallets h r = r
serve-Reach first env owner (create_wallet req) h r = create_wallet-Reach first owner req h r
serve-Reach first env owner (delete_wallet id) h r = delete_wallet-Reach first owner id h r
serve-Reach first env owner list_miners h r = r
serve-Reach first env owner (create_miner req) h r =
    create_miner-Reach first env.net env.allow_simulated owner req h r
serve-Reach first env owner (get_miner id) h r =
    subst (Reach first) (sym (get_miner_reads owner id h)) r
serve-Reach first env owner (patch_miner id req) h r =
    patch_miner-Reach first env.net owner id req h r
serve-Reach first env owner (delete_miner id) h r = delete_miner-Reach first owner id h r
serve-Reach first env owner (start_miner id) h r = start_miner-Reach first env.writable owner id h r
serve-Reach first env owner (stop_miner id) h r = stop_miner-Reach first owner id h r
serve-Reach first env owner (miner_allocation id req) h r = allocation-Reach first owner id req h r
serve-Reach first env owner (miner_history id is_raw from to) h r =
    subst (Reach first) (sym (miner_history_reads owner id is_raw from to h)) r
serve-Reach first env owner (miner_metrics id limit) h r =
    subst (Reach first) (sym (miner_metrics_reads owner id limit h)) r
serve-Reach first env owner list_workers h r = r
serve-Reach first env owner (get_worker id) h r =
    subst (Reach first) (sym (get_worker_reads owner id h)) r
serve-Reach first env owner (revoke_worker id) h r = revoke_worker-Reach first owner id h r
serve-Reach first env owner (delete_worker id) h r = delete_worker-Reach first owner id h r
serve-Reach first env owner list_join_codes h r = r
serve-Reach first env owner (create_join_code bytes salt) h r =
    create_join_code-Reach first env.crypto owner bytes salt h r
serve-Reach first env owner (delete_join_code id) h r = delete_join_code-Reach first owner id h r
serve-Reach first env owner swarm_stats h r = r
serve-Reach first env owner (list_payouts currency limit offset) h r = r
serve-Reach first env owner list_blocks_found h r = r
serve-Reach first env owner list_settings h r = r
serve-Reach first env owner (put_setting key value) h r =
    put_setting-Reach first env.jsonb owner key value h r
serve-Reach first env owner list_currency_settings h r = r
serve-Reach first env owner (put_currency_setting symbol req) h r =
    put_currency_setting-Reach first env.net owner symbol req h r
serve-Reach first env owner list_exchange_settings h r = r
serve-Reach first env owner (put_exchange_setting exchange req) h r =
    put_exchange_setting-Reach first env.encrypt env.key_salt env.sub_text owner exchange req h r

join_info_reads :
    (crypto : Crypto) (public_url code : Text) (h : Hub)
    → (handle_join_info crypto public_url code h).1 ≡ h
unfolding handle_join_info
join_info_reads crypto public_url code h = ground arith

module _ (buckets : Buckets) (jwt : Jwt) (env : Env) where
  limited-Reach :
      (now owner : ℕ) (call : Call) (s : Server buckets jwt)
      → Reach s.hub (limited buckets jwt env now owner call s).1.hub
  unfolding limited
  limited-Reach now owner call s = elim (Bool-cases (allow_key buckets now owner s.authed_rl).0) [
    | inl free ↦ rw (free, limited) (serve-Reach s.hub env owner call s.hub start)
    | inr spent ↦ rw (spent, limited) start
  ]

  -- A request is a sequence of the system's steps.
  handle_request-Reach :
      (now : ℕ) (q : Request jwt) (s : Server buckets jwt)
      → Reach s.hub (handle_request buckets jwt env now q s).1.hub
  unfolding handle_request
  handle_request-Reach now healthz s = start
  handle_request-Reach now (enroll forwarded remote host bytes req) s =
      elim (Bool-cases
        (allow_key buckets now (env.ip_id (client_ip forwarded remote host)) s.enroll_rl).0) [
          | inl free ↦
              rw (free, handle_request)
                (enroll-Reach s.hub env.crypto env.public_url bytes req s.hub start)
          | inr spent ↦ rw (spent, handle_request) start
        ]
  handle_request-Reach now (join_info forwarded remote host code) s =
      elim (Bool-cases
        (allow_key buckets now (env.ip_id (client_ip forwarded remote host)) s.join_rl).0) [
          | inl free ↦
              rw (free, handle_request)
                (subst (Reach s.hub) (sym (join_info_reads env.crypto env.public_url code s.hub))
                  start)
          | inr spent ↦ rw (spent, handle_request) start
        ]
  handle_request-Reach now (authed header fetched call) s =
      elim (Option-cases (middleware jwt now fetched header s.auth).0) [
        | inl nobody ↦ rw (nobody, handle_request) start
        | inr (c, known) ↦ rw (known, handle_request) (limited-Reach now (env.sub_id c.sub) call _)
      ]

  -- Requests one after the other, each with the time at which it comes.
  abbrev pub run_requests : List (ℕ × Request jwt) → Server buckets jwt → Server buckets jwt
  run_requests [] s = s
  run_requests ((now, q) ∷ qs) s = run_requests qs (handle_request buckets jwt env now q s).1

  -- Whatever requests come, of whomever and in whatever order, with any path values and bodies: if the
  -- database is sound before, every job in it still pairs a miner and a worker of one owner
  -- afterwards, and no two miners and no two workers have one id.
  pub run_requests-IsSound :
      (qs : List (ℕ × Request jwt)) (s : Server buckets jwt)
      → IsSound s.hub.db
      → IsSound (run_requests qs s).hub.db
  run_requests-IsSound [] s a = a
  run_requests-IsSound ((now, q) ∷ qs) s a =
      let s' = (handle_request buckets jwt env now q s).1 in
      run_requests-IsSound qs s' (Reach-IsSound s.hub s'.hub a (handle_request-Reach now q s))
