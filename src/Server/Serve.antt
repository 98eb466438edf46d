-- ===== src/Server/Serve.antt =====
-- What the router does with a request (api/server.go).
use money_miner.Base.{ℕ, none, some, if◌then◌else◌}
use money_miner.Auth.{Jwt, middleware}
use money_miner.RateLimit.{Buckets, allow_key, client_ip}
use money_miner.Swarm.Hub.State.{Hub}
use money_miner.Api.Wallets.{
  handle_list_currencies, handle_get_currency, handle_list_wallets, handle_create_wallet,
  handle_delete_wallet,
}
use money_miner.Api.Miners.{
  handle_list_miners, handle_get_miner, handle_patch_miner, handle_delete_miner, handle_start_miner,
  handle_stop_miner, handle_miner_allocation, handle_miner_history, handle_miner_metrics,
}
use money_miner.Api.Miners.Create.{handle_create_miner}
use money_miner.Api.Workers.{
  handle_list_workers, handle_get_worker, handle_revoke_worker, handle_delete_worker,
  handle_list_join_codes, handle_create_join_code, handle_delete_join_code, handle_swarm_stats,
}
use money_miner.Api.Settings.{
  handle_list_payouts, handle_list_blocks_found, handle_list_settings, handle_put_setting,
  handle_list_currency_settings, handle_put_currency_setting, handle_list_exchange_settings,
  handle_put_exchange_setting,
}
use money_miner.Api.Public.{handle_enroll, handle_join_info}
use money_miner.Server.{
  Env, Call, Request, Server, answered, healthz, enroll, join_info, authed, list_currencies,
  get_currency, list_wallets, create_wallet, delete_wallet, list_miners, create_miner, get_miner,
  patch_miner, delete_miner, start_miner, stop_miner, miner_allocation, miner_history,
  miner_metrics, list_workers, get_worker, revoke_worker, delete_worker, list_join_codes,
  create_join_code, delete_join_code, swarm_stats, list_payouts, list_blocks_found, list_settings,
  put_setting, list_currency_settings, put_currency_setting, list_exchange_settings,
  put_exchange_setting,
}

-- An authenticated route, for the subject of the token.
unfoldable pub serve : Env → (owner : ℕ) → Call → Hub → ℕ × Hub
serve env owner list_currencies h = answered (handle_list_currencies h)
serve env owner (get_currency symbol) h = answered (handle_get_currency symbol h)
serve env owner list_wallets h = answered (handle_list_wallets owner h)
serve env owner (create_wallet req) h = answered (handle_create_wallet owner req h)
serve env owner (delete_wallet id) h = answered (handle_delete_wallet owner id h)
serve env owner list_miners h = answered (handle_list_miners owner h)
serve env owner (create_miner req) h =
    answered (handle_create_miner env.net env.allow_simulated owner req h)
serve env owner (get_miner id) h = answered (handle_get_miner owner id h)
serve env owner (patch_miner id req) h = answered (handle_patch_miner env.net owner id req h)
serve env owner (delete_miner id) h = answered (handle_delete_miner owner id h)
serve env owner (start_miner id) h = answered (handle_start_miner env.writable owner id h)
serve env owner (stop_miner id) h = answered (handle_stop_miner owner id h)
serve env owner (miner_allocation id req) h = answered (handle_miner_allocation owner id req h)
serve env owner (miner_history id is_raw from to) h =
    answered (handle_miner_history owner id is_raw from to h)
serve env owner (miner_metrics id limit) h = answered (handle_miner_metrics owner id limit h)
serve env owner list_workers h = answered (handle_list_workers owner h)
serve env owner (get_worker id) h = answered (handle_get_worker owner id h)
serve env owner (revoke_worker id) h = answered (handle_revoke_worker owner id h)
serve env owner (delete_worker id) h = answered (handle_delete_worker owner id h)
serve env owner list_join_codes h = answered (handle_list_join_codes owner h)
serve env owner (create_join_code bytes salt) h =
    answered (handle_create_join_code env.crypto owner bytes salt h)
serve env owner (delete_join_code id) h = answered (handle_delete_join_code owner id h)
serve env owner swarm_stats h = answered (handle_swarm_stats owner h)
serve env owner (list_payouts currency limit offset) h =
    answered (handle_list_payouts owner currency limit offset h)
serve env owner list_blocks_found h = answered (handle_list_blocks_found owner h)
serve env owner list_settings h = answered (handle_list_settings owner h)
serve env owner (put_setting key value) h =
    answered (handle_put_setting env.jsonb owner key value h)
serve env owner list_currency_settings h = answered (handle_list_currency_settings owner h)
serve env owner (put_currency_setting symbol req) h =
    answered (handle_put_currency_setting env.net owner symbol req h)
serve env owner list_exchange_settings h = answered (handle_list_exchange_settings owner h)
serve env owner (put_exchange_setting exchange req) h =
    answered
      (handle_put_exchange_setting env.encrypt env.key_salt env.sub_text owner exchange req h)

module _ (buckets : Buckets) (jwt : Jwt) (env : Env) where
  -- The limit of a subject is spent after the token is checked.
  unfoldable pub limited : (now owner : ℕ) → Call → Server buckets jwt → ℕ × Server buckets jwt
  unfolding serve
  limited now owner call s =
      let (free, rl) = allow_key buckets now owner s.authed_rl in
      if free
      then (let (status, h) = serve env owner call s.hub in
          (status, record s { hub = h; authed_rl = rl }))
      else (429, record s { authed_rl = rl })

  -- One request. `enroll` and `join_info` are limited by address; no other session redeems a code
  -- in the middle of an enrollment here.
  unfoldable pub handle_request :
      (now : ℕ) → Request jwt → Server buckets jwt → ℕ × Server buckets jwt
  unfolding limited
  handle_request now healthz s = (200, s)
  handle_request now (enroll forwarded remote host bytes req) s =
      let (free, rl) =
        allow_key buckets now (env.ip_id (client_ip forwarded remote host)) s.enroll_rl in
      if free
      then (let (status, h) =
            answered (handle_enroll env.crypto env.public_url (λ db. db) bytes req s.hub) in
          (status, record s { hub = h; enroll_rl = rl }))
      else (429, record s { enroll_rl = rl })
  handle_request now (join_info forwarded remote host code) s =
      let (free, rl) =
        allow_key buckets now (env.ip_id (client_ip forwarded remote host)) s.join_rl in
      if free
      then (let (status, h) = answered (handle_join_info env.crypto env.public_url code s.hub) in
          (status, record s { hub = h; join_rl = rl }))
      else (429, record s { join_rl = rl })
  handle_request now (authed header fetched call) s =
      let (claims, v) = middleware jwt now fetched header s.auth in
      elim claims [
        | none ↦ (401, record s { auth = v })
        | some c ↦ limited now (env.sub_id c.sub) call (record s { auth = v })
      ]
