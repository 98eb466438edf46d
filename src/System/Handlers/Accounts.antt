-- ===== src/System/Handlers/Accounts.antt =====
-- The handlers of wallets, join codes and settings as steps (api/handlers.go).
use money_miner.Base.{
  ℕ, true, not, ◌&&◌, Option, none, some, List, Text, to_upper, to_lower, trim_space, is_empty, ltb,
  length, map, Bool-cases, inl, inr, ◌++◌, ◌∷◌, [], if◌then◌else◌,
}
use money_miner.Store.Types.{Result-cases}
use money_miner.Store.Catalog.{get_currency}
use money_miner.Swarm.Hub.State.{Hub}
use money_miner.Swarm.Codes.{Crypto, create, revoke}
use money_miner.Wallet.{validate}
use money_miner.Api.Pool.{Net, validate_pool_url}
use money_miner.Api.Wallets.{CreateWalletReq, is_valid, handle_create_wallet, handle_delete_wallet}
use money_miner.Api.Workers.{handle_create_join_code, handle_delete_join_code}
use money_miner.Api.Settings.{
  setting_key_ok, CurrencySettingReq, enabled_or_true, all_known, handle_put_setting,
  handle_put_currency_setting, handle_put_exchange_setting,
}
use money_miner.System.{
  Reach, next, run_op, queries, new_wallet, drop_wallet, new_code, drop_code, setting,
  currency_setting, exchange_setting,
}
use money_miner.System.Handlers.Nodes.{Outcome-cases}

module _ (first : Hub) where
  pub create_wallet-Reach :
      (owner : ℕ) (req : Option CreateWalletReq) (h : Hub)
      → Reach first h
      → Reach first (handle_create_wallet owner req h).1
  unfolding handle_create_wallet run_op
  create_wallet-Reach owner none h r = r
  create_wallet-Reach owner (some req) h r =
      let symbol = to_upper (trim_space req.currency) in
      elim (Result-cases (get_currency symbol h.db)) [
        | inr (x, unknown) ↦ rw (unknown, handle_create_wallet) r
        | inl (c, known) ↦ elim (Bool-cases (is_valid (validate symbol req.address))) [
          | inr bad ↦ rw (known, bad, handle_create_wallet) r
          | inl fine ↦
              rw (known, fine, handle_create_wallet)
                (next r (queries (new_wallet owner symbol (trim_space req.address) req.label true)))
        ]
      ]

  pub delete_wallet-Reach :
      (owner id : ℕ) (h : Hub) → Reach first h → Reach first (handle_delete_wallet owner id h).1
  unfolding handle_delete_wallet run_op
  delete_wallet-Reach owner id h r = next r (queries (drop_wallet owner id))

  pub create_join_code-Reach :
      (crypto : Crypto) (owner : ℕ) (bytes : Option (List ℕ)) (salt : ℕ) (h : Hub)
      → Reach first h
      → Reach first (handle_create_join_code crypto owner bytes salt h).1
  unfolding handle_create_join_code run_op
  create_join_code-Reach crypto owner bytes salt h r =
      let stored = next r (queries (new_code crypto owner bytes salt)) in
      elim (Outcome-cases (create crypto owner bytes salt h.db).0) [
        | inl (e, did) ↦ rw (did, handle_create_join_code) stored
        | inr (inl bad) ↦ rw (bad, handle_create_join_code) stored
        | inr (inr (inl bad)) ↦ rw (bad, handle_create_join_code) stored
        | inr (inr (inr bad)) ↦ rw (bad, handle_create_join_code) stored
      ]

  pub delete_join_code-Reach :
      (owner id : ℕ) (h : Hub) → Reach first h → Reach first (handle_delete_join_code owner id h).1
  unfolding handle_delete_join_code run_op
  delete_join_code-Reach owner id h r =
      let stored = next r (queries (drop_code owner id)) in
      elim (Outcome-cases (revoke owner id h.db).0) [
        | inl (e, did) ↦ rw (did, handle_delete_join_code) stored
        | inr (inl bad) ↦ rw (bad, handle_delete_join_code) stored
        | inr (inr (inl bad)) ↦ rw (bad, handle_delete_join_code) stored
        | inr (inr (inr bad)) ↦ rw (bad, handle_delete_join_code) stored
      ]

  pub put_setting-Reach :
      (jsonb : Text → Option Text) (owner : ℕ) (key : Text) (value : Option Text) (h : Hub)
      → Reach first h
      → Reach first (handle_put_setting jsonb owner key value h).1
  unfolding handle_put_setting run_op
  put_setting-Reach jsonb owner key none h r = r
  put_setting-Reach jsonb owner key (some value) h r = elim (Bool-cases (setting_key_ok key)) [
    | inr bad ↦ rw (bad, handle_put_setting) r
    | inl fine ↦ elim (Bool-cases (is_empty value)) [
      | inl nothing ↦ rw (fine, nothing, handle_put_setting) r
      | inr something ↦ elim (Bool-cases (ltb 8192 (length value))) [
        | inl long ↦ rw (fine, something, long, handle_put_setting) r
        | inr short ↦
            rw (fine, something, short, handle_put_setting)
              (next r (queries (setting jsonb owner key value)))
      ]
    ]
  ]

  pub put_currency_setting-Reach :
      (net : Net) (owner : ℕ) (symbol : Text) (body : Option CurrencySettingReq) (h : Hub)
      → Reach first h
      → Reach first (handle_put_currency_setting net owner symbol body h).1
  unfolding handle_put_currency_setting run_op
  put_currency_setting-Reach net owner symbol none h r =
      elim (Result-cases (get_currency (to_upper symbol) h.db)) [
        | inr (x, unknown) ↦ rw (unknown, handle_put_currency_setting) r
        | inl (c, known) ↦ rw (known, handle_put_currency_setting) r
      ]
  put_currency_setting-Reach net owner symbol (some req) h r =
      elim (Result-cases (get_currency (to_upper symbol) h.db)) [
        | inr (x, unknown) ↦ rw (unknown, handle_put_currency_setting) r
        | inl (c, known) ↦
            elim (Bool-cases
              (not (is_empty req.pool_url) && not (validate_pool_url net req.pool_url))) [
                | inl bad ↦ rw (known, bad, handle_put_currency_setting) r
                | inr fine ↦ elim (Bool-cases (ltb 8192 (length req.custom_adapter))) [
                  | inl long ↦ rw (known, fine, long, handle_put_currency_setting) r
                  | inr short ↦
                      rw (known, fine, short, handle_put_currency_setting)
                        (next r (
                          queries (
                            currency_setting owner (to_upper symbol) req.pool_url
                              (enabled_or_true req.enabled) req.custom_adapter)))
                ]
              ]
      ]

  pub put_exchange_setting-Reach :
      (encrypt : Text → Text → Text) (salt : Text) (sub_text : ℕ → Text) (owner : ℕ)
      (exchange : Text) (body : Option (List Text × Text)) (h : Hub)
      → Reach first h
      → Reach first (handle_put_exchange_setting encrypt salt sub_text owner exchange body h).1
  unfolding handle_put_exchange_setting run_op
  put_exchange_setting-Reach encrypt salt sub_text owner exchange none h r =
      elim (Bool-cases (setting_key_ok (to_lower (trim_space exchange)))) [
        | inr bad ↦ rw (bad, handle_put_exchange_setting) r
        | inl fine ↦ rw (fine, handle_put_exchange_setting) r
      ]
  put_exchange_setting-Reach encrypt salt sub_text owner exchange (some (currencies, api_key)) h r =
      elim (Bool-cases (setting_key_ok (to_lower (trim_space exchange)))) [
        | inr bad ↦ rw (bad, handle_put_exchange_setting) r
        | inl fine ↦
            elim (Bool-cases (all_known (map (λ c. to_upper (trim_space c)) currencies) h.db)) [
              | inr unknown ↦ rw (fine, unknown, handle_put_exchange_setting) r
              | inl known ↦
                  rw (fine, known, handle_put_exchange_setting)
                    (next r (
                      queries (
                        exchange_setting encrypt owner (to_lower (trim_space exchange))
                          (map (λ c. to_upper (trim_space c)) currencies) api_key
                          (if is_empty api_key then [] else salt ++ b':' ∷ sub_text owner))))
            ]
      ]
