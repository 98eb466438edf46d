-- ===== src/Api/Settings.antt =====
-- The handlers of payouts and settings (api/handlers.go).
pub mod Refined
use money_miner.Base.{
  ℕ, Option, none, some, List, [], ◌∷◌, ◌++◌, Bool, true, false, not, ◌&&◌, ltb, if◌then◌else◌,
  Text, to_upper, to_lower, trim_space, is_empty, length, map,
}
use money_miner.Store.Types.{ok, err, Payout, BlockFound, Setting, CurrencySetting, ExchangeSetting}
use money_miner.Store.Db.{Db}
use money_miner.Store.Catalog.{get_currency}
use money_miner.Store.Payouts.{list_payouts}
use money_miner.Store.Blocks.{list_blocks_found}
use money_miner.Store.Settings.{
  list_settings, put_setting, list_currency_settings, put_currency_setting, list_exchange_settings,
  put_exchange_setting,
}
use money_miner.Swarm.Hub.State.{Hub, with_db}
use money_miner.Wallet.{Class, Shape, match_string}
use money_miner.Api.Response.{Response, success, failure, ErrorCode, malformed, answer, answer_read}
use money_miner.Api.Query.{pagination}
use money_miner.Api.Pool.{Net, validate_pool_url}

unfoldable pub handle_list_payouts :
    (owner : ℕ) → (currency limit offset : Text) → Hub → Response (List Payout × ℕ) × Hub
handle_list_payouts owner currency limit offset h =
    let (n, k) = pagination limit offset in
    (success 200 (list_payouts owner (to_upper (trim_space currency)) n k h.db), h)

unfoldable pub handle_list_blocks_found : (owner : ℕ) → Hub → Response (List BlockFound × ℕ) × Hub
handle_list_blocks_found owner h =
    let items = list_blocks_found owner h.db in (success 200 (items, length items), h)

unfoldable pub handle_list_settings : (owner : ℕ) → Hub → Response (List Setting) × Hub
handle_list_settings owner h = answer_read (λ db. ok (list_settings owner db)) h

-- `[a-z0-9_.-]`
abbrev key_class : Class
key_class = (b'a', b'z') ∷ (b'0', b'9') ∷ (b'_', b'_') ∷ (b'.', b'.') ∷ (b'-', b'-') ∷ []

abbrev setting_key : Shape
setting_key = record { lead = []; body = key_class; lo = 1; hi = some 40 }

unfoldable pub setting_key_ok : Text → Bool
setting_key_ok key = match_string (setting_key ∷ []) key

-- `value` is the raw JSON of the body's value, empty where the body has none: nothing is then
-- written, and the handler ends without a status, which the server sends as 200.
unfoldable pub handle_put_setting :
    (jsonb : Text → Option Text)
    → (owner : ℕ) → (key : Text) → (value : Option Text) → Hub
    → Response (Unit {0}) × Hub
unfolding setting_key_ok
handle_put_setting jsonb owner key none h = (malformed, h)
handle_put_setting jsonb owner key (some value) h =
    if not (setting_key_ok key)
    then (malformed, h)
    else (if is_empty value
        then (success 200 tt, h)
        else (if ltb 8192 (length value)
            then (malformed, h)
            else answer 200 ErrorCode.no_code (put_setting jsonb owner key value) h))

unfoldable pub handle_list_currency_settings :
    (owner : ℕ) → Hub → Response (List CurrencySetting) × Hub
handle_list_currency_settings owner h = answer_read (λ db. ok (list_currency_settings owner db)) h

pub record CurrencySettingReq : Type 0 where
  pub pool_url : Text
  pub enabled : Option Bool
  pub custom_adapter : Text

abbrev pub enabled_or_true : Option Bool → Bool
enabled_or_true none = true
enabled_or_true (some b) = b

unfoldable pub handle_put_currency_setting :
    Net → (owner : ℕ) → Text → Option CurrencySettingReq → Hub → Response (Unit {0}) × Hub
handle_put_currency_setting net owner symbol body h = elim (get_currency (to_upper symbol) h.db) [
  | err _ ↦ (failure 400 ErrorCode.currency_unknown, h)
  | ok _ ↦ elim body [
    | none ↦ (malformed, h)
    | some req ↦
        if not (is_empty req.pool_url) && not (validate_pool_url net req.pool_url)
        then (failure 400 ErrorCode.pool_url_invalid, h)
        else (if ltb 8192 (length req.custom_adapter) then (malformed, h) else (
          success 200 tt,
          with_db
              (put_currency_setting owner (to_upper symbol) req.pool_url
                (enabled_or_true req.enabled) req.custom_adapter)
              h,
        ))
  ]
]

unfoldable pub handle_list_exchange_settings :
    (owner : ℕ) → Hub → Response (List ExchangeSetting) × Hub
handle_list_exchange_settings owner h = answer_read (λ db. ok (list_exchange_settings owner db)) h

unfoldable pub all_known : List Text → Db → Bool
all_known [] db = true
all_known (s ∷ ss) db = elim (get_currency s db) [ err _ ↦ false | ok _ ↦ all_known ss db ]

-- `encrypt` is pgcrypto's; the passphrase is the salt of the configuration and the owner's sub,
-- which `sub_text` writes.
unfoldable pub handle_put_exchange_setting :
    (encrypt : Text → Text → Text)
    → (key_salt : Text) → (sub_text : ℕ → Text) → (owner : ℕ) → Text
    → Option (List Text × Text)
    → Hub
    → Response (Unit {0}) × Hub
unfolding setting_key_ok all_known
handle_put_exchange_setting encrypt key_salt sub_text owner exchange body h =
    let name = to_lower (trim_space exchange) in
    if not (setting_key_ok name) then (malformed, h) else elim body [
      | none ↦ (malformed, h)
      | some (currencies, api_key) ↦
          let symbols = map (λ c. to_upper (trim_space c)) currencies in
          if not (all_known symbols h.db) then (failure 400 ErrorCode.currency_unknown, h) else (
            success 200 tt,
            with_db
                (put_exchange_setting encrypt owner name symbols api_key
                  (if is_empty api_key then [] else key_salt ++ b':' ∷ sub_text owner))
                h,
          )
    ]
