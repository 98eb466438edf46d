-- ===== src/Api/Wallets.antt =====
-- The handlers of currencies and wallets (api/handlers.go).
use money_miner.Base.{ℕ, Option, none, some, List, Text, to_upper, trim_space, Bool, true, false}
use money_miner.Store.Types.{ok, err, Currency, Wallet}
use money_miner.Store.Catalog.{
  list_currencies, get_currency, list_wallets, create_wallet, delete_wallet,
}
use money_miner.Swarm.Hub.State.{Hub}
use money_miner.Wallet.{Verdict, validate}
use money_miner.Api.Response.{Response, failure, ErrorCode, malformed, answer, answer_read}

unfoldable pub handle_list_currencies : Hub → Response (List Currency) × Hub
handle_list_currencies h = answer_read (λ db. ok (list_currencies db)) h

unfoldable pub handle_get_currency : Text → Hub → Response Currency × Hub
handle_get_currency symbol h = answer_read (get_currency (to_upper symbol)) h

unfoldable pub handle_list_wallets : (owner : ℕ) → Hub → Response (List Wallet) × Hub
handle_list_wallets owner h = answer_read (λ db. ok (list_wallets owner db)) h

pub record CreateWalletReq : Type 0 where
  pub currency : Text
  pub address : Text
  pub label : Text

abbrev pub is_valid : Verdict → Bool
is_valid Verdict.valid = true
is_valid _ = false

-- The address is checked as it is sent, and stored trimmed.
unfoldable pub handle_create_wallet :
    (owner : ℕ) → Option CreateWalletReq → Hub → Response Wallet × Hub
handle_create_wallet owner none h = (malformed, h)
handle_create_wallet owner (some req) h =
    let symbol = to_upper (trim_space req.currency) in
    elim (get_currency symbol h.db) [
      | err _ ↦ (failure 400 ErrorCode.currency_unknown, h)
      | ok _ ↦ elim (is_valid (validate symbol req.address)) [
        | false ↦ (failure 400 ErrorCode.wallet_invalid, h)
        | true ↦
            answer 201 ErrorCode.wallet_exists
              (create_wallet owner symbol (trim_space req.address) req.label true) h
      ]
    ]

unfoldable pub handle_delete_wallet : (owner id : ℕ) → Hub → Response (Unit {0}) × Hub
handle_delete_wallet owner id h = answer 204 ErrorCode.no_code (delete_wallet owner id) h
