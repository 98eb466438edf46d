-- ===== src/Api/Miners/Create.antt =====
-- Creating a miner (`handleCreateMiner` of api/handlers.go): what is checked before the row is made.
pub mod Checks
use money_miner.Base.{
  ℕ, Option, none, some, List, [], ◌∷◌, Bool, true, false, not, ◌&&◌, ◌||◌, ◌==◌, ltb,
  if◌then◌else◌, Text, text_eq, codes, to_upper, trim_space, is_empty, length, find,
}
use money_miner.Base.Int.{ℤ, pos, negsuc, pos_part}
use money_miner.Store.Types.{ok, err, Currency, CurrencySetting, EngineKind, Miner, Strategy}
use money_miner.Store.Db.{Db, currency_by_id}
use money_miner.Store.Catalog.{get_currency}
use money_miner.Store.Miners.{CreateMinerParams, create_miner}
use money_miner.Store.Settings.{list_currency_settings}
use money_miner.Swarm.Hub.State.{Hub}
use money_miner.Api.Response.{
  Response, failure, ErrorCode, malformed, answer, Checked, refuse, accept,
}
use money_miner.Api.Query.{in_range}
use money_miner.Api.Pool.{Net, validate_pool_url, parse_pools, first_url}
use money_miner.Api.Miners.{wallet_known}

pub record CreateMinerReq : Type 0 where
  pub name : Text
  pub currency : Text
  pub wallet_id : Option ℕ
  pub pool_url : Text
  pub engine : Text
  pub cpu_pct : ℤ
  pub gpu_pct : ℤ

abbrev pub is_deferred : Strategy → Bool
is_deferred Strategy.deferred = true
is_deferred _ = false

-- The engine resolution: an empty name is the adapter.
unfoldable pub engine_for : (allow_simulated : Bool) → Text → Checked EngineKind
engine_for allow_simulated name =
    if is_empty name || text_eq name (codes "adapter")
    then accept EngineKind.adapter
    else (if text_eq name (codes "native-go")
        then refuse ErrorCode.engine_unavailable
        else (if text_eq name (codes "simulated")
            then (if allow_simulated
                then accept EngineKind.simulated
                else refuse ErrorCode.simulated_disabled)
            else refuse ErrorCode.bad_request))

abbrev has_symbol : Db → Text → CurrencySetting → Bool
has_symbol db symbol s = elim (currency_by_id s.currency db) [
  | none ↦ false
  | some c ↦ text_eq c.symbol symbol
]

-- `currencySettingFor`
unfoldable currency_setting_for : (owner : ℕ) → Text → Db → Option CurrencySetting
currency_setting_for owner symbol db = find (has_symbol db symbol) (list_currency_settings owner db)

abbrev override_url : Option CurrencySetting → Text
override_url none = []
override_url (some s) = s.pool_url

-- Explicit, then the user's override, then the first seeded pool; empty where there is none.
unfoldable pub pool_url_for : (owner : ℕ) → Text → Currency → Db → Text
unfolding currency_setting_for
pool_url_for owner explicit cur db =
    let url = override_url (currency_setting_for owner cur.symbol db) in
    if not (is_empty explicit)
    then explicit
    else (if not (is_empty url) then url else first_url (parse_pools cur.pools))

-- An absent share of the processor is a half.
abbrev pub cpu_or_half : ℤ → ℤ
cpu_or_half (pos n) = if n == 0 then pos 50 else pos n
cpu_or_half (negsuc n) = negsuc n

module _ (net : Net) (allow_simulated : Bool) (owner : ℕ) where
  -- The checks that come after the currency and the engine.
  unfoldable pub check_rest :
      CreateMinerReq → Currency → EngineKind → Db → Checked CreateMinerParams
  check_rest req cur engine db =
      let url = pool_url_for owner (trim_space req.pool_url) cur db in
      let cpu = cpu_or_half req.cpu_pct in
      if is_empty url
      then refuse ErrorCode.pool_required
      else (if not (validate_pool_url net url)
          then refuse ErrorCode.pool_url_invalid
          else (if not (wallet_known owner req.wallet_id db)
              then refuse ErrorCode.wallet_unknown
              else (if not (in_range 1 100 cpu && in_range 0 100 req.gpu_pct)
                  then refuse ErrorCode.bad_request
                  else accept (record {
                    owner = owner;
                    name = trim_space req.name;
                    currency = cur.symbol;
                    wallet_id = req.wallet_id;
                    engine = engine;
                    pool_url = url;
                    cpu_pct = pos_part cpu;
                    gpu_pct = pos_part req.gpu_pct;
                  }))))

  unfoldable pub check_create : CreateMinerReq → Db → Checked CreateMinerParams
  unfolding check_rest engine_for
  check_create req db =
      if is_empty (trim_space req.name) || ltb 80 (length (trim_space req.name))
      then refuse ErrorCode.bad_request
      else elim (get_currency (to_upper (trim_space req.currency)) db) [
        | err _ ↦ refuse ErrorCode.currency_unknown
        | ok cur ↦
            if not cur.enabled || is_deferred cur.strategy
            then refuse ErrorCode.currency_deferred
            else elim (engine_for allow_simulated req.engine) [
              | refuse code ↦ refuse code
              | accept engine ↦ check_rest req cur engine db
            ]
      ]

  unfoldable pub handle_create_miner : Option CreateMinerReq → Hub → Response Miner × Hub
  unfolding check_create
  handle_create_miner none h = (malformed, h)
  handle_create_miner (some req) h = elim (check_create req h.db) [
    | refuse code ↦ (failure 400 code, h)
    | accept p ↦ answer 201 ErrorCode.no_code (create_miner p) h
  ]
