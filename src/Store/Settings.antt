-- ===== src/Store/Settings.antt =====
-- Settings of a user: key and value pairs, overrides for a currency, exchanges (store.go).
use money_miner.Base.{
  ℕ, Bool, Option, none, some, List, [], ◌∷◌, ◌==◌, ◌&&◌, if◌then◌else◌, select, text_eq, Text,
  is_empty, not,
}
use money_miner.Store.Types.{ok, err, StoreError, Setting, CurrencySetting, ExchangeSetting}
use money_miner.Store.Db.{Db, Query, currency_by_symbol}

unfoldable pub list_settings : ℕ → Db → List Setting
list_settings owner db = select (λ s. s.owner == owner) db.settings

-- `INSERT … ON CONFLICT (owner_sub, key) DO UPDATE`
unfoldable pub upsert_setting : Setting → List Setting → List Setting
upsert_setting s [] = s ∷ []
upsert_setting s (q ∷ qs) =
    if q.owner == s.owner && text_eq q.key s.key then s ∷ qs else q ∷ upsert_setting s qs

-- `jsonb` is what PostgreSQL's type jsonb makes of a value: the text that it gives back, or none where
-- it refuses the value.
unfoldable pub put_setting : (jsonb : Text → Option Text) → ℕ → Text → Text → Query (Unit {0})
unfolding upsert_setting
put_setting jsonb owner key value db = elim (jsonb value) [
  | none ↦ (err StoreError.failed, db)
  | some v ↦ (
    ok tt,
    record db {
      settings = upsert_setting (record { owner = owner; key = key; value = v }) db.settings;
    },
  )
]

unfoldable pub list_currency_settings : ℕ → Db → List CurrencySetting
list_currency_settings owner db = select (λ s. s.owner == owner) db.currency_settings

unfoldable upsert_currency_setting : CurrencySetting → List CurrencySetting → List CurrencySetting
upsert_currency_setting s [] = s ∷ []
upsert_currency_setting s (q ∷ qs) =
    if q.owner == s.owner && q.currency == s.currency
    then s ∷ qs
    else q ∷ upsert_currency_setting s qs

-- A symbol that is not in the catalog writes nothing, and is no error.
unfoldable pub put_currency_setting : ℕ → Text → Text → Bool → Text → Db → Db
unfolding upsert_currency_setting
put_currency_setting owner symbol pool_url enabled custom db = elim (currency_by_symbol symbol db) [
  | none ↦ db
  | some c ↦ record db {
    currency_settings =
        upsert_currency_setting
          (record {
            owner = owner;
            currency = c.id;
            pool_url = pool_url;
            enabled = enabled;
            custom_adapter = custom;
          })
          db.currency_settings;
  }
]

unfoldable pub list_exchange_settings : ℕ → Db → List ExchangeSetting
list_exchange_settings owner db = select (λ s. s.owner == owner) db.exchange_settings

-- Without a new key the row keeps the key that it has.
unfoldable upsert_exchange_setting :
    ℕ → Text → List Text → Option Text → List ExchangeSetting → List ExchangeSetting
upsert_exchange_setting owner exchange currencies key [] =
    record { owner = owner; exchange = exchange; currencies = currencies; api_key = key } ∷ []
upsert_exchange_setting owner exchange currencies key (q ∷ qs) =
    let kept : Option Text = elim key [ none ↦ q.api_key | some k ↦ some k ] in
    if q.owner == owner && text_eq q.exchange exchange
    then record q { currencies = currencies; api_key = kept } ∷ qs
    else q ∷ upsert_exchange_setting owner exchange currencies key qs

-- `encrypt` is pgcrypto's pgp_sym_encrypt: the key, then the passphrase.
unfoldable pub put_exchange_setting :
    (encrypt : Text → Text → Text) → ℕ → Text → List Text → Text → Text → Db → Db
unfolding upsert_exchange_setting
put_exchange_setting encrypt owner exchange currencies api_key passphrase db =
    let key : Option Text =
      if not (is_empty api_key) && not (is_empty passphrase)
      then some (encrypt api_key passphrase)
      else none in
    record db {
      exchange_settings =
          upsert_exchange_setting owner exchange currencies key db.exchange_settings;
    }
