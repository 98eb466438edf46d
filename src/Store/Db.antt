-- ===== src/Store/Db.antt =====
-- The state of the database: a list of rows for each table, the clock that `now()` reads, and the
-- source of fresh ids (`gen_random_uuid()`).
use money_miner.Base.{ℕ, suc, Option, none, some, List, ◌==◌, find, text_eq, Text}
use money_miner.Store.Types.{
  Result, ok, err, StoreError, Currency, Wallet, MinerRow, MinerRun, Worker, JoinCode, SwarmJob,
  Sample, Rollup, Payout, BlockFound, Setting, CurrencySetting, ExchangeSetting,
}

pub record Db : Type 0 where
  pub clock : ℕ
  pub fresh : ℕ
  pub currencies : List Currency
  pub wallets : List Wallet
  pub miners : List MinerRow
  pub runs : List MinerRun
  pub workers : List Worker
  pub codes : List JoinCode
  pub jobs : List SwarmJob
  pub samples : List Sample
  pub rollups : List Rollup
  pub payouts : List Payout
  pub blocks : List BlockFound
  pub settings : List Setting
  pub currency_settings : List CurrencySetting
  pub exchange_settings : List ExchangeSetting

-- A query that may change the tables. A failed statement leaves them as they were.
abbrev pub Query : Type 0 → Type 0
Query A = Db → Result A × Db

-- `notFoundIfEmpty`: the first row, or ErrNotFound where there is none.
abbrev pub one_row : {A : Type 0} → Option A → Result A
one_row none = err StoreError.not_found
one_row (some a) = ok a

-- `RowsAffected() == 0`
abbrev pub affected : ℕ → Result (Unit {0})
affected ℕ.zero = err StoreError.not_found
affected (suc _) = ok tt

abbrev pub currency_by_symbol : Text → Db → Option Currency
currency_by_symbol symbol db = find (λ c. text_eq c.symbol symbol) db.currencies

abbrev pub currency_by_id : ℕ → Db → Option Currency
currency_by_id id db = find (λ c. c.id == id) db.currencies
