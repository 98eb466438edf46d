-- ===== src/Store.antt =====
-- The Postgres access layer (money-miner-backend/internal/store/store.go): the tables, and one
-- function for each query. `now()` is the clock of the database state.
pub mod Types
pub mod Db
pub mod Catalog
pub mod Miners
pub mod Runs
pub mod Metrics
pub mod Payouts
pub mod Settings
pub mod Workers
pub mod Blocks
pub mod Isolation
pub mod Rollup
pub mod Ledger
pub mod Lifecycle
