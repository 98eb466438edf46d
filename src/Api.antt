-- ===== src/Api.antt =====
-- The HTTP handlers (money-miner-backend/internal/api). A handler gets the caller's subject, the
-- path values and the decoded body (`none` where decoding fails), and gives a response and the new
-- state of the hub, which holds the database and the published events.
pub mod Response
pub mod Query
pub mod Pool
pub mod Wallets
pub mod Miners
pub mod Workers
pub mod Settings
pub mod Public
