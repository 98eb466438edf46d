-- ===== src/System/Handlers.antt =====
-- The handlers of the API, the loops of the hub and the poller as steps of the system.
pub mod Control
pub mod Miners
pub mod Nodes
pub mod Accounts
pub mod Polling
pub mod Session
