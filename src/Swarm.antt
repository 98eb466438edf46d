-- ===== src/Swarm.antt =====
-- Enrollment and the worker control channel (money-miner-backend/internal/swarm).
pub mod Code
pub mod Codes
pub mod Hub
