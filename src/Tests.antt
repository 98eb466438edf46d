-- ===== src/Tests.antt =====
-- Concrete states, runs of the code on them, and each theorem applied at one of them.
mod Fixtures
mod StoreTests
mod CodeTests
mod HubTests
mod WalletTests
mod ApiTests
mod PollerTests
mod AuthTests
mod SystemTests
mod StratumTests
mod BootTests
