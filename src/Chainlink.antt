-- ===== src/Chainlink.antt =====
-- The package chainlink: the reading of a price feed from its contract.
pub mod Client
