-- ===== src/Types.antt =====
-- types/: the price data that every source hands to the cache.
pub mod Morpher
