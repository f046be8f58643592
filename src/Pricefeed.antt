-- ===== src/Pricefeed.antt =====
-- pricefeed/: the cache of prices, and the monitors.
pub mod Sizes
pub mod PriceCache
pub mod Feeds
pub mod Prune
pub mod Update
pub mod CacheManager
pub mod Ticker
pub mod Monitor
pub mod PythMonitor
