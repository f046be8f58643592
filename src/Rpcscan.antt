-- ===== src/Rpcscan.antt =====
-- rpcscan/: the chain registry reader, the endpoint switcher and the configuration.
pub mod Types
pub mod Unmarshal
pub mod JsText
pub mod JsFileScan
pub mod RpcSwitcher
pub mod Monitor
pub mod Config
pub mod NetworkConfig
pub mod FeedManager
