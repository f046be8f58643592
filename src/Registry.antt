-- ===== src/Registry.antt =====
-- constants/additionalChainRegistry and its reader, rpcscan/jsfilescan.go.
pub mod Js
pub mod ExtraRpcs
pub mod Tables
pub mod LlamaNodes
pub mod Chains
