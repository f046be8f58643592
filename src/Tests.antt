-- ===== src/Tests.antt =====
-- Runs of the model on concrete inputs, and the theorems at inputs where their hypotheses hold.
mod CacheTests
mod RpcTests
mod PythTests
mod ConfigTests
mod SearchTests
mod ChainlinkTests
mod TextTests
mod StreamTests
mod SocketTests
mod ServiceTests
mod TableTests
