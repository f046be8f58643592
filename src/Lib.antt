-- ===== src/Lib.antt =====
-- A feeder of prices: a cache of the prices that Chainlink and Pyth give, and a choice of the RPC
-- endpoints through which the prices of the chains are read.
--
-- The parts and how they interact. `PriceCache` (pricefeed/price_cache.go) keeps, for each network, the
-- prices by prefixed identifier (`chainlink:0x…`, `pyth:…`) and the list of the feeds; the monitors write
-- to it and readers look prices up. It estimates its size with pricefeed/price_size_estimator.go and
-- calls `prune` above 10 MB. The types of the prices and their conversion to satoshi are in
-- types/morpher.go. The networks and their endpoints come from constants/additionalChainRegistry, which
-- rpcscan/jsfilescan.go reads, and from a JSON file; rpcscan/rpcswitcher.go tests the endpoints, keeps a
-- client for each network and switches it. chainlink/client.go reads a feed through such a client, and
-- asks for a switch where the endpoint fails; pricefeed/chainlink_monitor.go does so for every feed and
-- writes the prices to the cache. The prices of Pyth come from a Hermes server: pyth/client.go asks for
-- them with retries, pyth/streaming.go reads a stream of events, and pyth/pythwebsocket.go keeps a
-- websocket alive; pricefeed/pyth_monitor.go writes them to a cache. main.go starts one of the two
-- services; shared/config.go reads the configuration of a vault.
--
-- Files and code:
--   Prelude        numbers, lists, finite maps (`Dict`, for Go's maps), texts as lists of bytes
--   Strconv        strconv.Itoa, strconv.ParseUint and big.Int.SetString as the program uses them
--   Strings        strings.TrimSpace and the replacements of regexp and strings, on the bytes of UTF-8
--   Types          types/morpher.go: `ChainlinkPrice`, `PythPrice`, `PriceInfo`, GetPriceInSatoshi
--   Pricefeed      pricefeed/price_cache.go, pricefeed/legacy.go, pricefeed/price_size_estimator.go:
--                  PriceCache (state and reads), Sizes, Prune, Update (UpdatePrice, the old format);
--                  CacheManager (`PriceCacheManager`);
--                  pricefeed/chainlink_monitor.go: Monitor; pricefeed/pyth_monitor.go: PythMonitor;
--                  Ticker: the loop of their Start
--   Pyth           pyth/client.go: Hermes (httpRequest), Url (url.Parse, url.Query),
--                  Requests (the URLs that are asked for); pyth/streaming.go:
--                  EventSource; pyth/pythwebsocket.go: WebSocket (state and methods, Messages, and
--                  Goroutines: readMessages and handleReconnect)
--   Shared         shared/types.go, shared/config.go: LoadYamlConf
--   Main           main.go: the choice of the service, and the loops of its two start functions
--   Chainlink      chainlink/client.go: FetchPriceData and its retries
--   Registry       constants/additionalChainRegistry: the object literal of each file (Chains);
--                  constants/extraRpcs.js (ExtraRpcs), constants/llamaNodesRpcs.js (LlamaNodes),
--                  constants/chainIds.js, walletIcons.js and hypelab.js (Tables)
--   Rpcscan        rpcscan/jsfilescan.go (JsFileScan, Unmarshal, JsText) and rpcscan/rpcswitcher.go (RpcSwitcher;
--                  Monitor: the search by goroutines and the round of the monitor);
--                  rpcscan/config.go (Config, NetworkConfig) and rpcscan/pricefeed_config.go (FeedManager)
--   Tests          runs on concrete inputs
-- A method `FooBar` of the code is the function `foo_bar` on the state that it reads and writes.
--
-- Numbers: an int64 size is the number of its 64 bits, with the wrap-around of `+` and `-` written out;
-- a big.Int is an integer (`ℤ`), and a nil pointer is `none`. A time is the number of nanoseconds since
-- the zero time. The digits of a number are made with fuel: `n + 1` rounds, since each divides by 10.
-- A retry of FetchPriceData takes one of the fuel, which is one more than the number of retries.
-- A Go map is a list of pairs, and the order in which the code ranges over it is the order of the list.
--
-- httpRequest recurs on the number of retries that are left. LoadYamlConf has no bound on its tries: its
-- fuel is their number, and a try that succeeds is one that is enough. The wait for clients in main.go
-- takes one of the fuel for each look, and ends after ten of them. An outage of the websocket has no
-- fuel: what comes in the end is stated by `Eventually`, over every order of the moves.
--
-- Goroutines: the tests of a network's endpoints are a step relation on what they have sent and what is
-- received (`Step` of Rpcscan.Monitor); the goroutines of a round of the Chainlink monitor are taken one
-- after the other, in any order. The goroutines of a websocket client stand at places of their code
-- (`Pc`), between which they hold no lock; a `Step` moves one of them, and an `Event` is a move or a
-- call of a method. The writes and prunings of calls of UpdatePrice come in any order (`Part`). The loop of
-- a monitor meets a list of ticks and stops (`Signal`).
--
-- Taken as arguments: what the packages rpc and ethclient answer (`Network`), what the contracts answer
-- (`Contract`), which endpoints time out (`late`), the estimators that were registered, the constant
-- SatoshiScale, and the clock; what a Hermes server answers to each attempt (`Reply`), what a websocket
-- is dialled to and gives (`Outcome`), the bytes of a stream, the decoding of JSON, the random part of the
-- first wait; the file system and the package yaml (`Files`); what encoding/json makes of the rewritten
-- text of a chain registry file (`decode`).
--
-- Not modelled: HTTP, TLS and the framing of websockets; encoding/json and yaml below their decoded
-- values: that the rewritten texts of the JavaScript files (JsText) decode to their object literals
-- (Registry) is a hypothesis where a theorem needs it; a base URL that url.Parse refuses; how url.Values are encoded; the state of the locks, each of which is
-- held for a step; signals and flags; printing and logging. The conversions of names in pyth/types.go
-- (camelToSnakeCase) are called by nothing. Of constants/extraRpcs.js the chains up to line 3852 are
-- written out, and the others, which are data of the same kind, are not; the texts of its
-- `privacyStatement` are an argument, and so would be mergeDeep, which is not in the repository.
pub mod Prelude
pub mod Strconv
pub mod Strings
pub mod Types
pub mod Pricefeed
pub mod Pyth
pub mod Shared
pub mod Main
pub mod Rpcscan
pub mod Chainlink
pub mod Registry
pub mod Tests
