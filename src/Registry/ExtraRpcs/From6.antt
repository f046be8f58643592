-- ===== src/Registry/ExtraRpcs/From6.antt =====
-- constants/extraRpcs.js, lines 3655 to 3852: `ps` gives the texts of `privacyStatement`.
use pricefeeding.Prelude.{String, List, [], ◌∷◌, true, false}
use pricefeeding.Registry.Js.{Field, text, bool, end_fields, ◌∶◌, ◌⨾◌}
use pricefeeding.Registry.ExtraRpcs.{untracked, limited, tracked, chain, chain_and}

abbrev pub from_6 : (String → String) → List Field
from_6 ps =
    chain "6" (text "https://www.ethercluster.com/kotti" ∷ [])
    ∷ chain "61" (
        text "https://etc.mytokenpocket.vip"
        ∷ text "https://rpc.etcinscribe.com"
        ∷ text "https://etc.etcdesktop.com"
        ∷ untracked ps "https://besu-at.etc-network.info" "etcnetworkinfo"
        ∷ untracked ps "https://geth-at.etc-network.info" "etcnetworkinfo"
        ∷ tracked ps
            "https://services.tokenview.io/vipapi/nodeservice/etc?apikey=qVHq2o6jpaakcw3lRstl"
            "tokenview"
        ∷ untracked ps "https://etc.rivet.link" "rivet"
        ∷ limited ps "https://0xrpc.io/etc" "0xRPC"
        ∷ limited ps "wss://0xrpc.io/etc" "0xRPC"
        ∷ untracked ps "https://ethereum-classic-mainnet.gateway.tatum.io/" "tatum"
        ∷ [])
    ∷ chain "62" (text "https://www.ethercluster.com/morden" ∷ [])
    ∷ chain "63" (
        text "https://rpc.mordor.etccooperative.org"
        ∷ limited ps "https://geth-mordor.etc-network.info" "etcnetworkinfo"
        ∷ [])
    ∷ chain_and "64" ("websiteDead" ∶ bool true ⨾ "rpcWorking" ∶ bool false ⨾ end_fields) ([])
    ∷ chain_and "68" ("rpcWorking" ∶ bool false ⨾ end_fields) ([])
    ∷ chain "74" (text "https://idchain.one/rpc/" ∷ [])
    ∷ chain_and "76"
        ("rpcWorking" ∶ bool false
          ⨾ "possibleRebrand"
            ∶ text "It is now a Polkadot chain project renamed: Acuity being built on substrate"
          ⨾ end_fields)
        ([])
    ∷ chain "77" (text "https://sokol.poa.network" ∷ [])
    ∷ chain "78" (text "https://ethnode.primusmoney.com/mainnet" ∷ [])
    ∷ chain_and "80" ("rpcWorking" ∶ bool false ⨾ end_fields)
        (text "website:https://genechain.io/en/index.html" ∷ [])
    ∷ chain "86" (text "https://evm.gatenode.cc" ∷ [])
    ∷ chain "87" (
        untracked ps "https://rpc.novanetwork.io:9070" "restratagem"
        ∷ untracked ps "https://dev.rpc.novanetwork.io/" "restratagem"
        ∷ [])
    ∷ chain "90" (text "https://s0.garizon.net/rpc" ∷ [])
    ∷ chain "91" (text "https://s1.garizon.net/rpc" ∷ [])
    ∷ chain "92" (text "https://s2.garizon.net/rpc" ∷ [])
    ∷ chain "93" (text "https://s3.garizon.net/rpc" ∷ [])
    ∷ chain "96" (text "https://rpc.bitkubchain.io" ∷ text "wss://wss.bitkubchain.io" ∷ [])
    ∷ chain "99" (text "https://core.poanetwork.dev" ∷ [])
    ∷ chain_and "101" ("websiteDead" ∶ bool true ⨾ "rpcWorking" ∶ bool false ⨾ end_fields) ([])
    ∷ chain "111" (text "https://rpc.etherlite.org" ∷ [])
    ∷ chain "123" (text "https://rpc.fusespark.io" ∷ [])
    ∷ chain_and "124" ("rpcWorking" ∶ bool false ⨾ end_fields) ([])
    ∷ chain "126" (text "https://rpc.mainnet.oychain.io" ∷ text "https://rpc.oychain.io" ∷ [])
    ∷ chain_and "127" ("rpcWorking" ∶ bool false ⨾ end_fields) ([])
    ∷ chain "142" (text "https://rpc.prodax.io" ∷ [])
    ∷ chain "163" (text "https://node.mainnet.lightstreams.io" ∷ [])
    ∷ []

abbrev pub from_177 : (String → String) → List Field
from_177 ps =
    chain "177" (
      text "https://mainnet.hsk.xyz"
      ∷ untracked ps "https://hashkey.drpc.org" "drpc"
      ∷ untracked ps "wss://hashkey.drpc.org" "drpc"
      ∷ [])
    ∷ chain "169" (
        text "https://pacific-rpc.manta.network/http"
        ∷ untracked ps "https://1rpc.io/manta" "onerpc"
        ∷ text "https://manta-pacific-gascap.calderachain.xyz/http"
        ∷ text "https://www.tencentcloud-rpc.com/v2/manta/manta-rpc"
        ∷ text "https://r1.pacific.manta.systems/http"
        ∷ text "https://manta.nirvanalabs.xyz/mantapublic"
        ∷ text "https://manta-pacific.calderachain.xyz/http"
        ∷ text "wss://manta-pacific.calderachain.xyz/ws"
        ∷ untracked ps "https://manta-pacific.drpc.org" "drpc"
        ∷ untracked ps "wss://manta-pacific.drpc.org" "drpc"
        ∷ untracked ps "https://endpoints.omniatech.io/v1/manta-pacific/mainnet/public" "omnia"
        ∷ [])
    ∷ chain "186" (text "https://rpc.seelen.pro/" ∷ [])
    ∷ []
