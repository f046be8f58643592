-- ===== src/Registry/ExtraRpcs/From1.antt =====
-- constants/extraRpcs.js, lines 220 to 843: `ps` gives the texts of `privacyStatement`.
use pricefeeding.Prelude.{String, List, [], ◌∷◌, ◌++◌}
use pricefeeding.Registry.Js.{Field, JsValue, text, object, end_fields, ◌∶◌, ◌⨾◌}
use pricefeeding.Registry.ExtraRpcs.{untracked, limited, tracked, chain}

abbrev pub rpcs_1_a : (String → String) → List JsValue
rpcs_1_a ps =
    untracked ps "https://go.getblock.io/YOUR_GETBLOCK_API_KEY" "getblock"
    ∷ tracked ps "https://eth-mainnet.nodereal.io/v1/YOUR_NODEREAL_API_KEY" "nodereal"
    ∷ untracked ps "https://ethereum-rpc.publicnode.com" "publicnode"
    ∷ untracked ps "wss://ethereum-rpc.publicnode.com" "publicnode"
    ∷ untracked ps "https://1rpc.io/eth" "onerpc"
    ∷ untracked ps "https://rpc.builder0x69.io/" "builder0x69"
    ∷ untracked ps "https://rpc.mevblocker.io" "MEVBlockerRPC"
    ∷ untracked ps "https://rpc.flashbots.net/" "flashbots"
    ∷ tracked ps "https://virginia.rpc.blxrbdn.com/" "bloxroute"
    ∷ tracked ps "https://uk.rpc.blxrbdn.com/" "bloxroute"
    ∷ tracked ps "https://singapore.rpc.blxrbdn.com/" "bloxroute"
    ∷ tracked ps "https://eth.rpc.blxrbdn.com/" "bloxroute"
    ∷ tracked ps "https://cloudflare-eth.com/" "cloudflare"
    ∷ limited ps "https://eth-mainnet.public.blastapi.io" "blastapi"
    ∷ object
        ("url" ∶ text "https://api.securerpc.com/v1" ⨾ "tracking" ∶ text "unspecified" ⨾ end_fields)
    ∷ tracked ps
        "https://openapi.bitstack.com/v1/wNFxbiJyQsSeLrX8RRCHi7NpRxrlErZk/DjShIqLishPCTB9HiMkPHXjUM9CNM9Na/ETH/mainnet"
        "bitstack"
    ∷ limited ps "https://ethereum-public.nodies.app" "nodies"
    ∷ limited ps "https://eth-mainnet-public.unifra.io" "unifra"
    ∷ limited ps "https://ethereum.public.blockpi.network/v1/rpc/public" "blockpi"
    ∷ untracked ps "https://rpc.payload.de" "payload"
    ∷ untracked ps "https://api.zmok.io/mainnet/oaen6dy8ff6hju9k" "zmok"
    ∷ tracked ps "https://eth-mainnet.g.alchemy.com/v2/demo" "alchemy"
    ∷ tracked ps "https://core.gashawk.io/rpc" "gashawk"
    ∷ text "https://mainnet.eth.cloud.ava.do/"
    ∷ text "https://ethereumnodelight.app.runonflux.io"
    ∷ text
        "https://eth-mainnet.rpcfast.com?api_key=xbhWBI1Wkguk8SNMu1bvvLurPGLXmgwYeC4S6g2H7WdwFigZSmPWVZRxrskEQwIf"
    ∷ text "https://main-light.eth.linkpool.io"
    ∷ tracked ps "https://rpc.eth.gateway.fm" "gateway"
    ∷ tracked ps "https://rpc.chain49.com/ethereum?api_key=14d1a8b86d8a4b4797938332394203dc"
        "chain49"
    ∷ []

abbrev pub rpcs_1_b : (String → String) → List JsValue
rpcs_1_b ps =
    untracked ps "https://eth.meowrpc.com" "meowrpc"
    ∷ untracked ps "https://eth.drpc.org" "drpc"
    ∷ tracked ps "https://mainnet.gateway.tenderly.co" "tenderly"
    ∷ tracked ps "https://virtual.mainnet.rpc.tenderly.co/7355b215-ef17-4e3e-8f64-d494284ef18a"
        "tenderly"
    ∷ tracked ps "https://virtual.mainnet.rpc.tenderly.co/5804dcf7-70e6-4988-b2b0-3672193e0c91"
        "tenderly"
    ∷ tracked ps "https://gateway.tenderly.co/public/mainnet" "tenderly"
    ∷ limited ps "https://api.zan.top/eth-mainnet" "zan"
    ∷ limited ps "https://eth-mainnet.diamondswap.org/rpc" "diamondswap"
    ∷ text "https://rpc.notadegen.com/eth"
    ∷ untracked ps "https://eth.merkle.io" "merkle"
    ∷ untracked ps "https://rpc.lokibuilder.xyz/wallet" "lokibuilder"
    ∷ tracked ps "https://services.tokenview.io/vipapi/nodeservice/eth?apikey=qVHq2o6jpaakcw3lRstl"
        "tokenview"
    ∷ tracked ps "https://eth.nodeconnect.org/" "nodeconnect"
    ∷ untracked ps "https://api.stateless.solutions/ethereum/v1/demo" "stateless"
    ∷ untracked ps "https://rpc.polysplit.cloud/v1/chain/1" "polysplit"
    ∷ limited ps "https://public.stackup.sh/api/v1/node/ethereum-mainnet" "stackup"
    ∷ tracked ps "https://ethereum-mainnet.gateway.tatum.io" "tatum"
    ∷ tracked ps "https://public-eth.nownodes.io" "nownodes"
    ∷ untracked ps "https://rpc.nodifi.ai/api/rpc/free" "nodifi"
    ∷ text "https://ethereum.rpc.subquery.network/public"
    ∷ limited ps "https://rpc.graffiti.farm" "graffiti"
    ∷ untracked ps "https://rpc.public.curie.radiumblock.co/http/ethereum" "radiumblock"
    ∷ limited ps "https://eth-mainnet.4everland.org/v1/YOUR_4EVERLAND_API_KEY" "4everland"
    ∷ limited ps "wss://eth-mainnet.4everland.org/ws/v1/37fa9972c1b1cd5fab542c7bdd4cde2f"
        "4everland"
    ∷ untracked ps "https://rpc.public.curie.radiumblock.co/ws/ethereum" "radiumblock"
    ∷ limited ps "wss://ws-rpc.graffiti.farm" "graffiti"
    ∷ untracked ps "wss://ethereum.callstaticrpc.com" "callstatic"
    ∷ untracked ps "https://eth.blockrazor.xyz" "BlockRazor"
    ∷ untracked ps "https://endpoints.omniatech.io/v1/eth/mainnet/public" "omnia"
    ∷ []

abbrev pub rpcs_1_c : (String → String) → List JsValue
rpcs_1_c ps =
    tracked ps "https://eth1.lava.build" "lava"
    ∷ limited ps "https://0xrpc.io/eth" "0xRPC"
    ∷ limited ps "wss://0xrpc.io/eth" "0xRPC"
    ∷ limited ps "https://rpc.owlracle.info/eth/70d38ce1826c4a60bb2a8e05a6c8b20f" "owlracle"
    ∷ limited ps "https://ethereum.therpc.io" "therpc"
    ∷ limited ps "https://eth.api.onfinality.io/public" "onfinality"
    ∷ untracked ps "https://ethereum-json-rpc.stakely.io" "Stakely"
    ∷ limited ps "https://rpc.poolz.finance/eth" "poolz"
    ∷ tracked ps "https://eth.rpc.grove.city/v1/01fdb492" "grove"
    ∷ []

abbrev pub from_1 : (String → String) → List Field
from_1 ps = chain "1" (rpcs_1_a ps ++ rpcs_1_b ps ++ rpcs_1_c ps) ∷ []

abbrev pub from_2 : (String → String) → List Field
from_2 ps =
    chain "2" (text "https://node.eggs.cool" ∷ text "https://node.expanse.tech" ∷ [])
    ∷ chain "1975" (text "https://rpc.onuschain.io" ∷ [])
    ∷ chain "80001" (
        text "https://rpc-mumbai.maticvigil.com"
        ∷ untracked ps "https://endpoints.omniatech.io/v1/matic/mumbai/public" "omnia"
        ∷ text "https://polygontestapi.terminet.io/rpc"
        ∷ limited ps "https://polygon-testnet.public.blastapi.io" "blastapi"
        ∷ tracked ps "https://polygon-mumbai.g.alchemy.com/v2/demo" "alchemy"
        ∷ untracked ps "https://polygon-mumbai-bor-rpc.publicnode.com" "publicnode"
        ∷ untracked ps "wss://polygon-mumbai-bor-rpc.publicnode.com" "publicnode"
        ∷ tracked ps "https://polygon-mumbai.gateway.tenderly.co" "tenderly"
        ∷ tracked ps "https://gateway.tenderly.co/public/polygon-mumbai" "tenderly"
        ∷ limited ps "https://polygon-mumbai.api.onfinality.io/public" "onfinality"
        ∷ limited ps "https://public.stackup.sh/api/v1/node/polygon-mumbai" "stackup"
        ∷ [])
    ∷ chain "4" (text "https://rinkeby.infura.io/3/YOUR_INFURA_PROJECT_ID" ∷ [])
    ∷ chain "5" (
        untracked ps "https://endpoints.omniatech.io/v1/eth/goerli/public" "omnia"
        ∷ limited ps "https://goerli.infura.io/v3/YOUR_INFURA_PROJECT_ID" "infura"
        ∷ limited ps "https://eth-goerli.public.blastapi.io" "blastapi"
        ∷ tracked ps "https://eth-goerli.g.alchemy.com/v2/demo" "alchemy"
        ∷ limited ps "https://eth-goerli.api.onfinality.io/public" "onfinality"
        ∷ tracked ps "https://rpc.goerli.eth.gateway.fm" "gateway"
        ∷ untracked ps "https://ethereum-goerli-rpc.publicnode.com" "publicnode"
        ∷ untracked ps "wss://ethereum-goerli-rpc.publicnode.com" "publicnode"
        ∷ tracked ps "https://goerli.gateway.tenderly.co" "tenderly"
        ∷ tracked ps "https://gateway.tenderly.co/public/goerli" "tenderly"
        ∷ tracked ps "https://builder-rpc1.0xblockswap.com" "blockswap"
        ∷ tracked ps "https://builder-rpc2.0xblockswap.com" "blockswap"
        ∷ [])
    ∷ chain "3" (text "https://ropsten.infura.io/v3/YOUR_INFURA_PROJECT_ID" ∷ [])
    ∷ chain "195" (text "https://xlayertestrpc.okx.com" ∷ text "https://testrpc.xlayer.tech" ∷ [])
    ∷ []

abbrev pub from_4002 : (String → String) → List Field
from_4002 ps =
    chain "4002" (
      text "https://rpc.testnet.fantom.network/"
      ∷ untracked ps "https://endpoints.omniatech.io/v1/fantom/testnet/public" "omnia"
      ∷ limited ps "https://fantom-testnet.public.blastapi.io" "blastapi"
      ∷ untracked ps "https://fantom-testnet-rpc.publicnode.com" "publicnode"
      ∷ untracked ps "wss://fantom-testnet-rpc.publicnode.com" "publicnode"
      ∷ limited ps "https://fantom.api.onfinality.io/public" "onfinality"
      ∷ limited ps "https://fantom-testnet.api.onfinality.io/public" "onfinality"
      ∷ limited ps "https://fantom-testnet.therpc.io" "therpc"
      ∷ tracked ps "https://fantom-testnet.gateway.tatum.io/" "tatum"
      ∷ [])
    ∷ chain "4058" (
        text "https://rpc1.ocean.bahamutchain.com"
        ∷ untracked ps "https://Bahamut-ocean-6h42j7.zeeve.net" "zeeve"
        ∷ [])
    ∷ chain "4444" (text "https://janus.htmlcoin.dev/janus/" ∷ [])
    ∷ chain "43113" (
        text "https://api.avax-test.network/ext/bc/C/rpc"
        ∷ untracked ps "https://endpoints.omniatech.io/v1/avax/fuji/public" "omnia"
        ∷ text "https://avalanchetestapi.terminet.io/ext/bc/C/rpc"
        ∷ limited ps "https://ava-testnet.public.blastapi.io/ext/bc/C/rpc" "blastapi"
        ∷ untracked ps "https://avalanche-fuji-c-chain-rpc.publicnode.com" "publicnode"
        ∷ untracked ps "wss://avalanche-fuji-c-chain-rpc.publicnode.com" "publicnode"
        ∷ limited ps "https://api.zan.top/avax-fuji/ext/bc/C/rpc" "zan"
        ∷ limited ps "https://public.stackup.sh/api/v1/node/avalanche-fuji" "zan"
        ∷ untracked ps "https://avalanche-fuji.drpc.org" "drpc"
        ∷ untracked ps "wss://avalanche-fuji.drpc.org" "drpc"
        ∷ limited ps "https://avalanche-fuji.therpc.io" "therpc"
        ∷ [])
    ∷ []

abbrev pub from_80002 : (String → String) → List Field
from_80002 ps =
    chain "80002" (
      text "https://rpc-amoy.polygon.technology"
      ∷ untracked ps "https://polygon-bor-amoy-rpc.publicnode.com" "publicnode"
      ∷ untracked ps "wss://polygon-bor-amoy-rpc.publicnode.com" "publicnode"
      ∷ limited ps "https://polygon-amoy.blockpi.network/v1/rpc/private" "blockpi"
      ∷ untracked ps "https://polygon-amoy.drpc.org" "drpc"
      ∷ tracked ps "https://polygon-amoy.gateway.tatum.io" "tatum"
      ∷ tracked ps "https://polygon-amoy.gateway.tenderly.co" "tenderly"
      ∷ limited ps "https://api.zan.top/polygon-amoy" "zan"
      ∷ limited ps "https://polygon-amoy-public.nodies.app" "nodies"
      ∷ limited ps "https://polygon-amoy.therpc.io" "therpc"
      ∷ limited ps "https://polygon-amoy.api.onfinality.io/public" "onfinality"
      ∷ tracked ps "https://poly-amoy.rpc.grove.city/v1/01fdb492" "grove"
      ∷ [])
    ∷ []
