-- ===== src/Registry/ExtraRpcs/From56.antt =====
-- constants/extraRpcs.js, lines 844 to 1423: `ps` gives the texts of `privacyStatement`.
use pricefeeding.Prelude.{String, List, [], ◌∷◌, ◌++◌}
use pricefeeding.Registry.Js.{Field, JsValue, text}
use pricefeeding.Registry.ExtraRpcs.{untracked, limited, tracked, chain}

abbrev pub rpcs_56_a : (String → String) → List JsValue
rpcs_56_a ps =
    text "https://bsc-dataseed.bnbchain.org/"
    ∷ text "https://bsc-dataseed1.defibit.io/"
    ∷ text "https://bsc-dataseed1.ninicoin.io/"
    ∷ text "https://bsc-dataseed2.defibit.io/"
    ∷ text "https://bsc-dataseed3.defibit.io/"
    ∷ text "https://bsc-dataseed4.defibit.io/"
    ∷ text "https://bsc-dataseed2.ninicoin.io/"
    ∷ text "https://bsc-dataseed3.ninicoin.io/"
    ∷ text "https://bsc-dataseed4.ninicoin.io/"
    ∷ text "https://bsc-dataseed1.bnbchain.org/"
    ∷ text "https://bsc-dataseed2.bnbchain.org/"
    ∷ text "https://bsc-dataseed3.bnbchain.org/"
    ∷ text "https://bsc-dataseed4.bnbchain.org/"
    ∷ text "https://bsc-dataseed6.dict.life/"
    ∷ limited ps "https://rpc-bsc.48.club" "48Club"
    ∷ limited ps "https://0.48.club" "48Club"
    ∷ limited ps "wss://rpc-bsc.48.club/ws/" "48Club"
    ∷ limited ps "https://binance-smart-chain-public.nodies.app" "nodies"
    ∷ tracked ps "https://bsc-mainnet.nodereal.io/v1/YOUR_NODEREAL_API_KEY" "nodereal"
    ∷ limited ps "https://go.getblock.io/YOUR_GETBLOCK_API_KEY" "getblock"
    ∷ text "https://bscrpc.com"
    ∷ text "https://bsc.rpcgator.com/"
    ∷ tracked ps "https://binance.nodereal.io" "nodereal"
    ∷ text
        "https://bsc-mainnet.rpcfast.com?api_key=xbhWBI1Wkguk8SNMu1bvvLurPGLXmgwYeC4S6g2H7WdwFigZSmPWVZRxrskEQwIf"
    ∷ text "https://nodes.vefinetwork.org/smartchain"
    ∷ untracked ps "https://1rpc.io/bnb" "onerpc"
    ∷ tracked ps "https://bsc.rpc.blxrbdn.com/" "bloxroute"
    ∷ limited ps "https://bsc.blockpi.network/v1/rpc/private" "blockpi"
    ∷ limited ps "https://bnb.api.onfinality.io/public" "onfinality"
    ∷ untracked ps "https://bsc-rpc.publicnode.com" "publicnode"
    ∷ untracked ps "wss://bsc-rpc.publicnode.com" "publicnode"
    ∷ limited ps "https://bsc-mainnet.public.blastapi.io" "blastapi"
    ∷ untracked ps "https://bsc.meowrpc.com" "meowrpc"
    ∷ limited ps "https://api.zan.top/bsc-mainnet" "zan"
    ∷ untracked ps "https://bsc.drpc.org" "drpc"
    ∷ tracked ps "https://services.tokenview.io/vipapi/nodeservice/bsc?apikey=gVFJX5OyPdc2kHH7youg"
        "tokenview"
    ∷ untracked ps "https://rpc.polysplit.cloud/v1/chain/56" "polysplit"
    ∷ limited ps "https://public.stackup.sh/api/v1/node/bsc-mainnet" "stackup"
    ∷ tracked ps "https://bsc-mainnet.gateway.tatum.io" "tatum"
    ∷ tracked ps "https://public-bsc.nownodes.io" "nownodes"
    ∷ limited ps "https://bsc-mainnet.4everland.org/v1/YOUR_4EVERLAND_API_KEY" "4everland"
    ∷ limited ps "wss://bsc-mainnet.4everland.org/ws/v1/37fa9972c1b1cd5fab542c7bdd4cde2f"
        "4everland"
    ∷ text "https://bnb.rpc.subquery.network/public"
    ∷ []

abbrev pub rpcs_56_b : (String → String) → List JsValue
rpcs_56_b ps =
    untracked ps "wss://bsc.callstaticrpc.com" "callstatic"
    ∷ untracked ps "https://bsc.blockrazor.xyz" "BlockRazor"
    ∷ untracked ps "https://endpoints.omniatech.io/v1/bsc/mainnet/public" "omnia"
    ∷ limited ps "https://rpc.owlracle.info/bsc/70d38ce1826c4a60bb2a8e05a6c8b20f" "owlracle"
    ∷ limited ps "https://bsc.therpc.io" "therpc"
    ∷ limited ps "https://rpc.poolz.finance/bsc" "poolz"
    ∷ tracked ps "https://bsc.rpc.grove.city/v1/01fdb492" "grove"
    ∷ []

abbrev pub from_56 : (String → String) → List Field
from_56 ps = chain "56" (rpcs_56_a ps ++ rpcs_56_b ps) ∷ []

abbrev pub from_97 : (String → String) → List Field
from_97 ps =
    chain "97" (
      text "https://bsctestapi.terminet.io/rpc"
      ∷ limited ps "https://bsc-testnet.public.blastapi.io" "blastapi"
      ∷ untracked ps "https://bsc-testnet-rpc.publicnode.com" "publicnode"
      ∷ untracked ps "wss://bsc-testnet-rpc.publicnode.com" "publicnode"
      ∷ limited ps "https://api.zan.top/bsc-testnet" "zan"
      ∷ limited ps "https://public.stackup.sh/api/v1/node/bsc-testnet" "stackup"
      ∷ limited ps "https://bsc-testnet.4everland.org/v1/YOUR_4EVERLAND_API_KEY" "4everland"
      ∷ limited ps "wss://bsc-testnet.4everland.org/ws/v1/37fa9972c1b1cd5fab542c7bdd4cde2f"
          "4everland"
      ∷ untracked ps "https://endpoints.omniatech.io/v1/bsc/testnet/public" "omnia"
      ∷ untracked ps "https://bsc-testnet.drpc.org" "drpc"
      ∷ untracked ps "wss://bsc-testnet.drpc.org" "drpc"
      ∷ limited ps "https://bnb-testnet.api.onfinality.io/public" "onfinality"
      ∷ limited ps "https://bsc-testnet.therpc.io" "therpc"
      ∷ [])
    ∷ chain "900000" (text "https://api.posichain.org" ∷ text "https://api.s0.posichain.org" ∷ [])
    ∷ []

abbrev pub from_43114 : (String → String) → List Field
from_43114 ps =
    chain "43114" (
      text "https://api.avax.network/ext/bc/C/rpc"
      ∷ text "https://avalanche.public-rpc.com"
      ∷ limited ps "https://ava-mainnet.public.blastapi.io/ext/bc/C/rpc" "blastapi"
      ∷ text "https://avalancheapi.terminet.io/ext/bc/C/rpc"
      ∷ untracked ps "https://avalanche-c-chain-rpc.publicnode.com" "publicnode"
      ∷ untracked ps "wss://avalanche-c-chain-rpc.publicnode.com" "publicnode"
      ∷ untracked ps "https://1rpc.io/avax/c" "onerpc"
      ∷ limited ps "https://avalanche-public.nodies.app/ext/bc/C/rpc" "nodies"
      ∷ limited ps "https://avalanche.api.onfinality.io/public/ext/bc/C/rpc" "onfinality"
      ∷ untracked ps "https://endpoints.omniatech.io/v1/avax/mainnet/public" "omnia"
      ∷ untracked ps "https://avax.meowrpc.com" "meowrpc"
      ∷ limited ps "https://api.zan.top/avax-mainnet/ext/bc/C/rpc" "zan"
      ∷ untracked ps "https://avalanche.drpc.org" "drpc"
      ∷ limited ps "https://public.stackup.sh/api/v1/node/avalanche-mainnet" "stackup"
      ∷ tracked ps "https://avax-x-mainnet.gateway.tatum.io" "tatum"
      ∷ tracked ps "https://avalanche-mainnet.gateway.tenderly.co" "tenderly"
      ∷ limited ps "https://0xrpc.io/avax" "0xRPC"
      ∷ limited ps "wss://0xrpc.io/avax" "0xRPC"
      ∷ limited ps "https://rpc.owlracle.info/avax/70d38ce1826c4a60bb2a8e05a6c8b20f" "owlracle"
      ∷ tracked ps "https://spectrum-01.simplystaking.xyz/avalanche-mn-rpc/ext/bc/C/rpc" "Spectrum"
      ∷ limited ps "https://avalanche.therpc.io" "therpc"
      ∷ limited ps "https://rpc.poolz.finance/avalanche" "poolz"
      ∷ tracked ps "https://avax.rpc.grove.city/v1/01fdb492" "grove"
      ∷ [])
    ∷ []

abbrev pub from_250 : (String → String) → List Field
from_250 ps =
    chain "250" (
      text "https://rpcapi.fantom.network"
      ∷ limited ps "https://fantom-public.nodies.app" "nodies"
      ∷ text "https://rpc.ftm.tools/"
      ∷ text "https://rpc.fantom.network"
      ∷ text "https://rpc2.fantom.network"
      ∷ text "https://rpc3.fantom.network"
      ∷ limited ps "https://fantom-mainnet.public.blastapi.io" "blastapi"
      ∷ untracked ps "https://1rpc.io/ftm" "onerpc"
      ∷ untracked ps "https://fantom-rpc.publicnode.com" "publicnode"
      ∷ untracked ps "wss://fantom-rpc.publicnode.com" "publicnode"
      ∷ limited ps "https://fantom.api.onfinality.io/public" "onfinality"
      ∷ tracked ps "https://rpc.fantom.gateway.fm" "gateway"
      ∷ untracked ps "https://fantom.drpc.org" "drpc"
      ∷ tracked ps "https://fantom-mainnet.gateway.tatum.io" "tatum"
      ∷ untracked ps "wss://fantom.callstaticrpc.com" "callstatic"
      ∷ untracked ps "https://endpoints.omniatech.io/v1/fantom/mainnet/public" "omnia"
      ∷ untracked ps "https://fantom-json-rpc.stakely.io" "Stakely"
      ∷ limited ps "https://api.zan.top/ftm-mainnet" "zan"
      ∷ limited ps "https://rpc.owlracle.info/ftm/70d38ce1826c4a60bb2a8e05a6c8b20f" "owlracle"
      ∷ limited ps "https://fantom.therpc.io" "therpc"
      ∷ tracked ps "https://fantom.rpc.grove.city/v1/01fdb492" "grove"
      ∷ [])
    ∷ []

abbrev pub from_137 : (String → String) → List Field
from_137 ps =
    chain "137" (
      limited ps "https://rpc.ankr.com/polygon" "ankr"
      ∷ text "https://polygon-rpc.com"
      ∷ tracked ps "https://rpc-mainnet.matic.quiknode.pro" "quicknode"
      ∷ limited ps "https://polygon-public.nodies.app" "nodies"
      ∷ limited ps "https://polygon-mainnet.public.blastapi.io" "blastapi"
      ∷ untracked ps "https://1rpc.io/matic" "onerpc"
      ∷ text
          "https://polygon-mainnet.rpcfast.com?api_key=xbhWBI1Wkguk8SNMu1bvvLurPGLXmgwYeC4S6g2H7WdwFigZSmPWVZRxrskEQwIf"
      ∷ untracked ps "https://polygon-bor-rpc.publicnode.com" "publicnode"
      ∷ untracked ps "wss://polygon-bor-rpc.publicnode.com" "publicnode"
      ∷ tracked ps "https://polygon-mainnet.g.alchemy.com/v2/demo" "alchemy"
      ∷ tracked ps "https://go.getblock.io/YOUR_GETBLOCK_API_KEY" "getblock"
      ∷ limited ps "https://polygon.api.onfinality.io/public" "onfinality"
      ∷ tracked ps "https://polygon.rpc.blxrbdn.com/" "bloxroute"
      ∷ untracked ps "https://polygon.drpc.org" "drpc"
      ∷ tracked ps "https://polygon.gateway.tenderly.co" "tenderly"
      ∷ tracked ps "https://gateway.tenderly.co/public/polygon" "tenderly"
      ∷ limited ps "https://api.zan.top/polygon-mainnet" "zan"
      ∷ untracked ps "https://polygon.meowrpc.com" "meowrpc"
      ∷ limited ps "https://public.stackup.sh/api/v1/node/polygon-mainnet" "stackup"
      ∷ tracked ps "https://polygon-mainnet.gateway.tatum.io" "tatum"
      ∷ text "https://polygon.rpc.subquery.network/public"
      ∷ limited ps "https://polygon-mainnet.4everland.org/v1/YOUR_4EVERLAND_API_KEY" "4everland"
      ∷ limited ps "wss://polygon-mainnet.4everland.org/ws/v1/37fa9972c1b1cd5fab542c7bdd4cde2f"
          "4everland"
      ∷ untracked ps "https://endpoints.omniatech.io/v1/matic/mainnet/public" "omnia"
      ∷ tracked ps "https://polygon.lava.build" "lava"
      ∷ limited ps "https://rpc.owlracle.info/poly/70d38ce1826c4a60bb2a8e05a6c8b20f" "owlracle"
      ∷ limited ps "https://polygon.therpc.io" "therpc"
      ∷ limited ps "https://rpc.poolz.finance/polygon" "poolz"
      ∷ tracked ps "https://poly.rpc.grove.city/v1/01fdb492" "grove"
      ∷ [])
    ∷ []
