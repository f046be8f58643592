-- ===== src/Registry/ExtraRpcs/From10200.antt =====
-- constants/extraRpcs.js, lines 2753 to 3357: `ps` gives the texts of `privacyStatement`.
use pricefeeding.Prelude.{String, List, [], ◌∷◌}
use pricefeeding.Registry.Js.{Field, text, object, end_fields, ◌∶◌, ◌⨾◌}
use pricefeeding.Registry.ExtraRpcs.{details, untracked, limited, tracked, chain}

abbrev pub from_10200 : (String → String) → List Field
from_10200 ps =
    chain "10200" (
      text "https://rpc.chiadochain.net"
      ∷ tracked ps "https://rpc.chiado.gnosis.gateway.fm" "gateway"
      ∷ untracked ps "https://gnosis-chiado-rpc.publicnode.com" "publicnode"
      ∷ untracked ps "wss://gnosis-chiado-rpc.publicnode.com" "publicnode"
      ∷ untracked ps " https://endpoints.omniatech.io/v1/gnosis/chiado/public" "omnia"
      ∷ limited ps "https://gnosis-chiado.therpc.io" "therpc"
      ∷ [])
    ∷ chain "1923" (untracked ps "https://rpc.ankr.com/swell" "ankr" ∷ [])
    ∷ chain "1924" (
        untracked ps "https://rpc.ankr.com/swell_sepolia" "ankr"
        ∷ untracked ps "https://swell-testnet.drpc.org" "ankr"
        ∷ untracked ps "wss://swell-testnet.drpc.org" "ankr"
        ∷ [])
    ∷ chain "1625" (untracked ps "https://rpc.ankr.com/gravity" "ankr" ∷ [])
    ∷ chain "1231" (text "https://ultron-rpc.net" ∷ [])
    ∷ chain "1285" (
        limited ps "https://rpc.api.moonriver.moonbeam.network" "MBF"
        ∷ limited ps "wss://wss.api.moonriver.moonbeam.network" "MBF"
        ∷ limited ps "wss://moonriver.api.onfinality.io/public-ws" "onfinality"
        ∷ limited ps "https://moonriver.api.onfinality.io/public" "onfinality"
        ∷ tracked ps "https://moonriver.unitedbloc.com" "unitedbloc"
        ∷ tracked ps "wss://moonriver.unitedbloc.com" "unitedbloc"
        ∷ limited ps "https://moonriver-rpc.dwellir.com" "dwellir"
        ∷ limited ps "wss://moonriver-rpc.dwellir.com" "dwellir"
        ∷ untracked ps "https://moonriver-rpc.publicnode.com" "publicnode"
        ∷ untracked ps "wss://moonriver-rpc.publicnode.com" "publicnode"
        ∷ untracked ps "https://moonriver.drpc.org" "drpc"
        ∷ untracked ps "wss://moonriver.drpc.org" "drpc"
        ∷ limited ps "https://rpc.owlracle.info/movr/70d38ce1826c4a60bb2a8e05a6c8b20f" "owlracle"
        ∷ tracked ps "https://moonriver.rpc.grove.city/v1/01fdb492" "grove"
        ∷ [])
    ∷ chain "361" (text "https://eth-rpc-api.thetatoken.org/rpc" ∷ [])
    ∷ []

abbrev pub from_42262 : (String → String) → List Field
from_42262 ps =
    chain "42262"
      (text "https://emerald.oasis.io" ∷ untracked ps "https://1rpc.io/oasis/emerald" "onerpc" ∷ [])
    ∷ chain "40" (
        text "https://rpc.telos.net"
        ∷ untracked ps "https://1rpc.io/telos/evm" "onerpc"
        ∷ untracked ps "https://telos.drpc.org" "drpc"
        ∷ untracked ps "wss://telos.drpc.org" "drpc"
        ∷ limited ps "https://rpc.ankr.com/telos" "ankr"
        ∷ limited ps "https://rpc.poolz.finance/telos" "poolz"
        ∷ [])
    ∷ chain "41" (text "https://testnet.telos.net/evm" ∷ [])
    ∷ chain "32659"
        (text "https://mainnet.fusionnetwork.io" ∷ text "wss://mainnet.fusionnetwork.io" ∷ [])
    ∷ []

abbrev pub from_1284 : (String → String) → List Field
from_1284 ps =
    chain "1284" (
      limited ps "https://rpc.api.moonbeam.network" "MBF"
      ∷ limited ps "wss://wss.api.moonbeam.network" "MBF"
      ∷ limited ps "https://moonbeam.api.onfinality.io/public" "onfinality"
      ∷ limited ps "wss://moonbeam.api.onfinality.io/public-ws" "onfinality"
      ∷ limited ps "https://moonbeam.unitedbloc.com" "unitedbloc"
      ∷ limited ps "wss://moonbeam.unitedbloc.com" "unitedbloc"
      ∷ untracked ps "https://1rpc.io/glmr" "onerpc"
      ∷ limited ps "https://moonbeam-rpc.dwellir.com" "dwellir"
      ∷ limited ps "wss://moonbeam-rpc.dwellir.com" "dwellir"
      ∷ untracked ps "https://moonbeam.drpc.org" "drpc"
      ∷ untracked ps "wss://moonbeam.drpc.org" "drpc"
      ∷ limited ps "https://moonbeam.therpc.io" "therpc"
      ∷ untracked ps "https://moonbeam-rpc.publicnode.com" "publicnode"
      ∷ untracked ps "wss://moonbeam-rpc.publicnode.com" "publicnode"
      ∷ object (
          "url" ∶ text "https://endpoints.omniatech.io/v1/moonbeam/mainnet/public"
          ⨾ "tracking" ∶ text "none"
          ⨾ "trackingDetails" ∶ details ps "omnia"
          ⨾ "trackingDetails" ∶ details ps "radiumblock"
          ⨾ end_fields)
      ∷ untracked ps "https://moonbeam.public.curie.radiumblock.co/ws" "radiumblock"
      ∷ untracked ps "https://moonbeam.drpc.org" "drpc"
      ∷ untracked ps "wss://moonbeam.drpc.org" "drpc"
      ∷ limited ps "https://rpc.poolz.finance/moonbeam" "poolz"
      ∷ untracked ps "https://node.histori.xyz/moonbeam-mainnet/8ry9f6t9dct1se2hlagxnd9n2a"
          "Histori"
      ∷ tracked ps "https://moonbeam.rpc.grove.city/v1/01fdb492" "grove"
      ∷ [])
    ∷ chain "31"
        (text "https://public-node.testnet.rsk.co" ∷ text "https://mycrypto.testnet.rsk.co" ∷ [])
    ∷ chain "30" (
        text "https://mycrypto.rsk.co"
        ∷ text "https://public-node.rsk.co"
        ∷ untracked ps "https://rootstock.drpc.org" "drpc"
        ∷ untracked ps "wss://rootstock.drpc.org" "drpc"
        ∷ limited ps "https://rootstock-mainnet.public.blastapi.io" "blastapi"
        ∷ [])
    ∷ []

abbrev pub from_4689 : (String → String) → List Field
from_4689 ps =
    chain "4689" (
      text "https://babel-api.mainnet.iotex.io"
      ∷ text "https://babel-api.mainnet.iotex.one"
      ∷ text "https://babel-api.fastblocks.io"
      ∷ text "https://rpc.depinscan.io/iotex"
      ∷ text "https://rpc.chainanalytics.org/iotex"
      ∷ tracked ps "https://iotex-network.rpc.thirdweb.com" "thirdweb"
      ∷ limited ps "https://iotex.api.onfinality.io/public" "onfinality"
      ∷ [])
    ∷ chain "66" (
        text "https://exchainrpc.okex.org"
        ∷ limited ps "https://oktc-mainnet.public.blastapi.io" "blastapi"
        ∷ limited ps "https://okt-chain.api.onfinality.io/public" "onfinality"
        ∷ untracked ps "https://1rpc.io/oktc" "onerpc"
        ∷ untracked ps "https://oktc.drpc.org" "drpc"
        ∷ untracked ps "wss://oktc.drpc.org" "drpc"
        ∷ [])
    ∷ chain "288" (
        text "https://mainnet.boba.network/"
        ∷ tracked ps "https://boba-ethereum.gateway.tenderly.co" "tenderly"
        ∷ tracked ps "https://gateway.tenderly.co/public/boba-ethereum" "tenderly"
        ∷ untracked ps "https://1rpc.io/boba/eth" "onerpc"
        ∷ untracked ps "https://boba-eth.drpc.org" "drpc"
        ∷ untracked ps "wss://boba-eth.drpc.org" "drpc"
        ∷ tracked ps "https://boba.rpc.grove.city/v1/01fdb492" "grove"
        ∷ [])
    ∷ chain "321" (
        text "https://rpc-mainnet.kcc.network"
        ∷ text "https://kcc.mytokenpocket.vip"
        ∷ text "https://kcc-rpc.com"
        ∷ tracked ps
            "https://services.tokenview.io/vipapi/nodeservice/kcs?apikey=qVHq2o6jpaakcw3lRstl"
            "tokenview"
        ∷ [])
    ∷ chain "888"
        (text "https://gwan-ssl.wandevs.org:56891" ∷ text "https://gwan2-ssl.wandevs.org" ∷ [])
    ∷ chain "106" (
        text "https://evmexplorer.velas.com/rpc"
        ∷ text
            "https://velas-mainnet.rpcfast.com?api_key=xbhWBI1Wkguk8SNMu1bvvLurPGLXmgwYeC4S6g2H7WdwFigZSmPWVZRxrskEQwIf"
        ∷ [])
    ∷ chain "10000" (
        text "https://smartbch.fountainhead.cash/mainnet"
        ∷ text "https://global.uat.cash"
        ∷ text "https://rpc.uatvo.com"
        ∷ tracked ps "https://bch-mainnet.gateway.tatum.io" "tatum"
        ∷ [])
    ∷ chain "19" (
        text "https://songbird-api.flare.network/ext/C/rpc"
        ∷ text "https://rpc.ftso.au/songbird"
        ∷ text "https://songbird.solidifi.app/ext/C/rpc"
        ∷ [])
    ∷ []

abbrev pub from_122 : (String → String) → List Field
from_122 ps =
    chain "122" (
      text "https://rpc.fuse.io"
      ∷ limited ps "https://fuse-public.nodies.app" "nodies"
      ∷ tracked ps "https://fuse-mainnet.chainstacklabs.com" "chainstack"
      ∷ limited ps "https://fuse.api.onfinality.io/public" "onfinality"
      ∷ tracked ps "https://fuse.liquify.com" "liquify"
      ∷ untracked ps "https://fuse.drpc.org" "drpc"
      ∷ untracked ps "wss://fuse.drpc.org" "drpc"
      ∷ limited ps "https://rpc.owlracle.info/fuse/70d38ce1826c4a60bb2a8e05a6c8b20f" "owlracle"
      ∷ tracked ps "https://fuse.rpc.grove.city/v1/01fdb492" "grove"
      ∷ [])
    ∷ chain "336" (
        text "https://rpc.shiden.astar.network:8545/"
        ∷ limited ps "https://shiden.public.blastapi.io" "blastapi"
        ∷ limited ps "https://shiden-rpc.dwellir.com" "dwellir"
        ∷ limited ps "wss://shiden-rpc.dwellir.com" "dwellir"
        ∷ limited ps "https://shiden.api.onfinality.io/public" "onfinality"
        ∷ untracked ps "https://shiden.public.curie.radiumblock.co/http" "radiumblock"
        ∷ untracked ps "https://shiden.public.curie.radiumblock.co/ws" "radiumblock"
        ∷ [])
    ∷ chain "592" (
        text "https://evm.astar.network/"
        ∷ text "https://rpc.astar.network:8545"
        ∷ limited ps "https://astar.public.blastapi.io" "blastapi"
        ∷ untracked ps "https://getblock.io/nodes/bsc/" "getblock"
        ∷ untracked ps "https://1rpc.io/astr" "onerpc"
        ∷ tracked ps "https://astar-mainnet.g.alchemy.com/v2/demo" "alchemy"
        ∷ limited ps "https://astar.api.onfinality.io/public" "onfinality"
        ∷ limited ps "wss://astar.api.onfinality.io/public-ws" "onfinality"
        ∷ limited ps "https://astar-rpc.dwellir.com" "dwellir"
        ∷ limited ps "wss://astar-rpc.dwellir.com" "dwellir"
        ∷ untracked ps "https://astar.public.curie.radiumblock.co/http" "radiumblock"
        ∷ untracked ps "https://astar.public.curie.radiumblock.co/ws" "radiumblock"
        ∷ [])
    ∷ chain "71394" (text "https://mainnet.godwoken.io/rpc/eth-wallet" ∷ [])
    ∷ chain "52" (
        text "https://rpc.coinex.net/"
        ∷ text "https://rpc1.coinex.net/"
        ∷ text "https://rpc2.coinex.net/"
        ∷ text "https://rpc3.coinex.net/"
        ∷ text "https://rpc4.coinex.net/"
        ∷ [])
    ∷ []
