-- ===== src/Registry/ExtraRpcs/From1313161554.antt =====
-- constants/extraRpcs.js, lines 2121 to 2752: `ps` gives the texts of `privacyStatement`.
use pricefeeding.Prelude.{String, List, [], ◌∷◌}
use pricefeeding.Registry.Js.{Field, text}
use pricefeeding.Registry.ExtraRpcs.{untracked, limited, tracked, chain}

abbrev pub from_1313161554 : (String → String) → List Field
from_1313161554 ps =
    chain "1313161554" (
      text "https://mainnet.aurora.dev"
      ∷ untracked ps "https://1rpc.io/aurora" "onerpc"
      ∷ untracked ps "https://aurora.drpc.org" "drpc"
      ∷ tracked ps "https://aurora-mainnet.gateway.tatum.io" "tatum"
      ∷ untracked ps "https://endpoints.omniatech.io/v1/aurora/mainnet/public" "omnia"
      ∷ limited ps "https://rpc.owlracle.info/aurora/70d38ce1826c4a60bb2a8e05a6c8b20f" "owlracle"
      ∷ [])
    ∷ chain "1313161555" (
        text "https://testnet.aurora.dev"
        ∷ text "https://aurora-testnet.drpc.org"
        ∷ text "wss://aurora-testnet.drpc.org"
        ∷ untracked ps "https://endpoints.omniatech.io/v1/aurora/testnet/public" "omnia"
        ∷ [])
    ∷ chain "4181" (text "https://rpc1.phi.network" ∷ [])
    ∷ chain "128" (
        text "https://http-mainnet.hecochain.com"
        ∷ text "https://http-mainnet-node.huobichain.com"
        ∷ text "https://hecoapi.terminet.io/rpc"
        ∷ untracked ps "https://heco.drpc.org" "drpc"
        ∷ untracked ps "wss://heco.drpc.org" "drpc"
        ∷ [])
    ∷ chain "256" (text "https://hecotestapi.terminet.io/rpc" ∷ [])
    ∷ chain "5165" (
        text "https://rpc1.bahamut.io"
        ∷ text "https://rpc2.bahamut.io"
        ∷ text "https://rpc1.ftnscan.io"
        ∷ text "https://rpc2.ftnscan.io"
        ∷ untracked ps "https://bahamut-rpc.publicnode.com" "publicnode"
        ∷ untracked ps "wss://bahamut-rpc.publicnode.com" "publicnode"
        ∷ untracked ps "https://Bahamut-mainnet-2h93.zeeve.net" "zeeve"
        ∷ untracked ps "https://rpc.ankr.com/bahamut" "ankr"
        ∷ [])
    ∷ chain "2552" (untracked ps "https://rpc.ankr.com/bahamut_horizon" "ankr" ∷ [])
    ∷ chain "42220" (
        text "https://forno.celo.org"
        ∷ limited ps "https://rpc.ankr.com/celo" "ankr"
        ∷ tracked ps "https://celo-mainnet.gateway.tatum.io" "tatum"
        ∷ untracked ps "https://celo.drpc.org" "drpc"
        ∷ untracked ps "wss://celo.drpc.org" "drpc"
        ∷ untracked ps "https://celo-json-rpc.stakely.io" "Stakely"
        ∷ limited ps "https://celo.api.onfinality.io/public" "onfinality"
        ∷ [])
    ∷ []

abbrev pub from_44787 : (String → String) → List Field
from_44787 ps =
    chain "44787" (
      text "https://alfajores-forno.celo-testnet.org"
      ∷ text "wss://alfajores-forno.celo-testnet.org/ws"
      ∷ untracked ps "https://celo-alfajores.drpc.org" "drpc"
      ∷ untracked ps "wss://celo-alfajores.drpc.org" "drpc"
      ∷ [])
    ∷ chain "62320" (
        text "https://baklava-forno.celo-testnet.org"
        ∷ untracked ps "https://rpc.ankr.com/celo_baklava_testnet" "ankr"
        ∷ [])
    ∷ chain "11142220" (
        text "https://forno.celo-sepolia.celo-testnet.org"
        ∷ untracked ps "https://rpc.ankr.com/celo_sepolia" "ankr"
        ∷ tracked ps "https://celo-sepolia.gateway.tatum.io/" "tatum"
        ∷ [])
    ∷ chain "480" (
        text "https://worldchain-mainnet.g.alchemy.com/public"
        ∷ text "https://480.rpc.thirdweb.com"
        ∷ text "https://worldchain-mainnet.gateway.tenderly.co"
        ∷ text "wss://worldchain-mainnet.gateway.tenderly.co"
        ∷ text "https://sparkling-autumn-dinghy.worldchain-mainnet.quiknode.pro"
        ∷ untracked ps "https://worldchain.drpc.org" "drpc"
        ∷ untracked ps "wss://worldchain.drpc.org" "drpc"
        ∷ [])
    ∷ chain "4801" (
        text "https://worldchain-sepolia.g.alchemy.com/public"
        ∷ text "https://4801.rpc.thirdweb.com"
        ∷ text "https://worldchain-sepolia.gateway.tenderly.co"
        ∷ text "wss://worldchain-sepolia.gateway.tenderly.co"
        ∷ untracked ps "https://worldchain-sepolia.drpc.org" "drpc"
        ∷ untracked ps "wss://worldchain-sepolia.drpc.org" "drpc"
        ∷ [])
    ∷ []

abbrev pub from_10 : (String → String) → List Field
from_10 ps =
    chain "10" (
      text "https://mainnet.optimism.io/"
      ∷ limited ps "https://optimism-mainnet.public.blastapi.io" "blastapi"
      ∷ untracked ps "https://1rpc.io/op" "onerpc"
      ∷ limited ps "https://optimism-public.nodies.app" "nodies"
      ∷ tracked ps "https://opt-mainnet.g.alchemy.com/v2/demo" "alchemy"
      ∷ limited ps "https://optimism.public.blockpi.network/v1/rpc/public" "blockpi"
      ∷ limited ps "https://optimism.api.onfinality.io/public" "onfinality"
      ∷ tracked ps "https://rpc.optimism.gateway.fm" "gateway"
      ∷ untracked ps "https://optimism-rpc.publicnode.com" "publicnode"
      ∷ untracked ps "wss://optimism-rpc.publicnode.com" "publicnode"
      ∷ untracked ps "https://optimism.meowrpc.com" "meowrpc"
      ∷ limited ps "https://api.zan.top/opt-mainnet" "zan"
      ∷ untracked ps "https://optimism.drpc.org" "drpc"
      ∷ tracked ps "https://optimism.gateway.tenderly.co" "tenderly"
      ∷ tracked ps "https://gateway.tenderly.co/public/optimism" "tenderly"
      ∷ untracked ps "https://api.stateless.solutions/optimism/v1/demo" "stateless"
      ∷ limited ps "https://public.stackup.sh/api/v1/node/optimism-mainnet" "stackup"
      ∷ tracked ps "https://optimism-mainnet.gateway.tatum.io" "tatum"
      ∷ tracked ps "https://go.getblock.io/YOUR_GETBLOCK_API_KEY" "getblock"
      ∷ limited ps "https://opt-mainnet.4everland.org/v1/YOUR_4EVERLAND_API_KEY" "4everland"
      ∷ limited ps "wss://opt-mainnet.4everland.org/ws/v1/37fa9972c1b1cd5fab542c7bdd4cde2f"
          "4everland"
      ∷ untracked ps "https://endpoints.omniatech.io/v1/op/mainnet/public" "omnia"
      ∷ tracked ps "https://rpc.buildbear.io/esquivelfabian/" "buildbear"
      ∷ tracked ps "https://optimism.lava.build" "lava"
      ∷ text "https://optimism.rpc.subquery.network/public"
      ∷ limited ps "https://0xrpc.io/op" "0xRPC"
      ∷ limited ps "wss://0xrpc.io/op" "0xRPC"
      ∷ limited ps "https://rpc.owlracle.info/opt/70d38ce1826c4a60bb2a8e05a6c8b20f" "owlracle"
      ∷ limited ps "https://optimism.therpc.io" "therpc"
      ∷ tracked ps "https://optimism.rpc.grove.city/v1/01fdb492" "grove"
      ∷ [])
    ∷ []

abbrev pub from_11155420 : (String → String) → List Field
from_11155420 ps =
    chain "11155420" (
      text "https://sepolia.optimism.io"
      ∷ limited ps "https://public.stackup.sh/api/v1/node/optimism-sepolia" "stackup"
      ∷ untracked ps "https://endpoints.omniatech.io/v1/op/sepolia/public" "omnia"
      ∷ tracked ps "https://optimism-sepolia.gateway.tenderly.co" "tenderly"
      ∷ limited ps "https://api.zan.top/opt-sepolia" "zan"
      ∷ limited ps "https://optimism-sepolia-public.nodies.app" "nodies"
      ∷ limited ps "https://optimism-sepolia.api.onfinality.io/public" "onfinality"
      ∷ limited ps "https://optimism-sepolia.therpc.io" "therpc"
      ∷ tracked ps "https://optimism-sepolia-testnet.rpc.grove.city/v1/01fdb492" "grove"
      ∷ [])
    ∷ chain "2330"
        (text "http://138.197.152.181:8145" ∷ text "https://rpc0.altcoinchain.org/rpc" ∷ [])
    ∷ chain "1773" (text "http://138.197.152.181:8245" ∷ [])
    ∷ chain "1881" (text "https://rpc.cartenz.works" ∷ [])
    ∷ chain "4200" (
        text "https://rpc.merlinchain.io"
        ∷ limited ps "https://merlin.blockpi.network/v1/rpc/public" "blockpi"
        ∷ text "https://rpc-merlin.rockx.com"
        ∷ text "https://merlin-mainnet-enterprise.unifra.io"
        ∷ untracked ps "https://endpoints.omniatech.io/v1/merlin/mainnet/public" "omnia"
        ∷ untracked ps "https://endpoints.omniatech.io/v1/merlin/mainnet/public" "omnia"
        ∷ untracked ps "https://merlin.drpc.org" "drpc"
        ∷ untracked ps "wss://merlin.drpc.org" "drpc"
        ∷ [])
    ∷ chain "420" (
        tracked ps "https://opt-goerli.g.alchemy.com/v2/demo" "alchemy"
        ∷ limited ps "https://optimism-goerli.public.blastapi.io" "blastapi"
        ∷ tracked ps "https://rpc.goerli.optimism.gateway.fm" "gateway"
        ∷ untracked ps "https://optimism-goerli-rpc.publicnode.com" "publicnode"
        ∷ untracked ps "wss://optimism-goerli-rpc.publicnode.com" "publicnode"
        ∷ tracked ps "https://optimism-goerli.gateway.tenderly.co" "tenderly"
        ∷ tracked ps "https://gateway.tenderly.co/public/optimism-goerli" "tenderly"
        ∷ [])
    ∷ []

abbrev pub from_1088 : (String → String) → List Field
from_1088 ps =
    chain "1088" (
      text "https://andromeda.metis.io/?owner=1088"
      ∷ limited ps "https://metis-mainnet.public.blastapi.io" "blastapi"
      ∷ limited ps "https://metis.api.onfinality.io/public" "onfinality"
      ∷ limited ps "https://metis-public.nodies.app" "nodies"
      ∷ untracked ps "https://metis.drpc.org" "drpc"
      ∷ untracked ps "wss://metis.drpc.org" "drpc"
      ∷ tracked ps "https://metis-andromeda.rpc.thirdweb.com/" "thirdweb"
      ∷ tracked ps "https://metis-andromeda.gateway.tenderly.co" "tenderly"
      ∷ text "https://api.blockeden.xyz/metis/67nCBdZQSH9z3YqDDjdm"
      ∷ text "https://metis.rpc.hypersync.xyz/"
      ∷ [])
    ∷ chain "59902" (
        untracked ps "wss://metis-sepolia-rpc.publicnode.com" "publicnode"
        ∷ untracked ps "https://metis-sepolia-rpc.publicnode.com" "publicnode"
        ∷ tracked ps "https://metis-sepolia.gateway.tenderly.co" "tenderly"
        ∷ text "https://sepolia.metisdevops.link"
        ∷ [])
    ∷ chain "1246" (text "https://rpc.omplatform.com" ∷ [])
    ∷ chain "100" (
        text "https://rpc.gnosischain.com"
        ∷ text "https://xdai-archive.blockscout.com"
        ∷ limited ps "https://gnosis-public.nodies.app" "nodies"
        ∷ tracked ps "https://rpc.gnosis.gateway.fm" "gateway"
        ∷ limited ps "https://gnosis-mainnet.public.blastapi.io" "blastapi"
        ∷ tracked ps "https://rpc.ap-southeast-1.gateway.fm/v4/gnosis/non-archival/mainnet"
            "gateway"
        ∷ limited ps "https://gnosis.api.onfinality.io/public" "onfinality"
        ∷ untracked ps "https://gnosis.drpc.org" "drpc"
        ∷ untracked ps "https://endpoints.omniatech.io/v1/gnosis/mainnet/public" "omnia"
        ∷ untracked ps "https://gnosis-rpc.publicnode.com" "publicnode"
        ∷ untracked ps "wss://gnosis-rpc.publicnode.com" "publicnode"
        ∷ untracked ps "https://1rpc.io/gnosis" "onerpc"
        ∷ tracked ps "https://gno-mainnet.gateway.tatum.io" "tatum"
        ∷ limited ps "https://0xrpc.io/gno" "0xRPC"
        ∷ limited ps "wss://0xrpc.io/gno" "0xRPC"
        ∷ limited ps "https://gnosis.therpc.io" "therpc"
        ∷ tracked ps "https://gnosis.rpc.grove.city/v1/01fdb492" "grove"
        ∷ [])
    ∷ []
