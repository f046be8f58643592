-- ===== src/Registry/ExtraRpcs/From25.antt =====
-- constants/extraRpcs.js, lines 1424 to 2120: `ps` gives the texts of `privacyStatement`.
use pricefeeding.Prelude.{String, List, [], ◌∷◌}
use pricefeeding.Registry.Js.{Field, text}
use pricefeeding.Registry.ExtraRpcs.{untracked, limited, tracked, chain}

abbrev pub from_25 : (String → String) → List Field
from_25 ps =
    chain "25" (
      text "https://evm.cronos.org"
      ∷ text "https://cronos-rpc.elk.finance/"
      ∷ untracked ps "https://cronos-evm-rpc.publicnode.com" "publicnode"
      ∷ untracked ps "wss://cronos-evm-rpc.publicnode.com" "publicnode"
      ∷ untracked ps "https://1rpc.io/cro" "onerpc"
      ∷ untracked ps "https://cronos.drpc.org" "drpc"
      ∷ untracked ps "wss://cronos.drpc.org" "drpc"
      ∷ text "https://rpc.vvs.finance"
      ∷ text "https://mmf-rpc.xstaking.sg"
      ∷ text "https://rpc.nebkas.ro"
      ∷ untracked ps "https://endpoints.omniatech.io/v1/cronos/mainnet/public" "omnia"
      ∷ limited ps "https://rpc.owlracle.info/cro/70d38ce1826c4a60bb2a8e05a6c8b20f" "owlracle"
      ∷ tracked ps "https://cro-mainnet.gateway.tatum.io/" "tatum"
      ∷ [])
    ∷ chain "338" (
        text "https://evm-t3.cronos.org/"
        ∷ untracked ps "https://endpoints.omniatech.io/v1/cronos/testnet/public" "omnia"
        ∷ tracked ps "https://cro-testnet.gateway.tatum.io/" "tatum"
        ∷ [])
    ∷ chain "142857" (tracked ps "https://rpc1.icplaza.pro/" "icplazaorg" ∷ [])
    ∷ chain "8822" (
        text "https://json-rpc.evm.iotaledger.net"
        ∷ limited ps "https://iota-mainnet-evm.public.blastapi.io" "blastapi"
        ∷ untracked ps "https://rpc.ankr.com/iota_evm" "ankr"
        ∷ tracked ps "https://iota-mainnet.gateway.tatum.io/" "tatum"
        ∷ [])
    ∷ chain "1075" (
        text "https://evm-toolkit-api.evm.testnet.iotaledger.net"
        ∷ limited ps "https://iota-testnet-evm.public.blastapi.io" "blastapi"
        ∷ untracked ps "https://rpc.ankr.com/iota_evm_testnet" "ankr"
        ∷ tracked ps "https://iota-testnet.gateway.tatum.io/" "tatum"
        ∷ [])
    ∷ chain "2340" (untracked ps "https://rpc.ankr.com/atleta_olympia" "ankr" ∷ [])
    ∷ []

abbrev pub from_2440 : (String → String) → List Field
from_2440 ps =
    chain "2440" (
      untracked ps "https://rpc.atleta.mainnet.dteam.tech" "DTEAM"
      ∷ untracked ps "wss://rpc.atleta.mainnet.dteam.tech" "DTEAM"
      ∷ untracked ps "https://rpc.ankr.com/atleta_mainnet" "ankr"
      ∷ untracked ps "https://public-atla-mainnet.fastnode.io" "fastnode"
      ∷ tracked ps "https://rpc.atleta.at.htw.tech" "Hightower"
      ∷ tracked ps "wss://rpc.atleta.at.htw.tech" "Hightower"
      ∷ tracked ps "https://atleta.nownodes.io" "nownodes"
      ∷ [])
    ∷ chain "7887" (untracked ps "https://rpc.ankr.com/kinto" "ankr" ∷ [])
    ∷ chain "1559" (untracked ps "https://rpc.ankr.com/tenet_evm" "ankr" ∷ [])
    ∷ []

abbrev pub from_42161 : (String → String) → List Field
from_42161 ps =
    chain "42161" (
      text "https://arb1.arbitrum.io/rpc"
      ∷ untracked ps "https://1rpc.io/arb" "onerpc"
      ∷ limited ps "https://arbitrum-one-public.nodies.app" "nodies"
      ∷ tracked ps "https://arb-mainnet.g.alchemy.com/v2/demo" "alchemy"
      ∷ limited ps "https://arbitrum.public.blockpi.network/v1/rpc/public" "blockpi"
      ∷ limited ps "https://arbitrum-one.public.blastapi.io" "blastapi"
      ∷ limited ps "https://arb-mainnet-public.unifra.io" "unifra"
      ∷ tracked ps "https://rpc.arb1.arbitrum.gateway.fm" "gateway"
      ∷ untracked ps "https://arbitrum-one-rpc.publicnode.com" "publicnode"
      ∷ untracked ps "wss://arbitrum-one-rpc.publicnode.com" "publicnode"
      ∷ untracked ps "https://arbitrum.meowrpc.com" "meowrpc"
      ∷ limited ps "https://api.zan.top/arb-one" "zan"
      ∷ untracked ps "https://arbitrum.drpc.org" "drpc"
      ∷ limited ps "https://public.stackup.sh/api/v1/node/arbitrum-one" "stackup"
      ∷ untracked ps "https://api.stateless.solutions/arbitrum-one/v1/demo" "stateless"
      ∷ text "https://arbitrum.rpc.subquery.network/public"
      ∷ tracked ps "https://arbitrum.gateway.tenderly.co" "tenderly"
      ∷ untracked ps "wss://arbitrum.callstaticrpc.com" "callstatic"
      ∷ untracked ps "https://endpoints.omniatech.io/v1/arbitrum/one/public" "omnia"
      ∷ tracked ps "https://arb1.lava.build" "lava"
      ∷ limited ps "https://rpc.owlracle.info/arb/70d38ce1826c4a60bb2a8e05a6c8b20f" "owlracle"
      ∷ limited ps "https://arbitrum.therpc.io" "therpc"
      ∷ limited ps "https://arbitrum.api.onfinality.io/public" "onfinality"
      ∷ tracked ps "https://arb-one-mainnet.gateway.tatum.io/" "tatum"
      ∷ limited ps "https://rpc.poolz.finance/arbitrum" "poolz"
      ∷ tracked ps "https://arbitrum-one.rpc.grove.city/v1/01fdb492" "grove"
      ∷ [])
    ∷ []

abbrev pub from_421613 : (String → String) → List Field
from_421613 ps =
    chain "421613" (
      tracked ps "https://arb-goerli.g.alchemy.com/v2/demo" "alchemy"
      ∷ limited ps "https://arbitrum-goerli.public.blastapi.io" "blastapi"
      ∷ tracked ps "https://rpc.goerli.arbitrum.gateway.fm" "gateway"
      ∷ untracked ps "https://arbitrum-goerli-rpc.publicnode.com" "publicnode"
      ∷ untracked ps "wss://arbitrum-goerli-rpc.publicnode.com" "publicnode"
      ∷ [])
    ∷ chain "42170" (
        text "https://nova.arbitrum.io/rpc"
        ∷ limited ps "https://arbitrum-nova.public.blastapi.io" "blastapi"
        ∷ untracked ps "https://arbitrum-nova-rpc.publicnode.com" "publicnode"
        ∷ untracked ps "wss://arbitrum-nova-rpc.publicnode.com" "publicnode"
        ∷ untracked ps "https://arbitrum-nova.drpc.org" "drpc"
        ∷ tracked ps "https://arb-nova-mainnet.gateway.tatum.io" "tatum"
        ∷ tracked ps "https://arbitrum-nova.gateway.tenderly.co" "tenderly"
        ∷ tracked ps "https://arbnova-mainnet.g.alchemy.com/v2/${ALCHEMY_API_KEY}" "alchemy"
        ∷ tracked ps
            "https://${QUICKNODE_IDENTIFIER}.nova-mainnet.quiknode.pro/${QUICKNODE_API_KEY}"
            "quicknode"
        ∷ tracked ps "https://docs-demo.nova-mainnet.quiknode.pro" "quicknode"
        ∷ [])
    ∷ chain "421614" (
        untracked ps "https://endpoints.omniatech.io/v1/arbitrum/sepolia/public" "omnia"
        ∷ limited ps "https://public.stackup.sh/api/v1/node/arbitrum-sepolia" "stackup"
        ∷ tracked ps "https://arbitrum-sepolia.gateway.tenderly.co" "tenderly"
        ∷ limited ps "https://api.zan.top/arb-sepolia" "zan"
        ∷ limited ps "https://arbitrum-sepolia.api.onfinality.io/public" "onfinality"
        ∷ untracked ps "https://arbitrum-sepolia.drpc.org" "drpc"
        ∷ untracked ps "wss://arbitrum-sepolia.drpc.org" "drpc"
        ∷ limited ps "https://arbitrum-sepolia.therpc.io" "therpc"
        ∷ tracked ps "https://arbitrum-sepolia-testnet.rpc.grove.city/v1/01fdb492" "grove"
        ∷ [])
    ∷ []

abbrev pub from_8217 : (String → String) → List Field
from_8217 ps =
    chain "8217" (
      text "https://public-en.node.kaia.io"
      ∷ tracked ps "https://alpha-hardworking-orb.kaia-mainnet.quiknode.pro/" "quicknode"
      ∷ limited ps "https://kaia.blockpi.network/v1/rpc/public" "blockpi"
      ∷ tracked ps "https://kaia.rpc.grove.city/v1/803ceedf" "grove"
      ∷ limited ps "https://kaia-public.nodies.app" "nodies"
      ∷ untracked ps "https://go.getblock.io/YOUR_GETBLOCK_API_KEY" "getblock"
      ∷ limited ps "https://klaytn.api.onfinality.io/public" "onfinality"
      ∷ untracked ps "https://1rpc.io/klay" "onerpc"
      ∷ untracked ps "https://klaytn.drpc.org" "drpc"
      ∷ limited ps "https://rpc.ankr.com/kaia" "ankr"
      ∷ limited ps "https://kaia.therpc.io" "therpc"
      ∷ limited ps "https://kaia-mainnet.gateway.tatum.io/" "tatum"
      ∷ [])
    ∷ chain "1666600000" (
        text "https://api.harmony.one"
        ∷ text "https://a.api.s0.t.hmny.io"
        ∷ text "https://api.s0.t.hmny.io"
        ∷ untracked ps "https://1rpc.io/one" "onerpc"
        ∷ untracked ps "https://endpoints.omniatech.io/v1/harmony/mainnet-0/public" "omnia"
        ∷ untracked ps "https://harmony-0.drpc.org" "drpc"
        ∷ untracked ps "wss://harmony-0.drpc.org" "drpc"
        ∷ limited ps "https://rpc.owlracle.info/one/70d38ce1826c4a60bb2a8e05a6c8b20f" "owlracle"
        ∷ tracked ps "https://harmony.rpc.grove.city/v1/01fdb492" "grove"
        ∷ [])
    ∷ chain "168587773" (
        text "https://sepolia.blast.io"
        ∷ untracked ps "https://endpoints.omniatech.io/v1/blast/sepolia/public" "omnia"
        ∷ limited ps "https://blast-testnet-public.nodies.app" "nodies"
        ∷ untracked ps "https://rpc.ankr.com/blast_testnet_sepolia" "ankr"
        ∷ [])
    ∷ []

abbrev pub from_81457 : (String → String) → List Field
from_81457 ps =
    chain "81457" (
      text "https://rpc.blast.io"
      ∷ text "https://blast.din.dev/rpc"
      ∷ text "https://blastl2-mainnet.public.blastapi.io"
      ∷ limited ps "https://rpc.ankr.com/blast" "ankr"
      ∷ untracked ps "https://blast.gasswap.org" "gasswap"
      ∷ untracked ps "wss://blast.gasswap.org" "gasswap"
      ∷ untracked ps "https://blast-rpc.publicnode.com" "publicnode"
      ∷ untracked ps "wss://blast-rpc.publicnode.com" "publicnode"
      ∷ untracked ps "https://blast.drpc.org" "drpc"
      ∷ untracked ps "wss://blast.drpc.org" "drpc"
      ∷ tracked ps "https://blast.gateway.tenderly.co" "tenderly"
      ∷ untracked ps "wss://blast.callstaticrpc.com" "callstatic"
      ∷ untracked ps "https://endpoints.omniatech.io/v1/blast/mainnet/public" "omnia"
      ∷ limited ps "https://rpc.owlracle.info/blast/70d38ce1826c4a60bb2a8e05a6c8b20f" "owlracle"
      ∷ limited ps "https://blast-public.nodies.app" "nodies"
      ∷ limited ps "https://blast.therpc.io" "therpc"
      ∷ tracked ps "https://blast.rpc.grove.city/v1/01fdb492" "grove"
      ∷ [])
    ∷ chain "5611" (limited ps "https://opbnb-testnet.therpc.io" "therpc" ∷ [])
    ∷ chain "204" (
        text "https://opbnb-mainnet-rpc.bnbchain.org"
        ∷ untracked ps "https://opbnb.drpc.org" "drpc"
        ∷ untracked ps "wss://opbnb.drpc.org" "drpc"
        ∷ untracked ps "https://opbnb-rpc.publicnode.com" "publicnode"
        ∷ untracked ps "wss://opbnb-rpc.publicnode.com" "publicnode"
        ∷ untracked ps "https://1rpc.io/opbnb" "onerpc"
        ∷ limited ps "https://opbnb-mainnet.4everland.org/v1/YOUR_4EVERLAND_API_KEY" "4everland"
        ∷ limited ps "wss://opbnb-mainnet.4everland.org/ws/v1/37fa9972c1b1cd5fab542c7bdd4cde2f"
            "4everland"
        ∷ limited ps "https://opbnb.therpc.io" "therpc"
        ∷ tracked ps "https://opbnb.rpc.grove.city/v1/01fdb492" "grove"
        ∷ [])
    ∷ chain "1666700000" (
        text "https://api.s0.b.hmny.io"
        ∷ untracked ps "https://endpoints.omniatech.io/v1/harmony/testnet-0/public" "omnia"
        ∷ [])
    ∷ []
