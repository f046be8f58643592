-- ===== src/Registry/ExtraRpcs/From820.antt =====
-- constants/extraRpcs.js, lines 3358 to 3653: `ps` gives the texts of `privacyStatement`.
use pricefeeding.Prelude.{String, List, [], ◌∷◌, true, false}
use pricefeeding.Registry.Js.{Field, text, bool, end_fields, ◌∶◌, ◌⨾◌}
use pricefeeding.Registry.ExtraRpcs.{untracked, limited, tracked, chain, chain_and}

abbrev pub from_820 : (String → String) → List Field
from_820 ps =
    chain "820" (text "https://rpc.callistodao.org" ∷ [])
    ∷ chain "108" (
        text "https://mainnet-rpc.thundercore.com"
        ∷ untracked ps "https://thundercore.drpc.org" "drpc"
        ∷ untracked ps "wss://thundercore.drpc.org" "drpc"
        ∷ [])
    ∷ chain "20" (
        text "https://api.elastos.io/esc"
        ∷ text "https://api.trinity-tech.io/esc"
        ∷ text "https://api2.elastos.io/esc"
        ∷ text "https://api2.elastos.net/esc"
        ∷ text "https://api2.elastos.io/eth"
        ∷ text "https://api2.elastos.net/eth"
        ∷ text "https://rpc.glidefinance.io/"
        ∷ [])
    ∷ chain "82" (
        text "https://rpc.meter.io"
        ∷ tracked ps "https://rpc-meter.jellypool.xyz/" "jellypool"
        ∷ limited ps "https://meter.blockpi.network/v1/rpc/public" "blockpi"
        ∷ [])
    ∷ chain "5551" (text "https://l2.nahmii.io/" ∷ [])
    ∷ chain "88" (
        limited ps "https://viction.blockpi.network/v1/rpc/public" "blockpi"
        ∷ untracked ps "https://viction.drpc.org" "drpc"
        ∷ untracked ps "wss://viction.drpc.org" "drpc"
        ∷ [])
    ∷ chain "246" (text "https://rpc.energyweb.org" ∷ [])
    ∷ chain "57" (
        text "https://rpc.syscoin.org"
        ∷ limited ps "https://rpc.ankr.com/syscoin" "ankr"
        ∷ untracked ps "https://syscoin-evm.publicnode.com" "publicnode"
        ∷ untracked ps "wss://syscoin-evm.publicnode.com" "publicnode"
        ∷ [])
    ∷ chain "8" (text "https://rpc.octano.dev" ∷ [])
    ∷ chain "5050" (text "https://rpc.liquidchain.net/" ∷ text "https://rpc.xlcscan.com/" ∷ [])
    ∷ chain "333999" (text "https://rpc.polis.tech" ∷ [])
    ∷ chain "55" (
        text "https://rpc-1.zyx.network/"
        ∷ text "https://rpc-2.zyx.network/"
        ∷ text "https://rpc-3.zyx.network/"
        ∷ text "https://rpc-5.zyx.network/"
        ∷ [])
    ∷ chain "60" (text "https://rpc.gochain.io" ∷ [])
    ∷ chain "11297108109" (
        limited ps "https://palm-mainnet.infura.io/v3/YOUR_INFURA_PROJECT_ID" "infura"
        ∷ limited ps "https://palm-mainnet.public.blastapi.io" "blastapi"
        ∷ tracked ps "https://palm-mainnet.gateway.tatum.io" "tatum"
        ∷ [])
    ∷ chain "7" (text "https://rpc.dome.cloud" ∷ [])
    ∷ chain "11" (text "https://api.metadium.com/dev" ∷ [])
    ∷ chain "14" (
        untracked ps " https://rpc.ankr.com/flare" "ankr"
        ∷ tracked ps "https://flare-mainnet.gateway.tatum.io/" "tatum"
        ∷ [])
    ∷ []

abbrev pub from_15 : (String → String) → List Field
from_15 ps =
    chain "15" (text "https://prenet.diode.io:8443/" ∷ [])
    ∷ chain "17" (text "https://rpc.thaifi.com" ∷ [])
    ∷ chain "17000" (
        untracked ps "https://1rpc.io/holesky" "onerpc"
        ∷ untracked ps "https://ethereum-holesky-rpc.publicnode.com" "publicnode"
        ∷ untracked ps "wss://etherem-holesky-rpc.publicnode.com" "publicnode"
        ∷ untracked ps "https://holesky-rpc.nocturnode.tech" "nocturnDao"
        ∷ tracked ps "https://holesky.gateway.tenderly.co" "tenderly"
        ∷ untracked ps "https://endpoints.omniatech.io/v1/eth/holesky/public" "omnia"
        ∷ limited ps "https://api.zan.top/eth-holesky" "zan"
        ∷ tracked ps "https://eth-holesky-testnet.rpc.grove.city/v1/01fdb492" "grove"
        ∷ [])
    ∷ chain "22" (text "https://api.trinity-tech.io/eid" ∷ text "https://api.elastos.io/eid" ∷ [])
    ∷ chain "24" (text "https://rpc.kardiachain.io" ∷ [])
    ∷ chain_and "27" ("websiteUrl" ∶ text "https://shibachain.net/" ⨾ end_fields)
        (text "https://rpc.shibachain.net" ∷ [])
    ∷ chain "29" (text "https://rpc.genesisl1.org" ∷ [])
    ∷ chain_and "33" ("rpcWorking" ∶ bool false ⨾ end_fields) (text "https://rpc.goodata.io" ∷ [])
    ∷ chain "35" (text "https://rpc.tbwg.io" ∷ [])
    ∷ chain_and "38" ("websiteDead" ∶ bool true ⨾ "rpcWorking" ∶ bool false ⨾ end_fields)
        (text "https://rpc.valorbit.com/v2" ∷ [])
    ∷ chain "44" (limited ps "https://crab.api.onfinality.io/public" "onfinality" ∷ [])
    ∷ chain "50" (
        text "https://rpc.xdcrpc.com"
        ∷ text "wss://rpc.xdcrpc.com/ws"
        ∷ text "https://rpc1.xinfin.network"
        ∷ text "https://erpc.xinfin.network"
        ∷ text "https://erpc.xdcrpc.com"
        ∷ text "wss://erpc.xdcrpc.com/ws"
        ∷ text "https://rpc.xdc.org"
        ∷ text "https://rpc.xdc.network"
        ∷ text "https://earpc.xinfin.network/"
        ∷ text "https://erpc.xinfin.network/"
        ∷ text "wss://ews.xinfin.network/ws"
        ∷ limited ps "https://rpc.ankr.com/xdc" "ankr"
        ∷ tracked ps "https://xdc-mainnet.gateway.tatum.io" "tatum"
        ∷ [])
    ∷ chain "51" (
        text "https://erpc.apothem.network"
        ∷ text "https://apothem.xdcrpc.com"
        ∷ text "https://rpc.ankr.com/xdc_testnet"
        ∷ text "https://earpc.apothem.network/"
        ∷ text "https://erpc.apothem.network/"
        ∷ text "wss://eaws.apothem.network/"
        ∷ [])
    ∷ chain "58" (
        text "https://dappnode1.ont.io:10339"
        ∷ text "https://dappnode2.ont.io:10339"
        ∷ text "https://dappnode3.ont.io:10339"
        ∷ text "https://dappnode4.ont.io:10339"
        ∷ [])
    ∷ chain "59" (text "https://api.eosargentina.io" ∷ text "https://api.metahub.cash" ∷ [])
    ∷ chain "15557" (tracked ps "https://api.testnet.evm.eosnetwork.com" "eosnetwork" ∷ [])
    ∷ chain "17777" (tracked ps "https://api.evm.eosnetwork.com" "eosnetwork" ∷ [])
    ∷ []
