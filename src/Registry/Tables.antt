-- ===== src/Registry/Tables.antt =====
-- constants/chainIds.js, constants/walletIcons.js, constants/hypelab.js.
use pricefeeding.Prelude.{String}
use pricefeeding.Registry.Js.{text, Fields, end_fields, ◌∶◌, ◌⨾◌}

abbrev chain_ids_from_2222 : Fields
chain_ids_from_2222 =
    "2222" ∶ text "kava"
    ⨾ "2332" ∶ text "soma"
    ⨾ "2345" ∶ text "goat"
    ⨾ "2410" ∶ text "karak"
    ⨾ "2649" ∶ text "ailayer"
    ⨾ "2741" ∶ text "abstract"
    ⨾ "2818" ∶ text "morph"
    ⨾ "3073" ∶ text "move"
    ⨾ "3338" ∶ text "peaq"
    ⨾ "3637" ∶ text "botanix"
    ⨾ "4158" ∶ text "crossfi"
    ⨾ "4337" ∶ text "beam"
    ⨾ "4488" ∶ text "hydra_chain"
    ⨾ "4689" ∶ text "iotex"
    ⨾ "5000" ∶ text "mantle"
    ⨾ "5031" ∶ text "somnia"
    ⨾ "5050" ∶ text "skate"
    ⨾ "5330" ∶ text "superseed"
    ⨾ "5432" ∶ text "yeying"
    ⨾ "5464" ∶ text "saga"
    ⨾ "5551" ∶ text "nahmii"
    ⨾ "6001" ∶ text "bouncebit"
    ⨾ "6880" ∶ text "mtt network"
    ⨾ "6900" ∶ text "nibiru"
    ⨾ "6969" ∶ text "tombchain"
    ⨾ "7000" ∶ text "zetachain"
    ⨾ "7070" ∶ text "planq"
    ⨾ "7171" ∶ text "bitrock"
    ⨾ "7200" ∶ text "xsat"
    ⨾ "7332" ∶ text "horizen_eon"
    ⨾ "7560" ∶ text "cyeth"
    ⨾ "7700" ∶ text "canto"
    ⨾ "8217" ∶ text "klaytn"
    ⨾ "8428" ∶ text "that"
    ⨾ "8453" ∶ text "base"
    ⨾ "8668" ∶ text "hela"
    ⨾ "8811" ∶ text "haven1"
    ⨾ "8822" ∶ text "iotaevm"
    ⨾ "8899" ∶ text "jbc"
    ⨾ "9001" ∶ text "evmos"
    ⨾ "9745" ∶ text "plasma"
    ⨾ "9790" ∶ text "carbon"
    ⨾ "10000" ∶ text "smartbch"
    ⨾ "10507" ∶ text "numbers"
    ⨾ "11820" ∶ text "artela"
    ⨾ "13371" ∶ text "immutable zkevm"
    ⨾ "15551" ∶ text "loop"
    ⨾ "16116" ∶ text "defiverse"
    ⨾ "16507" ∶ text "genesys"
    ⨾ "16718" ∶ text "airdao"
    ⨾ "17777" ∶ text "eos evm"
    ⨾ "18888" ∶ text "titan"
    ⨾ "20402" ∶ text "muuchain"
    ⨾ "22776" ∶ text "map protocol"
    ⨾ "23294" ∶ text "sapphire"
    ⨾ "32380" ∶ text "paix"
    ⨾ "32520" ∶ text "bitgert"
    ⨾ "32659" ∶ text "fusion"
    ⨾ "32769" ∶ text "zilliqa"
    ⨾ "33139" ∶ text "apechain"
    ⨾ "34443" ∶ text "mode"
    ⨾ "35441" ∶ text "q_protocol"
    ⨾ "39797" ∶ text "energi"
    ⨾ "41455" ∶ text "aleph_zero_evm"
    ⨾ "41923" ∶ text "edu chain"
    ⨾ "42161" ∶ text "arbitrum"
    ⨾ "42170" ∶ text "arbitrum nova"
    ⨾ "42220" ∶ text "celo"
    ⨾ "42262" ∶ text "oasis"
    ⨾ "42420" ∶ text "assetchain"
    ⨾ "42793" ∶ text "etherlink"
    ⨾ "43111" ∶ text "hemi"
    ⨾ "43114" ∶ text "avalanche"
    ⨾ "47763" ∶ text "neo_x_mainnet"
    ⨾ "47805" ∶ text "rei"
    ⨾ "48900" ∶ text "zircuit"
    ⨾ "50104" ∶ text "sophon"
    ⨾ "52014" ∶ text "etn"
    ⨾ "55244" ∶ text "superposition"
    ⨾ "55555" ∶ text "reichain"
    ⨾ "56288" ∶ text "boba_bnb"
    ⨾ "57073" ∶ text "ink"
    ⨾ "59144" ∶ text "linea"
    ⨾ "60808" ∶ text "bob"
    ⨾ "71402" ∶ text "godwoken"
    ⨾ "78887" ∶ text "lung"
    ⨾ "80094" ∶ text "berachain"
    ⨾ "81457" ∶ text "blast"
    ⨾ "88888" ∶ text "chiliz"
    ⨾ "98865" ∶ text "plume_deprecated"
    ⨾ "98866" ∶ text "plume"
    ⨾ "105105" ∶ text "stratis"
    ⨾ "111188" ∶ text "real"
    ⨾ "153153" ∶ text "odyssey"
    ⨾ "167000" ∶ text "taiko"
    ⨾ "200901" ∶ text "bitlayer"
    ⨾ "222222" ∶ text "hydradx"
    ⨾ "256256" ∶ text "cmp"
    ⨾ "322202" ∶ text "parex"
    ⨾ "333999" ∶ text "polis"
    ⨾ "420420" ∶ text "kekchain"
    ⨾ "510003" ∶ text "commons"
    ⨾ "534352" ∶ text "scroll"
    ⨾ "543210" ∶ text "zero_network"
    ⨾ "747474" ∶ text "katana"
    ⨾ "777777" ∶ text "winr"
    ⨾ "810180" ∶ text "zklink nova"
    ⨾ "888888" ∶ text "vision"
    ⨾ "900000" ∶ text "posichain"
    ⨾ "1440000" ∶ text "xrpl_evm"
    ⨾ "7000700" ∶ text "jmdt"
    ⨾ "7225878" ∶ text "saakuru"
    ⨾ "7777777" ∶ text "zora"
    ⨾ "9999999" ∶ text "fluence"
    ⨾ "20250217" ∶ text "xphere"
    ⨾ "21000000" ∶ text "corn"
    ⨾ "245022934" ∶ text "neon"
    ⨾ "253368190" ∶ text "flame"
    ⨾ "994873017" ∶ text "lumia"
    ⨾ "1313161554" ∶ text "aurora"
    ⨾ "1666600000" ∶ text "harmony"
    ⨾ "11297108109" ∶ text "palm"
    ⨾ "123420001114" ∶ text "basecamp"
    ⨾ "383414847825" ∶ text "zeniq"
    ⨾ "836542336838601" ∶ text "curio"
    ⨾ "2716446429837000" ∶ text "dchain"
    ⨾ end_fields

-- The names of the chains, by their ids.
abbrev pub chain_ids : Fields
chain_ids =
    "0" ∶ text "kardia"
    ⨾ "1" ∶ text "ethereum"
    ⨾ "8" ∶ text "ubiq"
    ⨾ "10" ∶ text "optimism"
    ⨾ "14" ∶ text "flare"
    ⨾ "19" ∶ text "songbird"
    ⨾ "20" ∶ text "elastos"
    ⨾ "24" ∶ text "kardia"
    ⨾ "25" ∶ text "cronos"
    ⨾ "30" ∶ text "rsk"
    ⨾ "40" ∶ text "telos"
    ⨾ "42" ∶ text "lukso"
    ⨾ "44" ∶ text "crab"
    ⨾ "46" ∶ text "darwinia"
    ⨾ "50" ∶ text "xdc"
    ⨾ "52" ∶ text "csc"
    ⨾ "55" ∶ text "zyx"
    ⨾ "56" ∶ text "binance"
    ⨾ "57" ∶ text "syscoin"
    ⨾ "58" ∶ text "ontologyevm"
    ⨾ "60" ∶ text "gochain"
    ⨾ "61" ∶ text "ethereumclassic"
    ⨾ "66" ∶ text "okexchain"
    ⨾ "70" ∶ text "hoo"
    ⨾ "82" ∶ text "meter"
    ⨾ "87" ∶ text "nova network"
    ⨾ "88" ∶ text "tomochain"
    ⨾ "96" ∶ text "bitkub"
    ⨾ "100" ∶ text "xdai"
    ⨾ "106" ∶ text "velas"
    ⨾ "108" ∶ text "thundercore"
    ⨾ "119" ∶ text "enuls"
    ⨾ "122" ∶ text "fuse"
    ⨾ "128" ∶ text "heco"
    ⨾ "130" ∶ text "unichain"
    ⨾ "137" ∶ text "polygon"
    ⨾ "146" ∶ text "sonic"
    ⨾ "148" ∶ text "shimmer_evm"
    ⨾ "151" ∶ text "rbn"
    ⨾ "166" ∶ text "omni"
    ⨾ "169" ∶ text "manta"
    ⨾ "173" ∶ text "eni"
    ⨾ "177" ∶ text "hsk"
    ⨾ "181" ∶ text "water"
    ⨾ "196" ∶ text "xlayer"
    ⨾ "199" ∶ text "bittorrent"
    ⨾ "200" ∶ text "xdaiarb"
    ⨾ "204" ∶ text "op_bnb"
    ⨾ "207" ∶ text "vinuchain"
    ⨾ "225" ∶ text "lachain"
    ⨾ "232" ∶ text "lc"
    ⨾ "239" ∶ text "tac"
    ⨾ "246" ∶ text "energyweb"
    ⨾ "248" ∶ text "oasys"
    ⨾ "250" ∶ text "fantom"
    ⨾ "252" ∶ text "fraxtal"
    ⨾ "269" ∶ text "hpb"
    ⨾ "274" ∶ text "lachain_network"
    ⨾ "277" ∶ text "prom"
    ⨾ "288" ∶ text "boba"
    ⨾ "291" ∶ text "orderly"
    ⨾ "295" ∶ text "hbar"
    ⨾ "311" ∶ text "omax"
    ⨾ "314" ∶ text "filecoin"
    ⨾ "321" ∶ text "kucoin"
    ⨾ "324" ∶ text "zksync era"
    ⨾ "336" ∶ text "shiden"
    ⨾ "361" ∶ text "theta"
    ⨾ "369" ∶ text "pulse"
    ⨾ "388" ∶ text "cronos zkevm"
    ⨾ "416" ∶ text "sx"
    ⨾ "463" ∶ text "areum"
    ⨾ "478" ∶ text "form network"
    ⨾ "480" ∶ text "wc"
    ⨾ "510" ∶ text "syndicate"
    ⨾ "529" ∶ text "firechain"
    ⨾ "534" ∶ text "candle"
    ⨾ "570" ∶ text "rollux"
    ⨾ "592" ∶ text "astar"
    ⨾ "648" ∶ text "endurance"
    ⨾ "690" ∶ text "redstone"
    ⨾ "698" ∶ text "matchain"
    ⨾ "747" ∶ text "flow"
    ⨾ "820" ∶ text "callisto"
    ⨾ "841" ∶ text "tara"
    ⨾ "888" ∶ text "wanchain"
    ⨾ "957" ∶ text "lyra chain"
    ⨾ "996" ∶ text "bifrost"
    ⨾ "999" ∶ text "hyperliquid"
    ⨾ "1030" ∶ text "conflux"
    ⨾ "1088" ∶ text "metis"
    ⨾ "1100" ∶ text "dymension"
    ⨾ "1101" ∶ text "polygon zkevm"
    ⨾ "1116" ∶ text "core"
    ⨾ "1124" ∶ text "ecm"
    ⨾ "1130" ∶ text "defichain_evm"
    ⨾ "1135" ∶ text "lisk"
    ⨾ "1231" ∶ text "ultron"
    ⨾ "1234" ∶ text "step"
    ⨾ "1284" ∶ text "moonbeam"
    ⨾ "1285" ∶ text "moonriver"
    ⨾ "1329" ∶ text "sei"
    ⨾ "1424" ∶ text "perennial"
    ⨾ "1440" ∶ text "living assets mainnet"
    ⨾ "1514" ∶ text "sty"
    ⨾ "1559" ∶ text "tenet"
    ⨾ "1625" ∶ text "gravity"
    ⨾ "1729" ∶ text "reya network"
    ⨾ "1818" ∶ text "cube"
    ⨾ "1868" ∶ text "soneium"
    ⨾ "1907" ∶ text "bitcichain"
    ⨾ "1923" ∶ text "swellchain"
    ⨾ "1975" ∶ text "onus"
    ⨾ "1992" ∶ text "hubblenet"
    ⨾ "1996" ∶ text "sanko"
    ⨾ "2000" ∶ text "dogechain"
    ⨾ "2001" ∶ text "milkomeda"
    ⨾ "2002" ∶ text "milkomeda_a1"
    ⨾ "2020" ∶ text "ronin"
    ⨾ "2152" ∶ text "findora"
    ⨾ chain_ids_from_2222

abbrev pub wallet_icons : Fields
wallet_icons =
    "Coinbase Wallet" ∶ text "/connectors/coinbaseWalletIcon.svg"
    ⨾ "Ctrl Wallet" ∶ text "/connectors/icn-ctrl.svg"
    ⨾ "Taho" ∶ text "/connectors/icn-taho.svg"
    ⨾ "Brave Wallet" ∶ text "/connectors/icn-bravewallet.svg"
    ⨾ "Metamask" ∶ text "/connectors/icn-metamask.svg"
    ⨾ "imToken" ∶ text "/connectors/icn-imtoken.svg"
    ⨾ "Wallet" ∶ text "/connectors/icn-metamask.svg"
    ⨾ "Trust Wallet" ∶ text "/connectors/icon-trust.svg"
    ⨾ end_fields

abbrev pub hypelab_property_slug : String
hypelab_property_slug = "chainlist"

abbrev pub hypelab_api_url : String
hypelab_api_url = "https://api.hypelab.com"

abbrev pub hypelab_native_placement_slug : String
hypelab_native_placement_slug = "134be8540e"
