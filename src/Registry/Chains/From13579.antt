-- ===== src/Registry/Chains/From13579.antt =====
-- constants/additionalChainRegistry/chainid-13579.js to chainid-1440000.js, in the order of the directory.
use pricefeeding.Registry.Js.{
  JsValue, text, number, bool, array, object, end_items, ◌⨟◌, end_fields, ◌⨾◌, ◌∶◌,
}
use pricefeeding.Prelude.{true}

-- chainid-13579.js
abbrev pub chainid_13579 : JsValue
chainid_13579 = object (
    "name" ∶ text "Intuition Testnet"
    ⨾ "chain" ∶ text "INTUITION"
    ⨾ "rpc" ∶ array (text "https://testnet.rpc.intuition.systems" ⨟ end_items)
    ⨾ "faucets" ∶ array end_items
    ⨾ "nativeCurrency"
      ∶ object (
          "name" ∶ text "Testnet TRUST"
          ⨾ "symbol" ∶ text "TTRUST"
          ⨾ "decimals" ∶ number 18
          ⨾ end_fields)
    ⨾ "features"
      ∶ array (
          object ("name" ∶ text "EIP155" ⨾ end_fields)
          ⨟ object ("name" ∶ text "EIP1559" ⨾ end_fields)
          ⨟ end_items)
    ⨾ "infoURL" ∶ text "https://intuition.systems"
    ⨾ "shortName" ∶ text "intuition-testnet"
    ⨾ "chainId" ∶ number 13579
    ⨾ "networkId" ∶ number 13579
    ⨾ "icon" ∶ text "intuition"
    ⨾ "explorers"
      ∶ array (
          object (
            "name" ∶ text "IntuitionScan (Testnet)"
            ⨾ "url" ∶ text "https://testnet.explorer.intuition.systems"
            ⨾ "icon" ∶ text "intuitionscan"
            ⨾ "standard" ∶ text "EIP3091"
            ⨾ end_fields)
          ⨟ end_items)
    ⨾ "testnet" ∶ bool true
    ⨾ end_fields)

-- chainid-1380012617.js
abbrev pub chainid_1380012617 : JsValue
chainid_1380012617 = object (
    "name" ∶ text "RARI Chain"
    ⨾ "chain" ∶ text "RARI"
    ⨾ "icon" ∶ text "rari"
    ⨾ "rpc"
      ∶ array (
          text "https://mainnet.rpc.rarichain.org/http/"
          ⨟ text "wss://mainnet.rpc.rarichain.org/ws"
          ⨟ end_items)
    ⨾ "features"
      ∶ array (
          object ("name" ∶ text "EIP155" ⨾ end_fields)
          ⨟ object ("name" ∶ text "EIP1559" ⨾ end_fields)
          ⨟ end_items)
    ⨾ "faucets" ∶ array end_items
    ⨾ "nativeCurrency"
      ∶ object
          ("name" ∶ text "Ethereum" ⨾ "symbol" ∶ text "ETH" ⨾ "decimals" ∶ number 18 ⨾ end_fields)
    ⨾ "infoURL" ∶ text "https://rarichain.org/"
    ⨾ "shortName" ∶ text "rari"
    ⨾ "chainId" ∶ number 1380012617
    ⨾ "networkId" ∶ number 1380012617
    ⨾ "explorers"
      ∶ array (
          object (
            "name" ∶ text "Blockscout"
            ⨾ "url" ∶ text "https://mainnet.explorer.rarichain.org/"
            ⨾ end_fields)
          ⨟ end_items)
    ⨾ end_fields)

-- chainid-13863860.js
abbrev pub chainid_13863860 : JsValue
chainid_13863860 = object (
    "name" ∶ text "Symbiosis"
    ⨾ "chain" ∶ text "SIS"
    ⨾ "icon" ∶ text "symbiosis"
    ⨾ "rpc" ∶ array (text "https://symbiosis.calderachain.xyz/http" ⨟ end_items)
    ⨾ "faucets" ∶ array end_items
    ⨾ "nativeCurrency"
      ∶ object
          ("name" ∶ text "Symbiosis" ⨾ "symbol" ∶ text "SIS" ⨾ "decimals" ∶ number 18 ⨾ end_fields)
    ⨾ "features"
      ∶ array (
          object ("name" ∶ text "EIP155" ⨾ end_fields)
          ⨟ object ("name" ∶ text "EIP1559" ⨾ end_fields)
          ⨟ end_items)
    ⨾ "infoURL" ∶ text "https://symbiosis.finance"
    ⨾ "shortName" ∶ text "sis"
    ⨾ "chainId" ∶ number 13863860
    ⨾ "networkId" ∶ number 13863860
    ⨾ "explorers"
      ∶ array (
          object (
            "name" ∶ text "Symbiosis explorer"
            ⨾ "url" ∶ text "https://symbiosis.calderaexplorer.xyz"
            ⨾ end_fields)
          ⨟ end_items)
    ⨾ end_fields)

-- chainid-14.js
abbrev pub chainid_14 : JsValue
chainid_14 = object (
    "name" ∶ text "Flare Mainnet"
    ⨾ "chain" ∶ text "FLR"
    ⨾ "icon" ∶ text "flare"
    ⨾ "rpc"
      ∶ array (
          text "https://flare-api.flare.network/ext/C/rpc"
          ⨟ text "https://flare.rpc.thirdweb.com"
          ⨟ text "https://flare-bundler.etherspot.io"
          ⨟ text "https://rpc.ankr.com/flare"
          ⨟ text "https://rpc.au.cc/flare"
          ⨟ text "https://flare.enosys.global/ext/C/rpc"
          ⨟ text "https://flare.solidifi.app/ext/C/rpc"
          ⨟ end_items)
    ⨾ "features"
      ∶ array (
          object ("name" ∶ text "EIP155" ⨾ end_fields)
          ⨟ object ("name" ∶ text "EIP1559" ⨾ end_fields)
          ⨟ end_items)
    ⨾ "faucets" ∶ array end_items
    ⨾ "nativeCurrency"
      ∶ object ("name" ∶ text "Flare" ⨾ "symbol" ∶ text "FLR" ⨾ "decimals" ∶ number 18 ⨾ end_fields)
    ⨾ "infoURL" ∶ text "https://flare.network"
    ⨾ "shortName" ∶ text "flr"
    ⨾ "chainId" ∶ number 14
    ⨾ "networkId" ∶ number 14
    ⨾ "explorers"
      ∶ array (
          object (
            "name" ∶ text "blockscout"
            ⨾ "url" ∶ text "https://flare-explorer.flare.network"
            ⨾ "standard" ∶ text "EIP3091"
            ⨾ end_fields)
          ⨟ object (
              "name" ∶ text "Routescan"
              ⨾ "url" ∶ text "https://mainnet.flarescan.com"
              ⨾ "standard" ∶ text "EIP3091"
              ⨾ end_fields)
          ⨟ end_items)
    ⨾ end_fields)

-- chainid-1409.js
abbrev pub chainid_1409 : JsValue
chainid_1409 = object (
    "name" ∶ text "VFlow Volta Testnet"
    ⨾ "chain" ∶ text "TVFL"
    ⨾ "rpc"
      ∶ array (
          text "wss://vflow-volta-rpc.zkverify.io"
          ⨟ text "https://vflow-volta-rpc.zkverify.io"
          ⨟ end_items)
    ⨾ "faucets" ∶ array end_items
    ⨾ "nativeCurrency"
      ∶ object (
          "name" ∶ text "Testnet zkVerify"
          ⨾ "symbol" ∶ text "tVFY"
          ⨾ "decimals" ∶ number 18
          ⨾ end_fields)
    ⨾ "features" ∶ array (object ("name" ∶ text "EIP1559" ⨾ end_fields) ⨟ end_items)
    ⨾ "infoURL" ∶ text "https://zkverify.io"
    ⨾ "shortName" ∶ text "tvfl"
    ⨾ "chainId" ∶ number 1409
    ⨾ "networkId" ∶ number 1409
    ⨾ "icon" ∶ text "ethereum"
    ⨾ "explorers"
      ∶ array (
          object (
            "name" ∶ text "subscan"
            ⨾ "url" ∶ text "https://vflow-testnet.subscan.io"
            ⨾ "icon" ∶ text "subscan"
            ⨾ "standard" ∶ text "EIP3091"
            ⨾ end_fields)
          ⨟ end_items)
    ⨾ end_fields)

-- chainid-1439.js
abbrev pub chainid_1439 : JsValue
chainid_1439 = object (
    "name" ∶ text "Injective Testnet"
    ⨾ "chain" ∶ text "Injective"
    ⨾ "icon" ∶ text "injective"
    ⨾ "rpc"
      ∶ array (
          text "https://testnet.sentry.chain.json-rpc.injective.network"
          ⨟ text "wss://testnet.sentry.chain.json-rpc.injective.network"
          ⨟ text "https://injectiveevm-testnet-rpc.polkachu.com"
          ⨟ text "wss://injectiveevm-testnet-rpc.polkachu.com"
          ⨟ end_items)
    ⨾ "features"
      ∶ array (
          object ("name" ∶ text "EIP155" ⨾ end_fields)
          ⨟ object ("name" ∶ text "EIP1559" ⨾ end_fields)
          ⨟ end_items)
    ⨾ "faucets" ∶ array (text "https://testnet.faucet.injective.network" ⨟ end_items)
    ⨾ "nativeCurrency"
      ∶ object
          ("name" ∶ text "Injective" ⨾ "symbol" ∶ text "INJ" ⨾ "decimals" ∶ number 18 ⨾ end_fields)
    ⨾ "infoURL" ∶ text "https://injective.com"
    ⨾ "shortName" ∶ text "injective-testnet"
    ⨾ "chainId" ∶ number 1439
    ⨾ "networkId" ∶ number 1439
    ⨾ "explorers"
      ∶ array (
          object (
            "name" ∶ text "blockscout"
            ⨾ "url" ∶ text "https://testnet.blockscout.injective.network"
            ⨾ "icon" ∶ text "blockscout"
            ⨾ "standard" ∶ text "EIP3091"
            ⨾ end_fields)
          ⨟ end_items)
    ⨾ end_fields)

-- chainid-1440000.js
abbrev pub chainid_1440000 : JsValue
chainid_1440000 = object (
    "name" ∶ text "XRPL EVM"
    ⨾ "chain" ∶ text "XRPL"
    ⨾ "icon" ∶ text "xrpl evm"
    ⨾ "rpc" ∶ array (text "https://rpc.xrplevm.org/" ⨟ end_items)
    ⨾ "faucets" ∶ array end_items
    ⨾ "nativeCurrency"
      ∶ object ("name" ∶ text "XRP" ⨾ "symbol" ∶ text "XRP" ⨾ "decimals" ∶ number 18 ⨾ end_fields)
    ⨾ "infoURL" ∶ text "https://www.xrplevm.org/"
    ⨾ "shortName" ∶ text "xrplevm"
    ⨾ "chainId" ∶ number 1440000
    ⨾ "networkId" ∶ number 1440000
    ⨾ "slip44" ∶ number 144
    ⨾ "explorers"
      ∶ array (
          object (
            "name" ∶ text "XRPL EVM Explorer"
            ⨾ "url" ∶ text "https://explorer.xrplevm.org"
            ⨾ end_fields)
          ⨟ end_items)
    ⨾ end_fields)
