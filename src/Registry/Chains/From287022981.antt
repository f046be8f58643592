-- ===== src/Registry/Chains/From287022981.antt =====
-- constants/additionalChainRegistry/chainid-287022981.js to chainid-3109.js, in the order of the directory.
use pricefeeding.Registry.Js.{
  JsValue, text, number, array, object, end_items, ◌⨟◌, end_fields, ◌⨾◌, ◌∶◌,
}

-- chainid-287022981.js
abbrev pub chainid_287022981 : JsValue
chainid_287022981 = object (
    "name" ∶ text "DNAChain Mainnet"
    ⨾ "chain" ∶ text "Openverse"
    ⨾ "rpc"
      ∶ array (
          text "https://rpc1.gene.network"
          ⨟ text "https://rpc2.gene.network"
          ⨟ text "https://rpc3.gene.network"
          ⨟ text "https://rpc4.gene.network"
          ⨟ text "https://rpc5.gene.network"
          ⨟ text "https://rpc6.gene.network"
          ⨟ end_items)
    ⨾ "faucets" ∶ array end_items
    ⨾ "nativeCurrency"
      ∶ object ("name" ∶ text "DNA" ⨾ "symbol" ∶ text "DNA" ⨾ "decimals" ∶ number 18 ⨾ end_fields)
    ⨾ "infoURL" ∶ text "https://gene.network"
    ⨾ "shortName" ∶ text "dnachain-mainnet"
    ⨾ "chainId" ∶ number 287022981
    ⨾ "networkId" ∶ number 287022981
    ⨾ "icon" ∶ text "dna"
    ⨾ "explorers"
      ∶ array (
          object (
            "name" ∶ text "dnascan"
            ⨾ "url" ∶ text "https://scan.gene.network"
            ⨾ "standard" ∶ text "EIP3091"
            ⨾ end_fields)
          ⨟ end_items)
    ⨾ end_fields)

-- chainid-28802.js
abbrev pub chainid_28802 : JsValue
chainid_28802 = object (
    "name" ∶ text "Incentiv Testnet"
    ⨾ "chain" ∶ text "TCENT"
    ⨾ "rpc" ∶ array (text "https://rpc3.testnet.incentiv.io" ⨟ end_items)
    ⨾ "faucets" ∶ array end_items
    ⨾ "nativeCurrency"
      ∶ object (
          "name" ∶ text "Testnet Incentiv Coin"
          ⨾ "symbol" ∶ text "TCENT"
          ⨾ "decimals" ∶ number 18
          ⨾ end_fields)
    ⨾ "features"
      ∶ array (
          object ("name" ∶ text "EIP155" ⨾ end_fields)
          ⨟ object ("name" ∶ text "EIP1559" ⨾ end_fields)
          ⨟ end_items)
    ⨾ "infoURL" ∶ text "https://incentiv.net"
    ⨾ "shortName" ∶ text "tcent"
    ⨾ "chainId" ∶ number 28802
    ⨾ "networkId" ∶ number 28802
    ⨾ "icon" ∶ text "incentiv"
    ⨾ "explorers"
      ∶ array (
          object (
            "name" ∶ text "Incentiv Testnet Explorer"
            ⨾ "url" ∶ text "https://explorer-testnet.incentiv.io/"
            ⨾ "icon" ∶ text "etherscan"
            ⨾ "standard" ∶ text "EIP3091"
            ⨾ end_fields)
          ⨟ end_items)
    ⨾ end_fields)

-- chainid-288022981.js
abbrev pub chainid_288022981 : JsValue
chainid_288022981 = object (
    "name" ∶ text "SLCChain Mainnet"
    ⨾ "chain" ∶ text "Openverse"
    ⨾ "rpc"
      ∶ array (
          text "https://rpc1.sl.cool"
          ⨟ text "https://rpc2.sl.cool"
          ⨟ text "https://rpc3.sl.cool"
          ⨟ text "https://rpc4.sl.cool"
          ⨟ text "https://rpc5.sl.cool"
          ⨟ text "https://rpc6.sl.cool"
          ⨟ end_items)
    ⨾ "faucets" ∶ array end_items
    ⨾ "nativeCurrency"
      ∶ object (
          "name" ∶ text "Super Link Coin"
          ⨾ "symbol" ∶ text "SLC"
          ⨾ "decimals" ∶ number 18
          ⨾ end_fields)
    ⨾ "infoURL" ∶ text "https://sl.cool"
    ⨾ "shortName" ∶ text "slcchain-mainnet"
    ⨾ "chainId" ∶ number 288022981
    ⨾ "networkId" ∶ number 288022981
    ⨾ "icon" ∶ text "slc"
    ⨾ "explorers"
      ∶ array (
          object (
            "name" ∶ text "slcscan"
            ⨾ "url" ∶ text "https://scan.sl.cool"
            ⨾ "standard" ∶ text "EIP3091"
            ⨾ end_fields)
          ⨟ end_items)
    ⨾ end_fields)

-- chainid-2892.js
abbrev pub chainid_2892 : JsValue
chainid_2892 = object (
    "name" ∶ text "Alpen Testnet"
    ⨾ "chain" ∶ text "Alpen"
    ⨾ "rpc" ∶ array (text "https://rpc.testnet.alpenlabs.io" ⨟ end_items)
    ⨾ "faucets" ∶ array (text "https://faucet.testnet.alpenlabs.io/" ⨟ end_items)
    ⨾ "nativeCurrency"
      ∶ object
          ("name" ∶ text "Signet BTC" ⨾ "symbol" ∶ text "sBTC" ⨾ "decimals" ∶ number 8 ⨾ end_fields)
    ⨾ "features"
      ∶ array (
          object ("name" ∶ text "EIP155" ⨾ end_fields)
          ⨟ object ("name" ∶ text "EIP1559" ⨾ end_fields)
          ⨟ end_items)
    ⨾ "infoURL" ∶ text ""
    ⨾ "shortName" ∶ text "alpen"
    ⨾ "chainId" ∶ number 2892
    ⨾ "networkId" ∶ number 2892
    ⨾ "icon" ∶ text "https://avatars.githubusercontent.com/u/113091135"
    ⨾ "explorers"
      ∶ array (
          object (
            "name" ∶ text "explorer"
            ⨾ "url" ∶ text "https://explorer.testnet.alpenlabs.io"
            ⨾ "icon" ∶ text ""
            ⨾ "standard" ∶ text ""
            ⨾ end_fields)
          ⨟ end_items)
    ⨾ end_fields)

-- chainid-299792.js
abbrev pub chainid_299792 : JsValue
chainid_299792 = object (
    "name" ∶ text "t1 Mainnet"
    ⨾ "chain" ∶ text "t1"
    ⨾ "rpc" ∶ array (text "https://rpc.mainnet.t1protocol.com" ⨟ end_items)
    ⨾ "faucets" ∶ array end_items
    ⨾ "nativeCurrency"
      ∶ object ("name" ∶ text "Ether" ⨾ "symbol" ∶ text "ETH" ⨾ "decimals" ∶ number 18 ⨾ end_fields)
    ⨾ "features"
      ∶ array (
          object ("name" ∶ text "EIP155" ⨾ end_fields)
          ⨟ object ("name" ∶ text "EIP1559" ⨾ end_fields)
          ⨟ end_items)
    ⨾ "infoURL" ∶ text "https://mainnet.t1protocol.com/"
    ⨾ "shortName" ∶ text "t1"
    ⨾ "chainId" ∶ number 299792
    ⨾ "networkId" ∶ number 299792
    ⨾ "icon" ∶ text "t1"
    ⨾ "explorers"
      ∶ array (
          object (
            "name" ∶ text "t1 Explorer"
            ⨾ "url" ∶ text "https://explorer.mainnet.t1protocol.com"
            ⨾ "icon" ∶ text "blockscout"
            ⨾ "standard" ∶ text "EIP3091"
            ⨾ end_fields)
          ⨟ end_items)
    ⨾ end_fields)

-- chainid-299892.js
abbrev pub chainid_299892 : JsValue
chainid_299892 = object (
    "name" ∶ text "t1 Testnet"
    ⨾ "chain" ∶ text "t1"
    ⨾ "rpc" ∶ array (text "https://rpc.testnet.t1protocol.com" ⨟ end_items)
    ⨾ "faucets" ∶ array end_items
    ⨾ "nativeCurrency"
      ∶ object ("name" ∶ text "Ether" ⨾ "symbol" ∶ text "ETH" ⨾ "decimals" ∶ number 18 ⨾ end_fields)
    ⨾ "features"
      ∶ array (
          object ("name" ∶ text "EIP155" ⨾ end_fields)
          ⨟ object ("name" ∶ text "EIP1559" ⨾ end_fields)
          ⨟ end_items)
    ⨾ "infoURL" ∶ text "https://testnet.t1protocol.com/"
    ⨾ "shortName" ∶ text "t1t"
    ⨾ "chainId" ∶ number 299892
    ⨾ "networkId" ∶ number 299892
    ⨾ "icon" ∶ text "t1"
    ⨾ "explorers"
      ∶ array (
          object (
            "name" ∶ text "t1 Explorer"
            ⨾ "url" ∶ text "https://explorer.testnet.t1protocol.com"
            ⨾ "icon" ∶ text "blockscout"
            ⨾ "standard" ∶ text "EIP3091"
            ⨾ end_fields)
          ⨟ end_items)
    ⨾ end_fields)

-- chainid-3109.js
abbrev pub chainid_3109 : JsValue
chainid_3109 = object (
    "name" ∶ text "SatoshiVM"
    ⨾ "chain" ∶ text "BTC"
    ⨾ "icon" ∶ text "satoshivm"
    ⨾ "rpc" ∶ array (text "https://alpha-rpc-node-http.svmscan.io/" ⨟ end_items)
    ⨾ "features"
      ∶ array (
          object ("name" ∶ text "EIP155" ⨾ end_fields)
          ⨟ object ("name" ∶ text "EIP1559" ⨾ end_fields)
          ⨟ end_items)
    ⨾ "faucets" ∶ array end_items
    ⨾ "nativeCurrency"
      ∶ object
          ("name" ∶ text "SatoshiVM" ⨾ "symbol" ∶ text "BTC" ⨾ "decimals" ∶ number 18 ⨾ end_fields)
    ⨾ "infoURL" ∶ text "https://www.satoshivm.io/"
    ⨾ "shortName" ∶ text "svm"
    ⨾ "chainId" ∶ number 3109
    ⨾ "networkId" ∶ number 3109
    ⨾ "explorers"
      ∶ array (
          object ("name" ∶ text "Svmscan" ⨾ "url" ∶ text "https://svmscan.io/" ⨾ end_fields)
          ⨟ end_items)
    ⨾ end_fields)
