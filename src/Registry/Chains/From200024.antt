-- ===== src/Registry/Chains/From200024.antt =====
-- constants/additionalChainRegistry/chainid-200024.js to chainid-2030232745.js, in the order of the directory.
use pricefeeding.Registry.Js.{
  JsValue, text, number, array, object, end_items, ◌⨟◌, end_fields, ◌⨾◌, ◌∶◌,
}

-- chainid-200024.js
abbrev pub chainid_200024 : JsValue
chainid_200024 = object (
    "name" ∶ text "NitroGraph Testnet"
    ⨾ "chain" ∶ text "NOS"
    ⨾ "rpc" ∶ array (text "https://rpc-testnet.nitrograph.foundation" ⨟ end_items)
    ⨾ "faucets" ∶ array (text "https://faucet-testnet.nitrograph.foundation" ⨟ end_items)
    ⨾ "nativeCurrency"
      ∶ object ("name" ∶ text "Nitro" ⨾ "symbol" ∶ text "NOS" ⨾ "decimals" ∶ number 18 ⨾ end_fields)
    ⨾ "features"
      ∶ array (
          object ("name" ∶ text "EIP155" ⨾ end_fields)
          ⨟ object ("name" ∶ text "EIP1559" ⨾ end_fields)
          ⨟ end_items)
    ⨾ "infoURL" ∶ text "https://nitrograph.com"
    ⨾ "shortName" ∶ text "nos"
    ⨾ "chainId" ∶ number 200024
    ⨾ "networkId" ∶ number 200024
    ⨾ "icon"
      ∶ text "https://github.com/nitrographtech/ng-assets/blob/main/logos/nitro_token_red.png"
    ⨾ "explorers"
      ∶ array (
          object (
            "name" ∶ text "nitroscan"
            ⨾ "url" ∶ text "https://explorer-testnet.nitrograph.foundation"
            ⨾ "icon" ∶ text "nitroscan"
            ⨾ "standard" ∶ text "EIP3091"
            ⨾ end_fields)
          ⨟ end_items)
    ⨾ end_fields)

-- chainid-2020.js
abbrev pub chainid_2020 : JsValue
chainid_2020 = object (
    "name" ∶ text "Ronin"
    ⨾ "chain" ∶ text "RON"
    ⨾ "icon" ∶ text "ronin"
    ⨾ "rpc"
      ∶ array (
          text "https://api.roninchain.com/rpc"
          ⨟ text "https://api-gateway.skymavis.com/rpc?apikey=9aqYLBbxSC6LROynQJBvKkEIsioqwHmr"
          ⨟ text "https://ronin.lgns.net/rpc"
          ⨟ text "https://ronin.drpc.org"
          ⨟ end_items)
    ⨾ "features"
      ∶ array (
          object ("name" ∶ text "EIP155" ⨾ end_fields)
          ⨟ object ("name" ∶ text "EIP1559" ⨾ end_fields)
          ⨟ end_items)
    ⨾ "faucets" ∶ array (text "https://faucet.roninchain.com" ⨟ end_items)
    ⨾ "nativeCurrency"
      ∶ object ("name" ∶ text "Ronin" ⨾ "symbol" ∶ text "RON" ⨾ "decimals" ∶ number 18 ⨾ end_fields)
    ⨾ "infoURL" ∶ text "https://roninchain.com/"
    ⨾ "shortName" ∶ text "ronin"
    ⨾ "chainId" ∶ number 2020
    ⨾ "networkId" ∶ number 2020
    ⨾ "explorers"
      ∶ array (
          object (
            "name" ∶ text "Ronin Explorer"
            ⨾ "url" ∶ text "https://app.roninchain.com/"
            ⨾ end_fields)
          ⨟ end_items)
    ⨾ end_fields)

-- chainid-202506.js
abbrev pub chainid_202506 : JsValue
chainid_202506 = object (
    "name" ∶ text "Aurex Testnet"
    ⨾ "chain" ∶ text "AUREX"
    ⨾ "rpc" ∶ array (text "https://aurexgold.com:3000" ⨟ end_items)
    ⨾ "faucets" ∶ array end_items
    ⨾ "nativeCurrency"
      ∶ object
          ("name" ∶ text "Aurex" ⨾ "symbol" ∶ text "AUREX" ⨾ "decimals" ∶ number 18 ⨾ end_fields)
    ⨾ "infoURL" ∶ text "https://aurexgold.com"
    ⨾ "shortName" ∶ text "aurext"
    ⨾ "chainId" ∶ number 202506
    ⨾ "networkId" ∶ number 202506
    ⨾ "slip44" ∶ number 1
    ⨾ "explorers"
      ∶ array (
          object (
            "name" ∶ text "Aurex Testnet Explorer"
            ⨾ "url" ∶ text "https://aurexgold.com:4001"
            ⨾ "standard" ∶ text "EIP3091"
            ⨾ end_fields)
          ⨟ end_items)
    ⨾ end_fields)

-- chainid-202555.js
abbrev pub chainid_202555 : JsValue
chainid_202555 = object (
    "name" ∶ text "Kasplex zkEVM Mainnet"
    ⨾ "chain" ∶ text "KASPLEX"
    ⨾ "icon" ∶ text "kasplex"
    ⨾ "rpc" ∶ array (text "https://evmrpc.kasplex.org" ⨟ end_items)
    ⨾ "features"
      ∶ array (
          object ("name" ∶ text "EIP155" ⨾ end_fields)
          ⨟ object ("name" ∶ text "EIP1559" ⨾ end_fields)
          ⨟ end_items)
    ⨾ "faucets" ∶ array end_items
    ⨾ "nativeCurrency"
      ∶ object ("name" ∶ text "KAS" ⨾ "symbol" ∶ text "KAS" ⨾ "decimals" ∶ number 18 ⨾ end_fields)
    ⨾ "infoURL" ∶ text "https://kasplex.org/"
    ⨾ "shortName" ∶ text "kasplex"
    ⨾ "chainId" ∶ number 202555
    ⨾ "networkId" ∶ number 202555
    ⨾ "explorers"
      ∶ array (
          object (
            "name" ∶ text "Kasplex Explorer"
            ⨾ "url" ∶ text "https://explorer.kasplex.org"
            ⨾ end_fields)
          ⨟ end_items)
    ⨾ end_fields)

-- chainid-202599.js
abbrev pub chainid_202599 : JsValue
chainid_202599 = object (
    "name" ∶ text "JuChain Testnet"
    ⨾ "chain" ∶ text "JU"
    ⨾ "rpc" ∶ array (text "https://testnet-rpc.juchain.org" ⨟ end_items)
    ⨾ "faucets" ∶ array end_items
    ⨾ "nativeCurrency"
      ∶ object ("name" ∶ text "JUcoin" ⨾ "symbol" ∶ text "JU" ⨾ "decimals" ∶ number 18 ⨾ end_fields)
    ⨾ "features"
      ∶ array (
          object ("name" ∶ text "EIP155" ⨾ end_fields)
          ⨟ object ("name" ∶ text "EIP1559" ⨾ end_fields)
          ⨟ end_items)
    ⨾ "infoURL" ∶ text "https://juchain.org"
    ⨾ "shortName" ∶ text "ju"
    ⨾ "chainId" ∶ number 202599
    ⨾ "icon" ∶ text "juchain"
    ⨾ "explorers"
      ∶ array (
          object (
            "name" ∶ text "juscan-testnet"
            ⨾ "url" ∶ text "https://testnet.juscan.io"
            ⨾ "icon" ∶ text "juscan"
            ⨾ "standard" ∶ text "EIP3091"
            ⨾ end_fields)
          ⨟ end_items)
    ⨾ end_fields)

-- chainid-2027.js
abbrev pub chainid_2027 : JsValue
chainid_2027 = object (
    "name" ∶ text "Martian Chain"
    ⨾ "chain" ∶ text "EROL"
    ⨾ "rpc"
      ∶ array (
          text "https://martian-rpc1.martianchain.com"
          ⨟ text "https://martian-rpc2.martianchain.com"
          ⨟ text "https://martian-rpc3.martianchain.com"
          ⨟ text "https://martian-rpc4.martianchain.com"
          ⨟ text "https://martian-rpc5.martianchain.com"
          ⨟ end_items)
    ⨾ "faucets" ∶ array (text "app.ami.finance" ⨟ end_items)
    ⨾ "nativeCurrency"
      ∶ object
          ("name" ∶ text "Erol Musk" ⨾ "symbol" ∶ text "EROL" ⨾ "decimals" ∶ number 18 ⨾ end_fields)
    ⨾ "features"
      ∶ array (
          object ("name" ∶ text "EIP155" ⨾ end_fields)
          ⨟ object ("name" ∶ text "EIP1559" ⨾ end_fields)
          ⨟ end_items)
    ⨾ "infoURL" ∶ text "martianchain.com"
    ⨾ "shortName" ∶ text "erol"
    ⨾ "chainId" ∶ number 2027
    ⨾ "networkId" ∶ number 2027
    ⨾ "icon" ∶ text "https://martianchain.com/img/martian.png"
    ⨾ "explorers"
      ∶ array (
          object (
            "name" ∶ text "routescan"
            ⨾ "url" ∶ text "https://devnet.routescan.io/?rpc=https://rpc1.martianchain.com"
            ⨾ "icon" ∶ text "https://cdn.routescan.io/cdn/svg/routescan-new.svg"
            ⨾ "standard" ∶ text "EIP3091"
            ⨾ end_fields)
          ⨟ object (
              "name" ∶ text "subnets avax"
              ⨾ "url"
                ∶ text
                    "https://subnets.avax.network/subnets/28aQXYENwytzxEwyYMZDtGjpUmP67eWkyoHdGGyid6gEACeg9x"
              ⨾ "icon" ∶ text "avax"
              ⨾ "standard" ∶ text "EIP3091"
              ⨾ end_fields)
          ⨟ object (
              "name" ∶ text "ErolExplorer"
              ⨾ "url" ∶ text "https://explorer.martianchain.com"
              ⨾ "standard" ∶ text "EIP3091"
              ⨾ end_fields)
          ⨟ end_items)
    ⨾ end_fields)

-- chainid-2030232745.js
abbrev pub chainid_2030232745 : JsValue
chainid_2030232745 = object (
    "name" ∶ text "Lumia Beam Testnet"
    ⨾ "shortName" ∶ text "lumia-beam-testnet"
    ⨾ "title" ∶ text "Lumia Beam Testnet"
    ⨾ "chain" ∶ text "ETH"
    ⨾ "icon" ∶ text "lumia"
    ⨾ "rpc" ∶ array (text "https://beam-rpc.lumia.org" ⨟ end_items)
    ⨾ "faucets" ∶ array (text "https://beam-faucet.lumia.org/" ⨟ end_items)
    ⨾ "nativeCurrency"
      ∶ object
          ("name" ∶ text "Lumia" ⨾ "symbol" ∶ text "LUMIA" ⨾ "decimals" ∶ number 18 ⨾ end_fields)
    ⨾ "features"
      ∶ array (
          object ("name" ∶ text "EIP155" ⨾ end_fields)
          ⨟ object ("name" ∶ text "EIP1559" ⨾ end_fields)
          ⨟ end_items)
    ⨾ "infoURL" ∶ text "https://lumia.org"
    ⨾ "chainId" ∶ number 2030232745
    ⨾ "networkId" ∶ number 2030232745
    ⨾ "explorers"
      ∶ array (
          object (
            "name" ∶ text "Lumia Beam Testnet Explorer"
            ⨾ "url" ∶ text "https://beam-explorer.lumia.org"
            ⨾ "icon" ∶ text "lumia"
            ⨾ "standard" ∶ text "EIP3091"
            ⨾ end_fields)
          ⨟ end_items)
    ⨾ "parent"
      ∶ object (
          "type" ∶ text "L2"
          ⨾ "chain" ∶ text "eip155-1"
          ⨾ "bridges"
            ∶ array (object ("url" ∶ text "https://beam-bridge.lumia.org" ⨾ end_fields) ⨟ end_items)
          ⨾ end_fields)
    ⨾ end_fields)
