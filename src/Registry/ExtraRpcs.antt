-- ===== src/Registry/ExtraRpcs.antt =====
-- The object of constants/extraRpcs.js: fields, and the entries of a list of endpoints. A reference to a
-- text of `privacyStatement` is the text that the argument `privacy_statement` gives for its name.
pub mod Table
pub mod From1
pub mod From56
pub mod From25
pub mod From1313161554
pub mod From10200
pub mod From820
pub mod From6
use pricefeeding.Prelude.{String, List, [], ◌∷◌, ◌++◌}
use pricefeeding.Registry.Js.{
  JsValue, text, array, object, Items, end_items, ◌⨟◌, Field, ◌∶◌, Fields, end_fields, ◌⨾◌,
}

abbrev pub items_of : List JsValue → Items
items_of [] = end_items
items_of (x ∷ l) = x ⨟ items_of l

-- A chain with nothing but its endpoints, and one with other fields behind them.
abbrev pub chain : String → List JsValue → Field
chain id rpcs = id ∶ object ("rpcs" ∶ array (items_of rpcs) ⨾ end_fields)

abbrev pub chain_and : String → Fields → List JsValue → Field
chain_and id rest rpcs = id ∶ object ("rpcs" ∶ array (items_of rpcs) ⨾ rest)

module _ (privacy_statement : String → String) where
  abbrev pub details : String → JsValue
  details name = text (privacy_statement name)

  abbrev pub endpoint : String → String → String → JsValue
  endpoint tracking url name = object (
      "url" ∶ text url ⨾ "tracking" ∶ text tracking ⨾ "trackingDetails" ∶ details name ⨾ end_fields)

  abbrev pub untracked : String → String → JsValue
  untracked = endpoint "none"

  abbrev pub limited : String → String → JsValue
  limited = endpoint "limited"

  abbrev pub tracked : String → String → JsValue
  tracked = endpoint "yes"
