-- ===== src/Registry/ExtraRpcs/Table.antt =====
-- constants/extraRpcs.js: the chains up to line 3852, as the value of an object literal.
use pricefeeding.Prelude.{String, List, [], ◌∷◌, ◌++◌}
use pricefeeding.Prelude.Key.{GoString, bytes, string_key}
use pricefeeding.Prelude.Dict.{Dict, put}
use pricefeeding.Registry.Js.{
  JsValue, text, number, bool, array, object, Items, end_items, ◌⨟◌, Field, ◌∶◌, end_fields, ◌⨾◌,
}
use pricefeeding.Registry.ExtraRpcs.From1.{from_1, from_2, from_4002, from_80002}
use pricefeeding.Registry.ExtraRpcs.From56.{from_56, from_97, from_43114, from_250, from_137}
use pricefeeding.Registry.ExtraRpcs.From25.{
  from_25, from_2440, from_42161, from_421613, from_8217, from_81457,
}
use pricefeeding.Registry.ExtraRpcs.From1313161554.{
  from_1313161554, from_44787, from_10, from_11155420, from_1088,
}
use pricefeeding.Registry.ExtraRpcs.From10200.{
  from_10200, from_42262, from_1284, from_4689, from_122,
}
use pricefeeding.Registry.ExtraRpcs.From820.{from_820, from_15}
use pricefeeding.Registry.ExtraRpcs.From6.{from_6, from_177}

-- The fields as they are written, where a key may stand twice.
abbrev pub first_chains : (String → String) → List Field
first_chains ps =
    from_1 ps
    ++ from_2 ps
    ++ from_4002 ps
    ++ from_80002 ps
    ++ from_56 ps
    ++ from_97 ps
    ++ from_43114 ps
    ++ from_250 ps
    ++ from_137 ps
    ++ from_25 ps
    ++ from_2440 ps
    ++ from_42161 ps
    ++ from_421613 ps
    ++ from_8217 ps
    ++ from_81457 ps
    ++ from_1313161554 ps
    ++ from_44787 ps
    ++ from_10 ps
    ++ from_11155420 ps
    ++ from_1088 ps
    ++ from_10200 ps
    ++ from_42262 ps
    ++ from_1284 ps
    ++ from_4689 ps
    ++ from_122 ps
    ++ from_820 ps
    ++ from_15 ps
    ++ from_6 ps
    ++ from_177 ps

-- The entries of an array.
unfoldable pub entries_of : Items → List JsValue
entries_of end_items = []
entries_of (x ⨟ l) = x ∷ entries_of l

unfoldable pub endpoints_of : JsValue → List JsValue
unfolding entries_of
endpoints_of (array l) = entries_of l
endpoints_of (text s) = []
endpoints_of (number n) = []
endpoints_of (bool b) = []
endpoints_of (object fs) = []

-- The endpoints of a chain, whose field `rpcs` comes first.
unfoldable pub rpcs_of : JsValue → List JsValue
unfolding endpoints_of
rpcs_of (object ((name ∶ rpcs) ⨾ rest)) = endpoints_of rpcs
rpcs_of (object end_fields) = []
rpcs_of (text s) = []
rpcs_of (number n) = []
rpcs_of (bool b) = []
rpcs_of (array l) = []

-- The chains of the object, by their ids: of two fields with one key the second one counts.
unfoldable pub chains_of : Dict GoString (List JsValue) → List Field → Dict GoString (List JsValue)
unfolding rpcs_of
chains_of chains [] = chains
chains_of chains ((id ∶ value) ∷ fields) = chains_of (put (bytes id) (rpcs_of value) chains) fields
