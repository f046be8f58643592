-- ===== src/Pyth/WebSocket/Messages.antt =====
-- pyth/pythwebsocket.go: what is done with a message. `M` stands for the decoded objects inside a
-- message; `convert` is `json.Marshal` of such an object and `json.Unmarshal` into a `PriceFeed`.
use pricefeeding.Prelude.{if◌then◌else◌, List, [], ◌∷◌, ◌++◌, Option, none, some}
use pricefeeding.Prelude.Key.{GoString, bytes, string_key, string_beq}
use pricefeeding.Prelude.Dict.{Dict, get}
use pricefeeding.Pricefeed.PythMonitor.{PythFeed}
use pricefeeding.Pyth.WebSocket.{WebSocketClient, bad_feed, server_error, handle_error}

-- A value of the message: an element of an array is `none` where it is no object.
pub data Value (M : Type 0) : Type 0 where
  text : GoString → Value M
  object : M → Value M
  array : List (Option M) → Value M
  other : Value M

module _ {M : Type 0} where
  abbrev pub as_text : Option (Value M) → Option GoString
  as_text none = none
  as_text (some (text s)) = some s
  as_text (some (object m)) = none
  as_text (some (array l)) = none
  as_text (some other) = none

  abbrev as_object : Option (Value M) → Option M
  as_object none = none
  as_object (some (text s)) = none
  as_object (some (object m)) = some m
  as_object (some (array l)) = none
  as_object (some other) = none

  -- The first element, where it is an object.
  abbrev first_object : Option (Value M) → Option M
  first_object none = none
  first_object (some (text s)) = none
  first_object (some (object m)) = none
  first_object (some (array [])) = none
  first_object (some (array (m ∷ l))) = m
  first_object (some other) = none

  abbrev or_next : Option M → Option M → Option M
  or_next none next = next
  or_next (some m) next = some m

  -- Where a price update has its feed.
  unfoldable pub price_feed_data : Dict GoString (Value M) → Option M
  price_feed_data msg =
      or_next (as_object (get (bytes "priceFeed") msg))
        (or_next (as_object (get (bytes "data") msg)) (first_object (get (bytes "parsed") msg)))

module _ {C M : Type 0} (convert : M → Option PythFeed) where
  unfoldable pub deliver : Option PythFeed → WebSocketClient C → WebSocketClient C
  deliver none ws = handle_error bad_feed ws
  deliver (some feed) ws =
      if ws.price_update_handler then record ws { delivered = ws.delivered ++ feed ∷ [] } else ws

  unfoldable pub handle_price_update :
      Dict GoString (Value M) → WebSocketClient C → WebSocketClient C
  unfolding price_feed_data deliver
  handle_price_update msg ws = elim (price_feed_data msg) [
    | none ↦ ws
    | some found ↦ deliver (convert found) ws
  ]

  unfoldable pub handle_server_error : Option GoString → WebSocketClient C → WebSocketClient C
  handle_server_error none ws = ws
  handle_server_error (some e) ws = handle_error (server_error e) ws

  unfoldable pub process_message : Dict GoString (Value M) → WebSocketClient C → WebSocketClient C
  unfolding handle_price_update handle_server_error handle_error
  process_message msg ws = elim (as_text (get (bytes "type") msg)) [
    | none ↦ ws
    | some msg_type ↦
        if string_beq msg_type (bytes "price_update")
        then handle_price_update msg ws
        else if string_beq msg_type (bytes "error")
        then handle_server_error (as_text (get (bytes "error") msg)) ws
        else ws
  ]
