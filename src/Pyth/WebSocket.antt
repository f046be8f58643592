-- ===== src/Pyth/WebSocket.antt =====
-- pyth/pythwebsocket.go: `WebSocketClient`. What dialling, writing and closing give is an argument.
-- What the handlers get is kept in two lists of the state.
pub mod Messages
pub mod Goroutines
pub mod Outage
pub mod Disconnected
pub mod Readers
use mathlib.Core.Option
use pricefeeding.Prelude.{
  if◌then◌else◌, ℕ, ◌*◌, ◌%◌, ◌^◌, Bool, true, false, ◌&&◌, List, [], ◌∷◌, ◌++◌, Option, none, some,
  is_some, or_else,
}
use pricefeeding.Prelude.Int.{ℤ, pos}
use pricefeeding.Prelude.Key.{GoString, bytes, string_key}
use pricefeeding.Prelude.Dict.{Dict}
use pricefeeding.Pricefeed.PythMonitor.{PythFeed}

pub data WsError : Type 0 where
  dial_failed not_connected connection_nil write_failed close_failed read_failed : WsError
  server_error : GoString → WsError
  reconnect_failed : ℕ → WsError
  resubscribe_failed : WsError → WsError
  connect_failed : WsError → WsError
  max_reached : ℤ → WsError
  bad_feed : WsError

-- What is written to the connection.
pub data Request : Type 0 where
  subscribe_to : List GoString → Request
  unsubscribe_all : Request

pub record WebSocketConfig : Type 0 where
  pub url : GoString
  pub reconnect_delay : ℕ
  pub max_reconnects : ℤ
  pub headers : Dict GoString GoString

-- `cancelled` says that the context is done. A handler is true once it is set.
pub record WebSocketClient (C : Type 0) : Type 0 where
  pub url : GoString
  pub conn : Option C
  pub connected : Bool
  pub reconnect_delay : ℕ
  pub max_reconnects : ℤ
  pub reconnect_count : ℕ
  pub price_update_handler : Bool
  pub error_handler : Bool
  pub cancelled : Bool
  pub subscribed_ids : List GoString
  pub headers : Dict GoString GoString
  pub gave_up : Bool
  pub sent : List Request
  pub delivered : List PythFeed
  pub reported : List WsError

abbrev pub second : ℕ
second = 1_000_000_000

pub default_web_socket_config : GoString → WebSocketConfig
default_web_socket_config url = record {
  url = url;
  reconnect_delay = 5 * second;
  max_reconnects = pos 10;
  headers = [];
}

module _ {C : Type 0} where
  unfoldable pub new_web_socket_client : Option WebSocketConfig → WebSocketClient C
  unfolding default_web_socket_config
  new_web_socket_client config =
      let given =
        or_else (default_web_socket_config (bytes "wss://hermes.pyth.network/ws")) config in
      record {
        url = given.url;
        conn = none;
        connected = false;
        reconnect_delay = given.reconnect_delay;
        max_reconnects = given.max_reconnects;
        reconnect_count = 0;
        price_update_handler = false;
        error_handler = false;
        cancelled = false;
        subscribed_ids = [];
        headers = given.headers;
        gave_up = false;
        sent = [];
        delivered = [];
        reported = [];
      }

  -- `dialled` is what the dialer gives.
  unfoldable pub connect : Option C → WebSocketClient C → WebSocketClient C × Option WsError
  connect none ws = (ws, some dial_failed)
  connect (some c) ws =
      (record ws { conn = some c; connected = true; reconnect_count = 0; gave_up = false }, none)

  pub has_given_up : WebSocketClient C → Bool
  has_given_up ws = ws.gave_up

  unfoldable pub reset : WebSocketClient C → WebSocketClient C
  reset ws = record ws { gave_up = false; reconnect_count = 0 }

  -- `close` is what closing the connection gives.
  unfoldable pub disconnect :
      Option WsError → WebSocketClient C → WebSocketClient C × Option WsError
  disconnect close ws = elim ws.conn [
    | some c ↦ (record ws { cancelled = true; conn = none; connected = false }, close)
    | none ↦ (record ws { cancelled = true }, none)
  ]

  unfoldable pub is_connected : WebSocketClient C → Bool
  is_connected ws = ws.connected && is_some ws.conn

  unfoldable pub handle_error : WsError → WebSocketClient C → WebSocketClient C
  handle_error e ws =
      if ws.error_handler then record ws { reported = ws.reported ++ e ∷ [] } else ws

  -- The first half of `Subscribe` and `Unsubscribe`, up to the write.
  unfoldable pub set_subscribed :
      List GoString → WebSocketClient C → WebSocketClient C × Option WsError
  unfolding is_connected
  set_subscribed ids ws =
      if is_connected ws
      then (record ws { subscribed_ids = ids }, none)
      else (ws, some not_connected)

  -- The second half.
  unfoldable pub send_request :
      Bool → Request → WebSocketClient C → WebSocketClient C × Option WsError
  send_request written request ws = elim ws.conn [
    | none ↦ (ws, some connection_nil)
    | some c ↦
        if written
        then (record ws { sent = ws.sent ++ request ∷ [] }, none)
        else (ws, some write_failed)
  ]

  -- The next step, unless there is an error.
  abbrev and_then :
      WebSocketClient C × Option WsError
      → (WebSocketClient C → WebSocketClient C × Option WsError)
      → WebSocketClient C × Option WsError
  and_then (ws, none) next = next ws
  and_then (ws, some e) next = (ws, some e)

  -- fmt.Errorf with the error inside.
  abbrev wrap_error :
      (WsError → WsError) → WebSocketClient C × Option WsError → WebSocketClient C × Option WsError
  wrap_error wrap (ws, e) = (ws, Option.map wrap e)

  unfoldable pub subscribe :
      Bool → List GoString → WebSocketClient C → WebSocketClient C × Option WsError
  unfolding set_subscribed send_request
  subscribe written price_ids ws =
      and_then (set_subscribed price_ids ws) (send_request written (subscribe_to price_ids))

  unfoldable pub unsubscribe : Bool → WebSocketClient C → WebSocketClient C × Option WsError
  unfolding set_subscribed send_request
  unsubscribe written ws = and_then (set_subscribed [] ws) (send_request written unsubscribe_all)

  unfoldable pub on_price_update : WebSocketClient C → WebSocketClient C
  on_price_update ws = record ws { price_update_handler = true }

  unfoldable pub on_error : WebSocketClient C → WebSocketClient C
  on_error ws = record ws { error_handler = true }

  -- `Start` up to the start of the reading loop; `none` says that it starts one.
  unfoldable pub resubscribe : Bool → WebSocketClient C → WebSocketClient C × Option WsError
  unfolding subscribe
  resubscribe written ws = elim ws.subscribed_ids [
    | [] ↦ (ws, none)
    | id ∷ ids ↦ wrap_error resubscribe_failed (subscribe written (id ∷ ids) ws)
  ]

  unfoldable pub start : Option C → Bool → WebSocketClient C → WebSocketClient C × Option WsError
  unfolding is_connected connect resubscribe
  start dialled written ws =
      if is_connected ws
      then resubscribe written ws
      else and_then (wrap_error connect_failed (connect dialled ws)) (resubscribe written)

  pub get_subscribed_ids : WebSocketClient C → List GoString
  get_subscribed_ids ws = ws.subscribed_ids

  -- The methods that use the connection and leave the client alone.
  pub on_connection : (C → Option WsError) → WebSocketClient C → Option WsError
  on_connection use_it ws = elim ws.conn [ none ↦ some not_connected | some c ↦ use_it c ]
