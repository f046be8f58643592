-- ===== src/Pyth/WebSocket/Goroutines.antt =====
-- pyth/pythwebsocket.go: the goroutines of a client, `readMessages` and `handleReconnect`. A goroutine
-- stands at one of the places `Pc`, between which it takes and gives back the locks; what it meets
-- outside at a move is an `Outcome`.
use pricefeeding.Prelude.{
  if◌then◌else◌, ℕ, ◌+◌, ◌*◌, ◌%◌, ◌^◌, ◌≡◌, Bool, true, false, List, [], ◌∷◌, ◌++◌, Option, none,
  some, leb,
}
use pricefeeding.Prelude.Int.{ℤ, pos, negsuc}
use pricefeeding.Prelude.Key.{GoString}
use pricefeeding.Prelude.Dict.{Dict}
use pricefeeding.Pricefeed.PythMonitor.{PythFeed}
use pricefeeding.Pyth.WebSocket.{
  WebSocketClient, WsError, read_failed, reconnect_failed, resubscribe_failed, max_reached,
  subscribe_to, connect, reset, disconnect, handle_error, set_subscribed, send_request, subscribe,
  unsubscribe, on_price_update, on_error, start,
}
use pricefeeding.Pyth.WebSocket.Messages.{Value, process_message}

-- `handleReconnect` is called by the reading loop, or runs in a goroutine of its own.
pub data Caller : Type 0 where
  from_loop detached : Caller

-- The places of `readMessages` (`reading`, `looking` at the connection once the
-- context was not done, and `awaiting` a message of it) and of `handleReconnect`, in the order of the code.
pub data Pc : Type 0 where
  reading : Pc
  looking : Pc
  awaiting : Pc
  reconnecting : Caller → Pc
  counting : Caller → Pc
  sleeping : Caller → Pc
  resubscribing : List GoString → Caller → Pc
  sending : List GoString → Caller → Pc
  resetting : Caller → Pc

pub data Reading (M : Type 0) : Type 0 where
  message : Dict GoString (Value M) → Reading M
  unexpected_close : Reading M
  other_failure : Reading M

pub record Outcome (C M : Type 0) : Type 0 where
  pub dialled : Option C
  pub received : Reading M
  pub written : Bool

-- What is left of a call of `handleReconnect` that returns.
abbrev pub returned : Caller → List Pc
returned from_loop = reading ∷ []
returned detached = []

-- `reconnectCount >= maxReconnects`
unfoldable pub is_exhausted : ℕ → ℤ → Bool
is_exhausted count (pos n) = leb n count
is_exhausted count (negsuc n) = true

-- The delay before the dialling, with the wrap-around of an int64.
pub reconnect_pause : ℕ → ℕ → ℕ
reconnect_pause delay count = delay * count % 2 ^ 64

pub record System (C : Type 0) : Type 0 where
  pub client : WebSocketClient C
  pub goroutines : List Pc

module _ {C : Type 0} where
  abbrev lose_connection : WebSocketClient C → WebSocketClient C
  lose_connection ws = record ws { connected = false; conn = none }

  -- `handleReconnect` up to its first unlocking.
  unfoldable pub begin_reconnect : Caller → WebSocketClient C → WebSocketClient C × List Pc
  unfolding is_exhausted
  begin_reconnect c ws =
      if ws.gave_up
      then (lose_connection ws, returned c)
      else if is_exhausted ws.reconnect_count ws.max_reconnects
      then (
        handle_error (max_reached ws.max_reconnects)
            (record (lose_connection ws) { gave_up = true }),
        returned c,
      )
      else (lose_connection ws, counting c ∷ [])

  -- The dialling after the delay.
  unfoldable pub redial : Option C → Caller → WebSocketClient C → WebSocketClient C × List Pc
  unfolding connect
  redial none c ws = (
    handle_error (reconnect_failed ws.reconnect_count) ws,
    returned c ++ reconnecting detached ∷ [],
  )
  redial (some conn) c ws = elim ws.subscribed_ids [
    | [] ↦ ((connect (some conn) ws).0, resetting c ∷ [])
    | id ∷ ids ↦ ((connect (some conn) ws).0, resubscribing (id ∷ ids) c ∷ [])
  ]

  unfoldable pub note_error : WebSocketClient C × Option WsError → WebSocketClient C
  note_error (ws, none) = ws
  note_error (ws, some e) = handle_error (resubscribe_failed e) ws

  unfoldable pub begin_resubscribe :
      List GoString → Caller → WebSocketClient C → WebSocketClient C × List Pc
  unfolding set_subscribed
  begin_resubscribe ids c ws = elim (set_subscribed ids ws).1 [
    | none ↦ ((set_subscribed ids ws).0, sending ids c ∷ [])
    | some e ↦ (handle_error (resubscribe_failed e) ws, resetting c ∷ [])
  ]

  -- The beginning of a round of `readMessages`: the context.
  unfoldable pub begin_round : WebSocketClient C → WebSocketClient C × List Pc
  begin_round ws = if ws.cancelled then (ws, []) else (ws, looking ∷ [])

  -- What comes of the connection.
  unfoldable pub take_connection : WebSocketClient C → WebSocketClient C × List Pc
  take_connection ws = if ws.gave_up then (ws, []) else elim ws.conn [
    | none ↦ (ws, reconnecting from_loop ∷ [])
    | some conn ↦ (ws, awaiting ∷ [])
  ]

  module _ {M : Type 0} (convert : M → Option PythFeed) where
    -- The reading of one message on a connection.
    unfoldable pub read_message : Reading M → WebSocketClient C → WebSocketClient C × List Pc
    read_message (message msg) ws = (process_message convert msg ws, reading ∷ [])
    read_message unexpected_close ws = (handle_error read_failed ws, reconnecting from_loop ∷ [])
    read_message other_failure ws = (ws, reconnecting from_loop ∷ [])

    -- A move of a goroutine: the new state, and what the goroutine becomes and starts.
    unfoldable pub move : Outcome C M → WebSocketClient C → Pc → WebSocketClient C × List Pc
    unfolding begin_round take_connection read_message begin_reconnect redial begin_resubscribe
        send_request note_error
    move o ws reading = begin_round ws
    move o ws looking = take_connection ws
    move o ws awaiting = read_message o.received ws
    move o ws (reconnecting c) = begin_reconnect c ws
    move o ws (counting c) =
        (record ws { reconnect_count = ws.reconnect_count + 1 }, sleeping c ∷ [])
    move o ws (sleeping c) = redial o.dialled c ws
    move o ws (resubscribing ids c) = begin_resubscribe ids c ws
    move o ws (sending ids c) =
        (note_error (send_request o.written (subscribe_to ids) ws), resetting c ∷ [])
    move o ws (resetting c) = (record ws { reconnect_count = 0 }, returned c ++ reading ∷ [])

    -- One of the goroutines moves.
    pub data Step (allowed : Outcome C M → Type 0) : System C → System C → Type 0 where
      move_one :
          {s : System C} (o : Outcome C M) (before : List Pc) (pc : Pc) (after : List Pc)
          → allowed o
          → s.goroutines ≡ before ++ pc ∷ after
          → Step allowed s (record {
            client = (move o s.client pc).0;
            goroutines = before ++ (move o s.client pc).1 ++ after;
          })

-- What a user of the client calls, with what it meets outside.
pub data Call (C : Type 0) : Type 0 where
  call_disconnect : Option WsError → Call C
  call_reset : Call C
  call_start : Option C → Bool → Call C
  call_subscribe : Bool → List GoString → Call C
  call_unsubscribe : Bool → Call C
  call_on_price_update : Call C
  call_on_error : Call C

module _ {C : Type 0} where
  -- `Start` starts a reading loop unless it fails.
  unfoldable pub started : WebSocketClient C × Option WsError → List Pc → System C
  started (ws, none) l = record { client = ws; goroutines = reading ∷ l }
  started (ws, some e) l = record { client = ws; goroutines = l }

  unfoldable pub perform : Call C → System C → System C
  unfolding started
  perform (call_disconnect close) s = record s { client = (disconnect close s.client).0 }
  perform call_reset s = record s { client = reset s.client }
  perform (call_start dialled written) s = started (start dialled written s.client) s.goroutines
  perform (call_subscribe written ids) s = record s { client = (subscribe written ids s.client).0 }
  perform (call_unsubscribe written) s = record s { client = (unsubscribe written s.client).0 }
  perform call_on_price_update s = record s { client = on_price_update s.client }
  perform call_on_error s = record s { client = on_error s.client }

  -- A goroutine moves, or a method is called.
  pub data Event {M : Type 0} (convert : M → Option PythFeed) (s : System C)
      : System C → Type 0 where
    moves : {u : System C} → Step convert (λ (o : Outcome C M). Unit {0}) s u → Event convert s u
    calls : (call : Call C) → Event convert s (perform call s)
