-- ===== src/Pyth/WebSocket/Disconnected.antt =====
-- pyth/pythwebsocket.go: a client after `Disconnect`.
use pricefeeding.Prelude.{
  ℕ, ◌+◌, ◌≤◌, ◌≡◌, refl, ap, true, List, [], ◌∷◌, ◌++◌, Option, none, some, arith, length,
  length-append,
}
use pricefeeding.Prelude.Key.{GoString, bytes, string_key}
use pricefeeding.Prelude.Dict.{Dict, get}
use pricefeeding.Prelude.Runs.{Reach, here, next}
use pricefeeding.Pricefeed.PythMonitor.{PythFeed}
use pricefeeding.Pyth.WebSocket.{
  WebSocketClient, connect, reset, disconnect, is_connected, handle_error, set_subscribed,
  send_request, subscribe, unsubscribe, on_price_update, on_error, resubscribe, start,
}
use pricefeeding.Pyth.WebSocket.Messages.{
  Value, as_text, price_feed_data, deliver, handle_price_update, handle_server_error,
  process_message,
}
use pricefeeding.Pyth.WebSocket.Goroutines.{
  from_loop, detached, Pc, reading, looking, awaiting, reconnecting, counting, sleeping,
  resubscribing, sending, resetting, Reading, message, unexpected_close, other_failure, Outcome,
  System, Step, move_one, begin_reconnect, begin_resubscribe, redial, begin_round, take_connection,
  read_message, note_error, move, Call, perform, started, Event, moves, calls, call_disconnect,
  call_reset, call_start, call_subscribe, call_unsubscribe, call_on_price_update, call_on_error,
}

-- The goroutines that wait for a message, or that have seen that the context was not done and come to it.
pub waiting : List Pc → ℕ
waiting [] = 0
waiting (awaiting ∷ pcs) = 1 + waiting pcs
waiting (looking ∷ pcs) = 1 + waiting pcs
waiting (pc ∷ pcs) = waiting pcs

pub waiting-append : (a b : List Pc) → waiting (a ++ b) ≡ waiting a + waiting b
unfolding waiting
waiting-append [] b = omega arith
waiting-append (awaiting ∷ a) b = omega (arith, waiting-append a b)
waiting-append (looking ∷ a) b = omega (arith, waiting-append a b)
waiting-append (pc ∷ a) b = waiting-append a b

waiting-replace :
    (before pcs after : List Pc) (pc : Pc)
    → waiting (before ++ pcs ++ after) + waiting (pc ∷ [])
      ≡ waiting (before ++ pc ∷ after) + waiting pcs
waiting-replace before pcs after pc = omega (
  arith,
  waiting-append (before ++ pcs) after,
  waiting-append before pcs,
  waiting-append before (pc ∷ after),
  waiting-append (pc ∷ []) after,
)

module _ {C M : Type 0} (convert : M → Option PythFeed) where
  pub record Quiet (ws : WebSocketClient C) (pcs : List Pc) (ws' : WebSocketClient C)
      (pcs' : List Pc) : Type 0 where
    pub stays : ws'.cancelled ≡ true
    pub fewer : waiting pcs' ≤ waiting pcs
    pub bounded : length ws'.delivered + waiting pcs' ≤ length ws.delivered + waiting pcs

  -- At most one message is delivered.
  abbrev AtMostOne : WebSocketClient C → WebSocketClient C → Type 0
  AtMostOne ws ws' =
      (length ws'.delivered ≤ length ws.delivered + 1) × (ws'.cancelled ≡ ws.cancelled)

  deliver-AtMostOne :
      (feed : Option PythFeed) (ws : WebSocketClient C) → AtMostOne ws (deliver convert feed ws)
  unfolding deliver handle_error
  deliver-AtMostOne none ws = ground arith
  deliver-AtMostOne (some feed) ws = ground (arith, length-append ws.delivered (feed ∷ []))

  handle_price_update-AtMostOne :
      (msg : Dict GoString (Value M)) (ws : WebSocketClient C)
      → AtMostOne ws (handle_price_update convert msg ws)
  unfolding handle_price_update
  handle_price_update-AtMostOne msg ws =
      elim (price_feed_data msg)
        as (λ found.
          AtMostOne ws (elim found [ none ↦ ws | some m ↦ deliver convert (convert m) ws ])) [
            | none ↦ (omega arith, refl)
            | some m ↦ deliver-AtMostOne (convert m) ws
          ]

  handle_server_error-AtMostOne :
      (e : Option GoString) (ws : WebSocketClient C)
      → AtMostOne ws (handle_server_error convert e ws)
  unfolding handle_server_error handle_error
  handle_server_error-AtMostOne none ws = ground arith
  handle_server_error-AtMostOne (some e) ws = ground arith

  process_message-AtMostOne :
      (msg : Dict GoString (Value M)) (ws : WebSocketClient C)
      → AtMostOne ws (process_message convert msg ws)
  unfolding process_message
  process_message-AtMostOne msg ws = ground (
    arith,
    handle_price_update-AtMostOne msg ws,
    handle_server_error-AtMostOne (as_text (get (bytes "error") msg)) ws,
  )

  read_message-Quiet :
      (received : Reading M) (ws : WebSocketClient C)
      → ws.cancelled ≡ true
      → Quiet ws
          (awaiting ∷ [])
          (read_message convert received ws).0
          (read_message convert received ws).1
  unfolding read_message handle_error waiting
  read_message-Quiet (message msg) ws h = ground (arith, process_message-AtMostOne msg ws)
  read_message-Quiet unexpected_close ws h = ground arith
  read_message-Quiet other_failure ws h = ground arith

  move-Quiet :
      (o : Outcome C M) (ws : WebSocketClient C) (pc : Pc)
      → ws.cancelled ≡ true
      → Quiet ws (pc ∷ []) (move convert o ws pc).0 (move convert o ws pc).1
  unfolding move begin_round take_connection read_message begin_reconnect redial begin_resubscribe
      set_subscribed send_request note_error handle_error connect waiting
  move-Quiet o ws reading h = ground arith
  move-Quiet o ws looking h = ground arith
  move-Quiet o ws awaiting h = read_message-Quiet o.received ws h
  move-Quiet o ws (reconnecting c) h = ground arith
  move-Quiet o ws (counting c) h = ground arith
  move-Quiet o ws (sleeping c) h = ground arith
  move-Quiet o ws (resubscribing ids c) h = ground arith
  move-Quiet o ws (sending ids c) h = ground arith
  move-Quiet o ws (resetting from_loop) h = ground arith
  move-Quiet o ws (resetting detached) h = ground arith

  perform-Quiet :
      (call : Call C) (s : System C)
      → s.client.cancelled ≡ true
      → Quiet s.client s.goroutines (perform call s).client (perform call s).goroutines
  unfolding perform started start disconnect reset is_connected connect resubscribe subscribe
      unsubscribe set_subscribed send_request on_price_update on_error waiting
  perform-Quiet (call_disconnect close) s h = ground arith
  perform-Quiet call_reset s h = ground arith
  perform-Quiet (call_start dialled written) s h = ground arith
  perform-Quiet (call_subscribe written ids) s h = ground arith
  perform-Quiet (call_unsubscribe written) s h = ground arith
  perform-Quiet call_on_price_update s h = ground arith
  perform-Quiet call_on_error s h = ground arith

  Step-Quiet :
      {allowed : Outcome C M → Type 0} {s u : System C}
      → Step convert allowed s u
      → s.client.cancelled ≡ true
      → Quiet s.client s.goroutines u.client u.goroutines
  unfolding waiting
  Step-Quiet {s} (move_one o before pc after h e) c =
      let q = move-Quiet o s.client pc c in
      let r = waiting-replace before (move convert o s.client pc).1 after pc in
      record {
        stays = q.stays;
        fewer = omega (arith, r, q.fewer, ap waiting e);
        bounded = omega (arith, r, q.bounded, ap waiting e);
      }

  Event-Quiet :
      {s u : System C}
      → Event convert s u
      → s.client.cancelled ≡ true
      → Quiet s.client s.goroutines u.client u.goroutines
  Event-Quiet (moves st) c = Step-Quiet st c
  Event-Quiet {s} (calls call) c = perform-Quiet call s c

  -- After `Disconnect`, whatever the goroutines do and whatever methods are called, `Start` and `Reset`
  -- included: the context stays cancelled, no more goroutines wait for a message, or come to it after they
  -- saw that the context was not done, than did then, and the handler gets at most one message for each of
  -- these.
  pub Reach-Quiet :
      {s u : System C}
      → Reach (Event convert) s u
      → s.client.cancelled ≡ true
      → Quiet s.client s.goroutines u.client u.goroutines
  Reach-Quiet here c = record { stays = c; fewer = omega arith; bounded = omega arith }
  Reach-Quiet (next r e) c =
      let q = Reach-Quiet r c in
      let p = Event-Quiet e q.stays in
      record { stays = p.stays; fewer = omega arith; bounded = omega arith }
