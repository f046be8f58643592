-- ===== src/Tests/SocketTests.antt =====
-- Runs of the websocket client and of its goroutines.
use pricefeeding.Prelude.{ℕ, ◌≡◌, refl, true, [], ◌∷◌, Option, none, some}
use pricefeeding.Prelude.Int.{pos, negsuc}
use pricefeeding.Prelude.Key.{GoString, bytes}
use pricefeeding.Prelude.Dict.{Dict, get}
use pricefeeding.Prelude.Runs.{Eventually, here, next}
use pricefeeding.Pricefeed.PythMonitor.{PythFeed}
use pricefeeding.Pyth.WebSocket.{
  WebSocketClient, new_web_socket_client, connect, disconnect, on_price_update, start, subscribe,
  subscribe_to, is_connected,
}
use pricefeeding.Pyth.WebSocket.Messages.{Value, text, object, array, process_message}
use pricefeeding.Pyth.WebSocket.Goroutines.{
  reading, awaiting, sleeping, detached, System, Step, call_start, call_disconnect, perform, calls,
  is_exhausted,
}
use pricefeeding.Pyth.WebSocket.Outage.{IsOutage}
use pricefeeding.Pyth.WebSocket.Outage.GivesUp.{IsLive, IsOver, IsOutage-Eventually}
use pricefeeding.Pyth.WebSocket.Disconnected.{Quiet, Reach-Quiet}
use pricefeeding.Pyth.WebSocket.Readers.{IsReading, Reads, readers-grow}

-- Connections are numbers, and an object of a message is its feed.
abbrev convert : PythFeed → Option PythFeed
convert feed = some feed

abbrev ws : WebSocketClient ℕ
ws = on_price_update (connect (some 7) (new_web_socket_client none)).0

abbrev feed : PythFeed
feed = record {
  id = bytes "e6";
  price = bytes "100";
  conf = bytes "1";
  expo = negsuc 7;
  publish_time = pos 1;
  slot = pos 0;
  ema_price = [];
  ema_conf = [];
}

abbrev price_update : Dict GoString (Value PythFeed)
price_update = (bytes "type", text (bytes "price_update")) ∷ (bytes "priceFeed", object feed) ∷ []

abbrev array_update : Dict GoString (Value PythFeed)
array_update =
    (bytes "type", text (bytes "price_update"))
    ∷ (bytes "parsed", array (some feed ∷ none ∷ []))
    ∷ []

running : Unit {0}
unfolding new_web_socket_client connect on_price_update process_message get subscribe start
    is_connected disconnect is_exhausted perform
running = tt

update_is_delivered : (process_message convert price_update ws).delivered ≡ feed ∷ []
unfolding running
update_is_delivered = refl

first_of_array : (process_message convert array_update ws).delivered ≡ feed ∷ []
unfolding running
first_of_array = refl

subscribed : (subscribe true (bytes "e6" ∷ []) ws).0.sent ≡ subscribe_to (bytes "e6" ∷ []) ∷ []
unfolding running
subscribed = refl

-- A reader on a connection, and a goroutine that waits to dial again.
abbrev system : System ℕ
system = record { client = ws; goroutines = reading ∷ sleeping detached ∷ [] }

system-IsLive : IsLive system
unfolding running
system-IsLive = record { active = refl; running = λ e. absurd (cc) }

IsOutage-Eventually_example : Eventually (Step convert (IsOutage {M = PythFeed})) IsOver system
IsOutage-Eventually_example = IsOutage-Eventually convert system system-IsLive

-- After `Disconnect` the client is started again.
abbrev stopped : System ℕ
stopped = perform (call_disconnect none) (record { client = ws; goroutines = awaiting ∷ [] })

abbrev restarted : System ℕ
restarted = perform (call_start (some 8) true) stopped

restarts : (is_connected restarted.client ≡ true) × (restarted.goroutines ≡ reading ∷ awaiting ∷ [])
unfolding running
restarts = (refl, refl)

stopped-cancelled : stopped.client.cancelled ≡ true
unfolding running
stopped-cancelled = refl

Reach-Quiet_example :
    Quiet convert stopped.client stopped.goroutines restarted.client restarted.goroutines
Reach-Quiet_example =
    Reach-Quiet convert (next here (calls (call_start (some 8) true))) stopped-cancelled

ws-IsReading : IsReading 7 ws
unfolding running
ws-IsReading = record {
  conn = refl;
  connected = refl;
  active = refl;
  trying = refl;
  counted = refl;
  allowed = refl;
}

readers-grow_example : Reads convert 7 (record { client = ws; goroutines = reading ∷ [] }) 3
readers-grow_example = readers-grow convert 7 ws 2 ws-IsReading
