-- ===== src/Pyth/WebSocket/Outage.antt =====
-- pyth/pythwebsocket.go: the goroutines while nothing can be dialled and no message comes.
pub mod GivesUp
use pricefeeding.Prelude.{
  if◌then◌else◌, ℕ, ◌+◌, ◌-◌, ◌*◌, ◌≤◌, ◌<◌, ◌≡◌, refl, Bool, true, false, List, [], ◌∷◌, ◌++◌,
  Option, none, some, arith, Bool-cases, inl, inr,
}
use pricefeeding.Prelude.Int.{pos, negsuc, pos_part}
use pricefeeding.Pricefeed.PythMonitor.{PythFeed}
use pricefeeding.Pyth.WebSocket.{WebSocketClient, handle_error, set_subscribed, send_request}
use pricefeeding.Pyth.WebSocket.Goroutines.{
  Caller, from_loop, detached, Pc, reading, looking, awaiting, reconnecting, counting, sleeping,
  resubscribing, sending, resetting, Reading, message, unexpected_close, other_failure, Outcome,
  is_exhausted, begin_reconnect, begin_resubscribe, redial, begin_round, take_connection,
  read_message, move,
}

module _ {M : Type 0} where
  abbrev pub IsFailure : Reading M → Type 0
  IsFailure (message msg) = ⊥
  IsFailure unexpected_close = Unit
  IsFailure other_failure = Unit

  -- What a goroutine meets in an outage.
  abbrev pub IsOutage : {C : Type 0} → Outcome C M → Type 0
  IsOutage o = (o.dialled ≡ none) × IsFailure o.received

pub data Mode : Type 0 where
  below spent given_up : Mode

-- The places after a successful dialling, by what is left of them.
pub late : Pc → ℕ
late (resubscribing ids c) = 3
late (sending ids c) = 2
late (resetting c) = 1
late _ = 0

-- What a goroutine has left before it ends or makes `rounds` smaller.
pub weight : Mode → Pc → ℕ
weight given_up reading = 2
weight given_up looking = 1
weight given_up awaiting = 4
weight given_up (reconnecting from_loop) = 3
weight given_up (reconnecting detached) = 1
weight given_up (counting from_loop) = 5
weight given_up (counting detached) = 3
weight given_up (sleeping from_loop) = 4
weight given_up (sleeping detached) = 2
weight below reading = 4
weight below looking = 3
weight below awaiting = 2
weight below (reconnecting c) = 1
weight below (sleeping from_loop) = 6
weight below (sleeping detached) = 2
weight spent reading = 3
weight spent looking = 2
weight spent awaiting = 1
weight spent (counting from_loop) = 5
weight spent (counting detached) = 2
weight spent (sleeping from_loop) = 4
weight spent (sleeping detached) = 1
weight m pc = 0

pub total : (Pc → ℕ) → List Pc → ℕ
total w [] = 0
total w (pc ∷ pcs) = w pc + total w pcs

pub total-append : (w : Pc → ℕ) (a b : List Pc) → total w (a ++ b) ≡ total w a + total w b
unfolding total
total-append w [] b = omega arith
total-append w (pc ∷ a) b = omega (arith, total-append w a b)

module _ {C : Type 0} where
  pub mode : WebSocketClient C → Mode
  mode ws =
      if ws.gave_up
      then given_up
      else if is_exhausted ws.reconnect_count ws.max_reconnects
      then spent
      else below

  pub rounds : WebSocketClient C → ℕ
  rounds ws = 2 * (pos_part ws.max_reconnects - ws.reconnect_count) + (if ws.gave_up then 0 else 1)

  -- How a move comes nearer to the end.
  pub data Falls (ws : WebSocketClient C) (pc : Pc) (ws' : WebSocketClient C) (pcs : List Pc)
      : Type 0 where
    late_falls : total late pcs < late pc → Falls ws pc ws' pcs
    rounds_fall : total late pcs ≤ late pc → rounds ws' < rounds ws → Falls ws pc ws' pcs
    weight_falls :
        total late pcs ≤ late pc
        → rounds ws' ≡ rounds ws
        → mode ws' ≡ mode ws
        → total (weight (mode ws)) pcs < weight (mode ws) pc
        → Falls ws pc ws' pcs

  begin_round-Falls :
      (ws : WebSocketClient C)
      → ws.cancelled ≡ false
      → Falls ws reading (begin_round ws).0 (begin_round ws).1
  unfolding begin_round mode rounds weight late total
  begin_round-Falls ws h = weight_falls (ground arith) (ground arith) (ground arith) (ground arith)

  take_connection-Falls :
      (ws : WebSocketClient C) → Falls ws looking (take_connection ws).0 (take_connection ws).1
  unfolding take_connection mode rounds weight late total
  take_connection-Falls ws =
      weight_falls (ground arith) (ground arith) (ground arith) (ground arith)

  begin_reconnect-Falls :
      (c : Caller) (ws : WebSocketClient C)
      → Falls ws (reconnecting c) (begin_reconnect c ws).0 (begin_reconnect c ws).1
  unfolding begin_reconnect mode rounds weight late total handle_error
  begin_reconnect-Falls c ws = elim (Bool-cases ws.gave_up) [
    | inl gave ↦ weight_falls (ground arith) (ground arith) (ground arith) (ground arith)
    | inr active ↦ elim (Bool-cases (is_exhausted ws.reconnect_count ws.max_reconnects)) [
      | inl out ↦ rounds_fall (ground arith) (ground arith)
      | inr left ↦ weight_falls (ground arith) (ground arith) (ground arith) (ground arith)
    ]
  ]

  counting-Falls :
      (c : Caller) (ws : WebSocketClient C)
      → Falls ws
          (counting c)
          (record ws { reconnect_count = ws.reconnect_count + 1 })
          (sleeping c ∷ [])
  unfolding mode rounds weight late total is_exhausted
  counting-Falls c ws = elim (Bool-cases (is_exhausted ws.reconnect_count ws.max_reconnects)) [
    | inl out ↦ weight_falls (ground arith) (ground arith) (ground arith) (ground arith)
    | inr left ↦ elim (Bool-cases ws.gave_up) [
      | inl gave ↦ rounds_fall (ground arith) (ground arith)
      | inr active ↦ rounds_fall (ground arith) (ground arith)
    ]
  ]

  redial-Falls :
      (c : Caller) (ws : WebSocketClient C)
      → Falls ws (sleeping c) (redial none c ws).0 (redial none c ws).1
  unfolding redial mode rounds weight late total handle_error
  redial-Falls c ws = weight_falls (ground arith) (ground arith) (ground arith) (ground arith)

  read_message-Falls :
      {M : Type 0} (convert : M → Option PythFeed) (received : Reading M) (ws : WebSocketClient C)
      → IsFailure received
      → Falls ws awaiting (read_message convert received ws).0 (read_message convert received ws).1
  unfolding read_message mode rounds weight late total handle_error
  read_message-Falls convert (message msg) ws h = absurd h
  read_message-Falls convert unexpected_close ws h =
      weight_falls (ground arith) (ground arith) (ground arith) (ground arith)
  read_message-Falls convert other_failure ws h =
      weight_falls (ground arith) (ground arith) (ground arith) (ground arith)

  -- Every move of a goroutine in an outage comes nearer to the end.
  pub move-Falls :
      {M : Type 0} (convert : M → Option PythFeed) (o : Outcome C M) (ws : WebSocketClient C)
      (pc : Pc)
      → IsOutage o
      → ws.cancelled ≡ false
      → Falls ws pc (move convert o ws pc).0 (move convert o ws pc).1
  unfolding move late total begin_resubscribe
  move-Falls convert o ws reading h a = begin_round-Falls ws a
  move-Falls convert o ws looking h a = take_connection-Falls ws
  move-Falls convert o ws awaiting h a = read_message-Falls convert o.received ws h.1
  move-Falls convert o ws (reconnecting c) h a = begin_reconnect-Falls c ws
  move-Falls convert o ws (counting c) h a = counting-Falls c ws
  move-Falls convert o ws (sleeping c) h a = rw h.0 (redial-Falls c ws)
  move-Falls convert o ws (resubscribing ids c) h a = late_falls (ground arith)
  move-Falls convert o ws (sending ids c) h a = late_falls (ground arith)
  move-Falls convert o ws (resetting from_loop) h a = late_falls (ground arith)
  move-Falls convert o ws (resetting detached) h a = late_falls (ground arith)
