-- ===== src/Pyth/WebSocket/Readers.antt =====
-- pyth/pythwebsocket.go: the reading loops of a client that reconnects.
use pricefeeding.Prelude.{
  ℕ, zero, suc, ◌+◌, ◌≡◌, refl, subst, true, false, List, [], ◌∷◌, ◌++◌, Option, none, some, arith,
  inl, inr, List-cases,
}
use pricefeeding.Prelude.Key.{GoString}
use pricefeeding.Prelude.Runs.{Reach, here, next}
use pricefeeding.Pricefeed.PythMonitor.{PythFeed}
use pricefeeding.Pyth.WebSocket.{
  WebSocketClient, subscribe_to, connect, is_connected, set_subscribed, send_request,
}
use pricefeeding.Pyth.WebSocket.Goroutines.{
  from_loop, Pc, reading, looking, awaiting, reconnecting, counting, sleeping, resubscribing,
  sending, resetting, other_failure, Outcome, System, move_one, is_exhausted, begin_reconnect,
  begin_resubscribe, redial, begin_round, take_connection, read_message, note_error, move, Event,
  moves,
}

abbrev pub readers : ℕ → List Pc
readers zero = []
readers (suc n) = reading ∷ readers n

-- A client that reads from a connection `c`, and may reconnect.
pub record IsReading {C : Type 0} (c : C) (ws : WebSocketClient C) : Type 0 where
  pub conn : ws.conn ≡ some c
  pub connected : ws.connected ≡ true
  pub active : ws.cancelled ≡ false
  pub trying : ws.gave_up ≡ false
  pub counted : ws.reconnect_count ≡ 0
  pub allowed : is_exhausted 0 ws.max_reconnects ≡ false

module _ {C M : Type 0} (convert : M → Option PythFeed) (c : C) where
  -- What a goroutine meets where a read fails and the next dialling gives `c`.
  abbrev lost : Outcome C M
  lost = record { dialled = some c; received = other_failure; written = true }

  abbrev system : WebSocketClient C → List Pc → System C
  system ws pcs = record { client = ws; goroutines = pcs }

  front :
      {s : System C} (ws : WebSocketClient C) (pc : Pc) (rest : List Pc) (ws' : WebSocketClient C)
      (pcs : List Pc)
      → Reach (Event convert) s (system ws (pc ∷ rest))
      → move convert lost ws pc ≡ (ws', pcs)
      → Reach (Event convert) s (system ws' (pcs ++ rest))
  front {s} ws pc rest ws' pcs r e =
      subst (λ m. Reach (Event convert) s (system m.0 (m.1 ++ rest))) e
        (next r (moves (move_one lost [] pc rest tt refl)))

  abbrev restored : WebSocketClient C → WebSocketClient C
  restored ws = record ws { conn = some c; connected = true; reconnect_count = 0; gave_up = false }

  -- The way of the reading loop from a failed read to the dialling.
  lost-sleeping :
      {s : System C} (ws : WebSocketClient C) (rest : List Pc)
      → Reach (Event convert) s (system ws (reading ∷ rest))
      → IsReading c ws
      → Reach (Event convert) s (
          system
            (record ws { conn = none; connected = false; reconnect_count = ws.reconnect_count + 1 })
            (sleeping from_loop ∷ rest))
  unfolding move begin_round take_connection read_message begin_reconnect
  lost-sleeping ws rest r h =
      let w : WebSocketClient C = record ws { conn = none; connected = false } in
      let r0 = front ws reading rest ws (looking ∷ []) r (ground arith) in
      let r1 = front ws looking rest ws (awaiting ∷ []) r0 (ground arith) in
      let r2 = front ws awaiting rest ws (reconnecting from_loop ∷ []) r1 (ground arith) in
      let r3 =
        front ws (reconnecting from_loop) rest w (counting from_loop ∷ []) r2 (ground arith) in
      front w (counting from_loop) rest (record w { reconnect_count = w.reconnect_count + 1 })
        (sleeping from_loop ∷ []) r3 refl

  -- A client reached from `s` that reads from `c`, with `n` reading loops.
  pub record Reads (s : System C) (n : ℕ) : Type 0 where
    pub client : WebSocketClient C
    pub is_reading : IsReading c client
    pub reached : Reach (Event convert) s (system client (readers n))

  sleeping-Reads :
      {s : System C} (n : ℕ) (ws : WebSocketClient C)
      → Reach (Event convert) s (system ws (sleeping from_loop ∷ readers n))
      → ws.cancelled ≡ false
      → is_exhausted 0 ws.max_reconnects ≡ false
      → Reads s (suc (suc n))
  unfolding move redial connect begin_resubscribe set_subscribed is_connected send_request
      note_error
  sleeping-Reads n ws r a m = elim (List-cases ws.subscribed_ids) [
    | inl e ↦
        let w = restored ws in
        let r1 =
          front ws (sleeping from_loop) (readers n) w (resetting from_loop ∷ []) r (ground arith) in
        record {
          client = record w { reconnect_count = 0 };
          is_reading = record {
            conn = refl;
            connected = refl;
            active = a;
            trying = refl;
            counted = refl;
            allowed = m;
          };
          reached =
              front w (resetting from_loop) (readers n) (record w { reconnect_count = 0 })
                (reading ∷ reading ∷ []) r1 refl;
        }
    | inr (id, ids, e) ↦
        let w = restored ws in
        let l : List GoString = id ∷ ids in
        let v : WebSocketClient C = record w { subscribed_ids = l } in
        let u : WebSocketClient C = record v { sent = v.sent ++ subscribe_to l ∷ [] } in
        let r1 =
          front ws (sleeping from_loop) (readers n) w (resubscribing l from_loop ∷ []) r
            (ground arith) in
        let r2 =
          front w (resubscribing l from_loop) (readers n) v (sending l from_loop ∷ []) r1 refl in
        let r3 = front v (sending l from_loop) (readers n) u (resetting from_loop ∷ []) r2 refl in
        record {
          client = record u { reconnect_count = 0 };
          is_reading = record {
            conn = refl;
            connected = refl;
            active = a;
            trying = refl;
            counted = refl;
            allowed = m;
          };
          reached =
              front u (resetting from_loop) (readers n) (record u { reconnect_count = 0 })
                (reading ∷ reading ∷ []) r3 refl;
        }
  ]

  again : {s : System C} {n : ℕ} → Reads s (suc n) → Reads s (suc (suc n))
  again {s} {n} h =
      sleeping-Reads n _ (lost-sleeping h.client (readers n) h.reached h.is_reading)
        h.is_reading.active h.is_reading.allowed

  -- A client that reads from a connection with one reading loop, and may reconnect, can reach for every
  -- `n` a state in which it reads from one connection with `n + 1` reading loops.
  pub readers-grow :
      (ws : WebSocketClient C) (n : ℕ) → IsReading c ws → Reads (system ws (reading ∷ [])) (suc n)
  readers-grow ws zero h = record { client = ws; is_reading = h; reached = here }
  readers-grow ws (suc n) h = again (readers-grow ws n h)
