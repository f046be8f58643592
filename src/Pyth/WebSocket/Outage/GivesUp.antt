-- ===== src/Pyth/WebSocket/Outage/GivesUp.antt =====
-- pyth/pythwebsocket.go: how an outage ends.
use pricefeeding.Prelude.{
  ℕ, zero, suc, ◌+◌, ◌≤◌, ◌<◌, ◌≡◌, refl, ap, true, false, List, [], ◌∷◌, ◌++◌, Option, none, arith,
  ◌⊎◌, inl, inr, List-cases,
}
use pricefeeding.Prelude.Runs.{Eventually, now, later}
use pricefeeding.Pricefeed.PythMonitor.{PythFeed}
use pricefeeding.Pyth.WebSocket.{WebSocketClient, handle_error, set_subscribed, send_request}
use pricefeeding.Pyth.WebSocket.Goroutines.{
  from_loop, detached, Pc, reading, looking, awaiting, reconnecting, counting, sleeping,
  resubscribing, sending, resetting, other_failure, Outcome, System, Step, move_one,
  begin_reconnect, begin_resubscribe, redial, begin_round, take_connection, read_message,
  note_error, move,
}
use pricefeeding.Pyth.WebSocket.Outage.{
  IsOutage, late, weight, total, total-append, mode, rounds, Falls, late_falls, rounds_fall,
  weight_falls, move-Falls,
}

nil_parts : (a b c : List Pc) → a ++ b ++ c ≡ [] → b ≡ []
nil_parts [] [] c h = refl
nil_parts [] (pc ∷ b) c h = absurd (cc)
nil_parts (pc ∷ a) b c h = absurd (cc)

total-replace :
    (w : Pc → ℕ) (before pcs after : List Pc) (pc : Pc)
    → total w (before ++ pcs ++ after) + w pc ≡ total w (before ++ pc ∷ after) + total w pcs
unfolding total
total-replace w before pcs after pc = omega (
  arith,
  total-append w (before ++ pcs) after,
  total-append w before pcs,
  total-append w before (pc ∷ after),
)

module _ {C : Type 0} where
  -- A client that is not cancelled, with a goroutine unless it has given up.
  pub record IsLive (s : System C) : Type 0 where
    pub active : s.client.cancelled ≡ false
    pub running : s.goroutines ≡ [] → s.client.gave_up ≡ true

  pub record IsOver (s : System C) : Type 0 where
    pub gave_up : s.client.gave_up ≡ true
    pub none_left : s.goroutines ≡ []

  record MoveLive (r : WebSocketClient C × List Pc) : Type 0 where
    active : r.0.cancelled ≡ false
    running : r.1 ≡ [] → r.0.gave_up ≡ true

module _ {C M : Type 0} (convert : M → Option PythFeed) where
  move-MoveLive :
      (o : Outcome C M) (ws : WebSocketClient C) (pc : Pc)
      → IsOutage o
      → ws.cancelled ≡ false
      → MoveLive (move convert o ws pc)
  unfolding move begin_round take_connection read_message begin_reconnect redial begin_resubscribe
      set_subscribed send_request note_error handle_error
  move-MoveLive o ws reading h a = ground arith
  move-MoveLive o ws looking h a = ground arith
  move-MoveLive o ws awaiting h a = ground arith
  move-MoveLive o ws (reconnecting c) h a = ground arith
  move-MoveLive o ws (counting c) h a = ground arith
  move-MoveLive o ws (sleeping c) h a = rw h.0 (ground arith)
  move-MoveLive o ws (resubscribing ids c) h a = ground arith
  move-MoveLive o ws (sending ids c) h a = ground arith
  move-MoveLive o ws (resetting from_loop) h a = ground arith
  move-MoveLive o ws (resetting detached) h a = ground arith

  Step-IsLive : {s u : System C} → Step convert (IsOutage {M = M}) s u → IsLive s → IsLive u
  Step-IsLive {s} (move_one o before pc after h e) l =
      let r = move-MoveLive o s.client pc h l.active in
      record {
        active = r.active;
        running = λ n. r.running (nil_parts before (move convert o s.client pc).1 after n);
      }

  -- The three sizes of a state: the first of them that changes at a step falls.
  abbrev places : System C → ℕ
  places s = total late s.goroutines

  abbrev left : System C → ℕ
  left s = rounds s.client

  abbrev work : System C → ℕ
  work s = total (weight (mode s.client)) s.goroutines

  abbrev StepFalls : System C → System C → Type 0
  StepFalls s u =
      (places u < places s)
      ⊎ ((places u ≤ places s) × ((left u < left s) ⊎ ((left u ≤ left s) × (work u < work s))))

  Falls-StepFalls :
      (s : System C) (before : List Pc) (pc : Pc) (after : List Pc) (ws : WebSocketClient C)
      (pcs : List Pc)
      → s.goroutines ≡ before ++ pc ∷ after
      → Falls s.client pc ws pcs
      → StepFalls s (record { client = ws; goroutines = before ++ pcs ++ after })
  Falls-StepFalls s before pc after ws pcs e (late_falls h) =
      inl (omega (arith, total-replace late before pcs after pc, ap (total late) e))
  Falls-StepFalls s before pc after ws pcs e (rounds_fall h r) =
      inr (omega (arith, total-replace late before pcs after pc, ap (total late) e), inl r)
  Falls-StepFalls s before pc after ws pcs e (weight_falls h r m f) =
      let w = weight (mode s.client) in
      let same : total (weight (mode ws)) (before ++ pcs ++ after)
          ≡ total w (before ++ pcs ++ after) =
        ap (λ k. total (weight k) (before ++ pcs ++ after)) m in
      inr (
        omega (arith, total-replace late before pcs after pc, ap (total late) e),
        inr (omega arith, omega (arith, total-replace w before pcs after pc, ap (total w) e, same)),
      )

  Step-StepFalls : {s u : System C} → Step convert (IsOutage {M = M}) s u → IsLive s → StepFalls s u
  Step-StepFalls {s} (move_one o before pc after h e) l =
      Falls-StepFalls s before pc after (move convert o s.client pc).0
        (move convert o s.client pc).1 e (move-Falls convert o s.client pc h l.active)

  abbrev nothing : Outcome C M
  nothing = record { dialled = none; received = other_failure; written = false }

  IsOutage-ends :
      (a b c : ℕ) (s : System C)
      → places s < a
      → left s < b
      → work s < c
      → IsLive s
      → Eventually (Step convert (IsOutage {M = M})) IsOver s
  IsOutage-ends zero b c s p q r l = absurd (omega arith)
  IsOutage-ends (suc a) zero c s p q r l = absurd (omega arith)
  IsOutage-ends (suc a) (suc b) zero s p q r l = absurd (omega arith)
  IsOutage-ends (suc a) (suc b) (suc c) s p q r l = elim (List-cases s.goroutines) [
    | inl e ↦ now (record { gave_up = l.running e; none_left = e })
    | inr (pc, pcs, e) ↦ later _ (move_one nothing [] pc pcs (refl, tt) e) (λ u st.
        let k = Step-IsLive st l in
        elim (Step-StepFalls st l) [
          | inl f ↦
              IsOutage-ends a (suc (left u)) (suc (work u)) u (omega arith) (omega arith)
                (omega arith) k
          | inr (f, inl g) ↦
              IsOutage-ends (suc a) b (suc (work u)) u (omega arith) (omega arith) (omega arith) k
          | inr (f, inr (g, h)) ↦
              IsOutage-ends (suc a) (suc b) c u (omega arith) (omega arith) (omega arith) k
        ])
  ]

  -- Whatever the goroutines of a client do when an outage begins, and in whatever order they move: where
  -- the client is not cancelled and has a goroutine, or has given up, then with every dialling and
  -- reading failing there comes a state in which it has given up and no goroutine is left.
  pub IsOutage-Eventually :
      (s : System C) → IsLive s → Eventually (Step convert (IsOutage {M = M})) IsOver s
  IsOutage-Eventually s l =
      IsOutage-ends (suc (places s)) (suc (left s)) (suc (work s)) s (omega arith) (omega arith)
        (omega arith) l
