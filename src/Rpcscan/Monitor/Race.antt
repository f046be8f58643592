-- ===== src/Rpcscan/Monitor/Race.antt =====
-- The goroutines of `getBestRPCEndpointsParallel` for one network, in any order and with any timeouts.
use mathlib.Core.List.Permᴰ
use mathlib.Core.List.{Memᴰ, Permᴰ, append_assoc}
use pricefeeding.Prelude.{
  ℕ, ◌+◌, ◌*◌, ◌<◌, ◌≤◌, ◌≡◌, refl, sym, ap, subst, ◌∙◌, ◌⊎◌, inl, inr, Bool, Bool-cases, false,
  List, List-cases, [], ◌∷◌, ◌++◌, arith, All, map, length, length-append, All-append, left-All,
  right-All,
}
use pricefeeding.Prelude.Key.{GoString}
use pricefeeding.Rpcscan.Types.{RpcConfig}
use pricefeeding.Rpcscan.RpcSwitcher.{
  Network, LatencyBox, Best, no_best, better, best_of, check_latency_con,
}
use pricefeeding.Rpcscan.RpcSwitcher.Switch.{Answers, endpoint-check, check-Answers, check-elapsed}
use pricefeeding.Rpcscan.RpcSwitcher.Selection.{chosen, better-cases, best_of-minimal, best_of-perm}
use pricefeeding.Rpcscan.Monitor.{
  test_endpoint, best_in, Search, start_search, Step, send, receive, Reach, here, next, IsFinished,
}

map_append : {A B : Type 0} (f : A → B) (l m : List A) → map f (l ++ m) ≡ map f l ++ map f m
map_append f [] m = refl
map_append f (x ∷ l) m = ap (◌∷◌ (f x)) (map_append f l m)

All-own : {A : Type 0} (P : A → Type 0) (l : List A) → ((x : A) → Memᴰ x l → P x) → All P l
All-own P [] f = tt
All-own P (x ∷ l) f = (f x (Memᴰ.head refl), All-own P l (λ y m. f y (Memᴰ.tail m)))

module _ {C : Type 0} (net : Network C) (late : GoString → Bool) (network : RpcConfig)
    (id : ℕ) where
  abbrev pub test : GoString → LatencyBox
  test = test_endpoint net late network id

  abbrev outcome : Search net late → Best
  outcome s = best_of s.best (s.latency_chan ++ map test s.pending)

  -- What is in the channel with what is still to come, when a goroutine sends.
  sent-perm :
      (chan : List LatencyBox) (before : List GoString) (endpoint : GoString)
      (after : List GoString)
      → Permᴰ
          (chan ++ map test (before ++ endpoint ∷ after))
          ((chan ++ test endpoint ∷ []) ++ map test (before ++ after))
  sent-perm chan before endpoint after =
      rw (append_assoc, map_append, map_append)
        (Permᴰ.append_left chan (Permᴰ.middle (test endpoint) (map test before) (map test after)))

  -- The latency that the loop ends with is fixed from the start.
  Step-latency :
      {s t : Search net late}
      → Step net late network id s t
      → (outcome s).latency ≡ (outcome t).latency
  Step-latency (send {s = s} before endpoint after e) =
      rw e (best_of-perm s.best (sent-perm s.latency_chan before endpoint after))
  Step-latency (receive {s = s} result rest e) = unfold best_of in rw e

  Reach-latency :
      {s : Search net late} {n : ℕ} {t : Search net late}
      → Reach net late network id s n t
      → (outcome s).latency ≡ (outcome t).latency
  Reach-latency here = refl
  Reach-latency (next r st) = Reach-latency r ∙ Step-latency st

  abbrev Own : GoString → Type 0
  Own ep = Memᴰ ep network.endpoints

  abbrev OwnResult : LatencyBox → Type 0
  OwnResult r = (ep : GoString) × Memᴰ ep network.endpoints × (r ≡ test ep)

  abbrev IsBestOwn : Best → Type 0
  IsBestOwn b =
      (b ≡ no_best)
      ⊎ ((ep : GoString) × Memᴰ ep network.endpoints
          × (b ≡ chosen (test ep))
          × (0 < (test ep).latency))

  found-latency :
      {n : ℕ} {t : Search net late}
      → Reach net late network id (start_search net late network) n t
      → (best_of no_best (map test network.endpoints)).latency ≡ (outcome t).latency
  unfolding start_search
  found-latency r = Reach-latency r

  outcome-finished :
      (s : Search net late)
      → s.pending ≡ []
      → s.latency_chan ≡ []
      → (outcome s).latency ≡ s.best.latency
  unfolding best_of
  outcome-finished s p c = rw (p, c) refl

  -- The best so far, and what is in the channel, come from the network's own endpoints.
  record IsOwn (s : Search net late) : Type 0 where
    pending : All Own s.pending
    chan : All OwnResult s.latency_chan
    best : IsBestOwn s.best

  start-IsOwn : IsOwn (start_search net late network)
  unfolding start_search
  start-IsOwn = record {
    pending = All-own Own network.endpoints (λ ep m. m);
    chan = tt;
    best = inl refl;
  }

  own-better :
      (b : Best) (r : LatencyBox)
      → IsBestOwn b
      → (ep : GoString) × Memᴰ ep network.endpoints × (r ≡ test ep)
      → IsBestOwn (better b r)
  own-better b r h (ep, m, e) = elim (better-cases b r) [
    | inl same ↦ subst IsBestOwn (sym same) h
    | inr (is, pos, lt) ↦
        inr (ep, m, is ∙ ap chosen e, subst (λ (q : LatencyBox). 0 < q.latency) e pos)
  ]

  Step-IsOwn : {s t : Search net late} → Step net late network id s t → IsOwn s → IsOwn t
  Step-IsOwn (send {s = s} before endpoint after e) h =
      let p = subst (All Own) e h.pending in
      record {
        pending =
            All-append Own before after (left-All Own before (endpoint ∷ after) p)
              (right-All Own before (endpoint ∷ after) p).1;
        chan =
            All-append OwnResult s.latency_chan (test endpoint ∷ []) h.chan
              ((endpoint, (right-All Own before (endpoint ∷ after) p).0, refl), tt);
        best = h.best;
      }
  Step-IsOwn (receive {s = s} result rest e) h =
      let c = subst (All OwnResult) e h.chan in
      record { pending = h.pending; chan = c.1; best = own-better s.best result h.best c.0 }

  Reach-IsOwn :
      {n : ℕ} {t : Search net late}
      → Reach net late network id (start_search net late network) n t
      → IsOwn t
  Reach-IsOwn here = start-IsOwn
  Reach-IsOwn (next r st) = Step-IsOwn st (Reach-IsOwn r)

  -- The endpoint does not time out, can be dialled and answers.
  pub record AnswersInTime (ep : GoString) : Type 0 where
    pub in_time : late ep ≡ false
    pub answers : Answers net ep

  test-AnswersInTime :
      (ep : GoString)
      → 0 < (test ep).latency
      → AnswersInTime ep × ((test ep).endpoint ≡ ep) × ((test ep).latency ≡ net.elapsed ep)
  unfolding test_endpoint
  test-AnswersInTime ep h = elim (Bool-cases (late ep)) [
    | inl out ↦ absurd (ground arith)
    | inr in_time ↦
        let (answers, time) = check-Answers net network.network_id ep (ground arith) in
        (
          record { in_time = in_time; answers = answers },
          ground (arith, endpoint-check net network.network_id ep),
          ground (arith, time),
        )
  ]

  test-elapsed : (ep : GoString) → AnswersInTime ep → (test ep).latency ≡ net.elapsed ep
  unfolding test_endpoint
  test-elapsed ep a = ground (arith, a.in_time, check-elapsed net network.network_id ep a.answers)

  in_time-minimal :
      (m : ℕ) (l : List GoString)
      → All (λ (q : LatencyBox). 0 < q.latency → m ≤ q.latency) (map test l)
      → All (λ ep. AnswersInTime ep → m ≤ net.elapsed ep) l
  in_time-minimal m [] h = tt
  in_time-minimal m (ep ∷ l) h = (
    λ a.
        let e = test-elapsed ep a in
        omega (arith, e, a.answers.late, h.0 (omega (arith, e, a.answers.late))),
    in_time-minimal m l h.1,
  )

  -- Nothing was found, or an own endpoint that answers in time, with its latency.
  abbrev pub IsFound : Best → Type 0
  IsFound b =
      (b ≡ no_best)
      ⊎ ((ep : GoString) × Memᴰ ep network.endpoints
          × AnswersInTime ep
          × (b.endpoint ≡ ep)
          × (b.latency ≡ net.elapsed ep))

  IsBestOwn-IsFound : (b : Best) → IsBestOwn b → IsFound b
  IsBestOwn-IsFound b (inl e) = inl e
  IsBestOwn-IsFound b (inr (ep, m, e, pos)) =
      let (a, at, time) = test-AnswersInTime ep pos in
      inr (ep, m, a, ap (λ (q : Best). q.endpoint) e ∙ at, ap (λ (q : Best). q.latency) e ∙ time)

  -- However the goroutines interleave, and whichever of them time out: a search that is finished has
  -- either found nothing, or an own endpoint of the network that does not time out, can be dialled and
  -- answers, with the time that this took; and no such endpoint is faster than what it found.
  pub search_result :
      (n : ℕ) (s : Search net late)
      → Reach net late network id (start_search net late network) n s
      → IsFinished net late s
      → IsFound s.best
        × All (λ ep. AnswersInTime ep → s.best.latency ≤ net.elapsed ep) network.endpoints
  search_result n s r (p, c) =
      let results = map test network.endpoints in
      let latency : (best_of no_best results).latency ≡ s.best.latency =
        found-latency r ∙ outcome-finished s p c in
      (
        IsBestOwn-IsFound s.best (Reach-IsOwn r).best,
        in_time-minimal s.best.latency network.endpoints (
            subst (λ m. All (λ (q : LatencyBox). 0 < q.latency → m ≤ q.latency) results) latency
              (best_of-minimal no_best results)),
      )

  -- The steps that are left: a goroutine sends, and its result is received.
  abbrev work : Search net late → ℕ
  work s = 2 * length s.pending + length s.latency_chan

  Step-work : {s t : Search net late} → Step net late network id s t → work t + 1 ≡ work s
  Step-work (send {s = s} before endpoint after e) = rw e (
      omega (
        arith,
        length-append before after,
        length-append before (endpoint ∷ after),
        length-append s.latency_chan (test endpoint ∷ []),
      ))
  Step-work (receive {s = s} result rest e) = rw e (omega arith)

  Reach-work :
      {s : Search net late} {n : ℕ} {t : Search net late}
      → Reach net late network id s n t
      → n + work t ≡ work s
  Reach-work here = omega arith
  Reach-work (next r st) = omega (arith, Reach-work r, Step-work st)

  progress :
      (s : Search net late)
      → IsFinished net late s ⊎ ((t : Search net late) × Step net late network id s t)
  progress s = elim (List-cases s.pending) [
    | inr (ep, after, e) ↦ inr (_, send [] ep after e)
    | inl p ↦ elim (List-cases s.latency_chan) [
      | inl c ↦ inl (p, c)
      | inr (result, rest, e) ↦ inr (_, receive result rest e)
    ]
  ]

  -- A search takes at most two steps for each endpoint of the network, and goes on until it is finished.
  pub search_terminates :
      (n : ℕ) (s : Search net late)
      → Reach net late network id (start_search net late network) n s
      → (n ≤ 2 * length network.endpoints)
        × (IsFinished net late s ⊎ ((t : Search net late) × Step net late network id s t))
  unfolding start_search
  search_terminates n s r = (omega (arith, Reach-work r), progress s)

  -- Without a timeout the results are those of the loop of `getBestRPCEndpoints`.
  best_of-best_in :
      (b : Best) (l : List GoString)
      → All (λ ep. late ep ≡ false) l
      → best_of b (map test l) ≡ best_in net network.network_id b l
  unfolding best_of best_in test_endpoint
  best_of-best_in b [] h = refl
  best_of-best_in b (ep ∷ l) h =
      rw h.0 (best_of-best_in (better b (check_latency_con net network.network_id ep)) l h.1)

  -- Where no endpoint of the network times out, every finished search finds the latency that
  -- `getBestRPCEndpoints` finds for it by testing one endpoint after the other.
  pub search_agrees :
      (n : ℕ) (s : Search net late)
      → All (λ ep. late ep ≡ false) network.endpoints
      → Reach net late network id (start_search net late network) n s
      → IsFinished net late s
      → s.best.latency ≡ (best_in net network.network_id no_best network.endpoints).latency
  search_agrees n s h r (p, c) =
      sym (found-latency r ∙ outcome-finished s p c)
      ∙ ap (λ (b : Best). b.latency) (best_of-best_in no_best network.endpoints h)
