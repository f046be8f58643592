-- ===== src/Pyth/Hermes/Answers.antt =====
-- pyth/client.go: which answer `httpRequest` returns.
use pricefeeding.Prelude.{
  ℕ, zero, suc, ◌+◌, ◌*◌, ◌%◌, ◌^◌, ◌≤◌, ◌<◌, ◌≡◌, refl, subst, true, List, [], ◌∷◌, ◌++◌, Option,
  arith, ltb, Bool-cases, ◌⊎◌, inl, inr,
}
use native.Mathlib.Decide.{ℕ_discrete}
use pricefeeding.Prelude.Int.{pos}
use pricefeeding.Prelude.Key.{GoString}
use pricefeeding.Pyth.Hermes.{
  HermesClient, Reply, no_reply, reply, HttpError, request_failed, http_status, Outcome, failed,
  decoded, Exchange, final, again, wait_of, try_reply, attempts, from_first, http_request,
}
use pricefeeding.Pyth.Hermes.Waits.{Tried-cases}

module _ {A : Type 0} (decode : GoString → Option A) (answer : ℕ → Reply) where
  -- A reply that ends the loop, and the outcome that it gives.
  abbrev pub IsTaken : Reply → Outcome A → Type 0
  IsTaken no_reply o = ⊥
  IsTaken (reply status body) o =
      (200 ≤ status) × (status < 300) × (o ≡ decoded decode (decode body))

  -- A reply after which the loop tries again, and its error.
  abbrev pub IsRefused : Reply → HttpError → Type 0
  IsRefused no_reply e = e ≡ request_failed
  IsRefused (reply status body) e =
      ((status < 200) ⊎ (300 ≤ status)) × (e ≡ http_status status body)

  final-IsTaken : (r : Reply) (o : Outcome A) → try_reply decode r ≡ final o → IsTaken r o
  unfolding try_reply
  final-IsTaken no_reply o h = cc
  final-IsTaken (reply status body) o h = ground arith

  again-IsRefused : (r : Reply) (e : HttpError) → try_reply decode r ≡ again e → IsRefused r e
  unfolding try_reply
  again-IsRefused no_reply e h = ground arith
  again-IsRefused (reply status body) e h = elim (Bool-cases (ltb status 200)) [
    | inl low ↦ (inl (ground arith), ground arith)
    | inr high ↦ (inr (ground arith), ground arith)
  ]

  -- The outcome is that of the attempt `at`, the last of the attempts up to `last`: every attempt before
  -- it from `first` on failed so that it may be made again.
  pub record Answers (first last : ℕ) (r : Exchange A) : Type 0 where
    pub at : ℕ
    pub from : first ≤ at
    pub to : at ≤ last
    pub counted : r.sent ≡ at + 1
    pub failed_before : (i : ℕ) → first ≤ i → i < at → (e : HttpError) × IsRefused (answer i) e
    pub outcome_is :
        IsTaken (answer at) r.outcome
        ⊎ ((at ≡ last) × (e : HttpError) × IsRefused (answer at) e × (r.outcome ≡ failed e))

  final_answer :
      (first last : ℕ) (o : Outcome A) (waits : List ℕ)
      → first ≤ last
      → IsTaken (answer first) o
      → Answers first last (record { outcome = o; sent = first + 1; waits = waits })
  final_answer first last o waits h e = record {
    at = first;
    from = omega arith;
    to = h;
    counted = refl;
    failed_before = λ i p q. absurd (omega arith);
    outcome_is = inl e;
  }

  last_answer :
      (last : ℕ) (x : HttpError) (waits : List ℕ)
      → IsRefused (answer last) x
      → Answers last last (record { outcome = failed x; sent = last + 1; waits = waits })
  last_answer last x waits e = record {
    at = last;
    from = omega arith;
    to = omega arith;
    counted = refl;
    failed_before = λ i p q. absurd (omega arith);
    outcome_is = inr (refl, x, e, refl);
  }

  later_answer :
      (first last : ℕ) (r : Exchange A) (x : HttpError)
      → IsRefused (answer first) x
      → Answers (first + 1) last r
      → Answers first last r
  later_answer first last r x e a = record {
    at = a.at;
    from = omega (arith, a.from);
    to = a.to;
    counted = a.counted;
    failed_before = λ i p q. elim (ℕ_discrete i first) [
      | yes f ↦ (x, rw f e)
      | no n ↦ a.failed_before i (omega arith) q
    ];
    outcome_is = a.outcome_is;
  }

  attempts-Answers :
      (left attempt last b : ℕ) (waits : List ℕ)
      → attempt + left ≡ last
      → Answers attempt last (attempts decode answer left attempt b waits)
  unfolding attempts
  attempts-Answers zero attempt last b waits h =
      elim (Tried-cases (try_reply decode (answer attempt))) [
        | inl (o, e) ↦
            rw (e, attempts)
              (final_answer attempt last o waits (omega arith) (final-IsTaken (answer attempt) o e))
        | inr (x, e) ↦
            let same : attempt ≡ last = omega arith in
            rw (e, attempts)
              (subst
                (λ k.
                  Answers attempt k
                    (record { outcome = failed x; sent = attempt + 1; waits = waits }))
                same (last_answer attempt x waits (again-IsRefused (answer attempt) x e)))
      ]
  attempts-Answers (suc left) attempt last b waits h =
      elim (Tried-cases (try_reply decode (answer attempt))) [
        | inl (o, e) ↦
            rw (e, attempts)
              (final_answer attempt last o waits (omega arith) (final-IsTaken (answer attempt) o e))
        | inr (x, e) ↦
            rw (e, attempts)
              (later_answer attempt last _ x (again-IsRefused (answer attempt) x e) (
                attempts-Answers left (attempt + 1) last (b * 2 % 2 ^ 64) (waits ++ wait_of b ∷ [])
                  (omega arith)))
      ]

  -- Where a request can be made, `httpRequest` with `n` retries returns the outcome of its last attempt
  -- `at`, which is one of the first `n + 1`: every attempt before it failed to connect or had a status
  -- outside 200 to 299; and the attempt `at` did not, or is the last one allowed, whose error is
  -- returned.
  pub http_request-Answers :
      (c : HermesClient) (n jitter : ℕ)
      → c.http_retries ≡ pos n
      → Answers 0 n (http_request decode c true jitter answer)
  unfolding http_request from_first
  http_request-Answers c n jitter e =
      rw (e, http_request) (attempts-Answers n 0 n (100 + jitter) [] (omega arith))
