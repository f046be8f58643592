-- ===== src/Pyth/Hermes/Waits.antt =====
-- pyth/client.go: how often `httpRequest` tries, and how long it waits.
use pricefeeding.Prelude.{
  ℕ, zero, suc, ◌+◌, ◌*◌, ◌%◌, ◌^◌, ◌≤◌, ◌<◌, ◌≡◌, refl, true, List, [], ◌∷◌, ◌++◌, Option, arith,
  length, ◌⊎◌, inl, inr, sym, ap, ◌∙◌,
}
use pricefeeding.Prelude.Int.{pos}
use pricefeeding.Prelude.Key.{GoString}
use pricefeeding.Pyth.Hermes.{
  HermesClient, Reply, HttpError, Outcome, failed, Exchange, Tried, final, again, wait_of,
  try_reply, attempts, from_first, http_request,
}
use mathlib.Core.List.{append-nil, append_assoc}
use native.Mathlib.Nat.{pow-succ', one-le-pow, pow-le-pow_right}

-- `k` waits in nanoseconds that double from `backoff` milliseconds.
pub doubled : ℕ → ℕ → List ℕ
doubled zero backoff = []
doubled (suc k) backoff = backoff * 1_000_000 ∷ doubled k (backoff * 2)

pub sum : List ℕ → ℕ
sum [] = 0
sum (w ∷ ws) = w + sum ws

length-doubled : (k b : ℕ) → length (doubled k b) ≡ k
unfolding doubled
length-doubled zero b = refl
length-doubled (suc k) b = omega (arith, length-doubled k (b * 2))

sum-doubled : (k b : ℕ) → sum (doubled k b) + b * 1_000_000 ≡ b * 1_000_000 * 2 ^ k
unfolding doubled sum
sum-doubled zero b = omega arith
sum-doubled (suc k) b = rw (pow-succ' 2 k) (omega (arith, sum-doubled k (b * 2)))

pub Tried-cases :
    {A : Type 0} (t : Tried A)
    → ((o : Outcome A) × (t ≡ final o)) ⊎ ((e : HttpError) × (t ≡ again e))
Tried-cases (final o) = inl (o, refl)
Tried-cases (again e) = inr (e, refl)

small : (left b : ℕ) → b * 2 ^ suc left < 2 ^ 44 → b < 2 ^ 43
small left b h = grind (arith, pow-succ' 2 left, one-le-pow left 2)

smaller : (left b : ℕ) → b * 2 ^ suc left < 2 ^ 44 → b * 2 % 2 ^ 64 * 2 ^ left < 2 ^ 44
smaller left b h =
    let e : b * 2 % 2 ^ 64 ≡ b * 2 = omega (arith, small left b h) in
    let g : b * (2 * 2 ^ left) < 2 ^ 44 = rw (pow-succ' 2 left) at h in rw e (omega arith)

below_product : (b p : ℕ) → b < 200 → p ≤ 2 ^ 36 → b * p < 2 ^ 44
below_product b p h k = grind arith

below_sum :
    (w jitter p q : ℕ)
    → jitter < 100
    → p ≤ q
    → w + (100 + jitter) * 1_000_000 ≡ (100 + jitter) * 1_000_000 * p
    → w < 200_000_000 * q
below_sum w jitter p q h k e = grind arith

start-lt : (n jitter : ℕ) → n ≤ 36 → jitter < 100 → (100 + jitter) * 2 ^ n < 2 ^ 44
start-lt n jitter h k =
    let p : 2 ^ n ≤ 2 ^ 36 = pow-le-pow_right (omega arith) h in
    below_product (100 + jitter) (2 ^ n) (omega arith) p

module _ {A : Type 0} where
  record Doubles (attempt left b : ℕ) (waits : List ℕ) (r : Exchange A) : Type 0 where
    more : ℕ
    within : more ≤ left
    waits_are : r.waits ≡ waits ++ doubled more b
    sent_is : r.sent ≡ attempt + suc more

  none_more :
      (attempt left b : ℕ) (waits : List ℕ) (o : Outcome A)
      → Doubles attempt left b waits (record { outcome = o; sent = attempt + 1; waits = waits })
  unfolding doubled
  none_more attempt left b waits o = record {
    more = 0;
    within = omega arith;
    waits_are = sym (append-nil waits);
    sent_is = omega arith;
  }

  one_more :
      (attempt left b : ℕ) (waits : List ℕ) (r : Exchange A)
      → b * 2 ^ suc left < 2 ^ 44
      → Doubles (attempt + 1) left (b * 2 % 2 ^ 64) (waits ++ wait_of b ∷ []) r
      → Doubles attempt (suc left) b waits r
  unfolding doubled wait_of
  one_more attempt left b waits r h d = record {
    more = suc d.more;
    within = omega (arith, d.within);
    waits_are =
        ground
          (arith, small left b h, append_assoc waits (b * 1_000_000 ∷ []) (doubled d.more (b * 2)));
    sent_is = omega (arith, d.sent_is);
  }

  -- What holds of the attempts and waits with `n` retries.
  pub record Bounded (n jitter : ℕ) (r : Exchange A) : Type 0 where
    pub at_least : 1 ≤ r.sent
    pub at_most : r.sent ≤ n + 1
    pub between : length r.waits + 1 ≡ r.sent
    pub doubling : r.waits ≡ doubled (length r.waits) (100 + jitter)
    pub total :
        sum r.waits + (100 + jitter) * 1_000_000 ≡ (100 + jitter) * 1_000_000 * 2 ^ length r.waits
    pub below : sum r.waits < 200_000_000 * 2 ^ n

  Doubles-Bounded :
      (n jitter : ℕ) (r : Exchange A)
      → jitter < 100
      → Doubles 0 n (100 + jitter) [] r
      → Bounded n jitter r
  Doubles-Bounded n jitter r h d =
      let b = 100 + jitter in
      let same : length r.waits ≡ d.more = ap length d.waits_are ∙ length-doubled d.more b in
      let s : sum r.waits + b * 1_000_000 ≡ b * 1_000_000 * 2 ^ d.more =
        rw d.waits_are (sum-doubled d.more b) in
      record {
        at_least = omega (arith, d.sent_is);
        at_most = omega (arith, d.sent_is, d.within);
        between = omega (arith, d.sent_is, same);
        doubling = rw same d.waits_are;
        total = rw same s;
        below =
            below_sum (sum r.waits) jitter (2 ^ d.more) (2 ^ n) h
              (pow-le-pow_right (omega arith) d.within) s;
      }

module _ {A : Type 0} (decode : GoString → Option A) (answer : ℕ → Reply) where
  attempts-Doubles :
      (left attempt b : ℕ) (waits : List ℕ)
      → b * 2 ^ left < 2 ^ 44
      → Doubles attempt left b waits (attempts decode answer left attempt b waits)
  unfolding attempts doubled wait_of
  attempts-Doubles zero attempt b waits h = elim (Tried-cases (try_reply decode (answer attempt))) [
    | inl (o, e) ↦ rw (e, attempts) (none_more attempt zero b waits o)
    | inr (x, e) ↦ rw (e, attempts) (none_more attempt zero b waits (failed x))
  ]
  attempts-Doubles (suc left) attempt b waits h =
      elim (Tried-cases (try_reply decode (answer attempt))) [
        | inl (o, e) ↦ rw (e, attempts) (none_more attempt (suc left) b waits o)
        | inr (x, e) ↦
            rw (e, attempts)
              (one_more attempt left b waits _ h (
                attempts-Doubles left (attempt + 1) (b * 2 % 2 ^ 64) (waits ++ wait_of b ∷ [])
                  (smaller left b h)))
      ]

  -- Where a request can be made, the number of retries is at most 36 and the random part of the first
  -- wait is below 100: `httpRequest` tries at least once and at most once more than the number of
  -- retries, and waits between the attempts only; the first wait is of 100 milliseconds and the random
  -- part, every other is twice the one before, with no overflow; and their sum and the first wait
  -- together are the first wait times 2 to the power of their number, below 200 milliseconds times 2 to
  -- the power of the number of retries.
  pub http_request-Bounded :
      (c : HermesClient) (n jitter : ℕ)
      → c.http_retries ≡ pos n
      → n ≤ 36
      → jitter < 100
      → Bounded n jitter (http_request decode c true jitter answer)
  unfolding http_request from_first
  http_request-Bounded c n jitter e h k =
      rw (e, http_request)
        (Doubles-Bounded n jitter _ k
          (attempts-Doubles n 0 (100 + jitter) [] (start-lt n jitter h k)))
