-- ===== src/Pricefeed/Ticker.antt =====
-- pricefeed/chainlink_monitor.go, pricefeed/pyth_monitor.go: the loop of `Start`.
use pricefeeding.Prelude.{ℕ, ◌+◌, List, [], ◌∷◌}

-- What the `select` of the loop meets.
pub data Signal : Type 0 where
  tick stop : Signal

-- The loop, with the round that comes next; at the end of the list it waits. What comes after a stop is
-- not met.
unfoldable pub ticker_loop : {A : Type 0} → (ℕ → A → A) → ℕ → List Signal → A → A
ticker_loop update round [] a = a
ticker_loop update round (stop ∷ signals) a = a
ticker_loop update round (tick ∷ signals) a =
    ticker_loop update (round + 1) signals (update round a)

-- `Start`: a first round, then the loop.
unfoldable pub start_ticker : {A : Type 0} → (ℕ → A → A) → List Signal → A → A
unfolding ticker_loop
start_ticker update signals a = ticker_loop update 1 signals (update 0 a)

module _ {A : Type 0} (P : A → Type 0) (update : ℕ → A → A)
    (keep : (n : ℕ) (a : A) → P a → P (update n a)) where
  ticker_loop-keeps :
      (round : ℕ) (signals : List Signal) (a : A) → P a → P (ticker_loop update round signals a)
  unfolding ticker_loop
  ticker_loop-keeps round [] a h = h
  ticker_loop-keeps round (stop ∷ signals) a h = h
  ticker_loop-keeps round (tick ∷ signals) a h =
      ticker_loop-keeps (round + 1) signals (update round a) (keep round a h)

  pub start_ticker-keeps : (signals : List Signal) (a : A) → P a → P (start_ticker update signals a)
  unfolding start_ticker
  start_ticker-keeps signals a h = ticker_loop-keeps 1 signals (update 0 a) (keep 0 a h)
