-- ===== src/Chainlink/Client.antt =====
-- chainlink/client.go: `FetchPriceData`, with the switch to another endpoint and the retry.
pub mod Attempt
pub mod Fetch
pub mod ErrorCode
use pricefeeding.Prelude.{
  ℕ, zero, suc, ◌+◌, Bool, true, false, ◌&&◌, ◌||◌, List, [], ◌∷◌, Option, none, some, eqb, leb,
  is_some, or_else, if◌then◌else◌,
}
use pricefeeding.Prelude.Int.{ℤ, pos, negsuc}
use pricefeeding.Prelude.Key.{GoString, bytes, string_key, ◌==◌}
use pricefeeding.Types.Morpher.{ChainlinkPrice}

-- `RPCSwitcher`, on the state `S` that its implementation works on: a switch reports whether it
-- succeeded, and the best client may be missing.
pub record RpcSwitcher (C S : Type 0) : Type 0 where
  pub switch : ℕ → S → S × Bool
  pub best_client : ℕ → S → S × Option C

-- The answer of `latestRoundData`.
pub record RoundData : Type 0 where
  pub round_id : Option ℤ
  pub answer : Option ℤ
  pub started_at : Option ℤ
  pub updated_at : Option ℤ
  pub answered_in_round : Option ℤ

-- A round, or the text of the error.
pub data RoundAnswer : Type 0 where
  round : RoundData → RoundAnswer
  failure : GoString → RoundAnswer

-- The contract of a feed, as the bindings of the package aggregatorv3 show it, and the clock. What a
-- call answers depends on the client, the address and the attempt at which it is made.
pub record Contract (C : Type 0) : Type 0 where
  pub binds : ℕ → C → GoString → Bool
  pub latest_round_data : ℕ → C → GoString → RoundAnswer
  pub decimals : ℕ → C → GoString → Option ℕ
  pub now : ℕ → ℕ

-- `FetchPriceDataOptions` without the delay. `none` is nil.
pub record FetchOptions (C S : Type 0) : Type 0 where
  pub network_id : ℕ
  pub feed_address : GoString
  pub client : Option C
  pub rpc_switcher : Option (RpcSwitcher C S)
  pub max_retries : ℕ

pub data FetchError : Type 0 where
  nil_client empty_address not_bound round_failed out_of_fuel : FetchError

pub data Fetched : Type 0 where
  price : ChainlinkPrice → Fetched
  failed : FetchError → Fetched

-- strings.HasPrefix and strings.Contains.
unfoldable pub has_prefix : GoString → GoString → Bool
has_prefix [] s = true
has_prefix (c ∷ p) [] = false
has_prefix (c ∷ p) (d ∷ s) = eqb c d && has_prefix p s

unfoldable pub has_infix : GoString → GoString → Bool
unfolding has_prefix
has_infix p [] = has_prefix p []
has_infix p (c ∷ s) = has_prefix p (c ∷ s) || has_infix p s

-- `IsErrorCode32097`, on the text of an error that is not nil.
unfoldable pub is_error_code_32097 : GoString → Bool
unfolding has_infix
is_error_code_32097 text =
    has_infix (bytes "-32097") text
    || (has_infix (bytes "32097") text
        || (has_infix (bytes "execution reverted") text || has_infix (bytes "revert") text))

-- -int(decimals)
unfoldable pub neg : ℕ → ℤ
neg zero = pos 0
neg (suc n) = negsuc n

module _ {C S : Type 0} (contract : Contract C) where
  -- The price that a round gives. Where the decimals cannot be read they are taken to be 8.
  unfoldable pub make_price : FetchOptions C S → C → ℕ → RoundData → ChainlinkPrice
  unfolding neg
  make_price opts client attempt r = record {
    round_id = r.round_id;
    answer = r.answer;
    started_at = r.started_at;
    updated_at = r.updated_at;
    answered_in_round = r.answered_in_round;
    timestamp = contract.now attempt;
    exponent = neg (or_else 8 (contract.decimals attempt client opts.feed_address));
    network_id = opts.network_id;
    feed_address = opts.feed_address;
  }

  -- `fetchPriceDataWithRetry`. Each retry takes one of the fuel.
  unfoldable pub fetch_price_data_with_retry : ℕ → FetchOptions C S → C → ℕ → S → S × Fetched
  unfolding make_price is_error_code_32097
  fetch_price_data_with_retry zero opts client attempt s = (s, failed out_of_fuel)
  fetch_price_data_with_retry (suc fuel) opts client attempt s =
      if contract.binds attempt client opts.feed_address
      then elim (contract.latest_round_data attempt client opts.feed_address) [
        | round r ↦ (s, price (make_price opts client attempt r))
        | failure text ↦
            if is_error_code_32097 text && leb attempt opts.max_retries
            then elim opts.rpc_switcher [
              | none ↦ (s, failed round_failed)
              | some switcher ↦
                  let switched = switcher.switch opts.network_id s in
                  let best = switcher.best_client opts.network_id switched.0 in
                  if switched.1
                  then elim best.1 [
                    | none ↦ (best.0, failed round_failed)
                    | some new_client ↦
                        fetch_price_data_with_retry fuel opts new_client (attempt + 1) best.0
                  ]
                  else (switched.0, failed round_failed)
            ]
            else (s, failed round_failed)
      ]
      else (s, failed not_bound)

  -- `FetchPriceData`: no retries asked for is one retry.
  unfoldable pub fetch_price_data : FetchOptions C S → S → S × Fetched
  unfolding fetch_price_data_with_retry
  fetch_price_data opts s = elim opts.client [
    | none ↦ (s, failed nil_client)
    | some client ↦
        let retries = if eqb opts.max_retries 0 then 1 else opts.max_retries in
        if opts.feed_address == []
        then (s, failed empty_address)
        else fetch_price_data_with_retry (retries + 1) (record opts { max_retries = retries })
            client 1 s
  ]
