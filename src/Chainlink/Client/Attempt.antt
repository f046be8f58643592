-- ===== src/Chainlink/Client/Attempt.antt =====
-- The ways in which one attempt of `fetchPriceDataWithRetry` goes.
use pricefeeding.Prelude.{
  ℕ, suc, ◌+◌, ◌≤◌, ◌≡◌, ◌≢◌, refl, ◌⊎◌, inl, inr, true, ◌&&◌, none, some, arith, Bool-cases,
  Option-cases, leb, if◌then◌else◌,
}
use pricefeeding.Prelude.Key.{GoString, string_key}
use pricefeeding.Chainlink.Client.{
  RpcSwitcher, Contract, RoundData, RoundAnswer, round, failure, FetchOptions, FetchError,
  out_of_fuel, round_failed, not_bound, Fetched, price, failed, is_error_code_32097, make_price,
  fetch_price_data_with_retry,
}

RoundAnswer-cases :
    (a : RoundAnswer) → ((r : RoundData) × (a ≡ round r)) ⊎ ((text : GoString) × (a ≡ failure text))
RoundAnswer-cases (round r) = inl (r, refl)
RoundAnswer-cases (failure text) = inr (text, refl)

module _ {C S : Type 0} (contract : Contract C) where
  module _ (opts : FetchOptions C S) where
    -- The state after the calls of the switcher in an attempt that fails with the error code.
    pub data Touched (s s' : S) : Type 0 where
      untouched : s' ≡ s → Touched s s'
      switched :
          (switcher : RpcSwitcher C S)
          → opts.rpc_switcher ≡ some switcher
          → s' ≡ (switcher.switch opts.network_id s).0
          → Touched s s'
      asked :
          (switcher : RpcSwitcher C S)
          → opts.rpc_switcher ≡ some switcher
          → s' ≡ (switcher.best_client opts.network_id (switcher.switch opts.network_id s).0).0
          → Touched s s'

    -- A client that the switcher gave as the best one of the network, in some state.
    pub record FromSwitcher (client : C) : Type 0 where
      pub switcher : RpcSwitcher C S
      pub given : opts.rpc_switcher ≡ some switcher
      pub state : S
      pub best : (switcher.best_client opts.network_id state).1 ≡ some client

    -- The ways in which one attempt goes.
    pub data Attempt (fuel : ℕ) (client : C) (attempt : ℕ) (s : S) (result : S × Fetched)
        : Type 0 where
      read :
          (r : RoundData)
          → contract.latest_round_data attempt client opts.feed_address ≡ round r
          → result ≡ (s, price (make_price contract opts client attempt r))
          → Attempt fuel client attempt s result
      stop :
          (e : FetchError)
          → e ≢ out_of_fuel
          → result ≡ (s, failed e)
          → Attempt fuel client attempt s result
      give_up :
          (text : GoString) (s' : S)
          → contract.latest_round_data attempt client opts.feed_address ≡ failure text
          → is_error_code_32097 text ≡ true
          → Touched s s'
          → result ≡ (s', failed round_failed)
          → Attempt fuel client attempt s result
      retry :
          (text : GoString) (new_client : C) (s' : S)
          → contract.latest_round_data attempt client opts.feed_address ≡ failure text
          → is_error_code_32097 text ≡ true
          → attempt ≤ opts.max_retries
          → FromSwitcher new_client
          → Touched s s'
          → result ≡ fetch_price_data_with_retry contract fuel opts new_client (attempt + 1) s'
          → Attempt fuel client attempt s result

    -- The calls of the switcher.
    Attempt-switcher :
        (fuel : ℕ) (client : C) (attempt : ℕ) (s : S) (text : GoString) (switcher : RpcSwitcher C S)
        → contract.latest_round_data attempt client opts.feed_address ≡ failure text
        → is_error_code_32097 text ≡ true
        → attempt ≤ opts.max_retries
        → opts.rpc_switcher ≡ some switcher
        → Attempt fuel client attempt s (
            let switched = switcher.switch opts.network_id s in
            let best = switcher.best_client opts.network_id switched.0 in
            if switched.1
            then elim best.1 [
              | none ↦ (best.0, failed round_failed)
              | some new_client ↦
                  fetch_price_data_with_retry contract fuel opts new_client (attempt + 1) best.0
            ]
            else (switched.0, failed round_failed))
    Attempt-switcher fuel client attempt s text switcher f c h e =
        let after = switcher.switch opts.network_id s in
        let best = switcher.best_client opts.network_id after.0 in
        elim (Bool-cases after.1) [
          | inr off ↦ rw off (give_up text after.0 f c (switched switcher e refl) refl)
          | inl on ↦ elim (Option-cases best.1) [
            | inl n ↦ rw (on, n) (give_up text best.0 f c (asked switcher e refl) refl)
            | inr (new, n) ↦
                rw (on, n)
                  (retry text new best.0 f c h
                    (record { switcher = switcher; given = e; state = after.0; best = n })
                    (asked switcher e refl) refl)
          ]
        ]

    pub Attempt-cases :
        (fuel : ℕ) (client : C) (attempt : ℕ) (s : S)
        → Attempt fuel client attempt s
            (fetch_price_data_with_retry contract (suc fuel) opts client attempt s)
    unfolding fetch_price_data_with_retry
    Attempt-cases fuel client attempt s =
        let answer = contract.latest_round_data attempt client opts.feed_address in
        elim (Bool-cases (contract.binds attempt client opts.feed_address)) [
          | inr off ↦ rw off (stop not_bound (λ e. cc) refl)
          | inl on ↦ rw on (elim (RoundAnswer-cases answer) [
            | inl (r, e) ↦ rw e (read r e refl)
            | inr (text, e) ↦
                rw e (elim (Bool-cases (is_error_code_32097 text && leb attempt opts.max_retries)) [
                  | inr off ↦ rw off (stop round_failed (λ e. cc) refl)
                  | inl code ↦ rw code (elim (Option-cases opts.rpc_switcher) [
                    | inl none_given ↦ rw none_given (stop round_failed (λ e. cc) refl)
                    | inr (switcher, given) ↦ simp given (
                        Attempt-switcher fuel client attempt s text switcher e (ground arith)
                          (ground arith) given)
                  ])
                ])
          ])
        ]
