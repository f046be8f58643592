-- ===== src/Chainlink/Client/Fetch.antt =====
-- What `FetchPriceData` returns, and what it does to the state of the switcher.
use native.Mathlib.Numerals.{add-one}
use pricefeeding.Prelude.{
  ℕ, [], zero, suc, ◌+◌, ◌≤◌, ◌≡◌, ◌≢◌, refl, sym, subst, ◌⊎◌, inl, inr, false, Option, none, some,
  arith, Bool-cases, Option-cases, eqb, if◌then◌else◌,
}
use pricefeeding.Prelude.Int.{ℤ, pos, negsuc}
use pricefeeding.Prelude.Key.{GoString, string_key, string_beq}
use pricefeeding.Types.Morpher.{ChainlinkPrice}
use pricefeeding.Chainlink.Client.{
  RpcSwitcher, Contract, RoundData, round, failure, FetchOptions, FetchError, out_of_fuel,
  nil_client, empty_address, price, failed, is_error_code_32097, make_price, neg,
  fetch_price_data_with_retry, fetch_price_data,
}
use pricefeeding.Chainlink.Client.Attempt.{
  Touched, untouched, switched, asked, read, stop, give_up, retry, Attempt-cases, FromSwitcher,
}

module _ {C S : Type 0} (contract : Contract C) where
  module _ (opts : FetchOptions C S) where
    retries_end :
        (fuel : ℕ) (client : C) (attempt : ℕ) (s : S)
        → attempt ≤ opts.max_retries + 1
        → opts.max_retries + 2 ≤ attempt + fuel
        → (fetch_price_data_with_retry contract fuel opts client attempt s).1 ≢ failed out_of_fuel
    retries_end zero client attempt s h k = absurd (omega arith)
    retries_end (suc fuel) client attempt s h k =
        elim (Attempt-cases contract opts fuel client attempt s) [
          | read r f e ↦ rw e (λ q. cc)
          | stop error n e ↦ rw e (λ q. n (ground arith))
          | give_up text s' f c t e ↦ rw e (λ q. cc)
          | retry text new s' f c m g t e ↦
              rw e (retries_end fuel new (attempt + 1) s' (omega arith) (omega arith))
        ]

    -- The exponent for the decimals of a feed, which are taken to be 8 where they cannot be read.
    abbrev pub IsExponent : Option ℕ → ℤ → Type 0
    IsExponent none e = e ≡ negsuc 7
    IsExponent (some zero) e = e ≡ pos 0
    IsExponent (some (suc n)) e = e ≡ negsuc n

    make_price-IsExponent :
        (client : C) (attempt : ℕ) (r : RoundData) (decimals : Option ℕ)
        → contract.decimals attempt client opts.feed_address ≡ decimals
        → IsExponent decimals (make_price contract opts client attempt r).exponent
    unfolding make_price neg
    make_price-IsExponent client attempt r none e = rw e refl
    make_price-IsExponent client attempt r (some zero) e = rw e refl
    make_price-IsExponent client attempt r (some (suc n)) e = rw e refl

    -- The client of an attempt: the given one at the first, and one of the switcher's later on.
    abbrev pub IsClientOf : Option C → ℕ → C → Type 0
    IsClientOf given attempt client =
        ((attempt ≡ 1) × (given ≡ some client))
        ⊎ ((2 ≤ attempt) × FromSwitcher contract opts client)

    -- The attempt that read the round of a price, and the fields of the price.
    pub record ReadFrom (given : Option C) (p : ChainlinkPrice) : Type 0 where
      pub attempt : ℕ
      pub client : C
      pub read_round : RoundData
      pub within : attempt ≤ opts.max_retries + 1
      pub own_client : IsClientOf given attempt client
      pub answered : contract.latest_round_data attempt client opts.feed_address ≡ round read_round
      pub round_id : p.round_id ≡ read_round.round_id
      pub answer : p.answer ≡ read_round.answer
      pub started_at : p.started_at ≡ read_round.started_at
      pub updated_at : p.updated_at ≡ read_round.updated_at
      pub answered_in_round : p.answered_in_round ≡ read_round.answered_in_round
      pub timestamp : p.timestamp ≡ contract.now attempt
      pub exponent : IsExponent (contract.decimals attempt client opts.feed_address) p.exponent
      pub network_id : p.network_id ≡ opts.network_id
      pub feed_address : p.feed_address ≡ opts.feed_address

    made-ReadFrom :
        (given : Option C) (attempt : ℕ) (client : C) (r : RoundData) (p : ChainlinkPrice)
        → attempt ≤ opts.max_retries + 1
        → IsClientOf given attempt client
        → contract.latest_round_data attempt client opts.feed_address ≡ round r
        → p ≡ make_price contract opts client attempt r
        → ReadFrom given p
    unfolding make_price
    made-ReadFrom given attempt client r p h k f e = rw e (record {
      attempt = attempt;
      client = client;
      read_round = r;
      within = h;
      own_client = k;
      answered = f;
      round_id = refl;
      answer = refl;
      started_at = refl;
      updated_at = refl;
      answered_in_round = refl;
      timestamp = refl;
      exponent = make_price-IsExponent client attempt r _ refl;
      network_id = refl;
      feed_address = refl;
    })

    retry_reads :
        (given : Option C) (fuel : ℕ) (client : C) (attempt : ℕ) (s : S) (p : ChainlinkPrice)
        → 1 ≤ attempt
        → attempt ≤ opts.max_retries + 1
        → IsClientOf given attempt client
        → (fetch_price_data_with_retry contract fuel opts client attempt s).1 ≡ price p
        → ReadFrom given p
    retry_reads given zero client attempt s p l h k g =
        absurd (unfold fetch_price_data_with_retry in cc)
    retry_reads given (suc fuel) client attempt s p l h k g =
        elim (Attempt-cases contract opts fuel client attempt s) [
          | read r f e ↦ made-ReadFrom given attempt client r p h k f (ground arith)
          | stop error n e ↦ absurd (ground arith)
          | give_up text s' f c t e ↦ absurd (ground arith)
          | retry text new s' f c m from t e ↦
              retry_reads given fuel new (attempt + 1) s' p (omega arith) (omega arith)
                (inr (omega arith, from)) (rw e at g)
        ]

    module _ (P : S → Type 0) where
      -- What the switcher's operations keep.
      pub record Keeps (switcher : RpcSwitcher C S) : Type 0 where
        pub switch : (s : S) → P s → P (switcher.switch opts.network_id s).0
        pub best_client : (s : S) → P s → P (switcher.best_client opts.network_id s).0

      touched_keeps :
          ((switcher : RpcSwitcher C S) → opts.rpc_switcher ≡ some switcher → Keeps switcher)
          → {s s' : S} → Touched contract opts s s'
          → P s
          → P s'
      touched_keeps k (untouched e) h = subst P (sym e) h
      touched_keeps k (switched switcher given e) h =
          subst P (sym e) ((k switcher given).switch _ h)
      touched_keeps k (asked switcher given e) h =
          subst P (sym e) ((k switcher given).best_client _ ((k switcher given).switch _ h))

      pub retry_keeps :
          ((switcher : RpcSwitcher C S) → opts.rpc_switcher ≡ some switcher → Keeps switcher)
          → (fuel : ℕ) (client : C) (attempt : ℕ) (s : S) → P s
          → P (fetch_price_data_with_retry contract fuel opts client attempt s).0
      retry_keeps k zero client attempt s h = unfold fetch_price_data_with_retry in h
      retry_keeps k (suc fuel) client attempt s h =
          elim (Attempt-cases contract opts fuel client attempt s) [
            | read r f e ↦ rw e h
            | stop error n e ↦ rw e h
            | give_up text s' f c t e ↦ rw e (touched_keeps k t h)
            | retry text new s' f c m g t e ↦
                rw e (retry_keeps k fuel new (attempt + 1) s' (touched_keeps k t h))
          ]

  -- What `FetchPriceData` asks for: a single retry where none is asked for.
  abbrev pub with_default_retries : FetchOptions C S → FetchOptions C S
  with_default_retries opts = record opts {
    max_retries = if eqb opts.max_retries 0 then 1 else opts.max_retries;
  }

  fetch_cases :
      (opts : FetchOptions C S) (s : S)
      → ((e : FetchError) × (e ≢ out_of_fuel) × (fetch_price_data contract opts s ≡ (s, failed e)))
        ⊎ ((client : C) × (opts.client ≡ some client)
            × (fetch_price_data contract opts s
                ≡ fetch_price_data_with_retry contract
                    ((with_default_retries opts).max_retries + 1)
                    (with_default_retries opts)
                    client
                    1
                    s))
  unfolding fetch_price_data
  fetch_cases opts s = elim (Option-cases opts.client) [
    | inl e ↦ inl (nil_client, (λ q. cc), simp (e, fetch_price_data) refl)
    | inr (client, e) ↦ elim (Bool-cases (string_beq opts.feed_address [])) [
      | inl empty ↦ inl (empty_address, (λ q. cc), simp (e, empty, fetch_price_data) refl)
      | inr given ↦ inr (client, e, simp (e, given, fetch_price_data) refl)
    ]
  ]

  -- The number of attempts is bounded: the fuel that `FetchPriceData` starts with, one more than the
  -- number of retries, is never used up.
  pub fetch_terminates :
      (opts : FetchOptions C S) (s : S) → (fetch_price_data contract opts s).1 ≢ failed out_of_fuel
  fetch_terminates opts s = elim (fetch_cases opts s) [
    | inl (e, n, q) ↦ rw q (λ r. n (ground arith))
    | inr (client, own, q) ↦ rw q (
        retries_end (with_default_retries opts) ((with_default_retries opts).max_retries + 1) client
          1 s (omega arith) (omega arith))
  ]

  -- A price that `FetchPriceData` returns has, field by field, the round that the feed's contract answered
  -- at one of the first attempts, of which there is one more than retries: to the given client at the
  -- first, and later on to a client that the switcher gave. Its exponent is minus the decimals of the
  -- feed, or -8 where these cannot be read; its time is that of the attempt, and its network and address
  -- are those that were asked for.
  pub fetch_reads :
      (opts : FetchOptions C S) (s : S) (p : ChainlinkPrice)
      → (fetch_price_data contract opts s).1 ≡ price p
      → ReadFrom (with_default_retries opts) opts.client p
  fetch_reads opts s p g = elim (fetch_cases opts s) [
    | inl (e, n, q) ↦ absurd (ground arith)
    | inr (client, own, q) ↦
        retry_reads (with_default_retries opts) opts.client
          ((with_default_retries opts).max_retries + 1) client 1 s p (omega arith) (omega arith)
          (inl (refl, own)) (rw q at g)
  ]

  pub fetch_keeps :
      (P : S → Type 0) (opts : FetchOptions C S)
      → ((switcher : RpcSwitcher C S)
          → opts.rpc_switcher ≡ some switcher
          → Keeps (with_default_retries opts) P switcher)
      → (s : S) → P s
      → P (fetch_price_data contract opts s).0
  fetch_keeps P opts k s h = elim (fetch_cases opts s) [
    | inl (e, n, q) ↦ rw q h
    | inr (client, own, q) ↦ rw q (
        retry_keeps (with_default_retries opts) P k ((with_default_retries opts).max_retries + 1)
          client 1 s h)
  ]

  -- Unless the contract answers the given client at the first attempt with the error code 32097,
  -- `FetchPriceData` leaves the state of the switcher as it was.
  pub fetch_untouched :
      (opts : FetchOptions C S) (s : S)
      → ((client : C) (text : GoString)
          → opts.client ≡ some client
          → contract.latest_round_data 1 client opts.feed_address ≡ failure text
          → is_error_code_32097 text ≡ false)
      → (fetch_price_data contract opts s).0 ≡ s
  fetch_untouched opts s h = elim (fetch_cases opts s) [
    | inl (e, n, q) ↦ rw q refl
    | inr (client, own, q) ↦
        rw (q, add-one)
          (elim (Attempt-cases contract (with_default_retries opts)
            (with_default_retries opts).max_retries client 1 s) [
              | read r f e ↦ rw e refl
              | stop error n e ↦ rw e refl
              | give_up text s' f c t e ↦ absurd (ground (arith, h client text own f))
              | retry text new s' f c m g t e ↦ absurd (ground (arith, h client text own f))
            ])
  ]
