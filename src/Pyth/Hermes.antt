-- ===== src/Pyth/Hermes.antt =====
-- pyth/client.go: `HermesClient` and `httpRequest`. What the server answers to each attempt, and the
-- decoding of the body, are arguments; so are the random part of the first wait (`jitter`) and whether
-- a request can be made at all (`valid`).
pub mod Waits
pub mod Answers
use pricefeeding.Prelude.{
  if◌then◌else◌, ℕ, zero, suc, ◌+◌, ◌*◌, ◌%◌, ◌^◌, Bool, ◌||◌, List, [], ◌∷◌, ◌++◌, Option, none,
  some, ltb, leb, or_else, ◌>>=◌,
}
use pricefeeding.Prelude.Int.{ℤ, pos, negsuc}
use pricefeeding.Prelude.Key.{GoString}
use pricefeeding.Prelude.Dict.{Dict}

pub record HermesClientConfig : Type 0 where
  pub timeout : Option ℤ
  pub http_retries : Option ℤ
  pub headers : Option (Dict GoString GoString)

pub record HermesClient : Type 0 where
  pub base_url : GoString
  pub timeout : ℤ
  pub http_retries : ℤ
  pub headers : Dict GoString GoString

abbrev pub default_timeout : ℤ
default_timeout = pos 5000

abbrev pub default_http_retries : ℤ
default_http_retries = pos 3

unfoldable pub new_hermes_client : GoString → Option HermesClientConfig → HermesClient
new_hermes_client endpoint config = record {
  base_url = endpoint;
  timeout = or_else default_timeout (config >>= λ c. c.timeout);
  http_retries = or_else default_http_retries (config >>= λ c. c.http_retries);
  headers = or_else [] (config >>= λ c. c.headers);
}

-- What an attempt gets.
pub data Reply : Type 0 where
  no_reply : Reply
  reply : ℕ → GoString → Reply

pub data HttpError : Type 0 where
  create_failed request_failed decode_failed : HttpError
  http_status : ℕ → GoString → HttpError

-- `no_attempt` is the error `nil` with nothing decoded.
pub data Outcome (A : Type 0) : Type 0 where
  done : A → Outcome A
  failed : HttpError → Outcome A
  no_attempt : Outcome A

-- The attempts that were made, and the waits between them in nanoseconds.
pub record Exchange (A : Type 0) : Type 0 where
  pub outcome : Outcome A
  pub sent : ℕ
  pub waits : List ℕ

-- An attempt ends the loop, or may be made again.
pub data Tried (A : Type 0) : Type 0 where
  final : Outcome A → Tried A
  again : HttpError → Tried A

-- `time.Duration(backoff) * time.Millisecond`
unfoldable pub wait_of : ℕ → ℕ
wait_of backoff = backoff * 1_000_000 % 2 ^ 64

module _ {A : Type 0} (decode : GoString → Option A) where
  unfoldable pub decoded : Option A → Outcome A
  decoded none = failed decode_failed
  decoded (some a) = done a

  unfoldable pub try_reply : Reply → Tried A
  unfolding decoded
  try_reply no_reply = again request_failed
  try_reply (reply status body) =
      if ltb status 200 || leb 300 status
      then again (http_status status body)
      else final (decoded (decode body))

  -- The loop from the attempt `attempt` on, which `left` others may follow.
  unfoldable pub attempts : (ℕ → Reply) → ℕ → ℕ → ℕ → List ℕ → Exchange A
  unfolding wait_of
  attempts answer zero attempt backoff waits = elim (try_reply (answer attempt)) [
    | final o ↦ record { outcome = o; sent = attempt + 1; waits = waits }
    | again e ↦ record { outcome = failed e; sent = attempt + 1; waits = waits }
  ]
  attempts answer (suc left) attempt backoff waits = elim (try_reply (answer attempt)) [
    | final o ↦ record { outcome = o; sent = attempt + 1; waits = waits }
    | again e ↦
        attempts answer left (attempt + 1) (backoff * 2 % 2 ^ 64) (waits ++ wait_of backoff ∷ [])
  ]

  -- The attempts, where a request can be made; the first one fails where it cannot.
  unfoldable pub from_first : Bool → (ℕ → Reply) → ℕ → ℕ → Exchange A
  unfolding attempts
  from_first valid answer retries backoff =
      if valid
      then attempts answer retries 0 backoff []
      else record { outcome = failed create_failed; sent = 0; waits = [] }

  -- `httpRequest`. With a negative number of retries the loop is never entered.
  unfoldable pub http_request : HermesClient → Bool → ℕ → (ℕ → Reply) → Exchange A
  unfolding from_first
  http_request c valid jitter answer = elim c.http_retries [
    | pos n ↦ from_first valid answer n (100 + jitter)
    | negsuc n ↦ record { outcome = no_attempt; sent = 0; waits = [] }
  ]
