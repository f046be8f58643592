-- ===== src/Tests/StreamTests.antt =====
-- Runs of the Hermes client and of the event stream.
use pricefeeding.Prelude.{
  ℕ, zero, suc, ◌≡◌, refl, true, false, List, [], ◌∷◌, ◌++◌, Option, none, some, arith, All,
}
use pricefeeding.Prelude.Int.{pos, negsuc}
use pricefeeding.Prelude.Key.{GoString, bytes}
use pricefeeding.Prelude.Dict.{get, put}
use pricefeeding.Pricefeed.PriceCache.{cut_prefix}
use pricefeeding.Pyth.EventSource.{Reader, new_event_source, on_message, receive, receive_end}
use pricefeeding.Pyth.EventSource.RoundTrip.{
  Field, message_field, event_field, blank_line, IsPrintable, print, messages_of, receive-print,
}
use pricefeeding.Pyth.Hermes.{
  HermesClient, new_hermes_client, Reply, no_reply, reply, Exchange, done, failed, no_attempt,
  http_status, try_reply, http_request,
}
use pricefeeding.Pyth.Hermes.Waits.{Bounded, http_request-Bounded}
use pricefeeding.Pyth.Hermes.Answers.{Answers, http_request-Answers}
use pricefeeding.Pyth.Requests.{
  UpdateOptions, latest_price_updates_url, price_updates_at_timestamp_url, latest_twaps_url,
}
use pricefeeding.Pyth.Url.{Url, parse_url}
use pricefeeding.Pyth.Requests.Asked.{values, latest_price_updates-asks}

abbrev client : HermesClient
client = new_hermes_client (bytes "https://hermes.pyth.network") none

-- The body is the value.
abbrev decode : GoString → Option GoString
decode body = some body

-- No connection, then an overloaded server, then an answer.
abbrev answers : ℕ → Reply
answers zero = no_reply
answers (suc zero) = reply 503 []
answers (suc (suc n)) = reply 200 (bytes "ok")

abbrev exchange : Exchange GoString
exchange = http_request decode client true 20 answers

reading : Unit {0}
unfolding new_hermes_client http_request try_reply new_event_source on_message receive receive_end
    print cut_prefix get put latest_price_updates_url parse_url price_updates_at_timestamp_url
    latest_twaps_url
reading = tt

retries_until_answered :
    exchange
    ≡ record { outcome = done (bytes "ok"); sent = 3; waits = 120_000_000 ∷ 240_000_000 ∷ [] }
unfolding reading
retries_until_answered = refl

-- The last error is returned.
abbrev refused : ℕ → Reply
refused n = reply 500 []

gives_up : (http_request decode client true 0 refused).outcome ≡ failed (http_status 500 [])
unfolding reading
gives_up = refl

-- With -1 retries nothing is asked for, and there is no error.
abbrev no_retries : HermesClient
no_retries = record client { http_retries = negsuc 0 }

no_request :
    http_request decode no_retries true 0 answers
    ≡ record { outcome = no_attempt; sent = 0; waits = [] }
unfolding reading
no_request = refl

http_request-Bounded_example : Bounded 3 20 exchange
unfolding new_hermes_client
http_request-Bounded_example =
    http_request-Bounded decode answers client 3 20 refl (omega arith) (omega arith)

http_request-Answers_example : Answers decode answers 0 3 exchange
unfolding new_hermes_client
http_request-Answers_example = http_request-Answers decode answers client 3 20 refl

abbrev options : UpdateOptions
options = record { encoding = none; parsed = some true; ignore_invalid_price_ids = none }

abbrev two_ids : List GoString
two_ids = bytes "e6" ∷ bytes "ff" ∷ []

-- A client whose URL has a query.
abbrev keyed : HermesClient
keyed = new_hermes_client (bytes "https://h/?api_key=a+b%21&parsed=x") none

latest_price_updates-asks_example :
    (values (bytes "parsed") (latest_price_updates_url two_ids (some options) keyed).query
      ≡ bytes "x/" ∷ bytes "true" ∷ [])
    × (values
          (bytes "parsed")
          (price_updates_at_timestamp_url (pos 7) two_ids (some options) keyed).query
        ≡ bytes "x/" ∷ bytes "true" ∷ [])
    × (values (bytes "parsed") (latest_twaps_url two_ids (pos 600) (some options) keyed).query
        ≡ bytes "x/" ∷ bytes "true" ∷ [])
unfolding reading
latest_price_updates-asks_example =
    latest_price_updates-asks keyed two_ids (some options) (pos 7) (pos 600) (bytes "parsed")

-- The query of the URL is unescaped and kept, and the ids are added.
keyed_query :
    (latest_price_updates_url two_ids none keyed).query
    ≡ (bytes "api_key", bytes "a b!" ∷ [])
      ∷ (bytes "parsed", bytes "x/" ∷ [])
      ∷ (bytes "ids[]", two_ids)
      ∷ []
unfolding reading
keyed_query = refl

-- An empty piece, one with a semicolon and one with half an escape are left out, and so is a fragment.
dropped_pieces :
    (parse_url (bytes "https://h/p?&a;b=1&c=%4&d=%4a#e?f=g")).query
    ≡ (bytes "d", bytes "J" ∷ []) ∷ []
unfolding reading
dropped_pieces = refl

abbrev url : Url
url = record { origin = bytes "https://h"; path = bytes "/s"; query = [] }

abbrev reader : Reader
reader = record { source = on_message (new_event_source url []); line = []; over = false }

abbrev fields : List Field
fields =
    event_field (bytes "p")
    ∷ message_field (bytes "{1}")
    ∷ blank_line
    ∷ message_field (bytes " {2}")
    ∷ []

stream_is_read :
    (receive (print fields ++ bytes "data: {3}") reader).source.messages
    ≡ bytes "{1}" ∷ bytes " {2}" ∷ []
unfolding reading
stream_is_read = refl

-- The last line has no newline, and is lost.
last_line_is_lost : (receive_end (receive (bytes "data: {3}") reader)).source.messages ≡ []
unfolding reading
last_line_is_lost = refl

-- What comes before a handler is set is lost.
unheard :
    (receive
      (print fields)
      (record { source = new_event_source url []; line = []; over = false })).source.messages
    ≡ []
unfolding reading
unheard = refl

fields-IsPrintable : All IsPrintable fields
fields-IsPrintable = (
  (λ e. omega arith, tt),
  (
    ((λ e. omega arith, (λ e. omega arith, (λ e. omega arith, tt))), refl),
    (
      tt,
      (
        ((λ e. omega arith, (λ e. omega arith, (λ e. omega arith, (λ e. omega arith, tt)))), refl),
        tt,
      ),
    ),
  ),
)

receive-print_example :
    receive (print fields ++ bytes "data") reader
    ≡ receive (bytes "data") (record reader {
      source = record reader.source { messages = reader.source.messages ++ messages_of fields };
    })
unfolding on_message new_event_source
receive-print_example =
    receive-print fields (bytes "data") reader fields-IsPrintable
      (record { fresh = refl; going = refl; open_source = refl; handled = refl })
