-- ===== src/Pyth/EventSource.antt =====
-- pyth/streaming.go: `eventSource`. What the handlers get is kept in two lists of the state; the bytes of
-- the body come one after the other, and methods may be called between them.
pub mod RoundTrip
use pricefeeding.Prelude.{
  if◌then◌else◌, ℕ, Bool, true, false, ◌&&◌, ◌||◌, List, [], ◌∷◌, ◌++◌, Option, none, some, eqb,
  leb, ltb,
}
use pricefeeding.Prelude.Key.{GoString, bytes, string_key, string_beq}
use pricefeeding.Prelude.Dict.{Dict, put}
use pricefeeding.Pricefeed.PriceCache.{cut_prefix}
use pricefeeding.Pyth.Hermes.{HermesClient}
use pricefeeding.Strings.{trim_space}
use pricefeeding.Pyth.Url.{Url}
use pricefeeding.Pyth.Requests.{GetPriceUpdatesStreamOptions, price_updates_stream_url}

pub data StreamError : Type 0 where
  is_closed create_failed connect_failed read_failed : StreamError
  bad_status : ℕ → StreamError

-- A handler is true once it is set; `connected` says that there is a response.
pub record EventSource : Type 0 where
  pub url : Url
  pub headers : Dict GoString GoString
  pub message_handler : Bool
  pub error_handler : Bool
  pub closed : Bool
  pub connected : Bool
  pub messages : List GoString
  pub errors : List StreamError

unfoldable pub new_event_source : Url → Dict GoString GoString → EventSource
new_event_source url headers = record {
  url = url;
  headers = headers;
  message_handler = false;
  error_handler = false;
  closed = false;
  connected = false;
  messages = [];
  errors = [];
}

unfoldable pub on_message : EventSource → EventSource
on_message es = record es { message_handler = true }

unfoldable pub on_error : EventSource → EventSource
on_error es = record es { error_handler = true }

unfoldable pub close : EventSource → EventSource
close es = record es { closed = true }

unfoldable pub handle_message : GoString → EventSource → EventSource
handle_message message es =
    if es.message_handler then record es { messages = es.messages ++ message ∷ [] } else es

unfoldable pub handle_error : StreamError → EventSource → EventSource
handle_error e es = if es.error_handler then record es { errors = es.errors ++ e ∷ [] } else es

-- The headers of the request.
abbrev put_all : Dict GoString GoString → Dict GoString GoString → Dict GoString GoString
put_all [] header = header
put_all ((key, value) ∷ rest) header = put_all rest (put key value header)

pub request_headers : EventSource → Dict GoString GoString
request_headers es = put_all es.headers (
    put (bytes "Cache-Control") (bytes "no-cache")
      (put (bytes "Accept") (bytes "text/event-stream") []))

-- The status of the response, `none` where there is none.
connect_status : Option ℕ → EventSource → EventSource × Option StreamError
unfolding handle_error
connect_status none es = (handle_error connect_failed es, some connect_failed)
connect_status (some status) es =
    if ltb status 200 || leb 300 status
    then (handle_error (bad_status status) es, some (bad_status status))
    else (record es { connected = true }, none)

-- `Start` up to the start of the reading; `valid` says that a request can be made.
unfoldable pub start : Bool → Option ℕ → EventSource → EventSource × Option StreamError
unfolding connect_status handle_error
start valid status es =
    if es.closed
    then (es, some is_closed)
    else if valid
    then connect_status status es
    else (handle_error create_failed es, some create_failed)

-- `GetPriceUpdatesStream`: the handlers can be set only on what it returns.
unfoldable pub get_price_updates_stream :
    HermesClient
    → List GoString
    → Option GetPriceUpdatesStreamOptions
    → Bool
    → Option ℕ
    → EventSource × Option StreamError
unfolding start new_event_source
get_price_updates_stream c ids options valid status =
    start valid status (new_event_source (price_updates_stream_url ids options c) c.headers)

-- A line: fields other than `data` are passed over, and so is a line with no field.
unfoldable pub handle_line : GoString → EventSource → EventSource
unfolding trim_space handle_message
handle_line line es = elim (cut_prefix (bytes "data: ") (trim_space line)) [
  | some message ↦ handle_message message es
  | none ↦ es
]

-- The goroutine `readEvents`, with what it has of the line.
pub record Reader : Type 0 where
  pub source : EventSource
  pub line : GoString
  pub over : Bool

-- A byte of the body. Once the source is closed no line is read any more.
unfoldable pub receive_byte : ℕ → Reader → Reader
unfolding handle_line
receive_byte c r =
    if r.over || r.source.closed
    then r
    else if eqb c b'\n'
    then record r { source = handle_line (r.line ++ c ∷ []) r.source; line = [] }
    else record r { line = r.line ++ c ∷ [] }

unfoldable pub receive : GoString → Reader → Reader
unfolding receive_byte
receive [] r = r
receive (c ∷ s) r = receive s (receive_byte c r)

-- The end of the body: what there is of a line is dropped.
unfoldable pub receive_end : Reader → Reader
unfolding handle_error
receive_end r =
    if r.over then r else record r { source = handle_error read_failed r.source; over = true }
