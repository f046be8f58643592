-- ===== src/Pyth/Url.antt =====
-- pyth/client.go: the URL of the Hermes server, as url.Parse and u.Query() read it, and `query.Add`. In
-- front of its query a URL has no escaped bytes and is one that url.Parse accepts. A fragment, which no
-- request sends, is left out, and what `Encode` writes of a query is left as the map of its values.
use pricefeeding.Prelude.{
  ◌+◌, ◌*◌, ◌-◌, if◌then◌else◌, ℕ, Bool, false, ◌&&◌, ◌||◌, List, [], ◌∷◌, ◌++◌, Option, none, some,
  or_else, eqb, leb, ◌>>=◌,
}
use mathlib.Core.Option
use pricefeeding.Prelude.Key.{GoString, bytes, string_key}
use pricefeeding.Prelude.Dict.{Dict, get, put}
use pricefeeding.Pricefeed.PriceCache.{cut_prefix}

-- `url.URL`: the scheme and host, the path, and the values of the query.
pub record Url : Type 0 where
  pub origin : GoString
  pub path : GoString
  pub query : Dict GoString (List GoString)

-- A text at the first slash.
unfoldable pub cut_slash : GoString → GoString × GoString
cut_slash [] = ([], [])
cut_slash (c ∷ s) = if eqb c b'/' then ([], c ∷ s) else (c ∷ (cut_slash s).0, (cut_slash s).1)

-- A text up to its first `://`, which is included, and what stands behind.
unfoldable pub cut_scheme : GoString → Option (GoString × GoString)
cut_scheme [] = none
cut_scheme (c ∷ s) =
    let later = Option.map (λ (p : GoString × GoString). (c ∷ p.0, p.1)) (cut_scheme s) in
    elim (cut_prefix (bytes "://") (c ∷ s)) [ some rest ↦ some (bytes "://", rest) | none ↦ later ]

-- strings.Cut at a byte: what stands in front of the first one and what stands behind it.
unfoldable pub cut_byte : ℕ → GoString → GoString × GoString
cut_byte c [] = ([], [])
cut_byte c (d ∷ s) = let rest = cut_byte c s in if eqb d c then ([], s) else (d ∷ rest.0, rest.1)

abbrev add_first : ℕ → List GoString → List GoString
add_first c [] = (c ∷ []) ∷ []
add_first c (s ∷ pieces) = (c ∷ s) ∷ pieces

-- The pieces between the ampersands.
unfoldable pub query_pieces : GoString → List GoString
query_pieces [] = []
query_pieces (c ∷ s) =
    let rest = query_pieces s in if eqb c b'&' then [] ∷ rest else add_first c rest

unfoldable pub has_semicolon : GoString → Bool
has_semicolon [] = false
has_semicolon (c ∷ s) = eqb c b';' || has_semicolon s

unfoldable pub hex_value : ℕ → Option ℕ
hex_value c =
    if leb b'0' c && leb c b'9'
    then some (c - b'0')
    else if leb b'a' c && leb c b'f'
    then some (c - b'a' + 10)
    else if leb b'A' c && leb c b'F'
    then some (c - b'A' + 10)
    else none

-- Where the reader of an escaped text is: outside an escape, behind a percent sign, or behind its first
-- digit.
pub data Escape : Type 0 where
  outside : Escape
  percent : Escape
  half : ℕ → Escape

-- One byte: where the reader is then, and what it gives.
unfoldable pub unescape_byte : Escape → ℕ → Option (Escape × GoString)
unfolding hex_value
unescape_byte outside c =
    if eqb c b'%'
    then some (percent, [])
    else if eqb c b'+'
    then some (outside, b' ' ∷ [])
    else some (outside, c ∷ [])
unescape_byte percent c = Option.map (λ h. (half h, [])) (hex_value c)
unescape_byte (half h) c = Option.map (λ l. (outside, (h * 16 + l) ∷ [])) (hex_value c)

unfoldable pub unescape_from : Escape → GoString → Option GoString
unfolding unescape_byte
unescape_from outside [] = some []
unescape_from percent [] = none
unescape_from (half h) [] = none
unescape_from escape (c ∷ s) =
    unescape_byte escape c >>= λ p. Option.map (λ t. p.1 ++ t) (unescape_from p.0 s)

-- url.QueryUnescape
unfoldable pub query_unescape : GoString → Option GoString
unfolding unescape_from
query_unescape = unescape_from outside

-- `query.Add(key, value)`
unfoldable pub add_value :
    GoString → GoString → Dict GoString (List GoString) → Dict GoString (List GoString)
add_value key value query = put key (or_else [] (get key query) ++ value ∷ []) query

-- The key and the value of a piece.
unfoldable pub query_pair : GoString → Option (GoString × GoString)
unfolding cut_byte query_unescape
query_pair piece = do
  key ← query_unescape (cut_byte b'=' piece).0
  value ← query_unescape (cut_byte b'=' piece).1
  some (key, value)

-- A piece of the query: an empty one, one with a semicolon, and one that cannot be unescaped are left
-- out.
unfoldable pub add_piece : GoString → Dict GoString (List GoString) → Dict GoString (List GoString)
unfolding has_semicolon query_pair add_value
add_piece [] query = query
add_piece (c ∷ s) query =
    if has_semicolon (c ∷ s)
    then query
    else elim (query_pair (c ∷ s)) [ none ↦ query | some p ↦ add_value p.0 p.1 query ]

unfoldable pub add_pieces :
    List GoString → Dict GoString (List GoString) → Dict GoString (List GoString)
unfolding add_piece
add_pieces [] query = query
add_pieces (piece ∷ pieces) query = add_pieces pieces (add_piece piece query)

-- url.ParseQuery
unfoldable pub parse_query : GoString → Dict GoString (List GoString)
unfolding query_pieces add_pieces
parse_query s = add_pieces (query_pieces s) []

-- url.Parse
unfoldable pub parse_url : GoString → Url
unfolding cut_scheme cut_slash cut_byte parse_query
parse_url s =
    let parts = cut_byte b'?' (cut_byte b'#' s).0 in
    elim (cut_scheme parts.0) [
      | none ↦ record { origin = []; path = parts.0; query = parse_query parts.1 }
      | some address ↦ record {
        origin = address.0 ++ (cut_slash address.1).0;
        path = (cut_slash address.1).1;
        query = parse_query parts.1;
      }
    ]
