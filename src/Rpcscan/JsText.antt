-- ===== src/Rpcscan/JsText.antt =====
-- rpcscan/jsfilescan.go: `convertJSToJSON`, the rewriting of the text of a chain registry file. Each
-- regular expression is a matcher; none of them needs to give back what it has taken.
pub mod Clean
use pricefeeding.Prelude.{
  if◌then◌else◌, ℕ, ◌&&◌, ◌||◌, Bool, [], ◌∷◌, ◌++◌, Option, none, some, leb, eqb, or_else, ◌>>=◌,
}
use pricefeeding.Prelude.Key.{GoString, bytes}
use pricefeeding.Pricefeed.PriceCache.{cut_prefix}
use pricefeeding.Strings.{Matcher, replace_all, replace_byte, trim_space}

-- `\s` and `\w` of the package regexp.
is_re_space : ℕ → Bool
is_re_space c = eqb c b' ' || (eqb c b'\t' || (eqb c b'\n' || (eqb c 12 || eqb c b'\r')))

is_word : ℕ → Bool
is_word c =
    (leb b'0' c && leb c b'9')
    || ((leb b'A' c && leb c b'Z') || ((leb b'a' c && leb c b'z') || eqb c b'_'))

-- The bytes at the beginning that pass a test, and what follows.
span : (ℕ → Bool) → GoString → GoString × GoString
span p [] = ([], [])
span p (c ∷ s) = let rest = span p s in if p c then (c ∷ rest.0, rest.1) else ([], c ∷ s)

spaces : GoString → GoString × GoString
unfolding span is_re_space
spaces = span is_re_space

-- `\s+`, and then a word.
spaced : GoString → GoString → Option GoString
unfolding spaces
spaced word s = elim (spaces s).0 [ [] ↦ none | c ∷ l ↦ cut_prefix word (spaces s).1 ]

-- `export\s+const\s+data\s*=\s*`
match_export : Matcher
unfolding spaced spaces
match_export s = do
  a ← cut_prefix (bytes "export") s
  b ← spaced (bytes "const") a
  c ← spaced (bytes "data") b
  d ← cut_prefix (bytes "=") (spaces c).1
  some ([], (spaces d).1)

-- A byte, spaces, and one of the closing brackets: the byte goes.
closing : Bool → ℕ → Bool
closing brace c = (brace && eqb c b'}') || eqb c b']'

before_closing : Bool → GoString × GoString → Option (GoString × GoString)
unfolding closing
before_closing brace (l, []) = none
before_closing brace (l, c ∷ s) = if closing brace c then some (l ++ c ∷ [], s) else none

-- `;(\s*[}\]])` and `,(\s*[}\]])`
match_before_closing : ℕ → Matcher
unfolding before_closing spaces
match_before_closing b [] = none
match_before_closing b (c ∷ s) = if eqb c b then before_closing Bool.true (spaces s) else none

-- `},(\s*\])`
match_object_comma : Matcher
unfolding before_closing spaces
match_object_comma s = do
  a ← cut_prefix (bytes "},") s
  found ← before_closing Bool.false (spaces a)
  some (b'}' ∷ found.0, found.1)

-- `\w+:` with the word in quotes.
quoted_name : GoString × GoString → Option (GoString × GoString)
quoted_name ([], s) = none
quoted_name (c ∷ w, s) =
    cut_prefix (bytes ":") s >>= λ rest. some (b'"' ∷ c ∷ w ++ bytes "\":", rest)

-- `([,{]\s*)(\w+):`
match_name : Matcher
unfolding spaces span is_word quoted_name
match_name [] = none
match_name (c ∷ s) =
    if eqb c b',' || eqb c b'{'
    then (quoted_name (span is_word (spaces s).1) >>= λ found.
        some (c ∷ (spaces s).0 ++ found.0, found.1))
    else none

-- `^\s*{\s*(\w+):`
quote_first : GoString → GoString
unfolding spaces span is_word quoted_name
quote_first s = or_else s (do
  a ← cut_prefix (bytes "{") (spaces s).1
  found ← quoted_name (span is_word (spaces a).1)
  some (b'{' ∷ found.0 ++ found.1))

-- The loop that removes semicolons at the end.
drop_semicolon : ℕ → GoString → GoString
drop_semicolon c [] = if eqb c b';' then [] else c ∷ []
drop_semicolon c (d ∷ s) = c ∷ d ∷ s

trim_semicolons : GoString → GoString
unfolding drop_semicolon
trim_semicolons [] = []
trim_semicolons (c ∷ s) = drop_semicolon c (trim_semicolons s)

unfoldable pub convert_js_to_json : GoString → GoString
unfolding match_export match_before_closing trim_semicolons trim_space replace_byte
    match_object_comma match_name quote_first replace_all
convert_js_to_json js_content =
    let a = replace_all match_export js_content in
    let b = replace_all (match_before_closing b';') a in
    let c = replace_byte b'\'' (bytes "\"") (trim_space (trim_semicolons b)) in
    let d = replace_all match_object_comma (replace_all (match_before_closing b',') c) in
    let e = quote_first (replace_all match_name d) in trim_space (replace_byte b';' [] e)
