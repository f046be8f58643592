-- ===== src/Pyth/Requests/Asked.antt =====
-- pyth/client.go: the query of the requests for price updates.
use pricefeeding.Prelude.{
  if◌then◌else◌, ◌≡◌, refl, sym, ap, ◌∙◌, Bool, true, false, List, [], ◌∷◌, ◌++◌, Option, none,
  some, or_else, Bool-cases, inl, inr,
}
use mathlib.Core.Option
use mathlib.Core.List.{append_assoc, append-nil}
use pricefeeding.Prelude.Int.{ℤ}
use pricefeeding.Prelude.Key.{GoString, bytes, string_key, string_beq, string_beq_iff}
use pricefeeding.Prelude.Dict.{Dict, get, put, get-put}
use pricefeeding.Pyth.Hermes.{HermesClient}
use pricefeeding.Pyth.Url.{Url, parse_url, add_value}
use pricefeeding.Pyth.Requests.{
  Param, text, flag, ends_in_slash, build_url, add_values, format_bool, format_int, append_param,
  append_params, append_url_search_params, given, UpdateOptions, update_params, with_ids,
  latest_price_updates_url, price_updates_at_timestamp_url, latest_twaps_url,
}

-- The values of a key.
abbrev pub values : GoString → Dict GoString (List GoString) → List GoString
values key query = or_else [] (get key query)

-- The query of the client's URL, to which a slash is appended where it does not end in one.
abbrev pub base_query : HermesClient → Dict GoString (List GoString)
base_query c =
    (parse_url (if ends_in_slash c.base_url then c.base_url else c.base_url ++ bytes "/")).query

build_url-query :
    (c : HermesClient) (endpoint : GoString) → (build_url c endpoint).query ≡ base_query c
unfolding build_url
build_url-query c endpoint = refl

-- What is asked for under the name, of these values.
abbrev pub under : GoString → List GoString → GoString → List GoString
under name vs key = if string_beq name key then vs else []

abbrev pub text_values : Option GoString → List GoString
text_values none = []
text_values (some []) = []
text_values (some (c ∷ s)) = (c ∷ s) ∷ []

abbrev pub flag_values : Option Bool → List GoString
flag_values none = []
flag_values (some true) = bytes "true" ∷ []
flag_values (some false) = bytes "false" ∷ []

-- What the options ask for under a key.
abbrev pub options_values : Option UpdateOptions → GoString → List GoString
options_values none key = []
options_values (some o) key =
    under (bytes "encoding") (text_values o.encoding) key
    ++ under (bytes "parsed") (flag_values o.parsed) key
    ++ under (bytes "ignore_invalidPriceIds") (flag_values o.ignore_invalid_price_ids) key

under-nil : (name key : GoString) (l : List GoString) → l ++ under name [] key ≡ l
under-nil name key l = elim (Bool-cases (string_beq name key)) [
  | inl e ↦ rw e (append-nil l)
  | inr e ↦ rw e (append-nil l)
]

values-add_value :
    (name v key : GoString) (query : Dict GoString (List GoString))
    → values key (add_value name v query) ≡ values key query ++ under name (v ∷ []) key
unfolding add_value
values-add_value name v key query = elim (Bool-cases (string_beq name key)) [
  | inl e ↦
      rw
        (
          get-put name key (or_else [] (get name query) ++ v ∷ []) query,
          e,
          (string_beq_iff name key).0 e,
        )
        refl
  | inr e ↦
      rw (get-put name key (or_else [] (get name query) ++ v ∷ []) query, e) (sym (append-nil _))
]

under-cons :
    (name v key : GoString) (vs : List GoString)
    → under name (v ∷ []) key ++ under name vs key ≡ under name (v ∷ vs) key
under-cons name v key vs = elim (Bool-cases (string_beq name key)) [
  | inl e ↦ rw e refl
  | inr e ↦ rw e refl
]

values-add_values :
    (name key : GoString) (vs : List GoString) (query : Dict GoString (List GoString))
    → values key (add_values name vs query) ≡ values key query ++ under name vs key
unfolding add_values
values-add_values name key [] query = sym (under-nil name key (values key query))
values-add_values name key (v ∷ vs) query =
    values-add_values name key vs (add_value name v query)
    ∙ ap (λ l. l ++ under name vs key) (values-add_value name v key query)
    ∙ append_assoc (values key query) (under name (v ∷ []) key) (under name vs key)
    ∙ ap (λ l. values key query ++ l) (under-cons name v key vs)

-- The query with an option, where it is set.
abbrev with_option :
    GoString → Option Param → Dict GoString (List GoString) → Dict GoString (List GoString)
with_option name none query = query
with_option name (some p) query = append_param name p query

values-text :
    (name key : GoString) (o : Option GoString) (query : Dict GoString (List GoString))
    → values key (with_option name (Option.map text o) query)
      ≡ values key query ++ under name (text_values o) key
unfolding append_param
values-text name key none query = sym (under-nil name key (values key query))
values-text name key (some []) query = sym (under-nil name key (values key query))
values-text name key (some (c ∷ s)) query = values-add_value name (c ∷ s) key query

values-flag :
    (name key : GoString) (o : Option Bool) (query : Dict GoString (List GoString))
    → values key (with_option name (Option.map flag o) query)
      ≡ values key query ++ under name (flag_values o) key
unfolding append_param format_bool
values-flag name key none query = sym (under-nil name key (values key query))
values-flag name key (some true) query = values-add_value name (bytes "true") key query
values-flag name key (some false) query = values-add_value name (bytes "false") key query

append_params-options :
    (e : Option GoString) (p i : Option Bool) (query : Dict GoString (List GoString))
    → append_params
        (update_params (some (record { encoding = e; parsed = p; ignore_invalid_price_ids = i })))
        query
      ≡ with_option (bytes "ignore_invalidPriceIds") (Option.map flag i) (
          with_option
            (bytes "parsed")
            (Option.map flag p)
            (with_option (bytes "encoding") (Option.map text e) query))
unfolding append_params update_params given put
append_params-options none none none query = refl
append_params-options none none (some i) query = refl
append_params-options none (some p) none query = refl
append_params-options none (some p) (some i) query = refl
append_params-options (some e) none none query = refl
append_params-options (some e) none (some i) query = refl
append_params-options (some e) (some p) none query = refl
append_params-options (some e) (some p) (some i) query = refl

values-options :
    (key : GoString) (o : UpdateOptions) (query : Dict GoString (List GoString))
    → values key (append_params (update_params (some o)) query)
      ≡ values key query ++ options_values (some o) key
values-options key o query =
    let e = with_option (bytes "encoding") (Option.map text o.encoding) query in
    let p = with_option (bytes "parsed") (Option.map flag o.parsed) e in
    rw
      (
        append_params-options o.encoding o.parsed o.ignore_invalid_price_ids query,
        values-flag (bytes "ignore_invalidPriceIds") key o.ignore_invalid_price_ids p,
        values-flag (bytes "parsed") key o.parsed e,
        values-text (bytes "encoding") key o.encoding query,
      )
      (simp append_assoc refl)

with_ids-asked :
    (key : GoString) (ids : List GoString) (options : Option UpdateOptions) (u : Url)
    → values key (with_ids ids (update_params options) u).query
      ≡ values key u.query ++ under (bytes "ids[]") ids key ++ options_values options key
unfolding with_ids append_url_search_params update_params append_params
with_ids-asked key ids none u =
    values-add_values (bytes "ids[]") key ids u.query
    ∙ sym (append-nil (values key u.query ++ under (bytes "ids[]") ids key))
with_ids-asked key ids (some o) u =
    values-options key o (add_values (bytes "ids[]") ids u.query)
    ∙ ap (λ l. l ++ options_values (some o) key) (values-add_values (bytes "ids[]") key ids u.query)

-- The query of the request of GetLatestPriceUpdates has, behind the values that the query of the client's
-- URL has for a key, the given ids in their order under `ids[]`, the encoding where it is set and not
-- empty, and `true` or `false` for each of the two flags that are set, and nothing else; a request for
-- the updates at a time has the same values, and so has one for averages.
pub latest_price_updates-asks :
    (c : HermesClient) (ids : List GoString) (options : Option UpdateOptions) (t w : ℤ)
    (key : GoString)
    → (values key (latest_price_updates_url ids options c).query
        ≡ values key (base_query c) ++ under (bytes "ids[]") ids key ++ options_values options key)
      × (values key (price_updates_at_timestamp_url t ids options c).query
          ≡ values key (base_query c)
            ++ under (bytes "ids[]") ids key
            ++ options_values options key)
      × (values key (latest_twaps_url ids w options c).query
          ≡ values key (base_query c)
            ++ under (bytes "ids[]") ids key
            ++ options_values options key)
unfolding latest_price_updates_url price_updates_at_timestamp_url latest_twaps_url build_url
latest_price_updates-asks c ids options t w key =
    let asked = λ (endpoint : GoString). with_ids-asked key ids options (build_url c endpoint) in
    (
      asked (bytes "v2/updates/price/latest"),
      asked (bytes "v2/updates/price/" ++ format_int t),
      asked (bytes "v2/updates/twap/" ++ format_int w ++ bytes "/latest"),
    )
