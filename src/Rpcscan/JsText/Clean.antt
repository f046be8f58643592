-- ===== src/Rpcscan/JsText/Clean.antt =====
-- rpcscan/jsfilescan.go: the bytes that the result of `convertJSToJSON` has.
use pricefeeding.Prelude.{
  ℕ, subst, zero, suc, ◌-◌, ◌≡◌, ◌≢◌, refl, ap, Bool, true, false, ◌||◌, [], ◌∷◌, ◌++◌, Option,
  none, some, eqb, arith, All, All-append, length, inl, inr, Bool-cases, Option-cases, ◌>>=◌,
  or_else,
}
use pricefeeding.Prelude.Key.{GoString, bytes}
use pricefeeding.Pricefeed.PriceCache.{cut_prefix}
use pricefeeding.Strings.{
  Matcher, is_space_rune, space_width, keep, trim_left_from, trim_left, trim_right, trim_space,
  replace_from, replace_all, replace_byte,
}
use pricefeeding.Rpcscan.JsText.{
  match_export, trim_semicolons, is_re_space, is_word, span, spaces, closing, before_closing,
  match_before_closing, match_object_comma, quoted_name, match_name, quote_first,
  convert_js_to_json,
}

some-injective : {A : Type 0} {a b : A} → some a ≡ some b → a ≡ b
some-injective {A} {a} p = ap (or_else a) p

bind-some :
    {A B : Type 0} (o : Option A) (f : A → Option B) (b : B)
    → (o >>= f) ≡ some b
    → (a : A) × (o ≡ some a) × (f a ≡ some b)
bind-some none f b e = absurd (cc)
bind-some (some a) f b e = (a, refl, e)

module _ (P : ℕ → Type 0) where
  -- A matcher that makes of bytes with the property nothing else.
  abbrev Keeps : Matcher → Type 0
  Keeps match =
      (s : GoString) (found : GoString × GoString)
      → All P s
      → match s ≡ some found
      → All P found.0 × All P found.1

  replace_from-All :
      (match : Matcher) (skip : ℕ) (s : GoString)
      → Keeps match
      → All P s
      → All P (replace_from match skip s)
  unfolding replace_from
  replace_from-All match skip [] k h = tt
  replace_from-All match (suc skip) (c ∷ s) k h = replace_from-All match skip s k h.1
  replace_from-All match zero (c ∷ s) k h = elim (Option-cases (match (c ∷ s))) [
    | inl e ↦ rw (e, replace_from) ((h.0, replace_from-All match 0 s k h.1))
    | inr (found, e) ↦
        rw (e, replace_from)
          (All-append P found.0 _ (k (c ∷ s) found h e).0
            (replace_from-All match (length s - length found.1) s k h.1))
  ]

  span-All : (p : ℕ → Bool) (s : GoString) → All P s → All P (span p s).0 × All P (span p s).1
  unfolding span
  span-All p [] h = (tt, tt)
  span-All p (c ∷ s) h =
      let r = span-All p s h.1 in
      elim (Bool-cases (p c)) [ inl e ↦ rw e ((h.0, r.0), r.1) | inr e ↦ rw e (tt, h) ]

  cut_prefix-All : (w s r : GoString) → All P s → cut_prefix w s ≡ some r → All P r
  unfolding cut_prefix
  cut_prefix-All [] s r h e = subst (All P) (some-injective e) h
  cut_prefix-All (c ∷ w) [] r h e = absurd (cc)
  cut_prefix-All (c ∷ w) (d ∷ s) r h e = elim (Bool-cases (eqb c d)) [
    | inl q ↦ cut_prefix-All w s r h.1 (ground arith)
    | inr q ↦ absurd (ground arith)
  ]

  abbrev Both : GoString × GoString → Type 0
  Both found = All P found.0 × All P found.1

  before_closing-Both :
      (brace : Bool) (parts found : GoString × GoString)
      → Both parts
      → before_closing brace parts ≡ some found
      → Both found
  unfolding before_closing
  before_closing-Both brace (l, []) found h e = absurd (cc)
  before_closing-Both brace (l, c ∷ s) found h e = elim (Bool-cases (closing brace c)) [
    | inl q ↦
        subst Both (some-injective (ground arith))
          ((All-append P l (c ∷ []) h.0 (h.1.0, tt)), h.1.1)
    | inr q ↦ absurd (ground arith)
  ]

  match_before_closing-Keeps : (b : ℕ) → Keeps (match_before_closing b)
  unfolding match_before_closing spaces
  match_before_closing-Keeps b [] found h e = absurd (cc)
  match_before_closing-Keeps b (c ∷ s) found h e = elim (Bool-cases (eqb c b)) [
    | inl q ↦ before_closing-Both true (spaces s) found (span-All is_re_space s h.1) (ground arith)
    | inr q ↦ absurd (ground arith)
  ]

  match_object_comma-Keeps : P b'}' → Keeps match_object_comma
  unfolding match_object_comma spaces
  match_object_comma-Keeps brace s found h e =
      let (a, cut, rest) = bind-some _ _ found e in
      let (l, closed, is) = bind-some _ _ found rest in
      let both =
        before_closing-Both false (spaces a) l
          (span-All is_re_space a (cut_prefix-All (bytes "},") s a h cut)) closed in
      subst Both (some-injective is) ((brace, both.0), both.1)

  or_else-All :
      (s : GoString) (o : Option GoString)
      → All P s
      → ((r : GoString) → o ≡ some r → All P r)
      → All P (or_else s o)
  or_else-All s none h k = h
  or_else-All s (some r) h k = k r refl

  module _ (quote : P b'"') (colon : P b':') where
    quoted_name-Both :
        (parts found : GoString × GoString)
        → Both parts
        → quoted_name parts ≡ some found
        → Both found
    unfolding quoted_name
    quoted_name-Both ([], s) found h e = absurd (cc)
    quoted_name-Both (c ∷ w, s) found h e =
        let (rest, cut, is) = bind-some _ _ found e in
        subst Both (some-injective is) (
          (quote, (h.0.0, All-append P w (bytes "\":") h.0.1 (quote, (colon, tt)))),
          cut_prefix-All (bytes ":") s rest h.1 cut,
        )

    match_name-Keeps : Keeps match_name
    unfolding match_name spaces
    match_name-Keeps [] found h e = absurd (cc)
    match_name-Keeps (c ∷ s) found h e = elim (Bool-cases (eqb c b',' || eqb c b'{')) [
      | inl q ↦
          let (l, quoted, is) =
            bind-some (quoted_name (span is_word (spaces s).1))
              (λ n. some (c ∷ (spaces s).0 ++ n.0, n.1)) found (ground arith) in
          let parts = span-All is_re_space s h.1 in
          let name = quoted_name-Both _ l (span-All is_word _ parts.1) quoted in
          subst Both (some-injective is) ((h.0, All-append P _ l.0 parts.0 name.0), name.1)
      | inr q ↦ absurd (ground arith)
    ]

    quote_first-All : P b'{' → (s : GoString) → All P s → All P (quote_first s)
    unfolding quote_first spaces
    quote_first-All brace s h =
        let quoted = λ (a : GoString). quoted_name (span is_word (spaces a).1) in
        let made = λ (f : GoString × GoString). some (b'{' ∷ f.0 ++ f.1) in
        or_else-All s (cut_prefix (bytes "{") (spaces s).1 >>= λ a. quoted a >>= made) h (λ r e.
          let (a, cut, rest) =
            bind-some (cut_prefix (bytes "{") (spaces s).1) (λ a. quoted a >>= made) r e in
          let (l, found, is) = bind-some (quoted a) made r rest in
          let after = cut_prefix-All (bytes "{") _ a (span-All is_re_space s h).1 cut in
          let name =
            quoted_name-Both _ l (span-All is_word _ (span-All is_re_space a after).1) found in
          let all : All P (b'{' ∷ l.0 ++ l.1) = (brace, All-append P l.0 l.1 name.0 name.1) in
          subst (All P) (some-injective is) all)

  replace_byte-All : (c : ℕ) (t s : GoString) → All P t → All P s → All P (replace_byte c t s)
  unfolding replace_byte
  replace_byte-All c t [] k h = tt
  replace_byte-All c t (d ∷ s) k h =
      let r = replace_byte-All c t s k h.1 in
      elim (Bool-cases (eqb d c)) [
        | inl q ↦ rw q (All-append P t (replace_byte c t s) k r)
        | inr q ↦ rw q ((h.0, r))
      ]

  trim_left_from-All : (skip : ℕ) (s : GoString) → All P s → All P (trim_left_from skip s)
  unfolding trim_left_from
  trim_left_from-All skip [] h = tt
  trim_left_from-All (suc skip) (c ∷ s) h = trim_left_from-All skip s h.1
  trim_left_from-All zero (c ∷ s) h =
      let r = trim_left_from-All (space_width (c ∷ s) - 1) s h.1 in
      elim (Bool-cases (eqb (space_width (c ∷ s)) 0)) [ inl q ↦ rw q h | inr q ↦ rw q r ]

  keep-All : (c : ℕ) (s : GoString) → P c → All P s → All P (keep c s)
  unfolding keep
  keep-All c s p h = elim (Bool-cases (is_space_rune (c ∷ s))) [
    | inl q ↦ rw q tt
    | inr q ↦ rw q ((p, h))
  ]

  trim_right-All : (s : GoString) → All P s → All P (trim_right s)
  unfolding trim_right
  trim_right-All [] h = tt
  trim_right-All (c ∷ s) h = keep-All c (trim_right s) h.0 (trim_right-All s h.1)

  trim_space-All : (s : GoString) → All P s → All P (trim_space s)
  unfolding trim_space trim_left
  trim_space-All s h = trim_right-All (trim_left s) (trim_left_from-All 0 s h)

-- A byte that every text is free of once it is replaced by a text without it.
replace_byte-other :
    (c : ℕ) (t s : GoString) → All (λ d. d ≢ c) t → All (λ d. d ≢ c) (replace_byte c t s)
unfolding replace_byte
replace_byte-other c t [] k = tt
replace_byte-other c t (d ∷ s) k =
    let r = replace_byte-other c t s k in
    elim (Bool-cases (eqb d c)) [
      | inl q ↦ rw q (All-append (λ d. d ≢ c) t (replace_byte c t s) k r)
      | inr q ↦ rw q ((λ e. ground arith, r))
    ]

differ : (c d : ℕ) → eqb c d ≡ false → c ≢ d
differ c d h = λ e. ground arith

-- Whatever the text of the file: what convertJSToJSON makes of it has no apostrophe and no semicolon.
pub convert_js_to_json-All :
    (s : GoString)
    → All (λ c. c ≢ b'\'') (convert_js_to_json s) × All (λ c. c ≢ b';') (convert_js_to_json s)
unfolding convert_js_to_json replace_all
convert_js_to_json-All s =
    let P = λ (c : ℕ). c ≢ b'\'' in
    let quote = differ b'"' b'\'' refl in
    let colon = differ b':' b'\'' refl in
    let a =
      trim_space
        (trim_semicolons (replace_all (match_before_closing b';') (replace_all match_export s))) in
    let b = replace_byte b'\'' (bytes "\"") a in
    let c = replace_all (match_before_closing b',') b in
    let d = replace_all match_object_comma c in
    let e = replace_all match_name d in
    let b_ok = replace_byte-other b'\'' (bytes "\"") a (quote, tt) in
    let c_ok =
      replace_from-All P (match_before_closing b',') 0 b (match_before_closing-Keeps P b',') b_ok in
    let d_ok =
      replace_from-All P match_object_comma 0 c
        (match_object_comma-Keeps P (differ b'}' b'\'' refl)) c_ok in
    let e_ok = replace_from-All P match_name 0 d (match_name-Keeps P quote colon) d_ok in
    let f_ok = quote_first-All P quote colon (differ b'{' b'\'' refl) e e_ok in
    (
      trim_space-All P (replace_byte b';' [] (quote_first e))
          (replace_byte-All P b';' [] (quote_first e) tt f_ok),
      trim_space-All (λ x. x ≢ b';') (replace_byte b';' [] (quote_first e))
          (replace_byte-other b';' [] (quote_first e) tt),
    )
