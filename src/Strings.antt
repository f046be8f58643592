-- ===== src/Strings.antt =====
-- strings.TrimSpace, strings.ReplaceAll and the scan of regexp.ReplaceAllString, as the program uses
-- them, on the bytes of a text in UTF-8.
use pricefeeding.Prelude.{
  if◌then◌else◌, ℕ, zero, suc, ◌-◌, Bool, false, ◌&&◌, ◌||◌, [], ◌∷◌, ◌++◌, Option, none, some, leb,
  eqb, length,
}
use pricefeeding.Prelude.Key.{GoString}

-- The spaces of unicode.IsSpace that are one byte.
unfoldable pub is_space : ℕ → Bool
is_space c = (leb b'\t' c && leb c b'\r') || eqb c b' '

-- The text is the UTF-8 encoding of one space: U+0085 and U+00A0 have two bytes; U+1680, U+2000 to
-- U+200A, U+2028, U+2029, U+202F, U+205F and U+3000 have three.
unfoldable pub is_space_rune : GoString → Bool
unfolding is_space
is_space_rune [] = false
is_space_rune (c ∷ []) = is_space c
is_space_rune (c ∷ d ∷ []) = eqb c 194 && (eqb d 133 || eqb d 160)
is_space_rune (c ∷ d ∷ e ∷ []) =
    (eqb c 225 && eqb d 154 && eqb e 128)
    || (eqb c 226
        && ((eqb d 128 && ((leb 128 e && leb e 138) || eqb e 168 || eqb e 169 || eqb e 175))
            || (eqb d 129 && eqb e 159)))
    || (eqb c 227 && eqb d 128 && eqb e 128)
is_space_rune (c ∷ d ∷ e ∷ f ∷ s) = false

-- The first `n` bytes of a text.
abbrev pub take : ℕ → GoString → GoString
take zero s = []
take (suc n) [] = []
take (suc n) (c ∷ s) = c ∷ take n s

-- How many bytes the space at the beginning of a text has; 0 where there is none.
unfoldable pub space_width : GoString → ℕ
unfolding is_space_rune
space_width s =
    if is_space_rune (take 1 s)
    then 1
    else if is_space_rune (take 2 s)
    then 2
    else if is_space_rune (take 3 s)
    then 3
    else 0

-- `skip` bytes belong to a space that has been read.
unfoldable pub trim_left_from : ℕ → GoString → GoString
unfolding space_width
trim_left_from skip [] = []
trim_left_from (suc skip) (c ∷ s) = trim_left_from skip s
trim_left_from zero (c ∷ s) =
    let width = space_width (c ∷ s) in
    let rest = trim_left_from (width - 1) s in if eqb width 0 then c ∷ s else rest

unfoldable pub trim_left : GoString → GoString
unfolding trim_left_from
trim_left = trim_left_from 0

-- A byte before a trimmed text, with which it may be a space.
unfoldable pub keep : ℕ → GoString → GoString
unfolding is_space_rune
keep c t = if is_space_rune (c ∷ t) then [] else c ∷ t

unfoldable pub trim_right : GoString → GoString
unfolding keep
trim_right [] = []
trim_right (c ∷ s) = keep c (trim_right s)

-- strings.TrimSpace.
unfoldable pub trim_space : GoString → GoString
unfolding trim_left trim_right
trim_space s = trim_right (trim_left s)

-- A match at the beginning of a text: what it is replaced by, and what follows it.
abbrev pub Matcher : Type 0
Matcher = GoString → Option (GoString × GoString)

-- The scan from left to right; `skip` bytes belong to a match that has been replaced. A match is not
-- empty.
unfoldable pub replace_from : Matcher → ℕ → GoString → GoString
replace_from match skip [] = []
replace_from match (suc skip) (c ∷ s) = replace_from match skip s
replace_from match zero (c ∷ s) = elim (match (c ∷ s)) [
  | none ↦ c ∷ replace_from match 0 s
  | some found ↦ found.0 ++ replace_from match (length s - length found.1) s
]

unfoldable pub replace_all : Matcher → GoString → GoString
unfolding replace_from
replace_all match = replace_from match 0

-- Every byte `c` becomes the text `t`.
unfoldable pub replace_byte : ℕ → GoString → GoString → GoString
replace_byte c t [] = []
replace_byte c t (d ∷ s) = (if eqb d c then t else d ∷ []) ++ replace_byte c t s
