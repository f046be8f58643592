-- ===== src/Strconv/Separator.antt =====
-- Texts that are joined with a colon, as `fmt.Sprintf("%d:%s", n, s)` does.
use pricefeeding.Prelude.Key.{GoString}
use pricefeeding.Prelude.{
  ℕ, zero, suc, false, ◌+◌, ◌*◌, ◌/◌, ◌%◌, ◌-◌, ◌<◌, ◌≡◌, refl, [], ◌∷◌, ◌++◌, arith, Bool-cases,
  eqb, ltb, inl, inr, ap, sym, ◌∙◌, All, if◌then◌else◌,
}
use pricefeeding.Strconv.{digits, itoa}

-- The text before and after the first colon.
before : GoString → GoString
before [] = []
before (c ∷ s) = if eqb c 58 then [] else c ∷ before s

after : GoString → GoString
after [] = []
after (c ∷ s) = if eqb c 58 then s else after s

abbrev pub NoColon : GoString → Type 0
NoColon = All (λ c. eqb c 58 ≡ false)

NoColon-snoc : (s : GoString) (c : ℕ) → NoColon s → eqb c 58 ≡ false → NoColon (s ++ c ∷ [])
NoColon-snoc [] c h k = (k, tt)
NoColon-snoc (d ∷ s) c h k = (h.0, NoColon-snoc s c h.1 k)

digits-NoColon : (f n : ℕ) → NoColon (digits f n)
unfolding digits
digits-NoColon zero n = tt
digits-NoColon (suc f) n = elim (Bool-cases (ltb n 10)) [
  | inl small ↦ rw small (ground arith)
  | inr large ↦
      rw large
        (NoColon-snoc (digits f (n / 10)) (48 + n % 10) (digits-NoColon f (n / 10)) (ground arith))
]

before-colon : (s t : GoString) → NoColon s → before (s ++ 58 ∷ t) ≡ s
unfolding before
before-colon [] t h = refl
before-colon (c ∷ s) t h = rw h.0 (ap (◌∷◌ c) (before-colon s t h.1))

after-colon : (s t : GoString) → NoColon s → after (s ++ 58 ∷ t) ≡ t
unfolding after
after-colon [] t h = refl
after-colon (c ∷ s) t h = rw h.0 (after-colon s t h.1)

-- The number that a list of digits stands for.
value : ℕ → GoString → ℕ
value acc [] = acc
value acc (c ∷ s) = value (acc * 10 + (c - 48)) s

value-snoc :
    (acc : ℕ) (s : GoString) (c : ℕ) → value acc (s ++ c ∷ []) ≡ value acc s * 10 + (c - 48)
unfolding value
value-snoc acc [] c = refl
value-snoc acc (d ∷ s) c = value-snoc (acc * 10 + (d - 48)) s c

value-digits : (f n : ℕ) → n < f → value 0 (digits f n) ≡ n
unfolding digits value
value-digits zero n h = elim h [ ]
value-digits (suc f) n h = elim (Bool-cases (ltb n 10)) [
  | inl small ↦ rw small (ground arith)
  | inr large ↦ rw large (rw (value-snoc, value-digits f (n / 10) (ground arith)) (omega arith))
]

pub itoa_injective : (m n : ℕ) → itoa m ≡ itoa n → m ≡ n
unfolding itoa
itoa_injective m n e =
    sym (value-digits (suc m) m (omega arith))
    ∙ ap (value 0) e
    ∙ value-digits (suc n) n (omega arith)

-- A text without a colon is determined, with what follows, by the two joined with a colon.
pub colon_injective :
    (p q s t : GoString) → NoColon p → NoColon q → p ++ 58 ∷ s ≡ q ++ 58 ∷ t → (p ≡ q) × (s ≡ t)
colon_injective p q s t hp hq e = (
  sym (before-colon p s hp) ∙ ap before e ∙ before-colon q t hq,
  sym (after-colon p s hp) ∙ ap after e ∙ after-colon q t hq,
)

-- Two keys `n:s` are equal only where their numbers and their texts are.
pub tagged_injective :
    (m n : ℕ) (s t : GoString) → itoa m ++ 58 ∷ s ≡ itoa n ++ 58 ∷ t → (m ≡ n) × (s ≡ t)
unfolding itoa
tagged_injective m n s t e =
    let (p, q) =
      colon_injective (itoa m) (itoa n) s t (digits-NoColon (suc m) m) (digits-NoColon (suc n) n)
        e in
    (itoa_injective m n p, q)
