-- ===== src/Strconv/RoundTrip.antt =====
-- Reading a printed number gives it back.
use pricefeeding.Prelude.Key.{GoString}
use pricefeeding.Prelude.{
  ℕ, zero, suc, ◌+◌, ◌/◌, ◌%◌, ◌^◌, ◌<◌, ◌≡◌, refl, ◌≢◌, Option, some, [], ◌∷◌, ◌++◌, arith, ◌>>=◌,
  Bool-cases, Option-cases, ltb, inl, inr, ◌∙◌,
}
use pricefeeding.Strconv.{digits, itoa, parse_step, parse_digits, parse_uint}

bind-some : (o : Option ℕ) → (o >>= λ m. some m) ≡ o
bind-some o = ground arith

parse_digits-snoc :
    (n : ℕ) (s : GoString) (c : ℕ)
    → parse_digits n (s ++ c ∷ []) ≡ (parse_digits n s >>= λ m. parse_step m c)
unfolding parse_digits
parse_digits-snoc n [] c = bind-some (parse_step n c)
parse_digits-snoc n (d ∷ s) c = elim (Option-cases (parse_step n d)) [
  | inl e ↦ rw e
  | inr (m, e) ↦ rw e (parse_digits-snoc m s c)
]

parse_step-digit : (n : ℕ) → n < 2 ^ 64 → parse_step (n / 10) (48 + n % 10) ≡ some n
unfolding parse_step
parse_step-digit n h = ground arith

parse_step-small : (n : ℕ) → n < 10 → parse_step 0 (48 + n) ≡ some n
unfolding parse_step
parse_step-small n h = ground arith

parse_digits-digits : (f n : ℕ) → n < f → n < 2 ^ 64 → parse_digits 0 (digits f n) ≡ some n
unfolding digits parse_digits
parse_digits-digits zero n h k = elim h [ ]
parse_digits-digits (suc f) n h k = elim (Bool-cases (ltb n 10)) [
  | inl small ↦ rw small (rw (parse_step-small n (ground arith)))
  | inr large ↦ rw large (
      rw (parse_digits-snoc, parse_digits-digits f (n / 10) (ground arith) (omega arith))
        (parse_step-digit n k))
]

snoc-ne-nil : (s : GoString) (c : ℕ) → s ++ c ∷ [] ≢ []
snoc-ne-nil [] c = λ e. cc
snoc-ne-nil (d ∷ s) c = λ e. cc

digits-ne-nil : (f n : ℕ) → digits (suc f) n ≢ []
unfolding digits
digits-ne-nil f n = elim (Bool-cases (ltb n 10)) [
  | inl small ↦ rw small (λ e. cc)
  | inr large ↦ rw large (snoc-ne-nil (digits f (n / 10)) (48 + n % 10))
]

parse_uint-parse_digits : (s : GoString) → s ≢ [] → parse_uint s ≡ parse_digits 0 s
unfolding parse_uint
parse_uint-parse_digits [] h = absurd (h refl)
parse_uint-parse_digits (c ∷ s) h = refl

-- A 64-bit number, printed and read back, is the number.
pub parse_uint-itoa : (n : ℕ) → n < 2 ^ 64 → parse_uint (itoa n) ≡ some n
parse_uint-itoa n h =
    unfold itoa in
    parse_uint-parse_digits (digits (suc n) n) (digits-ne-nil n n)
    ∙ parse_digits-digits (suc n) n (omega arith) h
