-- ===== src/Chainlink/Client/ErrorCode.antt =====
-- What `IsErrorCode32097` tests.
use pricefeeding.Prelude.{ℕ, ◌≡◌, refl, Bool, true, ◌||◌, [], ◌∷◌, ◌++◌, arith}
use pricefeeding.Prelude.Key.{GoString, bytes}
use pricefeeding.Chainlink.Client.{has_prefix, has_infix, is_error_code_32097}

prefix_infix : (p s : GoString) → has_prefix p s ≡ true → has_infix p s ≡ true
unfolding has_infix
prefix_infix p [] h = h
prefix_infix p (c ∷ s) h = ground arith

infix_tail : (c : ℕ) (p s : GoString) → has_infix (c ∷ p) s ≡ true → has_infix p s ≡ true
unfolding has_infix has_prefix
infix_tail c p [] h = cc
infix_tail c p (d ∷ s) h = ground (arith, prefix_infix p s, infix_tail c p s)

infix_suffix : (q p s : GoString) → has_infix (q ++ p) s ≡ true → has_infix p s ≡ true
infix_suffix [] p s h = h
infix_suffix (c ∷ q) p s h = infix_suffix q p s (infix_tail c (q ++ p) s h)

prefix_shorter : (p q s : GoString) → has_prefix (p ++ q) s ≡ true → has_prefix p s ≡ true
unfolding has_prefix
prefix_shorter [] q s h = refl
prefix_shorter (c ∷ p) q [] h = h
prefix_shorter (c ∷ p) q (d ∷ s) h = ground (arith, prefix_shorter p q s)

infix_shorter : (p q s : GoString) → has_infix (p ++ q) s ≡ true → has_infix p s ≡ true
unfolding has_infix
infix_shorter p q [] h = prefix_shorter p q [] h
infix_shorter p q (c ∷ s) h = ground (arith, prefix_shorter p q (c ∷ s), infix_shorter p q s)

implied :
    (a b c d : Bool)
    → (a ≡ true → b ≡ true)
    → (c ≡ true → d ≡ true)
    → (a || (b || (c || d))) ≡ (b || d)
implied a b c d f g = ground arith

-- Two of the four tests decide: the text contains 32097, or it contains revert.
is_error_code_two_tests :
    (text : GoString)
    → is_error_code_32097 text ≡ (has_infix (bytes "32097") text || has_infix (bytes "revert") text)
unfolding is_error_code_32097
is_error_code_two_tests text =
    implied (has_infix (bytes "-32097") text) (has_infix (bytes "32097") text)
      (has_infix (bytes "execution reverted") text) (has_infix (bytes "revert") text)
      (infix_suffix (bytes "-") (bytes "32097") text)
      (λ h.
        infix_shorter (bytes "revert") (bytes "ed") text
          (infix_suffix (bytes "execution ") (bytes "reverted") text h))
