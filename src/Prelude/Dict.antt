-- ===== src/Prelude/Dict.antt =====
-- Go maps, as association lists in the order in which a `range` loop meets the entries. The
-- theorems hold for every such list without repeated keys, so for every iteration order.
use mathlib.Core.Path.{◌≡◌, refl, subst}
use mathlib.Core.Option.{Option, none, some}
use mathlib.Core.List.{List, [], ◌∷◌}
use native.Mathlib.Omega.{arith}
use mathlib.Core.Logic.{inl, inr}
use pricefeeding.Prelude.Tests.{Bool-cases, if◌then◌else◌}
use pricefeeding.Prelude.Lists.{All}
use pricefeeding.Prelude.Key.{Key, ◌==◌}

abbrev pub Dict {ℓ κ} : Type ℓ → Type κ → Type (ℓ ⊔ κ)
Dict K V = List (K × V)

module _ {ℓ κ} {K : Type ℓ} {V : Type κ} ⦃e : Key K⦄ where
  -- m[k], `none` where the key is missing
  unfoldable pub get : K → Dict K V → Option V
  get k [] = none
  get k ((j, v) ∷ m) = if j == k then some v else get k m

  -- m[k] = v
  unfoldable pub put : K → V → Dict K V → Dict K V
  put k v [] = (k, v) ∷ []
  put k v ((j, w) ∷ m) = if j == k then (k, v) ∷ m else (j, w) ∷ put k v m

  -- delete(m, k)
  unfoldable pub delete : K → Dict K V → Dict K V
  delete k [] = []
  delete k ((j, w) ∷ m) = if j == k then delete k m else (j, w) ∷ delete k m

  pub get-nil : (k : K) → get k [] ≡ none
  unfolding get
  get-nil k = refl

  pub get-put :
      (k j : K) (v : V) (m : Dict K V) → get j (put k v m) ≡ (if k == j then some v else get j m)
  unfolding get put
  get-put k j v [] = refl
  get-put k j v ((i, w) ∷ m) =
      ground (arith, e.same_iff k j, e.same_iff i k, e.same_iff i j, get-put k j v m)

  pub get-put_self : (k : K) (v : V) (m : Dict K V) → get k (put k v m) ≡ some v
  get-put_self k v m = ground (arith, get-put k k v m, e.same_iff k k)

  pub get-delete :
      (k j : K) (m : Dict K V) → get j (delete k m) ≡ (if k == j then none else get j m)
  unfolding get delete
  get-delete k j [] = ground arith
  get-delete k j ((i, w) ∷ m) =
      ground (arith, e.same_iff k j, e.same_iff i k, e.same_iff i j, get-delete k j m)

  -- No key stands twice.
  abbrev pub Distinct : Dict K V → Type κ
  Distinct [] = Unit
  Distinct ((k, v) ∷ m) = (get k m ≡ none) × Distinct m

  pub put-Distinct : (k : K) (v : V) (m : Dict K V) → Distinct m → Distinct (put k v m)
  unfolding get put
  put-Distinct k v [] h = ground arith
  put-Distinct k v ((j, w) ∷ m) h =
      ground (arith, e.same_iff j k, get-put k j v m, e.same_iff k j, put-Distinct k v m)

  get-cons :
      (k j : K) (v : V) (m : Dict K V) (w : V)
      → get j m ≡ none
      → get k m ≡ some w
      → get k ((j, v) ∷ m) ≡ some w
  unfolding get
  get-cons k j v m w h g = ground (arith, e.same_iff j k)

  get-head : (k : K) (v : V) (m : Dict K V) → get k ((k, v) ∷ m) ≡ some v
  unfolding get
  get-head k v m = ground (arith, e.same_iff k k)

  All-get-cons :
      (j : K) (v : V) (m l : Dict K V)
      → get j m ≡ none
      → All (λ e. get e.0 m ≡ some e.1) l
      → All (λ e. get e.0 ((j, v) ∷ m) ≡ some e.1) l
  All-get-cons j v m [] h a = tt
  All-get-cons j v m ((k, w) ∷ l) h a = (get-cons k j v m w h a.0, All-get-cons j v m l h a.1)

  -- In a map without repeated keys every entry is what its key looks up.
  pub get-entries : (m : Dict K V) → Distinct m → All (λ e. get e.0 m ≡ some e.1) m
  get-entries [] h = tt
  get-entries ((k, v) ∷ m) h = (get-head k v m, All-get-cons k v m m h.0 (get-entries m h.1))

module _ {ℓ κ} {K : Type ℓ} {V : Type κ} ⦃e : Key K⦄ (P : V → Type 0) where
  -- A property of the values of a map.
  abbrev pub Values : Dict K V → Type 0
  Values [] = Unit
  Values ((k, v) ∷ m) = P v × Values m

  pub put-Values : (k : K) (v : V) (m : Dict K V) → P v → Values m → Values (put k v m)
  unfolding put
  put-Values k v [] h a = (h, tt)
  put-Values k v ((j, w) ∷ m) h a = elim (Bool-cases (e.same j k)) [
    | inl q ↦ rw q (h, a.1)
    | inr q ↦ rw q (a.0, put-Values k v m h a.1)
  ]

  pub get-Values : (k : K) (m : Dict K V) (v : V) → Values m → get k m ≡ some v → P v
  unfolding get
  get-Values k [] v a g = cc
  get-Values k ((j, w) ∷ m) v a g = elim (Bool-cases (e.same j k)) [
    | inl q ↦ subst P (ground arith) a.0
    | inr q ↦ get-Values k m v a.1 (ground arith)
  ]
