-- ===== src/Prelude/Key.antt =====
-- Equality as an interface: what the keys of a Go map, and the texts that the program compares, need.
-- A Go `string` is the list of its bytes.
use Prim.Native.Nat.{ℕ}
use Prim.Native.Char.{code}
use Prim.Native.String.{String}
use mathlib.Core.Path.{◌≡◌, refl}
use mathlib.Core.Logic.{◌↔◌}
use mathlib.Core.Bool.{Bool, true, false, ◌&&◌}
use mathlib.Core.List.{List, [], ◌∷◌}
use native.Mathlib.Omega.{arith}
use pricefeeding.Prelude.Tests.{eqb}

-- `same` is the `==` of Go on the type.
pub record Key {ℓ} (K : Type ℓ) : Type ℓ where
  pub same : K → K → Bool
  pub same_iff : (x y : K) → (same x y ≡ true) ↔ (x ≡ y)

infix 50 ◌==◌
abbrev pub ◌==◌ {ℓ} : {K : Type ℓ} ⦃key : Key K⦄ → K → K → Bool
◌==◌ ⦃key = key⦄ x y = key.same x y

pub eqb_iff : (a b : ℕ) → (eqb a b ≡ true) ↔ (a ≡ b)
eqb_iff a b = ground arith

instance abbrev pub nat_key : Key ℕ
nat_key = record { same = eqb; same_iff = eqb_iff }

abbrev pub GoString : Type 0
GoString = List ℕ

abbrev pub string_beq : GoString → GoString → Bool
string_beq [] [] = true
string_beq [] (d ∷ t) = false
string_beq (c ∷ s) [] = false
string_beq (c ∷ s) (d ∷ t) = eqb c d && string_beq s t

string_beq_sound : (s t : GoString) → string_beq s t ≡ true → s ≡ t
string_beq_sound [] [] h = refl
string_beq_sound [] (d ∷ t) h = cc
string_beq_sound (c ∷ s) [] h = cc
string_beq_sound (c ∷ s) (d ∷ t) h = ground (arith, string_beq_sound s t)

pub string_beq_refl : (s : GoString) → string_beq s s ≡ true
string_beq_refl [] = refl
string_beq_refl (c ∷ s) = ground (arith, string_beq_refl s)

pub string_beq_iff : (s t : GoString) → (string_beq s t ≡ true) ↔ (s ≡ t)
string_beq_iff s t = (string_beq_sound s t, λ e. rw e (string_beq_refl t))

instance abbrev pub string_key : Key GoString
string_key = record { same = string_beq; same_iff = string_beq_iff }

-- The bytes of an ASCII literal.
abbrev pub bytes : String → GoString
bytes String.[] = []
bytes (String.◌∷◌ c s) = code c ∷ bytes s
