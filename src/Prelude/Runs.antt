-- ===== src/Prelude/Runs.antt =====
-- Runs of a step relation.

-- Whichever steps are taken, a state with the property is reached: the property holds, or a step is
-- possible and it holds so after every step.
pub data Eventually {ℓ} {S : Type ℓ} (R : S → S → Type ℓ) (P : S → Type 0) : S → Type ℓ where
  now : {s : S} → P s → Eventually R P s
  later : {s : S} (t : S) → R s t → ((u : S) → R s u → Eventually R P u) → Eventually R P s

-- The states that are reached.
pub data Reach {ℓ} {S : Type ℓ} (R : S → S → Type ℓ) (s : S) : S → Type ℓ where
  here : Reach R s s
  next : {t u : S} → Reach R s t → R t u → Reach R s u
