-- ===== src/Rpcscan/RpcSwitcher/Selection.antt =====
-- The choice of the best endpoint: the loops of rpcswitcher.go over latency results.
use mathlib.Core.List.{Memᴰ, Permᴰ}
use pricefeeding.Prelude.{◌≤◌, ◌<◌, ◌≡◌, refl, ◌∙◌, ◌⊎◌, inl, inr, List, [], ◌∷◌, arith, All}
use pricefeeding.Rpcscan.RpcSwitcher.{LatencyBox, Best, better, best_of}

abbrev pub chosen : LatencyBox → Best
chosen r = record { endpoint = r.endpoint; latency = r.latency }

better-le : (b : Best) (r : LatencyBox) → (better b r).latency ≤ b.latency
unfolding better
better-le b r = ground arith

best_of-le : (b : Best) (l : List LatencyBox) → (best_of b l).latency ≤ b.latency
unfolding best_of
best_of-le b [] = omega arith
best_of-le b (r ∷ l) = omega (arith, best_of-le (better b r) l, better-le b r)

better-le_result : (b : Best) (r : LatencyBox) → 0 < r.latency → (better b r).latency ≤ r.latency
unfolding better
better-le_result b r h = ground arith

-- The latency that the loop finds is at most that of each result that did not fail.
pub best_of-minimal :
    (b : Best) (l : List LatencyBox)
    → All (λ r. 0 < r.latency → (best_of b l).latency ≤ r.latency) l
unfolding best_of
best_of-minimal b [] = tt
best_of-minimal b (r ∷ l) = (
  λ h. omega (arith, best_of-le (better b r) l, better-le_result b r h),
  best_of-minimal (better b r) l,
)

pub better-cases :
    (b : Best) (r : LatencyBox)
    → (better b r ≡ b) ⊎ ((better b r ≡ chosen r) × (0 < r.latency) × (r.latency < b.latency))
unfolding better
better-cases b r = ground arith

-- What the loop finds is a result of the list that did not fail and is faster than what it began with,
-- or what it began with.
pub best_of-cases :
    (b : Best) (l : List LatencyBox)
    → (best_of b l ≡ b)
      ⊎ ((r : LatencyBox) × Memᴰ r l
          × (best_of b l ≡ chosen r)
          × (0 < r.latency)
          × (r.latency < b.latency))
unfolding best_of
best_of-cases b [] = inl refl
best_of-cases b (r ∷ l) = elim (best_of-cases (better b r) l) [
  | inl same ↦ elim (better-cases b r) [
    | inl e ↦ inl (same ∙ e)
    | inr (e, pos, lt) ↦ inr (r, Memᴰ.head refl, same ∙ e, pos, lt)
  ]
  | inr (q, m, e, pos, lt) ↦ inr (q, Memᴰ.tail m, e, pos, omega (arith, better-le b r))
]

-- What the loop over latency results finds is a result of the list that did not fail and is faster than
-- what it began with, or what it began with; and its latency is at most that of each result that did not
-- fail.
pub best_of-best :
    (b : Best) (l : List LatencyBox)
    → ((best_of b l ≡ b)
        ⊎ ((r : LatencyBox) × Memᴰ r l
            × (best_of b l ≡ chosen r)
            × (0 < r.latency)
            × (r.latency < b.latency)))
      × All (λ r. 0 < r.latency → (best_of b l).latency ≤ r.latency) l
best_of-best b l = (best_of-cases b l, best_of-minimal b l)

better-latency :
    (b c : Best) (r : LatencyBox)
    → b.latency ≡ c.latency
    → (better b r).latency ≡ (better c r).latency
unfolding better
better-latency b c r e = ground arith

best_of-latency :
    (b c : Best) (l : List LatencyBox)
    → b.latency ≡ c.latency
    → (best_of b l).latency ≡ (best_of c l).latency
unfolding best_of
best_of-latency b c [] e = e
best_of-latency b c (r ∷ l) e = best_of-latency (better b r) (better c r) l (better-latency b c r e)

better_comm :
    (b : Best) (q r : LatencyBox)
    → (better (better b q) r).latency ≡ (better (better b r) q).latency
unfolding better
better_comm b q r = ground arith

-- The latency that is found does not depend on the order in which the results come.
pub best_of-perm :
    {l m : List LatencyBox} (b : Best) → Permᴰ l m → (best_of b l).latency ≡ (best_of b m).latency
unfolding best_of
best_of-perm b Permᴰ.nil = refl
best_of-perm b (Permᴰ.cons {a = q} e p) = rw (← e) (best_of-perm (better b q) p)
best_of-perm b (Permᴰ.swap {a = q} {b = r} {l = l} e f) =
    rw (← e, ← f)
      (best_of-latency (better (better b q) r) (better (better b r) q) l (better_comm b q r))
best_of-perm b (Permᴰ.trans p q) = best_of-perm b p ∙ best_of-perm b q
