-- ===== src/Schema/Scale.antt =====
-- What scaling keeps.
use hacs_xbloom.Prelude.Double.{Double, round_double, float_of, divided_by}
use hacs_xbloom.Prelude.{
  ◌∷◌, ℕ, List, All, length, ◌+◌, ◌≤◌, [], arith, ◌≡◌, ap, max, suc, refl, ◌==◌, ◌||◌, false,
}
use hacs_xbloom.Schema.{scale_pours_to_total, scale_from, scaled_volume, total}

length-scale_from :
    (target factor : Double) (running : ℕ) (volumes : List ℕ)
    → length (scale_from target factor running volumes) ≡ length volumes
unfolding scale_from
length-scale_from target factor running [] = refl
length-scale_from target factor running (v ∷ []) = refl
length-scale_from target factor running (v ∷ w ∷ vs) =
    ap suc (length-scale_from target factor (running + scaled_volume factor v) (w ∷ vs))

scale_from-positive :
    (target factor : Double) (running : ℕ) (volumes : List ℕ)
    → All (λ v. 1 ≤ v) (scale_from target factor running volumes)
unfolding scale_from
scale_from-positive target factor running [] = tt
scale_from-positive target factor running (v ∷ []) = (omega arith, tt)
scale_from-positive target factor running (v ∷ w ∷ vs) =
    (omega arith, scale_from-positive target factor (running + scaled_volume factor v) (w ∷ vs))

-- The volumes of all pours but the last, as they are scaled.
abbrev pub scaled_before_last : Double → List ℕ → ℕ
scaled_before_last factor [] = 0
scaled_before_last factor (v ∷ []) = 0
scaled_before_last factor (v ∷ w ∷ vs) = scaled_volume factor v + scaled_before_last factor (w ∷ vs)

total-scale_from :
    (target factor : Double) (running v : ℕ) (vs : List ℕ)
    → running + total (scale_from target factor running (v ∷ vs))
      ≡ max (round_double target) (running + scaled_before_last factor (v ∷ vs) + 1)
unfolding scale_from
total-scale_from target factor running v [] = omega arith
total-scale_from target factor running v (w ∷ ws) =
    omega (arith, total-scale_from target factor (running + scaled_volume factor v) w ws)

-- Scaling pours that hold some water to a target above 0 keeps their number, leaves at least 1 ml in
-- each, and gives the rounded target exactly where the last pour has room for the rest; where the
-- pours before it use it up, the last pour's 1 ml comes on top.
pub scale_pours_to_total_lem :
    (v : ℕ) (vs : List ℕ) (target : Double)
    → 1 ≤ total (v ∷ vs)
    → 1 ≤ target.numerator
    → let scaled = scale_pours_to_total (v ∷ vs) target in
      let factor = divided_by target (float_of (total (v ∷ vs))) in
      (length scaled ≡ length (v ∷ vs))
      × All (λ u. 1 ≤ u) scaled
      × (total scaled ≡ max (round_double target) (scaled_before_last factor (v ∷ vs) + 1))
unfolding scale_pours_to_total
scale_pours_to_total_lem v vs target some_water positive = rw (grows some_water positive) (
    let factor = divided_by target (float_of (total (v ∷ vs))) in
    (
      length-scale_from target factor 0 (v ∷ vs),
      scale_from-positive target factor 0 (v ∷ vs),
      omega (arith, total-scale_from target factor 0 v vs),
    ))
  where
    grows : {a b : ℕ} → 1 ≤ a → 1 ≤ b → (a == 0 || b == 0) ≡ false
    grows p q = grind arith
