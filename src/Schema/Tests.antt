-- ===== src/Schema/Tests.antt =====
-- Names and volumes at concrete values.
use hacs_xbloom.Prelude.Double.{float_of, nearest, round_double, divided_by}
use hacs_xbloom.Prelude.{
  ◌∷◌, none, some, refl, List, Option, [], length, ℕ, ◌≡◌, All, arith, replicate, ap, false, ◌≤◌,
  length-replicate, max, ◌⊎◌, true, ◌+◌,
}
use hacs_xbloom.Prelude.Int.{ℤ, pos}
use hacs_xbloom.Schema.{
  Name, dedupe_name, numbered, scale_pours_to_total, dedupe_from, is_taken, total,
}
use hacs_xbloom.Schema.Dedupe.{dedupe_name-free}
use hacs_xbloom.Schema.Scale.{scale_pours_to_total_lem, scaled_before_last}
use hacs_xbloom.Schema.Lookup.{
  Stored, Recipes, find_recipe, find_recipe-Names, IsAmong, Names, has_uid,
}

-- Stands for `str`: as many strokes as the number says.
abbrev strokes : ℕ → Name
strokes n = replicate n 0x31

strokes-injective : (m n : ℕ) → strokes m ≡ strokes n → m ≡ n
strokes-injective m n e =
    omega (arith, ap length e, length-replicate {A = ℕ} m 0x31, length-replicate {A = ℕ} n 0x31)

-- "A", and what is stored: "A" and "A (2)".
abbrev name_a : Name
name_a = 0x41 ∷ []

abbrev stored_names : List Name
stored_names = name_a ∷ numbered strokes name_a 2 ∷ []

dedupe_name-free_example :
    (free : Name) × (dedupe_name strokes name_a stored_names ≡ some free)
    × (is_taken free stored_names ≡ false)
    × (is_taken name_a stored_names ≡ false → free ≡ name_a)
dedupe_name-free_example = dedupe_name-free strokes strokes-injective name_a stored_names

dedupe_test : dedupe_name strokes name_a stored_names ≡ some (numbered strokes name_a 3)
unfolding dedupe_name dedupe_from numbered
dedupe_test = refl

target_positive : 1 ≤ (float_of 200).numerator
unfolding nearest
target_positive = omega arith

scale_pours_to_total_example :
    let scaled = scale_pours_to_total (40 ∷ 110 ∷ 90 ∷ []) (float_of 200) in
    (length scaled ≡ 3)
    × All (λ u. 1 ≤ u) scaled
    × (total scaled
        ≡ max (round_double (float_of 200)) (
            scaled_before_last (divided_by (float_of 200) (float_of 240)) (40 ∷ 110 ∷ 90 ∷ []) + 1))
scale_pours_to_total_example =
    scale_pours_to_total_lem 40 (110 ∷ 90 ∷ []) (float_of 200) (omega arith) target_positive

scale_test : scale_pours_to_total (40 ∷ 110 ∷ 90 ∷ []) (float_of 200) ≡ 33 ∷ 92 ∷ 75 ∷ []
unfolding scale_pours_to_total nearest round_double
scale_test = refl

-- The first pours use up a total of 2 ml: the sum is 3.
short_test : scale_pours_to_total (1 ∷ 1 ∷ 98 ∷ []) (float_of 2) ≡ 1 ∷ 1 ∷ 1 ∷ []
unfolding scale_pours_to_total nearest round_double
short_test = refl

-- 77 * (39 / 154) is 19.5, and in doubles it is below: the exact product would give 40 in all.
double_test : total (scale_pours_to_total (77 ∷ 75 ∷ 2 ∷ []) (float_of 39)) ≡ 39
unfolding scale_pours_to_total nearest round_double
double_test = refl

-- A recipe whose name is the uid of another.
abbrev recipes : Recipes
recipes =
    (0x55 ∷ [], record { uid = some (0x41 ∷ []); cloud_table_id = none; share_url = none })
    ∷ (name_a, record { uid = some (0x55 ∷ []); cloud_table_id = some (pos 5); share_url = none })
    ∷ []

abbrev no_number : Name → Option ℤ
no_number name = none

found_test :
    find_recipe no_number (λ name. some name) (λ name. name) recipes name_a
    ≡ some (0x55 ∷ [], record { uid = some (0x41 ∷ []); cloud_table_id = none; share_url = none })
unfolding find_recipe
found_test = refl

find_recipe-Names_example :
    let found : Name × Stored =
      (0x55 ∷ [], record { uid = some (0x41 ∷ []); cloud_table_id = none; share_url = none }) in
    IsAmong found recipes
    × Names no_number (λ name. some name) (λ name. name) name_a found
    × (All (λ q. has_uid name_a q ≡ false) recipes ⊎ (has_uid name_a found ≡ true))
find_recipe-Names_example =
    find_recipe-Names no_number (λ name. some name) (λ name. name) recipes name_a _ found_test
