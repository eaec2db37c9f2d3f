-- ===== src/Schema.antt =====
-- custom_components/xbloom/schema.py: names and volumes of stored recipes. Strings are lists of code
-- points; `str` of a number, `int` of a string and the parsing of a share URL are parameters.
--
-- Volumes are whole ml; their scaling is computed in doubles, as in the source.
pub mod Dedupe
pub mod Scale
pub mod Lookup
mod Tests
use hacs_xbloom.Prelude.Double.{Double, round_double, float_of, times, divided_by}
use hacs_xbloom.Prelude.{
  ℕ, List, Bool, Option, if◌then◌else◌, max, ◌++◌, ◌/◌, ◌∷◌, [], false, none, not, some, ◌*◌, ◌+◌,
  ◌-◌, ◌==◌, suc, true, ◌%◌, ◌||◌, length, ltb, zero, ◌&&◌,
}

abbrev pub Name : Type 0
Name = List ℕ

abbrev pub same_name : Name → Name → Bool
same_name [] [] = true
same_name (x ∷ xs) (y ∷ ys) = x == y && same_name xs ys
same_name _ _ = false

-- `name in existing`
abbrev pub is_taken : Name → List Name → Bool
is_taken name [] = false
is_taken name (other ∷ rest) = same_name name other || is_taken name rest

module _ (str : ℕ → Name) where
  -- f"{name} ({n})"
  unfoldable pub numbered : Name → ℕ → Name
  numbered name n = name ++ (0x20 ∷ 0x28 ∷ str n ++ 0x29 ∷ [])

  -- The loop from a number on; `none` when the fuel is used up.
  unfoldable pub dedupe_from : ℕ → ℕ → Name → List Name → Option ℕ
  dedupe_from zero n name existing = none
  dedupe_from (suc fuel) n name existing =
      let later = dedupe_from fuel (n + 1) name existing in
      if is_taken (numbered name n) existing then later else some n

  abbrev named : Name → Option ℕ → Option Name
  named name none = none
  named name (some n) = some (numbered name n)

  -- One round more than there are names to avoid.
  unfoldable pub dedupe_name : Name → List Name → Option Name
  dedupe_name name existing =
      if not (is_taken name existing)
      then some name
      else named name (dedupe_from (suc (length existing)) 2 name existing)

abbrev pub total : List ℕ → ℕ
total [] = 0
total (v ∷ vs) = v + total vs

-- max(1, round(float(volume) * factor))
unfoldable pub scaled_volume : Double → ℕ → ℕ
scaled_volume factor v = max 1 (round_double (times (float_of v) factor))

-- The pours but the last are rounded, and the last one takes what is left, at least 1.
unfoldable pub scale_from : Double → Double → ℕ → List ℕ → List ℕ
unfolding scaled_volume
scale_from target factor running [] = []
scale_from target factor running (v ∷ []) = max 1 (round_double target - running) ∷ []
scale_from target factor running (v ∷ w ∷ vs) =
    let u = scaled_volume factor v in u ∷ scale_from target factor (running + u) (w ∷ vs)

-- `scale_pours_to_total`, on the volumes; a target below 0, which is handled as 0 is, has no value
-- here
unfoldable pub scale_pours_to_total : List ℕ → Double → List ℕ
unfolding scale_from
scale_pours_to_total volumes target =
    if total volumes == 0 || target.numerator == 0
    then volumes
    else scale_from target (divided_by target (float_of (total volumes))) 0 volumes
