-- ===== src/Ble/Models.antt =====
-- custom_components/xbloom/ble/models.py: pours and recipes, their checks at construction, and the
-- recipe payload of the commands 8001 and 8004.
--
-- Python's floats are exact decimals here: a flow rate in hundredths of ml/s, a bean weight in
-- tenths of a gram.
pub mod Decode
pub mod Body
use hacs_xbloom.Prelude.{
  ℕ, zero, suc, ◌+◌, ◌-◌, ◌*◌, ◌/◌, ◌%◌, Bool, not, ◌&&◌, ◌||◌, List, [], ◌∷◌, ◌++◌, Option, none,
  some, ltb, ◌==◌, if◌then◌else◌, length, replicate, concat, map,
}
use hacs_xbloom.Prelude.Int.{ℤ, pos, negsuc, pos_part, ltb_ℤ, eqb_ℤ, low_byte, neg}
use hacs_xbloom.Bytes.{Bytes, pack_u8, ◌>>=◌}

pub data DeviceState : Type 0 where
  unknown idle grinding brewing paused error sleeping : DeviceState

pub data PourPattern : Type 0 where
  center circular spiral : PourPattern

abbrev pub pattern_byte : PourPattern → ℕ
pattern_byte PourPattern.center = 0
pattern_byte PourPattern.circular = 1
pattern_byte PourPattern.spiral = 2

abbrev pub cup_x_pod : ℕ
cup_x_pod = 1

abbrev pub cup_omni_dripper : ℕ
cup_omni_dripper = 2

abbrev pub cup_other : ℕ
cup_other = 3

abbrev pub cup_tea : ℕ
cup_tea = 4

pub data VibrationPattern : Type 0 where
  no_vibration before after both : VibrationPattern

abbrev pub vibration_byte : VibrationPattern → ℕ
vibration_byte VibrationPattern.no_vibration = 0
vibration_byte VibrationPattern.before = 1
vibration_byte VibrationPattern.after = 2
vibration_byte VibrationPattern.both = 3

-- `flow_rate` is in hundredths of ml/s.
pub record PourStep : Type 0 where
  pub volume : ℤ
  pub temperature : ℤ
  pub flow_rate : ℤ
  pub pausing : ℤ
  pub pattern_of : PourPattern
  pub vibration : VibrationPattern

-- `bean_weight` is in tenths of a gram. The field `id` is read by nothing.
pub record Recipe : Type 0 where
  pub grind_size : ℤ
  pub total_water : ℤ
  pub rpm : ℤ
  pub cup_type : ℕ
  pub bean_weight : ℤ
  pub pours : List PourStep

-- the ValueErrors of the two `__post_init__`
pub data ValueError : Type 0 where
  bad_flow_rate bad_temperature bad_volume bad_pause : ValueError
  bad_grind_size bad_rpm too_many_pours bad_bean_weight : ValueError

-- `none` if the checks pass
unfoldable pub check_pour : PourStep → Option ValueError
check_pour p =
    if (ltb_ℤ p.flow_rate (pos 300) || ltb_ℤ (pos 350) p.flow_rate)
      && not (eqb_ℤ p.flow_rate (pos 0))
    then some bad_flow_rate
    else if not (eqb_ℤ p.temperature (pos 0))
        && (ltb_ℤ p.temperature (pos 40) || ltb_ℤ (pos 100) p.temperature)
    then some bad_temperature
    else if ltb_ℤ p.volume (pos 0)
    then some bad_volume
    else if ltb_ℤ p.pausing (pos 0)
    then some bad_pause
    else none

abbrev is_valid_rpm : ℤ → Bool
is_valid_rpm r =
    eqb_ℤ r (pos 0)
    || eqb_ℤ r (pos 60)
    || eqb_ℤ r (pos 70)
    || eqb_ℤ r (pos 80)
    || eqb_ℤ r (pos 90)
    || eqb_ℤ r (pos 100)
    || eqb_ℤ r (pos 110)
    || eqb_ℤ r (pos 120)

unfoldable pub check_recipe : Recipe → Option ValueError
check_recipe r =
    if (ltb_ℤ r.grind_size (pos 0) || ltb_ℤ (pos 150) r.grind_size)
      && not (eqb_ℤ r.grind_size (pos 0))
    then some bad_grind_size
    else if not (is_valid_rpm r.rpm)
    then some bad_rpm
    else if ltb 20 (length r.pours)
    then some too_many_pours
    else if ltb_ℤ r.bean_weight (pos 0) || ltb_ℤ (pos 1000) r.bean_weight
    then some bad_bean_weight
    else none

-- struct.pack("B", v) of an integer: a negative value raises too
abbrev pub pack_byte : ℤ → Option Bytes
pack_byte (pos n) = pack_u8 n
pack_byte (negsuc n) = none

-- struct.pack("BBBB", volume, temperature, pattern, vibration)
unfoldable pub sub_step : ℤ → PourStep → Option Bytes
sub_step volume pour = do
  v ← pack_byte volume
  t ← pack_byte pour.temperature
  some (v ++ (t ++ pattern_byte pour.pattern_of ∷ vibration_byte pour.vibration ∷ []))

-- the same bytes `n` times
abbrev pub repeat_step : ℕ → Option Bytes → Option Bytes
repeat_step zero step = some []
repeat_step (suc n) step = do s ← step; rest ← repeat_step n step; some (s ++ rest)

-- The volume of a pour in steps of at most 127 ml; `divmod(remaining_vol, 127)`.
unfoldable pub sub_steps : PourStep → Option Bytes
unfolding sub_step
sub_steps pour =
    if ltb_ℤ (pos 127) pour.volume
    then (do
      full ← repeat_step (pos_part pour.volume / 127) (sub_step (pos 127) pour)
      last ←
          (if ltb 0 (pos_part pour.volume % 127)
            then sub_step (pos (pos_part pour.volume % 127)) pour
            else some [])
      some (full ++ last))
    else sub_step pour.volume pour

-- int(flow_rate * 10) & 0xFF; `int` cuts towards zero
abbrev pub flow_byte : ℤ → ℕ
flow_byte (pos c) = c / 10 % 256
flow_byte (negsuc c) = low_byte (neg (pos (suc c / 10)))

-- The pour with its metadata; the RPM goes with the first pour only.
unfoldable pub pour_bytes : Bool → ℤ → PourStep → Option Bytes
unfolding sub_steps
pour_bytes first rpm pour = do
  steps ← sub_steps pour
  some (
      steps
      ++ low_byte (neg pour.pausing)
        ∷ 0
        ∷ (if first then low_byte rpm else 0)
        ∷ flow_byte pour.flow_rate
        ∷ [])

unfoldable pub pours_bytes : Bool → ℤ → List PourStep → Option Bytes
unfolding pour_bytes
pours_bytes first rpm [] = some []
pours_bytes first rpm (pour ∷ pours) = do
  here ← pour_bytes first rpm pour
  rest ← pours_bytes Bool.false rpm pours
  some (here ++ rest)

-- total_water * 10 & 0xFF
abbrev pub water_byte : ℤ → ℕ
water_byte (pos n) = n * 10 % 256
water_byte (negsuc n) = low_byte (neg (pos (suc n * 10)))

-- A length byte, the body and the two footer bytes.
unfoldable pub build_recipe_payload : Recipe → Option Bytes
unfolding pours_bytes
build_recipe_payload recipe = do
  body ← pours_bytes Bool.true recipe.rpm recipe.pours
  size ← pack_u8 (length body)
  some (size ++ (body ++ low_byte recipe.grind_size ∷ water_byte recipe.total_water ∷ []))
