-- ===== src/Brewing/Payload.antt =====
-- The tea payload (4513, 4512), the coffee payload with its corrected footer (8001, 8004, 11510),
-- and the flags of an Easy Mode slot.
pub mod Coffee
pub mod Tea
use hacs_xbloom.Prelude.Double.{ceil_double, times, float_of, nearest, divided_by, floor_double}
use hacs_xbloom.Prelude.Int.{pos_part, ℤ, pos, low_byte, negsuc, neg}
use hacs_xbloom.Bytes.{Bytes, ◌>>=◌, pack_u8}
use hacs_xbloom.Prelude.{
  Bool, List, Option, ℕ, if◌then◌else◌, ltb, max, min, none, some, take, ◌==◌, ◌∷◌, bit_or, length,
  suc, ◌&&◌, ◌*◌, ◌+◌, ◌/◌, [], ◌%◌, ◌-◌, drop, false, true, ◌++◌, zero,
}
use hacs_xbloom.Ble.Models.{
  Recipe, PourStep, pack_byte, vibration_byte, flow_byte, build_recipe_payload, cup_tea,
}

unfoldable pub slot_flags : Bool → Bool → ℕ
slot_flags scale_on grinder_on =
    let flags : ℕ = if grinder_on then 0x02 else 0x04 in
    if scale_on then bit_or flags 0x10 else flags

abbrev pub tea_pattern_byte : ℕ
tea_pattern_byte = 1

abbrev pub tea_siphon_cap : ℕ
tea_siphon_cap = 90

-- struct.pack("BBBB", volume, temperature, _TEA_PATTERN_BYTE, vibration)
unfoldable pub tea_step : ℕ → PourStep → Option Bytes
tea_step volume pour = do
  v ← pack_u8 volume
  t ← pack_byte pour.temperature
  some (v ++ (t ++ tea_pattern_byte ∷ vibration_byte pour.vibration ∷ []))

-- `while remaining > 127`, then `if remaining > 0`; the number is 0 where `remaining` is negative
unfoldable pub tea_steps : ℕ → ℕ → PourStep → Option Bytes
unfolding tea_step
tea_steps zero remaining pour = none
tea_steps (suc fuel) remaining pour =
    let rest = tea_steps fuel (remaining - 127) pour in
    let more = (do s ← tea_step 127 pour; r ← rest; some (s ++ r)) in
    if ltb 127 remaining then more else if ltb 0 remaining then tea_step remaining pour else some []

-- round(pausing * 0.6): six tenths of an integer are never halfway between two integers
abbrev pub soak_rounded : ℤ → ℕ
soak_rounded (pos n) = (n * 6 + 5) / 10
soak_rounded (negsuc n) = 0

-- max(1, min(round(pausing * 0.6), 255)); a negative pause rounds to 0 or less, and gives 1
unfoldable pub soak_byte : ℤ → ℕ
soak_byte pausing = max 1 (min (soak_rounded pausing) 255)

unfoldable pub tea_pour : Bool → ℤ → PourStep → Option Bytes
unfolding soak_byte
tea_pour first rpm pour = do
  let remaining = min (pos_part pour.volume) tea_siphon_cap
  steps ← tea_steps (suc remaining) remaining pour
  some (
      steps
      ++ 0
        ∷ soak_byte pour.pausing
        ∷ (if first then low_byte rpm else 0)
        ∷ flow_byte pour.flow_rate
        ∷ [])

unfoldable pub tea_pours : Bool → ℤ → List PourStep → Option Bytes
unfolding tea_pour
tea_pours first rpm [] = some []
tea_pours first rpm (pour ∷ pours) = do
  here ← tea_pour first rpm pour
  rest ← tea_pours false rpm pours
  some (here ++ rest)

-- total_water / dose * 10 in floats, and cut to an integer
abbrev tea_tenths : ℕ → ℕ → ℕ
tea_tenths n dose = floor_double (times (divided_by (float_of n) (float_of dose)) (float_of 10))

-- int(total_water / dose * 10) & 0xFF
abbrev pub tea_ratio : ℤ → ℕ → ℕ
tea_ratio (pos n) dose = tea_tenths n dose % 256
tea_ratio (negsuc n) dose = low_byte (neg (pos (tea_tenths (suc n) dose)))

-- `dose = int(bean_weight)`: the weight is in tenths of a gram
unfoldable pub tea_ratio_byte : Recipe → ℕ
tea_ratio_byte recipe =
    let dose = pos_part recipe.bean_weight / 10 in
    if ltb 0 dose then tea_ratio recipe.total_water dose else 0

unfoldable pub build_tea_payload : Recipe → Option Bytes
unfolding tea_pours tea_ratio_byte
build_tea_payload recipe = do
  body ← tea_pours true recipe.rpm recipe.pours
  size ← pack_u8 (length body)
  some (size ++ (body ++ low_byte recipe.grind_size ∷ tea_ratio_byte recipe ∷ []))

-- sum(p.volume for p in recipe.pours); a negative volume has raised in `build_recipe_payload`
unfoldable pub total_volume : List PourStep → ℕ
total_volume [] = 0
total_volume (pour ∷ pours) = pos_part pour.volume + total_volume pours

-- min(math.ceil(total_water / dose * 10), 0xFF), in floats; the dose is the one nearest to `suc d`
-- tenths of a gram
abbrev pub ratio_of : ℕ → ℤ → ℕ
ratio_of total (pos zero) = 0
ratio_of total (pos (suc d)) =
    min (ceil_double (times (divided_by (float_of total) (nearest (suc d) 10)) (float_of 10))) 255
ratio_of total (negsuc d) = 0

unfoldable pub coffee_ratio_byte : Recipe → ℕ
unfolding total_volume
coffee_ratio_byte recipe = ratio_of (total_volume recipe.pours) recipe.bean_weight

-- vendored[1:-2]
abbrev pub body_content : Bytes → Bytes
body_content vendored = take (length vendored - 3) (drop 1 vendored)

unfoldable pub build_coffee_recipe_payload : Recipe → Option Bytes
unfolding coffee_ratio_byte
build_coffee_recipe_payload recipe = do
  vendored ← build_recipe_payload recipe
  size ← pack_u8 (length (body_content vendored))
  some (
      size ++ (body_content vendored ++ low_byte recipe.grind_size ∷ coffee_ratio_byte recipe ∷ []))

unfoldable pub is_tea_recipe : Recipe → Bool
is_tea_recipe recipe = recipe.cup_type == cup_tea

-- grind_size > 0 and bean_weight > 0
unfoldable pub is_grinding : Recipe → Bool
is_grinding recipe = ltb 0 (pos_part recipe.grind_size) && ltb 0 (pos_part recipe.bean_weight)
