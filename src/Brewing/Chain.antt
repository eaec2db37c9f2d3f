-- ===== src/Brewing/Chain.antt =====
-- The chains of brewing.py: arming and starting a coffee or a tea, the two-stage form, the scale's
-- commands, and the Easy Mode slots.
--
-- A bypass volume is in tenths of a millilitre and a bypass temperature in tenths of a degree. The
-- parameter `f32` gives the bits of the float32 of a number of tenths: `struct.pack("<f", x)`.
pub mod Brew
pub mod Coffee
pub mod Batch
pub mod Tea
pub mod Start
pub mod TwoStage
use hacs_xbloom.Ble.Constants.{Command}
use hacs_xbloom.Brewing.Payload.{
  is_tea_recipe, build_coffee_recipe_payload, build_tea_payload, is_grinding, slot_flags,
}
use hacs_xbloom.Bytes.{Bytes}
use hacs_xbloom.Prelude.Int.{pos_part}
use hacs_xbloom.Ble.Models.{Recipe}
use hacs_xbloom.Ble.Client.{StateLabel}
use hacs_xbloom.Prelude.{
  Bool, Option, List, true, ℕ, false, if◌then◌else◌, some, ◌∷◌, [], none, ◌*◌, ◌/◌, ◌==◌, ◌||◌,
}
use hacs_xbloom.Brewing.Link.{
  Line, Failure, Action, Chain, Outcome, failed, send_command, throw, waiting_for_confirmation,
  ◌>>=◌, ◌>>◌, check_connected, done, give, no_start_confirmation, no_tea_payload, packed,
  send_and_wait_raw, send_command_raw, refused, send_and_wait, missing_slots,
}

-- _COFFEE_CUP_BOUNDS_GRIND, _COFFEE_CUP_BOUNDS_NO_GRIND and the default, in tenths
unfoldable pub cup_bounds : Bool → ℕ → ℕ × ℕ
cup_bounds grinding cup =
    if cup == 1
    then (800, if grinding then 400 else 0)
    else if cup == 2 || cup == 3
    then (900, if grinding then 400 else 0)
    else (900, 400)

-- int(recipe.bean_weight) if recipe.bean_weight > 0 else 0
abbrev pub dose_of : Recipe → ℕ
dose_of recipe = pos_part recipe.bean_weight / 10

abbrev pub is_started : StateLabel → Bool
is_started StateLabel.starting = true
is_started StateLabel.brewing = true
is_started _ = false

abbrev pub is_refused : StateLabel → Bool
is_refused StateLabel.water_shortage = true
is_refused StateLabel.no_beans = true
is_refused _ = false

-- The end of `_async_verify_brew_started`, by the last label seen.
abbrev pub unconfirmed : Option StateLabel → Failure
unconfirmed (some StateLabel.awaiting_confirm) = waiting_for_confirmation
unconfirmed _ = no_start_confirmation

-- The polls of `_async_verify_brew_started` before its deadline.
unfoldable pub poll_start : Option StateLabel → List (Option StateLabel) → Outcome StateLabel
poll_start last [] = failed (unconfirmed last)
poll_start last (none ∷ polls) = poll_start none polls
poll_start last (some label ∷ polls) =
    let later = poll_start (some label) polls in
    if is_started label
    then done label
    else if is_refused label
    then failed (refused label)
    else later

-- `slot_recipes`
pub record Slots : Type 0 where
  pub slot_a : Option Recipe
  pub slot_b : Option Recipe
  pub slot_c : Option Recipe

module _ (line : Line) (f32 : ℕ → ℕ) where
  unfoldable pub verify_brew_started : Chain StateLabel
  verify_brew_started s = (poll_start none line.polls, s)

  abbrev pub cup_args : ℕ → ℕ → List ℕ
  cup_args f1 f2 = f32 f1 ∷ f32 f2 ∷ []

  abbrev pub bypass_args : ℕ → ℕ → ℕ → List ℕ
  bypass_args volume temperature dose = f32 volume ∷ f32 (temperature * 10) ∷ dose ∷ []

  unfoldable pub arm_coffee : Recipe → ℕ → ℕ → Action
  arm_coffee recipe bypass_volume bypass_temperature = do
    check_connected line
    send_and_wait line Command.back_to_home []
    send_and_wait line Command.set_bypass
        (bypass_args bypass_volume bypass_temperature (dose_of recipe))
    let bounds = cup_bounds (is_grinding recipe) recipe.cup_type
    send_and_wait line Command.set_cup (cup_args bounds.0 bounds.1)
    payload ← packed (build_coffee_recipe_payload recipe)
    send_and_wait_raw line
        (if is_grinding recipe then Command.recipe_send_auto else Command.recipe_send_manual)
        payload

  unfoldable pub execute_coffee_recipe : Action
  execute_coffee_recipe = send_command line Command.recipe_execute []

  unfoldable pub brew_coffee : Recipe → ℕ → ℕ → Action
  brew_coffee recipe bypass_volume bypass_temperature = do
    arm_coffee recipe bypass_volume bypass_temperature
    execute_coffee_recipe
    _ ← verify_brew_started
    give tt

  unfoldable pub arm_tea : Recipe → Chain Bytes
  arm_tea recipe = do
    check_connected line
    send_and_wait line Command.back_to_home []
    send_and_wait line Command.set_bypass (bypass_args 0 0 0)
    send_and_wait line Command.set_cup (cup_args 2000 0)
    payload ← packed (build_tea_payload recipe)
    send_and_wait_raw line Command.tea_recipe_code payload
    give payload

  unfoldable pub brew_tea : Recipe → Action
  brew_tea recipe = do
    payload ← arm_tea recipe
    send_and_wait_raw line Command.tea_recipe_make payload

  unfoldable pub execute_recipe : Recipe → ℕ → ℕ → Action
  execute_recipe recipe bypass_volume bypass_temperature =
      if is_tea_recipe recipe
      then brew_tea recipe
      else brew_coffee recipe bypass_volume bypass_temperature

  unfoldable pub arm_recipe : Recipe → ℕ → ℕ → Chain (Option Bytes)
  arm_recipe recipe bypass_volume bypass_temperature =
      if is_tea_recipe recipe
      then (do payload ← arm_tea recipe; give (some payload))
      else (do arm_coffee recipe bypass_volume bypass_temperature; give none)

  abbrev confirm_tea : Option Bytes → Action
  confirm_tea none = throw no_tea_payload
  confirm_tea (some payload) = send_and_wait_raw line Command.tea_recipe_make payload

  unfoldable pub confirm_recipe : Bool → Option Bytes → Action
  confirm_recipe is_tea tea_payload =
      if is_tea
      then confirm_tea tea_payload
      else (do execute_coffee_recipe; _ ← verify_brew_started; give tt)

  -- async_tare, async_enter_scale, async_exit_scale
  unfoldable pub tare : Action
  tare = do check_connected line; send_command line Command.scale_tare []

  unfoldable pub enter_scale : Action
  enter_scale = do check_connected line; send_command line Command.scale_in []

  unfoldable pub exit_scale : Action
  exit_scale = do check_connected line; send_command line Command.scale_quit []

  -- one round of the loop over the letters
  unfoldable pub write_slot : Bool → ℕ → Recipe → Action
  write_slot scale_on slot_index recipe = do
    blob ← packed (build_coffee_recipe_payload recipe)
    send_command_raw line Command.easy_slot_send
        (slot_index ∷ slot_flags scale_on (is_grinding recipe) ∷ blob) 2

  abbrev pub write_present : Bool → Option Recipe → Option Recipe → Option Recipe → Action
  write_present scale_on (some a) (some b) (some c) = do
    write_slot scale_on 0 a
    write_slot scale_on 1 b
    write_slot scale_on 2 c
    send_command_raw line Command.easy_slot_order (3 ∷ 0 ∷ 1 ∷ 2 ∷ []) 2
  write_present scale_on _ _ _ = throw missing_slots

  unfoldable pub write_easy_slots : Bool → Slots → Action
  write_easy_slots scale_on slots = do
    check_connected line
    write_present scale_on slots.slot_a slots.slot_b slots.slot_c
