-- ===== src/Ble/Constants.antt =====
-- custom_components/xbloom/ble/constants.py: the commands that are sent, the responses
-- that are dispatched on, and their numbers.
use hacs_xbloom.Prelude.{
  ℕ, Bool, Option, none, some, ◌==◌, if◌then◌else◌, true, ◌≡◌, arith, false, refl, List, ◌↔◌, ◌∷◌,
  Bool-cases, [], inl, ==_iff, inr, ap, sym, ◌∙◌,
}

pub data Command : Type 0 where
  handshake grinder_start calibrate_grinder grinder_stop brewer_start brewer_stop : Command
  brewer_set_temperature water_source_set tea_recipe_make tea_recipe_code : Command
  recipe_send_auto recipe_execute scale_in recipe_send_manual grinder_in brewer_in : Command
  grinder_quit brewer_quit scale_quit brewer_set_pattern recipe_start_quit : Command
  grinder_pause brewer_pause grinder_restart brewer_restart back_to_home set_bypass : Command
  set_display_brightness set_cup pour_radius_get pour_radius_set : Command
  vibration_amplitude_get vibration_amplitude_set easy_slot_send easy_mode_switch : Command
  easy_slot_order recipe_pause recipe_stop recipe_restart scale_tare : Command

abbrev pub command_code : Command → ℕ
command_code Command.handshake = 8100
command_code Command.grinder_start = 3500
command_code Command.calibrate_grinder = 3502
command_code Command.grinder_stop = 3505
command_code Command.brewer_start = 4506
command_code Command.brewer_stop = 4507
command_code Command.brewer_set_temperature = 4510
command_code Command.water_source_set = 4508
command_code Command.tea_recipe_make = 4512
command_code Command.tea_recipe_code = 4513
command_code Command.recipe_send_auto = 8001
command_code Command.recipe_execute = 8002
command_code Command.scale_in = 8003
command_code Command.recipe_send_manual = 8004
command_code Command.grinder_in = 8006
command_code Command.brewer_in = 8007
command_code Command.grinder_quit = 8012
command_code Command.brewer_quit = 8013
command_code Command.scale_quit = 8014
command_code Command.brewer_set_pattern = 8016
command_code Command.recipe_start_quit = 8017
command_code Command.grinder_pause = 8018
command_code Command.brewer_pause = 8019
command_code Command.grinder_restart = 8020
command_code Command.brewer_restart = 8021
command_code Command.back_to_home = 8022
command_code Command.set_bypass = 8102
command_code Command.set_display_brightness = 8103
command_code Command.set_cup = 8104
command_code Command.pour_radius_get = 11506
command_code Command.pour_radius_set = 11507
command_code Command.vibration_amplitude_get = 11508
command_code Command.vibration_amplitude_set = 11509
command_code Command.easy_slot_send = 11510
command_code Command.easy_mode_switch = 11511
command_code Command.easy_slot_order = 11512
command_code Command.recipe_pause = 40518
command_code Command.recipe_stop = 40519
command_code Command.recipe_restart = 40524
command_code Command.scale_tare = 8500

pub data Response : Type 0 where
  machine_sleeping machine_not_sleeping unit_change machine_activity grinder_size : Response
  grinder_speed brewer_mode brewer_temperature easymode_begin : Response
  tea_recipe_change_soak_time abnormal_gear_position abnormal_dose_or_water : Response
  in_grinder in_brewer in_scale grinder_begin out_grinder brewer_begin out_brewer : Response
  out_scale grinder_pause brewer_pause tea_recipe_restart tea_recipe_soak : Response
  current_weight easymode_type easymode_recipe_state current_weight2 pods : Response
  brewer_coffee_start gear_report grinder_run_begin grinder_stop bloom brewer_stop : Response
  enjoy enjoy2 tea_recipe_pause error_idling bypass machine_info error_lack_of_water : Response
  water_volume easymode_recipe_num current_grinder before_vibration calibrate_start : Response
  calibrating : Response

abbrev pub response_code : Response → ℕ
response_code Response.machine_sleeping = 8009
response_code Response.machine_not_sleeping = 8011
response_code Response.unit_change = 8015
response_code Response.machine_activity = 8023
response_code Response.grinder_size = 8105
response_code Response.grinder_speed = 8106
response_code Response.brewer_mode = 8107
response_code Response.brewer_temperature = 8108
response_code Response.easymode_begin = 8111
response_code Response.tea_recipe_change_soak_time = 8113
response_code Response.abnormal_gear_position = 8203
response_code Response.abnormal_dose_or_water = 8204
response_code Response.in_grinder = 9000
response_code Response.in_brewer = 9001
response_code Response.in_scale = 9002
response_code Response.grinder_begin = 9003
response_code Response.out_grinder = 9004
response_code Response.brewer_begin = 9005
response_code Response.out_brewer = 9006
response_code Response.out_scale = 9008
response_code Response.grinder_pause = 9009
response_code Response.brewer_pause = 9010
response_code Response.tea_recipe_restart = 9011
response_code Response.tea_recipe_soak = 9012
response_code Response.current_weight = 10507
response_code Response.easymode_type = 11511
response_code Response.easymode_recipe_state = 11518
response_code Response.current_weight2 = 20501
response_code Response.pods = 40501
response_code Response.brewer_coffee_start = 40502
response_code Response.gear_report = 40505
response_code Response.grinder_run_begin = 40506
response_code Response.grinder_stop = 40507
response_code Response.bloom = 40510
response_code Response.brewer_stop = 40511
response_code Response.enjoy = 40512
response_code Response.enjoy2 = 40513
response_code Response.tea_recipe_pause = 40515
response_code Response.error_idling = 40517
response_code Response.bypass = 40520
response_code Response.machine_info = 40521
response_code Response.error_lack_of_water = 40522
response_code Response.water_volume = 40523
response_code Response.easymode_recipe_num = 40525
response_code Response.current_grinder = 40526
response_code Response.before_vibration = 40527
response_code Response.calibrate_start = 50038
response_code Response.calibrating = 50039

-- The members of the enumeration, in order.
abbrev pub all_responses : List Response
all_responses =
    Response.machine_sleeping ∷ Response.machine_not_sleeping ∷ Response.unit_change
    ∷ Response.machine_activity ∷ Response.grinder_size ∷ Response.grinder_speed
    ∷ Response.brewer_mode ∷ Response.brewer_temperature ∷ Response.easymode_begin
    ∷ Response.tea_recipe_change_soak_time ∷ Response.abnormal_gear_position
    ∷ Response.abnormal_dose_or_water ∷ Response.in_grinder ∷ Response.in_brewer ∷ Response.in_scale
    ∷ Response.grinder_begin ∷ Response.out_grinder ∷ Response.brewer_begin ∷ Response.out_brewer
    ∷ Response.out_scale ∷ Response.grinder_pause ∷ Response.brewer_pause
    ∷ Response.tea_recipe_restart ∷ Response.tea_recipe_soak ∷ Response.current_weight
    ∷ Response.easymode_type ∷ Response.easymode_recipe_state ∷ Response.current_weight2
    ∷ Response.pods ∷ Response.brewer_coffee_start ∷ Response.gear_report
    ∷ Response.grinder_run_begin ∷ Response.grinder_stop ∷ Response.bloom ∷ Response.brewer_stop
    ∷ Response.enjoy ∷ Response.enjoy2 ∷ Response.tea_recipe_pause ∷ Response.error_idling
    ∷ Response.bypass ∷ Response.machine_info ∷ Response.error_lack_of_water ∷ Response.water_volume
    ∷ Response.easymode_recipe_num ∷ Response.current_grinder ∷ Response.before_vibration
    ∷ Response.calibrate_start ∷ Response.calibrating ∷ []

abbrev find_code : ℕ → List Response → Option Response
find_code cmd [] = none
find_code cmd (r ∷ rs) = if response_code r == cmd then some r else find_code cmd rs

-- `Response(cmd)`; a ValueError is `none`
unfoldable pub response_of : ℕ → Option Response
response_of cmd = find_code cmd all_responses

-- The type-2 commands.
unfoldable pub is_type2 : Command → Bool
is_type2 Command.pour_radius_get = true
is_type2 Command.pour_radius_set = true
is_type2 Command.vibration_amplitude_get = true
is_type2 Command.vibration_amplitude_set = true
is_type2 Command.easy_slot_send = true
is_type2 Command.easy_mode_switch = true
is_type2 Command.easy_slot_order = true
is_type2 _ = false

response_of-code : (r : Response) → response_of (response_code r) ≡ some r
unfolding response_of
response_of-code Response.machine_sleeping = refl
response_of-code _ = refl

find_code-code :
    (cmd : ℕ) (rs : List Response) {r : Response}
    → find_code cmd rs ≡ some r
    → response_code r ≡ cmd
find_code-code cmd [] h = absurd (ground arith)
find_code-code cmd (x ∷ rs) {r} h = elim (Bool-cases (response_code x == cmd)) [
  | inl found ↦
      let chosen : some x ≡ some r = rw found at h in
      let same : x ≡ r = cc in ap response_code (sym same) ∙ (==_iff (response_code x) cmd).0 found
  | inr other ↦ find_code-code cmd rs (rw other at h)
]

-- A number is taken for a response exactly when it is that response's own.
pub response_of_iff :
    (cmd : ℕ) (r : Response) → (response_of cmd ≡ some r) ↔ (response_code r ≡ cmd)
unfolding response_of
response_of_iff cmd r = (find_code-code cmd all_responses, λ e. rw (← e) (response_of-code r))
