-- ===== src/Ble/Client/Tests.antt =====
-- The client at concrete heartbeats, weights and notifications.
use hacs_xbloom.Ble.Constants.{Response}
use hacs_xbloom.Prelude.Int.{ℤ, pos}
use hacs_xbloom.Ble.Client.Response.{strict_ascii, update_status, update_mode_ack}
use hacs_xbloom.Ble.Client.Info.{scan_for_machine_info, scan_for_machine_info-returns}
use hacs_xbloom.Ble.Framing.Long.{HasLongFrames}
use hacs_xbloom.Ble.Client.Settings.{scan_for_advanced_settings, scan_for_advanced_settings-returns}
use hacs_xbloom.Ble.Client.Notify.Returns.{on_notification-returns}
use hacs_xbloom.Ble.Client.Notify.Readings.{HasValidReadings}
use hacs_xbloom.Ble.Client.Heartbeat.Context.{HasBrewStart, ambiguous_needs_start}
use hacs_xbloom.Bytes.{Bytes}
use hacs_xbloom.Ble.Client.Heartbeat.Calibration.{
  IsAtRest, IsCalibrating, calibration_run, status_code-IsAtRest, calibration_ends, label_or_page,
}
use hacs_xbloom.Ble.Client.Notify.Calibration.{
  HasEvent, IsCalibrationEnd, IsCompletion, IsGrindingEvent, handle_response-completed,
  handle_response-quiet, handle_response-IsCompletion_iff,
}
use hacs_xbloom.Prelude.{
  List, length, ℕ, All, Bool, Option, ◌+◌, ◌∷◌, ◌≡◌, [], arith, false, ltb, none, refl, some, true,
  ◌≤◌, ◌++◌, ◌-◌, ◌⊎◌, concat, ◌<◌, ◌||◌, ◌↔◌,
}
use hacs_xbloom.Ble.Framing.{frame_payload, scan_at}
use hacs_xbloom.Ble.Client.Alarm.{
  is_alarm, scan_for_alarm_frame, IsAlarmFrame, alarms_fired, scan_for_alarm_frame_lem,
}
use hacs_xbloom.Ble.Client.Response.Text.{IsText, strict_ascii-IsText}
use hacs_xbloom.Ble.Client.{Client, Event, Screen, fresh_client, StateLabel}
use hacs_xbloom.Ble.Client.Heartbeat.{
  ends_scale_calibration, is_scale_cal_arming, screen_of, status_code, status_codes,
  update_scale_calibrating, update_brew_context, state_label_for, is_brew_context_code,
  ends_brew_context, raw_state_label_of,
}
use hacs_xbloom.Ble.Client.Notify.Sound.{notifications, notifications-valid}
use hacs_xbloom.Ble.Client.Weight.{filter_weight, AllRejected, rejected_run, filter_weight_lem}
use hacs_xbloom.Ble.Client.Notify.{handle_response, on_notification, fire_events, notification_of}

-- Two weights are far apart where their bits differ by more than 300: any test will do here.
abbrev is_far : ℕ → ℕ → Bool
is_far a b = ltb 300 (a - b) || ltb 300 (b - a)

-- Every float32 reads as 0 here.
abbrev to_int : ℕ → Option ℤ
to_int bits = some (pos 0)

-- Run B of the captures: the confirm screen, the steps with the shared code, and no end yet.
abbrev run_steps : List ℕ
run_steps = 0x3a ∷ 0x3b ∷ 0x3f ∷ 0x3b ∷ 0x3c ∷ 0x3b ∷ []

run_steps-All : All (λ k. ends_scale_calibration k ≡ false) run_steps
unfolding ends_scale_calibration is_scale_cal_arming
run_steps-All = (refl, (refl, (refl, (refl, (refl, (refl, tt))))))

arming_test : is_scale_cal_arming 0x39 ≡ true
unfolding is_scale_cal_arming
arming_test = refl

calibration_run_example : IsCalibrating (status_codes run_steps (status_code 0x39 fresh_client))
calibration_run_example = calibration_run 0x39 run_steps fresh_client arming_test run_steps-All

ends_test : ends_scale_calibration 0x25 ≡ true
unfolding ends_scale_calibration
ends_test = refl

calibration_ends_test : (status_code 0x25 fresh_client).scale_calibrating ≡ false
calibration_ends_test = calibration_ends 0x25 fresh_client ends_test

home_test : screen_of 0x41 ≡ some Screen.home
unfolding screen_of
home_test = refl

status_code-IsAtRest_test : IsAtRest Screen.home (status_code 0x41 fresh_client)
status_code-IsAtRest_test = status_code-IsAtRest 0x41 fresh_client Screen.home home_test

label_or_page_test :
    ((status_code 0x25 fresh_client).raw_state_label ≡ none)
    ⊎ ((status_code 0x25 fresh_client).screen ≡ none)
label_or_page_test = label_or_page 0x25 fresh_client

-- A brew from its first code to the ambiguous one.
abbrev brew_codes : List ℕ
brew_codes = 0x01 ∷ 0x1f ∷ 0x22 ∷ []

brewing_test :
    (status_codes (brew_codes ++ 0x3b ∷ []) fresh_client).raw_state_label ≡ some StateLabel.brewing
unfolding status_codes status_code update_scale_calibrating update_brew_context state_label_for
    is_scale_cal_arming ends_scale_calibration is_brew_context_code ends_brew_context
    raw_state_label_of screen_of
brewing_test = refl

still_test :
    ((status_codes brew_codes fresh_client).brewer_running ≡ false)
    × ((status_codes brew_codes fresh_client).grinder_running ≡ false)
unfolding status_codes status_code screen_of
still_test = (refl, refl)

ambiguous_needs_start_example : HasBrewStart brew_codes
ambiguous_needs_start_example =
    ambiguous_needs_start brew_codes fresh_client refl still_test.0 still_test.1 brewing_test

filter_weight_test :
    ((filter_weight is_far 500 fresh_client).0 ≡ 500)
      × ((filter_weight is_far 500 fresh_client).1.last_accepted_weight ≡ some 500)
      × ((filter_weight is_far 500 fresh_client).1.weight_out_of_limit_count ≡ 0)
    ⊎ ((last : ℕ) × (fresh_client.last_accepted_weight ≡ some last)
        × (is_far 500 last ≡ true)
        × ((filter_weight is_far 500 fresh_client).0 ≡ last)
        × ((filter_weight is_far 500 fresh_client).1.last_accepted_weight ≡ some last)
        × ((filter_weight is_far 500 fresh_client).1.weight_out_of_limit_count ≡ 1)
        × (fresh_client.weight_out_of_limit_count < 4))
filter_weight_test = filter_weight_lem is_far 500 fresh_client

-- A client that has accepted the weight 0, and four glitches.
abbrev weighed_client : Client
weighed_client = record fresh_client { last_accepted_weight = some 0 }

abbrev glitches : List ℕ
glitches = 900 ∷ 901 ∷ 902 ∷ 903 ∷ []

glitches-AllRejected : AllRejected is_far glitches weighed_client
unfolding filter_weight
glitches-AllRejected = ground arith

rejected_run_test : length glitches + weighed_client.weight_out_of_limit_count ≤ 4
rejected_run_test = rejected_run is_far glitches weighed_client glitches-AllRejected (omega arith)

-- The frame of an alarm, code 8449, behind two bytes of noise.
abbrev alarm_frame : Bytes
alarm_frame =
    0x58 ∷ 0x02 ∷ 0x01 ∷ 0xfe ∷ 0xff ∷ 0x10 ∷ 0 ∷ 0 ∷ 0 ∷ 0xcd ∷ 0x01 ∷ 0x21 ∷ 0 ∷ 0 ∷ 0xaa ∷ 0xbb
    ∷ []

alarm_frame-IsAlarmFrame : IsAlarmFrame 8449 alarm_frame
unfolding is_alarm
alarm_frame-IsAlarmFrame = record { size = refl; alarm_bytes = refl; code_read = refl }

scan_for_alarm_frame_example :
    scan_for_alarm_frame ((1 ∷ 2 ∷ []) ++ (concat (alarm_frame ∷ []) ++ 7 ∷ []))
    ≡ some (alarms_fired (8449 ∷ []))
scan_for_alarm_frame_example =
    scan_for_alarm_frame_lem (1 ∷ 2 ∷ []) (8449 ∷ []) (alarm_frame ∷ []) (7 ∷ []) (ground arith)
      (alarm_frame-IsAlarmFrame, tt) (omega arith)

-- The size of the grinder with the raw value 85, as a notification.
abbrev size_frame : Bytes
size_frame =
    0x58 ∷ 0x02 ∷ 0x01 ∷ 0x4e ∷ 0x9e ∷ 0x10 ∷ 0 ∷ 0 ∷ 0 ∷ 0xc1 ∷ 85 ∷ 0 ∷ 0 ∷ 0 ∷ 0xaa ∷ 0xbb ∷ []

size_frame-HasLongFrames : HasLongFrames size_frame
unfolding scan_at
size_frame-HasLongFrames = ground arith

scan_for_advanced_settings_test :
    (c' : Client) × (scan_for_advanced_settings size_frame fresh_client ≡ some c')
scan_for_advanced_settings_test = scan_for_advanced_settings-returns size_frame fresh_client

scan_for_machine_info_test :
    (c' : Client) × (scan_for_machine_info size_frame fresh_client ≡ some c')
scan_for_machine_info_test = scan_for_machine_info-returns size_frame fresh_client

on_notification-returns_example :
    (r : Client × List Event) × (on_notification is_far to_int size_frame fresh_client ≡ some r)
on_notification-returns_example =
    on_notification-returns is_far to_int size_frame fresh_client size_frame-HasLongFrames

abbrev calibrating_client : Client
calibrating_client = record fresh_client { is_calibrating_grinder = true }

payload_test : frame_payload size_frame ≡ 85 ∷ 0 ∷ 0 ∷ 0 ∷ []
unfolding frame_payload
payload_test = refl

handle_response-IsCompletion_example :
    HasEvent IsCompletion
      (handle_response is_far to_int Response.current_grinder size_frame calibrating_client).1
    ↔ IsCalibrationEnd Response.current_grinder (frame_payload size_frame) calibrating_client
handle_response-IsCompletion_example =
    handle_response-IsCompletion_iff is_far to_int Response.current_grinder size_frame
      calibrating_client

size_frame-IsCalibrationEnd :
    IsCalibrationEnd Response.current_grinder (frame_payload size_frame) calibrating_client
unfolding frame_payload
size_frame-IsCalibrationEnd = record {
  kind = refl;
  long = omega arith;
  value = refl;
  running = refl;
}

handle_response-completed_test :
    (handle_response is_far to_int Response.current_grinder size_frame
      calibrating_client).0.is_calibrating_grinder
    ≡ false
handle_response-completed_test =
    handle_response-completed is_far to_int Response.current_grinder size_frame calibrating_client
      (handle_response-IsCompletion_example.1 size_frame-IsCalibrationEnd)

still_calibrating :
    (handle_response is_far to_int Response.grinder_stop size_frame
      calibrating_client).0.is_calibrating_grinder
    ≡ true
unfolding handle_response update_status update_mode_ack fire_events notification_of
still_calibrating = refl

handle_response-quiet_test : ¬ (
    HasEvent IsGrindingEvent
      (handle_response is_far to_int Response.grinder_stop size_frame calibrating_client).1)
handle_response-quiet_test =
    handle_response-quiet is_far to_int Response.grinder_stop size_frame calibrating_client
      still_calibrating

strict_ascii_test : IsText (strict_ascii (0x20 ∷ 0x4a ∷ 0x31 ∷ 0x20 ∷ 0xff ∷ []))
strict_ascii_test = strict_ascii-IsText (0x20 ∷ 0x4a ∷ 0x31 ∷ 0x20 ∷ 0xff ∷ [])

fresh-HasValidReadings : HasValidReadings fresh_client
fresh-HasValidReadings =
    let empty : IsText [] = record { ascii = tt; left = refl; right = refl } in
    (tt, empty, empty, tt, omega arith)

-- The client behind one notification.
abbrev handled : Client
handled =
    (on_notification-returns is_far to_int size_frame fresh_client size_frame-HasLongFrames).0.0

handled_test : notifications is_far to_int (size_frame ∷ []) fresh_client ≡ some handled
unfolding notifications
handled_test =
    let (r, e) =
      on_notification-returns is_far to_int size_frame fresh_client size_frame-HasLongFrames in
    rw e refl

notifications-valid_test : HasValidReadings handled
notifications-valid_test =
    notifications-valid is_far to_int (size_frame ∷ []) fresh_client handled_test
      fresh-HasValidReadings
