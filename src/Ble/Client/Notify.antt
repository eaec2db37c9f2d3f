-- ===== src/Ble/Client/Notify.antt =====
-- The end of `_handle_response` (the events on the event entities: _NOTIFICATION_MAP, the tank
-- notification, _ERROR_MAP), the whole of it, `_parse_response` and `_on_notification`.
pub mod Calibration
pub mod Readings
pub mod Returns
pub mod Sound
use hacs_xbloom.Ble.Client.Alarm.{scan_for_alarm_frame}
use hacs_xbloom.Ble.Client.Settings.{scan_for_advanced_settings}
use hacs_xbloom.Ble.Client.Response.{update_status, update_mode_ack, strict_ascii}
use hacs_xbloom.Ble.Client.Info.{scan_while_anonymous}
use hacs_xbloom.Ble.Client.Heartbeat.{scan_for_status_frame}
use hacs_xbloom.Ble.Framing.{frame_payload, frame_command, iter_frames}
use hacs_xbloom.Prelude.Int.{ℤ}
use hacs_xbloom.Ble.Constants.{Response, response_of}
use hacs_xbloom.Bytes.{Bytes, ◌>>=◌, u32_at}
use hacs_xbloom.Ble.Client.{
  slot, Client, Notification, Attribute, ErrorType, Event, failure, notification, pour_index,
  no_attribute, xid, slot,
}
use hacs_xbloom.Prelude.{
  Option, ℕ, Bool, List, if◌then◌else◌, some, leb, none, true, [], false, length, ◌&&◌, ◌++◌, ◌==◌,
  ◌∷◌, take,
}

-- _NOTIFICATION_MAP
unfoldable pub notification_of : Response → Option Notification
notification_of Response.grinder_begin = some Notification.grinding_started
notification_of Response.grinder_run_begin = some Notification.grinding_started
notification_of Response.grinder_stop = some Notification.grinding_complete
notification_of Response.brewer_begin = some Notification.brewing_started
notification_of Response.brewer_coffee_start = some Notification.brewing_started
notification_of Response.brewer_stop = some Notification.pour_complete
notification_of Response.bloom = some Notification.bloom
notification_of Response.brewer_pause = some Notification.paused
notification_of Response.tea_recipe_pause = some Notification.paused
notification_of Response.enjoy = some Notification.recipe_complete
notification_of Response.enjoy2 = some Notification.recipe_complete
notification_of Response.tea_recipe_soak = some Notification.tea_soaking
notification_of Response.tea_recipe_change_soak_time = some Notification.tea_soak_time_changed
notification_of Response.tea_recipe_restart = some Notification.tea_resumed
notification_of Response.pods = some Notification.pod_detected
notification_of Response.easymode_begin = some Notification.easy_slot_started
notification_of Response.calibrating = some Notification.grinder_calibration_progress
notification_of _ = none

-- _ERROR_MAP
unfoldable pub error_of : Response → Option ErrorType
error_of Response.error_idling = some ErrorType.no_beans
error_of Response.abnormal_dose_or_water = some ErrorType.abnormal_dose_or_water
error_of Response.abnormal_gear_position = some ErrorType.abnormal_gear_position
error_of _ = none

-- The attributes of a notification; a slot is the number of its letter from "A".
unfoldable pub attribute_of : Response → Bytes → Attribute
attribute_of Response.bloom p = if leb 4 (length p) then pour_index (u32_at p 0) else no_attribute
attribute_of Response.pods p = xid (strict_ascii (take 6 p))
attribute_of Response.easymode_begin p =
    if leb 4 (length p) && leb (u32_at p 0) 2 then slot (u32_at p 0) else no_attribute
attribute_of _ p = no_attribute

abbrev pub is_grinding_event : Notification → Bool
is_grinding_event Notification.grinding_started = true
is_grinding_event Notification.grinding_complete = true
is_grinding_event _ = false

-- ERROR_LACK_OF_WATER: 1 is refilled, all else is empty
abbrev pub water_value : Bytes → ℕ
water_value p = if leb 4 (length p) then u32_at p 0 else 0

unfoldable pub lack_of_water : Bytes → Client → Client × List Event
lack_of_water p c =
    if water_value p == 1
    then (
      record c { water_level_ok = true },
      notification Notification.water_refilled no_attribute ∷ [],
    )
    else (record c { water_level_ok = false }, failure ErrorType.water_shortage none ∷ [])

abbrev pub fire_error : Option ErrorType → List Event
fire_error none = []
fire_error (some e) = failure e none ∷ []

abbrev pub fire_mapped : Option Notification → Response → Bytes → Client → Client × List Event
fire_mapped (some n) response p c =
    if is_grinding_event n && c.is_calibrating_grinder
    then (c, [])
    else (c, notification n (attribute_of response p) ∷ [])
fire_mapped none Response.error_lack_of_water p c = lack_of_water p c
fire_mapped none response p c = (c, fire_error (error_of response))

unfoldable pub fire_events : Response → Bytes → Client → Client × List Event
fire_events response p c = fire_mapped (notification_of response) response p c

abbrev and_then : Client × List Event → (Client → Client × List Event) → Client × List Event
and_then (c, first) k = ((k c).0, first ++ (k c).1)

module _ (is_far : ℕ → ℕ → Bool) (float_to_int : ℕ → Option ℤ) where
  unfoldable pub handle_response : Response → Bytes → Client → Client × List Event
  handle_response response frame c =
      let p = frame_payload frame in
      and_then (update_status is_far float_to_int response p c)
        λ c1. fire_events response p (update_mode_ack response p c1)

  abbrev pub handle_known : Option Response → Bytes → Client → Client × List Event
  handle_known none frame c = (c, [])
  handle_known (some response) frame c = handle_response response frame c

  -- `none` is the struct.error of `frame_command` on a frame of fewer than five bytes.
  unfoldable pub parse_response : Bytes → Client → Option (Client × List Event)
  parse_response frame c = do
    cmd ← frame_command frame
    some (handle_known (response_of cmd) frame c)

  -- Each frame of a notification: the heartbeat first, then the response.
  unfoldable pub parse_frames : List Bytes → Client → Option (Client × List Event)
  unfolding parse_response
  parse_frames [] c = some (c, [])
  parse_frames (frame ∷ frames) c = do
    (c1, first) ← parse_response frame (scan_for_status_frame frame c)
    (c2, later) ← parse_frames frames c1
    some (c2, first ++ later)

  -- `none`: an exception, or a walk that does not end.
  unfoldable pub on_notification : Bytes → Client → Option (Client × List Event)
  unfolding parse_frames
  on_notification raw c = do
    c1 ← scan_while_anonymous raw c
    c2 ← scan_for_advanced_settings raw c1
    alarms ← scan_for_alarm_frame raw
    frames ← iter_frames raw
    (c3, events) ← parse_frames frames c2
    some (c3, alarms ++ events)
