-- ===== src/Ble/Client.antt =====
-- custom_components/xbloom/ble/client.py and the status record of ble/models.py: the client's
-- state and the events that it fires. The children model the notification handlers.
--
-- A float32 is kept as its bit pattern: the program only compares and forwards weights. A
-- temperature is kept in tenths of a degree.
pub mod Alarm
pub mod Heartbeat
pub mod Info
pub mod Notify
pub mod Response
pub mod Settings
pub mod Weight
mod Tests
use hacs_xbloom.Prelude.{ℕ, Bool, Option, List, false, [], none}
use hacs_xbloom.Prelude.Int.{ℤ, pos}
use hacs_xbloom.Bytes.{Bytes}
use hacs_xbloom.Ble.Models.{DeviceState}

-- The labels of `raw_state_label`.
pub data StateLabel : Type 0 where
  water_shortage no_beans awaiting_confirm recipe_loaded starting brewing ready : StateLabel
  calibrating_grinder descaling calibrating_scale : StateLabel

-- The labels of `screen`.
pub data Screen : Type 0 where
  home grind pour scale settings : Screen

-- `DeviceStatus` with its three parts, and the private fields of `XBloomClient`.
pub record Client : Type 0 where
  pub state : DeviceState
  pub grinder_running : Bool
  pub grinder_speed : ℕ
  pub grinder_size : ℕ
  pub grinder_position : ℕ
  pub brewer_running : Bool
  pub brewer_temperature : ℕ
  pub weight : ℕ
  pub serial_number : Bytes
  pub version : Bytes
  pub water_level_ok : Bool
  pub water_volume : ℤ
  pub voltage : ℕ
  pub mode_bytes : Option Bytes
  pub mode_ack : Option Bytes
  pub raw_state_label : Option StateLabel
  pub is_calibrating_grinder : Bool
  pub is_sleeping : Bool
  pub pour_radius : Option ℕ
  pub vibration_amplitude : Option ℕ
  pub pour_pattern_live : Option ℕ
  pub screen_code : Option ℕ
  pub screen : Option Screen
  pub last_page : Option Screen
  pub last_accepted_weight : Option ℕ
  pub weight_out_of_limit_count : ℕ
  pub scale_calibrating : Bool
  pub brew_context : Bool

pub data Notification : Type 0 where
  grinding_started grinding_complete brewing_started pour_complete bloom paused : Notification
  recipe_complete tea_soaking tea_soak_time_changed tea_resumed pod_detected : Notification
  easy_slot_started grinder_calibration_progress grinder_calibration_complete : Notification
  water_refilled : Notification

pub data ErrorType : Type 0 where
  water_shortage no_beans abnormal_dose_or_water abnormal_gear_position : ErrorType
  mismatched_power brewing_error dock_moving_error grinding_error scale_overload : ErrorType
  upgrade_failed water_shortage_cleared : ErrorType

-- The attribute of a notification, if it has one.
pub data Attribute : Type 0 where
  no_attribute : Attribute
  pour_index slot : ℕ → Attribute
  xid : Bytes → Attribute

-- `_fire_event(category, event_type, attributes)`; an alarm carries its code.
pub data Event : Type 0 where
  notification : Notification → Attribute → Event
  failure : ErrorType → Option ℕ → Event
  grinder_knob : Option ℕ → Option ℕ → Event
  brewer_knob : Option ℕ → Option ℕ → Event
  brewer_page_entry : ℕ → ℕ → ℕ → Event
  unit_change : ℕ → ℕ → ℕ → Event

-- A client with nothing received: the defaults of `DeviceStatus` and of the constructor.
abbrev pub fresh_client : Client
fresh_client = record {
  state = DeviceState.unknown;
  grinder_running = false;
  grinder_speed = 0;
  grinder_size = 0;
  grinder_position = 0;
  brewer_running = false;
  brewer_temperature = 0;
  weight = 0;
  serial_number = [];
  version = [];
  water_level_ok = false;
  water_volume = pos 0;
  voltage = 0;
  mode_bytes = none;
  mode_ack = none;
  raw_state_label = none;
  is_calibrating_grinder = false;
  is_sleeping = false;
  pour_radius = none;
  vibration_amplitude = none;
  pour_pattern_live = none;
  screen_code = none;
  screen = none;
  last_page = none;
  last_accepted_weight = none;
  weight_out_of_limit_count = 0;
  scale_calibrating = false;
  brew_context = false;
}
