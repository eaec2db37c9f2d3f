-- ===== src/Coordinator.antt =====
-- custom_components/xbloom/coordinator: the bookkeeping of XBloomCoordinator, the state that Home
-- Assistant sees, the dispatch of the client's events, the poll, and the manual operations.
--
-- Temperatures of the setpoints are whole degrees, flow rates hundredths of ml/s, times
-- milliseconds. What the coordinator asks of Home Assistant is an `Effect`.
pub mod Connection
pub mod Dispatch
pub mod Knobs
pub mod Manual
pub mod ModeSwitch
pub mod Operations
pub mod State
pub mod System
pub mod Tick
pub mod Units
mod Tests
use hacs_xbloom.Bytes.{Bytes}
use hacs_xbloom.Ble.Client.{Event, Screen}
use hacs_xbloom.Ble.Models.{PourStep}
use hacs_xbloom.Prelude.{ℕ, Bool, Option, List, false, none, [], not, some, true}
use hacs_xbloom.Prelude.Int.{ℤ, pos}

-- `_armed_operation`, less None
pub data Armed : Type 0 where
  grind pour recipe : Armed

-- `_active_operation`, less None
pub data Operation : Type 0 where
  recipe manual_pour manual_grind : Operation

pub data WaterSource : Type 0 where
  tank direct : WaterSource

pub data Mode : Type 0 where
  pro easy : Mode

-- WEIGHT_UNIT_OPTIONS and TEMP_UNIT_OPTIONS
pub data WeightUnit : Type 0 where
  g oz ml : WeightUnit

pub data TempUnit : Type 0 where
  fahrenheit celsius : TempUnit

-- The fields of `XBloomCoordinator` that the modelled methods read or write. `linked` says
-- that there is a client and that it is connected; the set `_pending_unit_pushes` is three flags.
pub record Coordinator : Type 0 where
  pub grind_size : ℕ
  pub rpm : ℕ
  pub temperature : ℕ
  pub volume : ℕ
  pub flow_rate : ℤ
  pub pour_pattern : ℕ
  pub live_grind_size : Option ℕ
  pub executing_recipe : Bool
  pub active_recipe_pours : Option (List PourStep)
  pub current_pour_index : Option ℕ
  pub water_source : WaterSource
  pub mode : Mode
  pub event_listeners : List ℕ
  pub water_shortage : Bool
  pub pod_prompt_active : Bool
  pub active_operation : Option Operation
  pub armed_operation : Option Armed
  pub armed_recipe_is_tea : Bool
  pub armed_recipe_tea_payload : Option Bytes
  pub last_reconcile_screen : Option Screen
  pub manual_paused : Bool
  pub manual_run_seen : Bool
  pub manual_pause_seen : Bool
  pub manual_disconnect : Bool
  pub force_reconnect_pending : Bool
  pub session_timeout : ℕ
  pub idle_disconnected : Bool
  pub last_activity : ℕ
  pub idle_standby_pending : Bool
  pub reconnect_failures : ℕ
  pub reconnect_blocked_until : ℕ
  pub linked : Bool
  pub weight_unit : WeightUnit
  pub temp_unit : TempUnit
  pub pending_weight_unit : Bool
  pub pending_temp_unit : Bool
  pub pending_water_source : Bool

-- The constructor, with the options at their defaults and the clock at 0.
abbrev pub fresh_coordinator : Coordinator
fresh_coordinator = record {
  grind_size = 50;
  rpm = 80;
  temperature = 93;
  volume = 250;
  flow_rate = pos 300;
  pour_pattern = 0;
  live_grind_size = none;
  executing_recipe = false;
  active_recipe_pours = none;
  current_pour_index = none;
  water_source = tank;
  mode = easy;
  event_listeners = [];
  water_shortage = false;
  pod_prompt_active = false;
  active_operation = none;
  armed_operation = none;
  armed_recipe_is_tea = false;
  armed_recipe_tea_payload = none;
  last_reconcile_screen = none;
  manual_paused = false;
  manual_run_seen = false;
  manual_pause_seen = false;
  manual_disconnect = false;
  force_reconnect_pending = false;
  session_timeout = 60000;
  idle_disconnected = false;
  last_activity = 0;
  idle_standby_pending = false;
  reconnect_failures = 0;
  reconnect_blocked_until = 0;
  linked = false;
  weight_unit = g;
  temp_unit = celsius;
  pending_weight_unit = false;
  pending_temp_unit = false;
  pending_water_source = false;
}

-- What a method schedules on the loop of Home Assistant, in order: a refresh of the data, an
-- update of the entities, the task of a machine-side unit change, the pod lookup, one call of an
-- event listener, and the three tasks of the connection supervisor.
pub data Effect : Type 0 where
  refresh update_listeners drop_stale_link enter_idle_standby reconnect : Effect
  push_units persist_units persist_mode : Effect
  sync_units : ℕ → ℕ → ℕ → Effect
  look_up_pod : Bytes → Effect
  deliver : ℕ → Event → Effect

-- The comparisons of the code: a screen with a page, the armed operation, the running operation.
abbrev pub same_screen : Screen → Screen → Bool
same_screen Screen.home Screen.home = true
same_screen Screen.grind Screen.grind = true
same_screen Screen.pour Screen.pour = true
same_screen Screen.scale Screen.scale = true
same_screen Screen.settings Screen.settings = true
same_screen _ _ = false

abbrev pub is_screen : Option Screen → Screen → Bool
is_screen none page = false
is_screen (some screen) page = same_screen screen page

abbrev pub is_armed : Option Armed → Armed → Bool
is_armed (some Armed.grind) Armed.grind = true
is_armed (some Armed.pour) Armed.pour = true
is_armed (some Armed.recipe) Armed.recipe = true
is_armed _ _ = false

abbrev pub is_active : Option Operation → Operation → Bool
is_active (some Operation.recipe) Operation.recipe = true
is_active (some manual_pour) manual_pour = true
is_active (some manual_grind) manual_grind = true
is_active _ _ = false

abbrev pub is_none {ℓ} : {A : Type ℓ} → Option A → Bool
is_none none = true
is_none (some a) = false

abbrev pub is_tank : WaterSource → Bool
is_tank tank = true
is_tank direct = false

-- `!=` of two flags
abbrev pub differs : Bool → Bool → Bool
differs true b = not b
differs false b = b
