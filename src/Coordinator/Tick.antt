-- ===== src/Coordinator/Tick.antt =====
-- coordinator/state.py: `_async_update_data`, the poll that answers with the data of the entities
-- and supervises the link; `_machine_mode` of ble/client.py.
pub mod Supervision
use hacs_xbloom.Coordinator.Knobs.{round_tenths}
use hacs_xbloom.Coordinator.Manual.{reconcile_armed_with_screen, reconcile_manual_operation}
use hacs_xbloom.Coordinator.Connection.{maybe_schedule_reconnect, note_activity}
use hacs_xbloom.Bytes.{Bytes}
use hacs_xbloom.Prelude.{
  Bool, Option, false, ℕ, if◌then◌else◌, ltb, none, not, some, true, List, [], length, ◌&&◌, ◌==◌,
  take, drop, ◌-◌, ◌∷◌,
}
use hacs_xbloom.Coordinator.{
  Coordinator, Effect, Mode, Operation, pro, easy, drop_stale_link, is_none, enter_idle_standby,
}
use hacs_xbloom.Coordinator.State.{MachineState, derive_state_string, tracked_live_grind_size}
use hacs_xbloom.Ble.Client.{Client}

-- _MACHINE_INFO_MODE_EASY_HEX
abbrev is_easy_code : Bytes → Bool
is_easy_code (p ∷ q ∷ r ∷ t ∷ []) = p == 0x91 && (q == 0x32 && (r == 0x78 && t == 0x56))
is_easy_code _ = false

abbrev mode_of_code : Bytes → Mode
mode_of_code code = if is_easy_code code then easy else pro

abbrev mode_of_info : Option Bytes → Mode
mode_of_info none = pro
mode_of_info (some raw) = if ltb (length raw) 55 then pro else mode_of_code (take 4 (drop 51 raw))

abbrev latest_mode : Option Bytes → Option Bytes → Mode
latest_mode (some code) info = mode_of_code code
latest_mode none info = mode_of_info info

unfoldable pub machine_mode : Client → Mode
machine_mode s = latest_mode s.mode_ack s.mode_bytes

-- The keys of the data. "error" is always None.
pub record Data : Type 0 where
  pub connected : Bool
  pub weight : Option ℕ
  pub temperature : Option ℕ
  pub state : MachineState
  pub operation : Option Operation
  pub grinder_running : Bool
  pub brewer_running : Bool
  pub water_level_ok : Bool
  pub version : Bytes
  pub serial_number : Bytes
  pub mode : Mode
  pub live_grind_size : Option ℕ
  pub live_grind_speed : Option ℕ
  pub voltage : Option ℕ
  pub pour_radius : Option ℕ
  pub vibration_amplitude : Option ℕ

-- DEFAULT_STATE
abbrev pub default_state : Data
default_state = record {
  connected = false;
  weight = none;
  temperature = none;
  state = MachineState.unknown;
  operation = none;
  grinder_running = false;
  brewer_running = false;
  water_level_ok = false;
  version = [];
  serial_number = [];
  mode = pro;
  live_grind_size = none;
  live_grind_speed = none;
  voltage = none;
  pour_radius = none;
  vibration_amplitude = none;
}

-- _BLE_SILENCE_TIMEOUT_S
abbrev pub ble_silence_timeout : ℕ
ble_silence_timeout = 15000

abbrev is_empty : Bytes → Bool
is_empty [] = true
is_empty _ = false

abbrev pub is_idle : MachineState → Bool
is_idle MachineState.idle = true
is_idle _ = false

abbrev pub is_quiet : MachineState → Bool
is_quiet MachineState.idle = true
is_quiet MachineState.sleeping = true
is_quiet _ = false

-- The setpoints while the machine is idle; a reading of 0 is none.
unfoldable pub mirror_idle_knobs : Client → Coordinator → Coordinator
mirror_idle_knobs s c =
    let warmed =
      (if s.brewer_temperature == 0
        then c
        else record c { temperature = round_tenths s.brewer_temperature }) in
    record warmed { pour_pattern = or_default s.pour_pattern_live c.pour_pattern }
  where
    or_default : Option ℕ → ℕ → ℕ
    or_default none d = d
    or_default (some n) d = n

-- `round1` is Python's `round(weight, 1)` on the bits of a float.
module _ (round1 : ℕ → ℕ) where
  unfoldable pub data_of : Client → MachineState → Coordinator → Data
  unfolding machine_mode
  data_of s shown c = record {
    connected = true;
    weight = if s.is_sleeping then none else some (round1 s.weight);
    temperature = if s.brewer_temperature == 0 then none else some s.brewer_temperature;
    state = shown;
    operation = c.active_operation;
    grinder_running = s.grinder_running;
    brewer_running = s.brewer_running;
    water_level_ok = not c.water_shortage;
    version = s.version;
    serial_number = s.serial_number;
    mode = if is_empty s.serial_number then c.mode else machine_mode s;
    live_grind_size = c.live_grind_size;
    live_grind_speed = some s.grinder_speed;
    voltage = some s.voltage;
    pour_radius = s.pour_radius;
    vibration_amplitude = s.vibration_amplitude;
  }

  -- The poll of a link that stays up.
  unfoldable pub read_status : ℕ → Client → Coordinator → Data × Coordinator
  unfolding reconcile_armed_with_screen reconcile_manual_operation derive_state_string
      tracked_live_grind_size note_activity mirror_idle_knobs
  read_status now s c =
      let seen = reconcile_manual_operation s (reconcile_armed_with_screen s c) in
      let shown = derive_state_string s seen in
      let tracked = tracked_live_grind_size s seen in
      let noted = (if is_quiet shown then tracked else note_activity now tracked) in
      (data_of s shown tracked, if is_idle shown then mirror_idle_knobs s noted else noted)

  abbrev pub is_stale : ℕ → Client → Coordinator → Bool
  is_stale silence s c =
      not c.force_reconnect_pending && (not s.is_sleeping && ltb ble_silence_timeout silence)

  -- nothing has happened for longer than the session timeout
  abbrev pub is_unused : ℕ → Coordinator → Bool
  is_unused now c =
      ltb 0 c.session_timeout
      && not c.idle_standby_pending
      && is_none c.armed_operation
      && is_none c.active_operation
      && not c.pod_prompt_active
      && ltb c.session_timeout (now - c.last_activity)

  -- `silence` is the time since the last notification; `locked`, that a connect is in flight.
  unfoldable pub async_update_data :
      ℕ → ℕ → Bool → Client → Coordinator → Data × Coordinator × List Effect
  unfolding read_status maybe_schedule_reconnect
  async_update_data now silence locked s c =
      if not c.linked
      then (default_state, c, maybe_schedule_reconnect now locked c)
      else if is_stale silence s c
      then (default_state, record c { force_reconnect_pending = true }, drop_stale_link ∷ [])
      else if is_unused now c
      then (default_state, record c { idle_standby_pending = true }, enter_idle_standby ∷ [])
      else let r = read_status now s c in (r.0, r.1, [])
