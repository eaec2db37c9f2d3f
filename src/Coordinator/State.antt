-- ===== src/Coordinator/State.antt =====
-- coordinator/state.py: `_derive_state_string`, the string of the state sensor, and
-- `_tracked_live_grind_size`.
pub mod Priority
use hacs_xbloom.Prelude.{Bool, Option, if◌then◌else◌, none, some, true, ◌==◌, false, ◌&&◌, ◌||◌}
use hacs_xbloom.Coordinator.{Coordinator, Armed, is_armed}
use hacs_xbloom.Ble.Client.{Client, Screen, StateLabel}
use hacs_xbloom.Ble.Models.{DeviceState}

-- The strings.
pub data MachineState : Type 0 where
  armed_recipe calibrating_grinder water_shortage sleeping paused : MachineState
  no_beans awaiting_confirm recipe_loaded starting brewing ready descaling : MachineState
  calibrating_scale standalone_grind standalone_pour standalone_scale : MachineState
  idle grinding error unknown : MachineState

unfoldable pub label_string : StateLabel → MachineState
label_string StateLabel.water_shortage = MachineState.water_shortage
label_string StateLabel.no_beans = MachineState.no_beans
label_string StateLabel.awaiting_confirm = MachineState.awaiting_confirm
label_string StateLabel.recipe_loaded = MachineState.recipe_loaded
label_string StateLabel.starting = MachineState.starting
label_string StateLabel.brewing = MachineState.brewing
label_string StateLabel.ready = MachineState.ready
label_string StateLabel.calibrating_grinder = MachineState.calibrating_grinder
label_string StateLabel.descaling = MachineState.descaling
label_string StateLabel.calibrating_scale = MachineState.calibrating_scale

-- `s.state.value`, where "unknown" is shown as "idle"
unfoldable pub device_string : DeviceState → MachineState
device_string DeviceState.unknown = MachineState.idle
device_string DeviceState.idle = MachineState.idle
device_string DeviceState.grinding = MachineState.grinding
device_string DeviceState.brewing = MachineState.brewing
device_string DeviceState.paused = MachineState.paused
device_string DeviceState.error = MachineState.error
device_string DeviceState.sleeping = MachineState.sleeping

-- `s.screen in (None, "grind", "pour")`
abbrev pub may_pause : Option Screen → Bool
may_pause none = true
may_pause (some Screen.grind) = true
may_pause (some Screen.pour) = true
may_pause _ = false

-- "standalone_" and the screen, for the three pages that have such a state
abbrev pub standalone : Option Screen → Option MachineState
standalone (some Screen.grind) = some MachineState.standalone_grind
standalone (some Screen.pour) = some MachineState.standalone_pour
standalone (some Screen.scale) = some MachineState.standalone_scale
standalone _ = none

-- the armed page, while no screen has been reported
abbrev pub armed_page : Option Screen → Option Armed → Option MachineState
armed_page none (some Armed.grind) = some MachineState.standalone_grind
armed_page none (some Armed.pour) = some MachineState.standalone_pour
armed_page _ _ = none

abbrev or_else : Option MachineState → MachineState → MachineState
or_else none rest = rest
or_else (some state) rest = state

abbrev unless : Bool → Option MachineState → Option MachineState
unless true state = none
unless false state = state

abbrev label_of : Option StateLabel → Option MachineState
label_of none = none
label_of (some label) = some (label_string label)

unfoldable pub derive_state_string : Client → Coordinator → MachineState
unfolding label_string device_string
derive_state_string s c =
    if is_armed c.armed_operation Armed.recipe
    then MachineState.armed_recipe
    else if s.is_calibrating_grinder
    then MachineState.calibrating_grinder
    else if c.water_shortage
    then MachineState.water_shortage
    else if s.is_sleeping
    then MachineState.sleeping
    else or_else (label_of s.raw_state_label) (
        if c.manual_paused && may_pause s.screen
        then MachineState.paused
        else or_else (unless (s.grinder_running || s.brewer_running) (standalone s.screen))
            (or_else (armed_page s.screen c.armed_operation) (device_string s.state)))

-- `s.grinder.size or None` while the grinder runs, and its last value after that
unfoldable pub tracked_live_grind_size : Client → Coordinator → Coordinator
tracked_live_grind_size s c =
    if s.grinder_running
    then record c { live_grind_size = if s.grinder_size == 0 then none else some s.grinder_size }
    else c
