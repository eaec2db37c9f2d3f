-- ===== src/Coordinator/Knobs.antt =====
-- coordinator/state.py: the mirrors of the machine's knobs onto the setpoints; and
-- `_wire_temperature` of coordinator/operations.py, which they invert.
pub mod Wire
use hacs_xbloom.Prelude.{
  Bool, Option, ℕ, List, false, if◌then◌else◌, leb, ◌||◌, [], ltb, some, ◌&&◌, ◌*◌, ◌∷◌, not, ◌%◌,
  none, ◌==◌, true, ◌/◌, ◌+◌,
}
use hacs_xbloom.Coordinator.{Coordinator, Effect, Armed, update_listeners, is_screen, is_armed}
use hacs_xbloom.Ble.Client.{Client, Screen}

abbrev pub within : ℕ → ℕ → ℕ → Bool
within low high n = leb low n && leb n high

-- Python's `round` of tenths: a half goes to the even neighbour.
abbrev pub round_tenths : ℕ → ℕ
round_tenths t = if ltb (t % 10) 5 || (t % 10 == 5 && t / 10 % 2 == 0) then t / 10 else t / 10 + 1

-- Whether the status shows this page.
abbrev pub shows : Client → Screen → Bool
shows s page = is_screen s.screen page

unfoldable pub set_grind_size : Option ℕ → Coordinator → Coordinator × Bool
set_grind_size none c = (c, false)
set_grind_size (some size) c =
    if within 1 80 size && not (size == c.grind_size)
    then (record c { grind_size = size }, true)
    else (c, false)

unfoldable pub set_rpm : Option ℕ → Coordinator → Coordinator × Bool
set_rpm none c = (c, false)
set_rpm (some rpm) c =
    if within 60 120 rpm && not (rpm == c.rpm) then (record c { rpm = rpm }, true) else (c, false)

-- The slider position of a temperature in tenths of a degree.
unfoldable pub slider_of : ℕ → ℕ
slider_of t = if ltb t 400 then 39 else if ltb 950 t then 96 else round_tenths t

unfoldable pub set_temperature : Option ℕ → Coordinator → Coordinator × Bool
unfolding slider_of
set_temperature none c = (c, false)
set_temperature (some t) c =
    if within 150 1000 t && not (slider_of t == c.temperature)
    then (record c { temperature = slider_of t }, true)
    else (c, false)

unfoldable pub set_pour_pattern : Option ℕ → Coordinator → Coordinator × Bool
set_pour_pattern none c = (c, false)
set_pour_pattern (some pattern) c =
    if leb pattern 2 && not (pattern == c.pour_pattern)
    then (record c { pour_pattern = pattern }, true)
    else (c, false)

unfoldable pub set_volume : ℕ → Coordinator → Coordinator × Bool
set_volume volume c =
    if within 30 500 volume && not (volume == c.volume)
    then (record c { volume = volume }, true)
    else (c, false)

-- One change after another; whether any of them changed a setpoint.
abbrev pub then_set : Coordinator × Bool → (Coordinator → Coordinator × Bool) → Coordinator × Bool
then_set (c, changed) f = ((f c).0, changed || (f c).1)

unfoldable pub apply_brewer_values : Option ℕ → Option ℕ → Coordinator → Coordinator × Bool
unfolding set_temperature set_pour_pattern
apply_brewer_values temperature pattern c =
    then_set (set_temperature temperature c) (set_pour_pattern pattern)

-- The entities are updated when a setpoint changed.
abbrev pub announce : Coordinator × Bool → Coordinator × List Effect
announce (c, changed) = (c, if changed then update_listeners ∷ [] else [])

unfoldable pub apply_grinder_knob :
    Option Client → Option ℕ → Option ℕ → Coordinator → Coordinator × List Effect
unfolding set_grind_size set_rpm
apply_grinder_knob none size rpm c = (c, [])
apply_grinder_knob (some s) size rpm c =
    if not (shows s Screen.grind) || s.grinder_running
    then (c, [])
    else announce (then_set (set_grind_size size c) (set_rpm rpm))

unfoldable pub apply_brewer_knob :
    Option Client → Option ℕ → Option ℕ → Coordinator → Coordinator × List Effect
unfolding apply_brewer_values
apply_brewer_knob none temperature pattern c = (c, [])
apply_brewer_knob (some s) temperature pattern c =
    if not (shows s Screen.pour) || s.brewer_running
    then (c, [])
    else announce (apply_brewer_values temperature pattern c)

-- The snapshot carries whole degrees.
unfoldable pub apply_brewer_page_entry :
    Option Client → ℕ → ℕ → ℕ → Coordinator → Coordinator × List Effect
unfolding apply_brewer_values set_volume
apply_brewer_page_entry status volume temperature pattern c =
    if is_armed c.armed_operation Armed.pour then (c, []) else entered status
  where
    entered : Option Client → Coordinator × List Effect
    entered none = (c, [])
    entered (some s) =
        if not (shows s Screen.pour) || s.brewer_running
        then (c, [])
        else announce (
            then_set (apply_brewer_values (some (temperature * 10)) (some pattern) c)
              (set_volume volume))

-- `_wire_temperature`, in tenths of a degree
unfoldable pub wire_temperature : Coordinator → ℕ
wire_temperature c =
    if leb c.temperature 39 then 200 else if leb 96 c.temperature then 980 else c.temperature * 10
