-- ===== src/Ble/Client/Heartbeat.antt =====
-- The status heartbeat: `_scan_for_status_frame`, `_update_brew_context`, `_state_label_for` and
-- their tables.
pub mod Calibration
pub mod Context
use hacs_xbloom.Prelude.{
  ℕ, ◌-◌, Bool, true, false, not, ◌&&◌, ◌||◌, Option, none, some, [], ◌∷◌, ltb, leb, ◌==◌,
  if◌then◌else◌, length, take, drop, List,
}
use hacs_xbloom.Bytes.{Bytes, byte_at}
use hacs_xbloom.Ble.Models.{DeviceState, idle, grinding, brewing, paused}
use hacs_xbloom.Ble.Client.{Client, StateLabel, Screen, home, grind, pour, scale, settings}

-- _RAW_STATE_LABEL_MAP
unfoldable pub raw_state_label_of : ℕ → Option StateLabel
raw_state_label_of code =
    if code == 0x0c
    then some StateLabel.water_shortage
    else if code == 0x0f
    then some StateLabel.no_beans
    else if code == 0x1e
    then some StateLabel.awaiting_confirm
    else if code == 0x1f
    then some StateLabel.recipe_loaded
    else if code == 0x22
    then some StateLabel.starting
    else if code == 0x10 || code == 0x23 || code == 0x3b || code == 0x45
    then some StateLabel.brewing
    else if code == 0x24
    then some StateLabel.ready
    else if code == 0x26 || code == 0x27
    then some StateLabel.calibrating_grinder
    else if code == 0x2f || code == 0x32
    then some StateLabel.descaling
    else if code == 0x39 || code == 0x3a
    then some StateLabel.calibrating_scale
    else none

-- _SCREEN_CODE_MAP
unfoldable pub screen_of : ℕ → Option Screen
screen_of code =
    if code == 0x01 || code == 0x41
    then some home
    else if code == 0x02 || code == 0x06 || code == 0x07
    then some grind
    else if code == 0x03 || code == 0x08 || code == 0x09
    then some pour
    else if code == 0x04 || code == 0x05
    then some scale
    else if code == 0x17 || code == 0x18 || code == 0x19
    then some settings
    else none

abbrev pub is_some {ℓ} : {A : Type ℓ} → Option A → Bool
is_some none = false
is_some (some a) = true

-- _SCALE_CAL_ENTRY_CODES and _SCALE_CAL_STEP_CODES
unfoldable pub is_scale_cal_arming : ℕ → Bool
is_scale_cal_arming code = code == 0x39 || code == 0x3a || code == 0x3c || code == 0x3f

-- _CALIBRATION_DONE_CODE
abbrev pub calibration_done_code : ℕ
calibration_done_code = 0x25

-- _SCALE_CAL_AMBIGUOUS_CODES
abbrev pub is_scale_cal_ambiguous : ℕ → Bool
is_scale_cal_ambiguous code = code == 0x3b

-- _BREW_CONTEXT_CODES
unfoldable pub is_brew_context_code : ℕ → Bool
is_brew_context_code code =
    code == 0x1e || code == 0x1f || code == 0x22 || code == 0x10 || code == 0x23

unfoldable pub ends_scale_calibration : ℕ → Bool
ends_scale_calibration code =
    if code == calibration_done_code
    then true
    else if is_scale_cal_arming code || is_scale_cal_ambiguous code
    then false
    else is_some (raw_state_label_of code) || is_some (screen_of code)

-- membership in _ENDS_BREW_CONTEXT_LABELS
abbrev pub is_ending_label : Option StateLabel → Bool
is_ending_label (some StateLabel.ready) = true
is_ending_label (some StateLabel.descaling) = true
is_ending_label (some StateLabel.calibrating_grinder) = true
is_ending_label (some StateLabel.calibrating_scale) = true
is_ending_label _ = false

unfoldable pub ends_brew_context : ℕ → Bool
ends_brew_context code =
    if code == calibration_done_code || is_some (screen_of code)
    then true
    else is_ending_label (raw_state_label_of code)

unfoldable pub update_scale_calibrating : ℕ → Bool → Bool
update_scale_calibrating code armed =
    if is_scale_cal_arming code
    then true
    else if armed && ends_scale_calibration code
    then false
    else armed

unfoldable pub update_brew_context : ℕ → Bool → Bool → Bool
update_brew_context code calibrating context =
    if calibrating
    then false
    else if is_brew_context_code code
    then true
    else if ends_brew_context code
    then false
    else context

unfoldable pub state_label_for : ℕ → Client → Option StateLabel
state_label_for code c =
    if c.scale_calibrating
    then some StateLabel.calibrating_scale
    else if is_scale_cal_ambiguous code
        && not c.brew_context
        && not c.brewer_running
        && not c.grinder_running
    then none
    else raw_state_label_of code

abbrev pub settle_state : DeviceState → DeviceState
settle_state DeviceState.grinding = DeviceState.idle
settle_state DeviceState.brewing = DeviceState.idle
settle_state DeviceState.paused = DeviceState.idle
settle_state s = s

-- the last block: a page means that nothing runs
abbrev pub page_shown : Option Screen → Client → Client
page_shown none c = c
page_shown (some s) c = record c {
  last_page = some s;
  grinder_running = false;
  brewer_running = false;
  state = settle_state c.state;
}

-- One status code, in the order of `_scan_for_status_frame`.
unfoldable pub status_code : ℕ → Client → Client
status_code code c =
    let calibrating = update_scale_calibrating code c.scale_calibrating in
    let c1 = record c {
      scale_calibrating = calibrating;
      brew_context = update_brew_context code calibrating c.brew_context;
    } in
    page_shown (screen_of code) (record c1 {
      raw_state_label = state_label_for code c1;
      screen_code = some code;
      screen = screen_of code;
    })

-- A frame of more than 12 bytes with 0x57 for its low command byte carries a code.
unfoldable pub scan_for_status_frame : Bytes → Client → Client
scan_for_status_frame raw c =
    if leb (length raw) 12 || not (byte_at raw 3 == 0x57) then c else status_code (byte_at raw 10) c

-- A sequence of codes, as the heartbeat delivers it.
unfoldable pub status_codes : List ℕ → Client → Client
status_codes [] c = c
status_codes (code ∷ codes) c = status_codes codes (status_code code c)
