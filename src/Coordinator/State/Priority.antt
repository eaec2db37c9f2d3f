-- ===== src/Coordinator/State/Priority.antt =====
-- What the shown state says of the machine and of the bookkeeping.
use hacs_xbloom.Prelude.{none, ◌≡◌, false, ◌&&◌, ◌↔◌, some, arith, ◌||◌, ◌⊎◌}
use hacs_xbloom.Coordinator.{Coordinator, Armed, is_armed}
use hacs_xbloom.Coordinator.State.{MachineState, derive_state_string, may_pause, standalone}
use hacs_xbloom.Ble.Client.{Client, Screen}
use hacs_xbloom.Ble.Models.{DeviceState}

-- The reasons for another state that come before the machine's page.
abbrev pub IsUneventful : Client → Coordinator → Type 0
IsUneventful s c =
    (is_armed c.armed_operation Armed.recipe ≡ false)
    × (s.is_calibrating_grinder ≡ false)
    × (c.water_shortage ≡ false)
    × (s.is_sleeping ≡ false)
    × (s.raw_state_label ≡ none)

-- "idle" is shown only if no recipe is armed, the grinder is not being calibrated, no water is
-- missing, the machine is awake and reports no activity, no pause of ours is shown, the machine
-- says of itself that it is idle or nothing, and unless a motor runs its page is not one of the
-- grinder, the brewer and the scale.
pub idle-IsUneventful :
    (s : Client) (c : Coordinator)
    → derive_state_string s c ≡ MachineState.idle
    → IsUneventful s c
      × ((c.manual_paused && may_pause s.screen) ≡ false)
      × ((s.grinder_running || s.brewer_running) ≡ false → standalone s.screen ≡ none)
      × ((s.state ≡ DeviceState.idle) ⊎ (s.state ≡ DeviceState.unknown))
unfolding derive_state_string
idle-IsUneventful s c h = ground arith

-- "armed_recipe" is shown exactly if a recipe is armed.
pub armed_recipe_iff :
    (s : Client) (c : Coordinator)
    → (derive_state_string s c ≡ MachineState.armed_recipe)
      ↔ (c.armed_operation ≡ some Armed.recipe)
unfolding derive_state_string
armed_recipe_iff s c = ground arith

-- The page of the pour is shown as standing by exactly if nothing of higher rank is to be shown,
-- no pause of ours, and either the machine reports the page with both motors still, or it reports no
-- page and a pour is armed.
pub standalone_pour_iff :
    (s : Client) (c : Coordinator)
    → (derive_state_string s c ≡ MachineState.standalone_pour) ↔ (
        IsUneventful s c
        × (c.manual_paused && may_pause s.screen ≡ false)
        × ((s.screen ≡ some Screen.pour) × ((s.grinder_running || s.brewer_running) ≡ false)
            ⊎ (s.screen ≡ none) × (c.armed_operation ≡ some Armed.pour)))
unfolding derive_state_string
standalone_pour_iff s c = ground arith
