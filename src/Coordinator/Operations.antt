-- ===== src/Coordinator/Operations.antt =====
-- coordinator/operations.py: the manual operations (arm, confirm, pause, cancel, the scale, the
-- pushes to an open page) over the controllers of ble/components.py.
--
-- An operation maps the coordinator and what has been sent to its answer, the coordinator and what
-- has been sent then. The pauses between commands are not modelled; nothing else runs meanwhile.
pub mod Brewer
pub mod Grinder
pub mod Retry
pub mod Sends
pub mod Stop
pub mod TwoStage
mod Tests
use hacs_xbloom.Coordinator.Units.{water_source_code}
use hacs_xbloom.Coordinator.Knobs.{wire_temperature, shows}
use hacs_xbloom.Coordinator.Connection.{async_ensure_connected}
use hacs_xbloom.Prelude.{Bool, Option, false, ℕ, if◌then◌else◌, none, some, true, not, ◌&&◌}
use hacs_xbloom.Prelude.Int.{ℤ}
use hacs_xbloom.Coordinator.Operations.Retry.{Sleep, retry_while_sleeping}
use hacs_xbloom.Coordinator.Operations.Brewer as Brewer
use hacs_xbloom.Coordinator.Operations.Grinder as Grinder
use hacs_xbloom.Coordinator.{
  Coordinator, Effect, Armed, Operation, manual_grind, manual_pour, is_armed,
}
use hacs_xbloom.Coordinator.State.{MachineState}
use hacs_xbloom.Ble.Constants.{Command}
use hacs_xbloom.Ble.Client.{Client, Screen}
use hacs_xbloom.Brewing.Link.{Line, Action, Outcome, Sent, ◌>>=◌, ◌>>◌, send_command, done, failed}
use hacs_xbloom.Brewing.Chain.{tare, enter_scale, exit_scale}

-- _ARMED_QUIT_COMMANDS
abbrev pub armed_quit_command : Armed → Command
armed_quit_command Armed.grind = Command.grinder_quit
armed_quit_command Armed.pour = Command.brewer_quit
armed_quit_command Armed.recipe = Command.recipe_start_quit

abbrev pub Answer : Type 0
Answer = Coordinator × Bool × Sent

abbrev pub succeeded {ℓ} : {A : Type ℓ} → Outcome A → Bool
succeeded (done _) = true
succeeded (failed _) = false

-- `if not await self._async_ensure_connected(): return False`
abbrev pub when_connected : Sleep → Coordinator → Sent → (Coordinator → Answer) → Answer
when_connected sleep c s k =
    let (ensured, connected) = async_ensure_connected sleep.now sleep.answered c in
    if connected then k ensured else (ensured, false, s)

-- `_grind_page_open` and `_pour_page_open`
unfoldable pub grind_page_open : Option Client → Bool
grind_page_open none = false
grind_page_open (some s) = shows s Screen.grind && not s.grinder_running

unfoldable pub pour_page_open : Option Client → Bool
pour_page_open none = false
pour_page_open (some s) = shows s Screen.pour && not s.brewer_running

module _ (line : Line) (f32 : ℤ → ℕ) (sleep : Sleep) where
  -- The action under the retry; a failure is logged and answered with `false`.
  abbrev pub retried : Action → Coordinator → Sent → (Coordinator → Coordinator) → Answer
  retried action c s finally =
      let (woken, outcome, log) = retry_while_sleeping line sleep action c s in
      (finally woken, succeeded outcome, log)

  abbrev pub pour_start : Coordinator → Action
  pour_start c =
      Brewer.start line f32 c.volume (wire_temperature c) c.flow_rate c.pour_pattern
        (water_source_code c.water_source)

  unfoldable pub async_pour : Coordinator → Sent → Answer
  async_pour c s =
      when_connected sleep c s
        λ e. retried (pour_start e) (record e { active_operation = some manual_pour }) s (λ r. r)

  -- The setpoints go to the page that has been opened; a failure is ignored.
  abbrev pub push_setpoints : Coordinator → Action
  push_setpoints c = do
    Brewer.set_temperature line (wire_temperature c)
    Brewer.set_pattern line c.pour_pattern

  abbrev pub armed_pour : Coordinator × Outcome {0} Unit × Sent → Answer
  armed_pour (c, failed _, s) = (c, false, s)
  armed_pour (c, done _, s) =
      let armed = record c { armed_operation = some Armed.pour } in
      (armed, true, (push_setpoints armed s).1)

  unfoldable pub async_arm_pour : Coordinator → Sent → Answer
  async_arm_pour c s =
      when_connected sleep c s
        λ e. armed_pour (retry_while_sleeping line sleep (Brewer.enter_mode line) e s)

  abbrev pub disarm : Coordinator → Coordinator
  disarm c = record c { armed_operation = none }

  unfoldable pub async_confirm_pour : Coordinator → Sent → Answer
  async_confirm_pour c s =
      when_connected sleep c s
        λ e. retried (pour_start e) (record e { active_operation = some manual_pour }) s disarm

  unfoldable pub async_grind : Coordinator → Sent → Answer
  async_grind c s = when_connected sleep c s λ e.
      retried (Grinder.start line e.grind_size e.rpm)
        (record e { active_operation = some manual_grind }) s (λ r. r)

  abbrev pub armed_grind : Coordinator × Outcome {0} Unit × Sent → Answer
  armed_grind (c, failed _, s) = (c, false, s)
  armed_grind (c, done _, s) = (record c { armed_operation = some Armed.grind }, true, s)

  unfoldable pub async_arm_grind : Coordinator → Sent → Answer
  async_arm_grind c s = when_connected sleep c s λ e.
      armed_grind (retry_while_sleeping line sleep (Grinder.enter_mode line e.grind_size e.rpm) e s)

  unfoldable pub async_confirm_grind : Coordinator → Sent → Answer
  async_confirm_grind c s = when_connected sleep c s λ e.
      retried (Grinder.confirm_start line e.grind_size e.rpm)
        (record e { active_operation = some manual_grind }) s disarm

  -- async_tare_scale, async_enter_scale_mode, async_exit_scale_mode
  unfoldable pub async_tare_scale : Coordinator → Sent → Answer
  async_tare_scale c s = when_connected sleep c s λ e. retried (tare line (λ _. 0)) e s (λ r. r)

  unfoldable pub async_enter_scale_mode : Coordinator → Sent → Answer
  async_enter_scale_mode c s =
      when_connected sleep c s λ e. retried (enter_scale line (λ _. 0)) e s (λ r. r)

  unfoldable pub async_exit_scale_mode : Coordinator → Sent → Answer
  async_exit_scale_mode c s =
      when_connected sleep c s λ e. retried (exit_scale line (λ _. 0)) e s (λ r. r)

  -- One send whose failure is ignored.
  abbrev best_effort : Action → Coordinator → Sent → Answer
  best_effort action c s = let (outcome, log) = action s in (c, succeeded outcome, log)

  unfoldable pub async_sync_armed_grinder_settings : Option Client → Coordinator → Sent → Answer
  unfolding grind_page_open
  async_sync_armed_grinder_settings status c s =
      if not (is_armed c.armed_operation Armed.grind) && not (grind_page_open status)
      then (c, false, s)
      else when_connected sleep c s
          λ e. best_effort (Grinder.enter_mode line e.grind_size e.rpm) e s

  unfoldable pub async_sync_armed_brewer_temperature : Option Client → Coordinator → Sent → Answer
  unfolding pour_page_open
  async_sync_armed_brewer_temperature status c s =
      if not (is_armed c.armed_operation Armed.pour) && not (pour_page_open status)
      then (c, false, s)
      else when_connected sleep c s
          λ e. best_effort (Brewer.set_temperature line (wire_temperature e)) e s

  unfoldable pub async_sync_armed_brewer_pattern : Option Client → Coordinator → Sent → Answer
  unfolding pour_page_open
  async_sync_armed_brewer_pattern status c s =
      if not (is_armed c.armed_operation Armed.pour) && not (pour_page_open status)
      then (c, false, s)
      else when_connected sleep c s λ e. best_effort (Brewer.set_pattern line e.pour_pattern) e s
