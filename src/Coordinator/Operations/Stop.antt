-- ===== src/Coordinator/Operations/Stop.antt =====
-- coordinator/operations.py: `async_pause_resume` and `async_cancel`.
pub mod Cancel
pub mod Pause
use hacs_xbloom.Coordinator.Operations.{armed_quit_command}
use hacs_xbloom.Coordinator.Connection.{async_ensure_connected}
use hacs_xbloom.Coordinator.Operations.Retry.{Sleep}
use hacs_xbloom.Prelude.{
  Bool, List, Option, false, if◌then◌else◌, ℕ, [], none, some, true, ◌∷◌, not, suc, ◌&&◌, ◌||◌,
  zero,
}
use hacs_xbloom.Coordinator.Operations.Brewer as Brewer
use hacs_xbloom.Coordinator.Operations.Grinder as Grinder
use hacs_xbloom.Coordinator.{
  Coordinator, Effect, Armed, Operation, manual_grind, manual_pour, update_listeners, is_none,
}
use hacs_xbloom.Coordinator.State.{MachineState}
use hacs_xbloom.Ble.Constants.{Command}
use hacs_xbloom.Brewing.Link.{
  Line, Action, Outcome, Sent, ◌>>=◌, ◌>>◌, give, send_command, done, failed,
}

abbrev pub is_paused : MachineState → Bool
is_paused MachineState.paused = true
is_paused _ = false

-- `state in ("starting", "brewing", "grinding")`
abbrev pub is_pausable : MachineState → Bool
is_pausable MachineState.starting = true
is_pausable MachineState.brewing = true
is_pausable MachineState.grinding = true
is_pausable _ = false

-- The bookkeeping that cancel clears before any command.
unfoldable pub clear_bookkeeping : Coordinator → Coordinator
clear_bookkeeping c = record c {
  executing_recipe = false;
  active_recipe_pours = none;
  current_pour_index = none;
  active_operation = none;
  manual_paused = false;
  manual_run_seen = false;
  manual_pause_seen = false;
  armed_operation = none;
  armed_recipe_is_tea = false;
  armed_recipe_tea_payload = none;
  pod_prompt_active = false;
}

-- The screens to quit: that of what is armed, and the machine's own prompt.
unfoldable pub quit_commands : Option Armed → Bool → List Command
quit_commands none false = []
quit_commands none true = Command.recipe_start_quit ∷ []
quit_commands (some Armed.recipe) prompt = Command.recipe_start_quit ∷ []
quit_commands (some armed) false = armed_quit_command armed ∷ []
quit_commands (some armed) true = armed_quit_command armed ∷ Command.recipe_start_quit ∷ []

-- `polls` are the readings of `is_running`; all of the ten show the component running.
abbrev pub keeps_running : ℕ → (ℕ → Bool) → Bool
keeps_running zero polls = true
keeps_running (suc n) polls = polls n && keeps_running n polls

abbrev pub stop_verify_attempts : ℕ
stop_verify_attempts = 10

module _ (line : Line) where
  abbrev pub send_all : List Command → Action
  send_all [] = give tt
  send_all (command ∷ rest) = do send_command line command []; send_all rest

  -- `_async_verify_component_stop`, with the stop of the component
  unfoldable pub verify_component_stop : Action → (ℕ → Bool) → Action
  verify_component_stop stop polls =
      if keeps_running stop_verify_attempts polls then stop else give tt

  abbrev pub stop_operation : Option Operation → (ℕ → Bool) → Action
  stop_operation (some manual_grind) polls = do
    Grinder.stop line
    verify_component_stop (Grinder.stop line) polls
    send_command line Command.grinder_quit []
  stop_operation (some manual_pour) polls = do
    Brewer.stop line
    verify_component_stop (Brewer.stop line) polls
    send_command line Command.brewer_quit []
  stop_operation _ polls = send_command line Command.recipe_stop []

  abbrev pub cancel_commands : List Command → Option Operation → (ℕ → Bool) → Action
  cancel_commands [] operation polls = stop_operation operation polls
  cancel_commands (command ∷ rest) operation polls = send_all (command ∷ rest)

  unfoldable pub async_cancel :
      Sleep → (ℕ → Bool) → Coordinator → Sent → Coordinator × List Effect × Sent
  unfolding clear_bookkeeping quit_commands verify_component_stop
  async_cancel sleep polls c s =
      let (ensured, connected) =
        async_ensure_connected sleep.now sleep.answered (clear_bookkeeping c) in
      if connected
      then (
        ensured,
        [],
        (cancel_commands (quit_commands c.armed_operation c.pod_prompt_active) c.active_operation
            polls s).1,
      )
      else (ensured, update_listeners ∷ [], s)

  abbrev pub controller_restart : Operation → Action
  controller_restart manual_grind = Grinder.restart line
  controller_restart _ = Brewer.restart line

  abbrev pub controller_pause : Operation → Action
  controller_pause manual_grind = Grinder.pause line
  controller_pause _ = Brewer.pause line

  abbrev pub after_send :
      Outcome {0} Unit × Sent → (Coordinator → Coordinator) → Coordinator → Coordinator × Sent
  after_send (done _, s) f c = (f c, s)
  after_send (failed _, s) f c = (c, s)

  abbrev pub pause_manual : Operation → MachineState → Coordinator → Sent → Coordinator × Sent
  pause_manual op state c s =
      if is_paused state
      then after_send (controller_restart op s) (λ r. record r { manual_pause_seen = true }) c
      else after_send (controller_pause op s)
          (λ r. record r { manual_paused = true; manual_pause_seen = false }) c

  abbrev pub pause_recipe : MachineState → Coordinator → Sent → Coordinator × Sent
  pause_recipe state c s =
      if is_paused state
      then (c, (send_command line Command.recipe_restart [] s).1)
      else if is_pausable state
      then (c, (send_command line Command.recipe_pause [] s).1)
      else (c, s)

  abbrev pub pause_running :
      Option Operation → MachineState → Coordinator → Sent → Coordinator × Sent
  pause_running (some manual_grind) state c s = pause_manual manual_grind state c s
  pause_running (some manual_pour) state c s = pause_manual manual_pour state c s
  pause_running _ state c s = pause_recipe state c s

  -- `state`: the state in the last data
  unfoldable pub async_pause_resume : Sleep → MachineState → Coordinator → Sent → Coordinator × Sent
  async_pause_resume sleep state c s =
      let (ensured, connected) = async_ensure_connected sleep.now sleep.answered c in
      if not connected || not (is_none ensured.armed_operation)
      then (ensured, s)
      else pause_running ensured.active_operation state ensured s
