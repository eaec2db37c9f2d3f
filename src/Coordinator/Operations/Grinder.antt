-- ===== src/Coordinator/Operations/Grinder.antt =====
-- ble/components.py: GrinderController. The target that it remembers is written before every read,
-- so it is an argument here.
use hacs_xbloom.Prelude.{[], ℕ, ◌∷◌}
use hacs_xbloom.Ble.Constants.{Command}
use hacs_xbloom.Brewing.Link.{Line, Action, ◌>>◌, send_command}

module _ (line : Line) where
  unfoldable pub enter_mode : ℕ → ℕ → Action
  enter_mode size speed = send_command line Command.grinder_in (size ∷ speed ∷ [])

  -- `confirm_start` is `_send_start` behind the assignment of the target
  unfoldable pub confirm_start : ℕ → ℕ → Action
  confirm_start size speed = send_command line Command.grinder_start (1000 ∷ size ∷ speed ∷ [])

  unfoldable pub start : ℕ → ℕ → Action
  unfolding enter_mode confirm_start
  start size speed = do enter_mode size speed; confirm_start size speed

  unfoldable pub stop : Action
  stop = send_command line Command.grinder_stop []

  unfoldable pub pause : Action
  pause = send_command line Command.grinder_pause []

  unfoldable pub restart : Action
  restart = send_command line Command.grinder_restart []
