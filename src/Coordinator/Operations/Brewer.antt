-- ===== src/Coordinator/Operations/Brewer.antt =====
-- ble/components.py: BrewerController. `f32` gives the bits of the float32 of a number of tenths.
use hacs_xbloom.Prelude.{some, Option, [], ℕ, ◌∷◌, ◌*◌, ◌++◌, none}
use hacs_xbloom.Prelude.Int.{ℤ, pos}
use hacs_xbloom.Ble.Constants.{Command}
use hacs_xbloom.Bytes.{Bytes, pack_u32}
use hacs_xbloom.Brewing.Link.{Line, Action, packed, ◌>>=◌, send_command, send_command_raw}

abbrev join : Option Bytes → Option Bytes → Option Bytes
join (some a) (some b) = some (a ++ b)
join _ _ = none

-- struct.pack("<5I", flow, volume, temperature, water_source, pattern)
unfoldable pub pack_start : ℕ → ℕ → ℕ → ℕ → ℕ → Option Bytes
pack_start flow volume temperature source pattern = join (pack_u32 flow) (
    join (pack_u32 volume)
      (join (pack_u32 temperature) (join (pack_u32 source) (pack_u32 pattern))))

module _ (line : Line) where
  unfoldable pub enter_mode : Action
  enter_mode = send_command line Command.brewer_in []

  -- The volume in ml, the temperature in tenths of a degree, the flow rate in hundredths of ml/s.
  unfoldable pub start : (ℤ → ℕ) → ℕ → ℕ → ℤ → ℕ → ℕ → Action
  unfolding pack_start
  start f32 volume temperature flow_rate pattern water_source = do
    payload ← packed (
        pack_start (f32 flow_rate) (f32 (pos (volume * 100))) (f32 (pos (temperature * 10)))
          water_source pattern)
    send_command_raw line Command.brewer_start payload 1

  -- round(temperature * 10)
  unfoldable pub set_temperature : ℕ → Action
  set_temperature temperature = send_command line Command.brewer_set_temperature (temperature ∷ [])

  unfoldable pub set_pattern : ℕ → Action
  set_pattern pattern = send_command line Command.brewer_set_pattern (pattern ∷ [])

  unfoldable pub stop : Action
  stop = send_command line Command.brewer_stop []

  unfoldable pub pause : Action
  pause = send_command line Command.brewer_pause []

  unfoldable pub restart : Action
  restart = send_command line Command.brewer_restart []
