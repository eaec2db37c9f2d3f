-- ===== src/Coordinator/Knobs/Wire.antt =====
-- The temperature slider and the temperature on the wire.
use hacs_xbloom.Prelude.{ℕ, ◌≤◌, arith, some, ◌≡◌, false, ◌+◌}
use hacs_xbloom.Coordinator.{Coordinator}
use hacs_xbloom.Coordinator.Knobs.{wire_temperature, slider_of, set_temperature}

-- The temperature that the machine shows for a slider position, read back, gives the position: for
-- every position of the slider, its two ends for room temperature and boiling included, the push
-- followed by the mirror changes nothing.
pub set_temperature-wire :
    (c : Coordinator)
    → 39 ≤ c.temperature
    → c.temperature ≤ 96
    → set_temperature (some (wire_temperature c)) c ≡ (c, false)
unfolding set_temperature wire_temperature
set_temperature-wire c low high = ground arith

-- Every temperature that the knob can report lands on the slider, and the temperature sent for that
-- position is the one reported, up to half a degree in between.
pub slider_of_bounds : (t : ℕ) → (39 ≤ slider_of t) × (slider_of t ≤ 96)
unfolding slider_of
slider_of_bounds t = ground arith

pub wire-slider :
    (t : ℕ) (c : Coordinator)
    → c.temperature ≡ slider_of t
    → 400 ≤ t
    → t ≤ 949
    → (t ≤ wire_temperature c + 5) × (wire_temperature c ≤ t + 5)
unfolding slider_of wire_temperature
wire-slider t c e low high = ground arith
