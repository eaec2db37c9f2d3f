-- ===== src/Ble/Models/Decode.antt =====
-- A reader of the recipe body that knows only the layout: groups of four bytes, where a group with
-- a zero second byte closes a pour. Used as the specification of the body.
-- One pour as the machine reads it.
use hacs_xbloom.Bytes.{Bytes}
use hacs_xbloom.Prelude.{Option, ℕ, List, some, ◌∷◌, none, ◌+◌, if◌then◌else◌, ◌==◌, []}

pub record WirePour : Type 0 where
  pub volume : ℕ
  pub temperature : ℕ
  pub pattern_code : ℕ
  pub vibration_code : ℕ
  pub pause : ℕ
  pub rpm : ℕ
  pub flow : ℕ

-- The steps of a pour that are read so far.
pub record OpenPour : Type 0 where
  pub volume : ℕ
  pub temperature : ℕ
  pub pattern_code : ℕ
  pub vibration_code : ℕ

abbrev pub no_steps : OpenPour
no_steps = record { volume = 0; temperature = 0; pattern_code = 0; vibration_code = 0 }

abbrev pub close_pour : OpenPour → ℕ → ℕ → ℕ → WirePour
close_pour o pause rpm flow = record {
  volume = o.volume;
  temperature = o.temperature;
  pattern_code = o.pattern_code;
  vibration_code = o.vibration_code;
  pause = pause;
  rpm = rpm;
  flow = flow;
}

abbrev pub wire_cons : WirePour → Option (List WirePour) → Option (List WirePour)
wire_cons w none = none
wire_cons w (some ws) = some (w ∷ ws)

unfoldable pub decode_body : OpenPour → Bytes → Option (List WirePour)
decode_body o [] = some []
decode_body o (a ∷ b ∷ c ∷ d ∷ rest) =
    let closed = wire_cons (close_pour o a c d) (decode_body no_steps rest) in
    let more =
      decode_body
        (record { volume = o.volume + a; temperature = b; pattern_code = c; vibration_code = d })
        rest in
    if b == 0 then closed else more
decode_body o _ = none
