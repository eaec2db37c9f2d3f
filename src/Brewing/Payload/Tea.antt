-- ===== src/Brewing/Payload/Tea.antt =====
-- The tea payload: one steep of eight bytes for each pour with water, its boundary marked.
use hacs_xbloom.Bytes.{Bytes}
use hacs_xbloom.Prelude.{
  Bool, Option, ℕ, ◌<◌, ◌≤◌, List, arith, min, suc, ◌*◌, if◌then◌else◌, some, ◌+◌, ◌∷◌, ◌≡◌, [],
  false, none, ◌==◌, All, length, refl, ◌++◌, true, lt→ltb,
}
use hacs_xbloom.Ble.Models.{
  Recipe, PourStep, PourPattern, VibrationPattern, vibration_byte, flow_byte,
}
use hacs_xbloom.Prelude.Int.{ℤ, pos, low_byte, pos_part}
use hacs_xbloom.Brewing.Payload.{
  tea_steps, soak_byte, tea_pour, tea_pours, tea_ratio_byte, build_tea_payload,
}

-- One steep as the machine reads it: the water, then the timing.
pub record Steep : Type 0 where
  pub volume : ℕ
  pub temperature : ℕ
  pub pattern_code : ℕ
  pub vibration_code : ℕ
  pub wait : ℕ
  pub soak : ℕ
  pub rpm : ℕ
  pub flow : ℕ

abbrev pub steep_cons : Steep → Option (List Steep) → Option (List Steep)
steep_cons s none = none
steep_cons s (some ss) = some (s ∷ ss)

-- A reader that takes eight bytes for a steep, and wants the boundary mark in the sixth.
unfoldable pub decode_tea : Bytes → Option (List Steep)
decode_tea [] = some []
decode_tea (v ∷ t ∷ p ∷ w ∷ z ∷ s ∷ r ∷ f ∷ rest) =
    if s == 0
    then none
    else steep_cons
        (record {
          volume = v;
          temperature = t;
          pattern_code = p;
          vibration_code = w;
          wait = z;
          soak = s;
          rpm = r;
          flow = f;
        })
        (decode_tea rest)
decode_tea _ = none

-- What the machine is meant to read for a pour.
abbrev pub steep_of : Bool → ℤ → PourStep → Steep
steep_of first rpm pour = record {
  volume = min (pos_part pour.volume) 90;
  temperature = pos_part pour.temperature;
  pattern_code = 1;
  vibration_code = vibration_byte pour.vibration;
  wait = 0;
  soak = soak_byte pour.pausing;
  rpm = if first then low_byte rpm else 0;
  flow = flow_byte pour.flow_rate;
}

abbrev pub steeps_of : Bool → ℤ → List PourStep → List Steep
steeps_of first rpm [] = []
steeps_of first rpm (pour ∷ pours) = steep_of first rpm pour ∷ steeps_of false rpm pours

-- The soak is never 0 and fits a byte. Within its range it is the pause times 0.6, to the nearest.
pub soak_byte_lem :
    (n : ℕ)
    → (1 ≤ soak_byte (pos n))
      × (soak_byte (pos n) ≤ 255)
      × (1 ≤ n
          → n ≤ 425
          → (10 * soak_byte (pos n) ≤ 6 * n + 5) × (6 * n ≤ 10 * soak_byte (pos n) + 5))
unfolding soak_byte
soak_byte_lem n = omega arith

soak_byte_pos : (pausing : ℤ) → 1 ≤ soak_byte pausing
unfolding soak_byte
soak_byte_pos pausing = omega arith

-- A pour that a steep can be made of: water in it, and a temperature that fits a byte, 0 included.
pub data IsSteep : PourStep → Type 0 where
  steep :
      (v t : ℕ) (flow pausing : ℤ) (p : PourPattern) (w : VibrationPattern)
      → 0 < v
      → t < 256
      → IsSteep (record {
        volume = pos v;
        temperature = pos t;
        flow_rate = flow;
        pausing = pausing;
        pattern_of = p;
        vibration = w;
      })

tea_steps-some :
    (fuel v u t : ℕ) (flow pausing : ℤ) (p : PourPattern) (w : VibrationPattern)
    → 0 < v
    → v ≤ 90
    → t < 256
    → tea_steps (suc fuel) v (record {
      volume = pos u;
      temperature = pos t;
      flow_rate = flow;
      pausing = pausing;
      pattern_of = p;
      vibration = w;
    })
      ≡ some (v ∷ t ∷ 1 ∷ vibration_byte w ∷ [])
unfolding tea_steps
tea_steps-some fuel v u t flow pausing p w positive small fits = ground arith

-- The tea body of pours that have water: each pour is one steep.
pub record IsTeaBody (first : Bool) (rpm : ℤ) (pours : List PourStep) (body : Option Bytes)
    : Type 0 where
  pub bytes : Bytes
  pub packs : body ≡ some bytes
  pub reads : decode_tea bytes ≡ some (steeps_of first rpm pours)
  pub size : length bytes ≡ 8 * length pours

decode-steep :
    (v t p w s r f : ℕ) (rest : Bytes) {ss : List Steep}
    → 1 ≤ s
    → decode_tea rest ≡ some ss
    → decode_tea (v ∷ t ∷ p ∷ w ∷ 0 ∷ s ∷ r ∷ f ∷ rest)
      ≡ some (
          record {
            volume = v;
            temperature = t;
            pattern_code = p;
            vibration_code = w;
            wait = 0;
            soak = s;
            rpm = r;
            flow = f;
          }
          ∷ ss)
unfolding decode_tea
decode-steep v t p w s r f rest marked e = rw e (ground arith)

pub tea_pours-IsTeaBody :
    (first : Bool) (rpm : ℤ) (pours : List PourStep)
    → All IsSteep pours
    → IsTeaBody first rpm pours (tea_pours first rpm pours)
unfolding tea_pours tea_pour
tea_pours-IsTeaBody first rpm [] h = record {
  bytes = [];
  packs = refl;
  reads = unfold decode_tea in refl;
  size = refl;
}
tea_pours-IsTeaBody first rpm (pour ∷ pours) (steep v t flow pausing p w wet fits, hs) =
    let later = tea_pours-IsTeaBody false rpm pours hs in
    let steps =
      tea_steps-some (min v 90) (min v 90) v t flow pausing p w (omega arith) (omega arith) fits in
    record {
      bytes =
          min v 90
          ∷ t
          ∷ 1
          ∷ vibration_byte w
          ∷ 0
          ∷ soak_byte pausing
          ∷ (if first then low_byte rpm else 0)
          ∷ flow_byte flow
          ∷ later.bytes;
      packs = rw (steps, later.packs) refl;
      reads = decode-steep _ _ _ _ _ _ _ _ (soak_byte_pos pausing) later.reads;
      size = omega (arith, later.size);
    }

-- Of a recipe of 31 pours or fewer that all have water and a temperature of 0 to 255, the machine
-- reads back one steep for each pour: at most 90 ml, pattern 1, no wait, and the boundary mark set.
pub build_tea_payload_lem :
    (recipe : Recipe)
    → All IsSteep recipe.pours
    → length recipe.pours ≤ 31
    → (body : Bytes) × (build_tea_payload recipe
        ≡ some (length body ∷ (body ++ low_byte recipe.grind_size ∷ tea_ratio_byte recipe ∷ [])))
      × (decode_tea body ≡ some (steeps_of true recipe.rpm recipe.pours))
unfolding build_tea_payload
build_tea_payload_lem recipe h few =
    let b = tea_pours-IsTeaBody true recipe.rpm recipe.pours h in
    (b.bytes, rw (b.packs, lt→ltb (length b.bytes) 256 (omega (arith, b.size))) refl, b.reads)
