-- ===== src/Ble/Models/Body.antt =====
-- The recipe body, read back by the machine, for pours with a temperature of 1 to 255 degrees. The
-- checks let a temperature of 0 pass too, which the reader takes for the end of a pour.
use hacs_xbloom.Bytes.{Bytes, ◌>>=◌}
use hacs_xbloom.Prelude.{
  Bool, ℕ, List, ◌<◌, some, ◌∷◌, [], concat, false, ◌++◌, ◌≡◌, replicate, ◌+◌, arith, suc, ◌*◌,
  zero, Option, ap, if◌then◌else◌, refl, ◌∙◌, lt→ltb, Bool-cases, ltb, append-nil, inl,
  append_assoc, ◌/◌, ◌%◌, inr, All, ◌≤◌, none, ◌≢◌,
}
use hacs_xbloom.Ble.Models.{
  PourStep, PourPattern, VibrationPattern, sub_step, sub_steps, repeat_step, pours_bytes,
  check_pour, pattern_byte, vibration_byte, flow_byte,
}
use hacs_xbloom.Ble.Models.Decode.{WirePour, OpenPour, no_steps, close_pour, wire_cons, decode_body}
use hacs_xbloom.Prelude.Int.{ℤ, pos, negsuc, low_byte, neg, pos_part, ltb_ℤ}

-- A pour that can be sent: a volume, and a temperature of one to 255 degrees.
pub data IsBrewable : PourStep → Type 0 where
  brewable :
      (v t : ℕ) (flow pausing : ℤ) (p : PourPattern) (w : VibrationPattern)
      → 0 < t
      → t < 256
      → IsBrewable (record {
        volume = pos v;
        temperature = pos t;
        flow_rate = flow;
        pausing = pausing;
        pattern_of = p;
        vibration = w;
      })

-- What the machine is meant to read for a pour.
abbrev pub wire_pour : Bool → ℤ → PourStep → WirePour
wire_pour first rpm pour = record {
  volume = pos_part pour.volume;
  temperature = pos_part pour.temperature;
  pattern_code = pattern_byte pour.pattern_of;
  vibration_code = vibration_byte pour.vibration;
  pause = low_byte (neg pour.pausing);
  rpm = if first then low_byte rpm else 0;
  flow = flow_byte pour.flow_rate;
}

abbrev pub wire_pours : Bool → ℤ → List PourStep → List WirePour
wire_pours first rpm [] = []
wire_pours first rpm (pour ∷ pours) = wire_pour first rpm pour ∷ wire_pours false rpm pours

module _ (t p w : ℕ) where
  abbrev group : ℕ → Bytes
  group v = v ∷ t ∷ p ∷ w ∷ []

  abbrev groups : ℕ → Bytes
  groups k = concat (replicate k (group 127))

  abbrev opened : ℕ → OpenPour
  opened v = record { volume = v; temperature = t; pattern_code = p; vibration_code = w }

  repeat_step-some : (k : ℕ) → repeat_step k (some (group 127)) ≡ some (groups k)
  repeat_step-some zero = refl
  repeat_step-some (suc k) = rw (repeat_step-some k) refl

decode-metadata :
    (o : OpenPour) (a c d : ℕ) (rest : Bytes)
    → decode_body o (a ∷ 0 ∷ c ∷ d ∷ rest)
      ≡ wire_cons (close_pour o a c d) (decode_body no_steps rest)
unfolding decode_body
decode-metadata o a c d rest = refl

module _ (t p w : ℕ) (hot : 0 < t) where
  decode-group :
      (o : OpenPour) (v n : ℕ) (rest : Bytes)
      → o.volume + v ≡ n
      → decode_body o (group t p w v ++ rest) ≡ decode_body (opened t p w n) rest
  unfolding decode_body
  decode-group o v n rest e = ground arith

  decode-groups :
      (k u n : ℕ) (rest : Bytes)
      → u + k * 127 ≡ n
      → decode_body (opened t p w u) (groups t p w k ++ rest) ≡ decode_body (opened t p w n) rest
  decode-groups zero u n rest e =
      ap (λ x. decode_body (opened t p w x) rest) (let e' : u ≡ n = omega arith in e')
  decode-groups (suc k) u n rest e =
      decode-group (opened t p w u) 127 (u + 127) (groups t p w k ++ rest) refl
      ∙ decode-groups k (u + 127) n rest (omega arith)

  -- the same for a pour of which nothing is read yet, and one step at least
  decode-first_groups :
      (k n : ℕ) (rest : Bytes)
      → 0 < k
      → k * 127 ≡ n
      → decode_body no_steps (groups t p w k ++ rest) ≡ decode_body (opened t p w n) rest
  decode-first_groups zero n rest pos_k e = absurd (omega arith)
  decode-first_groups (suc k) n rest pos_k e =
      decode-group no_steps 127 127 (groups t p w k ++ rest) refl
      ∙ decode-groups k 127 n rest (omega arith)

-- The steps of a pour: they exist, and the reader adds their volumes up to the pour's.
pub record IsSteps (t p w v : ℕ) (steps : Option Bytes) : Type 0 where
  pub bytes : Bytes
  pub packs : steps ≡ some bytes
  pub reads :
      (rest : Bytes) → decode_body no_steps (bytes ++ rest) ≡ decode_body (opened t p w v) rest

module _ (v t : ℕ) (flow pausing : ℤ) (p : PourPattern) (w : VibrationPattern) (hot : 0 < t)
    (fits : t < 256) where
  abbrev pour : PourStep
  pour = record {
    volume = pos v;
    temperature = pos t;
    flow_rate = flow;
    pausing = pausing;
    pattern_of = p;
    vibration = w;
  }

  abbrev step_group : ℕ → Bytes
  step_group = group t (pattern_byte p) (vibration_byte w)

  sub_step-some : (n : ℕ) → n < 256 → sub_step (pos n) pour ≡ some (step_group n)
  unfolding sub_step
  sub_step-some n h = rw (lt→ltb n 256 h, lt→ltb t 256 fits) refl

  small-IsSteps : v < 128 → IsSteps t (pattern_byte p) (vibration_byte w) v (sub_step (pos v) pour)
  small-IsSteps h = record {
    bytes = step_group v;
    packs = sub_step-some v (omega arith);
    reads = λ rest.
        decode-group t (pattern_byte p) (vibration_byte w) hot no_steps v v rest (omega arith);
  }

  -- the whole steps of 127 ml, and the rest if there is one
  large-IsSteps :
      (k r : ℕ)
      → 0 < k
      → r < 127
      → k * 127 + r ≡ v
      → IsSteps t (pattern_byte p) (vibration_byte w) v (do
        full ← repeat_step k (sub_step (pos 127) pour)
        last ← (if ltb 0 r then sub_step (pos r) pour else some [])
        some (full ++ last))
  large-IsSteps k zero pos_k small e = record {
    bytes = groups t (pattern_byte p) (vibration_byte w) k ++ [];
    packs =
        rw
          (
            sub_step-some 127 (omega arith),
            repeat_step-some t (pattern_byte p) (vibration_byte w) k,
          )
          refl;
    reads = λ rest. rw append-nil (
        decode-first_groups t (pattern_byte p) (vibration_byte w) hot k v rest pos_k (omega arith));
  }
  large-IsSteps k (suc r) pos_k small e = record {
    bytes = groups t (pattern_byte p) (vibration_byte w) k ++ step_group (suc r);
    packs =
        rw
          (
            sub_step-some 127 (omega arith),
            repeat_step-some t (pattern_byte p) (vibration_byte w) k,
            sub_step-some (suc r) (omega arith),
          )
          (ground arith);
    reads = λ rest. rw append_assoc (
        decode-first_groups t (pattern_byte p) (vibration_byte w) hot k (k * 127)
          (step_group (suc r) ++ rest) pos_k refl
        ∙ decode-group t (pattern_byte p) (vibration_byte w) hot
            (opened t (pattern_byte p) (vibration_byte w) (k * 127)) (suc r) v rest e);
  }

  pub sub_steps-IsSteps : IsSteps t (pattern_byte p) (vibration_byte w) v (sub_steps pour)
  unfolding sub_steps
  sub_steps-IsSteps = elim (Bool-cases (ltb_ℤ (pos 127) (pos v))) [
    | inl large ↦
        let above : 127 < v = ground arith in
        rw large (large-IsSteps (v / 127) (v % 127) (omega arith) (omega arith) (omega arith))
    | inr small ↦ let below : v ≤ 127 = ground arith in rw small (small-IsSteps (omega arith))
  ]

-- The bytes of pours that can be sent, as the reader takes them.
pub record IsBody (first : Bool) (rpm : ℤ) (pours : List PourStep) (body : Option Bytes)
    : Type 0 where
  pub bytes : Bytes
  pub packs : body ≡ some bytes
  pub reads : decode_body no_steps bytes ≡ some (wire_pours first rpm pours)

pub pours_bytes-IsBody :
    (first : Bool) (rpm : ℤ) (pours : List PourStep)
    → All IsBrewable pours
    → IsBody first rpm pours (pours_bytes first rpm pours)
unfolding pours_bytes
pours_bytes-IsBody first rpm [] h = record {
  bytes = [];
  packs = refl;
  reads = unfold decode_body in refl;
}
pours_bytes-IsBody first rpm (pour ∷ pours) (brewable v t flow pausing p w hot fits, hs) =
    let here = sub_steps-IsSteps v t flow pausing p w hot fits in
    let later = pours_bytes-IsBody false rpm pours hs in
    record {
      bytes =
          (here.bytes
            ++ low_byte (neg pausing)
              ∷ 0
              ∷ (if first then low_byte rpm else 0)
              ∷ flow_byte flow
              ∷ [])
          ++ later.bytes;
      packs = rw (here.packs, later.packs) refl;
      reads = rw append_assoc (here.reads _ ∙ decode-metadata _ _ _ _ _ ∙ rw later.reads refl);
    }

check-IsBrewable :
    (v t flow pausing : ℤ) (p : PourPattern) (w : VibrationPattern)
    → check_pour (record {
      volume = v;
      temperature = t;
      flow_rate = flow;
      pausing = pausing;
      pattern_of = p;
      vibration = w;
    })
      ≡ none
    → t ≢ pos 0
    → IsBrewable (record {
      volume = v;
      temperature = t;
      flow_rate = flow;
      pausing = pausing;
      pattern_of = p;
      vibration = w;
    })
unfolding check_pour
check-IsBrewable (pos v) (pos t) flow pausing p w h warm =
    brewable v t flow pausing p w (ground arith) (ground arith)
check-IsBrewable (pos v) (negsuc t) flow pausing p w h warm = absurd (ground arith)
check-IsBrewable (negsuc v) (pos t) flow pausing p w h warm = absurd (ground arith)
check-IsBrewable (negsuc v) (negsuc t) flow pausing p w h warm = absurd (ground arith)

-- A pour that passes its checks can be sent, unless its temperature is the 0 that they let pass.
pub check_pour-IsBrewable :
    (p : PourStep) → check_pour p ≡ none → p.temperature ≢ pos 0 → IsBrewable p
check_pour-IsBrewable p =
    check-IsBrewable p.volume p.temperature p.flow_rate p.pausing p.pattern_of p.vibration
