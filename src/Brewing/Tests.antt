-- ===== src/Brewing/Tests.antt =====
-- Recipes and chains at concrete values.
use hacs_xbloom.Prelude.Double.{nearest}
use hacs_xbloom.Ble.Framing.{crc16, build_packet, build_packet_raw}
use hacs_xbloom.Brewing.Payload.{
  slot_flags, build_coffee_recipe_payload, build_tea_payload, soak_byte, is_tea_recipe,
  tea_ratio_byte, is_grinding, ratio_of,
}
use hacs_xbloom.Brewing.Link.Steps.{AreBuilt}
use hacs_xbloom.Ble.Client.{StateLabel}
use hacs_xbloom.Brewing.Chain.TwoStage.{arm_recipe-confirm_recipe}
use hacs_xbloom.Brewing.Payload.Tea.{
  soak_byte_lem, decode_tea, steeps_of, build_tea_payload_lem, IsSteep, steep,
}
use hacs_xbloom.Brewing.Chain.Batch.{write_easy_slots_missing, IsBatch, write_easy_slots-IsBatch}
use hacs_xbloom.Prelude.Int.{pos, low_byte}
use hacs_xbloom.Brewing.Payload.Coffee.{
  IsCoffeePayload, build_coffee_recipe_payload-IsCoffeePayload,
}
use hacs_xbloom.Brewing.Chain.Brew.{
  HasCommand, IsCommitted, brew_coffee-IsCommitted, brew_coffee-done,
}
use hacs_xbloom.Brewing.Chain.Start.{HasStart, verify_brew_started_iff}
use hacs_xbloom.Brewing.Chain.Coffee.{IsArming, arm_coffee-IsArming, coffee_requests}
use hacs_xbloom.Ble.Models.Body.{IsBrewable, brewable, check_pour-IsBrewable}
use hacs_xbloom.Brewing.Link.{Line, ◌>>=◌, acked, done, Sent, send_command_raw}
use hacs_xbloom.Brewing.Chain.{
  verify_brew_started, write_easy_slots, arm_coffee, arm_recipe, brew_tea, confirm_recipe,
  execute_recipe, Slots, brew_coffee, write_slot, cup_bounds,
}
use hacs_xbloom.Bytes.{Bytes}
use hacs_xbloom.Brewing.Chain.Tea.{IsTeaRun, brew_tea-IsTeaRun}
use hacs_xbloom.Prelude.{
  All, ℕ, ◌≤◌, [], if◌then◌else◌, true, ◌∷◌, ◌≡◌, arith, none, some, ◌*◌, ◌==◌, length, refl, ◌+◌,
  ◌≢◌, ◌++◌, inr, inl, Option, ◌↔◌,
}
use hacs_xbloom.Ble.Models.{
  PourStep, Recipe, check_pour, build_recipe_payload, PourPattern, VibrationPattern,
}

-- Stands for `struct.pack("<f", x)`, at the values that the chains below send.
abbrev bits_of : ℕ → ℕ
bits_of x =
    if x == 800
    then 1117782016
    else if x == 400
    then 1109393408
    else if x == 2000
    then 1128792064
    else 0

abbrev bloom_pour : PourStep
bloom_pour = record {
  volume = pos 40;
  temperature = pos 92;
  flow_rate = pos 300;
  pausing = pos 30;
  pattern_of = PourPattern.spiral;
  vibration = VibrationPattern.after;
}

abbrev main_pour : PourStep
main_pour = record {
  volume = pos 200;
  temperature = pos 92;
  flow_rate = pos 350;
  pausing = pos 0;
  pattern_of = PourPattern.circular;
  vibration = VibrationPattern.no_vibration;
}

-- Fifteen grams and 240 ml.
abbrev coffee : Recipe
coffee = record {
  grind_size = pos 60;
  total_water = pos 240;
  rpm = pos 80;
  cup_type = 1;
  bean_weight = pos 150;
  pours = bloom_pour ∷ main_pour ∷ [];
}

abbrev tea : Recipe
tea = record coffee { cup_type = 4; bean_weight = pos 40; grind_size = pos 0 }

coffee-IsBrewable : All IsBrewable coffee.pours
coffee-IsBrewable = (
  brewable 40 92 (pos 300) (pos 30) PourPattern.spiral VibrationPattern.after (omega arith)
      (omega arith),
  (
    brewable 200 92 (pos 350) (pos 0) PourPattern.circular VibrationPattern.no_vibration
        (omega arith) (omega arith),
    tt,
  ),
)

build_coffee_recipe_payload_example : IsCoffeePayload coffee (build_coffee_recipe_payload coffee)
build_coffee_recipe_payload_example =
    build_coffee_recipe_payload-IsCoffeePayload coffee coffee-IsBrewable

-- 18 g for 250 ml, and a case in which the floats give one more than the exact quotient.
ratio_test : ratio_of 250 (pos 180) ≡ 139
unfolding nearest
ratio_test = refl

float_ratio_test : ratio_of 123 (pos 82) ≡ 151
unfolding nearest
float_ratio_test = refl

tea-IsSteep : All IsSteep tea.pours
tea-IsSteep = (
  steep 40 92 (pos 300) (pos 30) PourPattern.spiral VibrationPattern.after (omega arith)
      (omega arith),
  (
    steep 200 92 (pos 350) (pos 0) PourPattern.circular VibrationPattern.no_vibration (omega arith)
        (omega arith),
    tt,
  ),
)

build_tea_payload_example :
    (body : Bytes) × (build_tea_payload tea
      ≡ some (length body ∷ (body ++ low_byte tea.grind_size ∷ tea_ratio_byte tea ∷ [])))
    × (decode_tea body ≡ some (steeps_of true tea.rpm tea.pours))
build_tea_payload_example = build_tea_payload_lem tea tea-IsSteep (omega arith)

soak_byte_test :
    (1 ≤ soak_byte (pos 30))
    × (soak_byte (pos 30) ≤ 255)
    × (1 ≤ 30
        → 30 ≤ 425
        → (10 * soak_byte (pos 30) ≤ 6 * 30 + 5) × (6 * 30 ≤ 10 * soak_byte (pos 30) + 5))
soak_byte_test = soak_byte_lem 30

check_test : check_pour bloom_pour ≡ none
unfolding check_pour
check_test = refl

check_pour-IsBrewable_test : IsBrewable bloom_pour
check_pour-IsBrewable_test = check_pour-IsBrewable bloom_pour check_test (ground arith)

-- A link that echoes everything, with a start shown by the third poll.
abbrev good_line : Line
good_line = record {
  reply = λ n. acked;
  linked = true;
  polls = none ∷ some StateLabel.recipe_loaded ∷ some StateLabel.starting ∷ [];
}

good_line-HasStart : HasStart StateLabel.starting good_line.polls
good_line-HasStart = record {
  before = none ∷ some StateLabel.recipe_loaded ∷ [];
  after = [];
  splits = refl;
  undecided = (tt, ((refl, refl), tt));
  starts = refl;
}

verify_brew_started_example :
    ((verify_brew_started good_line bits_of []).0 ≡ done StateLabel.starting)
    ↔ HasStart StateLabel.starting good_line.polls
verify_brew_started_example = verify_brew_started_iff good_line bits_of [] StateLabel.starting

arm_coffee-IsArming_example :
    IsArming good_line bits_of coffee 0 0 (arm_coffee good_line bits_of coffee 0 0 [])
arm_coffee-IsArming_example = arm_coffee-IsArming good_line bits_of coffee 0 0

brew_tea-IsTeaRun_example : IsTeaRun good_line bits_of tea (brew_tea good_line bits_of tea [])
brew_tea-IsTeaRun_example = brew_tea-IsTeaRun good_line bits_of tea

arm_recipe-confirm_recipe_example :
    (do
      payload ← arm_recipe good_line bits_of tea 0 0
      confirm_recipe good_line bits_of (is_tea_recipe tea) payload)
      []
    ≡ execute_recipe good_line bits_of tea 0 0 []
arm_recipe-confirm_recipe_example = arm_recipe-confirm_recipe good_line bits_of tea 0 0 []

-- The payload and the packets, as they are built.
abbrev coffee_payload : Bytes
coffee_payload =
    20 ∷ 40 ∷ 92 ∷ 2 ∷ 2 ∷ 226 ∷ 0 ∷ 80 ∷ 30 ∷ 127 ∷ 92 ∷ 1 ∷ 0 ∷ 73 ∷ 92 ∷ 1 ∷ 0 ∷ 0 ∷ 0 ∷ 0 ∷ 35
    ∷ 60 ∷ 160 ∷ []

coffee_payload_test : build_coffee_recipe_payload coffee ≡ some coffee_payload
unfolding build_coffee_recipe_payload build_recipe_payload nearest
coffee_payload_test = refl

-- the bytes of a packet that is built
abbrev built : Option Bytes → Bytes
built none = []
built (some p) = p

abbrev coffee_packets : Sent
coffee_packets =
    (8022, built (build_packet 8022 [] 1 1))
    ∷ (8102, built (build_packet 8102 (0 ∷ 0 ∷ 15 ∷ []) 1 1))
    ∷ (8104, built (build_packet 8104 (1117782016 ∷ 1109393408 ∷ []) 1 1))
    ∷ (8001, built (build_packet_raw 8001 coffee_payload 1 1))
    ∷ []

coffee_packets-AreBuilt :
    AreBuilt (coffee_requests good_line bits_of coffee 0 0 coffee_payload) coffee_packets
unfolding build_packet build_packet_raw cup_bounds is_grinding crc16
coffee_packets-AreBuilt = (refl, refl, (refl, refl, (refl, refl, (refl, refl, tt))))

brew_coffee-done_example :
    (execute : Bytes) × (brew_coffee good_line bits_of coffee 0 0 []
      ≡ (done tt, coffee_packets ++ (8002, execute) ∷ []))
brew_coffee-done_example =
    brew_coffee-done good_line bits_of coffee 0 0 coffee_payload coffee_packets StateLabel.starting
      refl coffee_payload_test coffee_packets-AreBuilt (refl, (refl, (refl, (refl, tt))))
      (ground arith) good_line-HasStart

coffee_executed : HasCommand 8002 (brew_coffee good_line bits_of coffee 0 0 []).1
coffee_executed =
    let (execute, e) =
      brew_coffee-done good_line bits_of coffee 0 0 coffee_payload coffee_packets
        StateLabel.starting refl coffee_payload_test coffee_packets-AreBuilt
        (refl, (refl, (refl, (refl, tt)))) (ground arith) good_line-HasStart in
    rw e (inr (inr (inr (inr (inl refl)))))

brew_coffee-IsCommitted_example :
    IsCommitted good_line bits_of coffee 0 0 (brew_coffee good_line bits_of coffee 0 0 []).1
brew_coffee-IsCommitted_example =
    brew_coffee-IsCommitted good_line bits_of coffee 0 0 coffee_executed

-- The three slots, and with the second missing.
abbrev all_slots : Slots
all_slots = record { slot_a = some coffee; slot_b = some coffee; slot_c = some coffee }

abbrev slot_packets : Sent
slot_packets = (write_easy_slots good_line bits_of true all_slots []).1

slots_written : write_easy_slots good_line bits_of true all_slots [] ≡ (done tt, slot_packets)
unfolding write_easy_slots write_slot send_command_raw build_packet_raw build_coffee_recipe_payload
    nearest build_recipe_payload crc16 slot_flags is_grinding
slots_written = refl

write_easy_slots-IsBatch_example : IsBatch true all_slots slot_packets
write_easy_slots-IsBatch_example =
    write_easy_slots-IsBatch good_line bits_of true all_slots slot_packets slots_written

abbrev two_slots : Slots
two_slots = record all_slots { slot_b = none }

write_easy_slots_missing_test :
    ((write_easy_slots good_line bits_of true two_slots []).0 ≢ done tt)
    × ((write_easy_slots good_line bits_of true two_slots []).1 ≡ [])
write_easy_slots_missing_test =
    write_easy_slots_missing good_line bits_of true two_slots [] (inr (inl refl))
