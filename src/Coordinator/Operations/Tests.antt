-- ===== src/Coordinator/Operations/Tests.antt =====
-- Operations, settings and mode switches at concrete values.
use hacs_xbloom.Ble.Framing.{build_packet_raw, crc16}
use hacs_xbloom.Bytes.{Bytes}
use hacs_xbloom.Coordinator.ModeSwitch.Attempts.{EndsAfter, switch_mode-EndsAfter}
use hacs_xbloom.Coordinator.Connection.{async_ensure_connected}
use hacs_xbloom.Coordinator.ModeSwitch.{
  async_set_mode, switch_mode_with_retry, attempts, confirmed, mode_switch_code,
}
use hacs_xbloom.Coordinator.Operations.Brewer as Brewer
use hacs_xbloom.Coordinator.Operations.Stop.{async_cancel, async_pause_resume}
use hacs_xbloom.Coordinator.Operations.Retry.{Sleep, retry_while_sleeping, wake_machine}
use hacs_xbloom.Coordinator.Operations.Sends.{IsUp, codes}
use hacs_xbloom.Coordinator.Units.{
  Push, UnitKey, handle_unit_options_change, push_key, apply_unit_preferences,
  sync_units_from_machine,
}
use hacs_xbloom.Coordinator.Operations.{async_arm_grind, async_confirm_grind}
use hacs_xbloom.Prelude.{
  ◌∷◌, none, some, refl, true, [], arith, false, ◌≡◌, ◌≢◌, ◌≤◌, ℕ, Option, if◌then◌else◌, ◌==◌,
  ◌&&◌, ltb,
}
use hacs_xbloom.Brewing.Link.{Line, acked, silent, send_command_raw, done}
use hacs_xbloom.Coordinator.{
  Coordinator, Armed, Operation, WaterSource, WeightUnit, TempUnit, fresh_coordinator, easy,
}
use hacs_xbloom.Coordinator.State.{MachineState}
use hacs_xbloom.Coordinator.Operations.Stop.Cancel.{cancel-codes, cancel-IsCleared, IsCleared}
use hacs_xbloom.Coordinator.Operations.Stop.Pause.{pause_resume-codes}
use hacs_xbloom.Coordinator.Operations.Retry.Bounds.{retry-RunsOn, RunsOn, RunsOn, retry-RunsOn}
use hacs_xbloom.Coordinator.Operations.TwoStage.{grind-two_presses}
use hacs_xbloom.Coordinator.Units.Sync.{change-sync}
use hacs_xbloom.Coordinator.Units.Echo.{apply-codes}
use hacs_xbloom.Coordinator.Units.Queue.{push_key-newer}

-- A link over which every command is echoed, and one over which none is.
abbrev echoing : Line
echoing = record { reply = λ n. acked; linked = true; polls = [] }

abbrev mute : Line
mute = record { reply = λ n. silent; linked = true; polls = [] }

abbrev awake : Sleep
awake = record {
  asleep_at = λ key. false;
  asleep = false;
  sleeping = λ k. false;
  wakes = true;
  now = 5000;
  answered = true;
}

abbrev drowsy : Sleep
drowsy = record {
  asleep_at = λ key. true;
  asleep = true;
  sleeping = λ k. true;
  wakes = false;
  now = 5000;
  answered = true;
}

-- A grind armed while the machine shows its own prompt for a pod.
abbrev armed_grind : Coordinator
armed_grind = record fresh_coordinator {
  linked = true;
  armed_operation = some Armed.grind;
  pod_prompt_active = true;
}

-- A manual pour that runs.
abbrev pouring : Coordinator
pouring = record fresh_coordinator { linked = true; active_operation = some Operation.manual_pour }

echoing-IsUp : IsUp echoing
echoing-IsUp n = ground arith

mute-IsUp : IsUp mute
mute-IsUp n = ground arith

cancel-codes_example :
    codes (async_cancel echoing awake (λ n. true) pouring []).2 ≡ 4507 ∷ 4507 ∷ 8013 ∷ []
cancel-codes_example = cancel-codes echoing awake (λ n. true) pouring [] echoing-IsUp refl

cancel_armed_test : codes (async_cancel mute awake (λ n. false) armed_grind []).2 ≡ 8012 ∷ 8017 ∷ []
cancel_armed_test = cancel-codes mute awake (λ n. false) armed_grind [] mute-IsUp refl

cancel-IsCleared_example : IsCleared (async_cancel mute drowsy (λ n. true) armed_grind []).0
cancel-IsCleared_example = cancel-IsCleared mute drowsy (λ n. true) armed_grind []

pause_resume-codes_example :
    codes (async_pause_resume echoing awake MachineState.brewing pouring []).1 ≡ 8019 ∷ []
pause_resume-codes_example =
    pause_resume-codes echoing awake MachineState.brewing pouring [] echoing-IsUp refl

retry-RunsOn_example :
    let opens = Brewer.enter_mode mute in
    let (_, outcome, log) = retry_while_sleeping mute drowsy opens armed_grind [] in
    (d : ℕ) × (d ≤ 2)
    × RunsOn drowsy opens 2 1 (wake_machine mute drowsy armed_grind []).1 (outcome, log) d
retry-RunsOn_example = retry-RunsOn mute drowsy (Brewer.enter_mode mute) armed_grind []

grind-two_presses_example :
    let (armed, _, opened) = async_arm_grind echoing (λ x. 0) awake pouring [] in
    let (running, started, log) = async_confirm_grind echoing (λ x. 0) awake armed opened in
    (started ≡ true)
    × (running.active_operation ≡ some Operation.manual_grind)
    × (running.armed_operation ≡ none)
    × (codes log ≡ 8006 ∷ 3500 ∷ [])
grind-two_presses_example =
    grind-two_presses echoing (λ x. 0) awake echoing-IsUp refl refl pouring [] refl (omega arith)
      (omega arith)

-- The user asks for ounces; the machine still reports grams and a water line, which waits already.
abbrev water_waiting : Coordinator
water_waiting = record fresh_coordinator { pending_water_source = true }

change-sync_example :
    let changed =
      (handle_unit_options_change WeightUnit.oz TempUnit.celsius WaterSource.tank
        water_waiting).0 in
    let synced = (sync_units_from_machine 1 1 1 changed).0 in
    (WeightUnit.oz ≢ WeightUnit.g
      → (synced.weight_unit ≡ WeightUnit.oz) × (synced.pending_weight_unit ≡ true))
    × (TempUnit.celsius ≢ TempUnit.celsius
        → (synced.temp_unit ≡ TempUnit.celsius) × (synced.pending_temp_unit ≡ true))
    × (WaterSource.tank ≢ WaterSource.tank
        → (synced.water_source ≡ WaterSource.tank) × (synced.pending_water_source ≡ true))
    × (false ≡ true → synced.pending_weight_unit ≡ true)
    × (false ≡ true → synced.pending_temp_unit ≡ true)
    × (true ≡ true → synced.pending_water_source ≡ true)
change-sync_example =
    change-sync WeightUnit.oz TempUnit.celsius WaterSource.tank 1 1 1 water_waiting

abbrev queued_units : Coordinator
queued_units = record fresh_coordinator { pending_weight_unit = true; pending_water_source = true }

apply-codes_example :
    codes (apply_unit_preferences echoing (λ key. false) (λ key d. d) queued_units []).1
    ≡ 8005 ∷ 4508 ∷ 8022 ∷ []
apply-codes_example = apply-codes echoing (λ key. false) (λ n. refl) queued_units []

-- While the weight unit is on its way, the user changes it again.
abbrev changes_again : UnitKey → Coordinator → Coordinator
changes_again key c = record c { weight_unit = WeightUnit.oz }

abbrev first_push : Push
first_push = record { coordinator = queued_units; log = []; sent = false; stopped = false }

push_key-newer_example :
    (push_key echoing
      (λ key. false)
      changes_again
      UnitKey.weight_key
      first_push).coordinator.pending_weight_unit
    ≡ true
push_key-newer_example =
    push_key-newer echoing (λ key. false) changes_again UnitKey.weight_key first_push refl refl
      (λ e. absurd (omega (arith, e)))

-- The machine sleeps, and reads the code of Easy Mode late in the wait of the second attempt.
abbrev late_acks : ℕ → ℕ → Option Bytes
late_acks attempt reading =
    if attempt == 2 && ltb 9 reading then some (mode_switch_code easy) else none

switch_mode-EndsAfter_example :
    (d : ℕ) × (d ≤ 2)
    × EndsAfter mute late_acks
        (λ k. true)
        easy
        2
        1
        []
        (switch_mode_with_retry mute late_acks (λ k. true) easy [])
        d
switch_mode-EndsAfter_example =
    switch_mode-EndsAfter mute late_acks (λ k. true) easy [] (λ n. ground arith)

late_test : (switch_mode_with_retry mute late_acks (λ k. true) easy []).0 ≡ done true
unfolding switch_mode_with_retry attempts send_command_raw build_packet_raw confirmed crc16
late_test = refl

set_mode_test :
    (async_set_mode mute late_acks (λ k. true) 5000 true easy fresh_coordinator []).2 ≡ []
unfolding async_set_mode async_ensure_connected
set_mode_test = refl
