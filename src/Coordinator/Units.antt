-- ===== src/Coordinator/Units.antt =====
-- coordinator/connection.py: the display units and the water source. A report of the machine (8015)
-- is adopted; a change of the options is queued and pushed, one acknowledged command for each.
pub mod Echo
pub mod Queue
pub mod Sync
use hacs_xbloom.Ble.Framing.{build_packet}
use hacs_xbloom.Coordinator.Knobs.{then_set}
use hacs_xbloom.Prelude.{
  Bool, List, Option, false, ℕ, if◌then◌else◌, not, some, ◌∷◌, [], true, ◌&&◌, ◌==◌, ◌||◌, none,
  suc, zero,
}
use hacs_xbloom.Coordinator.{
  Coordinator, Effect, WeightUnit, TempUnit, WaterSource, fahrenheit, ml, tank, celsius, direct, g,
  persist_units, oz, push_units, update_listeners,
}
use hacs_xbloom.Brewing.Link.{
  ◌>>=◌, Line, Action, Outcome, Sent, default_device_id, failed, done, write, ack_timeout, awaited,
}
use hacs_xbloom.Ble.Constants.{Command, command_code}

-- WEIGHT_UNIT_OPTIONS, TEMP_UNIT_OPTIONS and the water sources, both ways round
abbrev pub weight_unit_code : WeightUnit → ℕ
weight_unit_code ml = 0
weight_unit_code g = 1
weight_unit_code oz = 2

abbrev pub temp_unit_code : TempUnit → ℕ
temp_unit_code fahrenheit = 0
temp_unit_code celsius = 1

abbrev pub water_source_code : WaterSource → ℕ
water_source_code tank = 0
water_source_code direct = 1

unfoldable pub raw_to_weight_unit : ℕ → Option WeightUnit
raw_to_weight_unit raw =
    if raw == 0 then some ml else if raw == 1 then some g else if raw == 2 then some oz else none

unfoldable pub raw_to_temp_unit : ℕ → Option TempUnit
raw_to_temp_unit raw = if raw == 0 then some fahrenheit else if raw == 1 then some celsius else none

unfoldable pub raw_to_water_source : ℕ → Option WaterSource
raw_to_water_source raw = if raw == 0 then some tank else if raw == 1 then some direct else none

-- The three option keys, in _UNIT_PUSH_ORDER.
pub data UnitKey : Type 0 where
  weight_key temp_key water_key : UnitKey

abbrev pub is_pending : UnitKey → Coordinator → Bool
is_pending weight_key c = c.pending_weight_unit
is_pending temp_key c = c.pending_temp_unit
is_pending water_key c = c.pending_water_source

abbrev pub discard : UnitKey → Coordinator → Coordinator
discard weight_key c = record c { pending_weight_unit = false }
discard temp_key c = record c { pending_temp_unit = false }
discard water_key c = record c { pending_water_source = false }

-- `_unit_push_command`: the command and its one number
abbrev pub unit_command : UnitKey → ℕ
unit_command weight_key = 8005
unit_command temp_key = 8010
unit_command water_key = 4508

abbrev pub unit_value : UnitKey → Coordinator → ℕ
unit_value weight_key c = weight_unit_code c.weight_unit
unit_value temp_key c = temp_unit_code c.temp_unit
unit_value water_key c = water_source_code c.water_source

-- Adopt a reported value, unless it is unknown, the present one, or a push of ours is waiting.
unfoldable pub adopt_weight_unit : Option WeightUnit → Coordinator → Coordinator × Bool
adopt_weight_unit none c = (c, false)
adopt_weight_unit (some unit) c =
    if not (weight_unit_code unit == weight_unit_code c.weight_unit) && not c.pending_weight_unit
    then (record c { weight_unit = unit }, true)
    else (c, false)

unfoldable pub adopt_temp_unit : Option TempUnit → Coordinator → Coordinator × Bool
adopt_temp_unit none c = (c, false)
adopt_temp_unit (some unit) c =
    if not (temp_unit_code unit == temp_unit_code c.temp_unit) && not c.pending_temp_unit
    then (record c { temp_unit = unit }, true)
    else (c, false)

unfoldable pub adopt_water_source : Option WaterSource → Coordinator → Coordinator × Bool
adopt_water_source none c = (c, false)
adopt_water_source (some source) c =
    if not (water_source_code source == water_source_code c.water_source)
      && not c.pending_water_source
    then (record c { water_source = source }, true)
    else (c, false)

abbrev persisted : Coordinator × Bool → Coordinator × List Effect
persisted (c, changed) = (c, if changed then persist_units ∷ update_listeners ∷ [] else [])

unfoldable pub sync_units_from_machine : ℕ → ℕ → ℕ → Coordinator → Coordinator × List Effect
sync_units_from_machine weight temp water c = persisted (
    then_set
      (then_set (adopt_weight_unit (raw_to_weight_unit weight) c)
        (adopt_temp_unit (raw_to_temp_unit temp)))
      (adopt_water_source (raw_to_water_source water)))

-- The options that the user has set; those that differ are queued.
unfoldable pub handle_unit_options_change :
    WeightUnit → TempUnit → WaterSource → Coordinator → Coordinator × List Effect
handle_unit_options_change weight temp water c =
    let weight_changed = not (weight_unit_code weight == weight_unit_code c.weight_unit) in
    let temp_changed = not (temp_unit_code temp == temp_unit_code c.temp_unit) in
    let water_changed = not (water_source_code water == water_source_code c.water_source) in
    if weight_changed || (temp_changed || water_changed)
    then (
      record c {
        weight_unit = weight;
        temp_unit = temp;
        water_source = water;
        pending_weight_unit = c.pending_weight_unit || weight_changed;
        pending_temp_unit = c.pending_temp_unit || temp_changed;
        pending_water_source = c.pending_water_source || water_changed;
      },
      push_units ∷ [],
    )
    else (c, [])

-- A state with what has been sent; whether a command has gone out; whether the push has given up.
pub record Push : Type 0 where
  pub coordinator : Coordinator
  pub log : Sent
  pub sent : Bool
  pub stopped : Bool

abbrev on_timeout : Outcome {0} Unit × Sent → Action → Outcome {0} Unit × Sent
on_timeout (failed ack_timeout, s) again = again s
on_timeout r again = r

-- _WAKE_RETRY_MAX_ATTEMPTS, and the sends of an awake machine, less the last one
abbrev pub resends : Bool → ℕ
resends asleep = if asleep then 2 else 1

-- `asleep`: whether the machine reports itself asleep at the first send of each key;
-- `meanwhile`: what other tasks do to the coordinator while a command is on its way.
module _ (line : Line) (asleep : UnitKey → Bool)
    (meanwhile : UnitKey → Coordinator → Coordinator) where
  -- `send_and_wait(command, type_code=1, data=[value])`
  abbrev pub send_setting : ℕ → List ℕ → Action
  send_setting command values = do
    r ← write line command (build_packet command values 1 default_device_id)
    awaited line r

  -- `_async_send_unit_command`
  unfoldable pub send_unit_command : ℕ → ℕ → ℕ → Action
  send_unit_command zero command value s = send_setting command (value ∷ []) s
  send_unit_command (suc n) command value s =
      on_timeout (send_setting command (value ∷ []) s) (send_unit_command n command value)

  abbrev keep_or_discard : UnitKey → ℕ → Coordinator → Coordinator
  keep_or_discard key value c = if unit_value key c == value then discard key c else c

  abbrev pub pushed : UnitKey → ℕ → Outcome {0} Unit × Sent → Coordinator → Push
  pushed key value (done _, s) c = record {
    coordinator = keep_or_discard key value c;
    log = s;
    sent = true;
    stopped = false;
  }
  pushed key value (failed ack_timeout, s) c = record {
    coordinator = keep_or_discard key value c;
    log = s;
    sent = true;
    stopped = false;
  }
  pushed key value (failed f, s) c = record {
    coordinator = c;
    log = s;
    sent = false;
    stopped = true;
  }

  -- One round of the loop.
  unfoldable pub push_key : UnitKey → Push → Push
  push_key key p =
      if p.stopped || not (is_pending key p.coordinator)
      then p
      else let value = unit_value key p.coordinator in
        let r =
          pushed key value (send_unit_command (resends (asleep key)) (unit_command key) value p.log)
            (meanwhile key p.coordinator) in
        record r { sent = p.sent || r.sent }

  -- `_async_return_machine_home`: its failure is ignored
  unfoldable pub return_machine_home : Sent → Sent
  return_machine_home s = (send_setting (command_code Command.back_to_home) [] s).1

  unfoldable pub apply_unit_preferences : Coordinator → Sent → Coordinator × Sent
  unfolding push_key return_machine_home
  apply_unit_preferences c s =
      let p = push_key water_key (
        push_key temp_key (
          push_key weight_key
            (record { coordinator = c; log = s; sent = false; stopped = false }))) in
      if p.sent && not p.stopped
      then (p.coordinator, return_machine_home p.log)
      else (p.coordinator, p.log)
