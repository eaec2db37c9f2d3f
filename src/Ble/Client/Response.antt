-- ===== src/Ble/Client/Response.antt =====
-- `_handle_response`: what the client records of each response, and the events that it fires.
--
-- The filter of the weights takes `is_far` (see Weight). `float_to_int` is Python's `int` on a
-- float32 given by its bits: it raises on an infinity and on a NaN (`none`), and the caller
-- catches that with nothing changed.
pub mod Text
use hacs_xbloom.Ble.Client.Weight.{filter_weight}
use hacs_xbloom.Prelude.Int.{ℤ, pos}
use hacs_xbloom.Ble.Models.{DeviceState}
use hacs_xbloom.Prelude.{
  ℕ, Bool, List, if◌then◌else◌, length, max, take, true, ◌∷◌, Option, [], leb, ltb, ◌&&◌, ◌-◌, ◌==◌,
  drop, false, some, ◌*◌, none,
}
use hacs_xbloom.Ble.Client.{
  Client, Event, Screen, brewer_knob, notification, Notification, brewer_page_entry, grinder_knob,
  no_attribute, unit_change,
}
use hacs_xbloom.Bytes.{Bytes, byte_at, u32_at}
use hacs_xbloom.Ble.Constants.{Response}

-- strict_ascii: the printable bytes, without the spaces at both ends
abbrev pub is_printable : ℕ → Bool
is_printable b = leb 0x20 b && ltb b 0x7f

unfoldable pub printable : Bytes → Bytes
printable [] = []
printable (b ∷ bs) = if is_printable b then b ∷ printable bs else printable bs

unfoldable pub strip_left : Bytes → Bytes
strip_left [] = []
strip_left (b ∷ bs) = if b == 0x20 then strip_left bs else b ∷ bs

unfoldable pub strip_right : Bytes → Bytes
strip_right [] = []
strip_right (b ∷ bs) = elim (strip_right bs) [
  | [] ↦ if b == 0x20 then [] else b ∷ []
  | x ∷ xs ↦ b ∷ x ∷ xs
]

unfoldable pub strict_ascii : Bytes → Bytes
unfolding printable strip_left strip_right
strict_ascii bytes = strip_right (strip_left (printable bytes))

abbrev pub grind_size_raw_offset : ℕ
grind_size_raw_offset = 30

-- max(raw - _GRIND_SIZE_RAW_OFFSET, 1)
abbrev pub grind_size_of : ℕ → ℕ
grind_size_of raw = max (raw - grind_size_raw_offset) 1

abbrev pub calibration_done_raw : ℕ
calibration_done_raw = 85

-- payload[start : stop]
abbrev pub slice : ℕ → ℕ → Bytes → Bytes
slice start stop bs = take (stop - start) (drop start bs)

-- The MACHINE_INFO branch: each field is read where the payload is long enough for it.
unfoldable pub machine_info : Bytes → Client → Client
unfolding strict_ascii
machine_info p c =
    let n = length p in
    record c {
      serial_number = if leb 29 n then strict_ascii (slice 0 13 p) else c.serial_number;
      version = if leb 29 n then strict_ascii (slice 19 29 p) else c.version;
      water_level_ok = if leb 34 n then byte_at p 33 == 1 else c.water_level_ok;
      water_volume = if leb 37 n then pos (byte_at p 36) else c.water_volume;
      mode_bytes = some p;
      grinder_size = if ltb 37 n then grind_size_of (byte_at p 37) else c.grinder_size;
      voltage = if ltb 39 n then byte_at p 39 else c.voltage;
    }

-- the temperature in tenths: raw / 10.0 if raw > 150 else float(raw)
abbrev pub brewer_tenths : ℕ → ℕ
brewer_tenths raw = if ltb 150 raw then raw else raw * 10

abbrev pub is_calibration_end : ℕ → Client → Bool
is_calibration_end raw c = c.is_calibrating_grinder && raw == calibration_done_raw

abbrev current_grinder : ℕ → Client → Client × List Event
current_grinder raw c =
    let sized = record c { grinder_size = grind_size_of raw } in
    if is_calibration_end raw c
    then (
      record sized { is_calibrating_grinder = false },
      notification Notification.grinder_calibration_complete no_attribute ∷ [],
    )
    else (sized, [])

abbrev in_brewer : Bytes → Client → Client × List Event
in_brewer p c =
    let shown = record c { screen = some Screen.pour } in
    if leb 12 (length p)
    then (
      record shown { brewer_temperature = u32_at p 4 * 10 },
      brewer_page_entry (u32_at p 0) (u32_at p 4) (u32_at p 8) ∷ [],
    )
    else (shown, [])

abbrev in_grinder : Bytes → Client → Client × List Event
in_grinder p c =
    let shown = record c { screen = some Screen.grind } in
    let size = u32_at p 0 in
    if leb 8 (length p)
    then (
      record shown { grinder_size = if size == 0 then c.grinder_size else size },
      grinder_knob (some size) (some (u32_at p 4)) ∷ [],
    )
    else (shown, [])

-- A branch under `if len(payload) >= 4`, on the number in the first four bytes.
abbrev pub with_u32 : Bytes → Client → (ℕ → Client × List Event) → Client × List Event
with_u32 p c k = if leb 4 (length p) then k (u32_at p 0) else (c, [])

abbrev brewing_now : Client → Client
brewing_now c = record c { brewer_running = true; state = DeviceState.brewing }

abbrev home_shown : Client → Client × List Event
home_shown c = (record c { screen = some Screen.home }, [])

abbrev pub weighed : (ℕ → ℕ → Bool) → ℕ → Client → Client
weighed is_far bits c =
    let filtered = filter_weight is_far bits c in record filtered.1 { weight = filtered.0 }

abbrev pub pumped : Option ℤ → Client → Client
pumped none c = c
pumped (some v) c = record c { water_volume = v }

module _ (is_far : ℕ → ℕ → Bool) (float_to_int : ℕ → Option ℤ) where
  -- The chain of `if ... elif` on the response.
  unfoldable pub update_status : Response → Bytes → Client → Client × List Event
  update_status Response.machine_info p c = (machine_info p c, [])
  update_status Response.gear_report p c =
      with_u32 p c λ raw. (record c { grinder_position = raw }, [])
  update_status Response.current_weight2 p c = with_u32 p c λ bits. (weighed is_far bits c, [])
  update_status Response.current_weight p c = with_u32 p c λ bits. (weighed is_far bits c, [])
  update_status Response.brewer_temperature p c = with_u32 p c λ raw. (
    record c { brewer_temperature = brewer_tenths raw },
    brewer_knob (some (brewer_tenths raw)) none ∷ [],
  )
  update_status Response.grinder_begin p c =
      (record c { grinder_running = true; state = DeviceState.grinding }, [])
  update_status Response.grinder_run_begin p c =
      (record c { grinder_running = true; state = DeviceState.grinding }, [])
  update_status Response.grinder_stop p c =
      (record c { grinder_running = false; state = DeviceState.idle; grinder_speed = 0 }, [])
  update_status Response.brewer_begin p c = (brewing_now c, [])
  update_status Response.brewer_stop p c =
      (record c { brewer_running = false; state = DeviceState.idle }, [])
  update_status Response.bloom p c = (record c { state = DeviceState.brewing }, [])
  update_status Response.brewer_pause p c = (record c { state = DeviceState.paused }, [])
  update_status Response.brewer_coffee_start p c = (brewing_now c, [])
  update_status Response.water_volume p c = with_u32 p c λ bits. (pumped (float_to_int bits) c, [])
  update_status Response.in_brewer p c = in_brewer p c
  update_status Response.in_grinder p c = in_grinder p c
  update_status Response.in_scale p c = (record c { screen = some Screen.scale }, [])
  update_status Response.out_grinder p c = home_shown c
  update_status Response.out_brewer p c = home_shown c
  update_status Response.out_scale p c = home_shown c
  update_status Response.grinder_size p c = with_u32 p c λ raw. (
    record c { grinder_size = grind_size_of raw },
    grinder_knob (some (grind_size_of raw)) none ∷ [],
  )
  update_status Response.grinder_speed p c =
      with_u32 p c λ raw. (record c { grinder_speed = raw }, grinder_knob none (some raw) ∷ [])
  update_status Response.current_grinder p c = with_u32 p c λ raw. current_grinder raw c
  update_status Response.calibrate_start p c = (record c { is_calibrating_grinder = true }, [])
  update_status Response.machine_sleeping p c = (record c { is_sleeping = true }, [])
  update_status Response.machine_not_sleeping p c = (record c { is_sleeping = false }, [])
  update_status Response.machine_activity p c = (record c { is_sleeping = false }, [])
  update_status Response.brewer_mode p c = with_u32 p c λ raw.
      if leb raw 2
      then (record c { pour_pattern_live = some raw }, brewer_knob none (some raw) ∷ [])
      else (c, [])
  update_status Response.unit_change p c =
      if leb 12 (length p)
      then (c, unit_change (u32_at p 0) (u32_at p 4) (u32_at p 8) ∷ [])
      else (c, [])
  update_status _ p c = (c, [])

-- the acknowledgement of a mode switch
unfoldable pub update_mode_ack : Response → Bytes → Client → Client
update_mode_ack Response.easymode_type p c =
    if leb 4 (length p) then record c { mode_ack = some (take 4 p) } else c
update_mode_ack _ p c = c
