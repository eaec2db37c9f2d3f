-- ===== src/Coordinator/Connection.antt =====
-- coordinator/connection.py and coordinator/__init__.py: when the link is dropped, when the
-- supervisor connects again and how long it waits, and the gate of the user's actions.
--
-- What the radio answers to a connect is an argument. Times are milliseconds of the monotonic clock.
pub mod Backoff
pub mod Standby
use hacs_xbloom.Prelude.{
  false, if◌then◌else◌, true, ℕ, Bool, min, ◌+◌, List, ◌*◌, ◌^◌, ◌||◌, [], ◌-◌, ltb, ◌∷◌, Option,
  some, none,
}
use hacs_xbloom.Coordinator.{Coordinator, Effect, reconnect}

-- _RECONNECT_BACKOFF_BASE_S and _RECONNECT_BACKOFF_MAX_S
abbrev pub backoff_base : ℕ
backoff_base = 5000

abbrev pub backoff_max : ℕ
backoff_max = 300000

unfoldable pub note_activity : ℕ → Coordinator → Coordinator
note_activity now c = record c { last_activity = now }

-- The exponent from which `5.0 * 2 ** exponent` raises OverflowError: the integer is no float.
abbrev pub float_exponent : ℕ
float_exponent = 1024

abbrev pub capped_delay : ℕ → ℕ
capped_delay failures = min (backoff_base * 2 ^ (failures - 1)) backoff_max

-- The delay after this many consecutive failures, at least one; `none` raises.
unfoldable pub backoff_delay : ℕ → Option ℕ
backoff_delay failures =
    if ltb (failures - 1) float_exponent then some (capped_delay failures) else none

-- Whether it returns; if it raises, the failure is counted and the delay is not armed.
abbrev armed_by : Option ℕ → ℕ → Coordinator → Coordinator × Bool
armed_by none now c = (c, false)
armed_by (some delay) now c = (record c { reconnect_blocked_until = now + delay }, true)

unfoldable pub note_connect_failure : ℕ → Coordinator → Coordinator × Bool
unfolding backoff_delay
note_connect_failure now c =
    armed_by (backoff_delay (c.reconnect_failures + 1)) now
      (record c { reconnect_failures = c.reconnect_failures + 1 })

-- Noted in the `try` block, and in its `except` block again if that raised.
unfoldable pub connect_failed : ℕ → Coordinator → Coordinator
unfolding note_connect_failure
connect_failed now c =
    let (noted, returned) = note_connect_failure now c in
    if returned then noted else (note_connect_failure now noted).0

unfoldable pub note_connect_success : Coordinator → Coordinator
note_connect_success c = record c { reconnect_failures = 0; reconnect_blocked_until = 0 }

-- `locked`: a connect is in flight.
unfoldable pub maybe_schedule_reconnect : ℕ → Bool → Coordinator → List Effect
maybe_schedule_reconnect now locked c =
    if c.manual_disconnect || c.idle_disconnected
    then []
    else if locked
    then []
    else if ltb now c.reconnect_blocked_until
    then []
    else reconnect ∷ []

-- `answered`: the radio connects; if not, the client's `connect` returns False. What is sent on the
-- way, the push of waiting units included, is not part of this. The answer is whether the link is up;
-- an OverflowError that leaves the function has the answer false.
unfoldable pub async_connect : ℕ → Bool → Coordinator → Coordinator × Bool
unfolding note_activity note_connect_success connect_failed
async_connect now answered c =
    if c.linked
    then (c, true)
    else let begun =
        note_activity now (record c { manual_disconnect = false; idle_disconnected = false }) in
      if answered
      then (record (note_connect_success begun) { linked = true }, true)
      else (record (connect_failed now begun) { linked = false }, false)

unfoldable pub async_disconnect : Coordinator → Coordinator
async_disconnect c = record c { manual_disconnect = true; linked = false }

-- The task `drop_stale_link`.
unfoldable pub async_drop_stale_link : Coordinator → Coordinator
unfolding async_disconnect
async_drop_stale_link c = record (async_disconnect c) {
  manual_disconnect = false;
  force_reconnect_pending = false;
}

-- The task `enter_idle_standby`.
unfoldable pub async_enter_idle_standby : Coordinator → Coordinator
unfolding async_disconnect
async_enter_idle_standby c = record (async_disconnect (record c { idle_disconnected = true })) {
  idle_standby_pending = false;
}

unfoldable pub handle_unexpected_disconnect : Coordinator → Coordinator
handle_unexpected_disconnect c = if c.manual_disconnect then c else record c { linked = false }

unfoldable pub async_ensure_connected : ℕ → Bool → Coordinator → Coordinator × Bool
unfolding note_activity async_connect
async_ensure_connected now answered c =
    let noted = note_activity now c in
    if noted.linked
    then (noted, true)
    else if noted.idle_disconnected
    then async_connect now answered noted
    else (noted, false)
