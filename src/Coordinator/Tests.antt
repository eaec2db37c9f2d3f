-- ===== src/Coordinator/Tests.antt =====
-- The coordinator at concrete values.
use hacs_xbloom.Coordinator.Knobs.{set_temperature, wire_temperature}
use hacs_xbloom.Coordinator.Tick.{async_update_data, mirror_idle_knobs}
use hacs_xbloom.Coordinator.Dispatch.{dispatch_surfaced, shortage_cleared, is_suppressed}
use hacs_xbloom.Coordinator.Connection.{
  async_enter_idle_standby, backoff_delay, maybe_schedule_reconnect, async_disconnect,
  async_ensure_connected, capped_delay,
}
use hacs_xbloom.Prelude.{
  ◌∷◌, none, some, refl, List, [], false, true, ◌≡◌, Option, if◌then◌else◌, ◌<◌, ◌↔◌, arith, ltb,
  not, ◌+◌, ◌⊎◌, ◌++◌,
}
use hacs_xbloom.Ble.Client.{
  Client, Event, Screen, Notification, ErrorType, Attribute, fresh_client, notification, failure,
}
use hacs_xbloom.Coordinator.{Coordinator, Armed, Operation, WaterSource, fresh_coordinator, Effect}
use hacs_xbloom.Coordinator.Dispatch.Listeners.{heard-dispatch_surfaced, heard}
use hacs_xbloom.Coordinator.Dispatch.Shortage.{
  after_events-last_verdict, after_events, last_verdict, otherwise,
}
use hacs_xbloom.Coordinator.State.{MachineState, derive_state_string}
use hacs_xbloom.Coordinator.State.Priority.{standalone_pour_iff, IsUneventful}
use hacs_xbloom.Coordinator.Manual.Runs.{IsHeld-polls, IsHeld, after_polls}
use hacs_xbloom.Coordinator.Connection.Backoff.{
  after_failures-supervisor, after_failures, overflowed-supervisor,
}
use hacs_xbloom.Coordinator.Connection.Standby.{standby-updates, Poll, after_updates}
use hacs_xbloom.Coordinator.Tick.Supervision.{standby_unused}
use hacs_xbloom.Coordinator.Knobs.Wire.{set_temperature-wire}

-- Two listeners, the tank empty.
abbrev thirsty : Coordinator
thirsty = record fresh_coordinator { event_listeners = 7 ∷ 8 ∷ []; water_shortage = true }

abbrev refilled : Event
refilled = notification Notification.water_refilled Attribute.no_attribute

-- The tank runs empty, a brew starts, it runs empty again.
abbrev dry_events : List (Option Client × Event)
dry_events =
    (some fresh_client, failure ErrorType.water_shortage none)
    ∷ (some fresh_client, notification Notification.brewing_started Attribute.no_attribute)
    ∷ (none, failure ErrorType.water_shortage none)
    ∷ (none, notification Notification.bloom (Attribute.pour_index 0))
    ∷ []

after_events-last_verdict_example :
    (after_events dry_events fresh_coordinator).water_shortage
    ≡ otherwise (last_verdict WaterSource.tank dry_events) false
after_events-last_verdict_example = after_events-last_verdict dry_events fresh_coordinator

dry_test : last_verdict WaterSource.tank dry_events ≡ some true
dry_test = refl

heard-dispatch_surfaced_example :
    heard 7 (dispatch_surfaced refilled thirsty).1
    ≡ (if not (is_suppressed refilled thirsty) then refilled ∷ [] else [])
      ++ (if not (dispatch_surfaced refilled thirsty).0.water_shortage
          then shortage_cleared ∷ []
          else [])
heard-dispatch_surfaced_example = heard-dispatch_surfaced 7 refilled thirsty

heard_test : heard 7 (dispatch_surfaced refilled thirsty).1 ≡ refilled ∷ shortage_cleared ∷ []
unfolding dispatch_surfaced
heard_test = refl

-- A machine on its pour page, with a pour armed.
abbrev on_pour_page : Client
on_pour_page = record fresh_client { screen = some Screen.pour; last_page = some Screen.pour }

abbrev armed_pour : Coordinator
armed_pour = record fresh_coordinator { armed_operation = some Armed.pour }

standalone_pour_iff_example :
    (derive_state_string on_pour_page armed_pour ≡ MachineState.standalone_pour) ↔ (
      IsUneventful on_pour_page armed_pour
      × (false ≡ false)
      × ((on_pour_page.screen ≡ some Screen.pour) × (false ≡ false)
          ⊎ (on_pour_page.screen ≡ none) × (armed_pour.armed_operation ≡ some Armed.pour)))
standalone_pour_iff_example = standalone_pour_iff on_pour_page armed_pour

-- A pour that has been paused here, and two polls of its page.
abbrev paused_pour : Coordinator
paused_pour = record fresh_coordinator {
  active_operation = some Operation.manual_pour;
  manual_paused = true;
  manual_run_seen = true;
}

IsHeld-polls_example :
    IsHeld Operation.manual_pour (after_polls (on_pour_page ∷ on_pour_page ∷ []) paused_pour)
    × ((after_polls (on_pour_page ∷ on_pour_page ∷ []) paused_pour).manual_pause_seen ≡ true)
IsHeld-polls_example =
    IsHeld-polls Operation.manual_pour on_pour_page (on_pour_page ∷ []) paused_pour refl
      ((refl, refl, refl), ((refl, refl, refl), tt)) (refl, refl, refl)

after_failures-supervisor_example :
    maybe_schedule_reconnect 21000 false (after_failures (1000 ∷ 7000 ∷ []) fresh_coordinator)
    ≡ (if ltb 21000 (7000 + capped_delay 2) then [] else Effect.reconnect ∷ [])
after_failures-supervisor_example =
    after_failures-supervisor (1000 ∷ []) 7000 21000 false fresh_coordinator refl (omega arith)

backoff_test : backoff_delay 2 ≡ some 10000
unfolding backoff_delay
backoff_test = refl

-- Three and a half days with the machine off.
abbrev long_off : Coordinator
long_off = record fresh_coordinator {
  reconnect_failures = 1024;
  reconnect_blocked_until = 306000000;
}

overflowed-supervisor_example :
    maybe_schedule_reconnect 306001000 false (after_failures (306000000 ∷ []) long_off)
    ≡ Effect.reconnect ∷ []
overflowed-supervisor_example =
    overflowed-supervisor 306000000 [] 306001000 long_off refl (omega arith) (omega arith)

abbrev quiet_poll : Poll
quiet_poll = record { now = 90000; silence = 0; locked = false; status = fresh_client }

abbrev connected : Coordinator
connected = record fresh_coordinator { linked = true }

standby-updates_example :
    let standby = async_enter_idle_standby connected in
    let off = async_disconnect (record connected { idle_disconnected = false }) in
    let off_in_standby = async_disconnect standby in
    (after_updates (λ w. w) (quiet_poll ∷ quiet_poll ∷ []) standby ≡ (standby, []))
    × (after_updates (λ w. w) (quiet_poll ∷ quiet_poll ∷ []) off ≡ (off, []))
    × (after_updates (λ w. w) (quiet_poll ∷ quiet_poll ∷ []) off_in_standby ≡ (off_in_standby, []))
    × ((async_ensure_connected 95000 true standby).1 ≡ true)
    × ((async_ensure_connected 95000 true off_in_standby).1 ≡ true)
    × ((async_ensure_connected 95000 true off).1 ≡ false)
standby-updates_example = standby-updates (λ w. w) (quiet_poll ∷ quiet_poll ∷ []) 95000 connected

unused_test :
    (async_update_data (λ w. w) 90000 100 false fresh_client connected).2
    ≡ Effect.enter_idle_standby ∷ []
unfolding async_update_data
unused_test = refl

standby_unused_test :
    (connected.linked ≡ true)
    × (connected.armed_operation ≡ none)
    × (connected.active_operation ≡ none)
    × (connected.pod_prompt_active ≡ false)
    × (0 < 60000)
    × (0 + 60000 < 90000)
    × (connected.idle_standby_pending ≡ false)
standby_unused_test = standby_unused (λ w. w) 90000 100 false fresh_client connected unused_test

-- The slider at its lower end: room temperature.
abbrev room_warm : Coordinator
room_warm = record fresh_coordinator { temperature = 39 }

set_temperature-wire_example :
    set_temperature (some (wire_temperature room_warm)) room_warm ≡ (room_warm, false)
set_temperature-wire_example = set_temperature-wire room_warm (omega arith) (omega arith)

-- The poll of an idle machine at room temperature takes the slider below its range.
room_test :
    (mirror_idle_knobs (record fresh_client { brewer_temperature = 200 }) room_warm).temperature
    ≡ 20
unfolding mirror_idle_knobs
room_test = refl
