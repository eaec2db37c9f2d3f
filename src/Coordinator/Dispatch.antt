-- ===== src/Coordinator/Dispatch.antt =====
-- coordinator/state.py: `_dispatch_event`, what an event of the client does to the bookkeeping and
-- which listeners hear of it; `register_event_listener`, `unregister_event_listener`,
-- `_finish_run`.
pub mod Listeners
pub mod Setpoints
pub mod Shortage
use hacs_xbloom.Ble.Models.{PourStep}
use hacs_xbloom.Coordinator.Knobs.{apply_grinder_knob, apply_brewer_knob, apply_brewer_page_entry}
use hacs_xbloom.Coordinator.Manual.{clear_manual_run}
use hacs_xbloom.Prelude.{
  Bool, List, Option, if◌then◌else◌, none, true, ℕ, [], false, not, some, ◌++◌, ◌∷◌, get_elem?,
  ◌==◌, ◌||◌, ◌&&◌,
}
use hacs_xbloom.Coordinator.{
  Coordinator, Effect, Armed, Operation, WaterSource, deliver, is_tank, differs, is_active,
  is_armed, look_up_pod, manual_grind, refresh, is_none, manual_pour, sync_units,
}
use hacs_xbloom.Ble.Client.{
  Client, Event, Notification, ErrorType, notification, failure, Attribute, pour_index, xid,
  grinder_knob, brewer_knob, brewer_page_entry,
}

abbrev pub has_listener : ℕ → List ℕ → Bool
has_listener callback [] = false
has_listener callback (other ∷ rest) = callback == other || has_listener callback rest

unfoldable pub register_event_listener : ℕ → Coordinator → Coordinator
register_event_listener callback c =
    if has_listener callback c.event_listeners
    then c
    else record c { event_listeners = c.event_listeners ++ callback ∷ [] }

-- list.remove: the first one goes; none is no error here
abbrev pub remove_first : ℕ → List ℕ → List ℕ
remove_first callback [] = []
remove_first callback (other ∷ rest) =
    if callback == other then rest else other ∷ remove_first callback rest

unfoldable pub unregister_event_listener : ℕ → Coordinator → Coordinator
unregister_event_listener callback c = record c {
  event_listeners = remove_first callback c.event_listeners;
}

abbrev pub finish_run : Coordinator → Coordinator
finish_run c = clear_manual_run (record c {
  executing_recipe = false;
  active_recipe_pours = none;
  current_pour_index = none;
  active_operation = none;
})

-- The water-shortage flag.
unfoldable pub track_shortage : Event → Coordinator → Coordinator
track_shortage (failure ErrorType.water_shortage _) c = record c {
  water_shortage = is_tank c.water_source;
}
track_shortage (notification Notification.water_refilled _) c = record c { water_shortage = false }
track_shortage (notification Notification.brewing_started _) c = record c { water_shortage = false }
track_shortage (notification Notification.pour_complete _) c = record c { water_shortage = false }
track_shortage (notification Notification.recipe_complete _) c = record c { water_shortage = false }
track_shortage _ c = c

-- `suppress_event`
unfoldable pub is_suppressed : Event → Coordinator → Bool
is_suppressed (failure ErrorType.water_shortage _) c = not (is_tank c.water_source)
is_suppressed _ c = false

unfoldable pub track_pod_prompt : Event → Coordinator → Coordinator
track_pod_prompt (notification Notification.pod_detected _) c = record c {
  pod_prompt_active = true;
}
track_pod_prompt (notification Notification.grinding_started _) c = record c {
  pod_prompt_active = false;
}
track_pod_prompt (notification Notification.brewing_started _) c = record c {
  pod_prompt_active = false;
}
track_pod_prompt _ c = c

abbrev start_recipe : Coordinator → Coordinator
start_recipe c = record c {
  armed_operation = none;
  armed_recipe_is_tea = false;
  armed_recipe_tea_payload = none;
  active_operation = some Operation.recipe;
}

abbrev start_manual : Operation → Coordinator → Coordinator
start_manual op c = record c { armed_operation = none; active_operation = some op }

-- The machine starts what was armed.
unfoldable pub track_start : Event → Coordinator → Coordinator
track_start (notification Notification.easy_slot_started _) c = start_recipe c
track_start (notification Notification.grinding_started _) c =
    if is_armed c.armed_operation Armed.recipe
    then start_recipe c
    else if is_armed c.armed_operation Armed.grind
    then start_manual manual_grind c
    else c
track_start (notification Notification.brewing_started _) c =
    if is_armed c.armed_operation Armed.recipe
    then start_recipe c
    else if is_armed c.armed_operation Armed.pour
    then start_manual manual_pour c
    else c
track_start _ c = c

-- The pour of the running recipe that an event "bloom" names.
abbrev pub pour_at : Option (List PourStep) → Attribute → Option PourStep
pour_at (some pours) (pour_index i) = get_elem? pours i
pour_at _ _ = none

abbrev pub index_of : Attribute → ℕ
index_of (pour_index i) = i
index_of _ = 0

unfoldable pub bloom_pour : Event → Coordinator → Option PourStep
bloom_pour (notification Notification.bloom attr) c =
    if c.executing_recipe then pour_at c.active_recipe_pours attr else none
bloom_pour _ c = none

abbrev pub enter_pour : Option PourStep → Attribute → Coordinator → Coordinator
enter_pour none attr c = c
enter_pour (some p) attr c = record c {
  current_pour_index = some (index_of attr);
  flow_rate = p.flow_rate;
}

-- The pours of the running recipe, and its end.
unfoldable pub track_run : Event → Coordinator → Coordinator
unfolding bloom_pour
track_run (notification Notification.bloom attr) c =
    enter_pour (bloom_pour (notification Notification.bloom attr) c) attr c
track_run (notification Notification.pour_complete _) c = finish_run c
track_run (notification Notification.recipe_complete _) c = finish_run c
track_run (failure ErrorType.no_beans _) c = finish_run c
track_run (failure ErrorType.abnormal_dose_or_water _) c = finish_run c
track_run (failure ErrorType.abnormal_gear_position _) c = finish_run c
track_run (notification Notification.grinding_complete _) c =
    if is_active c.active_operation manual_grind then record c { active_operation = none } else c
track_run _ c = c

-- One event to every listener, in the order of registration.
abbrev pub to_all : List ℕ → Event → List Effect
to_all [] event = []
to_all (callback ∷ rest) event = deliver callback event ∷ to_all rest event

abbrev pub when : Bool → List Effect → List Effect
when true effects = effects
when false effects = []

-- A pod with an identity is looked up in the cloud before its event is delivered.
abbrev pub looked_up : Event → List Effect
looked_up (notification Notification.pod_detected (xid (byte ∷ bytes))) =
    look_up_pod (byte ∷ bytes) ∷ []
looked_up _ = []

abbrev pub shortage_cleared : Event
shortage_cleared = failure ErrorType.water_shortage_cleared none

-- The part of `_dispatch_event` for the categories "notification" and "error".
unfoldable pub dispatch_surfaced : Event → Coordinator → Coordinator × List Effect
unfolding track_shortage track_pod_prompt track_start track_run bloom_pour is_suppressed
dispatch_surfaced event c =
    let flagged = track_shortage event c in
    let started = track_start event (track_pod_prompt event flagged) in
    let tracked = track_run event started in
    (
      tracked,
      when (differs c.water_shortage flagged.water_shortage) (refresh ∷ [])
          ++ (when (not (is_none (bloom_pour event started))) (refresh ∷ [])
              ++ (looked_up event
                  ++ (when (not (is_suppressed event c)) (to_all c.event_listeners event)
                      ++ when (c.water_shortage && not flagged.water_shortage)
                          (to_all c.event_listeners shortage_cleared)))),
    )

unfoldable pub dispatch_event : Option Client → Event → Coordinator → Coordinator × List Effect
unfolding dispatch_surfaced apply_grinder_knob apply_brewer_knob apply_brewer_page_entry
dispatch_event status (grinder_knob size rpm) c = apply_grinder_knob status size rpm c
dispatch_event status (brewer_knob temperature pattern) c =
    apply_brewer_knob status temperature pattern c
dispatch_event status (brewer_page_entry volume temperature pattern) c =
    apply_brewer_page_entry status volume temperature pattern c
dispatch_event status (Event.unit_change w t source) c = (c, sync_units w t source ∷ [])
dispatch_event status (notification n attr) c = dispatch_surfaced (notification n attr) c
dispatch_event status (failure e code) c = dispatch_surfaced (failure e code) c
