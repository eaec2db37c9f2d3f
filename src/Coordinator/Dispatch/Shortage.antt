-- ===== src/Coordinator/Dispatch/Shortage.antt =====
-- The water-shortage flag over any sequence of events, against what the events say of the tank.
use hacs_xbloom.Coordinator.Knobs.{apply_brewer_knob, apply_brewer_page_entry, apply_grinder_knob}
use hacs_xbloom.Prelude.{◌∷◌, [], arith, ◌∙◌, ℕ, ap, refl}
use hacs_xbloom.Prelude.{List, Option, Bool, ◌≡◌, none, some, true, false}
use hacs_xbloom.Coordinator.{Coordinator, WaterSource, tank, direct}
use hacs_xbloom.Coordinator.Dispatch.{
  dispatch_event, dispatch_surfaced, track_shortage, track_pod_prompt, track_run, track_start,
}
use hacs_xbloom.Ble.Client.{Client, Event, Notification, ErrorType, notification, failure}

-- The coordinator after some events, each met in its own state of the client.
unfoldable pub after_events : List (Option Client × Event) → Coordinator → Coordinator
unfolding dispatch_event
after_events [] c = c
after_events ((status, event) ∷ rest) c = after_events rest (dispatch_event status event c).0

-- What an event says of the water, if it says anything: that it lacks, or that there is some.
-- A machine on the water line has water whatever it reports.
abbrev pub verdict : WaterSource → Event → Option Bool
verdict tank (failure ErrorType.water_shortage _) = some true
verdict direct (failure ErrorType.water_shortage _) = some false
verdict _ (notification Notification.water_refilled _) = some false
verdict _ (notification Notification.brewing_started _) = some false
verdict _ (notification Notification.pour_complete _) = some false
verdict _ (notification Notification.recipe_complete _) = some false
verdict _ _ = none

-- The last verdict counts.
abbrev pub last_verdict : WaterSource → List (Option Client × Event) → Option Bool
last_verdict source [] = none
last_verdict source ((_, event) ∷ rest) = elim (last_verdict source rest) [
  | none ↦ verdict source event
  | some v ↦ some v
]

abbrev pub otherwise : Option Bool → Bool → Bool
otherwise none b = b
otherwise (some v) b = v

-- What one coordinator has of the water, another has too.
abbrev pub SameWater : Coordinator → Coordinator → Type 0
SameWater c d = (d.water_shortage ≡ c.water_shortage) × (d.water_source ≡ c.water_source)

SameWater-trans : (a b c : Coordinator) → SameWater a b → SameWater b c → SameWater a c
SameWater-trans a b c (p, q) (r, t) = (r ∙ p, t ∙ q)

track_pod_prompt-SameWater :
    (event : Event) (c : Coordinator) → SameWater c (track_pod_prompt event c)
unfolding track_pod_prompt
track_pod_prompt-SameWater event c = ground arith

track_start-SameWater : (event : Event) (c : Coordinator) → SameWater c (track_start event c)
unfolding track_start
track_start-SameWater event c = ground arith

track_run-SameWater : (event : Event) (c : Coordinator) → SameWater c (track_run event c)
unfolding track_run
track_run-SameWater event c = ground arith

apply_grinder_knob-SameWater :
    (status : Option Client) (size rpm : Option ℕ) (c : Coordinator)
    → SameWater c (apply_grinder_knob status size rpm c).0
unfolding apply_grinder_knob
apply_grinder_knob-SameWater status size rpm c = ground arith

apply_brewer_knob-SameWater :
    (status : Option Client) (t p : Option ℕ) (c : Coordinator)
    → SameWater c (apply_brewer_knob status t p c).0
unfolding apply_brewer_knob
apply_brewer_knob-SameWater status t p c = ground arith

apply_brewer_page_entry-SameWater :
    (status : Option Client) (v t p : ℕ) (c : Coordinator)
    → SameWater c (apply_brewer_page_entry status v t p c).0
unfolding apply_brewer_page_entry
apply_brewer_page_entry-SameWater status v t p c = ground arith

track_shortage-verdict :
    (event : Event) (c : Coordinator)
    → ((track_shortage event c).water_shortage
        ≡ otherwise (verdict c.water_source event) c.water_shortage)
      × ((track_shortage event c).water_source ≡ c.water_source)
unfolding track_shortage
track_shortage-verdict event c = ground arith

-- Behind the flag itself, nothing touches the water.
pub surfaced-SameWater :
    (event : Event) (c : Coordinator)
    → SameWater (track_shortage event c) (dispatch_surfaced event c).0
unfolding dispatch_surfaced
surfaced-SameWater event c =
    let flagged = track_shortage event c in
    let prompted = track_pod_prompt event flagged in
    let started = track_start event prompted in
    SameWater-trans flagged started (track_run event started)
      (SameWater-trans flagged prompted started (track_pod_prompt-SameWater event flagged)
        (track_start-SameWater event prompted))
      (track_run-SameWater event started)

surfaced-verdict :
    (event : Event) (c : Coordinator)
    → ((dispatch_surfaced event c).0.water_shortage
        ≡ otherwise (verdict c.water_source event) c.water_shortage)
      × ((dispatch_surfaced event c).0.water_source ≡ c.water_source)
surfaced-verdict event c =
    let (water, source) = surfaced-SameWater event c in
    let (said, kept) = track_shortage-verdict event c in (water ∙ said, source ∙ kept)

-- An event changes the flag by its verdict only, and not the water source.
dispatch-verdict :
    (status : Option Client) (event : Event) (c : Coordinator)
    → ((dispatch_event status event c).0.water_shortage
        ≡ otherwise (verdict c.water_source event) c.water_shortage)
      × ((dispatch_event status event c).0.water_source ≡ c.water_source)
unfolding dispatch_event
dispatch-verdict status (notification n attr) c = surfaced-verdict (notification n attr) c
dispatch-verdict status (failure e code) c = surfaced-verdict (failure e code) c
dispatch-verdict status (Event.grinder_knob size rpm) c =
    ground (arith, apply_grinder_knob-SameWater status size rpm c)
dispatch-verdict status (Event.brewer_knob t p) c =
    ground (arith, apply_brewer_knob-SameWater status t p c)
dispatch-verdict status (Event.brewer_page_entry v t p) c =
    ground (arith, apply_brewer_page_entry-SameWater status v t p c)
dispatch-verdict status (Event.unit_change w t s) c = ground arith

later_verdict :
    (first last : Option Bool) (before now flag : Bool)
    → flag ≡ otherwise last now
    → now ≡ otherwise first before
    → flag ≡ otherwise (elim last [ none ↦ first | some v ↦ some v ]) before
later_verdict first none before now flag p q = p ∙ q
later_verdict first (some v) before now flag p q = p

-- After any sequence of events the water-shortage flag is what the last event that says something
-- of the water says, read for the machine's water source, and as before if none does.
pub after_events-last_verdict :
    (events : List (Option Client × Event)) (c : Coordinator)
    → (after_events events c).water_shortage
      ≡ otherwise (last_verdict c.water_source events) c.water_shortage
unfolding after_events
after_events-last_verdict [] c = refl
after_events-last_verdict ((status, event) ∷ rest) c =
    let (here, source) = dispatch-verdict status event c in
    let later = after_events-last_verdict rest (dispatch_event status event c).0 in
    later_verdict (verdict c.water_source event) (last_verdict c.water_source rest) _ _ _
      (later
        ∙ ap (λ w. otherwise (last_verdict w rest) (dispatch_event status event c).0.water_shortage)
            source)
      here
