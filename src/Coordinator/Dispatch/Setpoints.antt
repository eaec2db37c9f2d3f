-- ===== src/Coordinator/Dispatch/Setpoints.antt =====
-- What the bookkeeping always satisfies under events: the setpoints stay on their sliders, and the
-- pour that is shown is one of the running recipe.
use hacs_xbloom.Prelude.{
  none, refl, ◌∷◌, List, Option, ◌≤◌, ℕ, arith, get_elem?, some, ◌≡◌, ◌<◌, length, suc, [], zero,
}
use hacs_xbloom.Ble.Client.{Event, Notification, Client, notification, failure, Attribute}
use hacs_xbloom.Ble.Models.{PourStep}
use hacs_xbloom.Coordinator.Knobs.{apply_brewer_knob, apply_brewer_page_entry, apply_grinder_knob}
use hacs_xbloom.Coordinator.{Coordinator}
use hacs_xbloom.Coordinator.Dispatch.{
  dispatch_event, dispatch_surfaced, track_run, bloom_pour, pour_at, enter_pour, index_of,
  track_pod_prompt, track_shortage, track_start,
}

-- The ranges of the number and select entities.
abbrev pub HasValidSetpoints : Coordinator → Type 0
HasValidSetpoints c =
    (1 ≤ c.grind_size)
    × (c.grind_size ≤ 80)
    × (60 ≤ c.rpm)
    × (c.rpm ≤ 120)
    × (30 ≤ c.volume)
    × (c.volume ≤ 500)
    × (c.pour_pattern ≤ 2)

-- An index that is shown is that of a pour of the running recipe.
abbrev pub IsPourOf : Option ℕ → Option (List PourStep) → Type 0
IsPourOf none pours = Unit
IsPourOf (some i) none = ⊥
IsPourOf (some i) (some pours) = i < length pours

abbrev pub HasValidPour : Coordinator → Type 0
HasValidPour c = IsPourOf c.current_pour_index c.active_recipe_pours

knobs-valid :
    (status : Option Client) (size rpm : Option ℕ) (c : Coordinator)
    → HasValidSetpoints c
    → HasValidSetpoints (apply_grinder_knob status size rpm c).0
unfolding apply_grinder_knob
knobs-valid status size rpm c h = ground arith

brewer_knob-valid :
    (status : Option Client) (t p : Option ℕ) (c : Coordinator)
    → HasValidSetpoints c
    → HasValidSetpoints (apply_brewer_knob status t p c).0
unfolding apply_brewer_knob
brewer_knob-valid status t p c h = ground arith

page_entry-valid :
    (status : Option Client) (v t p : ℕ) (c : Coordinator)
    → HasValidSetpoints c
    → HasValidSetpoints (apply_brewer_page_entry status v t p c).0
unfolding apply_brewer_page_entry
page_entry-valid status v t p c h = ground arith

get_elem?-some :
    (pours : List PourStep) (i : ℕ) (p : PourStep) → get_elem? pours i ≡ some p → i < length pours
get_elem?-some [] i p h = ground arith
get_elem?-some (q ∷ qs) zero p h = omega arith
get_elem?-some (q ∷ qs) (suc i) p h = omega (arith, get_elem?-some qs i p h)

entered-valid :
    (pours : Option (List PourStep)) (attr : Attribute) (p : PourStep)
    → pour_at pours attr ≡ some p
    → IsPourOf (some (index_of attr)) pours
entered-valid (some pours) (Attribute.pour_index i) p h = get_elem?-some pours i p h
entered-valid pours attr p h = ground arith

-- The name of the running pour is set from its place in the list.
bloom-valid :
    (attr : Attribute) (c : Coordinator) (found : Option PourStep)
    → HasValidPour c
    → ((p : PourStep) → found ≡ some p → pour_at c.active_recipe_pours attr ≡ some p)
    → HasValidPour (enter_pour found attr c)
bloom-valid attr c none h f = h
bloom-valid attr c (some p) h f = entered-valid c.active_recipe_pours attr p (f p refl)

track_run-valid :
    (event : Event) (c : Coordinator) → HasValidPour c → HasValidPour (track_run event c)
unfolding track_run bloom_pour
track_run-valid (notification Notification.bloom attr) c h =
    bloom-valid attr c (bloom_pour (notification Notification.bloom attr) c) h (λ p e. ground arith)
track_run-valid event c h = ground arith

-- Both together.
abbrev pub IsSound : Coordinator → Type 0
IsSound c = HasValidPour c × HasValidSetpoints c

track_shortage-IsSound :
    (event : Event) (c : Coordinator) → IsSound c → IsSound (track_shortage event c)
unfolding track_shortage
track_shortage-IsSound event c h = ground arith

track_pod_prompt-IsSound :
    (event : Event) (c : Coordinator) → IsSound c → IsSound (track_pod_prompt event c)
unfolding track_pod_prompt
track_pod_prompt-IsSound event c h = ground arith

track_start-IsSound : (event : Event) (c : Coordinator) → IsSound c → IsSound (track_start event c)
unfolding track_start
track_start-IsSound event c h = ground arith

track_run-setpoints :
    (event : Event) (c : Coordinator) → HasValidSetpoints c → HasValidSetpoints (track_run event c)
unfolding track_run bloom_pour
track_run-setpoints event c h = ground arith

surfaced-IsSound :
    (event : Event) (c : Coordinator) → IsSound c → IsSound (dispatch_surfaced event c).0
unfolding dispatch_surfaced
surfaced-IsSound event c h =
    let started = track_start event (track_pod_prompt event (track_shortage event c)) in
    let (pour, setpoints) =
      track_start-IsSound event _
        (track_pod_prompt-IsSound event _ (track_shortage-IsSound event c h)) in
    (track_run-valid event started pour, track_run-setpoints event started setpoints)

knob_pour-valid :
    (status : Option Client) (size rpm t p : Option ℕ) (v w q : ℕ) (c : Coordinator)
    → HasValidPour c
    → HasValidPour (apply_grinder_knob status size rpm c).0
      × HasValidPour (apply_brewer_knob status t p c).0
      × HasValidPour (apply_brewer_page_entry status v w q c).0
unfolding apply_grinder_knob apply_brewer_knob apply_brewer_page_entry
knob_pour-valid status size rpm t p v w q c h = ground arith

-- Whatever event arrives, the pour that is shown stays one of the running recipe, and the grind
-- size, the speed, the volume and the pattern stay in the ranges of their entities.
pub dispatch_event-IsSound :
    (status : Option Client) (event : Event) (c : Coordinator)
    → IsSound c
    → IsSound (dispatch_event status event c).0
unfolding dispatch_event
dispatch_event-IsSound status (Event.grinder_knob size rpm) c (pour, setpoints) = (
  (knob_pour-valid status size rpm none none 0 0 0 c pour).0,
  knobs-valid status size rpm c setpoints,
)
dispatch_event-IsSound status (Event.brewer_knob t p) c (pour, setpoints) = (
  (knob_pour-valid status none none t p 0 0 0 c pour).1,
  brewer_knob-valid status t p c setpoints,
)
dispatch_event-IsSound status (Event.brewer_page_entry v t p) c (pour, setpoints) = (
  (knob_pour-valid status none none none none v t p c pour).2,
  page_entry-valid status v t p c setpoints,
)
dispatch_event-IsSound status (Event.unit_change w t s) c h = h
dispatch_event-IsSound status (notification n attr) c h = surfaced-IsSound (notification n attr) c h
dispatch_event-IsSound status (failure e code) c h = surfaced-IsSound (failure e code) c h
