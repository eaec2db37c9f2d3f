-- ===== src/Coordinator/Dispatch/Listeners.antt =====
-- Who hears of an event, and how often.
use mathlib.Core.Path.{ap₂}
use hacs_xbloom.Coordinator.Dispatch.Shortage.{surfaced-SameWater}
use hacs_xbloom.Prelude.{
  ◌∷◌, Bool, List, ℕ, if◌then◌else◌, true, ◌++◌, ◌==◌, ◌≡◌, ◌≤◌, [], ap, false, replicate, ◌+◌,
  arith, refl, ◌&&◌, ◌∙◌, not, suc, Bool-cases, inl, ◌-◌, inr,
}
use hacs_xbloom.Coordinator.{Coordinator, Effect, deliver, differs, is_none}
use hacs_xbloom.Coordinator.Dispatch.{
  dispatch_surfaced, shortage_cleared, to_all, register_event_listener, unregister_event_listener,
  has_listener, is_suppressed, looked_up, when, remove_first, track_shortage, track_start,
  track_pod_prompt, bloom_pour,
}
use hacs_xbloom.Ble.Client.{Event}

-- How often a callback is registered.
abbrev pub registrations : ℕ → List ℕ → ℕ
registrations callback [] = 0
registrations callback (other ∷ rest) =
    let later = registrations callback rest in if callback == other then suc later else later

-- The events that a callback is called with, in order.
abbrev hear : Bool → Event → List Event → List Event
hear true event rest = event ∷ rest
hear false event rest = rest

abbrev pub heard : ℕ → List Effect → List Event
heard callback [] = []
heard callback (deliver other event ∷ rest) = hear (callback == other) event (heard callback rest)
heard callback (_ ∷ rest) = heard callback rest

heard-append :
    (callback : ℕ) (xs ys : List Effect)
    → heard callback (xs ++ ys) ≡ heard callback xs ++ heard callback ys
heard-append callback [] ys = refl
heard-append callback (deliver other event ∷ rest) ys =
    ap (hear (callback == other) event) (heard-append callback rest ys)
    ∙ heard_first (callback == other) (heard callback rest)
  where
    heard_first :
        (b : Bool) (later : List Event)
        → hear b event (later ++ heard callback ys) ≡ hear b event later ++ heard callback ys
    heard_first true later = refl
    heard_first false later = refl
heard-append callback (Effect.refresh ∷ rest) ys = heard-append callback rest ys
heard-append callback (Effect.update_listeners ∷ rest) ys = heard-append callback rest ys
heard-append callback (Effect.drop_stale_link ∷ rest) ys = heard-append callback rest ys
heard-append callback (Effect.enter_idle_standby ∷ rest) ys = heard-append callback rest ys
heard-append callback (Effect.reconnect ∷ rest) ys = heard-append callback rest ys
heard-append callback (Effect.push_units ∷ rest) ys = heard-append callback rest ys
heard-append callback (Effect.persist_units ∷ rest) ys = heard-append callback rest ys
heard-append callback (Effect.persist_mode ∷ rest) ys = heard-append callback rest ys
heard-append callback (Effect.sync_units w t s ∷ rest) ys = heard-append callback rest ys
heard-append callback (Effect.look_up_pod x ∷ rest) ys = heard-append callback rest ys

heard-to_all :
    (callback : ℕ) (callbacks : List ℕ) (event : Event)
    → heard callback (to_all callbacks event) ≡ replicate (registrations callback callbacks) event
heard-to_all callback [] event = refl
heard-to_all callback (other ∷ rest) event = ground (arith, heard-to_all callback rest event)

quiet_refresh : (callback : ℕ) (b : Bool) → heard callback (when b (Effect.refresh ∷ [])) ≡ []
quiet_refresh callback true = refl
quiet_refresh callback false = refl

quiet-looked_up : (callback : ℕ) (event : Event) → heard callback (looked_up event) ≡ []
quiet-looked_up callback event = ground arith

heard-when :
    (callback : ℕ) (b : Bool) (callbacks : List ℕ) (event : Event)
    → heard callback (when b (to_all callbacks event))
      ≡ (if b then replicate (registrations callback callbacks) event else [])
heard-when callback true callbacks event = heard-to_all callback callbacks event
heard-when callback false callbacks event = refl

heard_parts :
    (callback : ℕ) (first second third fourth last : List Effect)
    → heard callback first ≡ []
    → heard callback second ≡ []
    → heard callback third ≡ []
    → heard callback (first ++ (second ++ (third ++ (fourth ++ last))))
      ≡ heard callback fourth ++ heard callback last
heard_parts callback first second third fourth last p q r =
    rw
      (
        heard-append callback first (second ++ (third ++ (fourth ++ last))),
        p,
        heard-append callback second (third ++ (fourth ++ last)),
        q,
        heard-append callback third (fourth ++ last),
        r,
        heard-append callback fourth last,
      )
      refl

-- A callback hears a surfaced event once for each registration, unless it is suppressed, and after
-- it, once for each, that the water shortage is over, exactly if the event ends a shortage.
pub heard-dispatch_surfaced :
    (callback : ℕ) (event : Event) (c : Coordinator)
    → heard callback (dispatch_surfaced event c).1
      ≡ (if not (is_suppressed event c)
          then replicate (registrations callback c.event_listeners) event
          else [])
        ++ (if c.water_shortage && not (dispatch_surfaced event c).0.water_shortage
            then replicate (registrations callback c.event_listeners) shortage_cleared
            else [])
unfolding dispatch_surfaced
heard-dispatch_surfaced callback event c =
    let flagged = track_shortage event c in
    let started = track_start event (track_pod_prompt event flagged) in
    rw (surfaced-SameWater event c).0 (
      heard_parts callback
        (when (differs c.water_shortage flagged.water_shortage) (Effect.refresh ∷ []))
        (when (not (is_none (bloom_pour event started))) (Effect.refresh ∷ [])) (looked_up event)
        (when (not (is_suppressed event c)) (to_all c.event_listeners event))
        (when (c.water_shortage && not flagged.water_shortage)
          (to_all c.event_listeners shortage_cleared))
        (quiet_refresh callback _) (quiet_refresh callback _) (quiet-looked_up callback event)
      ∙ ap₂ (λ xs ys. xs ++ ys) (heard-when callback _ c.event_listeners event)
          (heard-when callback _ c.event_listeners shortage_cleared))

registrations-append :
    (callback : ℕ) (xs ys : List ℕ)
    → registrations callback (xs ++ ys) ≡ registrations callback xs + registrations callback ys
registrations-append callback [] ys = omega arith
registrations-append callback (x ∷ xs) ys = grind (arith, registrations-append callback xs ys)

-- No callback is registered twice.
abbrev pub IsUnique : List ℕ → Type 0
IsUnique callbacks = (callback : ℕ) → registrations callback callbacks ≤ 1

has_listener-registrations :
    (callback : ℕ) (callbacks : List ℕ)
    → has_listener callback callbacks ≡ false
    → registrations callback callbacks ≡ 0
has_listener-registrations callback [] h = refl
has_listener-registrations callback (other ∷ rest) h =
    ground (arith, has_listener-registrations callback rest)

has_listener_once :
    (callback : ℕ) (callbacks : List ℕ)
    → has_listener callback callbacks ≡ true
    → 1 ≤ registrations callback callbacks
has_listener_once callback [] h = absurd (grind arith)
has_listener_once callback (other ∷ rest) h = grind (arith, has_listener_once callback rest)

-- Registering keeps every callback registered at most once, and the callback is registered then.
pub register-IsUnique :
    (callback : ℕ) (c : Coordinator)
    → IsUnique c.event_listeners
    → IsUnique (register_event_listener callback c).event_listeners
      × (registrations callback (register_event_listener callback c).event_listeners ≡ 1)
unfolding register_event_listener
register-IsUnique callback c h = elim (Bool-cases (has_listener callback c.event_listeners)) [
  | inl present ↦
      rw present
        (h, grind (arith, h callback, has_listener_once callback c.event_listeners present))
  | inr absent ↦ rw absent (
    λ other. appended other (h other) absent,
    grind (
      arith,
      registrations-append callback c.event_listeners (callback ∷ []),
      has_listener-registrations callback c.event_listeners absent,
    ),
  )
]
  where
    appended :
        (other : ℕ)
        → registrations other c.event_listeners ≤ 1
        → has_listener callback c.event_listeners ≡ false
        → registrations other (c.event_listeners ++ callback ∷ []) ≤ 1
    appended other once absent = grind (
      arith,
      registrations-append other c.event_listeners (callback ∷ []),
      has_listener-registrations callback c.event_listeners absent,
    )

registrations-remove_first :
    (other callback : ℕ) (callbacks : List ℕ)
    → registrations other (remove_first callback callbacks) ≡ (
        if other == callback
        then registrations callback callbacks - 1
        else registrations other callbacks)
registrations-remove_first other callback [] = grind arith
registrations-remove_first other callback (x ∷ xs) =
    grind (arith, registrations-remove_first other callback xs)

-- Unregistering removes the callback and no other.
pub unregister-IsUnique :
    (callback : ℕ) (c : Coordinator)
    → IsUnique c.event_listeners
    → (other : ℕ)
    → registrations other (unregister_event_listener callback c).event_listeners
      ≡ (if other == callback then 0 else registrations other c.event_listeners)
unfolding unregister_event_listener
unregister-IsUnique callback c h other =
    grind (arith, registrations-remove_first other callback c.event_listeners, h callback)
