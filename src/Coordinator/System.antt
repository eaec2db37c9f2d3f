-- ===== src/Coordinator/System.antt =====
-- The client and the coordinator together: a notification changes the client and its events change
-- the coordinator, a poll reads the client. What holds after any sequence of the two.
mod Tests
use mathlib.Core.Option.{some-injective}
use mathlib.Core.Path.{subst}
use hacs_xbloom.Bytes.Laws.{bind-some}
use hacs_xbloom.Prelude.Int.{ℤ}
use hacs_xbloom.Coordinator.Connection.{note_activity}
use hacs_xbloom.Coordinator.Manual.{
  reconcile_manual_operation, reconcile_armed_with_screen, on_page, settle, operation_page, at_page,
  note_running, adopt, manual_running, page_operation,
}
use hacs_xbloom.Coordinator.State.{tracked_live_grind_size, MachineState, derive_state_string}
use hacs_xbloom.Prelude.{
  ◌∷◌, ℕ, Option, Bool, List, suc, [], arith, some, none, Bool-cases, inl, inr, ◌≡◌, if◌then◌else◌,
  not, true, false,
}
use hacs_xbloom.Bytes.{Bytes, ◌>>=◌}
use hacs_xbloom.Ble.Client.{Client, Event, Screen}
use hacs_xbloom.Ble.Client.Notify.{on_notification}
use hacs_xbloom.Ble.Client.Notify.Readings.{HasValidReadings, IsPatternLive}
use hacs_xbloom.Ble.Client.Notify.Sound.{on_notification-valid}
use hacs_xbloom.Coordinator.{Coordinator, Operation, Effect}
use hacs_xbloom.Coordinator.Dispatch.{dispatch_event}
use hacs_xbloom.Coordinator.Dispatch.Setpoints.{IsSound, dispatch_event-IsSound}
use hacs_xbloom.Coordinator.Tick.{
  async_update_data, read_status, mirror_idle_knobs, is_idle, is_quiet, Data, is_stale, is_unused,
}

-- What happens: a notification arrives, or the poll runs. `meets` is the status that the n-th event
-- of the notification meets: the events are fired while the client is being updated.
pub data Happening : Type 0 where
  notified : Bytes → (ℕ → Option Client) → Happening
  polled : ℕ → ℕ → Bool → Happening

-- The events of one notification, in order.
unfoldable pub dispatch_all : (ℕ → Option Client) → ℕ → List Event → Coordinator → Coordinator
unfolding dispatch_event
dispatch_all meets n [] c = c
dispatch_all meets n (event ∷ rest) c =
    dispatch_all meets (suc n) rest (dispatch_event (meets n) event c).0

dispatch_all-IsSound :
    (meets : ℕ → Option Client) (n : ℕ) (events : List Event) (c : Coordinator)
    → IsSound c
    → IsSound (dispatch_all meets n events c)
unfolding dispatch_all
dispatch_all-IsSound meets n [] c h = h
dispatch_all-IsSound meets n (event ∷ rest) c h =
    dispatch_all-IsSound meets (suc n) rest _ (dispatch_event-IsSound (meets n) event c h)

settle-IsSound :
    (page : Option Screen) (s : Client) (c : Coordinator) → IsSound c → IsSound (settle page s c)
settle-IsSound none s c h = h
settle-IsSound (some own) s c h = at_page-IsSound s.screen
  where
    at_page-IsSound : (screen : Option Screen) → IsSound (at_page screen own c)
    at_page-IsSound none = h
    at_page-IsSound (some shown) = ground arith

on_page-IsSound :
    (op : Option Operation) (s : Client) (c : Coordinator) → IsSound c → IsSound (on_page op s c)
on_page-IsSound none s c h = settle-IsSound (operation_page c.active_operation) s c h
on_page-IsSound (some op) s c h = elim (Bool-cases (manual_running s op)) [
  | inl running ↦ rw running (noted (adopt op s c) adopted)
  | inr still ↦ rw still (settle-IsSound (operation_page c.active_operation) s c h)
]
  where
    noted : (d : Coordinator) → IsSound d → IsSound (note_running op d)
    noted d k = ground arith

    adopted : IsSound (adopt op s c)
    adopted = ground arith

armed-IsSound :
    (s : Client) (c : Coordinator) → IsSound c → IsSound (reconcile_armed_with_screen s c)
unfolding reconcile_armed_with_screen
armed-IsSound s c h = ground arith

mirror-IsSound :
    (s : Client) (c : Coordinator)
    → IsPatternLive s.pour_pattern_live
    → IsSound c
    → IsSound (mirror_idle_knobs s c)
unfolding mirror_idle_knobs
mirror-IsSound s c live h = ground arith

tracked-IsSound : (s : Client) (c : Coordinator) → IsSound c → IsSound (tracked_live_grind_size s c)
unfolding tracked_live_grind_size
tracked-IsSound s c h = ground arith

reconciled : (s : Client) (c : Coordinator) → IsSound c → IsSound (reconcile_manual_operation s c)
unfolding reconcile_manual_operation
reconciled s c h = on_page-IsSound (page_operation s.last_page) s c h

mirrored :
    (idle quiet : Bool) (now : ℕ) (s : Client) (c : Coordinator)
    → IsPatternLive s.pour_pattern_live
    → IsSound c
    → IsSound (
        let noted = (if quiet then c else note_activity now c) in
        if idle then mirror_idle_knobs s noted else noted)
unfolding note_activity
mirrored true true now s c live h = mirror-IsSound s c live h
mirrored true false now s c live h = mirror-IsSound s (note_activity now c) live h
mirrored false true now s c live h = h
mirrored false false now s c live h = h

either_way :
    (b : Bool) (x y : Data × Coordinator × List Effect)
    → IsSound x.1
    → IsSound y.1
    → IsSound (if b then x else y).1
either_way true x y h k = h
either_way false x y h k = k

module _ (is_far : ℕ → ℕ → Bool) (float_to_int : ℕ → Option ℤ) (round1 : ℕ → ℕ) where
  read_status-IsSound :
      (now : ℕ) (s : Client) (c : Coordinator)
      → IsPatternLive s.pour_pattern_live
      → IsSound c
      → IsSound (read_status round1 now s c).1
  unfolding read_status note_activity
  read_status-IsSound now s c live h =
      let seen = reconcile_manual_operation s (reconcile_armed_with_screen s c) in
      let tracked = tracked_live_grind_size s seen in
      mirrored (is_idle (derive_state_string s seen)) (is_quiet (derive_state_string s seen)) now s
        tracked live
        (tracked-IsSound s seen
          (reconciled s (reconcile_armed_with_screen s c) (armed-IsSound s c h)))

  update-IsSound :
      (now silence : ℕ) (locked : Bool) (s : Client) (c : Coordinator)
      → IsPatternLive s.pour_pattern_live
      → IsSound c
      → IsSound (async_update_data round1 now silence locked s c).1
  unfolding async_update_data
  update-IsSound now silence locked s c live h = either_way (not c.linked) _ _ h (
      either_way (is_stale round1 silence s c) _ _ h
        (either_way (is_unused round1 now c) _ _ h (read_status-IsSound now s c live h)))

  -- One happening.
  unfoldable pub happen : Happening → Client × Coordinator → Option (Client × Coordinator)
  unfolding dispatch_all
  happen (notified raw meets) (s, c) = do
    (t, events) ← on_notification is_far float_to_int raw s
    some (t, dispatch_all meets 0 events c)
  happen (polled now silence locked) (s, c) =
      some (s, (async_update_data round1 now silence locked s c).1)

  unfoldable pub happen_all : List Happening → Client × Coordinator → Option (Client × Coordinator)
  unfolding happen
  happen_all [] w = some w
  happen_all (h ∷ hs) w = do v ← happen h w; happen_all hs v

  -- The readings of the client and the bookkeeping of the coordinator are sound.
  abbrev pub IsSoundWorld : Client × Coordinator → Type 0
  IsSoundWorld w = HasValidReadings w.0 × IsSound w.1

  happen-IsSoundWorld :
      (h : Happening) (w : Client × Coordinator) {v : Client × Coordinator}
      → happen h w ≡ some v
      → IsSoundWorld w
      → IsSoundWorld v
  unfolding happen
  happen-IsSoundWorld (notified raw meets) (s, c) {v} e (readings, sound) =
      let ((t, events), handled, rest) =
        bind-some (on_notification is_far float_to_int raw s) _ e in
      subst IsSoundWorld {x = (t, dispatch_all meets 0 events c)} {y = v} (some-injective _ _ rest)
        (
          on_notification-valid is_far float_to_int raw s handled readings,
          dispatch_all-IsSound meets 0 events c sound,
        )
  happen-IsSoundWorld (polled now silence locked) (s, c) {v} e (readings, sound) =
      subst IsSoundWorld {x = (s, (async_update_data round1 now silence locked s c).1)} {y = v}
        (some-injective _ _ e) (readings, update-IsSound now silence locked s c readings.0 sound)

  -- After any sequence of notifications and polls that is handled, whatever bytes arrive and whatever
  -- status each event meets, the readings of the client are valid, the pour that is shown is one of
  -- the running recipe, and the grind size, the speed, the volume and the pattern are in the ranges of
  -- their entities, if all this held before; how floats are read and rounded does not matter.
  pub happen_all-IsSoundWorld :
      (hs : List Happening) (w : Client × Coordinator) {v : Client × Coordinator}
      → happen_all hs w ≡ some v
      → IsSoundWorld w
      → IsSoundWorld v
  unfolding happen_all
  happen_all-IsSoundWorld [] w {v} e k = subst IsSoundWorld {x = w} {y = v} (some-injective _ _ e) k
  happen_all-IsSoundWorld (h ∷ hs) w e k =
      let (u, first, rest) = bind-some (happen h w) _ e in
      happen_all-IsSoundWorld hs u rest (happen-IsSoundWorld h w first k)
