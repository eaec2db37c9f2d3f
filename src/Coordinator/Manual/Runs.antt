-- ===== src/Coordinator/Manual/Runs.antt =====
-- A manual run over any number of polls: started at the machine, paused here, resumed, ended.
use hacs_xbloom.Prelude.{refl, ◌∷◌, Bool, List, arith, ◌≡◌, [], false, none, some, true, All}
use hacs_xbloom.Coordinator.{Coordinator, Operation, is_active}
use hacs_xbloom.Coordinator.Manual.{
  reconcile_manual_operation, reconcile_armed_with_screen, page_operation, operation_page,
  arm_allows, manual_running,
}
use hacs_xbloom.Ble.Client.{Client}

-- The coordinator after the reconciliations of some polls.
unfoldable pub after_polls : List Client → Coordinator → Coordinator
unfolding reconcile_manual_operation reconcile_armed_with_screen
after_polls [] c = c
after_polls (s ∷ rest) c =
    after_polls rest (reconcile_manual_operation s (reconcile_armed_with_screen s c))

abbrev pub is_manual : Operation → Bool
is_manual Operation.recipe = false
is_manual op = true

-- The poll shows the operation running, and still on its page.
abbrev pub ShowsRunning : Operation → Client → Type 0
ShowsRunning op s = (page_operation s.last_page ≡ some op) × (manual_running s op ≡ true)

abbrev pub ShowsStill : Operation → Client → Type 0
ShowsStill op s =
    (s.screen ≡ operation_page (some op))
    × (s.last_page ≡ operation_page (some op))
    × (manual_running s op ≡ false)

-- The run is tracked: unpaused, paused here.
abbrev pub IsRunning : Operation → Coordinator → Type 0
IsRunning op c =
    (c.active_operation ≡ some op)
    × (c.armed_operation ≡ none)
    × (c.manual_run_seen ≡ true)
    × (c.manual_pause_seen ≡ false)
    × (c.manual_paused ≡ false)

abbrev pub IsHeld : Operation → Coordinator → Type 0
IsHeld op c = (c.active_operation ≡ some op) × (c.armed_operation ≡ none) × (c.manual_paused ≡ true)

abbrev step : Client → Coordinator → Coordinator
step s c = reconcile_manual_operation s (reconcile_armed_with_screen s c)

-- A run that starts on its page while nothing else is active and nothing but that page is armed is
-- taken for a manual run.
pub IsRunning-adopted :
    (op : Operation) (s : Client) (c : Coordinator)
    → ShowsRunning op s
    → c.active_operation ≡ none
    → arm_allows c.armed_operation s.last_page ≡ true
    → c.manual_paused ≡ false
    → c.manual_pause_seen ≡ false
    → IsRunning op (after_polls (s ∷ []) c)
unfolding after_polls
IsRunning-adopted Operation.recipe s c = ground arith
IsRunning-adopted op s c = ground arith

is_active_self : (op : Operation) → is_active (some op) op ≡ true
is_active_self op = ground arith

-- Nothing armed: the screen changes nothing that a run needs.
armed-IsRunning :
    (op : Operation) (s : Client) (c : Coordinator)
    → IsRunning op c
    → IsRunning op (reconcile_armed_with_screen s c)
unfolding reconcile_armed_with_screen
armed-IsRunning op s c h = ground arith

armed-IsHeld :
    (op : Operation) (s : Client) (c : Coordinator)
    → IsHeld op c
    → IsHeld op (reconcile_armed_with_screen s c)
unfolding reconcile_armed_with_screen
armed-IsHeld op s c h = ground arith

manual-IsRunning :
    (op : Operation) (s : Client) (c : Coordinator)
    → ShowsRunning op s
    → IsRunning op c
    → IsRunning op (reconcile_manual_operation s c)
unfolding reconcile_manual_operation
manual-IsRunning op s c (page, running) (active, armed, seen, pause, paused) =
    simp (page, running, active, armed, is_active_self op, pause) (refl, refl, refl, refl, paused)

manual-IsHeld :
    (op : Operation) (s : Client) (c : Coordinator)
    → ShowsStill op s
    → is_manual op ≡ true
    → IsHeld op c
    → IsHeld op (reconcile_manual_operation s c)
      × ((reconcile_manual_operation s c).manual_pause_seen ≡ true)
unfolding reconcile_manual_operation
manual-IsHeld Operation.recipe s c (shown, last, still) manual held = absurd (ground arith)
manual-IsHeld Operation.manual_pour s c (shown, last, still) manual (active, armed, paused) =
    simp (shown, last, still, active, armed, paused) ((refl, refl, refl), refl)
manual-IsHeld Operation.manual_grind s c (shown, last, still) manual (active, armed, paused) =
    simp (shown, last, still, active, armed, paused) ((refl, refl, refl), refl)

-- However many polls show the run going on, it stays tracked.
pub IsRunning-polls :
    (op : Operation) (polls : List Client) (c : Coordinator)
    → All (ShowsRunning op) polls
    → IsRunning op c
    → IsRunning op (after_polls polls c)
unfolding after_polls
IsRunning-polls op [] c shown h = h
IsRunning-polls op (s ∷ rest) c (here, later) h =
    IsRunning-polls op rest _ later (manual-IsRunning op s _ here (armed-IsRunning op s c h))

-- A run that Home Assistant has paused is kept however many polls show its page with nothing
-- running, as the page of an idle machine does, and the first of them is remembered.
pub IsHeld-polls :
    (op : Operation) (s : Client) (polls : List Client) (c : Coordinator)
    → is_manual op ≡ true
    → All (ShowsStill op) (s ∷ polls)
    → IsHeld op c
    → IsHeld op (after_polls (s ∷ polls) c) × ((after_polls (s ∷ polls) c).manual_pause_seen ≡ true)
unfolding after_polls
IsHeld-polls op s [] c manual (here, later) h =
    manual-IsHeld op s _ here manual (armed-IsHeld op s c h)
IsHeld-polls op s (t ∷ rest) c manual (here, later) h =
    IsHeld-polls op t rest _ manual later
      (manual-IsHeld op s _ here manual (armed-IsHeld op s c h)).0

-- Running again after the machine has shown the pause, the run counts as resumed.
pub resumed-IsRunning :
    (op : Operation) (s : Client) (c : Coordinator)
    → ShowsRunning op s
    → IsHeld op c
    → c.manual_pause_seen ≡ true
    → IsRunning op (reconcile_manual_operation s c)
unfolding reconcile_manual_operation
resumed-IsRunning op s c (page, running) (active, armed, paused) seen =
    simp (page, running, active, armed, is_active_self op, seen) (refl, refl, refl, refl, refl)

-- Unpaused and still on its page, a run that has been seen is over.
pub still_ends :
    (op : Operation) (s : Client) (c : Coordinator)
    → is_manual op ≡ true
    → ShowsStill op s
    → IsRunning op c
    → ((reconcile_manual_operation s c).active_operation ≡ none)
      × ((reconcile_manual_operation s c).manual_run_seen ≡ false)
unfolding reconcile_manual_operation
still_ends Operation.recipe s c manual still h = absurd (ground arith)
still_ends Operation.manual_pour s c manual (shown, last, still)
      (active, armed, seen, pause, paused) =
    simp (shown, last, still, active, armed, seen, paused) (refl, refl)
still_ends Operation.manual_grind s c manual (shown, last, still)
      (active, armed, seen, pause, paused) =
    simp (shown, last, still, active, armed, seen, paused) (refl, refl)
