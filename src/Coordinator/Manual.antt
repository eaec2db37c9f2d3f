-- ===== src/Coordinator/Manual.antt =====
-- coordinator/state.py: an armed operation and the screen, and the manual runs that only the
-- telemetry shows.
pub mod Runs
use hacs_xbloom.Prelude.{Bool, Option, false, if◌then◌else◌, none, not, some, true, ◌||◌, ◌&&◌}
use hacs_xbloom.Coordinator.{
  Coordinator, Armed, Operation, is_none, is_screen, is_active, manual_pour, same_screen,
  manual_grind,
}
use hacs_xbloom.Ble.Client.{Client, Screen, StateLabel}

-- Whether the last page is the page of the armed operation; a recipe has none.
abbrev pub is_page_of : Option Screen → Option Armed → Bool
is_page_of (some Screen.grind) (some Armed.grind) = true
is_page_of (some Screen.pour) (some Armed.pour) = true
is_page_of _ _ = false

unfoldable pub reconcile_armed_with_screen : Client → Coordinator → Coordinator
reconcile_armed_with_screen s c =
    let seen = record c { last_reconcile_screen = s.screen } in
    if is_screen s.screen Screen.home && is_page_of c.last_reconcile_screen c.armed_operation
    then record seen { armed_operation = none }
    else seen

-- _PAGE_OPERATIONS and _OPERATION_PAGES
abbrev pub page_operation : Option Screen → Option Operation
page_operation (some Screen.pour) = some manual_pour
page_operation (some Screen.grind) = some manual_grind
page_operation _ = none

abbrev pub operation_page : Option Operation → Option Screen
operation_page (some manual_pour) = some Screen.pour
operation_page (some manual_grind) = some Screen.grind
operation_page _ = none

abbrev pub is_pouring_label : Option StateLabel → Bool
is_pouring_label (some StateLabel.starting) = true
is_pouring_label (some StateLabel.brewing) = true
is_pouring_label _ = false

abbrev pub manual_running : Client → Operation → Bool
manual_running s manual_pour = s.brewer_running || is_pouring_label s.raw_state_label
manual_running s _ = s.grinder_running

abbrev pub clear_manual_run : Coordinator → Coordinator
clear_manual_run c = record c {
  manual_paused = false;
  manual_run_seen = false;
  manual_pause_seen = false;
}

-- `_armed_operation in (None, page)`, on the page of the operation
abbrev pub arm_allows : Option Armed → Option Screen → Bool
arm_allows none page = true
arm_allows armed page = is_page_of page armed

abbrev pub adopt : Operation → Client → Coordinator → Coordinator
adopt op s c =
    if is_none c.active_operation && arm_allows c.armed_operation s.last_page
    then record c { armed_operation = none; active_operation = some op }
    else c

abbrev pub note_running : Operation → Coordinator → Coordinator
note_running op c =
    if not (is_active c.active_operation op)
    then c
    else if c.manual_pause_seen
    then record c { manual_run_seen = true; manual_paused = false; manual_pause_seen = false }
    else record c { manual_run_seen = true }

abbrev end_operation : Coordinator → Coordinator
end_operation c = clear_manual_run (record c { active_operation = none })

abbrev pub at_page : Option Screen → Screen → Coordinator → Coordinator
at_page none own c = c
at_page (some screen) own c =
    if not (same_screen screen own)
    then end_operation c
    else if c.manual_paused
    then record c { manual_pause_seen = true }
    else if c.manual_run_seen
    then end_operation c
    else c

-- nothing manual is running
abbrev pub settle : Option Screen → Client → Coordinator → Coordinator
settle none s c = clear_manual_run c
settle (some own) s c = at_page s.screen own c

abbrev pub on_page : Option Operation → Client → Coordinator → Coordinator
on_page none s c = settle (operation_page c.active_operation) s c
on_page (some op) s c =
    if manual_running s op
    then note_running op (adopt op s c)
    else settle (operation_page c.active_operation) s c

unfoldable pub reconcile_manual_operation : Client → Coordinator → Coordinator
reconcile_manual_operation s c = on_page (page_operation s.last_page) s c
