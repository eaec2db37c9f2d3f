-- ===== src/Coordinator/Operations/Stop/Pause.antt =====
-- What the pause button sends, and what it leaves for the polls.
use hacs_xbloom.Ble.Constants.{Command, command_code}
use hacs_xbloom.Prelude.{
  none, ◌∷◌, Option, List, ℕ, ◌≡◌, some, true, ◌++◌, false, if◌then◌else◌, [], Bool, Option-cases,
  Bool-cases, inl, inr, refl, sym, ◌∙◌, append-nil, arith,
}
use hacs_xbloom.Coordinator.Operations.Retry.{Sleep}
use hacs_xbloom.Coordinator.Connection.{async_ensure_connected}
use hacs_xbloom.Coordinator.{Coordinator, Operation, is_none}
use hacs_xbloom.Coordinator.State.{MachineState}
use hacs_xbloom.Coordinator.Operations.Stop.{
  async_pause_resume, is_paused, is_pausable, pause_running, after_send, pause_recipe,
}
use hacs_xbloom.Coordinator.Operations.Sends.{IsUp, codes, bare-Adds}
use hacs_xbloom.Brewing.Link.{Line, Sent, Outcome, done, send_command, failed}
use hacs_xbloom.Coordinator.Manual.Runs.{IsRunning, IsHeld, is_manual}
use hacs_xbloom.Coordinator.Operations.Brewer as Brewer
use hacs_xbloom.Coordinator.Operations.Grinder as Grinder

-- The command for the running operation in the shown state.
abbrev pub pause_code : Option Operation → MachineState → List ℕ
pause_code (some Operation.manual_grind) state = (if is_paused state then 8020 else 8018) ∷ []
pause_code (some Operation.manual_pour) state = (if is_paused state then 8021 else 8019) ∷ []
pause_code op state =
    if is_paused state then 40524 ∷ [] else if is_pausable state then 40518 ∷ [] else []

codes-after_send :
    (line : Line) (r : Outcome {0} Unit × Sent) (f : Coordinator → Coordinator) (c : Coordinator)
    → codes (after_send line r f c).1 ≡ codes r.1
codes-after_send line (done a, s) f c = refl
codes-after_send line (failed e, s) f c = refl

manual_code :
    (line : Line) (restart pause : Command) (b : Bool) (f g : Coordinator → Coordinator)
    (c : Coordinator)
    → IsUp line
    → (s : Sent)
    → codes
        (if b
          then after_send line (send_command line restart [] s) f c
          else after_send line (send_command line pause [] s) g c).1
      ≡ codes s ++ (if b then command_code restart else command_code pause) ∷ []
manual_code line restart pause true f g c up s =
    codes-after_send line _ f c ∙ (bare-Adds line restart up s).1
manual_code line restart pause false f g c up s =
    codes-after_send line _ g c ∙ (bare-Adds line pause up s).1

recipe_code :
    (line : Line) (state : MachineState) (c : Coordinator)
    → IsUp line
    → (s : Sent) → codes (pause_recipe line state c s).1 ≡ codes s ++ pause_code none state
recipe_code line state c up s = elim (Bool-cases (is_paused state)) [
  | inl p ↦ rw p (bare-Adds line Command.recipe_restart up s).1
  | inr p ↦ rw p (elim (Bool-cases (is_pausable state)) [
    | inl q ↦ rw q (bare-Adds line Command.recipe_pause up s).1
    | inr q ↦ rw q (sym (append-nil (codes s)))
  ])
]

running_code :
    (line : Line) (op : Option Operation) (state : MachineState) (c : Coordinator)
    → IsUp line
    → (s : Sent) → codes (pause_running line op state c s).1 ≡ codes s ++ pause_code op state
unfolding Grinder.pause Brewer.pause Grinder.restart Brewer.restart
running_code line (some Operation.manual_grind) state c up s =
    manual_code line Command.grinder_restart Command.grinder_pause (is_paused state) _ _ c up s
running_code line (some Operation.manual_pour) state c up s =
    manual_code line Command.brewer_restart Command.brewer_pause (is_paused state) _ _ c up s
running_code line (some Operation.recipe) state c up s = recipe_code line state c up s
running_code line none state c up s = recipe_code line state c up s

-- Over a link that is up the button sends the command of what is running, the restart if the pause
-- is shown; nothing while something is armed, and nothing to a recipe unless the state shown is
-- paused, starting, brewing or grinding.
pub pause_resume-codes :
    (line : Line) (sleep : Sleep) (state : MachineState) (c : Coordinator) (s : Sent)
    → IsUp line
    → c.linked ≡ true
    → codes (async_pause_resume line sleep state c s).1
      ≡ codes s ++ (if is_none c.armed_operation then pause_code c.active_operation state else [])
unfolding async_pause_resume async_ensure_connected
pause_resume-codes line sleep state c s up linked =
    rw linked (elim (Option-cases c.armed_operation) [
      | inl free ↦ rw free (running_code line c.active_operation state _ up s)
      | inr (armed, e) ↦ rw e (sym (append-nil (codes s)))
    ])

after_done :
    (line : Line) (r : Outcome {0} Unit × Sent) (f : Coordinator → Coordinator) (c : Coordinator)
    → r.0 ≡ done tt
    → after_send line r f c ≡ (f c, r.1)
after_done line (done a, s) f c e = refl
after_done line (failed e', s) f c e = absurd (ground arith)

-- Pausing a running manual run is remembered, so that the polls keep the run.
pub pause-IsHeld :
    (line : Line) (sleep : Sleep) (state : MachineState) (op : Operation) (c : Coordinator)
    (s : Sent)
    → IsUp line
    → c.linked ≡ true
    → is_manual op ≡ true
    → is_paused state ≡ false
    → IsRunning op c
    → IsHeld op (async_pause_resume line sleep state c s).0
unfolding async_pause_resume async_ensure_connected Brewer.pause Grinder.pause
pause-IsHeld line sleep state Operation.recipe c s up linked manual unpaused h =
    absurd (ground arith)
pause-IsHeld line sleep state Operation.manual_pour c s up linked manual unpaused
      (active, armed, seen, page, free) =
    let sent : (f : Coordinator → Coordinator) (d : Coordinator)
        → after_send line (send_command line Command.brewer_pause [] s) f d
          ≡ (f d, (send_command line Command.brewer_pause [] s).1) =
      λ f d.
        after_done line (send_command line Command.brewer_pause [] s) f d
          (bare-Adds line Command.brewer_pause up s).0 in
    simp (linked, armed, active, unpaused, sent) (refl, refl, refl)
pause-IsHeld line sleep state Operation.manual_grind c s up linked manual unpaused
      (active, armed, seen, page, free) =
    let sent : (f : Coordinator → Coordinator) (d : Coordinator)
        → after_send line (send_command line Command.grinder_pause [] s) f d
          ≡ (f d, (send_command line Command.grinder_pause [] s).1) =
      λ f d.
        after_done line (send_command line Command.grinder_pause [] s) f d
          (bare-Adds line Command.grinder_pause up s).0 in
    simp (linked, armed, active, unpaused, sent) (refl, refl, refl)
