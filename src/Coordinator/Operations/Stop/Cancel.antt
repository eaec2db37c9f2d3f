-- ===== src/Coordinator/Operations/Stop/Cancel.antt =====
-- What a cancel leaves behind and what it sends.
use hacs_xbloom.Brewing.Link.{◌>>◌, Line, Sent, Action, send_command, give}
use hacs_xbloom.Coordinator.Operations.Retry.{Sleep}
use hacs_xbloom.Coordinator.Connection.{async_ensure_connected}
use hacs_xbloom.Prelude.{
  ◌∷◌, Option, ◌≡◌, Bool, none, List, false, ℕ, arith, some, true, [], ◌++◌, if◌then◌else◌, map,
}
use hacs_xbloom.Coordinator.Operations.Brewer as Brewer
use hacs_xbloom.Coordinator.Operations.Grinder as Grinder
use hacs_xbloom.Coordinator.{Coordinator, Armed, Operation}
use hacs_xbloom.Coordinator.Operations.Stop.{
  async_cancel, quit_commands, keeps_running, stop_verify_attempts, verify_component_stop,
  cancel_commands, send_all,
}
use hacs_xbloom.Coordinator.Operations.Sends.{IsUp, codes, bare-Adds, Adds, then-Adds, give-Adds}
use hacs_xbloom.Ble.Constants.{Command, command_code}

-- Nothing armed, nothing running, nothing prompted.
abbrev pub IsCleared : Coordinator → Type 0
IsCleared c =
    (c.armed_operation ≡ none)
    × (c.active_operation ≡ none)
    × (c.pod_prompt_active ≡ false)
    × (c.executing_recipe ≡ false)
    × (c.active_recipe_pours ≡ none)
    × (c.current_pour_index ≡ none)
    × (c.armed_recipe_is_tea ≡ false)
    × (c.armed_recipe_tea_payload ≡ none)
    × (c.manual_paused ≡ false)
    × (c.manual_run_seen ≡ false)
    × (c.manual_pause_seen ≡ false)

-- Whatever the state before, the link and the machine, after a cancel the bookkeeping has nothing
-- armed, running or prompted, no tea payload and no pours of a recipe, and no pause or run of a manual
-- operation.
pub cancel-IsCleared :
    (line : Line) (sleep : Sleep) (polls : ℕ → Bool) (c : Coordinator) (s : Sent)
    → IsCleared (async_cancel line sleep polls c s).0
unfolding async_cancel async_ensure_connected
cancel-IsCleared line sleep polls c s = ground arith

-- The commands that end what was armed, prompted or running; `running` is what the ten readings of
-- the motor show.
abbrev pub expected : Option Armed → Bool → Option Operation → Bool → List ℕ
expected (some Armed.recipe) prompt op running = 8017 ∷ []
expected (some Armed.grind) prompt op running = 8012 ∷ (if prompt then 8017 ∷ [] else [])
expected (some Armed.pour) prompt op running = 8013 ∷ (if prompt then 8017 ∷ [] else [])
expected none true op running = 8017 ∷ []
expected none false (some Operation.manual_grind) running =
    3505 ∷ (if running then 3505 ∷ 8012 ∷ [] else 8012 ∷ [])
expected none false (some Operation.manual_pour) running =
    4507 ∷ (if running then 4507 ∷ 8013 ∷ [] else 8013 ∷ [])
expected none false op running = 40519 ∷ []

stops-Adds :
    (line : Line) (stop : Action) (code : ℕ) (quit : Command) (polls : ℕ → Bool)
    → IsUp line
    → ((s : Sent) → Adds (code ∷ []) s (stop s))
    → (s : Sent)
    → Adds
        (code
          ∷ (if keeps_running stop_verify_attempts polls
              then code ∷ command_code quit ∷ []
              else command_code quit ∷ []))
        s
        ((stop >> (verify_component_stop line stop polls >> send_command line quit [])) s)
unfolding verify_component_stop
stops-Adds line stop code quit polls up h =
    then-Adds stop _ (code ∷ []) _ h (checked (keeps_running stop_verify_attempts polls))
  where
    checked :
        (running : Bool) (s : Sent)
        → Adds
            (if running then code ∷ command_code quit ∷ [] else command_code quit ∷ [])
            s
            (((if running then stop else give tt) >> send_command line quit []) s)
    checked true s = then-Adds stop _ (code ∷ []) _ h (bare-Adds line quit up) s
    checked false s = then-Adds (give tt) _ [] _ give-Adds (bare-Adds line quit up) s

-- One quit, or two.
quits-Adds :
    (line : Line) (first : Command) (rest : List Command)
    → IsUp line
    → (s : Sent) → Adds (map command_code (first ∷ rest)) s (send_all line (first ∷ rest) s)
quits-Adds line first [] up =
    then-Adds _ (give tt) (command_code first ∷ []) [] (bare-Adds line first up) give-Adds
quits-Adds line first (next ∷ rest) up =
    then-Adds _ (send_all line (next ∷ rest)) (command_code first ∷ []) _ (bare-Adds line first up)
      (quits-Adds line next rest up)

commands-Adds :
    (line : Line) (polls : ℕ → Bool) (armed : Option Armed) (prompt : Bool) (op : Option Operation)
    → IsUp line
    → (s : Sent)
    → Adds
        (expected armed prompt op (keeps_running stop_verify_attempts polls))
        s
        (cancel_commands line (quit_commands armed prompt) op polls s)
unfolding quit_commands Grinder.stop Brewer.stop
commands-Adds line polls (some Armed.recipe) prompt op up = quits-Adds line _ [] up
commands-Adds line polls (some Armed.grind) true op up = quits-Adds line _ (_ ∷ []) up
commands-Adds line polls (some Armed.grind) false op up = quits-Adds line _ [] up
commands-Adds line polls (some Armed.pour) true op up = quits-Adds line _ (_ ∷ []) up
commands-Adds line polls (some Armed.pour) false op up = quits-Adds line _ [] up
commands-Adds line polls none true op up = quits-Adds line _ [] up
commands-Adds line polls none false (some Operation.manual_grind) up =
    stops-Adds line (Grinder.stop line) 3505 Command.grinder_quit polls up (bare-Adds line _ up)
commands-Adds line polls none false (some Operation.manual_pour) up =
    stops-Adds line (Brewer.stop line) 4507 Command.brewer_quit polls up (bare-Adds line _ up)
commands-Adds line polls none false (some Operation.recipe) up = bare-Adds line _ up
commands-Adds line polls none false none up = bare-Adds line _ up

-- Over a link that stays up a cancel sends exactly the commands that end what was going on: the quit
-- of the armed page and of the machine's prompt, each once; else the stop of the running motor, again
-- if it does not stop, and the quit of its page; else the stop of a recipe.
pub cancel-codes :
    (line : Line) (sleep : Sleep) (polls : ℕ → Bool) (c : Coordinator) (s : Sent)
    → IsUp line
    → c.linked ≡ true
    → codes (async_cancel line sleep polls c s).2
      ≡ codes s
        ++ expected c.armed_operation c.pod_prompt_active c.active_operation
            (keeps_running stop_verify_attempts polls)
unfolding async_cancel async_ensure_connected
cancel-codes line sleep polls c s up linked =
    rw linked
      (commands-Adds line polls c.armed_operation c.pod_prompt_active c.active_operation up s).1
