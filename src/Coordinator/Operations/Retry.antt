-- ===== src/Coordinator/Operations/Retry.antt =====
-- coordinator/connection.py: `_async_retry_while_sleeping` and `_async_wake_machine`.
pub mod Armed
pub mod Bounds
use hacs_xbloom.Coordinator.Units.{UnitKey, apply_unit_preferences}
use hacs_xbloom.Coordinator.Connection.{async_connect, async_disconnect}
use hacs_xbloom.Prelude.{Bool, List, if◌then◌else◌, ℕ, suc, ◌&&◌, ◌∷◌, [], not, ◌||◌, zero, false}
use hacs_xbloom.Coordinator.{Coordinator, is_none}
use hacs_xbloom.Ble.Constants.{Command}
use hacs_xbloom.Brewing.Link.{
  Line, Chain, Outcome, Sent, send_command, failed, done, ack_timeout, Action, ◌>>◌,
}

-- What the sleep flag shows: before the action, after its k-th run; whether the handshake wakes
-- the machine in time; should the link be set up again, whether the radio connects, and the flag at
-- the first send of each waiting unit.
pub record Sleep : Type 0 where
  pub asleep_at : UnitKey → Bool
  pub asleep : Bool
  pub sleeping : ℕ → Bool
  pub wakes : Bool
  pub now : ℕ
  pub answered : Bool

-- _WAKE_RETRY_MAX_ATTEMPTS, less the last one
abbrev pub wake_retries : ℕ
wake_retries = 2

-- HANDSHAKE_DATA
abbrev handshake_data : List ℕ
handshake_data = 185 ∷ 1 ∷ []

abbrev handshake : Line → Sent → Sent
handshake line s = (send_command line Command.handshake handshake_data s).1

-- `_reset_state` of ble/client.py, the end of a connect: the handshake, then the clean-up commands
-- until one of them fails.
abbrev clean_up : Line → Action
clean_up line = do
  send_command line Command.recipe_stop []
  send_command line Command.brewer_quit []
  send_command line Command.grinder_quit []

unfoldable pub reset_state : Line → Sent → Sent
reset_state line s = (clean_up line (handshake line s)).1

-- What `async_connect` sends on a new link: the above, and the units that wait to be pushed.
unfoldable pub greet : Line → Sleep → Coordinator → Sent → Coordinator × Sent
unfolding reset_state
greet line sleep c s =
    if c.pending_weight_unit || (c.pending_temp_unit || c.pending_water_source)
    then apply_unit_preferences line sleep.asleep_at (λ key d. d) c (reset_state line s)
    else (c, reset_state line s)

abbrev greeted : Line → Sleep → Coordinator × Bool → Sent → Coordinator × Sent
greeted line sleep (c, connected) s = if connected then greet line sleep c s else (c, s)

-- The callers have the link. It is set up again, unless that would clear what is armed.
unfoldable pub wake_machine : Line → Sleep → Coordinator → Sent → Coordinator × Sent
unfolding greet
wake_machine line sleep c s =
    let log = (if c.linked then handshake line s else s) in
    if c.linked && sleep.wakes
    then (c, log)
    else if not (is_none c.armed_operation)
    then (c, log)
    else greeted line sleep
        (async_connect sleep.now sleep.answered
          (record (async_disconnect c) { manual_disconnect = false }))
        log

module _ {ℓ} {A : Type ℓ} where
  -- After a run of the action: again, or its result.
  abbrev pub after_run : Outcome A × Sent → Bool → Bool → Chain A → Outcome A × Sent
  after_run (done a, s) sleeping retryable again = if sleeping then again s else (done a, s)
  after_run (failed ack_timeout, s) sleeping retryable again =
      if retryable then again s else (failed ack_timeout, s)
  after_run (failed f, s) sleeping retryable again = (failed f, s)

  -- `n` further runs may follow the k-th.
  unfoldable pub runs : Sleep → Chain A → ℕ → ℕ → Chain A
  runs sleep action zero k s = action s
  runs sleep action (suc n) k s =
      after_run (action s) (sleep.sleeping k) (sleep.asleep || sleep.sleeping k)
        (runs sleep action n (suc k))

  unfoldable pub retry_while_sleeping :
      Line → Sleep → Chain A → Coordinator → Sent → Coordinator × Outcome A × Sent
  retry_while_sleeping line sleep action c s =
      let woken = (if sleep.asleep then wake_machine line sleep c s else (c, s)) in
      let r = runs sleep action wake_retries 1 woken.1 in (woken.0, r.0, r.1)
