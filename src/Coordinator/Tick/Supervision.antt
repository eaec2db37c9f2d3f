-- ===== src/Coordinator/Tick/Supervision.antt =====
-- When a poll gives up the link, and what it leaves alone.
use hacs_xbloom.Prelude.{◌∷◌, ℕ, Bool, ◌≡◌, [], true, ◌↔◌, false, none, ◌<◌, arith, ◌+◌}
use hacs_xbloom.Coordinator.{Coordinator, drop_stale_link, enter_idle_standby}
use hacs_xbloom.Coordinator.Tick.{async_update_data, ble_silence_timeout}
use hacs_xbloom.Ble.Client.{Client}

-- A poll sends the coordinator to idle standby only over a link that is up, with a timeout set that
-- has passed since the last activity, while nothing is armed or running and the machine prompts for
-- no pod, and not twice.
pub standby_unused :
    (round1 : ℕ → ℕ) (now silence : ℕ) (locked : Bool) (s : Client) (c : Coordinator)
    → (async_update_data round1 now silence locked s c).2 ≡ enter_idle_standby ∷ []
    → (c.linked ≡ true)
      × (c.armed_operation ≡ none)
      × (c.active_operation ≡ none)
      × (c.pod_prompt_active ≡ false)
      × (0 < c.session_timeout)
      × (c.last_activity + c.session_timeout < now)
      × (c.idle_standby_pending ≡ false)
unfolding async_update_data
standby_unused round1 now silence locked s c h = ground arith

-- A poll drops a silent link only if the machine is not asleep and has been silent for more than the
-- timeout, and not while an earlier drop is under way.
pub drop_stale :
    (round1 : ℕ → ℕ) (now silence : ℕ) (locked : Bool) (s : Client) (c : Coordinator)
    → ((async_update_data round1 now silence locked s c).2 ≡ drop_stale_link ∷ []) ↔ (
        (c.linked ≡ true)
        × (c.force_reconnect_pending ≡ false)
        × (s.is_sleeping ≡ false)
        × (ble_silence_timeout < silence))
unfolding async_update_data
drop_stale round1 now silence locked s c = ground arith
