-- ===== src/Coordinator/Connection/Standby.antt =====
-- What keeps the link down, and what brings it back.
use hacs_xbloom.Prelude.{
  ◌∷◌, ℕ, Bool, List, ◌≡◌, false, ◌++◌, [], ◌||◌, ◌≤◌, true, refl, arith, ltb,
}
use hacs_xbloom.Coordinator.{Coordinator, Effect, reconnect}
use hacs_xbloom.Coordinator.Connection.{
  async_connect, async_disconnect, async_drop_stale_link, async_enter_idle_standby,
  async_ensure_connected, maybe_schedule_reconnect,
}
use hacs_xbloom.Coordinator.Tick.{async_update_data, default_state}
use hacs_xbloom.Ble.Client.{Client}

-- What a poll meets: the clock, the silence of the link, a connect in flight, the status.
pub record Poll : Type 0 where
  pub now : ℕ
  pub silence : ℕ
  pub locked : Bool
  pub status : Client

-- The polls one after another: the coordinator at their end, and what they have scheduled.
unfoldable pub after_updates : (ℕ → ℕ) → List Poll → Coordinator → Coordinator × List Effect
unfolding async_update_data
after_updates round1 [] c = (c, [])
after_updates round1 (p ∷ rest) c =
    let r = async_update_data round1 p.now p.silence p.locked p.status c in
    let later = after_updates round1 rest r.1 in (later.0, r.2 ++ later.1)

down-update :
    (round1 : ℕ → ℕ) (p : Poll) (c : Coordinator)
    → c.linked ≡ false
    → (c.manual_disconnect || c.idle_disconnected) ≡ true
    → async_update_data round1 p.now p.silence p.locked p.status c ≡ (default_state, c, [])
unfolding async_update_data
down-update round1 p c offline held = simp (offline, held) refl

down-updates :
    (round1 : ℕ → ℕ) (polls : List Poll) (c : Coordinator)
    → c.linked ≡ false
    → (c.manual_disconnect || c.idle_disconnected) ≡ true
    → after_updates round1 polls c ≡ (c, [])
unfolding after_updates
down-updates round1 [] c offline held = refl
down-updates round1 (p ∷ rest) c offline held =
    rw (down-update round1 p c offline held, down-updates round1 rest c offline held) refl

-- In idle standby, and after a disconnect by the user, within standby or not, no number of polls
-- schedules a connect or changes the bookkeeping. With a machine that answers, an action connects
-- again from standby, also if the user has disconnected within it; it does not after a disconnect
-- outside standby.
pub standby-updates :
    (round1 : ℕ → ℕ) (polls : List Poll) (now : ℕ) (c : Coordinator)
    → let standby = async_enter_idle_standby c in
      let off = async_disconnect (record c { idle_disconnected = false }) in
      let off_in_standby = async_disconnect standby in
      (after_updates round1 polls standby ≡ (standby, []))
      × (after_updates round1 polls off ≡ (off, []))
      × (after_updates round1 polls off_in_standby ≡ (off_in_standby, []))
      × ((async_ensure_connected now true standby).1 ≡ true)
      × ((async_ensure_connected now true off_in_standby).1 ≡ true)
      × ((async_ensure_connected now true off).1 ≡ false)
unfolding async_enter_idle_standby async_disconnect async_ensure_connected async_connect
standby-updates round1 polls now c = (
  down-updates round1 polls _ refl (grind arith),
  down-updates round1 polls _ refl refl,
  down-updates round1 polls _ refl refl,
  refl,
  refl,
  refl,
)

-- A stale link is dropped for the supervisor: the first poll after the drop, with no connect in
-- flight, connects again unless an earlier failure still blocks it or the machine is in standby.
pub stale_link-reconnect :
    (round1 : ℕ → ℕ) (p : Poll) (c : Coordinator)
    → p.locked ≡ false
    → c.idle_disconnected ≡ false
    → c.reconnect_blocked_until ≤ p.now
    → (after_updates round1 (p ∷ []) (async_drop_stale_link c)).1 ≡ reconnect ∷ []
unfolding after_updates async_drop_stale_link maybe_schedule_reconnect
stale_link-reconnect round1 p c free awake passed =
    simp (free, awake, not-ltb p.now c.reconnect_blocked_until passed) refl
  where
    not-ltb : (a b : ℕ) → b ≤ a → ltb a b ≡ false
    not-ltb a b h = ground arith
