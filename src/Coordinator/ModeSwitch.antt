-- ===== src/Coordinator/ModeSwitch.antt =====
-- coordinator/connection.py: `_async_switch_mode_with_retry` and `async_set_mode`.
pub mod Attempts
use hacs_xbloom.Bytes.{Bytes}
use hacs_xbloom.Coordinator.{Coordinator, Mode, Effect, pro, easy, persist_mode, refresh}
use hacs_xbloom.Coordinator.Connection.{async_ensure_connected}
use hacs_xbloom.Brewing.Link.{
  Line, Chain, Outcome, Sent, ◌>>=◌, done, failed, give, send_command_raw,
}
use hacs_xbloom.Ble.Constants.{Command}
use hacs_xbloom.Schema.{same_name}
use hacs_xbloom.Prelude.{
  ℕ, Bool, List, Option, none, some, false, true, zero, suc, ◌∷◌, [], ◌||◌, if◌then◌else◌,
}

-- _MODE_SWITCH_HEX
abbrev pub mode_switch_code : Mode → Bytes
mode_switch_code pro = 0 ∷ 0 ∷ 0 ∷ 0 ∷ []
mode_switch_code easy = 0x91 ∷ 0x32 ∷ 0x78 ∷ 0x56 ∷ []

-- _MODE_SWITCH_MAX_ATTEMPTS, and the readings of one wait
abbrev pub mode_switch_attempts : ℕ
mode_switch_attempts = 3

abbrev pub mode_switch_readings : ℕ
mode_switch_readings = 15

abbrev pub confirms : Mode → Option Bytes → Bool
confirms mode none = false
confirms mode (some code) = same_name code (mode_switch_code mode)

-- `mode_ack_hex == target_hex` at one of the readings.
abbrev pub confirmed_within : ℕ → Mode → (ℕ → Option Bytes) → Bool
confirmed_within zero mode readings = false
confirmed_within (suc n) mode readings =
    confirmed_within n mode readings || confirms mode (readings n)

-- `acks`: what `mode_ack_hex` reads after each attempt; `sleeping`: whether the machine reports
-- itself asleep at the end of the attempt's wait.
module _ (line : Line) (acks : ℕ → ℕ → Option Bytes) (sleeping : ℕ → Bool) where
  unfoldable pub confirmed : Mode → ℕ → Bool
  confirmed mode attempt = confirmed_within mode_switch_readings mode (acks attempt)

  -- The attempts that are left, from a number on.
  unfoldable pub attempts : ℕ → ℕ → Mode → Chain {0} Bool
  attempts zero k mode s = give false s
  attempts (suc n) k mode s =
      let further = attempts n (suc k) mode in
      (send_command_raw line Command.easy_mode_switch (mode_switch_code mode) 2 >>= λ _.
      if confirmed mode k then give true else if sleeping k then further else give false)
        s

  unfoldable pub switch_mode_with_retry : Mode → Chain {0} Bool
  unfolding attempts
  switch_mode_with_retry mode = attempts mode_switch_attempts 1 mode

  -- The choice is kept even if it is not confirmed.
  abbrev kept : Mode → Coordinator → Outcome {0} Bool × Sent → Coordinator × List Effect × Sent
  kept mode c (done _, s) = (record c { mode = mode }, persist_mode ∷ refresh ∷ [], s)
  kept mode c (failed _, s) = (c, [], s)

  unfoldable pub async_set_mode :
      ℕ → Bool → Mode → Coordinator → Sent → Coordinator × List Effect × Sent
  unfolding switch_mode_with_retry
  async_set_mode now answered mode c s =
      let (e, connected) = async_ensure_connected now answered c in
      if connected then kept mode e (switch_mode_with_retry mode s) else (e, [], s)
