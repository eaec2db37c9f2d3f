-- ===== src/Ble/Client/Heartbeat/Calibration.antt =====
-- Labels, pages and the scale-calibration run.
use hacs_xbloom.Prelude.{List, ℕ, ◌≡◌, All, false, none, some, true, arith, ◌∷◌, ◌≢◌, ◌⊎◌, []}
use hacs_xbloom.Ble.Client.{Client, StateLabel, Screen}
use hacs_xbloom.Ble.Models.{DeviceState}
use hacs_xbloom.Ble.Client.Heartbeat.{
  is_some, raw_state_label_of, screen_of, is_scale_cal_arming, ends_scale_calibration,
  update_scale_calibrating, state_label_for, status_code, status_codes, update_brew_context,
}

-- A code is in one of the two tables at most, and no page arms a calibration.
screen-label : (code : ℕ) → is_some (screen_of code) ≡ true → raw_state_label_of code ≡ none
unfolding screen_of raw_state_label_of
screen-label code h = ground arith

screen-ends :
    (code : ℕ)
    → is_some (screen_of code) ≡ true
    → (is_scale_cal_arming code ≡ false) × (ends_scale_calibration code ≡ true)
unfolding screen_of is_scale_cal_arming ends_scale_calibration
screen-ends code h = ground arith

-- After any heartbeat code the label and the page are not both set.
pub label_or_page :
    (code : ℕ) (c : Client)
    → ((status_code code c).raw_state_label ≡ none) ⊎ ((status_code code c).screen ≡ none)
unfolding status_code update_scale_calibrating state_label_for
label_or_page code c = ground (arith, screen-label code, screen-ends code)

-- What a page says of the machine: nothing runs, and the page is remembered.
pub record IsAtRest (s : Screen) (c : Client) : Type 0 where
  pub page : c.last_page ≡ some s
  pub no_grind : c.grinder_running ≡ false
  pub no_brew : c.brewer_running ≡ false
  pub not_grinding : c.state ≢ DeviceState.grinding
  pub not_brewing : c.state ≢ DeviceState.brewing
  pub not_paused : c.state ≢ DeviceState.paused

-- A page code leaves the machine at rest on that page, whatever was running before.
pub status_code-IsAtRest :
    (code : ℕ) (c : Client) (s : Screen) → screen_of code ≡ some s → IsAtRest s (status_code code c)
unfolding status_code
status_code-IsAtRest code c s h = rw h (ground arith)

-- The calibration run has begun.
pub record IsCalibrating (c : Client) : Type 0 where
  pub armed : c.scale_calibrating ≡ true
  pub label : c.raw_state_label ≡ some StateLabel.calibrating_scale
  pub no_brew : c.brew_context ≡ false

calibration_starts :
    (code : ℕ) (c : Client) → is_scale_cal_arming code ≡ true → IsCalibrating (status_code code c)
unfolding status_code update_scale_calibrating state_label_for update_brew_context
calibration_starts code c h = ground arith

calibration_step :
    (code : ℕ) (c : Client)
    → IsCalibrating c
    → ends_scale_calibration code ≡ false
    → IsCalibrating (status_code code c)
unfolding status_code update_scale_calibrating state_label_for update_brew_context
calibration_step code c h e = ground arith

calibration_steps :
    (codes : List ℕ) (c : Client)
    → IsCalibrating c
    → All (λ code. ends_scale_calibration code ≡ false) codes
    → IsCalibrating (status_codes codes c)
unfolding status_codes
calibration_steps [] c h p = h
calibration_steps (code ∷ codes) c h (e, p) =
    calibration_steps codes (status_code code c) (calibration_step code c h e) p

-- From a code that arms a scale calibration to the first code that ends one, whatever codes come
-- between, the machine is labelled calibrating and never brewing.
pub calibration_run :
    (code : ℕ) (codes : List ℕ) (c : Client)
    → is_scale_cal_arming code ≡ true
    → All (λ k. ends_scale_calibration k ≡ false) codes
    → IsCalibrating (status_codes codes (status_code code c))
calibration_run code codes c h p =
    calibration_steps codes (status_code code c) (calibration_starts code c h) p

ends-not-arming : (code : ℕ) → ends_scale_calibration code ≡ true → is_scale_cal_arming code ≡ false
unfolding ends_scale_calibration is_scale_cal_arming
ends-not-arming code h = ground arith

-- A code that ends a run drops the latch.
pub calibration_ends :
    (code : ℕ) (c : Client)
    → ends_scale_calibration code ≡ true
    → (status_code code c).scale_calibrating ≡ false
unfolding status_code update_scale_calibrating
calibration_ends code c h = ground (arith, ends-not-arming code h)
