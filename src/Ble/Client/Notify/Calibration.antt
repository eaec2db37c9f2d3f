-- ===== src/Ble/Client/Notify/Calibration.antt =====
-- What is fired while the grinder calibrates, and when the calibration is over; the tank.
use hacs_xbloom.Ble.Framing.{frame_payload}
use hacs_xbloom.Prelude.Int.{ℤ}
use hacs_xbloom.Bytes.{Bytes, u32_at}
use hacs_xbloom.Ble.Constants.{Response}
use hacs_xbloom.Ble.Client.Response.{update_mode_ack, update_status}
use hacs_xbloom.Ble.Client.{Notification, Event, Client, notification}
use hacs_xbloom.Ble.Client.Notify.{
  fire_events, notification_of, lack_of_water, error_of, handle_response,
}
use hacs_xbloom.Prelude.{
  ℕ, Bool, List, Option, ◌++◌, ◌∷◌, ◌⊎◌, [], inr, ◌≡◌, arith, inl, true, refl, false, ◌↔◌, ◌≤◌,
  length, sym, ◌∙◌,
}

-- A grinding event, which an automation would take for a finished grind.
abbrev pub IsGrindingEvent : Event → Type 0
IsGrindingEvent (notification Notification.grinding_started a) = Unit
IsGrindingEvent (notification Notification.grinding_complete a) = Unit
IsGrindingEvent _ = ⊥

abbrev pub IsCompletion : Event → Type 0
IsCompletion (notification Notification.grinder_calibration_complete a) = Unit
IsCompletion _ = ⊥

abbrev pub HasEvent : (Event → Type 0) → List Event → Type 0
HasEvent P [] = ⊥
HasEvent P (e ∷ es) = P e ⊎ HasEvent P es

HasEvent-append :
    (P : Event → Type 0) (es fs : List Event)
    → HasEvent P (es ++ fs)
    → HasEvent P es ⊎ HasEvent P fs
HasEvent-append P [] fs h = inr h
HasEvent-append P (e ∷ es) fs (inl here) = inl (inl here)
HasEvent-append P (e ∷ es) fs (inr later) = elim (HasEvent-append P es fs later) [
  | inl first ↦ inl (inr first)
  | inr second ↦ inr second
]

HasEvent-append_left :
    (P : Event → Type 0) (es fs : List Event) → HasEvent P es → HasEvent P (es ++ fs)
HasEvent-append_left P [] fs h = absurd h
HasEvent-append_left P (e ∷ es) fs (inl here) = inl here
HasEvent-append_left P (e ∷ es) fs (inr later) = inr (HasEvent-append_left P es fs later)

update_mode_ack-calibrating :
    (response : Response) (p : Bytes) (c : Client)
    → (update_mode_ack response p c).is_calibrating_grinder ≡ c.is_calibrating_grinder
unfolding update_mode_ack
update_mode_ack-calibrating Response.easymode_type p c = ground arith
update_mode_ack-calibrating _ p c = refl

fire_events-calibrating :
    (response : Response) (p : Bytes) (c : Client)
    → (fire_events response p c).0.is_calibrating_grinder ≡ c.is_calibrating_grinder
unfolding fire_events notification_of lack_of_water
fire_events-calibrating Response.error_lack_of_water p c = ground arith
fire_events-calibrating _ p c = ground arith

fire_events-quiet :
    (response : Response) (p : Bytes) (c : Client)
    → c.is_calibrating_grinder ≡ true
    → ¬ (HasEvent IsGrindingEvent (fire_events response p c).1)
unfolding fire_events notification_of lack_of_water error_of
fire_events-quiet Response.error_lack_of_water p c h e = ground arith
fire_events-quiet _ p c h e = ground arith

fire_events-incomplete :
    (response : Response) (p : Bytes) (c : Client)
    → ¬ (HasEvent IsCompletion (fire_events response p c).1)
unfolding fire_events notification_of lack_of_water error_of
fire_events-incomplete Response.error_lack_of_water p c e = ground arith
fire_events-incomplete _ p c e = ground arith

-- The response that ends a calibration.
pub record IsCalibrationEnd (response : Response) (p : Bytes) (c : Client) : Type 0 where
  pub kind : response ≡ Response.current_grinder
  pub long : 4 ≤ length p
  pub value : u32_at p 0 ≡ 85
  pub running : c.is_calibrating_grinder ≡ true

module _ (is_far : ℕ → ℕ → Bool) (float_to_int : ℕ → Option ℤ) where
  update_status-quiet :
      (response : Response) (p : Bytes) (c : Client)
      → ¬ (HasEvent IsGrindingEvent (update_status is_far float_to_int response p c).1)
  unfolding update_status
  update_status-quiet Response.machine_info p c e = e
  update_status-quiet _ p c e = ground arith

  -- A response that leaves the grinder calibrating fires no grinding event, whatever it is: the
  -- flag counts as it is once the response has been recorded.
  pub handle_response-quiet :
      (response : Response) (frame : Bytes) (c : Client)
      → (handle_response is_far float_to_int response frame c).0.is_calibrating_grinder ≡ true
      → ¬ (HasEvent IsGrindingEvent (handle_response is_far float_to_int response frame c).1)
  unfolding handle_response
  handle_response-quiet response frame c h e =
      let p = frame_payload frame in
      let c1 = (update_status is_far float_to_int response p c).0 in
      let c2 = update_mode_ack response p c1 in
      let still : c2.is_calibrating_grinder ≡ true =
        sym (fire_events-calibrating response p c2) ∙ h in
      elim (HasEvent-append IsGrindingEvent _ _ e) [
        | inl first ↦ update_status-quiet response p c first
        | inr second ↦ fire_events-quiet response p c2 still second
      ]

  update_status-completion :
      (response : Response) (p : Bytes) (c : Client)
      → HasEvent IsCompletion (update_status is_far float_to_int response p c).1
      → IsCalibrationEnd response p c
        × ((update_status is_far float_to_int response p c).0.is_calibrating_grinder ≡ false)
  unfolding update_status
  update_status-completion Response.machine_info p c e = absurd e
  update_status-completion _ p c e = ground arith

  update_status-completes :
      (response : Response) (p : Bytes) (c : Client)
      → IsCalibrationEnd response p c
      → HasEvent IsCompletion (update_status is_far float_to_int response p c).1
  unfolding update_status
  update_status-completes Response.machine_info p c e = ground arith
  update_status-completes _ p c e = ground arith

  -- The completion of a calibration is announced by exactly one response: the grinder's size with
  -- the raw value 85 in a long enough payload, while a calibration is on.
  pub handle_response-IsCompletion_iff :
      (response : Response) (frame : Bytes) (c : Client)
      → HasEvent IsCompletion (handle_response is_far float_to_int response frame c).1
        ↔ IsCalibrationEnd response (frame_payload frame) c
  unfolding handle_response
  handle_response-IsCompletion_iff response frame c =
      let p = frame_payload frame in
      let c1 = (update_status is_far float_to_int response p c).0 in
      let c2 = update_mode_ack response p c1 in
      (
        λ e. elim (HasEvent-append IsCompletion _ _ e) [
          | inl first ↦ (update_status-completion response p c first).0
          | inr second ↦ absurd (fire_events-incomplete response p c2 second)
        ],
        λ h. HasEvent-append_left IsCompletion _ _ (update_status-completes response p c h),
      )

  -- The announcement ends the calibration.
  pub handle_response-completed :
      (response : Response) (frame : Bytes) (c : Client)
      → HasEvent IsCompletion (handle_response is_far float_to_int response frame c).1
      → (handle_response is_far float_to_int response frame c).0.is_calibrating_grinder ≡ false
  unfolding handle_response
  handle_response-completed response frame c e =
      let p = frame_payload frame in
      let c1 = (update_status is_far float_to_int response p c).0 in
      let c2 = update_mode_ack response p c1 in
      fire_events-calibrating response p c2
      ∙ (update_mode_ack-calibrating response p c1 ∙ elim (HasEvent-append IsCompletion _ _ e) [
        | inl first ↦ (update_status-completion response p c first).1
        | inr second ↦ absurd (fire_events-incomplete response p c2 second)
      ])
