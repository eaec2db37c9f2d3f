-- ===== src/Ble/Client/Notify/Returns.antt =====
-- `_on_notification` handles a whole buffer.
use hacs_xbloom.Prelude.{zero}
use hacs_xbloom.Ble.Client.Heartbeat.{scan_for_status_frame}
use hacs_xbloom.Ble.Constants.{response_of}
use hacs_xbloom.Ble.Client.Settings.{scan_for_advanced_settings-returns}
use hacs_xbloom.Ble.Client.Info.{scan_while_anonymous, is_anonymous, scan_for_machine_info-returns}
use hacs_xbloom.Ble.Framing.{frame_command}
use hacs_xbloom.Ble.Framing.Long.{HasLongFrames, iter_frames-long_frames}
use hacs_xbloom.Ble.Client.Alarm.{
  alarms_from, alarms_from-nil, scan_for_alarm_frame, Round, round_at, alarms_from-over, over,
  alarms_from-next, next, alarm, alarm_fired, alarm_event, alarms_from-alarm,
}
use hacs_xbloom.Ble.Client.{Client, Event}
use hacs_xbloom.Ble.Client.Notify.{on_notification, parse_frames, parse_response, handle_known}
use hacs_xbloom.Prelude.Int.{ℤ}
use hacs_xbloom.Bytes.{Bytes, u16_at}
use hacs_xbloom.Prelude.{
  Option, ℕ, Bool, ◌≡◌, length, some, ◌≤◌, List, inr, All, ◌∷◌, [], Bool-cases, arith, suc, ◌++◌,
  inl, refl, ◌⊎◌, ◌∙◌, drop, length-drop, zero,
}

abbrev Returns {ℓ} : {A : Type ℓ} → Option A → Type ℓ
Returns {A = A} m = (a : A) × (m ≡ some a)

Round-cases : (r : Round) → (r ≡ over) ⊎ (r ≡ next) ⊎ ((code : ℕ) × (r ≡ alarm code))
Round-cases over = inl refl
Round-cases next = inr (inl refl)
Round-cases (alarm code) = inr (inr (code, refl))

alarms_from-Returns : (fuel : ℕ) (raw : Bytes) → length raw ≤ fuel → Returns (alarms_from fuel raw)
alarms_from-Returns fuel [] h = ([], alarms_from-nil fuel)
alarms_from-Returns zero (b ∷ bs) h = absurd (omega arith)
alarms_from-Returns (suc fuel) (b ∷ bs) h = elim (Round-cases (round_at (b ∷ bs))) [
  | inl s ↦ ([], alarms_from-over b bs fuel s)
  | inr (inl s) ↦
      let (events, e) = alarms_from-Returns fuel bs (omega arith) in
      (events, alarms_from-next b bs fuel s ∙ e)
  | inr (inr (code, s)) ↦
      let (events, e) =
        alarms_from-Returns fuel (drop 16 (b ∷ bs)) (omega (arith, length-drop 15 bs)) in
      (alarm_fired code (alarm_event code) ++ events, alarms_from-alarm b bs fuel code s e)
]

scan_for_alarm_frame-Returns : (raw : Bytes) → Returns (scan_for_alarm_frame raw)
unfolding scan_for_alarm_frame
scan_for_alarm_frame-Returns raw = alarms_from-Returns (length raw) raw (omega arith)

scan_while_anonymous-Returns : (raw : Bytes) (c : Client) → Returns (scan_while_anonymous raw c)
unfolding scan_while_anonymous
scan_while_anonymous-Returns raw c = elim (Bool-cases (is_anonymous c)) [
  | inl unnamed ↦ rw unnamed (scan_for_machine_info-returns raw c)
  | inr named ↦ rw named (c, refl)
]

frame_command-Returns : (frame : Bytes) → 5 ≤ length frame → Returns (frame_command frame)
unfolding frame_command
frame_command-Returns frame h = (u16_at frame 3, ground arith)

module _ (is_far : ℕ → ℕ → Bool) (float_to_int : ℕ → Option ℤ) where
  parse_frames-Returns :
      (frames : List Bytes) (c : Client)
      → All (λ f. 5 ≤ length f) frames
      → Returns (parse_frames is_far float_to_int frames c)
  unfolding parse_frames parse_response
  parse_frames-Returns [] c h = ((c, []), refl)
  parse_frames-Returns (frame ∷ frames) c (h, hs) =
      let (cmd, known) = frame_command-Returns frame h in
      let r =
        handle_known is_far float_to_int (response_of cmd) frame (scan_for_status_frame frame c) in
      let ((c2, later), e) = parse_frames-Returns frames r.0 hs in
      ((c2, r.1 ++ later), rw known (rw e refl))

  -- No notification makes the handler raise or hang, as long as no header in it announces a
  -- length below five.
  pub on_notification-returns :
      (raw : Bytes) (c : Client)
      → HasLongFrames raw
      → (r : Client × List Event) × (on_notification is_far float_to_int raw c ≡ some r)
  unfolding on_notification
  on_notification-returns raw c h =
      let (c1, e1) = scan_while_anonymous-Returns raw c in
      let (c2, e2) = scan_for_advanced_settings-returns raw c1 in
      let (alarms, e3) = scan_for_alarm_frame-Returns raw in
      let (frames, e4, long) = iter_frames-long_frames raw h in
      let ((c3, events), e5) = parse_frames-Returns frames c2 long in
      ((c3, alarms ++ events), rw (e1, e2, e3, e4) (rw e5 refl))
