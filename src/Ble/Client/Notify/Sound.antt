-- ===== src/Ble/Client/Notify/Sound.antt =====
-- What holds of the readings after any notifications.
use hacs_xbloom.Ble.Client.Notify.Readings.{
  HasValidReadings, returned-valid, scan_for_advanced_settings-valid, scan_for_status_frame-valid,
  update_status-valid, fire_events-valid, scan_while_anonymous-valid, update_mode_ack-valid,
}
use hacs_xbloom.Ble.Client.Alarm.{scan_for_alarm_frame}
use hacs_xbloom.Bytes.Laws.{bind-some}
use hacs_xbloom.Ble.Framing.{frame_payload, frame_command, iter_frames}
use mathlib.Core.Path.{subst}
use mathlib.Core.Option.{some-injective}
use hacs_xbloom.Ble.Client.Notify.{
  handle_response, on_notification, parse_frames, parse_response, handle_known,
}
use hacs_xbloom.Ble.Client.Info.{scan_while_anonymous}
use hacs_xbloom.Ble.Client.Settings.{scan_for_advanced_settings}
use hacs_xbloom.Ble.Constants.{Response, response_of}
use hacs_xbloom.Prelude.Int.{ℤ}
use hacs_xbloom.Ble.Client.Heartbeat.{scan_for_status_frame}
use hacs_xbloom.Bytes.{Bytes, ◌>>=◌}
use hacs_xbloom.Ble.Client.{Client, Event}
use hacs_xbloom.Prelude.{Option, ℕ, Bool, some, ◌≡◌, none, ◌∷◌, [], List, ap}

module _ (is_far : ℕ → ℕ → Bool) (float_to_int : ℕ → Option ℤ) where
  handle_response-valid :
      (response : Response) (frame : Bytes) (c : Client)
      → HasValidReadings c
      → HasValidReadings (handle_response is_far float_to_int response frame c).0
  unfolding handle_response
  handle_response-valid response frame c h =
      let p = frame_payload frame in
      let updated = update_status-valid is_far float_to_int response p c h in
      fire_events-valid response p _ (update_mode_ack-valid response p _ updated)

  handle_known-valid :
      (known : Option Response) (frame : Bytes) (c : Client)
      → HasValidReadings c
      → HasValidReadings (handle_known is_far float_to_int known frame c).0
  handle_known-valid none frame c h = h
  handle_known-valid (some response) frame c h = handle_response-valid response frame c h

  parse_response-valid :
      (frame : Bytes) (c : Client) {c' : Client} {events : List Event}
      → parse_response is_far float_to_int frame c ≡ some (c', events)
      → HasValidReadings c
      → HasValidReadings c'
  unfolding parse_response
  parse_response-valid frame c {c'} {events} e h =
      let (cmd, _, returned) =
        bind-some (frame_command frame)
          (λ k. some (handle_known is_far float_to_int (response_of k) frame c)) e in
      let first : (handle_known is_far float_to_int (response_of cmd) frame c).0 ≡ c' =
        ap (λ r. r.0) (some-injective _ _ returned) in
      subst HasValidReadings first (handle_known-valid (response_of cmd) frame c h)

  parse_frames-valid :
      (frames : List Bytes) (c : Client) {c' : Client} {events : List Event}
      → parse_frames is_far float_to_int frames c ≡ some (c', events)
      → HasValidReadings c
      → HasValidReadings c'
  unfolding parse_frames
  parse_frames-valid [] c {c'} e h =
      subst HasValidReadings {x = c} {y = c'} (ap (λ r. r.0) (some-injective _ _ e)) h
  parse_frames-valid (frame ∷ frames) c {c'} e h =
      let ((c1, first), parsed, e1) = bind-some _ _ e in
      let ((c2, later), rest, e2) = bind-some (parse_frames is_far float_to_int frames c1) _ e1 in
      let seen = scan_for_status_frame-valid frame c h in
      let here = parse_response-valid frame (scan_for_status_frame frame c) parsed seen in
      let last = parse_frames-valid frames c1 rest here in
      subst HasValidReadings {x = c2} {y = c'} (ap (λ r. r.0) (some-injective _ _ e2)) last

  -- A notification keeps the readings valid, whatever bytes it carries.
  pub on_notification-valid :
      (raw : Bytes) (c : Client) {c' : Client} {events : List Event}
      → on_notification is_far float_to_int raw c ≡ some (c', events)
      → HasValidReadings c
      → HasValidReadings c'
  unfolding on_notification
  on_notification-valid raw c {c'} e h =
      let (c1, named, e1) = bind-some (scan_while_anonymous raw c) _ e in
      let (c2, stored, e2) = bind-some (scan_for_advanced_settings raw c1) _ e1 in
      let (alarms, _, e3) = bind-some (scan_for_alarm_frame raw) _ e2 in
      let (frames, _, e4) = bind-some (iter_frames raw) _ e3 in
      let ((c3, events), parsed, e5) =
        bind-some (parse_frames is_far float_to_int frames c2) _ e4 in
      let last = parse_frames-valid frames c2 parsed (
        scan_for_advanced_settings-valid raw c1 stored
          (scan_while_anonymous-valid raw c named h)) in
      subst HasValidReadings {x = c3} {y = c'} (ap (λ r. r.0) (some-injective _ _ e5)) last

  -- A connection's notifications, one after another.
  unfoldable pub notifications : List Bytes → Client → Option Client
  notifications [] c = some c
  notifications (raw ∷ raws) c = do
    (c1, events) ← on_notification is_far float_to_int raw c
    notifications raws c1

  -- Any sequence of notifications that is handled, from a client with valid readings, leaves them
  -- valid.
  pub notifications-valid :
      (raws : List Bytes) (c : Client) {c' : Client}
      → notifications raws c ≡ some c'
      → HasValidReadings c
      → HasValidReadings c'
  unfolding notifications
  notifications-valid [] c e h = returned-valid e h
  notifications-valid (raw ∷ raws) c e h =
      let ((c1, events), handled, rest) =
        bind-some (on_notification is_far float_to_int raw c) _ e in
      notifications-valid raws c1 rest (on_notification-valid raw c handled h)
