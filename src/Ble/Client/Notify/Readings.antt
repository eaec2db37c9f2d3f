-- ===== src/Ble/Client/Notify/Readings.antt =====
-- The invariant of the client's readings, and each operation that keeps it.
use hacs_xbloom.Ble.Client.Response.Text.{IsText, strict_ascii-IsText}
use mathlib.Core.Path.{subst}
use mathlib.Core.Option.{some-injective}
use hacs_xbloom.Ble.Client.Notify.{fire_events, notification_of, lack_of_water}
use hacs_xbloom.Ble.Client.Info.{
  info_from, record_info, Search-cases, search_at, scan_while_anonymous, scan_for_machine_info,
  is_anonymous,
}
use hacs_xbloom.Ble.Client.Settings.{
  Found, settings_from, store_setting, radius, amplitude, nothing, settings_at, Move-cases,
  scan_for_advanced_settings,
}
use hacs_xbloom.Ble.Client.Weight.{filter_weight}
use hacs_xbloom.Ble.Constants.{Response}
use hacs_xbloom.Prelude.Int.{ℤ}
use hacs_xbloom.Ble.Client.Heartbeat.{status_code, screen_of, scan_for_status_frame, page_shown}
use hacs_xbloom.Bytes.{Bytes, byte_at, u32_at}
use hacs_xbloom.Ble.Client.{Client, Screen, Event}
use hacs_xbloom.Ble.Client.Response.{
  strict_ascii, machine_info, pumped, update_status, weighed, slice, update_mode_ack, with_u32,
}
use hacs_xbloom.Prelude.{
  Option, ℕ, Bool, some, ◌≡◌, ◌≤◌, false, none, ◌∷◌, arith, ◌==◌, [], refl, if◌then◌else◌,
  Bool-cases, true, leb, length, ◌||◌, not, inl, inr, List, Option-cases, ◌&&◌, ltb, suc, zero,
  drop,
}

abbrev pub IsPatternLive : Option ℕ → Type 0
IsPatternLive none = Unit
IsPatternLive (some v) = v ≤ 2

-- The weight on show is the last one that the filter accepted, where there is one.
abbrev IsShown : Option ℕ → ℕ → Type 0
IsShown none shown = Unit
IsShown (some w) shown = shown ≡ w

-- The invariant of the client: the live pattern is one of the three, the serial number and the
-- version are text, the weight on show is the last accepted one, and at most four weights in a
-- row have been rejected.
abbrev pub HasValidReadings : Client → Type 0
HasValidReadings c =
    IsPatternLive c.pour_pattern_live
    × IsText c.serial_number
    × IsText c.version
    × IsShown c.last_accepted_weight c.weight
    × (c.weight_out_of_limit_count ≤ 4)

page_shown-valid :
    (s : Option Screen) (c : Client) → HasValidReadings c → HasValidReadings (page_shown s c)
page_shown-valid none c h = h
page_shown-valid (some s) c h = h

status_code-valid :
    (code : ℕ) (c : Client) → HasValidReadings c → HasValidReadings (status_code code c)
unfolding status_code
status_code-valid code c h = page_shown-valid (screen_of code) _ h

pub scan_for_status_frame-valid :
    (raw : Bytes) (c : Client) → HasValidReadings c → HasValidReadings (scan_for_status_frame raw c)
unfolding scan_for_status_frame
scan_for_status_frame-valid raw c h =
    elim (Bool-cases (leb (length raw) 12 || not (byte_at raw 3 == 0x57))) [
      | inl other ↦ rw other h
      | inr status ↦ rw status (status_code-valid (byte_at raw 10) c h)
    ]

IsText-or : (b : Bool) (bs cs : Bytes) → IsText cs → IsText (if b then strict_ascii bs else cs)
IsText-or true bs cs h = strict_ascii-IsText bs
IsText-or false bs cs h = h

machine_info-valid :
    (p : Bytes) (c : Client) → HasValidReadings c → HasValidReadings (machine_info p c)
unfolding machine_info
machine_info-valid p c (pattern, serial, version, shown, rejected) =
    let serial' = IsText-or (leb 29 (length p)) (slice 0 13 p) c.serial_number serial in
    let version' = IsText-or (leb 29 (length p)) (slice 19 29 p) c.version version in
    (pattern, serial', version', shown, rejected)

pumped-valid : (v : Option ℤ) (c : Client) → HasValidReadings c → HasValidReadings (pumped v c)
pumped-valid none c h = h
pumped-valid (some v) c h = h

weighed-valid :
    (is_far : ℕ → ℕ → Bool) (bits : ℕ) (c : Client)
    → HasValidReadings c
    → HasValidReadings (weighed is_far bits c)
unfolding filter_weight
weighed-valid is_far bits c (pattern, serial, version, shown, rejected) =
    elim (Option-cases c.last_accepted_weight) [
      | inl first ↦ rw first (pattern, serial, version, refl, omega arith)
      | inr (last, known) ↦
          elim (Bool-cases (is_far bits last && ltb c.weight_out_of_limit_count 4)) [
            | inl glitch ↦ ground arith
            | inr fine ↦ ground arith
          ]
    ]

with_u32-valid :
    (p : Bytes) (c : Client) (k : ℕ → Client × List Event)
    → HasValidReadings c
    → HasValidReadings (k (u32_at p 0)).0
    → HasValidReadings (with_u32 p c k).0
with_u32-valid p c k h g = elim (Bool-cases (leb 4 (length p))) [
  | inl long ↦ rw long g
  | inr short ↦ rw short h
]

module _ (is_far : ℕ → ℕ → Bool) (float_to_int : ℕ → Option ℤ) where
  pub update_status-valid :
      (response : Response) (p : Bytes) (c : Client)
      → HasValidReadings c
      → HasValidReadings (update_status is_far float_to_int response p c).0
  unfolding update_status
  update_status-valid Response.machine_info p c h = machine_info-valid p c h
  update_status-valid Response.current_weight p c h =
      with_u32-valid p c (λ bits. (weighed is_far bits c, [])) h
        (weighed-valid is_far (u32_at p 0) c h)
  update_status-valid Response.current_weight2 p c h =
      with_u32-valid p c (λ bits. (weighed is_far bits c, [])) h
        (weighed-valid is_far (u32_at p 0) c h)
  update_status-valid Response.water_volume p c h =
      with_u32-valid p c (λ bits. (pumped (float_to_int bits) c, [])) h
        (pumped-valid (float_to_int (u32_at p 0)) c h)
  update_status-valid _ p c h = ground arith

pub update_mode_ack-valid :
    (response : Response) (p : Bytes) (c : Client)
    → HasValidReadings c
    → HasValidReadings (update_mode_ack response p c)
unfolding update_mode_ack
update_mode_ack-valid Response.easymode_type p c h = ground arith
update_mode_ack-valid _ p c h = h

pub fire_events-valid :
    (response : Response) (p : Bytes) (c : Client)
    → HasValidReadings c
    → HasValidReadings (fire_events response p c).0
unfolding fire_events notification_of lack_of_water
fire_events-valid Response.error_lack_of_water p c h = ground arith
fire_events-valid _ p c h = ground arith

pub returned-valid : {c c' : Client} → some c ≡ some c' → HasValidReadings c → HasValidReadings c'
returned-valid {c} {c'} e h = subst HasValidReadings {x = c} {y = c'} (some-injective c c' e) h

store_setting-valid :
    (f : Found) (c : Client) → HasValidReadings c → HasValidReadings (store_setting f c)
store_setting-valid nothing c h = h
store_setting-valid (radius v) c h = h
store_setting-valid (amplitude v) c h = h

settings_from-valid :
    (fuel : ℕ) (raw : Bytes) (c : Client) {c' : Client}
    → settings_from fuel raw c ≡ some c'
    → HasValidReadings c
    → HasValidReadings c'
unfolding settings_from
settings_from-valid zero [] c e h = returned-valid e h
settings_from-valid (suc fuel) [] c e h = returned-valid e h
settings_from-valid zero (b ∷ bs) c e h = absurd (ground arith)
settings_from-valid (suc fuel) (b ∷ bs) c e h =
    let stored = store_setting-valid (settings_at (b ∷ bs)).0 c h in
    elim (Move-cases (settings_at (b ∷ bs)).1) [
      | inl stops ↦ returned-valid (rw (stops, settings_from) at e) stored
      | inr (n, goes) ↦
          settings_from-valid fuel (drop n (b ∷ bs)) _ (rw (goes, settings_from) at e) stored
    ]

record_info-valid :
    (p : Bytes) (c : Client)
    → HasValidReadings c
    → HasValidReadings (record_info (strict_ascii (slice 0 13 p)) p c)
record_info-valid p c h =
    let serial = strict_ascii-IsText (slice 0 13 p) in
    let version = strict_ascii-IsText (slice 19 29 p) in
    go (strict_ascii (slice 0 13 p)) serial version h
  where
    go :
        (text : Bytes)
        → IsText text
        → IsText (strict_ascii (slice 19 29 p))
        → HasValidReadings c
        → HasValidReadings (record_info text p c)
    go [] serial version h = h
    go (b ∷ bs) serial version (pattern, _, _, shown, rejected) =
        (pattern, serial, version, shown, rejected)

info_from-valid :
    (fuel idx : ℕ) (raw : Bytes) (c : Client) {c' : Client}
    → info_from fuel idx raw c ≡ some c'
    → HasValidReadings c
    → HasValidReadings c'
unfolding info_from
info_from-valid zero idx raw c e h = absurd (ground arith)
info_from-valid (suc fuel) idx raw c e h = elim (Search-cases (search_at raw idx)) [
  | inl s ↦ returned-valid (rw (s, info_from) at e) h
  | inr (inl (next, s)) ↦ info_from-valid fuel next raw c (rw (s, info_from) at e) h
  | inr (inr (p, s)) ↦ returned-valid (rw (s, info_from) at e) (record_info-valid p c h)
]

pub scan_for_advanced_settings-valid :
    (raw : Bytes) (c : Client) {c' : Client}
    → scan_for_advanced_settings raw c ≡ some c'
    → HasValidReadings c
    → HasValidReadings c'
unfolding scan_for_advanced_settings
scan_for_advanced_settings-valid raw c e h = settings_from-valid (length raw) raw c e h

pub scan_while_anonymous-valid :
    (raw : Bytes) (c : Client) {c' : Client}
    → scan_while_anonymous raw c ≡ some c'
    → HasValidReadings c
    → HasValidReadings c'
unfolding scan_while_anonymous scan_for_machine_info
scan_while_anonymous-valid raw c e h = elim (Bool-cases (is_anonymous c)) [
  | inl unnamed ↦ info_from-valid (suc (length raw)) 0 raw c (rw unnamed at e) h
  | inr named ↦ returned-valid (rw named at e) h
]
