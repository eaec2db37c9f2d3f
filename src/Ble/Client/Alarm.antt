-- ===== src/Ble/Client/Alarm.antt =====
-- `_scan_for_alarm_frame`: the machine's alarm channel (command 0xFFFE, marker 0xCD).
use hacs_xbloom.Prelude.{
  List, ℕ, Bool, Option, if◌then◌else◌, length, ◌++◌, ◌∷◌, [], false, ltb, some, ◌≡◌, get_or-append,
  none, true, ◌==◌, arith, suc, ◌&&◌, ◌||◌, length-append, drop, zero, All, concat,
  drop-append_length, refl, ◌<◌, ◌≤◌, ap, append_assoc, ◌≢◌, Bool-cases, ◌∙◌, inl, sym, ltb→lt, inr,
}
use hacs_xbloom.Bytes.{Bytes, byte_at, u32_at, ◌>>=◌}
use hacs_xbloom.Ble.Client.{Event, ErrorType, failure}

abbrev pub mem : ℕ → List ℕ → Bool
mem n [] = false
mem n (m ∷ ms) = n == m || mem n ms

-- _ALARM_CODE_EVENTS
unfoldable pub alarm_event : ℕ → Option ErrorType
alarm_event code =
    if mem code (8449 ∷ 8450 ∷ 4355 ∷ 4356 ∷ 4357 ∷ 4358 ∷ 4359 ∷ 4360 ∷ 4361 ∷ 4362 ∷ [])
    then some ErrorType.mismatched_power
    else if mem code (
        513 ∷ 4610 ∷ 5633 ∷ 5637 ∷ 6148 ∷ 6401 ∷ 6402 ∷ 6403 ∷ 6404 ∷ 6405 ∷ 9730 ∷ 9732 ∷ 10241
        ∷ 10242 ∷ 10243 ∷ 10245 ∷ 13827 ∷ 14342 ∷ 14598 ∷ 14599 ∷ 14600 ∷ 14601 ∷ 14602 ∷ 14603
        ∷ [])
    then some ErrorType.brewing_error
    else if mem code
        (8961 ∷ 8962 ∷ 8963 ∷ 4868 ∷ 4869 ∷ 4871 ∷ 4873 ∷ 4874 ∷ 4875 ∷ 13062 ∷ 13064 ∷ [])
    then some ErrorType.dock_moving_error
    else if mem code
        (1025 ∷ 5123 ∷ 5124 ∷ 5379 ∷ 9218 ∷ 9473 ∷ 9474 ∷ 9477 ∷ 9478 ∷ 13317 ∷ 13572 ∷ [])
    then some ErrorType.grinding_error
    else if mem code (1793 ∷ 1795 ∷ 1796 ∷ 5890 ∷ [])
    then some ErrorType.scale_overload
    else if mem code (7169 ∷ 7170 ∷ [])
    then some ErrorType.upgrade_failed
    else none

unfoldable pub is_alarm : Bytes → Bool
is_alarm here =
    byte_at here 0 == 0x58
    && byte_at here 3 == 0xfe
    && byte_at here 4 == 0xff
    && byte_at here 9 == 0xcd

-- the event of one alarm; the silent and the unmapped codes fire none
abbrev pub alarm_fired : ℕ → Option ErrorType → List Event
alarm_fired code none = []
alarm_fired code (some e) = failure e (some code) ∷ []

-- What one round of the walk does at `raw[offset:]`.
pub data Round : Type 0 where
  over next : Round
  alarm : ℕ → Round

unfoldable pub round_at : Bytes → Round
round_at here =
    if ltb (length here) 16 then over else if is_alarm here then alarm (u32_at here 10) else next

-- The loop; `none` means that the fuel ran out with the loop still going.
unfoldable pub alarms_from : ℕ → Bytes → Option (List Event)
alarms_from fuel [] = some []
alarms_from zero (b ∷ bs) = none
alarms_from (suc fuel) (b ∷ bs) = elim (round_at (b ∷ bs)) [
  | over ↦ some []
  | next ↦ alarms_from fuel bs
  | alarm code ↦ do
    later ← alarms_from fuel (drop 16 (b ∷ bs))
    some (alarm_fired code (alarm_event code) ++ later)
]

unfoldable pub scan_for_alarm_frame : Bytes → Option (List Event)
scan_for_alarm_frame raw = alarms_from (length raw) raw

-- An alarm frame: sixteen bytes with the header, the command, the marker and the code.
pub record IsAlarmFrame (code : ℕ) (f : Bytes) : Type 0 where
  pub size : length f ≡ 16
  pub alarm_bytes : is_alarm f ≡ true
  pub code_read : u32_at f 10 ≡ code

-- The frames, one for each code.
abbrev pub AreAlarms : List ℕ → List Bytes → Type 0
AreAlarms [] [] = Unit
AreAlarms (code ∷ codes) (f ∷ fs) = IsAlarmFrame code f × AreAlarms codes fs
AreAlarms _ _ = ⊥

abbrev pub alarms_fired : List ℕ → List Event
alarms_fired [] = []
alarms_fired (code ∷ codes) = alarm_fired code (alarm_event code) ++ alarms_fired codes

round_at-alarm :
    (code : ℕ) (f rest : Bytes) → IsAlarmFrame code f → round_at (f ++ rest) ≡ alarm code
unfolding round_at is_alarm
round_at-alarm code f rest h =
    rw
      (
        get_or-append f rest 0 0 (omega (arith, h.size)),
        get_or-append f rest 3 0 (omega (arith, h.size)),
        get_or-append f rest 4 0 (omega (arith, h.size)),
        get_or-append f rest 9 0 (omega (arith, h.size)),
        get_or-append f rest 10 0 (omega (arith, h.size)),
        get_or-append f rest 11 0 (omega (arith, h.size)),
        get_or-append f rest 12 0 (omega (arith, h.size)),
        get_or-append f rest 13 0 (omega (arith, h.size)),
        length-append f rest,
        h.size,
        h.alarm_bytes,
        h.code_read,
      )
      (ground arith)

pub alarms_from-nil : (fuel : ℕ) → alarms_from fuel [] ≡ some []
unfolding alarms_from
alarms_from-nil zero = refl
alarms_from-nil (suc fuel) = refl

module _ (b : ℕ) (bs : Bytes) (fuel : ℕ) where
  pub alarms_from-over : round_at (b ∷ bs) ≡ over → alarms_from (suc fuel) (b ∷ bs) ≡ some []
  unfolding alarms_from
  alarms_from-over e = rw (e, alarms_from)

  pub alarms_from-next :
      round_at (b ∷ bs) ≡ next → alarms_from (suc fuel) (b ∷ bs) ≡ alarms_from fuel bs
  unfolding alarms_from
  alarms_from-next e = rw (e, alarms_from)

  pub alarms_from-alarm :
      (code : ℕ) {events : List Event}
      → round_at (b ∷ bs) ≡ alarm code
      → alarms_from fuel (drop 16 (b ∷ bs)) ≡ some events
      → alarms_from (suc fuel) (b ∷ bs) ≡ some (alarm_fired code (alarm_event code) ++ events)
  unfolding alarms_from
  alarms_from-alarm code e later = rw (e, alarms_from) (rw later refl)

alarms_from-short :
    (fuel : ℕ) (raw : Bytes) → length raw ≤ fuel → length raw < 16 → alarms_from fuel raw ≡ some []
alarms_from-short fuel [] enough short = alarms_from-nil fuel
alarms_from-short zero (b ∷ bs) enough short = absurd (omega arith)
alarms_from-short (suc fuel) (b ∷ bs) enough short =
    alarms_from-over b bs fuel (unfold round_at in ground arith)

alarms_from-frame :
    (code : ℕ) (f rest : Bytes) (fuel : ℕ) {events : List Event}
    → IsAlarmFrame code f
    → alarms_from fuel rest ≡ some events
    → alarms_from (suc fuel) (f ++ rest) ≡ some (alarm_fired code (alarm_event code) ++ events)
alarms_from-frame code [] rest fuel h later = absurd (omega (arith, h.size))
alarms_from-frame code (b ∷ bs) rest fuel h later =
    alarms_from-alarm b (bs ++ rest) fuel code (round_at-alarm code (b ∷ bs) rest h)
      (ap (λ xs. alarms_from fuel xs) behind ∙ later)
  where
    behind : drop 16 (b ∷ (bs ++ rest)) ≡ rest
    behind = rw (← h.size) (drop-append_length (b ∷ bs) rest)

alarms_from-concat :
    (codes : List ℕ) (fs : List Bytes) (tail : Bytes) (fuel : ℕ)
    → AreAlarms codes fs
    → length tail < 16
    → length (concat fs ++ tail) ≤ fuel
    → alarms_from fuel (concat fs ++ tail) ≡ some (alarms_fired codes)
alarms_from-concat [] [] tail fuel h short enough = alarms_from-short fuel tail enough short
alarms_from-concat [] (f ∷ fs) tail fuel h short enough = absurd h
alarms_from-concat (code ∷ codes) [] tail fuel h short enough = absurd h
alarms_from-concat (code ∷ codes) (f ∷ fs) tail zero (h, hs) short enough =
    absurd (omega (arith, h.size, length-append (f ++ concat fs) tail, length-append f (concat fs)))
alarms_from-concat (code ∷ codes) (f ∷ fs) tail (suc fuel) (h, hs) short enough = rw append_assoc (
    alarms_from-frame code f (concat fs ++ tail) fuel h (
      alarms_from-concat codes fs tail fuel hs short (
        omega (
          arith,
          h.size,
          length-append (f ++ concat fs) tail,
          length-append f (concat fs),
          length-append (concat fs) tail,
        ))))

short_alarms :
    (codes : List ℕ) (fs : List Bytes) (tail : Bytes)
    → AreAlarms codes fs
    → length (concat fs ++ tail) < 16
    → alarms_fired codes ≡ []
short_alarms [] fs tail h short = refl
short_alarms (code ∷ codes) [] tail h short = absurd h
short_alarms (code ∷ codes) (f ∷ fs) tail (h, hs) short =
    absurd (omega (arith, h.size, length-append (f ++ concat fs) tail, length-append f (concat fs)))

alarms_from-noise :
    (noise : Bytes) (codes : List ℕ) (fs : List Bytes) (tail : Bytes) (fuel : ℕ)
    → All (λ b. b ≢ 0x58) noise
    → AreAlarms codes fs
    → length tail < 16
    → length (noise ++ (concat fs ++ tail)) ≤ fuel
    → alarms_from fuel (noise ++ (concat fs ++ tail)) ≡ some (alarms_fired codes)
alarms_from-noise [] codes fs tail fuel quiet h short enough =
    alarms_from-concat codes fs tail fuel h short enough
alarms_from-noise (b ∷ noise) codes fs tail zero quiet h short enough = absurd (omega arith)
alarms_from-noise (b ∷ noise) codes fs tail (suc fuel) (ne, quiet) h short enough =
    elim (Bool-cases (ltb (length (b ∷ (noise ++ (concat fs ++ tail)))) 16)) [
      | inl ends ↦
          alarms_from-over b (noise ++ (concat fs ++ tail)) fuel (unfold round_at in rw ends refl)
          ∙ ap some (
              sym (
                short_alarms codes fs tail h
                  (omega (arith, ltb→lt _ _ ends, length-append noise (concat fs ++ tail)))))
      | inr goes ↦
          alarms_from-next b (noise ++ (concat fs ++ tail)) fuel
            (unfold round_at is_alarm in rw goes (ground arith))
          ∙ alarms_from-noise noise codes fs tail fuel quiet h short (omega arith)
    ]

-- Alarm frames behind bytes that are no header, with at most fifteen bytes after them, fire the
-- events of their codes in order and nothing else; the walk ends.
pub scan_for_alarm_frame_lem :
    (noise : Bytes) (codes : List ℕ) (fs : List Bytes) (tail : Bytes)
    → All (λ b. b ≢ 0x58) noise
    → AreAlarms codes fs
    → length tail < 16
    → scan_for_alarm_frame (noise ++ (concat fs ++ tail)) ≡ some (alarms_fired codes)
unfolding scan_for_alarm_frame
scan_for_alarm_frame_lem noise codes fs tail quiet h short =
    alarms_from-noise noise codes fs tail (length (noise ++ (concat fs ++ tail))) quiet h short
      (omega arith)
