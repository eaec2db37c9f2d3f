-- ===== src/Ble/Client/Settings.antt =====
-- `_scan_for_advanced_settings`: the walk for the responses to 11506 to 11509.
use hacs_xbloom.Bytes.{Bytes, u16_at, u32_at, byte_at}
use hacs_xbloom.Prelude.{
  some, ℕ, ◌≡◌, Option, length, ◌<◌, ◌⊎◌, arith, if◌then◌else◌, inl, ◌∷◌, ◌≤◌, inr, none, not, suc,
  ◌==◌, drop, refl, ◌||◌, [], length-drop, ltb, zero,
}
use hacs_xbloom.Ble.Client.{Client}
use hacs_xbloom.Ble.Framing.{is_header, max_packet_len}

-- What one round of the walk does at `raw[offset:]`: stop, or store a value or not, and go on by
-- so many bytes, or stop behind the value.
pub data Found : Type 0 where
  nothing : Found
  radius amplitude : ℕ → Found

pub data Move : Type 0 where
  halt : Move
  forward : ℕ → Move

unfoldable pub found_at : Bytes → Found
found_at here =
    let cmd = u16_at here 3 in
    if cmd == 11506 || cmd == 11507
    then radius (u32_at here 10)
    else if cmd == 11508 || cmd == 11509
    then amplitude (u32_at here 10)
    else nothing

unfoldable pub settings_at : Bytes → Found × Move
unfolding found_at
settings_at here =
    let total_len = u32_at here 5 in
    if not (is_header (byte_at here 0))
    then (nothing, forward 1)
    else if ltb (length here) 14
    then (nothing, halt)
    else if ltb max_packet_len total_len
    then (nothing, forward 1)
    else if not (byte_at here 9 == 0xc2)
    then (nothing, forward 1)
    else if ltb (length here) total_len || total_len == 0
    then (found_at here, halt)
    else (found_at here, forward total_len)

abbrev pub store_setting : Found → Client → Client
store_setting nothing c = c
store_setting (radius v) c = record c { pour_radius = some v }
store_setting (amplitude v) c = record c { vibration_amplitude = some v }

-- The loop; `none` means that the fuel ran out with the loop still going.
unfoldable pub settings_from : ℕ → Bytes → Client → Option Client
settings_from fuel [] c = some c
settings_from zero (b ∷ bs) c = none
settings_from (suc fuel) (b ∷ bs) c = elim (settings_at (b ∷ bs)).1 [
  | halt ↦ some (store_setting (settings_at (b ∷ bs)).0 c)
  | forward n ↦ settings_from fuel (drop n (b ∷ bs)) (store_setting (settings_at (b ∷ bs)).0 c)
]

unfoldable pub scan_for_advanced_settings : Bytes → Client → Option Client
scan_for_advanced_settings raw c = settings_from (length raw) raw c

forward_pos : (here : Bytes) (n : ℕ) → (settings_at here).1 ≡ forward n → 0 < n
unfolding settings_at
forward_pos here n h = ground arith

pub Move-cases : (m : Move) → (m ≡ halt) ⊎ ((n : ℕ) × (m ≡ forward n))
Move-cases halt = inl refl
Move-cases (forward n) = inr (n, refl)

settings_from-returns :
    (fuel : ℕ) (raw : Bytes) (c : Client)
    → length raw ≤ fuel
    → (c' : Client) × (settings_from fuel raw c ≡ some c')
unfolding settings_from
settings_from-returns zero [] c enough = (c, refl)
settings_from-returns (suc fuel) [] c enough = (c, refl)
settings_from-returns zero (b ∷ bs) c enough = absurd (omega arith)
settings_from-returns (suc fuel) (b ∷ bs) c enough = elim (Move-cases (settings_at (b ∷ bs)).1) [
  | inl stops ↦ (store_setting (settings_at (b ∷ bs)).0 c, rw (stops, settings_from))
  | inr (n, goes) ↦
      let (c', e) =
        settings_from-returns fuel (drop n (b ∷ bs)) (store_setting (settings_at (b ∷ bs)).0 c)
          (omega (arith, length-drop n (b ∷ bs), forward_pos (b ∷ bs) n goes)) in
      (c', rw (goes, settings_from) e)
]

-- The walk ends on every buffer: one round for each byte is enough.
pub scan_for_advanced_settings-returns :
    (raw : Bytes) (c : Client) → (c' : Client) × (scan_for_advanced_settings raw c ≡ some c')
unfolding scan_for_advanced_settings
scan_for_advanced_settings-returns raw c = settings_from-returns (length raw) raw c (omega arith)
