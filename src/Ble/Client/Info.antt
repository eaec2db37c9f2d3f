-- ===== src/Ble/Client/Info.antt =====
-- `_scan_for_machine_info`: the machine's description found by its signature, whatever the length
-- field says.
use hacs_xbloom.Ble.Framing.{is_header}
use hacs_xbloom.Ble.Client.Response.{strict_ascii, slice}
use hacs_xbloom.Bytes.{Bytes, byte_at}
use hacs_xbloom.Ble.Client.{Client}
use hacs_xbloom.Prelude.{
  ℕ, ◌≡◌, Bool, Option, if◌then◌else◌, length, some, ◌<◌, ◌∷◌, ◌⊎◌, inl, ltb, none, suc, ◌+◌, ◌==◌,
  arith, inr, not, ◌&&◌, ◌≤◌, [], refl, zero, ◌-◌, drop,
}

-- `_MACHINE_INFO_CMD_BYTES`, 40521 in two bytes
abbrev pub is_info_signature : Bytes → ℕ → Bool
is_info_signature raw idx = byte_at raw idx == 0x49 && byte_at raw (idx + 1) == 0x9e

-- What one round decides at `idx`. The rounds of `raw.find` are rounds of this walk.
pub data Search : Type 0 where
  finished : Search
  onward : ℕ → Search
  found : Bytes → Search

unfoldable pub search_at : Bytes → ℕ → Search
search_at raw idx =
    if ltb (length raw) (idx + 2)
    then finished
    else if not (is_info_signature raw idx)
    then onward (idx + 1)
    else if ltb idx 3
    then finished
    else if not (is_header (byte_at raw (idx - 3)))
    then onward (idx + 1)
    else if ltb (length (drop (idx + 7) raw)) 34
    then onward (idx + 2)
    else found (drop (idx + 7) raw)

-- `if serial:` on the fields of the payload
abbrev pub record_info : Bytes → Bytes → Client → Client
record_info [] p c = c
record_info (b ∷ bs) p c = record c {
  serial_number = b ∷ bs;
  version = strict_ascii (slice 19 29 p);
  mode_bytes = some p;
}

-- The loop; `none` means that the fuel ran out with the loop still going.
unfoldable pub info_from : ℕ → ℕ → Bytes → Client → Option Client
info_from zero idx raw c = none
info_from (suc fuel) idx raw c = elim (search_at raw idx) [
  | finished ↦ some c
  | onward next ↦ info_from fuel next raw c
  | found p ↦ some (record_info (strict_ascii (slice 0 13 p)) p c)
]

unfoldable pub scan_for_machine_info : Bytes → Client → Option Client
scan_for_machine_info raw c = info_from (suc (length raw)) 0 raw c

-- `if not self._status.serial_number`
abbrev pub is_anonymous : Client → Bool
is_anonymous c = length c.serial_number == 0

unfoldable pub scan_while_anonymous : Bytes → Client → Option Client
scan_while_anonymous raw c = if is_anonymous c then scan_for_machine_info raw c else some c

onward_lem :
    (raw : Bytes) (idx next : ℕ)
    → search_at raw idx ≡ onward next
    → (idx < next) × (idx + 2 ≤ length raw)
unfolding search_at
onward_lem raw idx next h = ground arith

pub Search-cases :
    (s : Search) → (s ≡ finished) ⊎ ((n : ℕ) × (s ≡ onward n)) ⊎ ((p : Bytes) × (s ≡ found p))
Search-cases finished = inl refl
Search-cases (onward n) = inr (inl (n, refl))
Search-cases (found p) = inr (inr (p, refl))

info_from-returns :
    (fuel idx : ℕ) (raw : Bytes) (c : Client)
    → length raw < fuel + idx
    → 0 < fuel
    → (c' : Client) × (info_from fuel idx raw c ≡ some c')
unfolding info_from
info_from-returns zero idx raw c enough some_fuel = absurd (omega arith)
info_from-returns (suc fuel) idx raw c enough some_fuel = elim (Search-cases (search_at raw idx)) [
  | inl s ↦ (c, rw (s, info_from))
  | inr (inl (next, s)) ↦
      let (later, inside) = onward_lem raw idx next s in
      let (c', e) = info_from-returns fuel next raw c (omega arith) (omega arith) in
      (c', rw (s, info_from) e)
  | inr (inr (p, s)) ↦ (record_info (strict_ascii (slice 0 13 p)) p c, rw (s, info_from))
]

-- The search ends on every buffer: one round for each byte, and one more, is enough.
pub scan_for_machine_info-returns :
    (raw : Bytes) (c : Client) → (c' : Client) × (scan_for_machine_info raw c ≡ some c')
unfolding scan_for_machine_info
scan_for_machine_info-returns raw c =
    info_from-returns (suc (length raw)) 0 raw c (omega arith) (omega arith)
