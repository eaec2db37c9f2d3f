-- ===== src/Ble/Framing/Crc.antt =====
-- `crc16`: it has sixteen bits, and it vanishes on data that its own bytes close.
use hacs_xbloom.Prelude.{
  ℕ, zero, suc, ◌+◌, ◌*◌, ◌/◌, ◌%◌, ◌^◌, ◌<◌, bit_xor, ◌≡◌, refl, ◌++◌, [], ◌∷◌, arith,
}
use hacs_xbloom.Prelude.Bits.{mul-two-pow-suc, bit_xor-lt, bit_xor_low_field, bit_xor_self}
use hacs_xbloom.Bytes.{Bytes, IsBytes, le16}
use hacs_xbloom.Ble.Framing.{crc_shift, crc_shifts, crc_byte, crc_from, crc16}

crc_shift-lt : (c : ℕ) → c < 65536 → crc_shift c < 65536
unfolding crc_shift
crc_shift-lt c h = ground (arith, bit_xor-lt 16 (c / 2) 0x8408)

crc_shifts-lt : (k c : ℕ) → c < 65536 → crc_shifts k c < 65536
unfolding crc_shifts
crc_shifts-lt zero c h = h
crc_shifts-lt (suc k) c h = crc_shifts-lt k (crc_shift c) (crc_shift-lt c h)

crc_byte-lt : (c b : ℕ) → c < 65536 → b < 256 → crc_byte c b < 65536
unfolding crc_byte
crc_byte-lt c b h k = crc_shifts-lt 8 (bit_xor c b) (bit_xor-lt 16 c b h (omega arith))

pub crc_from-lt : (c : ℕ) (bs : Bytes) → c < 65536 → IsBytes bs → crc_from c bs < 65536
unfolding crc_from
crc_from-lt c [] h p = h
crc_from-lt c (b ∷ bs) h (k, p) = crc_from-lt (crc_byte c b) bs (crc_byte-lt c b h k) p

-- The checksum of bytes fits the two bytes that the packet gives it.
pub crc16-lt : (bs : Bytes) → IsBytes bs → crc16 bs < 65536
unfolding crc16
crc16-lt bs p = crc_from-lt 0 bs (omega arith) p

pub crc_from-append : (c : ℕ) (bs cs : Bytes) → crc_from c (bs ++ cs) ≡ crc_from (crc_from c bs) cs
unfolding crc_from
crc_from-append c [] cs = refl
crc_from-append c (b ∷ bs) cs = crc_from-append (crc_byte c b) bs cs

-- a shift of an even register drops the zero bit
crc_shift_even : (q : ℕ) → crc_shift (q * 2) ≡ q
unfolding crc_shift
crc_shift_even q = ground arith

crc_shifts_high : (k h : ℕ) → crc_shifts k (h * 2 ^ k) ≡ h
unfolding crc_shifts
crc_shifts_high zero h = omega arith
crc_shifts_high (suc k) h =
    let double : h * 2 ^ suc k ≡ h * 2 ^ k * 2 = omega (arith, mul-two-pow-suc h k) in
    rw (double, crc_shift_even (h * 2 ^ k)) (crc_shifts_high k h)

-- The low byte of the register against itself moves the high byte down.
crc_byte_low : (c : ℕ) → crc_byte c (c % 256) ≡ c / 256
unfolding crc_byte
crc_byte_low c =
    let fields : bit_xor c (c % 256) ≡ c / 256 * 256 =
      rw (← split) at (bit_xor_low_field 8 (c / 256) (c % 256) (omega arith)) in
    rw fields (crc_shifts_high 8 (c / 256))
  where
    split : c ≡ c / 256 * 256 + c % 256
    split = omega arith

crc_byte_self : (c : ℕ) → crc_byte c c ≡ 0
unfolding crc_byte
crc_byte_self c = rw bit_xor_self (crc_shifts_high 8 0)

-- A register of sixteen bits, fed its own two bytes, is cleared.
pub crc_from-le16 : (c : ℕ) → crc_from c (le16 c) ≡ 0
unfolding crc_from
crc_from-le16 c = rw (crc_byte_low c, crc_byte_self (c / 256))
