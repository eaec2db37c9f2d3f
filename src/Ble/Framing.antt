-- ===== src/Ble/Framing.antt =====
-- custom_components/xbloom/ble/framing.py: the checksum, building packets, cutting frames out of
-- a notification buffer, and splitting a packet into writes.
pub mod Crc
pub mod Build
pub mod Frames
pub mod Long
pub mod Chunks
mod Tests
use hacs_xbloom.Prelude.{
  ℕ, zero, suc, ◌+◌, ◌-◌, ◌*◌, ◌/◌, ◌%◌, min, max, bit_xor, Bool, not, ◌||◌, List, [], ◌∷◌, ◌++◌,
  Option, none, some, ltb, ◌==◌, if◌then◌else◌, length, take, drop,
}
use hacs_xbloom.Bytes.{Bytes, pack_u16, pack_u32, pack_u8, byte_at, u16_at, u32_at, ◌>>=◌}

-- the body of `for _ in range(8)`: `crc & 1`, `crc >> 1` and the polynomial
unfoldable pub crc_shift : ℕ → ℕ
crc_shift crc = if crc % 2 == 1 then bit_xor (crc / 2) 0x8408 else crc / 2

unfoldable pub crc_shifts : ℕ → ℕ → ℕ
unfolding crc_shift
crc_shifts zero crc = crc
crc_shifts (suc k) crc = crc_shifts k (crc_shift crc)

unfoldable pub crc_byte : ℕ → ℕ → ℕ
unfolding crc_shifts
crc_byte crc b = crc_shifts 8 (bit_xor crc b)

unfoldable pub crc_from : ℕ → Bytes → ℕ
unfolding crc_byte
crc_from crc [] = crc
crc_from crc (b ∷ bs) = crc_from (crc_byte crc b) bs

unfoldable pub crc16 : Bytes → ℕ
unfolding crc_from
crc16 bs = crc_from 0 bs

-- The packet up to the checksum. `bytearray.append` and `struct.pack` raise out of range.
unfoldable pub build_head : ℕ → Bytes → ℕ → ℕ → Option Bytes
build_head command payload type_code device_id = do
  dev ← pack_u8 device_id
  typ ← pack_u8 type_code
  cmd ← pack_u16 command
  len ← pack_u32 (12 + length payload)
  some (0x58 ∷ (dev ++ (typ ++ (cmd ++ (len ++ 0x01 ∷ payload)))))

unfoldable pub build_packet_raw : ℕ → Bytes → ℕ → ℕ → Option Bytes
unfolding build_head
build_packet_raw command payload type_code device_id = do
  packet ← build_head command payload type_code device_id
  crc ← pack_u16 (crc16 packet)
  some (packet ++ crc)

unfoldable pub pack_all : List ℕ → Option Bytes
pack_all [] = some []
pack_all (v ∷ vs) = do b ← pack_u32 v; bs ← pack_all vs; some (b ++ bs)

unfoldable pub build_packet : ℕ → List ℕ → ℕ → ℕ → Option Bytes
unfolding pack_all build_packet_raw
build_packet command values type_code device_id = do
  payload ← pack_all values
  build_packet_raw command payload type_code device_id

abbrev pub max_packet_len : ℕ
max_packet_len = 256

abbrev pub is_header : ℕ → Bool
is_header b = b == 0x58 || b == 0x02

abbrev pub is_marker : ℕ → Bool
is_marker b = b == 0xc1 || b == 0xc2

abbrev pub frame_cons : Bytes → Option (List Bytes) → Option (List Bytes)
frame_cons f none = none
frame_cons f (some fs) = some (f ∷ fs)

-- What one round of the loop of `iter_frames` decides at `raw_data[offset:]`: move on by a byte,
-- leave the loop, or yield a frame of that length and move behind it.
pub data Scan : Type 0 where
  skip stop : Scan
  yield_frame : ℕ → Scan

unfoldable pub scan_at : Bytes → Scan
scan_at here =
    let total_len = u32_at here 5 in
    if not (is_header (byte_at here 0))
    then skip
    else if ltb (length here) 10
    then stop
    else if ltb max_packet_len total_len
    then skip
    else if not (is_marker (byte_at here 9))
    then skip
    else if ltb (length here) total_len
    then stop
    else yield_frame total_len

-- The loop; the buffer is `raw_data[offset:]`, so `n - offset` is its length. `none` means that
-- the fuel ran out with the loop still going.
unfoldable pub frames_from : ℕ → Bytes → Option (List Bytes)
frames_from fuel [] = some []
frames_from zero (b ∷ bs) = none
frames_from (suc fuel) (b ∷ bs) = elim (scan_at (b ∷ bs)) [
  | skip ↦ frames_from fuel bs
  | stop ↦ some []
  | yield_frame total_len ↦
      frame_cons (take total_len (b ∷ bs)) (frames_from fuel (drop total_len (b ∷ bs)))
]

unfoldable pub iter_frames : Bytes → Option (List Bytes)
unfolding frames_from
iter_frames raw_data = frames_from (length raw_data) raw_data

-- struct.unpack raises on a frame of fewer than five bytes.
unfoldable pub frame_command : Bytes → Option ℕ
frame_command frame = if ltb (length frame) 5 then none else some (u16_at frame 3)

-- frame[10:-2] if len(frame) > 12 else b""
unfoldable pub frame_payload : Bytes → Bytes
frame_payload frame = if ltb 12 (length frame) then take (length frame - 12) (drop 10 frame) else []

abbrev pub chunk_size : ℕ → ℕ
chunk_size mtu_size = max 20 (min 100 (mtu_size - 3))

-- data[i : i + chunk] for i in range(0, len(data), chunk); one round of fuel for each chunk
unfoldable pub chunks_from : ℕ → ℕ → Bytes → List Bytes
chunks_from fuel chunk [] = []
chunks_from zero chunk (b ∷ bs) = []
chunks_from (suc fuel) chunk (b ∷ bs) =
    take chunk (b ∷ bs) ∷ chunks_from fuel chunk (drop chunk (b ∷ bs))

unfoldable pub split_write_chunks : Bytes → ℕ → List Bytes
unfolding chunks_from
split_write_chunks payload mtu_size = chunks_from (length payload) (chunk_size mtu_size) payload
