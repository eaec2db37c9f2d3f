-- ===== src/Ble/Framing/Tests.antt =====
-- Packets and buffers of the protocol, and the theorems at them.
use hacs_xbloom.Ble.Framing.Chunks.{IsChunk, split_write_chunks_lem}
use hacs_xbloom.Ble.Framing.Long.{HasLongFrames, iter_frames-long}
use hacs_xbloom.Ble.Constants.{response_of, Response, response_of_iff, response_code}
use hacs_xbloom.Prelude.{
  List, concat, [], arith, ◌++◌, ◌∷◌, ◌≡◌, All, none, refl, some, ◌≤◌, inl, length, ◌↔◌, ◌*◌, ◌<◌,
  ◌+◌, ℕ,
}
use hacs_xbloom.Ble.Framing.Frames.{
  IsFrame, HasNoEmptyFrame, IsYielded, frames_from-diverges, iter_frames-concat, iter_frames_lem,
}
use hacs_xbloom.Ble.Framing.Build.{
  FitsPacket, IsPacket, build_packet_raw_raises, build_packet_raw-IsPacket, u32s, build_packet_lem,
}
use hacs_xbloom.Bytes.{Bytes, IsBytes}
use hacs_xbloom.Ble.Framing.{
  build_packet, build_packet_raw, crc16, frames_from, iter_frames, scan_at, split_write_chunks,
  yield_frame, frame_command, frame_payload, chunk_size,
}

-- The 8100 handshake, as it is written to the link.
abbrev handshake_packet : Bytes
handshake_packet =
    0x58 ∷ 0x01 ∷ 0x01 ∷ 0xa4 ∷ 0x1f ∷ 0x14 ∷ 0 ∷ 0 ∷ 0 ∷ 0x01 ∷ 0xb9 ∷ 0 ∷ 0 ∷ 0 ∷ 0x01 ∷ 0 ∷ 0 ∷ 0
    ∷ 0xbd ∷ 0xd1 ∷ []

handshake_test : build_packet 8100 (185 ∷ 1 ∷ []) 1 1 ≡ some handshake_packet
unfolding build_packet crc16
handshake_test = refl

recipe_stop_test :
    build_packet 40519 [] 1 1
    ≡ some (0x58 ∷ 0x01 ∷ 0x01 ∷ 0x47 ∷ 0x9e ∷ 0x0c ∷ 0 ∷ 0 ∷ 0 ∷ 0x01 ∷ 0x55 ∷ 0x3e ∷ [])
unfolding build_packet crc16
recipe_stop_test = refl

crc16_test : crc16 (0x58 ∷ 0x01 ∷ 0x01 ∷ 0x19 ∷ 0x1f ∷ []) ≡ 50138
unfolding crc16
crc16_test = refl

-- A response of the machine to 8100: eighteen bytes, marker 0xC1.
abbrev echo : Bytes
echo =
    0x58 ∷ 0x02 ∷ 0x01 ∷ 0xa4 ∷ 0x1f ∷ 0x12 ∷ 0 ∷ 0 ∷ 0 ∷ 0xc1 ∷ 0xb9 ∷ 0 ∷ 0 ∷ 0 ∷ 0x01 ∷ 0 ∷ 0xaa
    ∷ 0xbb ∷ []

echo-IsFrame : IsFrame echo
echo-IsFrame = record {
  header = refl;
  preamble = omega arith;
  bounded = omega arith;
  length_field = refl;
  marker = refl;
}

abbrev noise : Bytes
noise = 0x00 ∷ 0xff ∷ []

iter_frames-concat_example :
    iter_frames (noise ++ concat (echo ∷ echo ∷ [])) ≡ some (echo ∷ echo ∷ [])
iter_frames-concat_example =
    iter_frames-concat noise (echo ∷ echo ∷ []) (refl, (refl, tt))
      (echo-IsFrame, (echo-IsFrame, tt))

-- A frame, and a header that comes too short behind it.
abbrev cut_buffer : Bytes
cut_buffer = echo ++ 0x58 ∷ 0x02 ∷ []

cut_buffer-HasNoEmptyFrame : HasNoEmptyFrame cut_buffer
unfolding scan_at
cut_buffer-HasNoEmptyFrame = ground arith

iter_frames_test :
    (fs : List Bytes) × (iter_frames cut_buffer ≡ some fs)
    × All IsYielded fs
    × (length (concat fs) ≤ length cut_buffer)
iter_frames_test = iter_frames_lem cut_buffer cut_buffer-HasNoEmptyFrame

cut_buffer-HasLongFrames : HasLongFrames cut_buffer
unfolding scan_at
cut_buffer-HasLongFrames = ground arith

iter_frames-long_example :
    (fs : List Bytes) × (iter_frames cut_buffer ≡ some fs)
    × All (λ f. (command : ℕ) × (frame_command f ≡ some command)) fs
iter_frames-long_example = iter_frames-long cut_buffer cut_buffer-HasLongFrames

-- A header whose length field is zero.
abbrev empty_tail : Bytes
empty_tail = 0x02 ∷ 0x01 ∷ 0xa4 ∷ 0x1f ∷ 0 ∷ 0 ∷ 0 ∷ 0 ∷ 0xc1 ∷ []

empty_scan : scan_at (0x58 ∷ empty_tail) ≡ yield_frame 0
unfolding scan_at
empty_scan = refl

frames_from-diverges_example : frames_from 12 (noise ++ 0x58 ∷ empty_tail) ≡ none
frames_from-diverges_example =
    frames_from-diverges 12 noise 0x58 empty_tail (refl, (refl, tt)) empty_scan

abbrev small_payload : Bytes
small_payload = 0x03 ∷ 0x00 ∷ 0x01 ∷ 0x02 ∷ []

small-FitsPacket : FitsPacket 11512 small_payload 2 1
small-FitsPacket = record {
  command_fits = omega arith;
  type_fits = omega arith;
  device_fits = omega arith;
  length_fits = omega arith;
}

small-IsBytes : IsBytes small_payload
small-IsBytes = omega arith

build_packet_raw-IsPacket_example :
    (packet : Bytes) × (build_packet_raw 11512 small_payload 2 1 ≡ some packet)
    × IsPacket 11512 small_payload 2 1 packet
build_packet_raw-IsPacket_example =
    build_packet_raw-IsPacket 11512 small_payload 2 1 small-FitsPacket small-IsBytes

build_packet_raw_raises_test : build_packet_raw 65536 small_payload 2 1 ≡ none
build_packet_raw_raises_test = build_packet_raw_raises 65536 small_payload 2 1 (inl (omega arith))

build_packet_test :
    (packet : Bytes) × (build_packet 8100 (185 ∷ 1 ∷ []) 1 1 ≡ some packet)
    × (frame_command packet ≡ some 8100)
    × (u32s 2 (frame_payload packet) ≡ 185 ∷ 1 ∷ [])
    × (crc16 packet ≡ 0)
build_packet_test =
    build_packet_lem 8100 (185 ∷ 1 ∷ []) 1 1 (omega arith) (omega arith) (omega arith) (omega arith)
      (omega arith)

split_write_chunks_example :
    (concat (split_write_chunks echo 23) ≡ echo)
    × All (IsChunk 20) (split_write_chunks echo 23)
    × (length (split_write_chunks echo 23) * chunk_size 23 < length echo + chunk_size 23)
split_write_chunks_example = split_write_chunks_lem echo 23

response_of_test :
    (response_of 40521 ≡ some Response.machine_info) ↔ (response_code Response.machine_info ≡ 40521)
response_of_test = response_of_iff 40521 Response.machine_info
