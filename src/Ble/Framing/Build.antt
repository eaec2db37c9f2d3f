-- ===== src/Ble/Framing/Build.antt =====
-- `build_packet` and `build_packet_raw`: what a receiver reads back from a packet, and when
-- building one raises.
use mathlib.Core.Path.{ap₂}
use hacs_xbloom.Bytes.Laws.{le32-IsBytes, u32_at-le32}
use hacs_xbloom.Prelude.{
  ℕ, ◌+◌, ◌-◌, ◌≤◌, ◌<◌, ◌≡◌, refl, ◌∙◌, ◌++◌, [], ◌∷◌, some, arith, length, length-append, ltb,
  inl, inr, Bool-cases, lt→ltb, sym, take-append_length, List, ◌⊎◌, All, none, ◌*◌, All-append, suc,
  drop, zero, ltb-false,
}
use hacs_xbloom.Bytes.{Bytes, IsBytes, le16, le32, byte_at, u32_at, IsByte}
use hacs_xbloom.Ble.Framing.{
  crc16, crc_from, build_head, build_packet_raw, frame_command, frame_payload, build_packet,
  pack_all,
}
use hacs_xbloom.Ble.Framing.Crc.{crc16-lt, crc_from-append, crc_from-le16}

-- The arguments that the packet layout has room for.
pub record FitsPacket (command : ℕ) (payload : Bytes) (type_code device_id : ℕ) : Type 0 where
  pub command_fits : command < 65536
  pub type_fits : type_code < 256
  pub device_fits : device_id < 256
  pub length_fits : 12 + length payload < 4294967296

abbrev head : ℕ → Bytes → ℕ → ℕ → Bytes
head command payload type_code device_id =
    0x58 ∷ device_id ∷ type_code ∷ (le16 command ++ (le32 (12 + length payload) ++ 0x01 ∷ payload))

build_head-some :
    (command : ℕ) (payload : Bytes) (type_code device_id : ℕ)
    → FitsPacket command payload type_code device_id
    → build_head command payload type_code device_id
      ≡ some (head command payload type_code device_id)
unfolding build_head
build_head-some command payload type_code device_id h =
    rw
      (
        lt→ltb device_id 256 h.device_fits,
        lt→ltb type_code 256 h.type_fits,
        lt→ltb command 65536 h.command_fits,
        lt→ltb (12 + length payload) 4294967296 h.length_fits,
      )
      refl

head-IsBytes :
    (command : ℕ) (payload : Bytes) (type_code device_id : ℕ)
    → FitsPacket command payload type_code device_id
    → IsBytes payload
    → IsBytes (head command payload type_code device_id)
head-IsBytes command payload type_code device_id h p =
    ground (arith, h.command_fits, h.type_fits, h.device_fits, h.length_fits)

-- Data closed by its own checksum has checksum zero.
crc16-append_crc : (bs : Bytes) → crc16 (bs ++ le16 (crc16 bs)) ≡ 0
unfolding crc16
crc16-append_crc bs = crc_from-append 0 bs (le16 (crc_from 0 bs)) ∙ crc_from-le16 (crc_from 0 bs)

-- What a receiver reads back from a packet.
pub record IsPacket (command : ℕ) (payload : Bytes) (type_code device_id : ℕ) (packet : Bytes)
    : Type 0 where
  pub size : length packet ≡ 12 + length payload
  pub start : byte_at packet 0 ≡ 0x58
  pub device : byte_at packet 1 ≡ device_id
  pub kind : byte_at packet 2 ≡ type_code
  pub length_field : u32_at packet 5 ≡ length packet
  pub command_read : frame_command packet ≡ some command
  pub payload_read : frame_payload packet ≡ payload
  pub checksum : crc16 packet ≡ 0

nil_of_length : (bs : Bytes) → length bs ≤ 0 → bs ≡ []
nil_of_length [] h = refl
nil_of_length (b ∷ bs) h = absurd (omega arith)

module _ (command : ℕ) (payload : Bytes) (type_code device_id : ℕ)
    (fits : FitsPacket command payload type_code device_id) (bytes : IsBytes payload) where
  abbrev packet : Bytes
  packet =
      head command payload type_code device_id
      ++ le16 (crc16 (head command payload type_code device_id))

  length-packet : length packet ≡ 12 + length payload
  length-packet =
      omega (arith, length-append payload (le16 (crc16 (head command payload type_code device_id))))

  packet-payload : frame_payload packet ≡ payload
  unfolding frame_payload
  packet-payload = elim (Bool-cases (ltb 12 (length packet))) [
    | inl long ↦
        let size : 12 + length payload - 12 ≡ length payload = omega arith in
        rw (long, length-packet, size)
          (take-append_length payload (le16 (crc16 (head command payload type_code device_id))))
    | inr short ↦
        rw short (sym (nil_of_length payload (omega (arith, ltb-false 12 _ short, length-packet))))
  ]

  packet-IsPacket : IsPacket command payload type_code device_id packet
  packet-IsPacket = record {
    size = length-packet;
    start = refl;
    device = refl;
    kind = refl;
    length_field = omega (arith, length-packet);
    command_read = unfold frame_command in ground arith;
    payload_read = packet-payload;
    checksum = crc16-append_crc (head command payload type_code device_id);
  }

  -- In range, a packet is built, and it carries its length, its command, its payload, and a
  -- checksum that makes the checksum of the whole packet zero.
  pub build_packet_raw-IsPacket :
      (packet : Bytes) × (build_packet_raw command payload type_code device_id ≡ some packet)
      × IsPacket command payload type_code device_id packet
  unfolding build_packet_raw
  build_packet_raw-IsPacket = (
    packet,
    rw
        (
          build_head-some command payload type_code device_id fits,
          lt→ltb (crc16 (head command payload type_code device_id)) 65536 (
              crc16-lt (head command payload type_code device_id)
                (head-IsBytes command payload type_code device_id fits bytes)),
        )
        refl,
    packet-IsPacket,
  )

-- An argument that has no room in the layout raises instead of being cut.
pub build_packet_raw_raises :
    (command : ℕ) (payload : Bytes) (type_code device_id : ℕ)
    → (65536 ≤ command) ⊎ (256 ≤ type_code) ⊎ (256 ≤ device_id) ⊎ (4294967296 ≤ 12 + length payload)
    → build_packet_raw command payload type_code device_id ≡ none
unfolding build_packet_raw
build_packet_raw_raises command payload type_code device_id h = ground arith

-- The numbers in the first `n` groups of four bytes.
abbrev pub u32s : ℕ → Bytes → List ℕ
u32s zero bs = []
u32s (suc n) bs = u32_at bs 0 ∷ u32s n (drop 4 bs)

-- What `pack_all` makes of values of four bytes.
pub record IsPacked (values : List ℕ) (bs : Bytes) : Type 0 where
  pub packs : pack_all values ≡ some bs
  pub size : length bs ≡ 4 * length values
  pub bytes : IsBytes bs
  pub values_read : u32s (length values) bs ≡ values

pub values-IsPacked :
    (values : List ℕ) → All (λ v. v < 4294967296) values → (bs : Bytes) × IsPacked values bs
unfolding pack_all
values-IsPacked [] h = ([], record { packs = refl; size = refl; bytes = tt; values_read = refl })
values-IsPacked (v ∷ vs) (h, hs) =
    let (bs, p) = values-IsPacked vs hs in
    (
      le32 v ++ bs,
      record {
        packs = rw (lt→ltb v 4294967296 h, p.packs) refl;
        size = omega (arith, p.size);
        bytes = All-append IsByte (le32 v) bs (le32-IsBytes v h) p.bytes;
        values_read = ap₂ ◌∷◌ (u32_at-le32 v bs) p.values_read;
      },
    )

-- In range, a packet of numbers of four bytes is built, its command and payload read back as the
-- command and those numbers, and its checksum makes that of the whole packet zero.
pub build_packet_lem :
    (command : ℕ) (values : List ℕ) (type_code device_id : ℕ)
    → command < 65536
    → type_code < 256
    → device_id < 256
    → 12 + 4 * length values < 4294967296
    → All (λ v. v < 4294967296) values
    → (packet : Bytes) × (build_packet command values type_code device_id ≡ some packet)
      × (frame_command packet ≡ some command)
      × (u32s (length values) (frame_payload packet) ≡ values)
      × (crc16 packet ≡ 0)
unfolding build_packet
build_packet_lem command values type_code device_id hc ht hd hl hv =
    let (bs, p) = values-IsPacked values hv in
    let (packet, e, q) =
      build_packet_raw-IsPacket command bs type_code device_id
        (record {
          command_fits = hc;
          type_fits = ht;
          device_fits = hd;
          length_fits = omega (arith, p.size);
        })
        p.bytes in
    (packet, rw p.packs e, q.command_read, rw q.payload_read p.values_read, q.checksum)
