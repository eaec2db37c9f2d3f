-- ===== src/Bytes.antt =====
-- Byte strings: Python's `bytes` as lists of numbers, and the `struct` formats that the program
-- packs and unpacks ("B", "<H", "<I"). A value out of range raises `struct.error`: `none`.
pub mod Laws
use hacs_xbloom.Prelude.{
  ℕ, ◌+◌, ◌*◌, ◌/◌, ◌%◌, ◌^◌, ◌<◌, List, [], ◌∷◌, ◌++◌, Option, none, some, ltb, if◌then◌else◌,
  get_or, drop, All,
}

abbrev pub Bytes : Type 0
Bytes = List ℕ

abbrev pub IsByte : ℕ → Type 0
IsByte b = b < 256

abbrev pub IsBytes : Bytes → Type 0
IsBytes = All IsByte

-- Little-endian digits of a number of two and of four bytes.
abbrev pub le16 : ℕ → Bytes
le16 v = v % 256 ∷ v / 256 ∷ []

abbrev pub le32 : ℕ → Bytes
le32 v = v % 256 ∷ v / 256 % 256 ∷ v / 65536 % 256 ∷ v / 16777216 ∷ []

-- struct.pack("B", v), struct.pack("<H", v), struct.pack("<I", v)
abbrev pub pack_u8 : ℕ → Option Bytes
pack_u8 v = if ltb v 256 then some (v ∷ []) else none

abbrev pub pack_u16 : ℕ → Option Bytes
pack_u16 v = if ltb v 65536 then some (le16 v) else none

abbrev pub pack_u32 : ℕ → Option Bytes
pack_u32 v = if ltb v 4294967296 then some (le32 v) else none

-- The number in the two, or four, bytes at an offset; the caller has checked that they are there.
abbrev pub byte_at : Bytes → ℕ → ℕ
byte_at bs i = get_or bs i 0

abbrev pub u16_at : Bytes → ℕ → ℕ
u16_at bs i = byte_at bs i + byte_at bs (i + 1) * 256

abbrev pub u32_at : Bytes → ℕ → ℕ
u32_at bs i =
    byte_at bs i
    + byte_at bs (i + 1) * 256
    + byte_at bs (i + 2) * 65536
    + byte_at bs (i + 3) * 16777216

-- `Option` in a `do` block: `none` is the exception.
infixl 5 ◌>>=◌ ◌>>◌
abbrev pub ◌>>=◌ {ℓ κ} : {A : Type ℓ} {B : Type κ} → Option A → (A → Option B) → Option B
none >>= f = none
some a >>= f = f a

abbrev pub ◌>>◌ {ℓ κ} : {A : Type ℓ} {B : Type κ} → Option A → Option B → Option B
m >> k = m >>= λ _. k
