-- ===== src/Bytes/Laws.antt =====
-- Reading back what was packed.
use hacs_xbloom.Prelude.{ℕ, ◌<◌, ◌≡◌, ◌++◌, arith, Option, some, none, refl}
use hacs_xbloom.Bytes.{Bytes, IsBytes, le16, le32, u16_at, u32_at, ◌>>=◌}

pub u16_at-le16 : (v : ℕ) (bs : Bytes) → u16_at (le16 v ++ bs) 0 ≡ v
u16_at-le16 v bs = omega arith

pub u32_at-le32 : (v : ℕ) (bs : Bytes) → u32_at (le32 v ++ bs) 0 ≡ v
u32_at-le32 v bs = omega arith

pub le16-IsBytes : (v : ℕ) → v < 65536 → IsBytes (le16 v)
le16-IsBytes v h = omega arith

pub le32-IsBytes : (v : ℕ) → v < 4294967296 → IsBytes (le32 v)
le32-IsBytes v h = omega arith

-- A chain that returns had a first step that returned.
pub bind-some {ℓ κ} :
    {A : Type ℓ} {B : Type κ} (m : Option A) (f : A → Option B) {b : B}
    → (m >>= f) ≡ some b
    → (a : A) × (m ≡ some a) × (f a ≡ some b)
bind-some none f e = absurd (ground arith)
bind-some (some a) f e = (a, refl, e)
