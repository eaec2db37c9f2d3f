-- ===== src/Ble/Client/Response/Text.antt =====
-- `strict_ascii` returns text.
use hacs_xbloom.Prelude.{ℕ, All, Bool, ◌≡◌, ◌≤◌, false, ◌<◌, ◌∷◌, arith, ◌==◌, [], refl}
use hacs_xbloom.Ble.Client.Response.{printable, strict_ascii, strip_left, strip_right}
use hacs_xbloom.Bytes.{Bytes}

-- Printable text with no space at either end.
abbrev IsPrintable : ℕ → Type 0
IsPrintable b = (0x20 ≤ b) × (b < 0x7f)

abbrev starts_with_space : Bytes → Bool
starts_with_space [] = false
starts_with_space (b ∷ bs) = b == 0x20

abbrev ends_with_space : Bytes → Bool
ends_with_space [] = false
ends_with_space (b ∷ []) = b == 0x20
ends_with_space (b ∷ x ∷ xs) = ends_with_space (x ∷ xs)

pub record IsText (bs : Bytes) : Type 0 where
  pub ascii : All IsPrintable bs
  pub left : starts_with_space bs ≡ false
  pub right : ends_with_space bs ≡ false

printable-All : (bs : Bytes) → All IsPrintable (printable bs)
unfolding printable
printable-All [] = tt
printable-All (b ∷ bs) = let rest = printable-All bs in ground arith

strip_left-All : (bs : Bytes) → All IsPrintable bs → All IsPrintable (strip_left bs)
unfolding strip_left
strip_left-All [] h = tt
strip_left-All (b ∷ bs) (h, hs) = let rest = strip_left-All bs hs in ground arith

strip_left-starts : (bs : Bytes) → starts_with_space (strip_left bs) ≡ false
unfolding strip_left
strip_left-starts [] = refl
strip_left-starts (b ∷ bs) = let rest = strip_left-starts bs in ground arith

strip_right-All : (bs : Bytes) → All IsPrintable bs → All IsPrintable (strip_right bs)
unfolding strip_right
strip_right-All [] h = tt
strip_right-All (b ∷ bs) (h, hs) = let rest = strip_right-All bs hs in ground arith

strip_right-ends : (bs : Bytes) → ends_with_space (strip_right bs) ≡ false
unfolding strip_right
strip_right-ends [] = refl
strip_right-ends (b ∷ bs) = let rest = strip_right-ends bs in ground arith

strip_right-starts :
    (bs : Bytes) → starts_with_space bs ≡ false → starts_with_space (strip_right bs) ≡ false
unfolding strip_right
strip_right-starts [] h = refl
strip_right-starts (b ∷ bs) h = ground arith

-- Whatever bytes come, what `strict_ascii` returns is text.
pub strict_ascii-IsText : (bs : Bytes) → IsText (strict_ascii bs)
unfolding strict_ascii
strict_ascii-IsText bs = record {
  ascii =
      strip_right-All (strip_left (printable bs))
        (strip_left-All (printable bs) (printable-All bs));
  left = strip_right-starts (strip_left (printable bs)) (strip_left-starts (printable bs));
  right = strip_right-ends (strip_left (printable bs));
}
