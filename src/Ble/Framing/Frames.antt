-- ===== src/Ble/Framing/Frames.antt =====
-- `iter_frames` over buffers that a notification can carry: whole frames, noise in front of them,
-- what it yields in general, when its loop ends, and when it does not.
use hacs_xbloom.Prelude.{
  ℕ, zero, suc, ◌+◌, ◌≤◌, true, false, ◌≡◌, refl, ◌++◌, [], ◌∷◌, List, Option, none, some, arith,
  length, concat, take, drop, All, get_or-append, get_or-take, ◌≢◌, ◌⊎◌, sym, take-append_length,
  drop-append_length, length-append, length-take, length-drop, inl, inr, ◌∙◌,
}
use native.Mathlib.Nat.{zero-add, suc-add}
use hacs_xbloom.Bytes.{Bytes, byte_at, u32_at}
use hacs_xbloom.Ble.Framing.{
  Scan, skip, stop, yield_frame, scan_at, frame_cons, frames_from, iter_frames, is_header,
  is_marker,
}

-- A frame that a receiver accepts: a header byte, the true length, a marker, at most 256 bytes.
pub record IsFrame (f : Bytes) : Type 0 where
  pub header : is_header (byte_at f 0) ≡ true
  pub preamble : 10 ≤ length f
  pub bounded : length f ≤ 256
  pub length_field : u32_at f 5 ≡ length f
  pub marker : is_marker (byte_at f 9) ≡ true

abbrev pub IsNoise : Bytes → Type 0
IsNoise = All (λ b. is_header b ≡ false)

u32_at-append : (f rest : Bytes) → 10 ≤ length f → u32_at (f ++ rest) 5 ≡ u32_at f 5
u32_at-append f rest h =
    rw
      (
        get_or-append f rest 5 0 (omega arith),
        get_or-append f rest 6 0 (omega arith),
        get_or-append f rest 7 0 (omega arith),
        get_or-append f rest 8 0 (omega arith),
      )
      refl

scan_at-frame : (f rest : Bytes) → IsFrame f → scan_at (f ++ rest) ≡ yield_frame (length f)
unfolding scan_at
scan_at-frame f rest h =
    rw
      (
        u32_at-append f rest h.preamble,
        get_or-append f rest 0 0 (omega (arith, h.preamble)),
        get_or-append f rest 9 0 (omega (arith, h.preamble)),
        length-append f rest,
        h.header,
        h.length_field,
        h.marker,
      )
      (ground (arith, h.preamble, h.bounded))

module _ (b : ℕ) (bs : Bytes) (fuel : ℕ) where
  pub frames_from-skip :
      scan_at (b ∷ bs) ≡ skip → frames_from (suc fuel) (b ∷ bs) ≡ frames_from fuel bs
  unfolding frames_from
  frames_from-skip e = rw (e, frames_from)

  pub frames_from-stop : scan_at (b ∷ bs) ≡ stop → frames_from (suc fuel) (b ∷ bs) ≡ some []
  unfolding frames_from
  frames_from-stop e = rw (e, frames_from)

  pub frames_from-yield :
      (n : ℕ)
      → scan_at (b ∷ bs) ≡ yield_frame n
      → frames_from (suc fuel) (b ∷ bs)
        ≡ frame_cons (take n (b ∷ bs)) (frames_from fuel (drop n (b ∷ bs)))
  unfolding frames_from
  frames_from-yield n e = rw (e, frames_from)

-- one round of the loop on a frame
frames_from-frame :
    (f rest : Bytes) (fuel : ℕ) {fs : List Bytes}
    → IsFrame f
    → frames_from fuel rest ≡ some fs
    → frames_from (suc fuel) (f ++ rest) ≡ some (f ∷ fs)
frames_from-frame [] rest fuel h e = absurd (omega (arith, h.preamble))
frames_from-frame (b ∷ bs) rest fuel h e =
    frames_from-yield b (bs ++ rest) fuel (length (b ∷ bs)) (scan_at-frame (b ∷ bs) rest h)
    ∙ rw (take-append_length (b ∷ bs) rest, drop-append_length (b ∷ bs) rest, e) refl

pub frames_from-nil : (fuel : ℕ) → frames_from fuel [] ≡ some []
unfolding frames_from
frames_from-nil zero = refl
frames_from-nil (suc fuel) = refl

frames_from-zero : (b : ℕ) (bs : Bytes) → frames_from 0 (b ∷ bs) ≡ none
unfolding frames_from
frames_from-zero b bs = refl

frames_from-concat :
    (fuel : ℕ) (fs : List Bytes)
    → All IsFrame fs
    → length (concat fs) ≤ fuel
    → frames_from fuel (concat fs) ≡ some fs
frames_from-concat fuel [] h enough = frames_from-nil fuel
frames_from-concat zero (f ∷ fs) (h, hs) enough =
    absurd (omega (arith, h.preamble, length-append f (concat fs)))
frames_from-concat (suc fuel) (f ∷ fs) (h, hs) enough =
    frames_from-frame f (concat fs) fuel h
      (frames_from-concat fuel fs hs (omega (arith, h.preamble, length-append f (concat fs))))

scan_at-noise : (b : ℕ) (bs : Bytes) → is_header b ≡ false → scan_at (b ∷ bs) ≡ skip
unfolding scan_at
scan_at-noise b bs h = rw h

frames_from-noise :
    (noise rest : Bytes) (fuel : ℕ)
    → IsNoise noise
    → frames_from (length noise + fuel) (noise ++ rest) ≡ frames_from fuel rest
frames_from-noise [] rest fuel h = rw zero-add
frames_from-noise (b ∷ noise) rest fuel (h, hs) = rw suc-add (
    frames_from-skip b (noise ++ rest) (length noise + fuel) (scan_at-noise b (noise ++ rest) h)
    ∙ frames_from-noise noise rest fuel hs)

-- Whole frames, behind any bytes that are no header, are yielded one by one and nothing else is.
pub iter_frames-concat :
    (noise : Bytes) (fs : List Bytes)
    → IsNoise noise
    → All IsFrame fs
    → iter_frames (noise ++ concat fs) ≡ some fs
unfolding iter_frames
iter_frames-concat noise fs quiet frames = rw length-append (
    frames_from-noise noise (concat fs) (length (concat fs)) quiet
    ∙ frames_from-concat (length (concat fs)) fs frames (omega arith))

-- What is known of any yielded frame: at ten bytes or more it is a whole valid frame.
pub record IsYielded (f : Bytes) : Type 0 where
  pub bounded : length f ≤ 256
  pub whole : 10 ≤ length f → IsFrame f

pub scan_at-yield :
    (here : Bytes) (n : ℕ)
    → scan_at here ≡ yield_frame n
    → (is_header (byte_at here 0) ≡ true)
      × (10 ≤ length here)
      × (n ≤ 256)
      × (is_marker (byte_at here 9) ≡ true)
      × (n ≤ length here)
      × (u32_at here 5 ≡ n)
unfolding scan_at
scan_at-yield here n e = ground arith

u32_at-take : (here : Bytes) (n : ℕ) → 10 ≤ n → u32_at (take n here) 5 ≡ u32_at here 5
u32_at-take here n h =
    rw
      (
        get_or-take n here 5 0 (omega arith),
        get_or-take n here 6 0 (omega arith),
        get_or-take n here 7 0 (omega arith),
        get_or-take n here 8 0 (omega arith),
      )
      refl

take-IsYielded : (here : Bytes) (n : ℕ) → scan_at here ≡ yield_frame n → IsYielded (take n here)
take-IsYielded here n e =
    let (head, long, small, mark, fits, field) = scan_at-yield here n e in
    let size : length (take n here) ≡ n = omega (arith, length-take n here) in
    record {
      bounded = rw size small;
      whole = λ whole.
          let ten : 10 ≤ n = rw size at whole in
          record {
            header = rw (get_or-take n here 0 0 (omega arith)) head;
            preamble = whole;
            bounded = rw size small;
            length_field = rw (size, u32_at-take here n ten) field;
            marker = rw (get_or-take n here 9 0 (omega arith)) mark;
          };
    }

pub Scan-cases : (s : Scan) → (s ≡ skip) ⊎ (s ≡ stop) ⊎ ((n : ℕ) × (s ≡ yield_frame n))
Scan-cases skip = inl refl
Scan-cases stop = inr (inl refl)
Scan-cases (yield_frame n) = inr (inr (n, refl))

frame_cons-eq-some :
    (f : Bytes) (r : Option (List Bytes)) {fs : List Bytes}
    → frame_cons f r ≡ some fs
    → (gs : List Bytes) × (r ≡ some gs) × (fs ≡ f ∷ gs)
frame_cons-eq-some f none e = cc
frame_cons-eq-some f (some gs) e = (gs, refl, cc)

frames_from-IsSound :
    (fuel : ℕ) (raw : Bytes) (fs : List Bytes)
    → frames_from fuel raw ≡ some fs
    → All IsYielded fs × (length (concat fs) ≤ length raw)
frames_from-IsSound fuel [] fs e =
    let nothing : fs ≡ [] = cc (frames_from-nil fuel, e) in rw nothing (tt, omega arith)
frames_from-IsSound zero (b ∷ bs) fs e = cc (frames_from-zero b bs)
frames_from-IsSound (suc fuel) (b ∷ bs) fs e = elim (Scan-cases (scan_at (b ∷ bs))) [
  | inl s ↦
      let (sound, fits) = frames_from-IsSound fuel bs fs (sym (frames_from-skip b bs fuel s) ∙ e) in
      (sound, omega arith)
  | inr (inl s) ↦
      let nothing : fs ≡ [] = cc (frames_from-stop b bs fuel s, e) in rw nothing (tt, omega arith)
  | inr (inr (n, s)) ↦
      let (gs, later, shape) =
        frame_cons-eq-some (take n (b ∷ bs)) (frames_from fuel (drop n (b ∷ bs)))
          (sym (frames_from-yield b bs fuel n s) ∙ e) in
      let (sound, fits) = frames_from-IsSound fuel (drop n (b ∷ bs)) gs later in
      rw shape (
        (take-IsYielded (b ∷ bs) n s, sound),
        omega (
          arith,
          length-append (take n (b ∷ bs)) (concat gs),
          length-take n (b ∷ bs),
          length-drop n (b ∷ bs),
        ),
      )
]

-- No header in the buffer announces a frame of length zero: at a place where the loop would yield
-- a frame, the length is positive.
abbrev pub HasNoEmptyFrame : Bytes → Type 0
HasNoEmptyFrame [] = Unit
HasNoEmptyFrame (b ∷ bs) = (scan_at (b ∷ bs) ≢ yield_frame 0) × HasNoEmptyFrame bs

HasNoEmptyFrame-drop : (n : ℕ) (bs : Bytes) → HasNoEmptyFrame bs → HasNoEmptyFrame (drop n bs)
HasNoEmptyFrame-drop zero bs h = h
HasNoEmptyFrame-drop (suc n) [] h = tt
HasNoEmptyFrame-drop (suc n) (b ∷ bs) (h, hs) = HasNoEmptyFrame-drop n bs hs

frames_from-returns :
    (fuel : ℕ) (raw : Bytes)
    → HasNoEmptyFrame raw
    → length raw ≤ fuel
    → (fs : List Bytes) × (frames_from fuel raw ≡ some fs)
frames_from-returns fuel [] h enough = ([], frames_from-nil fuel)
frames_from-returns zero (b ∷ bs) h enough = absurd (omega arith)
frames_from-returns (suc fuel) (b ∷ bs) (h, hs) enough = elim (Scan-cases (scan_at (b ∷ bs))) [
  | inl s ↦
      let (fs, e) = frames_from-returns fuel bs hs (omega arith) in
      (fs, frames_from-skip b bs fuel s ∙ e)
  | inr (inl s) ↦ ([], frames_from-stop b bs fuel s)
  | inr (inr (zero, s)) ↦ absurd (h s)
  | inr (inr (suc n, s)) ↦
      let (fs, e) =
        frames_from-returns fuel (drop n bs) (HasNoEmptyFrame-drop n bs hs)
          (omega (arith, length-drop n bs)) in
      (take (suc n) (b ∷ bs) ∷ fs, frames_from-yield b bs fuel (suc n) s ∙ rw e refl)
]

-- With no frame of length zero announced, the loop ends within one round for each byte, and what
-- it yields is bounded, valid where it is long enough, and no longer than the buffer.
pub iter_frames_lem :
    (raw : Bytes)
    → HasNoEmptyFrame raw
    → (fs : List Bytes) × (iter_frames raw ≡ some fs)
      × All IsYielded fs
      × (length (concat fs) ≤ length raw)
unfolding iter_frames
iter_frames_lem raw h =
    let (fs, e) = frames_from-returns (length raw) raw h (omega arith) in
    let (sound, fits) = frames_from-IsSound (length raw) raw fs e in (fs, e, sound, fits)

-- In a buffer that begins with bytes at which no header starts, followed by a header that is scanned
-- and announces a frame of length zero, the loop never ends, whatever the fuel.
pub frames_from-diverges :
    (fuel : ℕ) (noise : Bytes) (b : ℕ) (bs : Bytes)
    → IsNoise noise
    → scan_at (b ∷ bs) ≡ yield_frame 0
    → frames_from fuel (noise ++ b ∷ bs) ≡ none
frames_from-diverges zero [] b bs quiet s = frames_from-zero b bs
frames_from-diverges zero (x ∷ noise) b bs quiet s = frames_from-zero x (noise ++ b ∷ bs)
frames_from-diverges (suc fuel) [] b bs quiet s =
    frames_from-yield b bs fuel 0 s ∙ rw (frames_from-diverges fuel [] b bs tt s) refl
frames_from-diverges (suc fuel) (x ∷ noise) b bs (h, hs) s =
    frames_from-skip x (noise ++ b ∷ bs) fuel (scan_at-noise x (noise ++ b ∷ bs) h)
    ∙ frames_from-diverges fuel noise b bs hs s
