-- ===== src/Ble/Framing/Long.antt =====
-- `iter_frames` over buffers whose headers announce five bytes or more, the number that
-- `frame_command` reads.
use hacs_xbloom.Prelude.{
  ◌∙◌, inr, inl, ℕ, List, drop, length, ◌∷◌, suc, ◌≡◌, ◌≤◌, [], some, zero, All, arith, length-drop,
  take, length-take, refl,
}
use hacs_xbloom.Ble.Framing.Frames.{
  frames_from-nil, Scan-cases, frames_from-skip, frames_from-stop, scan_at-yield, frames_from-yield,
}
use hacs_xbloom.Bytes.{Bytes, u16_at}
use hacs_xbloom.Ble.Framing.{
  Scan, iter_frames, yield_frame, scan_at, frames_from, skip, stop, frame_command,
}

-- What a round decides is no short frame.
abbrev pub IsLongScan : Scan → Type 0
IsLongScan skip = Unit
IsLongScan stop = Unit
IsLongScan (yield_frame n) = 5 ≤ n

abbrev pub HasLongFrames : Bytes → Type 0
HasLongFrames [] = Unit
HasLongFrames (b ∷ bs) = IsLongScan (scan_at (b ∷ bs)) × HasLongFrames bs

HasLongFrames-drop : (n : ℕ) (bs : Bytes) → HasLongFrames bs → HasLongFrames (drop n bs)
HasLongFrames-drop zero bs h = h
HasLongFrames-drop (suc n) [] h = tt
HasLongFrames-drop (suc n) (b ∷ bs) (h, hs) = HasLongFrames-drop n bs hs

frames_from-long :
    (fuel : ℕ) (raw : Bytes)
    → HasLongFrames raw
    → length raw ≤ fuel
    → (fs : List Bytes) × (frames_from fuel raw ≡ some fs) × All (λ f. 5 ≤ length f) fs
frames_from-long fuel [] h enough = ([], frames_from-nil fuel, tt)
frames_from-long zero (b ∷ bs) h enough = absurd (omega arith)
frames_from-long (suc fuel) (b ∷ bs) (h, hs) enough = elim (Scan-cases (scan_at (b ∷ bs))) [
  | inl s ↦
      let (fs, e, long) = frames_from-long fuel bs hs (omega arith) in
      (fs, frames_from-skip b bs fuel s ∙ e, long)
  | inr (inl s) ↦ ([], frames_from-stop b bs fuel s, tt)
  | inr (inr (n, s)) ↦
      let (_, _, _, _, fits, _) = scan_at-yield (b ∷ bs) n s in
      let five : 5 ≤ n = rw s at h in
      let (fs, e, long) =
        frames_from-long fuel (drop n (b ∷ bs)) (HasLongFrames-drop n (b ∷ bs) (h, hs))
          (omega (arith, length-drop n (b ∷ bs))) in
      (
        take n (b ∷ bs) ∷ fs,
        frames_from-yield b bs fuel n s ∙ rw e refl,
        (omega (arith, length-take n (b ∷ bs)), long),
      )
]

frame_command-reads : (f : Bytes) → 5 ≤ length f → (command : ℕ) × (frame_command f ≡ some command)
unfolding frame_command
frame_command-reads f long = (u16_at f 3, ground arith)

commands_read :
    (fs : List Bytes)
    → All (λ f. 5 ≤ length f) fs
    → All (λ f. (command : ℕ) × (frame_command f ≡ some command)) fs
commands_read [] h = tt
commands_read (f ∷ fs) (h, hs) = (frame_command-reads f h, commands_read fs hs)

pub iter_frames-long_frames :
    (raw : Bytes)
    → HasLongFrames raw
    → (fs : List Bytes) × (iter_frames raw ≡ some fs) × All (λ f. 5 ≤ length f) fs
unfolding iter_frames
iter_frames-long_frames raw h = frames_from-long (length raw) raw h (omega arith)

-- Where every announced length is five or more, the loop ends, and `frame_command` reads a number
-- in each frame that it yields.
pub iter_frames-long :
    (raw : Bytes)
    → HasLongFrames raw
    → (fs : List Bytes) × (iter_frames raw ≡ some fs)
      × All (λ f. (command : ℕ) × (frame_command f ≡ some command)) fs
iter_frames-long raw h =
    let (fs, e, long) = iter_frames-long_frames raw h in (fs, e, commands_read fs long)
