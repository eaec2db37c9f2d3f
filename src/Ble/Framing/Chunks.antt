-- ===== src/Ble/Framing/Chunks.antt =====
-- `split_write_chunks`: nothing is lost, and every write fits.
use hacs_xbloom.Prelude.{
  ℕ, zero, suc, ◌+◌, ◌-◌, ◌*◌, ◌≤◌, ◌<◌, ◌≡◌, refl, ap, ◌∙◌, ◌++◌, [], ◌∷◌, arith, length, concat,
  take, drop, All, take-append-drop, length-take, length-drop, min, max,
}
use hacs_xbloom.Bytes.{Bytes}
use hacs_xbloom.Ble.Framing.{chunk_size, chunks_from, split_write_chunks}

concat-chunks_from :
    (fuel chunk : ℕ) (bs : Bytes)
    → 0 < chunk
    → length bs ≤ fuel
    → concat (chunks_from fuel chunk bs) ≡ bs
unfolding chunks_from
concat-chunks_from zero chunk [] pos enough = refl
concat-chunks_from (suc fuel) chunk [] pos enough = refl
concat-chunks_from zero chunk (b ∷ bs) pos enough = absurd (omega arith)
concat-chunks_from (suc fuel) chunk (b ∷ bs) pos enough =
    ap (λ r. take chunk (b ∷ bs) ++ r)
      (concat-chunks_from fuel chunk (drop chunk (b ∷ bs)) pos
        (omega (arith, length-drop chunk (b ∷ bs))))
    ∙ take-append-drop chunk (b ∷ bs)

abbrev pub IsChunk : ℕ → Bytes → Type 0
IsChunk chunk c = (1 ≤ length c) × (length c ≤ chunk)

chunks_from-IsChunk :
    (fuel chunk : ℕ) (bs : Bytes) → 0 < chunk → All (IsChunk chunk) (chunks_from fuel chunk bs)
unfolding chunks_from
chunks_from-IsChunk zero chunk [] pos = tt
chunks_from-IsChunk (suc fuel) chunk [] pos = tt
chunks_from-IsChunk zero chunk (b ∷ bs) pos = tt
chunks_from-IsChunk (suc fuel) chunk (b ∷ bs) pos = (
  omega (arith, length-take chunk (b ∷ bs)),
  chunks_from-IsChunk fuel chunk (drop chunk (b ∷ bs)) pos,
)

-- The number of writes is the least that holds the data.
length-chunks_from :
    (fuel chunk : ℕ) (bs : Bytes)
    → 0 < chunk
    → length bs ≤ fuel
    → (length (chunks_from fuel chunk bs) * chunk < length bs + chunk)
unfolding chunks_from
length-chunks_from zero chunk [] pos enough = omega arith
length-chunks_from (suc fuel) chunk [] pos enough = omega arith
length-chunks_from zero chunk (b ∷ bs) pos enough = absurd (omega arith)
length-chunks_from (suc fuel) chunk (b ∷ bs) pos enough = grind (
  arith,
  length-drop chunk (b ∷ bs),
  length-chunks_from fuel chunk (drop chunk (b ∷ bs)) pos
      (omega (arith, length-drop chunk (b ∷ bs))),
)

-- The writes are the packet cut in order, none of them empty or above the size that the MTU
-- allows (at least 20 and at most 100 bytes), and there are no more of them than it takes.
pub split_write_chunks_lem :
    (packet : Bytes) (mtu_size : ℕ)
    → (concat (split_write_chunks packet mtu_size) ≡ packet)
      × All (IsChunk (max 20 (min 100 (mtu_size - 3)))) (split_write_chunks packet mtu_size)
      × (length (split_write_chunks packet mtu_size) * chunk_size mtu_size
          < length packet + chunk_size mtu_size)
unfolding split_write_chunks
split_write_chunks_lem packet mtu_size = (
  concat-chunks_from (length packet) (chunk_size mtu_size) packet (omega arith) (omega arith),
  chunks_from-IsChunk (length packet) (chunk_size mtu_size) packet (omega arith),
  length-chunks_from (length packet) (chunk_size mtu_size) packet (omega arith) (omega arith),
)
