-- ===== src/Ble/Client/Weight.antt =====
-- `_filter_weight`: the scale glitch filter.
--
-- A weight is the bit pattern of a float32. The one thing that the filter asks of two weights,
-- `abs(new - last) > _WEIGHT_GLITCH_LIMIT`, is the parameter `is_far`.
use hacs_xbloom.Prelude.{
  ℕ, Bool, List, Option, some, ◌≡◌, ◌≢◌, ◌≤◌, arith, if◌then◌else◌, length, ◌+◌, ◌∷◌, ◌⊎◌, [], true,
  ◌&&◌, ◌<◌, Option-cases, ltb, inl, none, inr, Bool-cases,
}
use hacs_xbloom.Ble.Client.{Client}

abbrev pub weight_glitch_escape_count : ℕ
weight_glitch_escape_count = 4

module _ (is_far : ℕ → ℕ → Bool) where
  abbrev accept : ℕ → Client → ℕ × Client
  accept new c = (new, record c { last_accepted_weight = some new; weight_out_of_limit_count = 0 })

  abbrev filter_against : Option ℕ → ℕ → Client → ℕ × Client
  filter_against none new c = accept new c
  filter_against (some last) new c =
      if is_far new last && ltb c.weight_out_of_limit_count weight_glitch_escape_count
      then (last, record c { weight_out_of_limit_count = c.weight_out_of_limit_count + 1 })
      else accept new c

  -- The value to show, and the client after the reading.
  unfoldable pub filter_weight : ℕ → Client → ℕ × Client
  filter_weight new c = filter_against c.last_accepted_weight new c

  -- A stream of readings.
  unfoldable pub filter_weights : List ℕ → Client → Client
  unfolding filter_weight
  filter_weights [] c = c
  filter_weights (w ∷ ws) c = filter_weights ws (filter_weight w c).1

  -- What one reading does: it is shown and remembered, or it lies far from the remembered one,
  -- which is shown in its place, and is counted, the fourth such in a row being the last.
  pub filter_weight_lem :
      (new : ℕ) (c : Client)
      → ((filter_weight new c).0 ≡ new)
          × ((filter_weight new c).1.last_accepted_weight ≡ some new)
          × ((filter_weight new c).1.weight_out_of_limit_count ≡ 0)
        ⊎ ((last : ℕ) × (c.last_accepted_weight ≡ some last)
            × (is_far new last ≡ true)
            × ((filter_weight new c).0 ≡ last)
            × ((filter_weight new c).1.last_accepted_weight ≡ some last)
            × ((filter_weight new c).1.weight_out_of_limit_count ≡ c.weight_out_of_limit_count + 1)
            × (c.weight_out_of_limit_count < 4))
  unfolding filter_weight
  filter_weight_lem new c = elim (Option-cases c.last_accepted_weight) [
    | inl first ↦ inl (ground arith)
    | inr (last, known) ↦ elim (Bool-cases (is_far new last && ltb c.weight_out_of_limit_count 4)) [
      | inl glitch ↦
          inr (last, known, ground arith, ground arith, ground arith, ground arith, ground arith)
      | inr fine ↦ inl (ground arith)
    ]
  ]

  -- Each of the readings is rejected: the remembered weight is shown in its place.
  abbrev pub AllRejected : List ℕ → Client → Type 0
  AllRejected [] c = Unit
  AllRejected (w ∷ ws) c =
      ((filter_weight w c).1.weight_out_of_limit_count ≢ 0) × AllRejected ws (filter_weight w c).1

  rejected-count :
      (w : ℕ) (c : Client)
      → (filter_weight w c).1.weight_out_of_limit_count ≢ 0
      → ((filter_weight w c).1.weight_out_of_limit_count ≡ c.weight_out_of_limit_count + 1)
        × (c.weight_out_of_limit_count < 4)
  unfolding filter_weight
  rejected-count w c h = ground arith

  -- From a client that has counted at most four, no more readings in a row are rejected than are
  -- left to four: a lasting change of weight is shown with the fifth reading at the latest.
  pub rejected_run :
      (ws : List ℕ) (c : Client)
      → AllRejected ws c
      → c.weight_out_of_limit_count ≤ 4
      → length ws + c.weight_out_of_limit_count ≤ 4
  rejected_run [] c h few = omega arith
  rejected_run (w ∷ ws) c (h, hs) few =
      let (counted, below) = rejected-count w c h in
      omega (arith, rejected_run ws (filter_weight w c).1 hs (omega arith))

  filter_weight-count :
      (w : ℕ) (c : Client)
      → c.weight_out_of_limit_count ≤ 4
      → (filter_weight w c).1.weight_out_of_limit_count ≤ 4
  unfolding filter_weight
  filter_weight-count w c h = ground arith

  -- The counter of a client never passes four.
  pub filter_weights-count :
      (ws : List ℕ) (c : Client)
      → c.weight_out_of_limit_count ≤ 4
      → (filter_weights ws c).weight_out_of_limit_count ≤ 4
  unfolding filter_weights
  filter_weights-count [] c h = h
  filter_weights-count (w ∷ ws) c h =
      filter_weights-count ws (filter_weight w c).1 (filter_weight-count w c h)
