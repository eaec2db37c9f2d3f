-- ===== src/Coordinator/ModeSwitch/Attempts.antt =====
-- The attempts of a mode switch: how many are sent, and what the answer says.
use hacs_xbloom.Prelude.{
  ℕ, ◌≡◌, Option, some, ◌++◌, Bool, arith, ◌∷◌, [], replicate, ◌≤◌, length, suc, refl, ◌<◌, ◌+◌,
  false, true, Bool-cases, if◌then◌else◌, inl, inr, ap, zero, ◌∙◌, append_assoc, sym,
}
use hacs_xbloom.Bytes.{Bytes}
use hacs_xbloom.Coordinator.{Mode, pro, easy}
use hacs_xbloom.Coordinator.ModeSwitch.{
  attempts, confirmed, switch_mode_with_retry, mode_switch_code,
}
use hacs_xbloom.Coordinator.Operations.Sends.{IsUp, codes, codes-snoc}
use hacs_xbloom.Brewing.Link.{
  Line, Outcome, Sent, Reply, acked, silent, down, done, send_command_raw, Chain,
}
use hacs_xbloom.Ble.Constants.{Command}
use hacs_xbloom.Ble.Framing.{build_packet_raw}
use hacs_xbloom.Ble.Framing.Build.{build_packet_raw-IsPacket}

-- The packet of a mode switch can be built.
switch-packet :
    (mode : Mode)
    → (packet : Bytes) × (build_packet_raw 11511 (mode_switch_code mode) 2 1 ≡ some packet)
switch-packet pro =
    let (packet, built, _) =
      build_packet_raw-IsPacket 11511 (mode_switch_code pro) 2 1 (ground arith) (ground arith) in
    (packet, built)
switch-packet easy =
    let (packet, built, _) =
      build_packet_raw-IsPacket 11511 (mode_switch_code easy) 2 1 (ground arith) (ground arith) in
    (packet, built)

switch-sent :
    (line : Line) (mode : Mode) (s : Sent)
    → IsUp line
    → (packet : Bytes) × (send_command_raw line Command.easy_mode_switch (mode_switch_code mode) 2 s
        ≡ (done tt, s ++ (11511, packet) ∷ []))
unfolding send_command_raw
switch-sent line mode s up =
    let (packet, built) = switch-packet mode in
    (packet, replied packet built (line.reply (length s)) refl)
  where
    replied :
        (packet : Bytes)
        → build_packet_raw 11511 (mode_switch_code mode) 2 1 ≡ some packet
        → (r : Reply) → line.reply (length s) ≡ r
        → send_command_raw line Command.easy_mode_switch (mode_switch_code mode) 2 s
          ≡ (done tt, s ++ (11511, packet) ∷ [])
    replied packet built down e = absurd (up (length s) e)
    replied packet built acked e = simp (e, built) refl
    replied packet built silent e = simp (e, built) refl

module _ (line : Line) (acks : ℕ → ℕ → Option Bytes) (sleeping : ℕ → Bool) (mode : Mode) where
  -- From attempt `k` on, the last attempt is `k + d`: every one before it found no confirmation and
  -- a sleeping machine, the answer is what the last one read, and it is the last one because it was
  -- confirmed, or the machine was awake, or no attempt was left.
  abbrev pub EndsAfter : ℕ → ℕ → Sent → Outcome {0} Bool × Sent → ℕ → Type 0
  EndsAfter n k s r d =
      (codes r.1 ≡ codes s ++ replicate (suc d) 11511)
      × ((i : ℕ)
          → i < d
          → (confirmed line acks sleeping mode (k + i) ≡ false) × (sleeping (k + i) ≡ true))
      × (r.0 ≡ done (confirmed line acks sleeping mode (k + d)))
      × ((confirmed line acks sleeping mode (k + d) ≡ false) → sleeping (k + d) ≡ true → d ≡ n)

  abbrev after_send : (n k : ℕ) → (packet : Bytes) → Sent → Outcome {0} Bool × Sent
  after_send n k packet s =
      let t = s ++ (11511, packet) ∷ [] in
      if confirmed line acks sleeping mode k
      then (done true, t)
      else if sleeping k
      then attempts line acks sleeping n (suc k) mode t
      else (done false, t)

  run_branch :
      (b c : Bool) (x y z : Chain {0} Bool) (t : Sent)
      → (if b then x else if c then y else z) t ≡ (if b then x t else if c then y t else z t)
  run_branch true c x y z t = refl
  run_branch false true x y z t = refl
  run_branch false false x y z t = refl

  attempts-step :
      (n k : ℕ) (s : Sent) (packet : Bytes)
      → send_command_raw line Command.easy_mode_switch (mode_switch_code mode) 2 s
        ≡ (done tt, s ++ (11511, packet) ∷ [])
      → attempts line acks sleeping (suc n) k mode s ≡ after_send n k packet s
  unfolding attempts
  attempts-step n k s packet sent =
      rw sent (run_branch (confirmed line acks sleeping mode k) (sleeping k) _ _ _ _)

  ends_here :
      (n k : ℕ) (s : Sent) (packet : Bytes) (b : Bool)
      → confirmed line acks sleeping mode k ≡ b
      → (b ≡ false → sleeping k ≡ true → 0 ≡ n)
      → EndsAfter n k s (done b, s ++ (11511, packet) ∷ []) 0
  ends_here n k s packet b found last =
      let start : k + 0 ≡ k = omega arith in
      rw start (
        codes-snoc s 11511 packet,
        (λ i below. absurd (omega (arith, below))),
        ap done (sym found),
        (λ e asleep. last (sym found ∙ e) asleep),
      )

  earlier :
      (k d i : ℕ)
      → confirmed line acks sleeping mode k ≡ false
      → sleeping k ≡ true
      → ((j : ℕ)
          → j < d
          → (confirmed line acks sleeping mode (suc k + j) ≡ false) × (sleeping (suc k + j) ≡ true))
      → i < suc d
      → (confirmed line acks sleeping mode (k + i) ≡ false) × (sleeping (k + i) ≡ true)
  earlier k d zero unseen asleep later below =
      let start : k + 0 ≡ k = omega arith in rw start (unseen, asleep)
  earlier k d (suc i) unseen asleep later below =
      let shift : k + suc i ≡ suc k + i = omega arith in rw shift (later i (omega (arith, below)))

  goes_on :
      (n k : ℕ) (s : Sent) (packet : Bytes) (r : Outcome {0} Bool × Sent) (d : ℕ)
      → confirmed line acks sleeping mode k ≡ false
      → sleeping k ≡ true
      → EndsAfter n (suc k) (s ++ (11511, packet) ∷ []) r d
      → EndsAfter (suc n) k s r (suc d)
  goes_on n k s packet r d unseen asleep (log, before, answer, last) =
      let shift : k + suc d ≡ suc k + d = omega arith in
      rw shift (
        log
            ∙ ap (λ l. l ++ replicate (suc d) 11511) (codes-snoc s 11511 packet)
            ∙ append_assoc (codes s) (11511 ∷ []) (replicate (suc d) 11511),
        (λ i below. earlier k d i unseen asleep before below),
        answer,
        (λ e still. ap suc (last e still)),
      )

  no_attempt : (k : ℕ) (t : Sent) → attempts line acks sleeping zero k mode t ≡ (done false, t)
  unfolding attempts
  no_attempt k t = refl

  -- One attempt, given how the wait ends when the machine sleeps on.
  one_attempt :
      (n k : ℕ) (s : Sent) (packet : Bytes)
      → send_command_raw line Command.easy_mode_switch (mode_switch_code mode) 2 s
        ≡ (done tt, s ++ (11511, packet) ∷ [])
      → (confirmed line acks sleeping mode k ≡ false
          → sleeping k ≡ true
          → (d : ℕ) × (d ≤ n)
            × EndsAfter n k s
                (attempts line acks sleeping n (suc k) mode (s ++ (11511, packet) ∷ []))
                d)
      → (d : ℕ) × (d ≤ n) × EndsAfter n k s (attempts line acks sleeping (suc n) k mode s) d
  one_attempt n k s packet sent further =
      rw (attempts-step n k s packet sent)
        (elim (Bool-cases (confirmed line acks sleeping mode k)) [
          | inl found ↦
              rw found
                (0, omega arith, ends_here n k s packet true found (λ e. absurd (ground arith)))
          | inr unseen ↦ elim (Bool-cases (sleeping k)) [
            | inr awake ↦
                rw (unseen, awake)
                  (
                    0,
                    omega arith,
                    ends_here n k s packet false unseen (λ e asleep. absurd (ground arith)),
                  )
            | inl asleep ↦ rw (unseen, asleep) (further unseen asleep)
          ]
        ])

  attempts-EndsAfter :
      (n k : ℕ) (s : Sent)
      → IsUp line
      → (d : ℕ) × (d ≤ n) × EndsAfter n k s (attempts line acks sleeping (suc n) k mode s) d
  attempts-EndsAfter zero k s up =
      let (packet, sent) = switch-sent line mode s up in
      one_attempt zero k s packet sent (λ unseen asleep. ends zero k s packet unseen)
    where
      ends :
          (n k : ℕ) (s : Sent) (packet : Bytes)
          → confirmed line acks sleeping mode k ≡ false
          → (d : ℕ) × (d ≤ 0)
            × EndsAfter 0 k s
                (attempts line acks sleeping zero (suc k) mode (s ++ (11511, packet) ∷ []))
                d
      ends n k s packet unseen =
          rw (no_attempt (suc k) (s ++ (11511, packet) ∷ []))
            (0, omega arith, ends_here 0 k s packet false unseen (λ e still. refl))
  attempts-EndsAfter (suc n) k s up =
      let (packet, sent) = switch-sent line mode s up in
      let (d, below, rest) = attempts-EndsAfter n (suc k) (s ++ (11511, packet) ∷ []) up in
      one_attempt (suc n) k s packet sent (λ unseen asleep.
        (suc d, omega (arith, below), goes_on n k s packet _ d unseen asleep rest))

  -- Over a link that stays up, a mode switch sends its command once for each attempt and nothing else,
  -- at most three times. Every attempt but the last found no confirmation of the mode and a machine
  -- asleep; the answer is whether the last one found it confirmed; and unless three were made, the last
  -- found it confirmed or the machine awake.
  pub switch_mode-EndsAfter :
      (s : Sent)
      → IsUp line
      → (d : ℕ) × (d ≤ 2) × EndsAfter 2 1 s (switch_mode_with_retry line acks sleeping mode s) d
  unfolding switch_mode_with_retry
  switch_mode-EndsAfter s up = attempts-EndsAfter 2 1 s up
