-- ===== src/Brewing/Chain/Coffee.antt =====
-- The coffee chain: what arming sends, when it goes through, and when the execute command is sent.
use hacs_xbloom.Brewing.Chain.{cup_args, arm_coffee, bypass_args, dose_of, cup_bounds}
use hacs_xbloom.Brewing.Link.Steps.{
  ask_all, Request, request, request_raw, IsGated, AreBuilt, AreAcked, IsAsked, ask_all-IsRun,
}
use hacs_xbloom.Brewing.Link.Bind.{ask_then-ask, ask_then, ask_then-Proceeds}
use hacs_xbloom.Brewing.Payload.{is_grinding, build_coffee_recipe_payload}
use hacs_xbloom.Bytes.{Bytes}
use hacs_xbloom.Prelude.{
  ℕ, List, if◌then◌else◌, ◌++◌, [], ◌≡◌, true, ◌∷◌, some, ap, All, false, none, ◌≢◌, Bool-cases,
  refl, arith, inl, inr, Option-cases, All-map,
}
use hacs_xbloom.Ble.Constants.{Command}
use hacs_xbloom.Brewing.Link.{
  Line, Outcome, Sent, send_and_wait, send_and_wait_raw, done, failed, not_connected, throw,
  struct_error,
}
use hacs_xbloom.Ble.Models.{Recipe}

-- The four steps, given the payload.
abbrev pub recipe_command : Recipe → Command
recipe_command recipe =
    if is_grinding recipe then Command.recipe_send_auto else Command.recipe_send_manual

module _ (line : Line) (f32 : ℕ → ℕ) (recipe : Recipe) (volume temperature : ℕ) where
  abbrev prelude_requests : List Request
  prelude_requests =
      request Command.back_to_home []
      ∷ request Command.set_bypass (bypass_args line f32 volume temperature (dose_of recipe))
      ∷ request Command.set_cup (
          cup_args line f32 (cup_bounds (is_grinding recipe) recipe.cup_type).0
            (cup_bounds (is_grinding recipe) recipe.cup_type).1)
      ∷ []

  abbrev pub coffee_requests : Bytes → List Request
  coffee_requests payload = prelude_requests ++ request_raw (recipe_command recipe) payload ∷ []

  abbrev arm : Sent → Outcome {0} Unit × Sent
  arm = arm_coffee line f32 recipe volume temperature

  pub arm-built :
      (payload : Bytes) (s : Sent)
      → line.linked ≡ true
      → build_coffee_recipe_payload recipe ≡ some payload
      → arm s ≡ ask_all line (coffee_requests payload) s
  unfolding arm_coffee send_and_wait send_and_wait_raw
  arm-built payload s up built =
      rw (up, built)
        (ap (λ k. k s)
          (ask_then-ask line prelude_requests (request_raw (recipe_command recipe) payload)))

  -- A recipe whose payload cannot be packed sends the prelude at most.
  arm-unbuilt :
      (s : Sent)
      → line.linked ≡ true
      → build_coffee_recipe_payload recipe ≡ none
      → arm s ≡ ask_then line prelude_requests (throw struct_error) s
  unfolding arm_coffee send_and_wait send_and_wait_raw
  arm-unbuilt s up unbuilt = rw (up, unbuilt) refl

  arm-unlinked : (s : Sent) → line.linked ≡ false → arm s ≡ (failed not_connected, s)
  unfolding arm_coffee
  arm-unlinked s offline = rw offline refl

  prelude_unexecuted : (command : ℕ) → IsAsked prelude_requests command → command ≢ 8002
  prelude_unexecuted command h = ground arith

  coffee_unexecuted :
      (payload : Bytes) (command : ℕ) → IsAsked (coffee_requests payload) command → command ≢ 8002
  coffee_unexecuted payload command h = elim (Bool-cases (is_grinding recipe)) [
    | inl grinds ↦ ground arith
    | inr ground_before ↦ ground arith
  ]

  -- The arming of a recipe on an idle link.
  pub record IsArming (r : Outcome {0} Unit × Sent) : Type 0 where
    pub safe : All (λ p. p.0 ≢ 8002) r.1
    pub gated : IsGated line 0 r.1
    pub whole :
        r.0 ≡ done tt
        → (payload : Bytes) × (build_coffee_recipe_payload recipe ≡ some payload)
          × AreBuilt (coffee_requests payload) r.1
          × AreAcked line 0 4

  -- With nothing sent yet and whatever the link does, arming never sends the execute command and
  -- sends nothing behind a packet that was not echoed; it goes through only with the whole chain
  -- sent, in order, with the recipe's payload, and each packet echoed.
  pub arm_coffee-IsArming : IsArming (arm [])
  arm_coffee-IsArming = elim (Bool-cases line.linked) [
    | inr offline ↦
        rw (arm-unlinked [] offline)
          (record { safe = tt; gated = tt; whole = λ impossible. absurd (ground arith) })
    | inl up ↦ elim (Option-cases (build_coffee_recipe_payload recipe)) [
      | inr (payload, built) ↦
          let run = ask_all-IsRun line (coffee_requests payload) [] in
          rw (arm-built payload [] up built) (record {
            safe = rw (run.log) (All-map (λ p. coffee_unexecuted payload p.0) run.added run.asked);
            gated = rw (run.log) run.steady;
            whole = λ finished.
                let (sent, echoed) = run.whole finished in
                (payload, built, rw (run.log) sent, echoed);
          })
      | inl unbuilt ↦
          let run = ask_all-IsRun line prelude_requests [] in
          elim (ask_then-Proceeds line prelude_requests (throw {0} {A = Unit} struct_error) []) [
            | inl (through, e) ↦
                rw (arm-unbuilt [] up unbuilt, e)
                  (record {
                    safe = rw (run.log) (All-map (λ p. prelude_unexecuted p.0) run.added run.asked);
                    gated = rw (run.log) run.steady;
                    whole = λ impossible. absurd (ground arith);
                  })
            | inr (f, stopped, e) ↦
                rw (arm-unbuilt [] up unbuilt, e)
                  (record {
                    safe = rw (run.log) (All-map (λ p. prelude_unexecuted p.0) run.added run.asked);
                    gated = rw (run.log) run.steady;
                    whole = λ impossible. absurd (ground arith);
                  })
          ]
    ]
  ]
