-- ===== src/Brewing/Chain/Tea.antt =====
-- The tea chain: arming by 4513 and starting by 4512 with the same payload.
use hacs_xbloom.Brewing.Chain.{cup_args, bypass_args, brew_tea, arm_tea}
use hacs_xbloom.Prelude.{
  none, some, refl, ℕ, List, ◌++◌, ◌≡◌, false, [], true, ◌∷◌, Bool-cases, Option, ap, ◌∙◌, inr,
  arith, inl, Option-cases,
}
use hacs_xbloom.Brewing.Payload.{build_tea_payload}
use hacs_xbloom.Ble.Constants.{Command}
use hacs_xbloom.Brewing.Link.Steps.{
  Request, request, request_raw, ask_all, IsGated, ask, AreBuilt, AreAcked, ask_all-IsRun,
}
use hacs_xbloom.Brewing.Link.Bind.{
  ask_then, ask-give, ask_then-ask_all, check-linked, check-unlinked, ask_then-bind,
  ask_then-Proceeds,
}
use hacs_xbloom.Bytes.{Bytes}
use hacs_xbloom.Ble.Models.{Recipe}
use hacs_xbloom.Brewing.Link.{
  ◌>>=◌, ◌>>◌, Line, Sent, Outcome, send_and_wait, send_and_wait_raw, failed, not_connected, throw,
  struct_error, Action, Chain, continue, done, packed, give,
}

module _ (line : Line) (f32 : ℕ → ℕ) (recipe : Recipe) where
  abbrev prelude_requests : List Request
  prelude_requests =
      request Command.back_to_home []
      ∷ request Command.set_bypass (bypass_args line f32 0 0 0)
      ∷ request Command.set_cup (cup_args line f32 2000 0)
      ∷ []

  -- The five steps of a brew, the last two with one payload.
  abbrev pub tea_requests : Bytes → List Request
  tea_requests payload =
      prelude_requests
      ++ request_raw Command.tea_recipe_code payload
        ∷ request_raw Command.tea_recipe_make payload
        ∷ []

  abbrev brew : Sent → Outcome {0} Unit × Sent
  brew = brew_tea line f32 recipe

  -- arming behind the prelude, and the start
  abbrev send_code : Option Bytes → Chain Bytes
  send_code packet = do
    payload ← packed packet
    ask line (request_raw Command.tea_recipe_code payload)
    give payload

  abbrev make : Bytes → Action
  make payload = ask line (request_raw Command.tea_recipe_make payload)

  brew-linked :
      (s : Sent)
      → line.linked ≡ true
      → brew s ≡ ask_then line prelude_requests (send_code (build_tea_payload recipe) >>= make) s
  unfolding brew_tea arm_tea send_and_wait send_and_wait_raw
  brew-linked s up =
      ap (λ r. continue r make)
        (check-linked line (ask_then line prelude_requests (send_code (build_tea_payload recipe))) s
          up)
      ∙ ap (λ k. k s)
          (ask_then-bind line prelude_requests (send_code (build_tea_payload recipe)) make)

  brew-built :
      (payload : Bytes) (s : Sent)
      → line.linked ≡ true
      → build_tea_payload recipe ≡ some payload
      → brew s ≡ ask_all line (tea_requests payload) s
  brew-built payload s up built =
      brew-linked s up
      ∙ ap (λ o. ask_then line prelude_requests (send_code o >>= make) s) built
      ∙ ap (λ k. ask_then line prelude_requests k s)
          (ask-give line (request_raw Command.tea_recipe_code payload)
            (request_raw Command.tea_recipe_make payload) payload make refl)
      ∙ ap (λ k. k s)
          (ask_then-ask_all line prelude_requests (
            request_raw Command.tea_recipe_code payload
            ∷ request_raw Command.tea_recipe_make payload
            ∷ []))

  brew-unbuilt :
      (s : Sent)
      → line.linked ≡ true
      → build_tea_payload recipe ≡ none
      → brew s ≡ ask_then line prelude_requests (throw struct_error) s
  brew-unbuilt s up unbuilt =
      brew-linked s up ∙ ap (λ o. ask_then line prelude_requests (send_code o >>= make) s) unbuilt

  brew-unlinked : (s : Sent) → line.linked ≡ false → brew s ≡ (failed not_connected, s)
  unfolding brew_tea arm_tea send_and_wait_raw
  brew-unlinked s offline = ap (λ r. continue r make) (check-unlinked line _ s offline)

  -- A brew of tea on an idle link.
  pub record IsTeaRun (r : Outcome {0} Unit × Sent) : Type 0 where
    pub gated : IsGated line 0 r.1
    pub whole :
        r.0 ≡ done tt
        → (payload : Bytes) × (build_tea_payload recipe ≡ some payload)
          × AreBuilt (tea_requests payload) r.1
          × AreAcked line 0 5

  -- With nothing sent yet and whatever the link does, a brew of tea sends nothing behind a packet
  -- that was not echoed; it goes through only with all five packets sent and echoed, the two with
  -- the recipe's payload carrying the same bytes.
  pub brew_tea-IsTeaRun : IsTeaRun (brew [])
  brew_tea-IsTeaRun = elim (Bool-cases line.linked) [
    | inr offline ↦
        rw (brew-unlinked [] offline)
          (record { gated = tt; whole = λ impossible. absurd (ground arith) })
    | inl up ↦ elim (Option-cases (build_tea_payload recipe)) [
      | inr (payload, built) ↦
          let run = ask_all-IsRun line (tea_requests payload) [] in
          rw (brew-built payload [] up built) (record {
            gated = rw run.log run.steady;
            whole = λ finished.
                let (sent, echoed) = run.whole finished in
                (payload, built, rw run.log sent, echoed);
          })
      | inl unbuilt ↦
          let run = ask_all-IsRun line prelude_requests [] in
          elim (ask_then-Proceeds line prelude_requests (throw {0} {A = Unit} struct_error) []) [
            | inl (through, e) ↦
                rw (brew-unbuilt [] up unbuilt, e)
                  (record {
                    gated = rw run.log run.steady;
                    whole = λ impossible. absurd (ground arith);
                  })
            | inr (f, stopped, e) ↦
                rw (brew-unbuilt [] up unbuilt, e)
                  (record {
                    gated = rw run.log run.steady;
                    whole = λ impossible. absurd (ground arith);
                  })
          ]
    ]
  ]
