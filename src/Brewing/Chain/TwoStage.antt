-- ===== src/Brewing/Chain/TwoStage.antt =====
-- The two-stage form, arming and confirming later, against the single-shot form.
use hacs_xbloom.Brewing.Link.{
  failed, done, Outcome, Sent, Action, Chain, continue, Line, give, ◌>>=◌,
}
use hacs_xbloom.Brewing.Payload.{is_tea_recipe}
use hacs_xbloom.Ble.Models.{Recipe}
use hacs_xbloom.Prelude.{Option, none, some, ℕ, ◌≡◌, Bool-cases, refl, inl, inr}
use hacs_xbloom.Bytes.{Bytes}
use hacs_xbloom.Brewing.Chain.{
  arm_recipe, confirm_recipe, execute_recipe, brew_tea, brew_coffee, arm_tea, arm_coffee,
}

after_give {ℓ} :
    (r : Outcome Bytes × Sent) (k : Option Bytes → Chain {ℓ} Unit)
    → continue (continue r (λ p. give (some p))) k ≡ continue r (λ p. k (some p))
after_give (done p, s) k = refl
after_give (failed f, s) k = refl

after_none :
    (r : Outcome {0} Unit × Sent) (k : Option Bytes → Action)
    → continue (continue r (λ _. give {A = Option Bytes} none)) k ≡ continue r (λ _. k none)
after_none (done a, s) k = refl
after_none (failed f, s) k = refl

-- Arming a recipe and confirming it with what the arming returned sends the same packets, and ends
-- in the same way, as executing it in one call, for coffee and for tea.
pub arm_recipe-confirm_recipe :
    (line : Line) (f32 : ℕ → ℕ) (recipe : Recipe) (volume temperature : ℕ) (s : Sent)
    → (do
      payload ← arm_recipe line f32 recipe volume temperature
      confirm_recipe line f32 (is_tea_recipe recipe) payload)
        s
      ≡ execute_recipe line f32 recipe volume temperature s
unfolding arm_recipe confirm_recipe execute_recipe brew_tea brew_coffee
arm_recipe-confirm_recipe line f32 recipe volume temperature s =
    elim (Bool-cases (is_tea_recipe recipe)) [
      | inl tea ↦ rw tea (after_give (arm_tea line f32 recipe s) _)
      | inr coffee ↦ rw coffee (after_none (arm_coffee line f32 recipe volume temperature s) _)
    ]
