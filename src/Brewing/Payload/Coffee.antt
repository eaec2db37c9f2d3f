-- ===== src/Brewing/Payload/Coffee.antt =====
-- The coffee payload: the pours of the recipe, and the footer behind them.
use hacs_xbloom.Prelude.Int.{low_byte}
use hacs_xbloom.Bytes.{Bytes}
use hacs_xbloom.Prelude.{
  All, Option, ℕ, true, ◌≡◌, Bool-cases, some, suc, ◌∷◌, if◌then◌else◌, ltb, ◌++◌, [], length, inl,
  ◌-◌, arith, inr, none, length-append, refl, take-append_length,
}
use hacs_xbloom.Ble.Models.Body.{IsBrewable, pours_bytes-IsBody, wire_pours}
use hacs_xbloom.Ble.Models.Decode.{decode_body, no_steps}
use hacs_xbloom.Ble.Models.{Recipe, build_recipe_payload}
use hacs_xbloom.Brewing.Payload.{coffee_ratio_byte, body_content, build_coffee_recipe_payload}

body_content-lem : (n a b : ℕ) (body : Bytes) → body_content (n ∷ (body ++ a ∷ b ∷ [])) ≡ body
body_content-lem n a b body =
    let size : suc (length (body ++ a ∷ b ∷ [])) - 3 ≡ length body =
      omega (arith, length-append body (a ∷ b ∷ [])) in
    rw size (take-append_length body (a ∷ b ∷ []))

-- What the coffee payload is: a body in which the machine reads back the recipe's pours, with its
-- length in front, and the grind size and the ratio behind; a body of 256 bytes or more raises.
pub record IsCoffeePayload (recipe : Recipe) (payload : Option Bytes) : Type 0 where
  pub body : Bytes
  pub reads : decode_body no_steps body ≡ some (wire_pours true recipe.rpm recipe.pours)
  pub layout : payload ≡ (
      if ltb (length body) 256
      then some (length body ∷ (body ++ low_byte recipe.grind_size ∷ coffee_ratio_byte recipe ∷ []))
      else none)

-- From the payload of a recipe whose pours can all be sent, the machine reads back those pours, in
-- order and with their whole volumes; only a body of 256 bytes or more raises.
pub build_coffee_recipe_payload-IsCoffeePayload :
    (recipe : Recipe)
    → All IsBrewable recipe.pours
    → IsCoffeePayload recipe (build_coffee_recipe_payload recipe)
unfolding build_coffee_recipe_payload build_recipe_payload
build_coffee_recipe_payload-IsCoffeePayload recipe h =
    let b = pours_bytes-IsBody true recipe.rpm recipe.pours h in
    record {
      body = b.bytes;
      reads = b.reads;
      layout = elim (Bool-cases (ltb (length b.bytes) 256)) [
        | inl fits ↦ rw (b.packs, fits, body_content-lem, fits) refl
        | inr large ↦ rw (b.packs, large) refl
      ];
    }
