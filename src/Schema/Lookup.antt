-- ===== src/Schema/Lookup.antt =====
-- schema.py: `find_recipe`, the recipe that an identifier names.
use mathlib.Core.Option.{some-injective}
use hacs_xbloom.Prelude.{
  some, none, true, false, ◌∷◌, Bool, List, Option, ◌≡◌, All, [], if◌then◌else◌, ◌⊎◌, Bool-cases,
  Option-cases, arith, inl, inr, sym, ◌∙◌,
}
use hacs_xbloom.Prelude.Int.{ℤ, eqb_ℤ}
use hacs_xbloom.Schema.{Name, same_name}

-- The metadata of a stored recipe; what it brews plays no part here.
pub record Stored : Type 0 where
  pub uid : Option Name
  pub cloud_table_id : Option ℤ
  pub share_url : Option Name

abbrev pub Recipes : Type 0
Recipes = List (Name × Stored)

abbrev pub first_where : (Name × Stored → Bool) → Recipes → Option (Name × Stored)
first_where test [] = none
first_where test (r ∷ rs) = if test r then some r else first_where test rs

abbrev pub has_uid : Name → Name × Stored → Bool
has_uid identifier (_, r) = is_name r.uid
  where
    is_name : Option Name → Bool
    is_name none = false
    is_name (some uid) = same_name uid identifier

abbrev pub has_table_id : Option ℤ → Name × Stored → Bool
has_table_id none r = false
has_table_id (some table_id) (_, r) = is_id r.cloud_table_id
  where
    is_id : Option ℤ → Bool
    is_id none = false
    is_id (some id) = eqb_ℤ id table_id

abbrev pub has_name : Name → Name × Stored → Bool
has_name identifier (name, _) = same_name name identifier

abbrev pub IsAmong : Name × Stored → Recipes → Type 0
IsAmong r [] = ⊥
IsAmong r (q ∷ qs) = (r ≡ q) ⊎ IsAmong r qs

some-none : (r : Name × Stored) → some r ≡ none → ⊥
some-none r e = ground arith

-- `int(identifier)`, `share_id_of` and `str.strip`.
module _ (int_of : Name → Option ℤ) (share_id_of : Name → Option Name) (strip : Name → Name) where
  -- an empty identifier is none
  abbrev same_share : Option Name → Option Name → Bool
  same_share (some (x ∷ xs)) (some stored) = same_name stored (x ∷ xs)
  same_share _ _ = false

  abbrev stored_share : Option Name → Option Name
  stored_share (some (x ∷ xs)) = share_id_of (x ∷ xs)
  stored_share _ = none

  abbrev pub has_share : Name → Name × Stored → Bool
  has_share identifier (_, r) = same_share (share_id_of identifier) (stored_share r.share_url)

  abbrev or_else : Option (Name × Stored) → Option (Name × Stored) → Option (Name × Stored)
  or_else none later = later
  or_else (some r) later = some r

  abbrev look_up : Name → Recipes → Option (Name × Stored)
  look_up [] recipes = none
  look_up (x ∷ xs) recipes = or_else (first_where (has_uid (x ∷ xs)) recipes) (
      or_else (first_where (has_table_id (int_of (x ∷ xs))) recipes) (
        or_else (first_where (has_share (x ∷ xs)) recipes)
          (first_where (has_name (x ∷ xs)) recipes)))

  unfoldable pub find_recipe : Recipes → Name → Option (Name × Stored)
  find_recipe recipes identifier = look_up (strip identifier) recipes

  -- The four ways to name a recipe, in their order.
  abbrev pub Names : Name → Name × Stored → Type 0
  Names identifier r =
      (has_uid identifier r ≡ true)
      ⊎ (has_table_id (int_of identifier) r ≡ true)
      ⊎ (has_share identifier r ≡ true)
      ⊎ (has_name identifier r ≡ true)

  first_where-some :
      (test : Name × Stored → Bool) (recipes : Recipes) (r : Name × Stored)
      → first_where test recipes ≡ some r
      → (test r ≡ true) × IsAmong r recipes
  first_where-some test [] r e = absurd (ground arith)
  first_where-some test (q ∷ qs) r e = elim (Bool-cases (test q)) [
    | inl here ↦ let same = some-injective q r (rw here at e) in (rw (← same) here, inl (sym same))
    | inr further ↦
        let (holds, among) = first_where-some test qs r (rw further at e) in (holds, inr among)
  ]

  first_where-none :
      (test : Name × Stored → Bool) (recipes : Recipes)
      → first_where test recipes ≡ none
      → All (λ r. test r ≡ false) recipes
  first_where-none test [] e = tt
  first_where-none test (q ∷ qs) e = elim (Bool-cases (test q)) [
    | inl here ↦ absurd (some-none q (rw here at e))
    | inr further ↦ (further, first_where-none test qs (rw further at e))
  ]

  -- Found by the first test that finds anything.
  or_else-some :
      (test : Name × Stored → Bool) (recipes : Recipes) (later : Option (Name × Stored))
      (r : Name × Stored)
      → or_else (first_where test recipes) later ≡ some r
      → (test r ≡ true) × IsAmong r recipes ⊎ All (λ q. test q ≡ false) recipes × (later ≡ some r)
  or_else-some test recipes later r e = elim (Option-cases (first_where test recipes)) [
    | inl missing ↦ inr (first_where-none test recipes missing, rw missing at e)
    | inr (q, found) ↦ inl (first_where-some test recipes r (found ∙ rw found at e))
  ]

  look_up-Names :
      (recipes : Recipes) (identifier : Name) (r : Name × Stored)
      → look_up identifier recipes ≡ some r
      → IsAmong r recipes
        × Names identifier r
        × (All (λ q. has_uid identifier q ≡ false) recipes ⊎ (has_uid identifier r ≡ true))
  look_up-Names recipes [] r e = absurd (ground arith)
  look_up-Names recipes (x ∷ xs) r e = elim (or_else-some (has_uid (x ∷ xs)) recipes _ r e) [
    | inl (holds, among) ↦ (among, inl holds, inr holds)
    | inr (missing, e1) ↦ elim (or_else-some (has_table_id (int_of (x ∷ xs))) recipes _ r e1) [
      | inl (holds, among) ↦ (among, inr (inl holds), inl missing)
      | inr (_, e2) ↦ elim (or_else-some (has_share (x ∷ xs)) recipes _ r e2) [
        | inl (holds, among) ↦ (among, inr (inr (inl holds)), inl missing)
        | inr (_, e3) ↦
            let (holds, among) = first_where-some (has_name (x ∷ xs)) recipes r e3 in
            (among, inr (inr (inr holds)), inl missing)
      ]
    ]
  ]

  -- However numbers, share links and blanks are read, a recipe that is found is one of the stored ones
  -- and is named by the identifier; and if a stored recipe has the identifier for its uid, so has the
  -- one that is found, whatever recipes have it for another number, share or name.
  pub find_recipe-Names :
      (recipes : Recipes) (identifier : Name) (r : Name × Stored)
      → find_recipe recipes identifier ≡ some r
      → IsAmong r recipes
        × Names (strip identifier) r
        × (All (λ q. has_uid (strip identifier) q ≡ false) recipes
            ⊎ (has_uid (strip identifier) r ≡ true))
  unfolding find_recipe
  find_recipe-Names recipes identifier r e = look_up-Names recipes (strip identifier) r e
