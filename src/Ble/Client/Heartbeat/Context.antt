-- ===== src/Ble/Client/Heartbeat/Context.antt =====
-- When the ambiguous code 0x3B is shown as brewing: only with a brew in context.
use hacs_xbloom.Prelude.{
  List, ℕ, Bool, ◌≡◌, arith, not, true, ◌++◌, ◌&&◌, ◌∷◌, ◌⊎◌, All, [], ap, false, inr, inl, some,
  refl,
}
use hacs_xbloom.Ble.Client.{Client, StateLabel}
use hacs_xbloom.Ble.Client.Heartbeat.{
  is_brew_context_code, ends_brew_context, is_scale_cal_arming, update_scale_calibrating,
  update_brew_context, state_label_for, status_code, status_codes,
}

-- A code that leaves a brew context as it is: it ends none, and arms no calibration.
abbrev pub keeps_context : ℕ → Bool
keeps_context code = not (ends_brew_context code) && not (is_scale_cal_arming code)

-- The codes hold one that starts a brew, and none behind it ends the brew.
pub record HasBrewStart (codes : List ℕ) : Type 0 where
  pub before : List ℕ
  pub start : ℕ
  pub later : List ℕ
  pub splits : codes ≡ before ++ start ∷ later
  pub starts : is_brew_context_code start ≡ true
  pub keeps : All (λ code. keeps_context code ≡ true) later

context_step :
    (code : ℕ) (c : Client)
    → (status_code code c).brew_context ≡ true
    → (is_brew_context_code code ≡ true) ⊎ ((c.brew_context ≡ true) × (keeps_context code ≡ true))
unfolding status_code update_brew_context update_scale_calibrating
context_step code c h = ground arith

HasBrewStart-cons : (code : ℕ) {codes : List ℕ} → HasBrewStart codes → HasBrewStart (code ∷ codes)
HasBrewStart-cons code h = record {
  before = code ∷ h.before;
  start = h.start;
  later = h.later;
  splits = ap (λ cs. code ∷ cs) h.splits;
  starts = h.starts;
  keeps = h.keeps;
}

context_origin :
    (codes : List ℕ) (c : Client)
    → (status_codes codes c).brew_context ≡ true
    → HasBrewStart codes ⊎ ((c.brew_context ≡ true) × All (λ k. keeps_context k ≡ true) codes)
unfolding status_codes
context_origin [] c h = inr (h, tt)
context_origin (code ∷ codes) c h = elim (context_origin codes (status_code code c) h) [
  | inl found ↦ inl (HasBrewStart-cons code found)
  | inr (context, kept) ↦ elim (context_step code c context) [
    | inl starts ↦ inl (record {
      before = [];
      start = code;
      later = codes;
      splits = refl;
      starts = starts;
      keeps = kept;
    })
    | inr (earlier, keep) ↦ inr (earlier, (keep, kept))
  ]
]

ambiguous_step :
    (c : Client)
    → c.brewer_running ≡ false
    → c.grinder_running ≡ false
    → (status_code 0x3b c).raw_state_label ≡ some StateLabel.brewing
    → (status_code 0x3b c).brew_context ≡ true
unfolding status_code state_label_for
ambiguous_step c still quiet h = ground arith

-- the code 0x3B itself neither starts a brew nor ends one
ambiguous_context :
    (c : Client)
    → c.brewer_running ≡ false
    → c.grinder_running ≡ false
    → (status_code 0x3b c).raw_state_label ≡ some StateLabel.brewing
    → c.brew_context ≡ true
unfolding is_brew_context_code
ambiguous_context c still quiet h = elim (context_step 0x3b c (ambiguous_step c still quiet h)) [
  | inl starts ↦ cc
  | inr (earlier, _) ↦ earlier
]

status_codes-append :
    (codes : List ℕ) (code : ℕ) (c : Client)
    → status_codes (codes ++ code ∷ []) c ≡ status_code code (status_codes codes c)
unfolding status_codes
status_codes-append [] code c = refl
status_codes-append (k ∷ codes) code c = status_codes-append codes code (status_code k c)

-- From a fresh connection, with no run flag set when it comes, the code 0x3B is shown as brewing
-- only if an earlier code started a brew and no code since then ended it.
pub ambiguous_needs_start :
    (codes : List ℕ) (c : Client)
    → c.brew_context ≡ false
    → (status_codes codes c).brewer_running ≡ false
    → (status_codes codes c).grinder_running ≡ false
    → (status_codes (codes ++ 0x3b ∷ []) c).raw_state_label ≡ some StateLabel.brewing
    → HasBrewStart codes
ambiguous_needs_start codes c fresh still quiet h =
    let shown = rw (status_codes-append codes 0x3b c) at h in
    let context = ambiguous_context (status_codes codes c) still quiet shown in
    elim (context_origin codes c context) [ inl found ↦ found | inr (stale, _) ↦ cc ]
