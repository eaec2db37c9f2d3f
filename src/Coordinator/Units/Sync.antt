-- ===== src/Coordinator/Units/Sync.antt =====
-- Reports of the machine against changes of the user.
use hacs_xbloom.Prelude.{ℕ, ◌≡◌, false, ◌≢◌, true, arith, Bool, ◌∙◌, Option}
use hacs_xbloom.Coordinator.{Coordinator, WeightUnit, TempUnit, WaterSource}
use hacs_xbloom.Coordinator.Units.{
  sync_units_from_machine, handle_unit_options_change, raw_to_weight_unit, raw_to_temp_unit,
  raw_to_water_source, weight_unit_code, temp_unit_code, water_source_code, adopt_temp_unit,
  adopt_water_source, adopt_weight_unit,
}

-- The queue is the same, and every queued setting.
abbrev Keeps : Coordinator → Coordinator → Type 0
Keeps c d =
    (d.pending_weight_unit ≡ c.pending_weight_unit)
    × (d.pending_temp_unit ≡ c.pending_temp_unit)
    × (d.pending_water_source ≡ c.pending_water_source)
    × (c.pending_weight_unit ≡ true → d.weight_unit ≡ c.weight_unit)
    × (c.pending_temp_unit ≡ true → d.temp_unit ≡ c.temp_unit)
    × (c.pending_water_source ≡ true → d.water_source ≡ c.water_source)

Keeps-trans : (a b c : Coordinator) → Keeps a b → Keeps b c → Keeps a c
Keeps-trans a b c (p, q, r, f, g, h) (p', q', r', f', g', h') =
    (p' ∙ p, q' ∙ q, r' ∙ r, λ e. f' (p ∙ e) ∙ f e, λ e. g' (q ∙ e) ∙ g e, λ e. h' (r ∙ e) ∙ h e)

adopt_weight_unit-Keeps :
    (unit : Option WeightUnit) (c : Coordinator) → Keeps c (adopt_weight_unit unit c).0
unfolding adopt_weight_unit
adopt_weight_unit-Keeps unit c = ground arith

adopt_temp_unit-Keeps :
    (unit : Option TempUnit) (c : Coordinator) → Keeps c (adopt_temp_unit unit c).0
unfolding adopt_temp_unit
adopt_temp_unit-Keeps unit c = ground arith

adopt_water_source-Keeps :
    (source : Option WaterSource) (c : Coordinator) → Keeps c (adopt_water_source source c).0
unfolding adopt_water_source
adopt_water_source-Keeps source c = ground arith

sync-Keeps : (w t r : ℕ) (c : Coordinator) → Keeps c (sync_units_from_machine w t r c).0
unfolding sync_units_from_machine
sync-Keeps w t r c =
    let first = (adopt_weight_unit (raw_to_weight_unit w) c).0 in
    let second = (adopt_temp_unit (raw_to_temp_unit t) first).0 in
    let third = (adopt_water_source (raw_to_water_source r) second).0 in
    Keeps-trans c second third
      (Keeps-trans c first second (adopt_weight_unit-Keeps (raw_to_weight_unit w) c)
        (adopt_temp_unit-Keeps (raw_to_temp_unit t) first))
      (adopt_water_source-Keeps (raw_to_water_source r) second)

-- A queued setting is kept by a report.
sync_keeps :
    (w t r : ℕ) (c : Coordinator)
    → let synced = (sync_units_from_machine w t r c).0 in
      (c.pending_weight_unit ≡ true
        → (synced.weight_unit ≡ c.weight_unit) × (synced.pending_weight_unit ≡ true))
      × (c.pending_temp_unit ≡ true
          → (synced.temp_unit ≡ c.temp_unit) × (synced.pending_temp_unit ≡ true))
      × (c.pending_water_source ≡ true
          → (synced.water_source ≡ c.water_source) × (synced.pending_water_source ≡ true))
sync_keeps w t r c =
    let (p, q, s, f, g, h) = sync-Keeps w t r c in
    (λ e. (f e, p ∙ e), λ e. (g e, q ∙ e), λ e. (h e, s ∙ e))

change_queues :
    (weight : WeightUnit) (temp : TempUnit) (water : WaterSource) (c : Coordinator)
    → let changed = (handle_unit_options_change weight temp water c).0 in
      ((weight ≢ c.weight_unit)
        → (changed.weight_unit ≡ weight) × (changed.pending_weight_unit ≡ true))
      × ((temp ≢ c.temp_unit) → (changed.temp_unit ≡ temp) × (changed.pending_temp_unit ≡ true))
      × ((water ≢ c.water_source)
          → (changed.water_source ≡ water) × (changed.pending_water_source ≡ true))
unfolding handle_unit_options_change
change_queues weight temp water c = ground arith

change_keeps :
    (weight : WeightUnit) (temp : TempUnit) (water : WaterSource) (c : Coordinator)
    → let changed = (handle_unit_options_change weight temp water c).0 in
      (c.pending_weight_unit ≡ true → changed.pending_weight_unit ≡ true)
      × (c.pending_temp_unit ≡ true → changed.pending_temp_unit ≡ true)
      × (c.pending_water_source ≡ true → changed.pending_water_source ≡ true)
unfolding handle_unit_options_change
change_keeps weight temp water c = ground arith

kept_and_set {ℓ} :
    {A : Type ℓ} {kept set wanted : A} {p q : Bool}
    → (kept ≡ set) × (p ≡ true)
    → (set ≡ wanted) × (q ≡ true)
    → (kept ≡ wanted) × (p ≡ true)
kept_and_set (e, h) (f, _) = (e ∙ f, h)

-- A change of the options is not undone by a report that arrives before it has been pushed: whatever
-- the report says, every unit that the user has changed keeps the user's value and stays queued, and
-- what was queued before stays queued.
pub change-sync :
    (weight : WeightUnit) (temp : TempUnit) (water : WaterSource) (w t r : ℕ) (c : Coordinator)
    → let changed = (handle_unit_options_change weight temp water c).0 in
      let synced = (sync_units_from_machine w t r changed).0 in
      ((weight ≢ c.weight_unit)
        → (synced.weight_unit ≡ weight) × (synced.pending_weight_unit ≡ true))
      × ((temp ≢ c.temp_unit) → (synced.temp_unit ≡ temp) × (synced.pending_temp_unit ≡ true))
      × ((water ≢ c.water_source)
          → (synced.water_source ≡ water) × (synced.pending_water_source ≡ true))
      × (c.pending_weight_unit ≡ true → synced.pending_weight_unit ≡ true)
      × (c.pending_temp_unit ≡ true → synced.pending_temp_unit ≡ true)
      × (c.pending_water_source ≡ true → synced.pending_water_source ≡ true)
change-sync weight temp water w t r c =
    let changed = (handle_unit_options_change weight temp water c).0 in
    let (kept, kept_temp, kept_water) = sync_keeps w t r changed in
    let (set, set_temp, set_water) = change_queues weight temp water c in
    let (old, old_temp, old_water) = change_keeps weight temp water c in
    (
      λ n. kept_and_set (kept (set n).1) (set n),
      λ n. kept_and_set (kept_temp (set_temp n).1) (set_temp n),
      λ n. kept_and_set (kept_water (set_water n).1) (set_water n),
      λ e. (kept (old e)).1,
      λ e. (kept_temp (old_temp e)).1,
      λ e. (kept_water (old_water e)).1,
    )

-- With nothing queued, the machine's known values are adopted, each unknown one leaves its setting as
-- it was, and nothing is queued by it.
pub sync_adopts :
    (weight : WeightUnit) (temp : TempUnit) (water : WaterSource) (c : Coordinator)
    → c.pending_weight_unit ≡ false
    → c.pending_temp_unit ≡ false
    → c.pending_water_source ≡ false
    → let synced =
        (sync_units_from_machine
          (weight_unit_code weight)
          (temp_unit_code temp)
          (water_source_code water)
          c).0 in
      (synced.weight_unit ≡ weight)
      × (synced.temp_unit ≡ temp)
      × (synced.water_source ≡ water)
      × (synced.pending_weight_unit ≡ false)
      × (synced.pending_temp_unit ≡ false)
      × (synced.pending_water_source ≡ false)
unfolding sync_units_from_machine adopt_weight_unit adopt_temp_unit adopt_water_source
    raw_to_weight_unit raw_to_temp_unit raw_to_water_source
sync_adopts weight temp water c p q r = ground arith
