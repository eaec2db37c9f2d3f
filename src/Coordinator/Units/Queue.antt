-- ===== src/Coordinator/Units/Queue.antt =====
-- What a push of the queued settings sends and leaves queued.
use hacs_xbloom.Prelude.{
  Bool, ℕ, ◌≡◌, false, true, ◌==◌, ◌≢◌, ◌||◌, refl, Bool-cases, arith, inl, inr,
}
use hacs_xbloom.Coordinator.{Coordinator}
use hacs_xbloom.Coordinator.Units.{
  apply_unit_preferences, push_key, send_unit_command, UnitKey, Push, is_pending, unit_value,
  pushed, weight_key, temp_key, water_key, resends, unit_command,
}
use hacs_xbloom.Brewing.Link.{Line, Sent, Outcome, done, failed, ack_timeout}

module _ (line : Line) (asleep : UnitKey → Bool)
    (meanwhile : UnitKey → Coordinator → Coordinator) where
  or_true : (b : Bool) → (b || true) ≡ true
  or_true true = refl
  or_true false = refl

  -- A setting that is not queued is not sent, and stays as it is.
  pub idle-push_key :
      (key : UnitKey) (p : Push)
      → is_pending key p.coordinator ≡ false
      → push_key line asleep meanwhile key p ≡ p
  unfolding push_key
  idle-push_key key p idle = simp (idle, or_true p.stopped) refl

  pushed-lost :
      (key : UnitKey) (value : ℕ) (r : Outcome {0} Unit × Sent) (c : Coordinator)
      → is_pending key c ≡ true
      → (unit_value key c == value) ≡ false
      → is_pending key (pushed line asleep meanwhile key value r c).coordinator ≡ true
  pushed-lost key value (done a, s) c waiting newer = simp newer waiting
  pushed-lost key value (failed ack_timeout, s) c waiting newer = simp newer waiting
  pushed-lost key value (failed f, s) c waiting newer = waiting

  differ : {a b : ℕ} → a ≢ b → (a == b) ≡ false
  differ h = grind arith

  -- A queued setting that is queued again with another value while its command is on the way stays
  -- queued, whatever becomes of the command.
  pub push_key-newer :
      (key : UnitKey) (p : Push)
      → is_pending key p.coordinator ≡ true
      → is_pending key (meanwhile key p.coordinator) ≡ true
      → unit_value key (meanwhile key p.coordinator) ≢ unit_value key p.coordinator
      → is_pending key (push_key line asleep meanwhile key p).coordinator ≡ true
  unfolding push_key
  push_key-newer key p pending waiting newer = elim (Bool-cases p.stopped) [
    | inl stopped ↦ simp stopped pending
    | inr on ↦
        simp (on, pending)
          (pushed-lost key (unit_value key p.coordinator)
            (send_unit_command line asleep meanwhile (resends (asleep key)) (unit_command key)
              (unit_value key p.coordinator) p.log)
            (meanwhile key p.coordinator) waiting (differ newer))
  ]

-- Nothing queued: nothing is sent, and nothing changes.
pub apply-idle :
    (line : Line) (asleep : UnitKey → Bool) (meanwhile : UnitKey → Coordinator → Coordinator)
    (c : Coordinator) (s : Sent)
    → ((key : UnitKey) → is_pending key c ≡ false)
    → apply_unit_preferences line asleep meanwhile c s ≡ (c, s)
unfolding apply_unit_preferences
apply-idle line asleep meanwhile c s idle =
    let start : Push = record { coordinator = c; log = s; sent = false; stopped = false } in
    rw
      (
        idle-push_key line asleep meanwhile weight_key start (idle weight_key),
        idle-push_key line asleep meanwhile temp_key start (idle temp_key),
        idle-push_key line asleep meanwhile water_key start (idle water_key),
      )
      refl
