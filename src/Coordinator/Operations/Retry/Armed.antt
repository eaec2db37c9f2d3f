-- ===== src/Coordinator/Operations/Retry/Armed.antt =====
-- Connecting, pushing units, waking the machine and retrying leave what is armed.
use hacs_xbloom.Prelude.{
  Bool, ℕ, ◌≡◌, Bool-cases, Option-cases, arith, inl, ◌+◌, ◌||◌, inr, not, refl, true, false,
  Option, ◌∙◌, ◌&&◌, if◌then◌else◌,
}
use hacs_xbloom.Coordinator.{Coordinator, Armed, is_none}
use hacs_xbloom.Coordinator.Connection.{
  async_connect, note_connect_failure, connect_failed, async_ensure_connected, backoff_delay,
  async_disconnect,
}
use hacs_xbloom.Coordinator.Units.{
  UnitKey, Push, weight_key, temp_key, water_key, pushed, push_key, apply_unit_preferences,
  is_pending, discard,
}
use hacs_xbloom.Coordinator.Operations.Retry.{Sleep, greet, wake_machine, retry_while_sleeping}
use hacs_xbloom.Brewing.Link.{Line, Sent, Chain, Outcome, done, failed}

either_keeps {ℓ} :
    {B : Type ℓ} (b : Bool) (x y : Coordinator × B) (armed : Option Armed)
    → x.0.armed_operation ≡ armed
    → y.0.armed_operation ≡ armed
    → (if b then x else y).0.armed_operation ≡ armed
either_keeps true x y armed h k = h
either_keeps false x y armed h k = k

note_keeps :
    (now : ℕ) (c : Coordinator) → (note_connect_failure now c).0.armed_operation ≡ c.armed_operation
unfolding note_connect_failure
note_keeps now c = elim (Option-cases (backoff_delay (c.reconnect_failures + 1))) [
  | inl e ↦ rw e refl
  | inr (delay, e) ↦ rw e refl
]

failed_keeps :
    (now : ℕ) (c : Coordinator) → (connect_failed now c).armed_operation ≡ c.armed_operation
unfolding connect_failed
failed_keeps now c = ground (arith, note_keeps now c, note_keeps now (note_connect_failure now c).0)

pub connect_keeps :
    (now : ℕ) (answered : Bool) (c : Coordinator)
    → (async_connect now answered c).0.armed_operation ≡ c.armed_operation
unfolding async_connect
connect_keeps now true c = ground arith
connect_keeps now false c = either_keeps c.linked _ _ c.armed_operation refl (
    failed_keeps now
      (record c { manual_disconnect = false; idle_disconnected = false; last_activity = now }))

pub ensure_keeps :
    (now : ℕ) (answered : Bool) (c : Coordinator)
    → (async_ensure_connected now answered c).0.armed_operation ≡ c.armed_operation
unfolding async_ensure_connected
ensure_keeps now answered c =
    ground (arith, connect_keeps now answered (record c { last_activity = now }))

module _ (line : Line) (asleep : UnitKey → Bool) where
  abbrev calm : UnitKey → Coordinator → Coordinator
  calm key c = c

  discard_keeps :
      (key : UnitKey) (c : Coordinator) → (discard key c).armed_operation ≡ c.armed_operation
  discard_keeps key c = ground arith

  pushed_keeps :
      (key : UnitKey) (value : ℕ) (r : Outcome {0} Unit × Sent) (c : Coordinator)
      → (pushed line asleep calm key value r c).coordinator.armed_operation ≡ c.armed_operation
  pushed_keeps key value (done _, s) c = ground (arith, discard_keeps key c)
  pushed_keeps key value (failed f, s) c = ground (arith, discard_keeps key c)

  push_keeps :
      (key : UnitKey) (p : Push)
      → (push_key line asleep calm key p).coordinator.armed_operation
        ≡ p.coordinator.armed_operation
  unfolding push_key
  push_keeps key p = elim (Bool-cases (p.stopped || not (is_pending key p.coordinator))) [
    | inl over ↦ rw over refl
    | inr on ↦ rw on (pushed_keeps key _ _ p.coordinator)
  ]

  apply_keeps :
      (c : Coordinator) (s : Sent)
      → (apply_unit_preferences line asleep calm c s).0.armed_operation ≡ c.armed_operation
  unfolding apply_unit_preferences
  apply_keeps c s =
      let start : Push = record { coordinator = c; log = s; sent = false; stopped = false } in
      let first = push_key line asleep calm weight_key start in
      let second = push_key line asleep calm temp_key first in
      let third = push_key line asleep calm water_key second in
      either_keeps (third.sent && not third.stopped) _ _ c.armed_operation (pushes_keep start)
        (pushes_keep start)
    where
      pushes_keep :
          (p : Push)
          → (push_key line asleep calm water_key (
              push_key line asleep calm temp_key
                (push_key line asleep calm weight_key p))).coordinator.armed_operation
            ≡ p.coordinator.armed_operation
      pushes_keep p =
          push_keeps water_key _
          ∙ push_keeps temp_key (push_key line asleep calm weight_key p)
          ∙ push_keeps weight_key p

greet_keeps :
    (line : Line) (sleep : Sleep) (c : Coordinator) (s : Sent)
    → (greet line sleep c s).0.armed_operation ≡ c.armed_operation
unfolding greet
greet_keeps line sleep c s =
    either_keeps (c.pending_weight_unit || (c.pending_temp_unit || c.pending_water_source)) _ _
      c.armed_operation (apply_keeps line sleep.asleep_at c _) refl

wake_keeps :
    (line : Line) (sleep : Sleep) (c : Coordinator) (s : Sent)
    → (wake_machine line sleep c s).0.armed_operation ≡ c.armed_operation
unfolding wake_machine async_disconnect
wake_keeps line sleep c s = either_keeps (c.linked && sleep.wakes) _ _ c.armed_operation refl (
    either_keeps (not (is_none c.armed_operation)) _ _ c.armed_operation refl (
      reconnected (async_connect sleep.now sleep.answered again) again.armed_operation _
        (connect_keeps sleep.now sleep.answered again)))
  where
    again : Coordinator
    again = record (async_disconnect c) { manual_disconnect = false }

    reconnected :
        (r : Coordinator × Bool) (armed : Option Armed) (t : Sent)
        → r.0.armed_operation ≡ armed
        → (if r.1 then greet line sleep r.0 t else (r.0, t)).0.armed_operation ≡ armed
    reconnected (d, true) armed t h = greet_keeps line sleep d t ∙ h
    reconnected (d, false) armed t h = h

pub retry_keeps {ℓ} :
    {A : Type ℓ} (line : Line) (sleep : Sleep) (action : Chain A) (c : Coordinator) (s : Sent)
    → (retry_while_sleeping line sleep action c s).0.armed_operation ≡ c.armed_operation
unfolding retry_while_sleeping
retry_keeps line sleep action c s =
    either_keeps sleep.asleep _ _ c.armed_operation (wake_keeps line sleep c s) refl
