-- ===== src/Coordinator/Connection/Backoff.antt =====
-- How long the supervisor waits after failed connects.
use hacs_xbloom.Prelude.{
  ◌∷◌, List, ℕ, Bool, false, ◌≤◌, [], suc, ◌≡◌, min, ◌++◌, if◌then◌else◌, ◌*◌, ◌||◌, ltb, ◌+◌,
  length, arith, refl, ◌-◌, ◌^◌, zero, true, ◌∙◌, ap, none, ◌<◌, some,
}
use hacs_xbloom.Coordinator.{Coordinator, reconnect}
use hacs_xbloom.Coordinator.Connection.{
  backoff_delay, async_connect, maybe_schedule_reconnect, backoff_base, backoff_max, capped_delay,
  connect_failed, note_connect_failure,
}

-- A failed connect at each of these times, the link being down.
unfoldable pub after_failures : List ℕ → Coordinator → Coordinator
unfolding async_connect
after_failures [] c = c
after_failures (now ∷ later) c = after_failures later (async_connect now false c).0

power_positive : (n : ℕ) → 1 ≤ 2 ^ n
power_positive zero = omega arith
power_positive (suc n) = omega (arith, power_positive n)

power_suc : (n : ℕ) → 2 ^ suc n ≡ 2 * 2 ^ n
power_suc n = omega arith

before_suc : (n : ℕ) → suc n - 1 ≡ n
before_suc n = omega arith

-- After any number of failures in a row the delay is between the base and the maximum, and the next
-- one is twice as long, up to the maximum.
pub capped_delay_bounds :
    (failures : ℕ)
    → (backoff_base ≤ capped_delay (suc failures))
      × (capped_delay (suc failures) ≤ backoff_max)
      × (capped_delay (suc (suc failures)) ≡ min (2 * capped_delay (suc failures)) backoff_max)
capped_delay_bounds failures = ground (
  arith,
  power_positive failures,
  power_suc failures,
  before_suc failures,
  before_suc (suc failures),
)

delay-below : (n : ℕ) → n < 1024 → backoff_delay (n + 1) ≡ some (capped_delay (n + 1))
unfolding backoff_delay
delay-below n h = ground arith

delay-above : (n : ℕ) → 1024 ≤ n → backoff_delay (n + 1) ≡ none
unfolding backoff_delay
delay-above n h = ground arith

failed-connect :
    (now : ℕ) (c : Coordinator)
    → c.linked ≡ false
    → c.reconnect_failures < 1024
    → ((async_connect now false c).0.linked ≡ false)
      × ((async_connect now false c).0.reconnect_failures ≡ c.reconnect_failures + 1)
      × ((async_connect now false c).0.manual_disconnect ≡ false)
      × ((async_connect now false c).0.idle_disconnected ≡ false)
      × ((async_connect now false c).0.reconnect_blocked_until
          ≡ now + capped_delay (c.reconnect_failures + 1))
unfolding async_connect connect_failed note_connect_failure
failed-connect now c offline few =
    rw (offline, delay-below c.reconnect_failures few) (refl, refl, refl, refl, refl)

overflowed-connect :
    (now : ℕ) (c : Coordinator)
    → c.linked ≡ false
    → 1024 ≤ c.reconnect_failures
    → ((async_connect now false c).0.linked ≡ false)
      × (1024 ≤ (async_connect now false c).0.reconnect_failures)
      × ((async_connect now false c).0.manual_disconnect ≡ false)
      × ((async_connect now false c).0.idle_disconnected ≡ false)
      × ((async_connect now false c).0.reconnect_blocked_until ≡ c.reconnect_blocked_until)
unfolding async_connect connect_failed note_connect_failure
overflowed-connect now c offline many =
    rw
      (
        offline,
        delay-above c.reconnect_failures many,
        delay-above (c.reconnect_failures + 1) (omega (arith, many)),
      )
      (refl, omega (arith, many), refl, refl, refl)

supervisor_blocked :
    (now : ℕ) (locked : Bool) (c : Coordinator) (until : ℕ)
    → c.manual_disconnect ≡ false
    → c.idle_disconnected ≡ false
    → c.reconnect_blocked_until ≡ until
    → maybe_schedule_reconnect now locked c
      ≡ (if locked || ltb now until then [] else reconnect ∷ [])
unfolding maybe_schedule_reconnect
supervisor_blocked now true c until manual idle blocked = simp (manual, idle) refl
supervisor_blocked now false c until manual idle blocked = simp (manual, idle, blocked) refl

-- Up to the 1024th consecutive failure, the last failed connect decides when the supervisor tries
-- again: not before its time and the delay for the number of failures so far (5 seconds, doubled with
-- each failure, at most 300), and at every poll from then on unless a connect is in flight.
pub after_failures-supervisor :
    (before : List ℕ) (last now : ℕ) (locked : Bool) (c : Coordinator)
    → c.linked ≡ false
    → c.reconnect_failures + length before < 1024
    → maybe_schedule_reconnect now locked (after_failures (before ++ last ∷ []) c) ≡ (
        if locked || ltb now (last + capped_delay (c.reconnect_failures + length before + 1))
        then []
        else reconnect ∷ [])
unfolding after_failures maybe_schedule_reconnect
after_failures-supervisor [] last now locked c offline few =
    let (_, _, manual, idle, until) = failed-connect last c offline (omega (arith, few)) in
    supervisor_blocked now locked (async_connect last false c).0 _ manual idle
      (until ∙ ap (λ n. last + capped_delay n) (omega arith))
after_failures-supervisor (t ∷ before) last now locked c offline few =
    let (down, failures, _, _, _) = failed-connect t c offline (omega (arith, few)) in
    after_failures-supervisor before last now locked (async_connect t false c).0 down
      (omega (arith, failures, few))
    ∙ ap (λ n. if locked || ltb now (last + capped_delay n) then [] else reconnect ∷ [])
        (omega (arith, failures))

-- With the link down after 1024 consecutive failures or more, no further failure arms the delay: once
-- the delay armed last is over, the supervisor tries again at every poll with no connect in flight,
-- however many more connects fail.
pub overflowed-supervisor :
    (first : ℕ) (later : List ℕ) (now : ℕ) (c : Coordinator)
    → c.linked ≡ false
    → 1024 ≤ c.reconnect_failures
    → c.reconnect_blocked_until ≤ now
    → maybe_schedule_reconnect now false (after_failures (first ∷ later) c) ≡ reconnect ∷ []
unfolding after_failures maybe_schedule_reconnect
overflowed-supervisor first [] now c offline many passed =
    let (_, _, manual, idle, until) = overflowed-connect first c offline many in
    supervisor_blocked now false (async_connect first false c).0 _ manual idle until
    ∙ ground (arith, passed)
overflowed-supervisor first (t ∷ later) now c offline many passed =
    let (down, still, _, _, until) = overflowed-connect first c offline many in
    overflowed-supervisor t later now (async_connect first false c).0 down still
      (omega (arith, until, passed))
