-- ===== src/Coordinator/System/Tests.antt =====
-- A notification and a poll, one after the other.
use hacs_xbloom.Prelude.{
  ◌∷◌, some, refl, List, [], arith, false, true, ℕ, ◌≡◌, Bool, Option, ltb, ◌-◌, ◌||◌,
}
use hacs_xbloom.Prelude.Int.{ℤ, pos}
use hacs_xbloom.Bytes.{Bytes}
use hacs_xbloom.Ble.Client.{Client, Event, fresh_client}
use hacs_xbloom.Ble.Client.Notify.Returns.{on_notification-returns}
use hacs_xbloom.Ble.Client.Response.Text.{IsText}
use hacs_xbloom.Ble.Framing.{scan_at}
use hacs_xbloom.Ble.Framing.Long.{HasLongFrames}
use hacs_xbloom.Coordinator.{Coordinator, fresh_coordinator}
use hacs_xbloom.Coordinator.System.{
  Happening, notified, polled, happen_all, happen_all-IsSoundWorld, dispatch_all, IsSoundWorld,
}
use hacs_xbloom.Coordinator.Tick.{async_update_data}

abbrev is_far : ℕ → ℕ → Bool
is_far a b = ltb 300 (a - b) || ltb 300 (b - a)

-- Every float32 reads as 0 here.
abbrev to_int : ℕ → Option ℤ
to_int bits = some (pos 0)

-- A knob of the grinder: its size, raw 85.
abbrev size_frame : Bytes
size_frame =
    0x58 ∷ 0x02 ∷ 0x01 ∷ 0x4e ∷ 0x9e ∷ 0x10 ∷ 0 ∷ 0 ∷ 0 ∷ 0xc1 ∷ 85 ∷ 0 ∷ 0 ∷ 0 ∷ 0xaa ∷ 0xbb ∷ []

size_frame-HasLongFrames : HasLongFrames size_frame
unfolding scan_at
size_frame-HasLongFrames = ground arith

abbrev heard_frame : Client × List Event
heard_frame =
    (on_notification-returns is_far to_int size_frame fresh_client size_frame-HasLongFrames).0

abbrev linked : Coordinator
linked = record fresh_coordinator { linked = true }

abbrev happenings : List Happening
happenings = notified size_frame (λ n. some fresh_client) ∷ polled 1000 0 false ∷ []

abbrev final : Client × Coordinator
final = (
  heard_frame.0,
  (async_update_data (λ w. w) 1000 0 false heard_frame.0
      (dispatch_all (λ n. some fresh_client) 0 heard_frame.1 linked)).1,
)

happened_test : happen_all is_far to_int (λ w. w) happenings (fresh_client, linked) ≡ some final
unfolding happen_all
happened_test =
    let (r, e) =
      on_notification-returns is_far to_int size_frame fresh_client size_frame-HasLongFrames in
    rw e refl

fresh-IsSoundWorld : IsSoundWorld is_far to_int (λ w. w) (fresh_client, linked)
fresh-IsSoundWorld =
    let empty : IsText [] = record { ascii = tt; left = refl; right = refl } in
    (
      (tt, empty, empty, tt, omega arith),
      (
        tt,
        (omega arith, omega arith, omega arith, omega arith, omega arith, omega arith, omega arith),
      ),
    )

happen_all-IsSoundWorld_example : IsSoundWorld is_far to_int (λ w. w) final
happen_all-IsSoundWorld_example =
    happen_all-IsSoundWorld is_far to_int (λ w. w) happenings (fresh_client, linked) happened_test
      fresh-IsSoundWorld
