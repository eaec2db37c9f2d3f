-- ===== src/Coordinator/Units/Echo.antt =====
-- A push of the queued settings to a machine that echoes every command.
use hacs_xbloom.Coordinator.Units.Queue.{idle-push_key}
use hacs_xbloom.Ble.Constants.{Command}
use hacs_xbloom.Ble.Framing.Build.{build_packet_lem}
use hacs_xbloom.Ble.Framing.{build_packet}
use hacs_xbloom.Bytes.{Bytes}
use hacs_xbloom.Prelude.{
  ◌∷◌, Bool, ℕ, ◌≡◌, false, true, ◌==◌, ◌||◌, refl, Bool-cases, arith, List, inl, ◌++◌, ◌<◌, [],
  if◌then◌else◌, inr, some, suc, length, zero, sym, append-nil, ◌&&◌, ◌∙◌, not, ap, append_assoc,
}
use hacs_xbloom.Coordinator.{Coordinator}
use hacs_xbloom.Coordinator.Units.{
  apply_unit_preferences, push_key, send_unit_command, UnitKey, Push, is_pending, unit_value,
  weight_key, temp_key, water_key, resends, unit_command, discard, send_setting,
  return_machine_home,
}
use hacs_xbloom.Coordinator.Operations.Sends.{codes, codes-snoc, packet_of}
use hacs_xbloom.Brewing.Link.{Line, Sent, acked, done, default_device_id}

-- What is queued goes out in one packet.
abbrev pub queued : Bool → ℕ → List ℕ
queued true command = command ∷ []
queued false command = []

abbrev same_key : UnitKey → UnitKey → Bool
same_key weight_key weight_key = true
same_key temp_key temp_key = true
same_key water_key water_key = true
same_key _ _ = false

-- The settings carry one small number.
unit_value-lt : (key : UnitKey) (c : Coordinator) → unit_value key c < 4294967296
unit_value-lt key c = ground arith

unit_command-lt : (key : UnitKey) → unit_command key < 65536
unit_command-lt key = ground arith

-- If the machine echoes every command and nothing else happens meanwhile, one round sends its
-- setting exactly if it is queued, and takes it from the queue.
abbrev Sends : UnitKey → Push → Push → Type 0
Sends key p q =
    (q.stopped ≡ false)
    × (q.sent ≡ (p.sent || is_pending key p.coordinator))
    × (codes q.log ≡ codes p.log ++ queued (is_pending key p.coordinator) (unit_command key))
    × ((other : UnitKey)
        → is_pending other q.coordinator
          ≡ (if same_key key other then false else is_pending other p.coordinator))

-- The three rounds together.
Sends-all :
    (start first second third : Push)
    → start.sent ≡ false
    → Sends weight_key start first
    → Sends temp_key first second
    → Sends water_key second third
    → (third.sent ≡ (
        start.coordinator.pending_weight_unit
        || (start.coordinator.pending_temp_unit || start.coordinator.pending_water_source)))
      × (codes third.log
          ≡ codes start.log
            ++ queued start.coordinator.pending_weight_unit 8005
            ++ queued start.coordinator.pending_temp_unit 8010
            ++ queued start.coordinator.pending_water_source 4508)
Sends-all start first second third unsent (_, sent1, log1, left1) (_, sent2, log2, left2)
      (_, sent3, log3, left3) =
    let temp = left1 temp_key in
    let water = left2 water_key ∙ left1 water_key in
    (
      rw (sent3, sent2, sent1, water, temp, unsent)
          (or_assoc start.coordinator.pending_weight_unit start.coordinator.pending_temp_unit
            start.coordinator.pending_water_source),
      rw (log3, log2, log1, water, temp) refl,
    )
  where
    or_assoc : (a b c : Bool) → ((a || b) || c) ≡ (a || (b || c))
    or_assoc true b c = refl
    or_assoc false b c = refl

append4 : (a b c d e : List ℕ) → ((((a ++ b) ++ c) ++ d) ++ e) ≡ (a ++ (b ++ (c ++ (d ++ e))))
append4 a b c d e =
    append_assoc ((a ++ b) ++ c) d e
    ∙ append_assoc (a ++ b) c (d ++ e)
    ∙ append_assoc a b (c ++ (d ++ e))

module _ (line : Line) (asleep : UnitKey → Bool) (echoes : (n : ℕ) → line.reply n ≡ acked) where
  abbrev calm : UnitKey → Coordinator → Coordinator
  calm key c = c

  send_setting-acked :
      (command : ℕ) (values : List ℕ) (packet : Bytes) (s : Sent)
      → build_packet command values 1 default_device_id ≡ some packet
      → send_setting line asleep calm command values s ≡ (done tt, s ++ (command, packet) ∷ [])
  send_setting-acked command values packet s built = simp (built, echoes (length s)) refl

  send_unit_command-acked :
      (n command value : ℕ) (packet : Bytes) (s : Sent)
      → build_packet command (value ∷ []) 1 default_device_id ≡ some packet
      → send_unit_command line asleep calm n command value s
        ≡ (done tt, s ++ (command, packet) ∷ [])
  unfolding send_unit_command
  send_unit_command-acked zero command value packet s built =
      send_setting-acked command (value ∷ []) packet s built
  send_unit_command-acked (suc n) command value packet s built =
      simp (send_setting-acked command (value ∷ []) packet s built) refl

  discard-pending :
      (key other : UnitKey) (c : Coordinator)
      → is_pending other (discard key c)
        ≡ (if same_key key other then false else is_pending other c)
  discard-pending key other c = ground arith

  idle-pending :
      (key other : UnitKey) (c : Coordinator)
      → is_pending key c ≡ false
      → is_pending other c ≡ (if same_key key other then false else is_pending other c)
  idle-pending key other c idle = ground arith

  equal : (n : ℕ) → (n == n) ≡ true
  equal n = grind arith

  or_false : (b : Bool) → (b || false) ≡ b
  or_false true = refl
  or_false false = refl

  push_key-acked :
      (key : UnitKey) (p : Push) (packet : Bytes)
      → p.stopped ≡ false
      → is_pending key p.coordinator ≡ true
      → build_packet (unit_command key) (unit_value key p.coordinator ∷ []) 1 default_device_id
        ≡ some packet
      → push_key line asleep calm key p ≡ record {
        coordinator = discard key p.coordinator;
        log = p.log ++ (unit_command key, packet) ∷ [];
        sent = p.sent || true;
        stopped = false;
      }
  unfolding push_key
  push_key-acked key p packet on pending built =
      simp
        (
          on,
          pending,
          send_unit_command-acked (resends (asleep key)) (unit_command key)
              (unit_value key p.coordinator) packet p.log built,
          equal (unit_value key p.coordinator),
        )
        refl

  push_key-Sends :
      (key : UnitKey) (p : Push) → p.stopped ≡ false → Sends key p (push_key line asleep calm key p)
  push_key-Sends key p on = elim (Bool-cases (is_pending key p.coordinator)) [
    | inl pending ↦
        let (packet, built, _, _, _) =
          build_packet_lem (unit_command key) (unit_value key p.coordinator ∷ []) 1
            default_device_id (unit_command-lt key) (omega arith) (omega arith) (omega arith)
            (unit_value-lt key p.coordinator, tt) in
        simp (push_key-acked key p packet on pending built, pending)
          (
            refl,
            refl,
            codes-snoc p.log (unit_command key) packet,
            λ other. discard-pending key other p.coordinator,
          )
    | inr idle ↦ rw (idle-push_key line asleep calm key p idle) (
      on,
      rw idle (sym (or_false p.sent)),
      rw idle (sym (append-nil (codes p.log))),
      λ other. idle-pending key other p.coordinator idle,
    )
  ]

  return_home-codes :
      (s : Sent) → codes (return_machine_home line asleep calm s) ≡ codes s ++ 8022 ∷ []
  unfolding return_machine_home
  return_home-codes s =
      let (packet, built) = packet_of Command.back_to_home [] (omega arith, tt) in
      ap (λ r. codes r.1) (send_setting-acked 8022 [] packet s built) ∙ codes-snoc s 8022 packet

  -- The end of a push: the way home if anything went out.
  ending :
      (p : Push) (sent : Bool)
      → p.stopped ≡ false
      → p.sent ≡ sent
      → codes
          (if◌then◌else◌ {A = Coordinator × Sent}
            (p.sent && not p.stopped)
            (p.coordinator, return_machine_home line asleep calm p.log)
            (p.coordinator, p.log)).1
        ≡ codes p.log ++ queued sent 8022
  ending p true on e = simp (on, e) (return_home-codes p.log)
  ending p false on e = simp (on, e) (sym (append-nil (codes p.log)))

  -- When every command is echoed and nothing else happens meanwhile, a push sends each queued setting once, in
  -- the order weight, temperature, water, and then, if anything was sent, the command to return home.
  pub apply-codes :
      (c : Coordinator) (s : Sent)
      → codes (apply_unit_preferences line asleep (λ key d. d) c s).1
        ≡ codes s
          ++ (queued c.pending_weight_unit 8005
              ++ (queued c.pending_temp_unit 8010
                  ++ (queued c.pending_water_source 4508
                      ++ queued
                          (c.pending_weight_unit || (c.pending_temp_unit || c.pending_water_source))
                          8022)))
  unfolding apply_unit_preferences
  apply-codes c s =
      let start : Push = record { coordinator = c; log = s; sent = false; stopped = false } in
      let first = push_key line asleep calm weight_key start in
      let second = push_key line asleep calm temp_key first in
      let third = push_key line asleep calm water_key second in
      let sends1 = push_key-Sends weight_key start refl in
      let sends2 = push_key-Sends temp_key first sends1.0 in
      let sends3 = push_key-Sends water_key second sends2.0 in
      let (sent, log) = Sends-all start first second third refl sends1 sends2 sends3 in
      ending third (c.pending_weight_unit || (c.pending_temp_unit || c.pending_water_source))
        sends3.0 sent
      ∙ ap
          (λ l.
            l
            ++ queued (c.pending_weight_unit || (c.pending_temp_unit || c.pending_water_source))
                8022)
          log
      ∙ append4 (codes s) (queued c.pending_weight_unit 8005) (queued c.pending_temp_unit 8010)
          (queued c.pending_water_source 4508) _
