-- ===== src/Coordinator/Operations/TwoStage.antt =====
-- The two presses of a button: the first arms, the second starts.
use hacs_xbloom.Coordinator.Operations.Retry.Armed.{ensure_keeps, retry_keeps}
use hacs_xbloom.Ble.Constants.{Command}
use hacs_xbloom.Prelude.Int.{ℤ}
use hacs_xbloom.Coordinator.Connection.{async_ensure_connected, note_activity}
use hacs_xbloom.Prelude.{
  ◌∷◌, ℕ, ◌≡◌, arith, if◌then◌else◌, true, false, none, some, ◌≤◌, ◌++◌, [], Bool, refl, ◌∙◌,
  Bool-cases, inl, inr, ap,
}
use hacs_xbloom.Coordinator.{Coordinator, Armed, Operation}
use hacs_xbloom.Coordinator.Operations.{
  async_arm_grind, async_confirm_grind, async_arm_pour, async_confirm_pour, Answer, armed_grind,
  armed_pour, when_connected, disarm, succeeded,
}
use hacs_xbloom.Coordinator.Operations.Sends.{IsUp, codes, send_command-Adds}
use hacs_xbloom.Coordinator.Operations.Retry.{Sleep, retry_while_sleeping}
use hacs_xbloom.Coordinator.Operations.Retry.Bounds.{retry-awake}
use hacs_xbloom.Coordinator.Operations.Grinder as Grinder
use hacs_xbloom.Coordinator.Operations.Brewer as Brewer
use hacs_xbloom.Brewing.Link.{Line, Sent, Outcome, failed, done}

choose-up {ℓ} : {A : Type ℓ} (b : Bool) (x y : A) → b ≡ true → (if b then x else y) ≡ x
choose-up true x y e = refl
choose-up false x y e = absurd (ground arith)

-- With the link up the gate only notes the activity.
ensure-up :
    (now : ℕ) (answered : Bool) (c : Coordinator)
    → c.linked ≡ true
    → async_ensure_connected now answered c ≡ (record c { last_activity = now }, true)
unfolding async_ensure_connected note_activity
ensure-up now answered c linked = choose-up c.linked _ _ linked

-- Armed if the answer is true, and as before if not.
abbrev Arms : Armed → Coordinator → Answer → Type 0
Arms armed c r = r.0.armed_operation ≡ (if r.1 then some armed else c.armed_operation)

when_connected-Arms :
    (sleep : Sleep) (armed : Armed) (c : Coordinator) (s : Sent) (k : Coordinator → Answer)
    → ((e : Coordinator) → e.armed_operation ≡ c.armed_operation → Arms armed c (k e))
    → Arms armed c (when_connected sleep c s k)
when_connected-Arms sleep armed c s k h =
    elim (Bool-cases (async_ensure_connected sleep.now sleep.answered c).1) [
      | inl up ↦ rw up (h _ (ensure_keeps sleep.now sleep.answered c))
      | inr offline ↦ rw offline (ensure_keeps sleep.now sleep.answered c)
    ]

module _ (line : Line) (f32 : ℤ → ℕ) (sleep : Sleep) where
  armed_grind-Arms :
      (r : Coordinator × Outcome {0} Unit × Sent) (c : Coordinator)
      → r.0.armed_operation ≡ c.armed_operation
      → Arms Armed.grind c (armed_grind line f32 sleep r)
  armed_grind-Arms (d, failed f, s) c e = e
  armed_grind-Arms (d, done a, s) c e = refl

  armed_pour-Arms :
      (r : Coordinator × Outcome {0} Unit × Sent) (c : Coordinator)
      → r.0.armed_operation ≡ c.armed_operation
      → Arms Armed.pour c (armed_pour line f32 sleep r)
  armed_pour-Arms (d, failed f, s) c e = e
  armed_pour-Arms (d, done a, s) c e = refl

  -- The first press answers true exactly if the page has been opened, and then the operation is
  -- armed; if it answers false, what was armed before is still armed.
  pub arm_answers :
      (c : Coordinator) (s : Sent)
      → Arms Armed.grind c (async_arm_grind line f32 sleep c s)
        × Arms Armed.pour c (async_arm_pour line f32 sleep c s)
  unfolding async_arm_grind async_arm_pour
  arm_answers c s = (
    when_connected-Arms sleep Armed.grind c s
        (λ e.
          armed_grind line f32 sleep
            (retry_while_sleeping line sleep (Grinder.enter_mode line e.grind_size e.rpm) e s))
        (λ e same.
          let open_page = Grinder.enter_mode line e.grind_size e.rpm in
          armed_grind-Arms (retry_while_sleeping line sleep open_page e s) c
            (retry_keeps line sleep open_page e s ∙ same)),
    when_connected-Arms sleep Armed.pour c s
        (λ e.
          armed_pour line f32 sleep (retry_while_sleeping line sleep (Brewer.enter_mode line) e s))
        (λ e same.
          let open_page = Brewer.enter_mode line in
          armed_pour-Arms (retry_while_sleeping line sleep open_page e s) c
            (retry_keeps line sleep open_page e s ∙ same)),
  )

  -- Over a link that is up the second press disarms, whether the start goes through or fails.
  pub confirm_disarms :
      (c : Coordinator) (s : Sent)
      → c.linked ≡ true
      → ((async_confirm_grind line f32 sleep c s).0.armed_operation ≡ none)
        × ((async_confirm_pour line f32 sleep c s).0.armed_operation ≡ none)
  unfolding async_confirm_grind async_confirm_pour async_ensure_connected
  confirm_disarms c s linked = simp linked (refl, refl)

  armed_done :
      (c : Coordinator) (r : Outcome {0} Unit × Sent)
      → r.0 ≡ done tt
      → armed_grind line f32 sleep (c, r.0, r.1)
        ≡ (record c { armed_operation = some Armed.grind }, true, r.1)
  armed_done c (done a, s) e = refl
  armed_done c (failed f, s) e = absurd (ground arith)

  started :
      (c : Coordinator) (r : Outcome {0} Unit × Sent)
      → r.0 ≡ done tt
      → let answer : Answer = (disarm line f32 sleep c, succeeded r.0, r.1) in
        answer ≡ (disarm line f32 sleep c, true, r.1)
  started c (done a, s) e = refl
  started c (failed f, s) e = absurd (ground arith)

  -- With the link up and the machine awake.
  module _ (up : IsUp line) (awake : sleep.asleep ≡ false) (still : sleep.sleeping 1 ≡ false) where
    arm-awake :
        (c : Coordinator) (s : Sent)
        → c.linked ≡ true
        → c.grind_size ≤ 80
        → c.rpm ≤ 120
        → async_arm_grind line f32 sleep c s ≡ (
          record c { last_activity = sleep.now; armed_operation = some Armed.grind },
          true,
          (Grinder.enter_mode line c.grind_size c.rpm s).1,
        )
    unfolding async_arm_grind Grinder.enter_mode
    arm-awake c s linked size rpm =
        let open_page = Grinder.enter_mode line c.grind_size c.rpm in
        let noted = record c { last_activity = sleep.now } in
        rw
          (
            ensure-up sleep.now sleep.answered c linked,
            retry-awake line sleep open_page noted s awake still,
          )
          (armed_done noted (open_page s)
            (send_command-Adds line Command.grinder_in (c.grind_size ∷ c.rpm ∷ []) up
              (omega arith, (omega arith, (omega arith, tt))) s).0)

    confirm-awake :
        (c : Coordinator) (s : Sent)
        → c.linked ≡ true
        → c.grind_size ≤ 80
        → c.rpm ≤ 120
        → async_confirm_grind line f32 sleep c s ≡ (
          record c {
            last_activity = sleep.now;
            active_operation = some Operation.manual_grind;
            armed_operation = none;
          },
          true,
          (Grinder.confirm_start line c.grind_size c.rpm s).1,
        )
    unfolding async_confirm_grind Grinder.confirm_start
    confirm-awake c s linked size rpm =
        let begin = Grinder.confirm_start line c.grind_size c.rpm in
        let running = record c {
          last_activity = sleep.now;
          active_operation = some Operation.manual_grind;
        } in
        rw
          (
            ensure-up sleep.now sleep.answered c linked,
            retry-awake line sleep begin running s awake still,
          )
          (started running (begin s)
            (send_command-Adds line Command.grinder_start (1000 ∷ c.grind_size ∷ c.rpm ∷ []) up
              (omega arith, (omega arith, (omega arith, (omega arith, tt)))) s).0)

    -- Over a link that is up, with the machine awake and a size and a speed in the range of their
    -- entities, the two presses for the grinder send its page and then its start and nothing else,
    -- the second answers yes, and they leave a manual grind running and nothing armed.
    pub grind-two_presses :
        (c : Coordinator) (s : Sent)
        → c.linked ≡ true
        → c.grind_size ≤ 80
        → c.rpm ≤ 120
        → let (armed, _, opened) = async_arm_grind line f32 sleep c s in
          let (running, started, log) = async_confirm_grind line f32 sleep armed opened in
          (started ≡ true)
          × (running.active_operation ≡ some Operation.manual_grind)
          × (running.armed_operation ≡ none)
          × (codes log ≡ (codes s ++ 8006 ∷ []) ++ 3500 ∷ [])
    unfolding Grinder.enter_mode Grinder.confirm_start
    grind-two_presses c s linked size rpm =
        let armed = record c { last_activity = sleep.now; armed_operation = some Armed.grind } in
        let opened = Grinder.enter_mode line c.grind_size c.rpm s in
        rw (arm-awake c s linked size rpm, confirm-awake armed opened.1 linked size rpm)
          (
            refl,
            refl,
            refl,
            (send_command-Adds line Command.grinder_start (1000 ∷ c.grind_size ∷ c.rpm ∷ []) up
                  (omega arith, (omega arith, (omega arith, (omega arith, tt)))) opened.1).1
                ∙ ap (λ l. l ++ 3500 ∷ [])
                    (send_command-Adds line Command.grinder_in (c.grind_size ∷ c.rpm ∷ []) up
                      (omega arith, (omega arith, (omega arith, tt))) s).1,
          )
