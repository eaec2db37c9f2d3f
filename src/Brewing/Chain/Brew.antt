-- ===== src/Brewing/Chain/Brew.antt =====
-- The single-shot coffee brew: when the execute command is sent, and when the brew goes through.
use hacs_xbloom.Brewing.Chain.Start.{HasStart, verify_brew_started_iff}
use hacs_xbloom.Ble.Framing.Build.{build_packet_lem}
use hacs_xbloom.Ble.Framing.{build_packet}
use hacs_xbloom.Brewing.Link.Steps.{AreBuilt, AreAcked, ask_all-done}
use hacs_xbloom.Brewing.Chain.Coffee.{IsArming, arm_coffee-IsArming, coffee_requests, arm-built}
use hacs_xbloom.Brewing.Payload.{build_coffee_recipe_payload}
use hacs_xbloom.Bytes.{Bytes}
use hacs_xbloom.Ble.Models.{Recipe}
use hacs_xbloom.Prelude.{
  some, All, ℕ, ◌∷◌, ◌≡◌, arith, true, ◌++◌, [], inl, none, refl, inr, ◌≢◌, ◌⊎◌, length, ◌∙◌,
}
use hacs_xbloom.Brewing.Link.{
  Outcome, Line, done, failed, Sent, Action, send_command, ◌>>◌, ◌>>=◌, continue, give, Reply,
  not_connected, down, acked, silent,
}
use hacs_xbloom.Ble.Client.{StateLabel}
use hacs_xbloom.Brewing.Chain.{
  poll_start, verify_brew_started, brew_coffee, execute_coffee_recipe, arm_coffee,
}

abbrev pub HasCommand : ℕ → Sent → Type 0
HasCommand command [] = ⊥
HasCommand command (p ∷ ps) = (p.0 ≡ command) ⊎ HasCommand command ps

HasCommand-never :
    (command : ℕ) (sent : Sent) → All (λ p. p.0 ≢ command) sent → ¬ (HasCommand command sent)
HasCommand-never command [] h sent = sent
HasCommand-never command (p ∷ ps) (h, hs) (inl here) = h here
HasCommand-never command (p ∷ ps) (h, hs) (inr later) = HasCommand-never command ps hs later

execute_packet : (p : Bytes) × (build_packet 8002 [] 1 1 ≡ some p)
execute_packet =
    let (p, e, _, _, _) =
      build_packet_lem 8002 [] 1 1 (omega arith) (omega arith) (omega arith) (omega arith) tt in
    (p, e)

-- the verdict on the start sends nothing
verdict_log :
    (o : Outcome StateLabel) (s : Sent) → (continue {B = Unit {0}} (o, s) (λ _. give tt)).1 ≡ s
verdict_log (done label) s = refl
verdict_log (failed f) s = refl

-- The execute command is logged, or the link is down.
execute-cases :
    (line : Line) (f32 : ℕ → ℕ) (s : Sent)
    → (execute_coffee_recipe line f32 s ≡ (failed not_connected, s))
      ⊎ ((p : Bytes) × (execute_coffee_recipe line f32 s ≡ (done tt, s ++ (8002, p) ∷ [])))
unfolding execute_coffee_recipe send_command
execute-cases line f32 s = go (line.reply (length s)) refl
  where
    go :
        (r : Reply)
        → line.reply (length s) ≡ r
        → (execute_coffee_recipe line f32 s ≡ (failed not_connected, s))
          ⊎ ((p : Bytes) × (execute_coffee_recipe line f32 s ≡ (done tt, s ++ (8002, p) ∷ [])))
    go down e = inl (rw e refl)
    go acked e = inr (execute_packet.0, rw (e, execute_packet.1) refl)
    go silent e = inr (execute_packet.0, rw (e, execute_packet.1) refl)

module _ (line : Line) (f32 : ℕ → ℕ) (recipe : Recipe) (volume temperature : ℕ) where
  -- The log of a brew that was set going.
  pub record IsCommitted (log : Sent) : Type 0 where
    pub payload : Bytes
    pub built : build_coffee_recipe_payload recipe ≡ some payload
    pub packets : Sent
    pub armed : AreBuilt (coffee_requests line f32 recipe volume temperature payload) packets
    pub echoed : AreAcked line 0 4
    pub execute : Bytes
    pub shape : log ≡ packets ++ (8002, execute) ∷ []

  abbrev start : Action
  start = do execute_coffee_recipe line f32; _ ← verify_brew_started line f32; give tt

  committed :
      (r : Outcome {0} Unit × Sent)
      → IsArming line f32 recipe volume temperature r
      → HasCommand 8002 (continue r (λ _. start)).1
      → IsCommitted (continue r (λ _. start)).1
  unfolding verify_brew_started
  committed (failed f, log) h sent = absurd (HasCommand-never 8002 log h.safe sent)
  committed (done a, log) h sent = elim (execute-cases line f32 log) [
    | inl offline ↦ let kept = rw offline at sent in absurd (HasCommand-never 8002 log h.safe kept)
    | inr (p, written) ↦
        let (payload, built, armed, echoed) = h.whole refl in
        rw written (record {
          payload = payload;
          built = built;
          packets = log;
          armed = armed;
          echoed = echoed;
          execute = p;
          shape = verdict_log (poll_start none line.polls) (log ++ (8002, p) ∷ []);
        })
  ]

  -- On a link with nothing sent yet, the execute command is sent only behind the whole chain for
  -- this recipe, in order and with its payload, each of whose four packets was echoed; and it is
  -- the last packet.
  pub brew_coffee-IsCommitted :
      HasCommand 8002 (brew_coffee line f32 recipe volume temperature []).1
      → IsCommitted (brew_coffee line f32 recipe volume temperature []).1
  unfolding brew_coffee
  brew_coffee-IsCommitted sent =
      committed (arm_coffee line f32 recipe volume temperature [])
        (arm_coffee-IsArming line f32 recipe volume temperature) sent

execute_up :
    (line : Line) (f32 : ℕ → ℕ) (s : Sent)
    → line.reply (length s) ≢ down
    → execute_coffee_recipe line f32 s ≡ (done tt, s ++ (8002, execute_packet.0) ∷ [])
unfolding execute_coffee_recipe send_command
execute_up line f32 s up = go (line.reply (length s)) refl
  where
    go :
        (r : Reply)
        → line.reply (length s) ≡ r
        → execute_coffee_recipe line f32 s ≡ (done tt, s ++ (8002, execute_packet.0) ∷ [])
    go down e = absurd (up e)
    go acked e = rw (e, execute_packet.1) refl
    go silent e = rw (e, execute_packet.1) refl

-- On a link that echoes the four steps of the arming and is then still up, with polls that show
-- the start, the brew goes through: the four packets are sent, and then the execute command.
pub brew_coffee-done :
    (line : Line) (f32 : ℕ → ℕ) (recipe : Recipe) (volume temperature : ℕ) (payload : Bytes)
    (packets : Sent) (label : StateLabel)
    → line.linked ≡ true
    → build_coffee_recipe_payload recipe ≡ some payload
    → AreBuilt (coffee_requests line f32 recipe volume temperature payload) packets
    → AreAcked line 0 4
    → line.reply (length packets) ≢ down
    → HasStart label line.polls
    → (execute : Bytes) × (brew_coffee line f32 recipe volume temperature []
        ≡ (done tt, packets ++ (8002, execute) ∷ []))
unfolding brew_coffee verify_brew_started
brew_coffee-done line f32 recipe volume temperature payload packets label up built made echoed still
      start =
    let armed =
      arm-built line f32 recipe volume temperature payload [] up built
      ∙ ask_all-done line (coffee_requests line f32 recipe volume temperature payload) packets []
          made echoed in
    let confirmed : poll_start none line.polls ≡ done label =
      (verify_brew_started_iff line f32 [] label).1 start in
    (execute_packet.0, rw (armed, execute_up line f32 packets still) (rw confirmed refl))
