-- ===== src/Brewing/Chain/Batch.antt =====
-- Writing the Easy Mode slots: what a batch that goes through has sent, and a slot that is missing.
-- A link that goes down on the way leaves the slots sent so far.
use hacs_xbloom.Brewing.Link.Bind.{check-linked, check-unlinked}
use hacs_xbloom.Brewing.Payload.{slot_flags, is_grinding, build_coffee_recipe_payload}
use hacs_xbloom.Ble.Constants.{Command, command_code}
use hacs_xbloom.Ble.Framing.{build_packet_raw}
use hacs_xbloom.Brewing.Chain.{Slots, write_easy_slots, write_slot, write_present}
use hacs_xbloom.Ble.Models.{Recipe}
use hacs_xbloom.Brewing.Link.{
  send_command_raw, Line, Sent, done, Reply, down, acked, silent, Failure, Outcome, packed, Chain,
  failed, continue, missing_slots,
}
use hacs_xbloom.Bytes.{Bytes}
use hacs_xbloom.Prelude.{
  Bool, ℕ, ◌∷◌, ◌≡◌, [], some, ◌++◌, Option, length, sym, ap, none, refl, ◌⊎◌, ◌≢◌, arith, inl, inr,
  Bool-cases, ◌∙◌,
}

-- One slot's payload, given the recipe's.
abbrev pub slot_payload : Bool → ℕ → Recipe → Bytes → Bytes
slot_payload scale_on slot_index recipe blob =
    slot_index ∷ slot_flags scale_on (is_grinding recipe) ∷ blob

abbrev pub order_payload : Bytes
order_payload = 3 ∷ 0 ∷ 1 ∷ 2 ∷ []

-- The packet of type 2 that carries a payload.
abbrev pub IsType2 : ℕ → Bytes → ℕ × Bytes → Type 0
IsType2 command payload sent =
    (sent.0 ≡ command) × (build_packet_raw command payload 2 1 ≡ some sent.1)

-- The log of a batch: one packet for each slot, A, B and C, and the order.
pub record IsBatch (scale_on : Bool) (slots : Slots) (log : Sent) : Type 0 where
  pub recipe_a : Recipe
  pub recipe_b : Recipe
  pub recipe_c : Recipe
  pub blob_a : Bytes
  pub blob_b : Bytes
  pub blob_c : Bytes
  pub packet_a : ℕ × Bytes
  pub packet_b : ℕ × Bytes
  pub packet_c : ℕ × Bytes
  pub packet_order : ℕ × Bytes
  pub given_a : slots.slot_a ≡ some recipe_a
  pub given_b : slots.slot_b ≡ some recipe_b
  pub given_c : slots.slot_c ≡ some recipe_c
  pub built_a : build_coffee_recipe_payload recipe_a ≡ some blob_a
  pub built_b : build_coffee_recipe_payload recipe_b ≡ some blob_b
  pub built_c : build_coffee_recipe_payload recipe_c ≡ some blob_c
  pub sent_a : IsType2 11510 (slot_payload scale_on 0 recipe_a blob_a) packet_a
  pub sent_b : IsType2 11510 (slot_payload scale_on 1 recipe_b blob_b) packet_b
  pub sent_c : IsType2 11510 (slot_payload scale_on 2 recipe_c blob_c) packet_c
  pub ordered : IsType2 11512 order_payload packet_order
  pub shape : log ≡ packet_a ∷ packet_b ∷ packet_c ∷ packet_order ∷ []

failed-done {ℓ} :
    {A : Type ℓ} {a : A} {f : Failure} {s t : Sent}
    → ◌≢◌ {A = Outcome A × Sent} (failed f, s) (done a, t)
failed-done e = ground arith

value_of {ℓ} : {A : Type ℓ} → Outcome A → Option A
value_of (done a) = some a
value_of (failed f) = none

-- a chain that went through, cut behind its first part
continue-done {ℓ κ} :
    {A : Type ℓ} {B : Type κ} (r : Outcome A × Sent) (k : A → Chain B) {b : B} {t : Sent}
    → continue r k ≡ (done b, t)
    → (a : A) × (s : Sent) × (r ≡ (done a, s)) × (k a s ≡ (done b, t))
continue-done (done a, s) k e = (a, s, refl, e)
continue-done (failed f, s) k e = absurd (failed-done e)

packed-done :
    (o : Option Bytes) (a : Bytes) (s t : Sent) → packed o s ≡ (done a, t) → (o ≡ some a) × (t ≡ s)
unfolding value_of
packed-done none a s t e = absurd (failed-done e)
packed-done (some b) a s t e = (ap (λ r. value_of r.0) e, sym (ap (λ r. r.1) e))

-- a raw command that went through
send_command_raw-done :
    (line : Line) (command : Command) (payload : Bytes) (s s' : Sent)
    → send_command_raw line command payload 2 s ≡ (done tt, s')
    → (packet : ℕ × Bytes) × IsType2 (command_code command) payload packet × (s' ≡ s ++ packet ∷ [])
unfolding send_command_raw
send_command_raw-done line command payload s s' e =
    go (line.reply (length s)) (build_packet_raw (command_code command) payload 2 1) refl refl
  where
    go :
        (r : Reply) (o : Option Bytes)
        → line.reply (length s) ≡ r
        → build_packet_raw (command_code command) payload 2 1 ≡ o
        → (packet : ℕ × Bytes) × IsType2 (command_code command) payload packet
          × (s' ≡ s ++ packet ∷ [])
    go down o a b = absurd (failed-done (rw a at e))
    go acked none a b = absurd (failed-done (rw (a, b) at e))
    go silent none a b = absurd (failed-done (rw (a, b) at e))
    go acked (some p) a b =
        ((command_code command, p), (refl, b), sym (ap (λ r. r.1) (rw (a, b) at e)))
    go silent (some p) a b =
        ((command_code command, p), (refl, b), sym (ap (λ r. r.1) (rw (a, b) at e)))

write_slot-done :
    (line : Line) (f32 : ℕ → ℕ) (scale_on : Bool) (slot_index : ℕ) (recipe : Recipe) (s t : Sent)
    → write_slot line f32 scale_on slot_index recipe s ≡ (done tt, t)
    → (blob : Bytes) × (packet : ℕ × Bytes) × (build_coffee_recipe_payload recipe ≡ some blob)
      × IsType2 11510 (slot_payload scale_on slot_index recipe blob) packet
      × (t ≡ s ++ packet ∷ [])
unfolding write_slot
write_slot-done line f32 scale_on slot_index recipe s t e =
    let (blob, s1, made, sent) =
      continue-done (packed (build_coffee_recipe_payload recipe) s) _ e in
    let (built, kept) = packed-done (build_coffee_recipe_payload recipe) blob s s1 made in
    let (packet, typed, shape) =
      send_command_raw-done line Command.easy_slot_send
        (slot_payload scale_on slot_index recipe blob) s1 t sent in
    (blob, packet, built, typed, rw (← kept) shape)

batch_log :
    (a b c d : ℕ × Bytes) (s1 s2 s3 log : Sent)
    → s1 ≡ a ∷ []
    → s2 ≡ s1 ++ b ∷ []
    → s3 ≡ s2 ++ c ∷ []
    → log ≡ s3 ++ d ∷ []
    → log ≡ a ∷ b ∷ c ∷ d ∷ []
batch_log a b c d s1 s2 s3 log h1 h2 h3 h4 = rw (h4, h3, h2, h1) refl

write_present-IsBatch :
    (line : Line) (f32 : ℕ → ℕ) (scale_on : Bool) (a b c : Recipe) (log : Sent)
    → write_present line f32 scale_on (some a) (some b) (some c) [] ≡ (done tt, log)
    → IsBatch scale_on (record { slot_a = some a; slot_b = some b; slot_c = some c }) log
write_present-IsBatch line f32 scale_on a b c log e =
    let (_, s1, e1, k1) = continue-done (write_slot line f32 scale_on 0 a []) _ e in
    let (_, s2, e2, k2) = continue-done (write_slot line f32 scale_on 1 b s1) _ k1 in
    let (_, s3, e3, k3) = continue-done (write_slot line f32 scale_on 2 c s2) _ k2 in
    let (blob_a, packet_a, built_a, sent_a, shape_a) =
      write_slot-done line f32 scale_on 0 a [] s1 e1 in
    let (blob_b, packet_b, built_b, sent_b, shape_b) =
      write_slot-done line f32 scale_on 1 b s1 s2 e2 in
    let (blob_c, packet_c, built_c, sent_c, shape_c) =
      write_slot-done line f32 scale_on 2 c s2 s3 e3 in
    let (packet_order, ordered, shape) =
      send_command_raw-done line Command.easy_slot_order order_payload s3 log k3 in
    record {
      recipe_a = a;
      recipe_b = b;
      recipe_c = c;
      blob_a = blob_a;
      blob_b = blob_b;
      blob_c = blob_c;
      packet_a = packet_a;
      packet_b = packet_b;
      packet_c = packet_c;
      packet_order = packet_order;
      given_a = refl;
      given_b = refl;
      given_c = refl;
      built_a = built_a;
      built_b = built_b;
      built_c = built_c;
      sent_a = sent_a;
      sent_b = sent_b;
      sent_c = sent_c;
      ordered = ordered;
      shape =
          batch_log packet_a packet_b packet_c packet_order s1 s2 s3 log shape_a shape_b shape_c
            shape;
    }

present_all :
    (line : Line) (f32 : ℕ → ℕ) (scale_on : Bool) (a b c : Option Recipe) (log : Sent)
    → write_present line f32 scale_on a b c [] ≡ (done tt, log)
    → IsBatch scale_on (record { slot_a = a; slot_b = b; slot_c = c }) log
present_all line f32 scale_on none b c log e = absurd (failed-done e)
present_all line f32 scale_on (some a) none c log e = absurd (failed-done e)
present_all line f32 scale_on (some a) (some b) none log e = absurd (failed-done e)
present_all line f32 scale_on (some a) (some b) (some c) log e =
    write_present-IsBatch line f32 scale_on a b c log e

write_present_missing :
    (line : Line) (f32 : ℕ → ℕ) (scale_on : Bool) (a b c : Option Recipe) (s : Sent)
    → (a ≡ none) ⊎ (b ≡ none) ⊎ (c ≡ none)
    → write_present line f32 scale_on a b c s ≡ (failed missing_slots, s)
write_present_missing line f32 scale_on none b c s h = refl
write_present_missing line f32 scale_on (some a) none c s h = refl
write_present_missing line f32 scale_on (some a) (some b) none s h = refl
write_present_missing line f32 scale_on (some a) (some b) (some c) s (inl h) = absurd (ground arith)
write_present_missing line f32 scale_on (some a) (some b) (some c) s (inr (inl h)) =
    absurd (ground arith)
write_present_missing line f32 scale_on (some a) (some b) (some c) s (inr (inr h)) =
    absurd (ground arith)

-- A batch that goes through, on an idle link, sent the three slots in order, each with its own
-- recipe's payload, index and flags, and then the order; so all three were given.
pub write_easy_slots-IsBatch :
    (line : Line) (f32 : ℕ → ℕ) (scale_on : Bool) (slots : Slots) (log : Sent)
    → write_easy_slots line f32 scale_on slots [] ≡ (done tt, log)
    → IsBatch scale_on slots log
unfolding write_easy_slots
write_easy_slots-IsBatch line f32 scale_on slots log e =
    let present = write_present line f32 scale_on slots.slot_a slots.slot_b slots.slot_c in
    elim (Bool-cases line.linked) [
      | inl up ↦
          present_all line f32 scale_on slots.slot_a slots.slot_b slots.slot_c log
            (sym (check-linked line present [] up) ∙ e)
      | inr offline ↦ absurd (failed-done (sym (check-unlinked line present [] offline) ∙ e))
    ]

-- With a recipe missing nothing is sent, whatever the link does.
pub write_easy_slots_missing :
    (line : Line) (f32 : ℕ → ℕ) (scale_on : Bool) (slots : Slots) (s : Sent)
    → (slots.slot_a ≡ none) ⊎ (slots.slot_b ≡ none) ⊎ (slots.slot_c ≡ none)
    → ((write_easy_slots line f32 scale_on slots s).0 ≢ done tt)
      × ((write_easy_slots line f32 scale_on slots s).1 ≡ s)
unfolding write_easy_slots
write_easy_slots_missing line f32 scale_on slots s h =
    let present = write_present line f32 scale_on slots.slot_a slots.slot_b slots.slot_c in
    elim (Bool-cases line.linked) [
      | inl up ↦
          let stops =
            check-linked line present s up
            ∙ write_present_missing line f32 scale_on slots.slot_a slots.slot_b slots.slot_c s h in
          (
            λ e.
                failed-done
                  (sym stops ∙ ap (λ o. (o, (write_easy_slots line f32 scale_on slots s).1)) e),
            ap (λ r. r.1) stops,
          )
      | inr offline ↦
          let stops = check-unlinked line present s offline in
          (
            λ e.
                failed-done
                  (sym stops ∙ ap (λ o. (o, (write_easy_slots line f32 scale_on slots s).1)) e),
            ap (λ r. r.1) stops,
          )
    ]
