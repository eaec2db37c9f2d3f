-- ===== src/Brewing/Link/Steps.antt =====
-- A straight chain of acknowledged commands, as a list of requests: what it sends, and when it
-- goes through.
use hacs_xbloom.Prelude.{
  refl, inl, inr, List, ℕ, Option, suc, ◌∷◌, ◌≡◌, ◌++◌, ◌⊎◌, All, [], ◌+◌, some, zero, length,
  arith, sym, append-nil, length-append, ◌≢◌, none, ap, ◌∙◌, append_assoc,
}
use hacs_xbloom.Ble.Framing.{build_packet, build_packet_raw}
use hacs_xbloom.Bytes.{Bytes}
use hacs_xbloom.Brewing.Link.{
  Line, Action, Sent, Outcome, give, ◌>>=◌, acked, default_device_id, write, ◌>>◌, awaited, done,
  Failure, Reply, down, silent, failed, ack_timeout, not_connected, struct_error,
}
use hacs_xbloom.Ble.Constants.{Command, command_code}

-- A command and its packet; `none` where packing raises.
abbrev pub Request : Type 0
Request = ℕ × Option Bytes

abbrev pub request : Command → List ℕ → Request
request command values =
    (command_code command, build_packet (command_code command) values 1 default_device_id)

abbrev pub request_raw : Command → Bytes → Request
request_raw command payload =
    (command_code command, build_packet_raw (command_code command) payload 1 default_device_id)

-- The sending and the wait for one request.
abbrev pub ask : Line → Request → Action
ask line (command, packet) = do r ← write line command packet; awaited line r

abbrev pub ask_all : Line → List Request → Action
ask_all line [] = give tt
ask_all line (r ∷ rs) = do ask line r; ask_all line rs

-- The requests with their packets, all of them built.
abbrev pub AreBuilt : List Request → Sent → Type 0
AreBuilt [] [] = Unit
AreBuilt ((command, packet) ∷ rs) (sent ∷ later) =
    (sent.0 ≡ command) × (packet ≡ some sent.1) × AreBuilt rs later
AreBuilt _ _ = ⊥

-- The replies from a place on, each an echo.
abbrev pub AreAcked : Line → ℕ → ℕ → Type 0
AreAcked line start zero = Unit
AreAcked line start (suc n) = (line.reply start ≡ acked) × AreAcked line (start + 1) n

-- Every packet that another one follows was echoed.
abbrev pub IsGated : Line → ℕ → Sent → Type 0
IsGated line start [] = Unit
IsGated line start (x ∷ []) = Unit
IsGated line start (x ∷ y ∷ ys) = (line.reply start ≡ acked) × IsGated line (start + 1) (y ∷ ys)

-- Every command of the log is a request's.
abbrev pub IsAsked : List Request → ℕ → Type 0
IsAsked [] command = ⊥
IsAsked (r ∷ rs) command = (command ≡ r.0) ⊎ IsAsked rs command

-- What asking them came to: only requests are logged, every packet but the last one was echoed
-- before the next was sent, and a chain that goes through has sent them all, each echoed.
pub record IsRun (line : Line) (rs : List Request) (s : Sent) (r : Outcome {0} Unit × Sent)
    : Type 0 where
  pub added : Sent
  pub log : r.1 ≡ s ++ added
  pub asked : All (λ p. IsAsked rs p.0) added
  pub steady : IsGated line (length s) added
  pub whole : r.0 ≡ done tt → AreBuilt rs added × AreAcked line (length s) (length rs)

-- a request that ends the chain, with or without its packet in the log
ask-failed :
    (line : Line) (command : ℕ) (rs : List Request) (packet : Option Bytes) (s : Sent) (f : Failure)
    → ask line (command, packet) s ≡ (failed f, s)
    → IsRun line ((command, packet) ∷ rs) s (ask_all line ((command, packet) ∷ rs) s)
ask-failed line command rs packet s f e = rw e (record {
  added = [];
  log = sym (append-nil s);
  asked = tt;
  steady = tt;
  whole = λ impossible. absurd (ground arith);
})

ask_down :
    (line : Line) (command : ℕ) (packet : Option Bytes) (s : Sent)
    → line.reply (length s) ≡ down
    → ask line (command, packet) s ≡ (failed not_connected, s)
ask_down line command packet s e = rw e refl

ask_unpacked :
    (line : Line) (command : ℕ) (s : Sent) (r : Reply)
    → line.reply (length s) ≡ r
    → r ≢ down
    → ask line (command, none) s ≡ (failed struct_error, s)
ask_unpacked line command s acked e h = rw e refl
ask_unpacked line command s silent e h = rw e refl
ask_unpacked line command s down e h = absurd (h refl)

ask_silent :
    (line : Line) (command : ℕ) (p : Bytes) (s : Sent)
    → line.reply (length s) ≡ silent
    → ask line (command, some p) s ≡ (failed ack_timeout, s ++ (command, p) ∷ [])
ask_silent line command p s e = rw e refl

pub ask_acked :
    (line : Line) (command : ℕ) (p : Bytes) (s : Sent)
    → line.reply (length s) ≡ acked
    → ask line (command, some p) s ≡ (done tt, s ++ (command, p) ∷ [])
ask_acked line command p s e = rw e refl

pub length-snoc : (s : Sent) (x : ℕ × Bytes) → length (s ++ x ∷ []) ≡ length s + 1
length-snoc s x = omega (arith, length-append s (x ∷ []))

-- a log that the first request and the later ones asked for
IsAsked-All :
    (r : Request) (rs : List Request) (sent : Sent)
    → All (λ p. IsAsked rs p.0) sent
    → All (λ p. IsAsked (r ∷ rs) p.0) sent
IsAsked-All r rs [] h = tt
IsAsked-All r rs (x ∷ xs) (h, hs) = (inr h, IsAsked-All r rs xs hs)

IsGated-cons :
    (line : Line) (start : ℕ) (x : ℕ × Bytes) (sent : Sent)
    → line.reply start ≡ acked
    → IsGated line (start + 1) sent
    → IsGated line start (x ∷ sent)
IsGated-cons line start x [] e h = tt
IsGated-cons line start x (y ∷ ys) e h = (e, h)

IsRun-step :
    (line : Line) (command : ℕ) (packet : Option Bytes) (rs : List Request) (s : Sent) (r : Reply)
    → line.reply (length s) ≡ r
    → ((p : Bytes)
        → IsRun line rs (s ++ (command, p) ∷ []) (ask_all line rs (s ++ (command, p) ∷ [])))
    → IsRun line ((command, packet) ∷ rs) s (ask_all line ((command, packet) ∷ rs) s)
IsRun-step line command packet rs s down e next =
    ask-failed line command rs packet s not_connected (ask_down line command packet s e)
IsRun-step line command none rs s acked e next =
    ask-failed line command rs none s struct_error
      (ask_unpacked line command s acked e (ground arith))
IsRun-step line command none rs s silent e next =
    ask-failed line command rs none s struct_error
      (ask_unpacked line command s silent e (ground arith))
IsRun-step line command (some p) rs s silent e next = rw (ask_silent line command p s e) (record {
  added = (command, p) ∷ [];
  log = refl;
  asked = (inl refl, tt);
  steady = tt;
  whole = λ impossible. absurd (ground arith);
})
IsRun-step line command (some p) rs s acked e next =
    let later = next p in
    rw (ask_acked line command p s e) (record {
      added = (command, p) ∷ later.added;
      log = later.log ∙ append_assoc s ((command, p) ∷ []) later.added;
      asked = (inl refl, IsAsked-All (command, some p) rs later.added later.asked);
      steady =
          IsGated-cons line (length s) (command, p) later.added e
            (rw (length-snoc s (command, p)) at later.steady);
      whole = λ finished.
          let (built, echoed) = later.whole finished in
          ((refl, refl, built), (e, rw (length-snoc s (command, p)) at echoed));
    })

pub ask_all-IsRun :
    (line : Line) (rs : List Request) (s : Sent) → IsRun line rs s (ask_all line rs s)
ask_all-IsRun line [] s = record {
  added = [];
  log = sym (append-nil s);
  asked = tt;
  steady = tt;
  whole = λ e. (tt, tt);
}
ask_all-IsRun line ((command, packet) ∷ rs) s =
    IsRun-step line command packet rs s (line.reply (length s)) refl
      (λ p. ask_all-IsRun line rs (s ++ (command, p) ∷ []))

-- Requests that are all built and all echoed are all sent, in order.
pub ask_all-done :
    (line : Line) (rs : List Request) (packets s : Sent)
    → AreBuilt rs packets
    → AreAcked line (length s) (length rs)
    → ask_all line rs s ≡ (done tt, s ++ packets)
ask_all-done line [] [] s built echoed = ap (λ t. (done tt, t)) (sym (append-nil s))
ask_all-done line [] (x ∷ xs) s built echoed = absurd built
ask_all-done line ((command, packet) ∷ rs) [] s built echoed = absurd built
ask_all-done line ((command, packet) ∷ rs) ((sent, p) ∷ xs) s (same, made, built) (e, echoed) =
    rw (made, ← same, ask_acked line sent p s e)
      (ask_all-done line rs xs (s ++ (sent, p) ∷ []) built
          (rw (← length-snoc s (sent, p)) at echoed)
        ∙ ap (λ t. (done tt, t)) (append_assoc s ((sent, p) ∷ []) xs))
