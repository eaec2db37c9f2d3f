-- ===== src/Coordinator/Operations/Sends.antt =====
-- What a command adds to the log: over a link that stays up it is sent, whatever the machine says.
use hacs_xbloom.Brewing.Link.{
  ◌>>◌, Line, Sent, Reply, Outcome, send_command, acked, silent, down, done, default_device_id,
  Action, give, continue, failed,
}
use hacs_xbloom.Prelude.{
  ◌∷◌, List, ℕ, ◌<◌, arith, length, map, ◌++◌, ◌≡◌, ◌≢◌, [], some, ◌≤◌, All, ap, refl, sym,
  append-nil, ◌∙◌, append_assoc, ◌+◌, Option, length-append, none,
}
use hacs_xbloom.Ble.Constants.{Command, command_code}
use hacs_xbloom.Ble.Framing.{build_packet}
use hacs_xbloom.Ble.Framing.Build.{build_packet_lem}
use hacs_xbloom.Bytes.{Bytes}

-- No reply finds the link down.
abbrev pub IsUp : Line → Type 0
IsUp line = (n : ℕ) → line.reply n ≢ down

-- The commands of a log, in order.
abbrev pub codes : Sent → List ℕ
codes sent = map (λ p. p.0) sent

pub codes-snoc :
    (s : Sent) (command : ℕ) (packet : Bytes)
    → codes (s ++ (command, packet) ∷ []) ≡ codes s ++ command ∷ []
codes-snoc [] command packet = refl
codes-snoc (x ∷ xs) command packet = ap (λ l. x.0 ∷ l) (codes-snoc xs command packet)

command_code-lt : (command : Command) → command_code command < 65536
command_code-lt command = ground arith

-- Every number that is sent is below 2^32, and there are at most a thousand.
abbrev pub IsSendable : List ℕ → Type 0
IsSendable values = (length values ≤ 1000) × All (λ v. v < 4294967296) values

-- The packet of a command can be built.
pub packet_of :
    (command : Command) (values : List ℕ)
    → IsSendable values
    → (packet : Bytes) × (build_packet (command_code command) values 1 default_device_id
        ≡ some packet)
packet_of command values (few, small) =
    let (packet, built, _, _, _) =
      build_packet_lem (command_code command) values 1 default_device_id (command_code-lt command)
        (omega arith) (omega arith) (omega (arith, few)) small in
    (packet, built)

-- The chain goes through and adds these commands.
abbrev pub Adds : List ℕ → Sent → Outcome {0} Unit × Sent → Type 0
Adds added s r = (r.0 ≡ done tt) × (codes r.1 ≡ codes s ++ added)

pub give-Adds : (s : Sent) → Adds [] s (give {A = Unit {0}} tt s)
give-Adds s = (refl, sym (append-nil (codes s)))

continue-Adds :
    (r : Outcome {0} Unit × Sent) (k : Action) (added later : List ℕ) (s : Sent)
    → Adds added s r
    → ((t : Sent) → Adds later t (k t))
    → Adds (added ++ later) s (continue r (λ _. k))
continue-Adds (done a, t) k added later s (_, first) h =
    let (through, second) = h t in
    (through, second ∙ ap (λ l. l ++ later) first ∙ append_assoc (codes s) added later)
continue-Adds (failed f, t) k added later s (impossible, _) h = absurd (ground arith)

-- One chain after another.
pub then-Adds :
    (m k : Action) (added later : List ℕ)
    → ((s : Sent) → Adds added s (m s))
    → ((s : Sent) → Adds later s (k s))
    → (s : Sent) → Adds (added ++ later) s ((m >> k) s)
then-Adds m k added later f g s = continue-Adds (m s) k added later s (f s) g

pub send_command-Adds :
    (line : Line) (command : Command) (values : List ℕ)
    → IsUp line
    → IsSendable values
    → (s : Sent) → Adds (command_code command ∷ []) s (send_command line command values s)
unfolding send_command
send_command-Adds line command values up sendable s =
    let (packet, built) = packet_of command values sendable in
    replied (line.reply (length s)) refl packet built
  where
    replied :
        (r : Reply)
        → line.reply (length s) ≡ r
        → (packet : Bytes)
        → build_packet (command_code command) values 1 default_device_id ≡ some packet
        → Adds (command_code command ∷ []) s (send_command line command values s)
    replied down e packet built = absurd (up (length s) e)
    replied acked e packet built = simp (e, built) (refl, codes-snoc s _ packet)
    replied silent e packet built = simp (e, built) (refl, codes-snoc s _ packet)

-- A command without numbers.
pub bare-Adds :
    (line : Line) (command : Command)
    → IsUp line
    → (s : Sent) → Adds (command_code command ∷ []) s (send_command line command [] s)
bare-Adds line command up = send_command-Adds line command [] up (omega arith, tt)

-- Over any link a command adds at most its packet.
pub send_command-length :
    (line : Line) (command : Command) (values : List ℕ) (s : Sent)
    → length (send_command line command values s).1 ≤ length s + 1
unfolding send_command
send_command-length line command values s =
    replied (line.reply (length s)) (build_packet (command_code command) values 1 default_device_id)
      refl refl
  where
    replied :
        (r : Reply) (packet : Option Bytes)
        → line.reply (length s) ≡ r
        → build_packet (command_code command) values 1 default_device_id ≡ packet
        → length (send_command line command values s).1 ≤ length s + 1
    replied down packet e f = simp e (omega arith)
    replied acked none e f = simp (e, f) (omega arith)
    replied silent none e f = simp (e, f) (omega arith)
    replied acked (some p) e f =
        simp (e, f) (omega (arith, length-append s ((command_code command, p) ∷ [])))
    replied silent (some p) e f =
        simp (e, f) (omega (arith, length-append s ((command_code command, p) ∷ [])))
