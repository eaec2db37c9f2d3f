-- ===== src/Brewing/Link.antt =====
-- The link as a chain of commands meets it: `_send_command`, `_send_command_raw` and
-- `send_and_wait` of ble/client.py, and the failures that a chain can end with.
--
-- What the machine and the radio do is the parameter `line`: its reply to the n-th packet, whether
-- the link was up when the chain began, and the labels that the polls of the status show before
-- the deadline. Waiting times are not modelled: a reply is in time or it is
-- not. A write that itself raises is the reply `down`.
pub mod Bind
pub mod Steps
use hacs_xbloom.Ble.Framing.{build_packet, build_packet_raw}
use hacs_xbloom.Bytes.{Bytes}
use hacs_xbloom.Ble.Constants.{Command, command_code}
use hacs_xbloom.Ble.Client.{StateLabel}
use hacs_xbloom.Prelude.{List, Option, if◌then◌else◌, ℕ, Bool, some, length, none, ◌++◌, ◌∷◌, []}

pub data Reply : Type 0 where
  -- echoed before the timeout; sent and not echoed; the link found down before the write
  acked silent down : Reply

pub record Line : Type 0 where
  pub reply : ℕ → Reply
  pub linked : Bool
  pub polls : List (Option StateLabel)

-- The exceptions.
pub data Failure : Type 0 where
  not_connected ack_timeout struct_error missing_slots no_tea_payload : Failure
  refused : StateLabel → Failure
  waiting_for_confirmation no_start_confirmation : Failure

pub data Outcome {ℓ} (A : Type ℓ) : Type ℓ where
  done : A → Outcome A
  failed : Failure → Outcome A

-- What was written to the link so far: each packet under its command.
abbrev pub Sent : Type 0
Sent = List (ℕ × Bytes)

-- A chain: from what was sent before to an outcome and what has been sent after.
abbrev pub Chain {ℓ} : Type ℓ → Type ℓ
Chain A = Sent → Outcome A × Sent

-- A chain that returns nothing.
abbrev pub Action : Type 0
Action = Chain {0} Unit

abbrev pub continue {ℓ κ} :
    {A : Type ℓ} {B : Type κ} → Outcome A × Sent → (A → Chain B) → Outcome B × Sent
continue (done a, s) k = k a s
continue (failed f, s) k = (failed f, s)

infixl 5 ◌>>=◌ ◌>>◌
abbrev pub ◌>>=◌ {ℓ κ} : {A : Type ℓ} {B : Type κ} → Chain A → (A → Chain B) → Chain B
(m >>= k) s = continue (m s) k

abbrev pub ◌>>◌ {ℓ κ} : {A : Type ℓ} {B : Type κ} → Chain A → Chain B → Chain B
m >> k = m >>= λ _. k

abbrev pub give {ℓ} : {A : Type ℓ} → A → Chain A
give a s = (done a, s)

abbrev pub throw {ℓ} : {A : Type ℓ} → Failure → Chain A
throw f s = (failed f, s)

-- a computation that may raise `struct.error`
abbrev pub packed {ℓ} : {A : Type ℓ} → Option A → Chain A
packed none = throw struct_error
packed (some a) = give a

-- The device id of the client.
abbrev pub default_device_id : ℕ
default_device_id = 0x01

module _ (line : Line) where
  -- `if not client.is_connected: raise ConnectionError`
  abbrev pub check_connected : Action
  check_connected = if line.linked then give tt else throw not_connected

  -- the packet is written when the link is up
  abbrev written : Reply → ℕ → Option Bytes → Chain Reply
  written down command packet s = throw not_connected s
  written r command none s = throw struct_error s
  written r command (some p) s = (done r, s ++ (command, p) ∷ [])

  abbrev pub write : ℕ → Option Bytes → Chain Reply
  write command packet s = written (line.reply (length s)) command packet s

  unfoldable pub send_command : Command → List ℕ → Action
  send_command command values = do
    _ ←
        write (command_code command)
          (build_packet (command_code command) values 1 default_device_id)
    give tt

  unfoldable pub send_command_raw : Command → Bytes → ℕ → Action
  send_command_raw command payload type_code = do
    _ ←
        write (command_code command)
          (build_packet_raw (command_code command) payload type_code default_device_id)
    give tt

  abbrev pub awaited : Reply → Action
  awaited acked = give tt
  awaited _ = throw ack_timeout

  -- `send_and_wait(command, data)` and `send_and_wait(command, raw=...)`
  unfoldable pub send_and_wait : Command → List ℕ → Action
  send_and_wait command values = do
    r ←
        write (command_code command)
          (build_packet (command_code command) values 1 default_device_id)
    awaited r

  unfoldable pub send_and_wait_raw : Command → Bytes → Action
  send_and_wait_raw command payload = do
    r ←
        write (command_code command)
          (build_packet_raw (command_code command) payload 1 default_device_id)
    awaited r
