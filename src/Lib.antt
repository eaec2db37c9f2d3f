-- ===== src/Lib.antt =====
-- xBloom: the protocol of the coffee machine and the brewing chains of the Home Assistant
-- integration in custom_components/xbloom.
--
-- The parts. ble/framing.py cuts notifications into frames and builds packets; ble/models.py checks
-- recipes and compiles them to bytes; ble/client.py keeps the status of the machine from its
-- notifications, fires events, and sends commands; brewing.py compiles the tea and coffee payloads
-- and runs the chains of commands that arm, start and store recipes over the client. coordinator/
-- keeps the bookkeeping of Home Assistant: what is armed or running, the setpoints, the link and the
-- display units. It is called back with each event of the client, polls the client's status, and
-- sends commands through the controllers of ble/components.py. schema.py names and scales recipes.
--
-- The modules, with the code that each is about:
--   Prelude, Bytes: tests, lists, signed integers, the struct formats.
--   Ble.Constants: ble/constants.py. `Command` and `Response` are the two enumerations.
--   Ble.Framing: ble/framing.py. crc16, build_packet, build_packet_raw, iter_frames, frame_command,
--     frame_payload and split_write_chunks under their own names; `scan_at` is one round of the
--     loop of iter_frames, at the buffer from its offset on.
--   Ble.Models: ble/models.py. `check_pour` and `check_recipe` are the two __post_init__.
--   Ble.Client: `Client` is DeviceStatus with its parts and the private fields of XBloomClient; an
--     event that the client fires is an `Event`. Client.Heartbeat: _scan_for_status_frame and its
--     tables; Client.Weight: _filter_weight; Client.Settings, Client.Alarm, Client.Info: the three
--     scans of the raw buffer; Client.Response: the first half of _handle_response (the status);
--     Client.Notify: its second half (the events), _parse_response and _on_notification.
--   Brewing.Payload: _build_tea_payload, _build_coffee_recipe_payload, slot_flags.
--   Brewing.Link: _send_command, _send_command_raw and send_and_wait, as a chain over the log of
--     what was sent; Brewing.Chain: the async functions of brewing.py, composed as there.
--   Coordinator: the fields of XBloomCoordinator (coordinator/__init__.py) as one record, and
--     `Effect`, what a method schedules on the event loop of Home Assistant, in order.
--     Coordinator.Knobs, .Manual, .State, .Tick, .Dispatch: coordinator/state.py; the knob mirrors,
--     the two reconciliations, _derive_state_string, _async_update_data and _dispatch_event under
--     their own names. `track_shortage`, `track_pod_prompt`, `track_start` and `track_run` are the
--     four parts of _dispatch_event, in its order; `to_all` is one delivery to each listener.
--     Coordinator.Connection, .Units and .ModeSwitch: coordinator/connection.py; Coordinator.Operations: its
--     retry while sleeping, and coordinator/operations.py; Operations.Grinder and .Brewer:
--     ble/components.py. Coordinator.System: the client and the coordinator together.
--   Schema: dedupe_name, scale_pours_to_total and find_recipe of schema.py.
--   The modules named Tests hold concrete packets, recipes and runs.
--
-- Numbers. A byte string is a list of natural numbers; IsBytes says that they are below 256. Flow
-- rates are hundredths of ml/s, doses tenths of a gram, temperatures of the status tenths of a
-- degree. The ratio bytes and the scaling of pours are computed in doubles, each operation rounded as
-- Python rounds it (Prelude.Double). A float32 from the wire is its bit pattern, and what the code asks of it is a parameter: `is_far` (the distance of two
-- weights), `float_to_int` (int of a float, which can raise), `f32` (the bits of a number).
-- A result `none` is an exception, or a loop that has not ended within its fuel. The fuel of each
-- loop over a buffer is the number of its bytes, one round for each: every round but the last moves on
-- by one byte at least, unless iter_frames meets a header that announces a frame of length zero, where
-- the source stays for ever too. The chunks of a write and the steps of a tea pour have one round for each
-- byte and for each millilitre.
--
-- Times of the coordinator are milliseconds. A poll is given the time since the last notification;
-- an event is given the status that it meets, which a notification may still be changing. The retry
-- while sleeping is given what the sleep flag shows after each run; two further runs may follow the
-- first. The search of dedupe_name has one round for each name to avoid, and one more. The push of
-- the display units is given what other tasks do to the coordinator while a command is on its way
-- (`meanwhile`); during the other operations nothing else runs.
--
-- The machine, in the chains, is the parameter `Line`: its reply to the n-th packet, whether the link
-- was up at the start, and what the polls of the status show before the deadline. Waiting times are
-- not modelled. A chain returns its outcome together with what was sent, failures included.
--
-- Not modelled: the Bluetooth stack, logging, callbacks as such, the table of pending waiters, what is
-- sent by a connect from idle standby at the start of an operation (it is its change of the
-- bookkeeping; what the connect that wakes a machine sends is modelled), the cancelled task of the machine info, the pod lookup of the cloud and what it adds to the event, the
-- device registry, the entry options as they are stored; the recipes of the coordinator, the
-- advanced settings, the services, the entities, the cloud client, the LLM tools and the panel, which are built on the parts above.
pub mod Prelude
pub mod Bytes
pub mod Ble
pub mod Brewing
pub mod Coordinator
pub mod Schema
