-- ===== src/Lib.antt =====
-- A verification library for the Aegis Ajax integration (custom_components/aegis_ajax): the binary
-- HTS protocol (api/hts), the spaces and delays of the coordinator, the gRPC client and the walk over
-- push payloads.
--
-- How the parts work together. Polls and commands go through the gRPC client: `_check_rate_limit`
-- spaces its calls and `_retry` repeats them. What a poll lists, what a push reports and what a
-- command expects is written to the coordinator's spaces, and `sync_delay_overlays` then starts and
-- ends the delays that the alarm panel shows; the hub's own events come in over HTS. The HTS client
-- keeps one TLS connection to the vendor's server. Bytes come in chunks; `_read_frame` cuts frames
-- out of them, `decode_frame` takes off the escapes and the checksum, `decrypt` the cipher, and
-- `parse_message` the header. The payload of an UPDATES message is a TLV list: `_handle_update`
-- reads the rows of the hub and of its devices out of it, `parse_hub_params` merges the hub's row
-- into its state, and the callbacks hand the rest to the coordinator. In the other direction a
-- message is built, padded, encrypted and framed.
--
-- Which file models which part; paths are those of api/hts, and of custom_components/aegis_ajax from
-- Coordinator on:
--   Hts/Crc           crc16 and its table, of protocol.py; Crc/Bitwise has the bit-by-bit CRC, and
--                     Crc/Detects what the checksum tells apart.
--   Hts/Protocol      escape, unescape, pad16, encode_frame and decode_frame of protocol.py. An error
--                     is a `FrameError`. The children have the round trips (Escape, Frame), what is
--                     refused (Reject) and the padding (Padding).
--   Hts/Messages      the TLV list, HtsMessage, build_message and parse_message of messages.py, with
--                     the proofs in Messages/Tlv and Messages/Header.
--   Hts/Crypto        the length checks of crypto.py.
--   Hts/Channel       _send_message and _receive_message of client.py, without the socket; Channel/Send
--                     has the messages of _send_message, _send_response and _send_ack, and _next_seq.
--   Hts/Auth          solve_challenge, build_connect_request and parse_connected_response of auth.py.
--   Hts/HubEvents     hub_events.py.
--   Hts/HubState      hub_state.py: Keys has the key constants, Values the helpers for single values,
--                     Network has HubNetworkState and parse_hub_params, Readings the devices' readings.
--   Hts/Client/Reader _read_frame of client.py, over the list of what the reads return.
--   Hts/Client/Rows   _extract_direct_kv, _extract_device_kv, _extract_all_devices_kv and the tests on
--                     them, of client.py; Rows/Sections has the bodies they read.
--   Hts/Client/Update _handle_update, _hub_id_from_message and _schedule_hub_refresh of client.py, as
--                     a function from the client's state to the new state and a list of effects, of
--                     which an exception that leaves the handler is the last.
--   Hts/Client/Events _handle_event_message, _dispatch_hub_event and _is_space_event of client.py.
--   Hts/Client/Listen the receive loop listen of client.py, over the list of what its reads return,
--                     each message with what its handler comes to.
--   Hts/Client/Sessions
--                     ClientSession and _parse_client_sessions of client.py.
--   Hts/Client/Kill   kill_client_sessions of client.py, over the replies to its requests.
--   Hts/Client/Redact _redact_payload_hex and _redact_if_text of client.py.
--   Hts/Keyfobs       keyfobs.py.
--   Coordinator       coordinator.py, on a state with the event loop's pending timers. Models has
--                     the data of api/models.py and const.py; Delays has delay_states.py and the
--                     longest delays of a space; Overlays the running delays with
--                     sync_delay_overlays and _on_hts_hub_event; Writes what polls, pushes and the
--                     panel's optimistic write (alarm_control_panel.py) do to the spaces
--                     (Writes/Refresh the polls), Writes/Panel the panel's state, and
--                     Writes/Reachable the callbacks in any order, as a relation. Overlays/Timed to
--                     Overlays/Steady, Writes/Disarm, Writes/Merged and Writes/Poll have the
--                     proofs. Rows has what an HTS row does to a device, and Link the back-off, the
--                     repair issues and the limit on manual refreshes.
--   Grpc              api/session.py (Session) and api/client.py: Client has the keepalive interval, the
--                     channel, the logins and is_client_rejected, RateLimit has _check_rate_limit and
--                     Retry has _retry.
--   Push/Wire         _read_varint, _walk_wire_format and _find_embedded_messages of
--                     notification_event_parser.py.
--   Base              lists, byte strings, texts, dictionaries and numbers that the parts share.
--   Examples          the theorems at concrete inputs, and tests.
--
-- Bytes are natural numbers, and a theorem that needs them below 256 says so. Wrap-around is written
-- out. A text is the list of its code points. A dictionary is a list of its entries in insertion
-- order. Loops are structural recursion, but for the loop of `_walk_wire_format`: its fuel is the length
-- of the bytes, of which every round reads at least one, and its levels are those of _MAX_WALK_DEPTH.
-- Times are milliseconds. The reads of `_read_frame` and of
-- `listen` are a finite list, and `waiting` and `listening` are the outcomes where it is used up.
--
-- Parameters: the random source (os.urandom), of which the proofs use that it returns as many bytes
-- as it is asked for, and the cipher (AES-128-CBC of the cryptography package), of which they use
-- that it keeps the length of whole blocks and that decryption inverts it. `str.isprintable`, of the
-- key fobs, `str.lower`, SHA-256, `uuid4`, `random` and the responses of the gRPC services are
-- parameters without assumptions.
--
-- Not modelled: log lines, but for the redaction of payloads; the entities, forms and reports of
-- Home Assistant, but for the alarm panel's state; the generated protobuf code; the push client and
-- the events that it reads out of a payload's candidates; the rest of the coordinator, with its
-- device stream and its second account; the login dialogue of the HTS client and the tasks beside
-- its receive loop; the writers of the coordinator's spaces that leave a space's security state and
-- its delays alone, such as the hourly snapshot; and the attempts to connect that a poll starts or
-- that fail before they connect. An exception of `on_device_kv`, `on_chime_event` or `on_hub_event`
-- is caught by the code where the callback is called, and is left out. One of `on_state_update` is
-- not caught: it leaves `_handle_update`, as the effect `callback_raised`, and ends `listen`. A
-- float reading is its number of thousandths.
pub mod Base
pub mod Coordinator
pub mod Examples
pub mod Grpc
pub mod Hts
pub mod Push
