-- ===== src/Examples/Loops.antt =====
-- Examples for the receive loop, events, sessions and key fobs (api/hts/client.py, keyfobs.py).
use aegis_hass.Base.{
  ℕ, ◌≡◌, ◌≢◌, refl, ap, Bool, true, false, some, List, [], ◌∷◌, ◌++◌, map, length, length-append,
  All, Bytes, arith,
}
use aegis_hass.Base.Kv.{insert, lookup, has_key}
use aegis_hass.Base.Text.{Text, codes, hex_upper, hex_value}
use aegis_hass.Base.Utf8.{decode}
use aegis_hass.Hts.Messages.{MsgKind, kind_value, HtsMessage, tlv_encode, tlv_decode}
use aegis_hass.Hts.HubState.Values.{str_val, until_zero, bool_val, int_be_val}
use aegis_hass.Hts.Client.Update.{HtsClient}
use aegis_hass.Hts.Client.Rows.Sections.{dict_from}
use aegis_hass.Hts.Client.Rows.{put_key}
use aegis_hass.Hts.Client.Events.{EventCallbacks, handle_event_message}
use aegis_hass.Hts.Client.Events.Routed.{IsRouted, handle_event_message-IsRouted}
use aegis_hass.Hts.Client.Listen.{
  Inbound, handler_returned, handler_raised, received, read_timeout, undecodable, handler_error,
  call_event, listening, dispatch, is_raised, on_message, listen,
}
use aegis_hass.Hts.Client.Listen.Survives.{
  messages, IsLively, listen_survives, listen_ends_on_raise, listen_stops_on_three,
}
use aegis_hass.Base.Int.{ℤ, pos}
use aegis_hass.Hts.Client.Kill.{Reply, answered, request_failed, kill_client_sessions}
use aegis_hass.Hts.Client.Kill.Exact.{IsExact, kill_client_sessions-IsExact}
use aegis_hass.Hts.Client.Sessions.{session_of, parse_client_sessions}
use aegis_hass.Hts.Client.Sessions.Records.{records_params, parse_client_sessions-records}
use aegis_hass.Hts.Keyfobs.{Keyfob, has_all, hex_int, flags_hex_of, parse_keyfob}
use aegis_hass.Hts.Keyfobs.Superset.{parse_keyfob-superset}

abbrev event_frame : HtsMessage
event_frame = record {
  sender = 0x00A1B2C3;
  receiver = 1;
  seq_num = 7;
  link = 1;
  flags = 0;
  msg_type = MsgKind.raw 0x08;
  payload = tlv_encode ((2 ∷ []) ∷ (0x22 ∷ []) ∷ (1 ∷ 2 ∷ 3 ∷ 4 ∷ []) ∷ (0x38 ∷ []) ∷ []);
}

abbrev one_hub_client : HtsClient
one_hub_client = record {
  hubs = record { hub_id = hex_upper (0 ∷ 0xA1 ∷ 0xB2 ∷ 0xC3 ∷ []); is_master = true } ∷ [];
  hub_states = [];
  refreshing = [];
  on_state_update = some (λ hub_id s. false);
  on_device_kv = true;
}

abbrev both : EventCallbacks
both = record { on_chime_event = true; on_hub_event = true }

handle_event_message-IsRouted_example :
    All
      (IsRouted one_hub_client (tlv_decode event_frame.payload))
      (handle_event_message one_hub_client both event_frame)
handle_event_message-IsRouted_example =
    handle_event_message-IsRouted one_hub_client both event_frame

abbrev quiet : List Inbound
quiet = read_timeout ∷ received event_frame handler_returned ∷ undecodable ∷ []

quiet-IsLively : IsLively quiet
quiet-IsLively [] rest e = cc
quiet-IsLively (x ∷ front) rest e =
    let size = ap length e in
    omega (arith, length-append front (read_timeout ∷ read_timeout ∷ read_timeout ∷ rest))

listen_survives_example : listen 0 quiet ≡ (map on_message (messages quiet), listening)
listen_survives_example = listen_survives quiet quiet-IsLively (refl, (refl, (refl, tt)))

event_frame-dispatched : dispatch event_frame ≢ []
unfolding dispatch kind_value
event_frame-dispatched q =
    let one_action : length (call_event event_frame ∷ []) ≡ 0 = ap length q in
    omega (arith, one_action)

listen_ends_on_raise_example :
    listen 0 (quiet ++ (received event_frame handler_raised ∷ read_timeout ∷ []))
    ≡ (map on_message (messages quiet) ++ (on_message event_frame ∷ []), handler_error)
listen_ends_on_raise_example =
    listen_ends_on_raise quiet (read_timeout ∷ []) event_frame quiet-IsLively
      (refl, (refl, (refl, tt))) event_frame-dispatched

listen_stops_on_three_example :
    (front : List Inbound) × (rest : List Inbound) × (received event_frame handler_returned
        ∷ read_timeout
        ∷ read_timeout
        ∷ read_timeout
        ∷ []
      ≡ front ++ (read_timeout ∷ read_timeout ∷ read_timeout ∷ rest))
unfolding listen is_raised
listen_stops_on_three_example =
    listen_stops_on_three
      (received event_frame handler_returned ∷ read_timeout ∷ read_timeout ∷ read_timeout ∷ []) refl

abbrev two_sessions : List (List (Bytes × Bytes))
two_sessions =
    (((7 ∷ []), (1 ∷ [])) ∷ ((3 ∷ []), (80 ∷ [])) ∷ []) ∷ (((4 ∷ []), (65 ∷ [])) ∷ []) ∷ []

parse_client_sessions-records_example :
    parse_client_sessions ((0x41 ∷ []) ∷ records_params two_sessions ((5 ∷ []) ∷ []))
    ≡ map session_of (map (dict_from []) two_sessions)
unfolding put_key insert
parse_client_sessions-records_example =
    parse_client_sessions-records (0x41 ∷ []) two_sessions ((5 ∷ []) ∷ [])
      ((((refl, λ q. cc), ((refl, λ q. cc), tt)), refl), ((((refl, λ q. cc), tt), refl), tt))
      (omega arith)

abbrev fob_row : List (ℕ × Bytes)
fob_row =
    (0x02, 65 ∷ [])
    ∷ (0x07, [])
    ∷ (0x08, [])
    ∷ (0x09, [])
    ∷ (0x0A, 4 ∷ [])
    ∷ (0x0B, 1 ∷ [])
    ∷ (0x0C, 1 ∷ [])
    ∷ (0x0D, 1 ∷ [])
    ∷ (0x0E, 1 ∷ [])
    ∷ (0x0F, [])
    ∷ (0x10, [])
    ∷ (0x11, [])
    ∷ (0x13, [])
    ∷ (0x14, [])
    ∷ (0x16, [])
    ∷ []

abbrev fob : Keyfob
fob = record {
  id = codes "00112233";
  hub_id = codes "00A1B2C3";
  name = str_val (65 ∷ []);
  index = int_be_val (4 ∷ []);
  active = bool_val (1 ∷ []);
  flags_hex = flags_hex_of fob_row;
}

abbrev is_letter : Text → Bool
is_letter text = true

fob_read : parse_keyfob is_letter (codes "00112233") (codes "00A1B2C3") fob_row ≡ some fob
unfolding parse_keyfob has_all has_key lookup hex_int hex_value str_val until_zero decode
fob_read = refl

parse_keyfob-superset_example :
    parse_keyfob is_letter (codes "00112233") (codes "00A1B2C3") (insert 0x17 (0 ∷ 0 ∷ []) fob_row)
    ≡ some fob
parse_keyfob-superset_example =
    parse_keyfob-superset is_letter (codes "00112233") (codes "00A1B2C3") 0x17 (0 ∷ 0 ∷ []) fob_row
      fob
      (
        (λ q. omega arith),
        (λ q. omega arith),
        (λ q. omega arith),
        (λ q. omega arith),
        (λ q. omega arith),
        (λ q. omega arith),
        (λ q. omega arith),
        (λ q. omega arith),
      )
      fob_read

abbrev three_kills : List (ℤ × Reply)
three_kills = (pos 5, answered) ∷ (pos 6, request_failed) ∷ (pos 7, answered) ∷ []

kill_client_sessions-IsExact_example :
    IsExact (length three_kills) [] three_kills (kill_client_sessions three_kills)
kill_client_sessions-IsExact_example = kill_client_sessions-IsExact three_kills
