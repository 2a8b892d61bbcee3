-- ===== src/Examples/Values.antt =====
-- Examples for what the parameters mean (api/hts/auth.py, hub_events.py, hub_state.py).
use aegis_hass.Base.{ℕ, ◌≡◌, none, some, List, [], ◌∷◌, ◌++◌, Bytes, ok, arith}
use aegis_hass.Base.Kv.{lookup, merge, is_some}
use aegis_hass.Base.Text.{codes, hex_upper}
use aegis_hass.Hts.Messages.{tlv_encode}
use aegis_hass.Hts.Auth.{parse_connected_response}
use aegis_hass.Hts.Auth.Response.{Entry, entry_params, entry_hubs, parse_connected_response-entries}
use aegis_hass.Hts.HubEvents.{
  HubEvent, key_event_timestamp, key_delay_expires_at, to_timestamp, parse_hub_event,
}
use aegis_hass.Hts.HubEvents.Values.{last_value, parse_hub_event-values}
use aegis_hass.Hts.HubState.Keys
use aegis_hass.Hts.HubState.Network.{default_state, parse_hub_params, primary_connection}
use aegis_hass.Hts.HubState.Network.Merge.{HasValues, parse_hub_params-merge}
use aegis_hass.Hts.HubState.Network.Consistent.{IsConsistent, parse_rows, parse_rows_lem}
use aegis_hass.Hts.HubState.Readings.{parse_device_readings}
use aegis_hass.Hts.HubState.Readings.Deltas.{parse_device_readings-merge}

abbrev master : Entry
master = record { a = 0; b = 0xA1; c = 0xB2; d = 5; flag = 1 }

parse_connected_response-entries_example :
    parse_connected_response (
      tlv_encode ((0x0F ∷ []) ∷ (9 ∷ 8 ∷ []) ∷ entry_params (master ∷ []) [])
      ++ (10 ∷ 11 ∷ 12 ∷ 13 ∷ []))
    ≡ ok (record { token = 9 ∷ 8 ∷ []; hubs = entry_hubs (master ∷ []) })
parse_connected_response-entries_example =
    parse_connected_response-entries 9 (8 ∷ []) (master ∷ []) (10 ∷ 11 ∷ 12 ∷ 13 ∷ []) (
      ((λ q. omega arith), (λ q. omega arith)),
      (
        ((λ q. omega arith), (λ q. omega arith)),
        (((λ q. omega arith), (λ q. omega arith)), (((λ q. omega arith), (λ q. omega arith)), tt)),
      ),
    )

abbrev stamps : List Bytes
stamps = (0xfd ∷ 0xfd ∷ 0x07 ∷ 1 ∷ 2 ∷ 3 ∷ 4 ∷ []) ∷ (0xfd ∷ 0xfd ∷ 0x17 ∷ 1 ∷ 2 ∷ 3 ∷ 9 ∷ []) ∷ []

parse_hub_event-values_example :
    (e : HubEvent) × (parse_hub_event
        ((0x0b ∷ []) ∷ (0x21 ∷ []) ∷ (0 ∷ 1 ∷ 2 ∷ 3 ∷ []) ∷ (0x44 ∷ []) ∷ stamps)
      ≡ some e)
    × (e.hub_id ≡ hex_upper (0 ∷ 1 ∷ 2 ∷ 3 ∷ []))
    × (e.code ≡ 0x44)
    × (lookup 0x07 e.values ≡ last_value 0x07 stamps)
    × (e.hub_ts ≡ to_timestamp (last_value key_event_timestamp stamps))
    × (e.expires_at ≡ to_timestamp (last_value key_delay_expires_at stamps))
parse_hub_event-values_example = parse_hub_event-values 0 1 2 3 0x44 stamps 0x07

abbrev battery : List (ℕ × Bytes)
battery = (Keys.hub_powered, 0 ∷ []) ∷ (0x02, 0xE2 ∷ []) ∷ (0x3F, 5 ∷ []) ∷ []

battery-HasValues : HasValues battery
unfolding lookup
battery-HasValues k v e = ground arith

parse_hub_params-merge_example :
    parse_hub_params battery (some (parse_hub_params ((Keys.active_channels, 3 ∷ []) ∷ []) none))
    ≡ parse_hub_params (merge ((Keys.active_channels, 3 ∷ []) ∷ []) battery) none
parse_hub_params-merge_example =
    parse_hub_params-merge ((Keys.active_channels, 3 ∷ []) ∷ []) battery none battery-HasValues

parse_rows_lem_example :
    IsConsistent (parse_rows (battery ∷ ((Keys.active_channels, 3 ∷ []) ∷ []) ∷ []) default_state)
    × (is_some (
          primary_connection
            (parse_rows (battery ∷ ((Keys.active_channels, 3 ∷ []) ∷ []) ∷ []) default_state))
        ≡ is_some
            (parse_rows
              (battery ∷ ((Keys.active_channels, 3 ∷ []) ∷ []) ∷ [])
              default_state).ethernet_connected)
parse_rows_lem_example = parse_rows_lem (battery ∷ ((Keys.active_channels, 3 ∷ []) ∷ []) ∷ [])

parse_device_readings-merge_example :
    parse_device_readings
      (codes "socket_outlet_type_e")
      battery
      (parse_device_readings (codes "socket_outlet_type_e") ((0x40, 1 ∷ []) ∷ []) none)
    ≡ parse_device_readings
        (codes "socket_outlet_type_e")
        (merge ((0x40, 1 ∷ []) ∷ []) battery)
        none
parse_device_readings-merge_example =
    parse_device_readings-merge ((0x40, 1 ∷ []) ∷ []) battery battery-HasValues
      (codes "socket_outlet_type_e") none
