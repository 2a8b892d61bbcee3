-- ===== src/Examples/Updates.antt =====
-- Examples for rows and updates (api/hts/client.py).
use aegis_hass.Base.{
  ◌≡◌, ◌⊎◌, refl, ap, true, false, some, List, [], ◌∷◌, ◌++◌, map, All, Bytes, arith,
}
use aegis_hass.Base.Kv.{insert}
use aegis_hass.Base.Text.{Text, codes, hex_upper, hex_digit}
use aegis_hass.Base.TextMap.{get, has_text}
use aegis_hass.Hts.Auth.{HubInfo}
use aegis_hass.Hts.Messages.{MsgType, MsgKind, HtsMessage, tlv_encode}
use aegis_hass.Hts.Messages.Tlv.{tlv_decode-tlv_encode}
use aegis_hass.Hts.Client.Rows.{
  put_key, extract_device_kv, extract_all_devices_kv, walk, device_pairs,
}
use aegis_hass.Hts.Client.Rows.Sections.{
  Section, body_params, dict_from, row_of, extract_all_devices_kv-sections,
}
use aegis_hass.Hts.Client.Update.{
  HtsClient, Step, is_body, first_byte, is_known, hub_id_from_message, handle_update,
}
use aegis_hass.Hts.Client.Update.Cases.{IsHubId, handle_update-total}
use aegis_hass.Hts.Client.Update.Power.{
  power_of, handle_update_delta_keeps_power, handle_update_keeps_others,
}
use aegis_hass.Hts.Client.Update.Refresh.{requests, handle_update_is_single_flight}
use aegis_hass.Hts.Client.Update.Raises.{IsTold, handle_update-IsTold}
use aegis_hass.Hts.Client.Update.Body.{body_of, IsBodyStep, handle_update_body}

abbrev hub_bytes : Bytes
hub_bytes = 0 ∷ 0xA1 ∷ 0xB2 ∷ 0xC3 ∷ []

abbrev hub : HubInfo
hub = record { hub_id = hex_upper hub_bytes; is_master = true }

abbrev client : HtsClient
client = record {
  hubs = hub ∷ [];
  hub_states = [];
  refreshing = [];
  on_state_update = some (λ hub_id s. false);
  on_device_kv = true;
}

abbrev hub_pairs : List (Bytes × Bytes)
hub_pairs = ((3 ∷ []), (1 ∷ [])) ∷ ((0x23 ∷ []), (10 ∷ 0 ∷ 0 ∷ 9 ∷ [])) ∷ []

abbrev device : Section
device = ((0x11 ∷ 0x22 ∷ 0x33 ∷ 0x44 ∷ []), ((2 ∷ []), (21 ∷ [])) ∷ [])

abbrev message : List Bytes → HtsMessage
message params = record {
  sender = 0x00A1B2C3;
  receiver = 1;
  seq_num = 7;
  link = 1;
  flags = 0;
  msg_type = MsgKind.known MsgType.updates;
  payload = tlv_encode params;
}

extract_all_devices_kv-sections_example :
    extract_all_devices_kv (((9 ∷ []) ∷ []) ++ body_params ((hub_bytes, hub_pairs) ∷ device ∷ []))
    ≡ map row_of ((hub_bytes, hub_pairs) ∷ device ∷ [])
extract_all_devices_kv-sections_example =
    extract_all_devices_kv-sections ((9 ∷ []) ∷ []) ((hub_bytes, hub_pairs) ∷ device ∷ [])
      ((λ q. omega arith), tt)
      (
        (refl, ((λ q. omega arith), ((λ q. omega arith), tt))),
        ((refl, ((λ q. omega arith), tt)), tt),
      )

-- A hub's section without pairs: the marker of the next section is taken for a key, and the bytes
-- after it are paired one place later.
empty_section_test :
    (extract_all_devices_kv ((9 ∷ []) ∷ body_params ((hub_bytes, []) ∷ device ∷ []))
      ≡ (hub_bytes, []) ∷ row_of device ∷ [])
    × (extract_device_kv
          ((9 ∷ [])
            ∷ body_params (
                (hub_bytes, [])
                ∷ (device.0, ((2 ∷ []), (3 ∷ [])) ∷ ((5 ∷ []), (6 ∷ [])) ∷ [])
                ∷ []))
          hub_bytes
        ≡ (3, (5 ∷ [])) ∷ [])
unfolding extract_all_devices_kv walk extract_device_kv device_pairs put_key insert
empty_section_test = (refl, refl)

one_hub : All (λ h. IsHubId (h.hub_id)) client.hubs
one_hub = ((hub_bytes, (omega arith, (omega arith, (omega arith, (omega arith, tt)))), refl), tt)

-- The same client with a callback that raises.
abbrev raising_client : HtsClient
raising_client = record client { on_state_update = some (λ hub_id s. true) }

handle_update-IsTold_example :
    (s : Step) × (handle_update raising_client (message (body_of 9 hub_bytes hub_pairs []))
      ≡ some s)
    × IsTold raising_client s
handle_update-IsTold_example =
    handle_update-IsTold raising_client (message (body_of 9 hub_bytes hub_pairs [])) one_hub

abbrev power_delta : HtsMessage
power_delta = message ((11 ∷ []) ∷ (3 ∷ []) ∷ (1 ∷ []) ∷ [])

handle_update_delta_keeps_power_example :
    power_of (get hub.hub_id (handle_update-total client power_delta one_hub).0.0.hub_states)
    ≡ power_of (get hub.hub_id client.hub_states)
handle_update_delta_keeps_power_example =
    handle_update_delta_keeps_power client power_delta
      (handle_update-total client power_delta one_hub).0
      (ap (λ t. is_body (first_byte t))
        (tlv_decode-tlv_encode ((11 ∷ []) ∷ (3 ∷ []) ∷ (1 ∷ []) ∷ [])))
      (handle_update-total client power_delta one_hub).1 (hub.hub_id)

handle_update_keeps_others_example :
    get (codes "00000001") (handle_update-total client power_delta one_hub).0.0.hub_states
    ≡ get (codes "00000001") client.hub_states
unfolding hub_id_from_message is_known hex_upper hex_digit
handle_update_keeps_others_example =
    handle_update_keeps_others client power_delta (handle_update-total client power_delta one_hub).0
      (codes "00000001") (λ q. cc) (handle_update-total client power_delta one_hub).1

handle_update_is_single_flight_example :
    let s : Step = (handle_update-total client power_delta one_hub).0 in
    ((s.0.refreshing ≡ client.refreshing) × (requests s.1 ≡ []))
    ⊎ ((hub_id : Text) × (has_text hub_id client.refreshing ≡ false)
        × (s.0.refreshing ≡ hub_id ∷ client.refreshing)
        × (requests s.1 ≡ hub_id ∷ []))
handle_update_is_single_flight_example =
    handle_update_is_single_flight client power_delta
      (handle_update-total client power_delta one_hub).0
      (handle_update-total client power_delta one_hub).1

handle_update_body_example :
    (s : Step) × (handle_update client (message (body_of 9 hub_bytes hub_pairs (device ∷ [])))
      ≡ some s)
    × IsBodyStep client hub_bytes (dict_from [] hub_pairs) (device ∷ []) s
unfolding put_key insert hub_id_from_message is_known hex_upper hex_digit
handle_update_body_example =
    handle_update_body client (message (body_of 9 hub_bytes hub_pairs (device ∷ []))) 9 hub_bytes
      hub_pairs (device ∷ []) refl (omega arith, (omega arith, (omega arith, (omega arith, tt))))
      (
        (refl, ((λ q. omega arith), ((λ q. omega arith), tt))),
        ((refl, ((λ q. omega arith), tt)), tt),
      )
      refl (tlv_decode-tlv_encode (body_of 9 hub_bytes hub_pairs (device ∷ []))) refl
