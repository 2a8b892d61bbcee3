-- ===== src/Hts/Client/Update/Body.antt =====
-- `_handle_update` of api/hts/client.py on a SETTINGS_BODY or a STATUS_BODY.
use aegis_hass.Base.{
  ℕ, ◌≡◌, refl, ap, ◌∙◌, Bool, true, if◌then◌else◌, Option, none, some, List, [], ◌∷◌, ◌++◌, map,
  is_nonempty, Bytes, IsByte, All, length, ◌=ᵇ◌, =ᵇ-refl, arith,
}
use aegis_hass.Base.Text.{Text, hex_upper, from_hex-hex_upper}
use aegis_hass.Base.TextMap.{get, get-set_same}
use aegis_hass.Hts.Messages.{HtsMessage, tlv_decode}
use aegis_hass.Hts.HubState.Network.{HubNetworkState, parse_hub_params}
use aegis_hass.Hts.Client.Rows.{Dict, Row, extract_device_kv, extract_all_devices_kv}
use aegis_hass.Hts.Client.Rows.Sections.{
  Section, IsSection, body_params, dict_from, row_of, extract_device_kv-section,
  extract_all_devices_kv-sections,
}
use aegis_hass.Hts.Client.Update.{
  HtsClient, Effect, state_update, device_kv, callback_raised, Step, call_state_update, store_state,
  device_calls, handle_body, is_body, handle_for_hub, hub_id_from_message, handle_update,
}

-- A body's parameters: its sub-key, and the hub's section with the devices' after it.
abbrev pub body_of : ℕ → Bytes → List (Bytes × Bytes) → List Section → List Bytes
body_of sub_key id pairs devices = (sub_key ∷ []) ∷ body_params ((id, pairs) ∷ devices)

body_rows :
    (sub_key : ℕ) (id : Bytes) (pairs : List (Bytes × Bytes)) (devices : List Section)
    → All IsSection ((id, pairs) ∷ devices)
    → extract_all_devices_kv (body_of sub_key id pairs devices) ≡ map row_of ((id, pairs) ∷ devices)
body_rows sub_key id pairs devices h =
    extract_all_devices_kv-sections ((sub_key ∷ []) ∷ []) ((id, pairs) ∷ devices)
      ((λ q. omega arith), tt) h

body_kv :
    (sub_key : ℕ) (id : Bytes) (pairs : List (Bytes × Bytes)) (devices : List Section)
    → All IsSection ((id, pairs) ∷ devices)
    → is_nonempty (dict_from [] pairs) ≡ true
    → extract_device_kv (body_of sub_key id pairs devices) id ≡ dict_from [] pairs
body_kv sub_key id [] devices h hn = cc
body_kv sub_key id (pair ∷ pairs) devices ((hid, hp), h) hn =
    extract_device_kv-section ((sub_key ∷ []) ∷ []) id (pair ∷ pairs) devices
      ((λ q. let four : length (sub_key ∷ []) ≡ 4 = ap length q ∙ hid in omega arith), tt)
      ((hid, hp), h) refl

own_row :
    (hub_id : Text) (id : Bytes) (kv : Dict) (rows : List Row)
    → device_calls hub_id id true ((id, kv) ∷ rows) ≡ device_calls hub_id id true rows
unfolding device_calls
own_row hub_id id kv rows = rw (=ᵇ-refl id)

-- The calls for the sections behind the hub's: one for each that is not the hub's own and whose keys
-- come to a dictionary with an entry.
abbrev pub call_of : Text → Bytes → Dict → List Effect
call_of hub_id did [] = []
call_of hub_id did (entry ∷ kv) = device_kv hub_id (hex_upper did) (entry ∷ kv) true ∷ []

abbrev pub section_calls : Text → Bytes → List Section → List Effect
section_calls hub_id id [] = []
section_calls hub_id id ((did, pairs) ∷ devices) =
    (if did =ᵇ id then [] else call_of hub_id did (dict_from [] pairs))
    ++ section_calls hub_id id devices

row_calls :
    (hub_id : Text) (id did : Bytes) (kv : Dict) (rows : List Row)
    → device_calls hub_id id true ((did, kv) ∷ rows)
      ≡ (if did =ᵇ id then [] else call_of hub_id did kv) ++ device_calls hub_id id true rows
unfolding device_calls
row_calls hub_id id did [] rows = ground arith
row_calls hub_id id did (entry ∷ kv) rows = ground arith

device_calls-row_of :
    (hub_id : Text) (id : Bytes) (devices : List Section)
    → device_calls hub_id id true (map row_of devices) ≡ section_calls hub_id id devices
unfolding device_calls
device_calls-row_of hub_id id [] = refl
device_calls-row_of hub_id id ((did, pairs) ∷ devices) =
    row_calls hub_id id did (dict_from [] pairs) (map row_of devices)
    ∙ ap (λ t. (if did =ᵇ id then [] else call_of hub_id did (dict_from [] pairs)) ++ t)
        (device_calls-row_of hub_id id devices)

-- What `on_state_update` comes to: nothing where it is not set, else one call, whose exception, if it
-- raises, is the last that happens.
abbrev pub state_calls :
    Option (Text → HubNetworkState → Bool) → Text → HubNetworkState → List Effect
state_calls none hub_id new_state = []
state_calls (some raises) hub_id new_state =
    if raises hub_id new_state
    then state_update hub_id new_state ∷ callback_raised ∷ []
    else state_update hub_id new_state ∷ []

call_state_update-state_calls :
    (callback : Option (Text → HubNetworkState → Bool)) (hub_id : Text) (s : HubNetworkState)
    → call_state_update callback hub_id s ≡ state_calls callback hub_id s
call_state_update-state_calls none hub_id s = refl
call_state_update-state_calls (some raises) hub_id s = ground arith

-- The calls and the stored state that a body comes to, for the hub's dictionary and the devices.
abbrev pub IsBodyStep : HtsClient → Bytes → Dict → List Section → Step → Type 0
IsBodyStep c id kv devices s =
    let hub_id : Text = hex_upper id in
    let new_state : HubNetworkState = parse_hub_params kv (get hub_id c.hub_states) in
    (get hub_id s.0.hub_states ≡ some new_state)
    × (s.1
        ≡ (if c.on_device_kv then section_calls hub_id id devices else [])
          ++ state_calls c.on_state_update hub_id new_state)

handle_body-body_of :
    (c : HtsClient) (sub_key : ℕ) (id : Bytes) (pairs : List (Bytes × Bytes))
    (devices : List Section)
    → All IsSection ((id, pairs) ∷ devices)
    → is_nonempty (dict_from [] pairs) ≡ true
    → IsBodyStep c id
        (dict_from [] pairs)
        devices
        (handle_body c (hex_upper id) id (body_of sub_key id pairs devices))
unfolding handle_body store_state
handle_body-body_of c sub_key id pairs devices h hn =
    rw
      (
        body_kv sub_key id pairs devices h hn,
        hn,
        body_rows sub_key id pairs devices h,
        own_row (hex_upper id) id (dict_from [] pairs) (map row_of devices),
        device_calls-row_of (hex_upper id) id devices,
        call_state_update-state_calls c.on_state_update (hex_upper id) _,
      )
      (get-set_same (hex_upper id) _ c.hub_states, refl)

has_digits : (id : Bytes) → length id ≡ 4 → is_nonempty (hex_upper id) ≡ true
unfolding hex_upper
has_digits [] four = absurd (omega (arith, four))
has_digits (b ∷ id) four = refl

-- For a SETTINGS_BODY or a STATUS_BODY with the hub's section first, `_handle_update` stores for the
-- hub the state that `parse_hub_params` makes of exactly that section's pairs. Where `on_device_kv` is
-- set, it is called, in the body's order, once for each section behind the hub's that is not the
-- hub's own and has a key of one byte, with the dictionary of its pairs and as of a body. Then
-- `on_state_update`, where it is set, is called with the new state, and if it raises, its exception
-- ends the handler. The message must be the hub's, and the hub's section must have a key of one byte.
pub handle_update_body :
    (c : HtsClient) (msg : HtsMessage) (sub_key : ℕ) (id : Bytes) (pairs : List (Bytes × Bytes))
    (devices : List Section)
    → is_body sub_key ≡ true
    → All IsByte id
    → All IsSection ((id, pairs) ∷ devices)
    → is_nonempty (dict_from [] pairs) ≡ true
    → tlv_decode msg.payload ≡ body_of sub_key id pairs devices
    → hub_id_from_message c msg ≡ some (hex_upper id)
    → (s : Step) × (handle_update c msg ≡ some s) × IsBodyStep c id (dict_from [] pairs) devices s
unfolding handle_update handle_for_hub
handle_update_body c msg sub_key id pairs devices hs hb h hn ed eh = (
  handle_body c (hex_upper id) id (body_of sub_key id pairs devices),
  rw (ed, eh, from_hex-hex_upper id hb, has_digits id (h.0).0, hs) refl,
  handle_body-body_of c sub_key id pairs devices h hn,
)
