-- ===== src/Hts/Client/Update.antt =====
-- `_handle_update` of api/hts/client.py, with `_hub_id_from_message` and `_schedule_hub_refresh`.
pub mod Cases
pub mod Power
pub mod Refresh
pub mod Body
pub mod Raises
use aegis_hass.Base.{
  ℕ, Bool, true, false, not, ◌&&◌, ◌||◌, ◌==◌, if◌then◌else◌, Option, none, some, List, [], ◌∷◌,
  ◌++◌, length, get_or, drop, is_nonempty, Bytes, ◌=ᵇ◌, to_bytes,
}
use aegis_hass.Base.Kv.{lookup, remove}
use aegis_hass.Base.Text.{Text, hex_upper, from_hex}
use aegis_hass.Base.TextMap.{has_text, get, set}
use aegis_hass.Hts.Auth.{HubInfo}
use aegis_hass.Hts.Messages.{HtsMessage, tlv_decode}
use aegis_hass.Hts.HubState.Keys
use aegis_hass.Hts.HubState.Values.{bool_val}
use aegis_hass.Hts.HubState.Network.{HubNetworkState, parse_hub_params}
use aegis_hass.Hts.Client.Rows.{
  Dict, Row, extract_direct_kv, extract_device_kv, extract_all_devices_kv, carries_device_rows,
  is_network_state_delta,
}

-- The part of `HtsClient` that updates use; `refreshing` are the hubs with a refresh task that is
-- not done. `on_state_update` is the callback, if it is set, given as the calls at which it raises;
-- `on_device_kv` says whether that callback is set, and what it raises is caught where it is called.
pub record HtsClient : Type 0 where
  pub hubs : List HubInfo
  pub hub_states : List (Text × HubNetworkState)
  pub refreshing : List Text
  pub on_state_update : Option (Text → HubNetworkState → Bool)
  pub on_device_kv : Bool

-- What the handler does to the outside: a callback's call with its arguments, or a refresh task. The
-- exception of a callback that leaves the handler, with nothing run after it, is `callback_raised`.
pub data Effect : Type 0 where
  state_update : Text → HubNetworkState → Effect
  device_kv : Text → Text → Dict → Bool → Effect
  request_data : Text → Effect
  callback_raised : Effect

abbrev pub Step : Type 0
Step = HtsClient × List Effect

abbrev pub after : List Effect → Step → Step
after done (c, effects) = (c, done ++ effects)

unfoldable pub is_known : Text → List HubInfo → Bool
is_known id [] = false
is_known id (hub ∷ hubs) = if hub.hub_id =ᵇ id then true else is_known id hubs

-- `f"{endpoint:08X}"` of a four-byte endpoint.
abbrev pub endpoint_id : ℕ → Text
endpoint_id endpoint = hex_upper (to_bytes 4 endpoint)

abbrev pub only_hub : List HubInfo → Option Text
only_hub (hub ∷ []) = some (hub.hub_id)
only_hub _ = none

unfoldable pub hub_id_from_message : HtsClient → HtsMessage → Option Text
hub_id_from_message c msg =
    if is_known (endpoint_id msg.sender) c.hubs
    then some (endpoint_id msg.sender)
    else if is_known (endpoint_id msg.receiver) c.hubs
    then some (endpoint_id msg.receiver)
    else only_hub c.hubs

unfoldable pub schedule_hub_refresh : HtsClient → Text → Step
schedule_hub_refresh c hub_id = if has_text hub_id c.refreshing then (c, []) else (
  record {
    hubs = c.hubs;
    hub_states = c.hub_states;
    refreshing = hub_id ∷ c.refreshing;
    on_state_update = c.on_state_update;
    on_device_kv = c.on_device_kv;
  },
  request_data hub_id ∷ [],
)

-- `self._refresh_tasks.pop(hub_id, None)` at a task's end.
abbrev pub without : Text → List Text → List Text
without hub_id [] = []
without hub_id (t ∷ ts) = if t =ᵇ hub_id then without hub_id ts else t ∷ without hub_id ts

unfoldable pub refresh_done : HtsClient → Text → HtsClient
refresh_done c hub_id = record {
  hubs = c.hubs;
  hub_states = c.hub_states;
  refreshing = without hub_id c.refreshing;
  on_state_update = c.on_state_update;
  on_device_kv = c.on_device_kv;
}

-- `if self._on_state_update: self._on_state_update(hub_id, new_state)`, which no `try` guards.
abbrev pub call_state_update :
    Option (Text → HubNetworkState → Bool) → Text → HubNetworkState → List Effect
call_state_update none hub_id new_state = []
call_state_update (some raises) hub_id new_state =
    state_update hub_id new_state ∷ (if raises hub_id new_state then callback_raised ∷ [] else [])

-- `new_state = parse_hub_params(kv, existing)`, stored and handed to `on_state_update`; it is the last
-- thing that the handler does.
unfoldable pub store_state : HtsClient → Text → Dict → Step
store_state c hub_id kv =
    let new_state = parse_hub_params kv (get hub_id c.hub_states) in
    (
      record {
        hubs = c.hubs;
        hub_states = set hub_id new_state c.hub_states;
        refreshing = c.refreshing;
        on_state_update = c.on_state_update;
        on_device_kv = c.on_device_kv;
      },
      call_state_update c.on_state_update hub_id new_state,
    )

-- The rows with `did != bytes.fromhex(hub_id)` that are not empty, as calls of `on_device_kv`.
unfoldable pub device_calls : Text → Bytes → Bool → List Row → List Effect
device_calls hub_id id from_body [] = []
device_calls hub_id id from_body ((did, kv) ∷ rows) =
    let more = device_calls hub_id id from_body rows in
    if not (did =ᵇ id) && is_nonempty kv
    then device_kv hub_id (hex_upper did) kv from_body ∷ more
    else more

abbrev pub call_devices : HtsClient → Text → Bytes → Bool → List Bytes → List Effect
call_devices c hub_id id from_body params =
    if c.on_device_kv then device_calls hub_id id from_body (extract_all_devices_kv params) else []

-- SETTINGS_BODY and STATUS_BODY.
unfoldable pub handle_body : HtsClient → Text → Bytes → List Bytes → Step
handle_body c hub_id id params =
    let kv = extract_device_kv params id in
    after (call_devices c hub_id id true params)
      (if is_nonempty kv then store_state c hub_id kv else (c, []))

abbrev pub agree : Bool → Bool → Bool
agree true b = b
agree false b = not b

-- `_bool_val(powered_raw) == prev_powered`, which an unknown hub's `None` never is.
abbrev pub same_power : Bytes → Option HubNetworkState → Bool
same_power raw none = false
same_power raw (some s) = agree (bool_val raw) s.externally_powered

-- What is done with the power flag that a delta's dictionary held.
unfoldable pub check_power : HtsClient → Text → List Bytes → Option Bytes → Step
unfolding schedule_hub_refresh
check_power c hub_id params none = (c, [])
check_power c hub_id params (some raw) =
    if carries_device_rows params || same_power raw (get hub_id c.hub_states)
    then (c, [])
    else schedule_hub_refresh c hub_id

-- Sub-keys 11 and 12, and what is left.
unfoldable pub handle_push : HtsClient → Text → Bytes → ℕ → List Bytes → Step
unfolding schedule_hub_refresh
handle_push c hub_id id sub_key params =
    if sub_key == 11 || sub_key == 12
    then (c, call_devices c hub_id id false params)
    else schedule_hub_refresh c hub_id

abbrev pub is_per_device_shape : List Bytes → Bool
is_per_device_shape (first ∷ second ∷ rest) = length second == 4
is_per_device_shape _ = false

-- The flat shape: the power flag leaves the dictionary first.
unfoldable pub handle_flat : HtsClient → Text → Bytes → ℕ → List Bytes → Step
unfolding check_power store_state handle_push
handle_flat c hub_id id sub_key params =
    let popped = extract_direct_kv (drop 1 params) in
    let kv = remove Keys.hub_powered popped in
    let (checked, effects) = check_power c hub_id params (lookup Keys.hub_powered popped) in
    after effects (
      if is_nonempty kv && is_network_state_delta kv
      then store_state checked hub_id kv
      else handle_push checked hub_id id sub_key params)

abbrev pub first_byte : List Bytes → ℕ
first_byte params = get_or (get_or params 0 []) 0 0

abbrev pub is_body : ℕ → Bool
is_body sub_key = sub_key == 5 || sub_key == 9

-- With the hub's id, as a text and as bytes.
unfoldable pub handle_for_hub : HtsClient → Text → Bytes → List Bytes → Step
unfolding handle_body handle_flat handle_push
handle_for_hub c hub_id id params =
    if is_body (first_byte params)
    then handle_body c hub_id id params
    else if is_per_device_shape params
    then handle_push c hub_id id (first_byte params) params
    else handle_flat c hub_id id (first_byte params) params

-- `none` is the `ValueError` of `bytes.fromhex`, for a hub id that is no hexadecimal text.
abbrev pub handle_known : HtsClient → Text → List Bytes → Option Bytes → Option Step
handle_known c hub_id params none = none
handle_known c hub_id params (some id) = some (handle_for_hub c hub_id id params)

-- Nothing is done for no parameters, nor for no hub or an empty id.
abbrev pub handle_params : HtsClient → Option Text → List Bytes → Option Step
handle_params c none params = some (c, [])
handle_params c (some hub_id) params =
    if is_nonempty params && is_nonempty hub_id
    then handle_known c hub_id params (from_hex hub_id)
    else some (c, [])

unfoldable pub handle_update : HtsClient → HtsMessage → Option Step
handle_update c msg = handle_params c (hub_id_from_message c msg) (tlv_decode msg.payload)
