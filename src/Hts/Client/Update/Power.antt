-- ===== src/Hts/Client/Update/Power.antt =====
-- The stored states across `_handle_update` of api/hts/client.py.
use aegis_hass.Base.{
  ℕ, ◌≡◌, ◌≢◌, refl, ap, ◌∙◌, Bool, true, false, Bool-cases, ◌&&◌, Option, none, some, List, drop,
  is_nonempty, Bytes, ◌=ᵇ◌, =ᵇ→eq, =ᵇ-refl, ◌⊎◌, inl, inr, arith,
}
use aegis_hass.Base.Kv.{lookup, remove, lookup-remove}
use aegis_hass.Base.Text.{Text}
use aegis_hass.Base.TextMap.{get, set, get-set_same, get-set_other}
use aegis_hass.Hts.Messages.{HtsMessage, tlv_decode}
use aegis_hass.Hts.HubState.Keys
use aegis_hass.Hts.HubState.Network.{HubNetworkState, base_of, parse_hub_params}
use aegis_hass.Hts.Client.Rows.{Dict, extract_direct_kv, extract_device_kv, is_network_state_delta}
use aegis_hass.Hts.Client.Update.{
  HtsClient, Step, schedule_hub_refresh, store_state, check_power, handle_body, handle_push,
  handle_flat, is_body, first_byte, is_per_device_shape, handle_for_hub, hub_id_from_message,
  handle_update,
}
use aegis_hass.Hts.Client.Update.Cases.{handle_update-cases}

-- The flag that is known of a hub.
abbrev pub power_of : Option HubNetworkState → Bool
power_of known = (base_of known).externally_powered

abbrev KeepsStates : HtsClient → Step → Type 0
KeepsStates c s = s.0.hub_states ≡ c.hub_states

schedule_hub_refresh-KeepsStates :
    (c : HtsClient) (hub_id : Text) → KeepsStates c (schedule_hub_refresh c hub_id)
unfolding schedule_hub_refresh
schedule_hub_refresh-KeepsStates c hub_id = ground arith

check_power-KeepsStates :
    (c : HtsClient) (hub_id : Text) (params : List Bytes) (raw : Option Bytes)
    → KeepsStates c (check_power c hub_id params raw)
unfolding check_power
check_power-KeepsStates c hub_id params none = refl
check_power-KeepsStates c hub_id params (some raw) =
    ground (arith, schedule_hub_refresh-KeepsStates c hub_id)

handle_push-KeepsStates :
    (c : HtsClient) (hub_id : Text) (id : Bytes) (sub_key : ℕ) (params : List Bytes)
    → KeepsStates c (handle_push c hub_id id sub_key params)
unfolding handle_push
handle_push-KeepsStates c hub_id id sub_key params =
    ground (arith, schedule_hub_refresh-KeepsStates c hub_id)

parse_hub_params-powered :
    (kv : Dict) (known : Option HubNetworkState)
    → (parse_hub_params (remove Keys.hub_powered kv) known).externally_powered ≡ power_of known
unfolding parse_hub_params
parse_hub_params-powered kv known = rw (lookup-remove Keys.hub_powered Keys.hub_powered kv)

-- The states are kept, or the hub's own is replaced by one from a dictionary like `made`.
abbrev Stores : (Dict → Dict) → HtsClient → Text → Step → Type 0
Stores made c hub_id s =
    KeepsStates c s
    ⊎ ((kv : Dict) × (s.0.hub_states
          ≡ set hub_id (parse_hub_params (made kv) (get hub_id c.hub_states)) c.hub_states))

abbrev any_dict : Dict → Dict
any_dict kv = kv

abbrev no_power : Dict → Dict
no_power kv = remove Keys.hub_powered kv

store_state-states :
    (c : HtsClient) (hub_id : Text) (kv : Dict)
    → (store_state c hub_id kv).0.hub_states
      ≡ set hub_id (parse_hub_params kv (get hub_id c.hub_states)) c.hub_states
unfolding store_state
store_state-states c hub_id kv = refl

handle_body-Stores :
    (c : HtsClient) (hub_id : Text) (id : Bytes) (params : List Bytes)
    → Stores any_dict c hub_id (handle_body c hub_id id params)
unfolding handle_body
handle_body-Stores c hub_id id params =
    let kv : Dict = extract_device_kv params id in
    elim (Bool-cases (is_nonempty kv)) [
      | inl e ↦ inr (kv, rw e (store_state-states c hub_id kv))
      | inr e ↦ inl (rw e refl)
    ]

handle_flat-Stores :
    (c : HtsClient) (hub_id : Text) (id : Bytes) (sub_key : ℕ) (params : List Bytes)
    → Stores no_power c hub_id (handle_flat c hub_id id sub_key params)
unfolding handle_flat
handle_flat-Stores c hub_id id sub_key params =
    let popped : Dict = extract_direct_kv (drop 1 params) in
    let checked : HtsClient = (check_power c hub_id params (lookup Keys.hub_powered popped)).0 in
    let kept : checked.hub_states ≡ c.hub_states =
      check_power-KeepsStates c hub_id params (lookup Keys.hub_powered popped) in
    let stored : List (Text × HubNetworkState) → List (Text × HubNetworkState) =
      λ m. set hub_id (parse_hub_params (no_power popped) (get hub_id m)) m in
    elim (Bool-cases (is_nonempty (no_power popped) && is_network_state_delta (no_power popped))) [
      | inl e ↦
          inr (popped, rw e (store_state-states checked hub_id (no_power popped)) ∙ ap stored kept)
      | inr e ↦ inl (rw e (handle_push-KeepsStates checked hub_id id sub_key params) ∙ kept)
    ]

handle_for_hub-Stores :
    (c : HtsClient) (hub_id : Text) (id : Bytes) (params : List Bytes)
    → Stores any_dict c hub_id (handle_for_hub c hub_id id params)
unfolding handle_for_hub
handle_for_hub-Stores c hub_id id params = elim (Bool-cases (is_body (first_byte params))) [
  | inl eb ↦ rw eb (handle_body-Stores c hub_id id params)
  | inr eb ↦ elim (Bool-cases (is_per_device_shape params)) [
    | inl ep ↦ rw (eb, ep) (inl (handle_push-KeepsStates c hub_id id (first_byte params) params))
    | inr ep ↦ elim (handle_flat-Stores c hub_id id (first_byte params) params) [
      | inl kept ↦ rw (eb, ep) (inl kept)
      | inr (kv, stored) ↦ rw (eb, ep) (inr (no_power kv, stored))
    ]
  ]
]

no_power-powered :
    (c : HtsClient) (hub_id : Text) (s : Step)
    → Stores no_power c hub_id s
    → (hub : Text) → power_of (get hub s.0.hub_states) ≡ power_of (get hub c.hub_states)
no_power-powered c hub_id s (inl kept) hub = ap (λ m. power_of (get hub m)) kept
no_power-powered c hub_id s (inr (kv, stored)) hub =
    ap (λ m. power_of (get hub m)) stored ∙ elim (Bool-cases (hub_id =ᵇ hub)) [
      | inl e ↦
          let same : hub_id ≡ hub = =ᵇ→eq hub_id hub e in
          let new : HubNetworkState = parse_hub_params (no_power kv) (get hub c.hub_states) in
          rw (same, get-set_same hub new c.hub_states)
            (parse_hub_params-powered kv (get hub c.hub_states))
      | inr e ↦ ap power_of (
          get-set_other hub_id hub _ c.hub_states
            (λ q. let equal : (hub_id =ᵇ hub) ≡ true = rw q (=ᵇ-refl hub) in cc))
    ]

handle_for_hub-powered :
    (c : HtsClient) (hub_id : Text) (id : Bytes) (params : List Bytes)
    → is_body (first_byte params) ≡ false
    → (hub : Text)
    → power_of (get hub (handle_for_hub c hub_id id params).0.hub_states)
      ≡ power_of (get hub c.hub_states)
unfolding handle_for_hub
handle_for_hub-powered c hub_id id params eb hub = elim (Bool-cases (is_per_device_shape params)) [
  | inl ep ↦
      rw (eb, ep)
        (no_power-powered c hub_id (handle_push c hub_id id (first_byte params) params)
          (inl (handle_push-KeepsStates c hub_id id (first_byte params) params)) hub)
  | inr ep ↦
      rw (eb, ep)
        (no_power-powered c hub_id (handle_flat c hub_id id (first_byte params) params)
          (handle_flat-Stores c hub_id id (first_byte params) params) hub)
]

-- A message that is not a SETTINGS_BODY or a STATUS_BODY leaves the mains-power flag of every hub
-- as it was, whatever its bytes; a hub that was not known counts as not powered.
pub handle_update_delta_keeps_power :
    (c : HtsClient) (msg : HtsMessage) (s : Step)
    → is_body (first_byte (tlv_decode msg.payload)) ≡ false
    → handle_update c msg ≡ some s
    → (hub : Text) → power_of (get hub s.0.hub_states) ≡ power_of (get hub c.hub_states)
handle_update_delta_keeps_power c msg s eb e hub = elim (handle_update-cases c msg s e) [
  | inl idle ↦ ap (λ t. power_of (get hub t.0.hub_states)) idle
  | inr (hub_id, id, eh, ei, done) ↦
      ap (λ t. power_of (get hub t.0.hub_states)) done
      ∙ handle_for_hub-powered c hub_id id (tlv_decode msg.payload) eb hub
]

-- Whatever a message holds, the stored state of a hub that it is not about does not change.
pub handle_update_keeps_others :
    (c : HtsClient) (msg : HtsMessage) (s : Step) (hub : Text)
    → hub_id_from_message c msg ≢ some hub
    → handle_update c msg ≡ some s
    → get hub s.0.hub_states ≡ get hub c.hub_states
handle_update_keeps_others c msg s hub other e = elim (handle_update-cases c msg s e) [
  | inl idle ↦ ap (λ t. get hub t.0.hub_states) idle
  | inr (hub_id, id, eh, ei, done) ↦
      ap (λ t. get hub t.0.hub_states) done
      ∙ elim (handle_for_hub-Stores c hub_id id (tlv_decode msg.payload)) [
        | inl kept ↦ ap (get hub) kept
        | inr (kv, stored) ↦
            ap (get hub) stored
            ∙ get-set_other hub_id hub _ c.hub_states (λ q. other (eh ∙ ap some q))
      ]
]
