-- ===== src/Hts/Client/Update/Refresh.antt =====
-- The refresh tasks of `_handle_update` and `_schedule_hub_refresh` of api/hts/client.py.
use aegis_hass.Base.{
  ℕ, ◌≡◌, refl, sym, ap, ap₂, ◌∙◌, Bool, true, false, Bool-cases, ◌||◌, ◌&&◌, not, ◌==◌, Option,
  none, some, List, [], ◌∷◌, ◌++◌, drop, is_nonempty, Bytes, ◌=ᵇ◌, =ᵇ-refl, by_if, ◌⊎◌, inl, inr,
}
use aegis_hass.Base.Kv.{lookup, remove}
use aegis_hass.Base.Text.{Text}
use aegis_hass.Base.TextMap.{has_text, get}
use aegis_hass.Hts.Messages.{HtsMessage, tlv_decode}
use aegis_hass.Hts.HubState.Keys
use aegis_hass.Hts.HubState.Network.{HubNetworkState}
use aegis_hass.Hts.Client.Rows.{
  Dict, Row, extract_direct_kv, extract_device_kv, extract_all_devices_kv, is_network_state_delta,
  carries_device_rows,
}
use aegis_hass.Hts.Client.Update.{
  HtsClient, Effect, state_update, device_kv, request_data, callback_raised, Step, after,
  call_state_update, schedule_hub_refresh, store_state, device_calls, call_devices, check_power,
  same_power, handle_body, handle_push, handle_flat, is_body, first_byte, is_per_device_shape,
  handle_for_hub, handle_update,
}
use aegis_hass.Hts.Client.Update.Cases.{handle_update-cases}

-- The hubs for which a refresh task is made.
abbrev pub requests : List Effect → List Text
requests [] = []
requests (request_data hub_id ∷ effects) = hub_id ∷ requests effects
requests (state_update hub_id s ∷ effects) = requests effects
requests (device_kv hub_id did kv from_body ∷ effects) = requests effects
requests (callback_raised ∷ effects) = requests effects

requests-append : (xs ys : List Effect) → requests (xs ++ ys) ≡ requests xs ++ requests ys
requests-append [] ys = refl
requests-append (request_data hub_id ∷ xs) ys = ap (λ t. hub_id ∷ t) (requests-append xs ys)
requests-append (state_update hub_id s ∷ xs) ys = requests-append xs ys
requests-append (device_kv hub_id did kv from_body ∷ xs) ys = requests-append xs ys
requests-append (callback_raised ∷ xs) ys = requests-append xs ys

requests-call_state_update :
    (callback : Option (Text → HubNetworkState → Bool)) (hub_id : Text) (s : HubNetworkState)
    → requests (call_state_update callback hub_id s) ≡ []
requests-call_state_update none hub_id s = refl
requests-call_state_update (some raises) hub_id s =
    by_if (λ effects. requests effects ≡ []) (raises hub_id s) _ _ (λ _. refl) (λ _. refl)

-- No task is made, or one for the hub, which had none.
abbrev pub IsSingle : Text → HtsClient → Step → Type 0
IsSingle hub_id c s =
    ((s.0.refreshing ≡ c.refreshing) × (requests s.1 ≡ []))
    ⊎ ((has_text hub_id c.refreshing ≡ false)
        × (s.0.refreshing ≡ hub_id ∷ c.refreshing)
        × (requests s.1 ≡ hub_id ∷ []))

schedule_hub_refresh-IsSingle :
    (c : HtsClient) (hub_id : Text) → IsSingle hub_id c (schedule_hub_refresh c hub_id)
unfolding schedule_hub_refresh
schedule_hub_refresh-IsSingle c hub_id = elim (Bool-cases (has_text hub_id c.refreshing)) [
  | inl e ↦ rw e (inl (refl, refl))
  | inr e ↦ inr (e, rw e refl, rw e refl)
]

check_power-IsSingle :
    (c : HtsClient) (hub_id : Text) (params : List Bytes) (raw : Option Bytes)
    → IsSingle hub_id c (check_power c hub_id params raw)
unfolding check_power
check_power-IsSingle c hub_id params none = inl (refl, refl)
check_power-IsSingle c hub_id params (some raw) =
    elim (Bool-cases (carries_device_rows params || same_power raw (get hub_id c.hub_states))) [
      | inl e ↦ rw e (inl (refl, refl))
      | inr e ↦ rw e (schedule_hub_refresh-IsSingle c hub_id)
    ]

requests-device_calls :
    (hub_id : Text) (id : Bytes) (from_body : Bool) (rows : List Row)
    → requests (device_calls hub_id id from_body rows) ≡ []
unfolding device_calls
requests-device_calls hub_id id from_body [] = refl
requests-device_calls hub_id id from_body ((did, kv) ∷ rows) =
    elim (Bool-cases (not (did =ᵇ id) && is_nonempty kv)) [
      | inl e ↦ rw e (requests-device_calls hub_id id from_body rows)
      | inr e ↦ rw e (requests-device_calls hub_id id from_body rows)
    ]

requests-call_devices :
    (c : HtsClient) (hub_id : Text) (id : Bytes) (from_body : Bool) (params : List Bytes)
    → requests (call_devices c hub_id id from_body params) ≡ []
requests-call_devices c hub_id id from_body params = elim (Bool-cases c.on_device_kv) [
  | inl e ↦ rw e (requests-device_calls hub_id id from_body (extract_all_devices_kv params))
  | inr e ↦ rw e refl
]

store_state-IsSingle :
    (c : HtsClient) (hub_id : Text) (kv : Dict) → IsSingle hub_id c (store_state c hub_id kv)
unfolding store_state
store_state-IsSingle c hub_id kv = inl (refl, requests-call_state_update c.on_state_update hub_id _)

handle_push-IsSingle :
    (c : HtsClient) (hub_id : Text) (id : Bytes) (sub_key : ℕ) (params : List Bytes)
    → IsSingle hub_id c (handle_push c hub_id id sub_key params)
unfolding handle_push
handle_push-IsSingle c hub_id id sub_key params =
    elim (Bool-cases (sub_key == 11 || sub_key == 12)) [
      | inl e ↦ rw e (inl (refl, requests-call_devices c hub_id id false params))
      | inr e ↦ rw e (schedule_hub_refresh-IsSingle c hub_id)
    ]

found : (hub_id : Text) (texts : List Text) → has_text hub_id (hub_id ∷ texts) ≡ true
unfolding has_text
found hub_id texts = rw (=ᵇ-refl hub_id) refl

-- A second step that may make a task for the same hub finds the first one's.
after-IsSingle :
    (hub_id : Text) (c : HtsClient) (first s : Step)
    → IsSingle hub_id c first
    → IsSingle hub_id first.0 s
    → IsSingle hub_id c (after first.1 s)
after-IsSingle hub_id c (c1, es) (c2, fs) (inl (k, n)) (inl (k2, n2)) =
    inl (k2 ∙ k, requests-append es fs ∙ ap₂ ◌++◌ n n2)
after-IsSingle hub_id c (c1, es) (c2, fs) (inl (k, n)) (inr (h, k2, n2)) = inr (
  sym (ap (has_text hub_id) k) ∙ h,
  k2 ∙ ap (λ t. hub_id ∷ t) k,
  requests-append es fs ∙ ap₂ ◌++◌ n n2,
)
after-IsSingle hub_id c (c1, es) (c2, fs) (inr (h, k, n)) (inl (k2, n2)) =
    inr (h, k2 ∙ k, requests-append es fs ∙ ap₂ ◌++◌ n n2)
after-IsSingle hub_id c (c1, es) (c2, fs) (inr (h, k, n)) (inr (h2, k2, n2)) =
    let there : has_text hub_id c1.refreshing ≡ true = rw k (found hub_id c.refreshing) in cc

handle_flat-IsSingle :
    (c : HtsClient) (hub_id : Text) (id : Bytes) (sub_key : ℕ) (params : List Bytes)
    → IsSingle hub_id c (handle_flat c hub_id id sub_key params)
unfolding handle_flat
handle_flat-IsSingle c hub_id id sub_key params =
    let popped : Dict = extract_direct_kv (drop 1 params) in
    let kv : Dict = remove Keys.hub_powered popped in
    let checked : Step = check_power c hub_id params (lookup Keys.hub_powered popped) in
    let single : IsSingle hub_id c checked = check_power-IsSingle c hub_id params _ in
    elim (Bool-cases (is_nonempty kv && is_network_state_delta kv)) [
      | inl e ↦ rw e (
          after-IsSingle hub_id c checked (store_state checked.0 hub_id kv) single
            (store_state-IsSingle checked.0 hub_id kv))
      | inr e ↦ rw e (
          after-IsSingle hub_id c checked (handle_push checked.0 hub_id id sub_key params) single
            (handle_push-IsSingle checked.0 hub_id id sub_key params))
    ]

handle_body-IsSingle :
    (c : HtsClient) (hub_id : Text) (id : Bytes) (params : List Bytes)
    → IsSingle hub_id c (handle_body c hub_id id params)
unfolding handle_body
handle_body-IsSingle c hub_id id params =
    let kv : Dict = extract_device_kv params id in
    let calls : Step = (c, call_devices c hub_id id true params) in
    let quiet : IsSingle hub_id c calls =
      inl (refl, requests-call_devices c hub_id id true params) in
    elim (Bool-cases (is_nonempty kv)) [
      | inl e ↦ rw e (
          after-IsSingle hub_id c calls (store_state c hub_id kv) quiet
            (store_state-IsSingle c hub_id kv))
      | inr e ↦ rw e (after-IsSingle hub_id c calls (c, []) quiet (inl (refl, refl)))
    ]

handle_for_hub-IsSingle :
    (c : HtsClient) (hub_id : Text) (id : Bytes) (params : List Bytes)
    → IsSingle hub_id c (handle_for_hub c hub_id id params)
unfolding handle_for_hub
handle_for_hub-IsSingle c hub_id id params = elim (Bool-cases (is_body (first_byte params))) [
  | inl eb ↦ rw eb (handle_body-IsSingle c hub_id id params)
  | inr eb ↦ elim (Bool-cases (is_per_device_shape params)) [
    | inl ep ↦ rw (eb, ep) (handle_push-IsSingle c hub_id id (first_byte params) params)
    | inr ep ↦ rw (eb, ep) (handle_flat-IsSingle c hub_id id (first_byte params) params)
  ]
]

-- Whatever a message holds, `_handle_update` starts no refresh task, or one: for a single hub, which
-- had none that was still running, and whose task is then the only one that is added.
pub handle_update_is_single_flight :
    (c : HtsClient) (msg : HtsMessage) (s : Step)
    → handle_update c msg ≡ some s
    → ((s.0.refreshing ≡ c.refreshing) × (requests s.1 ≡ []))
      ⊎ ((hub_id : Text) × (has_text hub_id c.refreshing ≡ false)
          × (s.0.refreshing ≡ hub_id ∷ c.refreshing)
          × (requests s.1 ≡ hub_id ∷ []))
handle_update_is_single_flight c msg s e = elim (handle_update-cases c msg s e) [
  | inl idle ↦ inl (ap (λ t. t.0.refreshing) idle, ap (λ t. requests t.1) idle)
  | inr (hub_id, id, eh, ei, done) ↦
      elim (handle_for_hub-IsSingle c hub_id id (tlv_decode msg.payload)) [
        | inl (k, n) ↦ inl (ap (λ t. t.0.refreshing) done ∙ k, ap (λ t. requests t.1) done ∙ n)
        | inr (h, k, n) ↦
            inr (hub_id, h, ap (λ t. t.0.refreshing) done ∙ k, ap (λ t. requests t.1) done ∙ n)
      ]
]
