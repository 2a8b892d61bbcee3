-- ===== src/Hts/Client/Update/Raises.antt =====
-- The exceptions that leave `_handle_update` of api/hts/client.py.
use aegis_hass.Base.{
  ℕ, ◌≡◌, refl, sym, ap, ◌∙◌, Bool, true, false, Bool-cases, ◌||◌, ◌&&◌, not, ◌==◌, if◌then◌else◌,
  by_if, Option, none, some, List, [], ◌∷◌, ◌++◌, drop, is_nonempty, Bytes, ◌=ᵇ◌, All, inl, inr,
}
use aegis_hass.Base.Kv.{lookup, remove}
use aegis_hass.Base.Text.{Text}
use aegis_hass.Base.TextMap.{has_text, get, get-set_same}
use aegis_hass.Hts.Messages.{HtsMessage, tlv_decode}
use aegis_hass.Hts.HubState.Keys
use aegis_hass.Hts.HubState.Network.{HubNetworkState}
use aegis_hass.Hts.Client.Rows.{
  Dict, Row, extract_direct_kv, extract_device_kv, extract_all_devices_kv, is_network_state_delta,
  carries_device_rows,
}
use aegis_hass.Hts.Client.Update.{
  HtsClient, Effect, state_update, device_kv, request_data, callback_raised, Step, after,
  call_state_update, schedule_hub_refresh, store_state, device_calls, call_devices, check_power,
  same_power, handle_body, handle_push, handle_flat, is_body, first_byte, is_per_device_shape,
  handle_for_hub, handle_update,
}
use aegis_hass.Hts.Client.Update.Cases.{IsHubId, handle_update-cases, handle_update-total}

-- Whether an exception leaves the handler.
abbrev pub has_raised : List Effect → Bool
has_raised [] = false
has_raised (callback_raised ∷ effects) = true
has_raised (request_data hub_id ∷ effects) = has_raised effects
has_raised (state_update hub_id s ∷ effects) = has_raised effects
has_raised (device_kv hub_id did kv from_body ∷ effects) = has_raised effects

-- The arguments that `on_state_update` is called with.
abbrev pub updates : List Effect → List (Text × HubNetworkState)
updates [] = []
updates (callback_raised ∷ effects) = updates effects
updates (request_data hub_id ∷ effects) = updates effects
updates (state_update hub_id s ∷ effects) = (hub_id, s) ∷ updates effects
updates (device_kv hub_id did kv from_body ∷ effects) = updates effects

-- Whether the callback raises at one of the calls.
abbrev pub raises_at : Option (Text → HubNetworkState → Bool) → List (Text × HubNetworkState) → Bool
raises_at none calls = false
raises_at (some raises) [] = false
raises_at (some raises) ((hub_id, s) ∷ calls) = raises hub_id s || raises_at (some raises) calls

-- An exception leaves the handler exactly where the callback raised, and what the callback was called
-- with is stored by then.
abbrev pub IsTold : HtsClient → Step → Type 0
IsTold c s =
    (has_raised s.1 ≡ raises_at c.on_state_update (updates s.1))
    × All (λ u. get u.0 s.0.hub_states ≡ some u.1) (updates s.1)

has_raised-append : (xs ys : List Effect) → has_raised (xs ++ ys) ≡ (has_raised xs || has_raised ys)
has_raised-append [] ys = refl
has_raised-append (callback_raised ∷ xs) ys = refl
has_raised-append (request_data hub_id ∷ xs) ys = has_raised-append xs ys
has_raised-append (state_update hub_id s ∷ xs) ys = has_raised-append xs ys
has_raised-append (device_kv hub_id did kv from_body ∷ xs) ys = has_raised-append xs ys

updates-append : (xs ys : List Effect) → updates (xs ++ ys) ≡ updates xs ++ updates ys
updates-append [] ys = refl
updates-append (callback_raised ∷ xs) ys = updates-append xs ys
updates-append (request_data hub_id ∷ xs) ys = updates-append xs ys
updates-append (state_update hub_id s ∷ xs) ys = ap (λ t. (hub_id, s) ∷ t) (updates-append xs ys)
updates-append (device_kv hub_id did kv from_body ∷ xs) ys = updates-append xs ys

-- `on_state_update` is not called, and nothing leaves.
abbrev IsSilent : List Effect → Type 0
IsSilent effects = (has_raised effects ≡ false) × (updates effects ≡ [])

silent-IsTold : (c d : HtsClient) (effects : List Effect) → IsSilent effects → IsTold c (d, effects)
silent-IsTold c d effects (calm, idle) = rw (calm, idle) (idle_callback c.on_state_update, tt)
  where
    idle_callback :
        (callback : Option (Text → HubNetworkState → Bool)) → false ≡ raises_at callback []
    idle_callback none = refl
    idle_callback (some raises) = refl

after-IsTold :
    (c d : HtsClient) (effects : List Effect) (s : Step)
    → IsSilent effects
    → d.on_state_update ≡ c.on_state_update
    → IsTold d s
    → IsTold c (after effects s)
after-IsTold c d effects (e, more) (calm, idle) same (told, stored) =
    let raised : has_raised (effects ++ more) ≡ has_raised more =
      has_raised-append effects more ∙ ap (λ b. b || has_raised more) calm in
    let called : updates (effects ++ more) ≡ updates more =
      updates-append effects more ∙ ap (λ t. t ++ updates more) idle in
    rw (raised, called, sym same) (told, stored)

IsSilent-device_calls :
    (hub_id : Text) (id : Bytes) (from_body : Bool) (rows : List Row)
    → IsSilent (device_calls hub_id id from_body rows)
unfolding device_calls
IsSilent-device_calls hub_id id from_body [] = (refl, refl)
IsSilent-device_calls hub_id id from_body ((did, kv) ∷ rows) =
    let later = IsSilent-device_calls hub_id id from_body rows in
    by_if IsSilent (not (did =ᵇ id) && is_nonempty kv) _ _ (λ _. later) (λ _. later)

IsSilent-call_devices :
    (c : HtsClient) (hub_id : Text) (id : Bytes) (from_body : Bool) (params : List Bytes)
    → IsSilent (call_devices c hub_id id from_body params)
IsSilent-call_devices c hub_id id from_body params =
    by_if IsSilent c.on_device_kv _ []
      (λ _. IsSilent-device_calls hub_id id from_body (extract_all_devices_kv params))
      (λ _. (refl, refl))

-- A refresh task is no call of the callback, which stays the same.
abbrev IsRefresh : HtsClient → Step → Type 0
IsRefresh c s = IsSilent s.1 × (s.0.on_state_update ≡ c.on_state_update)

schedule_hub_refresh-IsRefresh :
    (c : HtsClient) (hub_id : Text) → IsRefresh c (schedule_hub_refresh c hub_id)
unfolding schedule_hub_refresh
schedule_hub_refresh-IsRefresh c hub_id =
    by_if (IsRefresh c) (has_text hub_id c.refreshing) _ _ (λ _. ((refl, refl), refl))
      (λ _. ((refl, refl), refl))

check_power-IsRefresh :
    (c : HtsClient) (hub_id : Text) (params : List Bytes) (raw : Option Bytes)
    → IsRefresh c (check_power c hub_id params raw)
unfolding check_power
check_power-IsRefresh c hub_id params none = ((refl, refl), refl)
check_power-IsRefresh c hub_id params (some raw) =
    by_if (IsRefresh c) (carries_device_rows params || same_power raw (get hub_id c.hub_states)) _ _
      (λ _. ((refl, refl), refl)) (λ _. schedule_hub_refresh-IsRefresh c hub_id)

handle_push-IsTold :
    (c : HtsClient) (hub_id : Text) (id : Bytes) (sub_key : ℕ) (params : List Bytes)
    → IsTold c (handle_push c hub_id id sub_key params)
unfolding handle_push
handle_push-IsTold c hub_id id sub_key params =
    by_if (IsTold c) (sub_key == 11 || sub_key == 12) _ _
      (λ _.
        silent-IsTold c c (call_devices c hub_id id false params)
          (IsSilent-call_devices c hub_id id false params))
      (λ _.
        silent-IsTold c (schedule_hub_refresh c hub_id).0 (schedule_hub_refresh c hub_id).1
          (schedule_hub_refresh-IsRefresh c hub_id).0)

call_state_update-told :
    (callback : Option (Text → HubNetworkState → Bool)) (hub_id : Text) (s : HubNetworkState)
    (states : List (Text × HubNetworkState))
    → get hub_id states ≡ some s
    → let effects : List Effect = call_state_update callback hub_id s in
      (has_raised effects ≡ raises_at callback (updates effects))
      × All (λ u. get u.0 states ≡ some u.1) (updates effects)
call_state_update-told none hub_id s states stored = (refl, tt)
call_state_update-told (some raises) hub_id s states stored = elim (Bool-cases (raises hub_id s)) [
  | inl e ↦ rw e (refl, (stored, tt))
  | inr e ↦ rw e (refl, (stored, tt))
]

store_state-IsTold :
    (c : HtsClient) (hub_id : Text) (kv : Dict) → IsTold c (store_state c hub_id kv)
unfolding store_state
store_state-IsTold c hub_id kv =
    call_state_update-told c.on_state_update hub_id _ _ (get-set_same hub_id _ c.hub_states)

handle_flat-IsTold :
    (c : HtsClient) (hub_id : Text) (id : Bytes) (sub_key : ℕ) (params : List Bytes)
    → IsTold c (handle_flat c hub_id id sub_key params)
unfolding handle_flat
handle_flat-IsTold c hub_id id sub_key params =
    let popped : Dict = extract_direct_kv (drop 1 params) in
    let kv : Dict = remove Keys.hub_powered popped in
    let checked : Step = check_power c hub_id params (lookup Keys.hub_powered popped) in
    let (silent, same) = check_power-IsRefresh c hub_id params (lookup Keys.hub_powered popped) in
    let stored : Step = store_state checked.0 hub_id kv in
    let pushed : Step = handle_push checked.0 hub_id id sub_key params in
    after-IsTold c checked.0 checked.1
      (if is_nonempty kv && is_network_state_delta kv then stored else pushed) silent same
      (by_if (IsTold checked.0) (is_nonempty kv && is_network_state_delta kv) stored pushed
        (λ _. store_state-IsTold checked.0 hub_id kv)
        (λ _. handle_push-IsTold checked.0 hub_id id sub_key params))

handle_body-IsTold :
    (c : HtsClient) (hub_id : Text) (id : Bytes) (params : List Bytes)
    → IsTold c (handle_body c hub_id id params)
unfolding handle_body
handle_body-IsTold c hub_id id params =
    let kv : Dict = extract_device_kv params id in
    after-IsTold c c (call_devices c hub_id id true params)
      (if is_nonempty kv then store_state c hub_id kv else (c, []))
      (IsSilent-call_devices c hub_id id true params) refl
      (by_if (IsTold c) (is_nonempty kv) (store_state c hub_id kv) (c, [])
        (λ _. store_state-IsTold c hub_id kv) (λ _. silent-IsTold c c [] (refl, refl)))

handle_for_hub-IsTold :
    (c : HtsClient) (hub_id : Text) (id : Bytes) (params : List Bytes)
    → IsTold c (handle_for_hub c hub_id id params)
unfolding handle_for_hub
handle_for_hub-IsTold c hub_id id params =
    by_if (IsTold c) (is_body (first_byte params)) _ _ (λ _. handle_body-IsTold c hub_id id params)
      (λ _.
        by_if (IsTold c) (is_per_device_shape params) _ _
          (λ _. handle_push-IsTold c hub_id id (first_byte params) params)
          (λ _. handle_flat-IsTold c hub_id id (first_byte params) params))

-- With hub ids that are hexadecimal spellings of bytes, as the connect response gives them, an
-- exception leaves `_handle_update` exactly where it called `on_state_update` and that call raised;
-- by the time of the call, the state that the callback is given is the one that is stored.
pub handle_update-IsTold :
    (c : HtsClient) (msg : HtsMessage)
    → All (λ hub. IsHubId (hub.hub_id)) c.hubs
    → (s : Step) × (handle_update c msg ≡ some s) × IsTold c s
handle_update-IsTold c msg h =
    let (s, e) = handle_update-total c msg h in
    (
      s,
      e,
      elim (handle_update-cases c msg s e) [
        | inl idle ↦ rw idle (silent-IsTold c c [] (refl, refl))
        | inr (hub_id, id, eh, ei, done) ↦
            rw done (handle_for_hub-IsTold c hub_id id (tlv_decode msg.payload))
      ],
    )
