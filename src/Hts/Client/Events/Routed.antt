-- ===== src/Hts/Client/Events/Routed.antt =====
-- Where `_handle_event_message` of api/hts/client.py sends an event.
use aegis_hass.Base.{
  ℕ, ◌≡◌, ◌≢◌, refl, sym, ap, ◌∙◌, Bool, true, ◌&&◌, Bool-cases, Option, none, some, Option-cases,
  List, [], ◌∷◌, All, Bytes, ◌=ᵇ◌, =ᵇ-refl, =ᵇ→eq, inl, inr, arith,
}
use aegis_hass.Base.Text.{Text}
use aegis_hass.Hts.Auth.{HubInfo}
use aegis_hass.Hts.Messages.{HtsMessage, tlv_decode}
use aegis_hass.Hts.HubEvents.{HubEvent, is_hub_event, parse_hub_event}
use aegis_hass.Hts.Client.Update.{HtsClient, is_known, only_hub, hub_id_from_message}
use aegis_hass.Hts.Client.Events.{
  EventCallbacks, EventCall, chime, hub_event, is_space_event, candidate_of, with_hub, call_for,
  event_hub, calls_for, dispatch_hub_event, chime_for, handle_event_params, handle_event_message,
}

only_hub-known :
    (hubs : List HubInfo) (hub_id : Text)
    → only_hub hubs ≡ some hub_id
    → is_known hub_id hubs ≡ true
unfolding is_known
only_hub-known [] hub_id e = cc
only_hub-known (hub ∷ []) hub_id e =
    let same : hub.hub_id ≡ hub_id = cc in rw (same, =ᵇ-refl hub_id) refl
only_hub-known (hub ∷ second ∷ hubs) hub_id e = cc

hub_id_from_message-known :
    (c : HtsClient) (msg : HtsMessage) (hub_id : Text)
    → hub_id_from_message c msg ≡ some hub_id
    → is_known hub_id c.hubs ≡ true
unfolding hub_id_from_message
hub_id_from_message-known c msg hub_id e = ground (arith, only_hub-known c.hubs hub_id)

event_hub-known :
    (c : HtsClient) (msg : HtsMessage) (event : HubEvent) (hub_id : Text)
    → event_hub c msg event ≡ some hub_id
    → is_known hub_id c.hubs ≡ true
unfolding event_hub
event_hub-known c msg event hub_id e = ground (arith, hub_id_from_message-known c msg hub_id)

-- The state byte that a chime call carries, from the parameters: the first byte of the fourth where
-- the second is 22, and none where it is not.
abbrev pub IsStateByte : List Bytes → Option ℕ → Type 0
IsStateByte params none =
    (first : Bytes) × (second : Bytes) × (rest : List Bytes) × (params ≡ first ∷ second ∷ rest)
    × (second ≢ 0x22 ∷ [])
IsStateByte params (some state) =
    (first : Bytes) × (source : Bytes) × (more : Bytes) × (rest : List Bytes) × (params
      ≡ first ∷ (0x22 ∷ []) ∷ source ∷ (state ∷ more) ∷ rest)

candidate_of-IsStateByte :
    (params : List Bytes) → is_space_event params ≡ true → IsStateByte params (candidate_of params)
unfolding is_space_event candidate_of
candidate_of-IsStateByte [] space = cc
candidate_of-IsStateByte (first ∷ []) space = cc
candidate_of-IsStateByte (first ∷ second ∷ []) space = cc
candidate_of-IsStateByte (first ∷ second ∷ source ∷ []) space = cc
candidate_of-IsStateByte (first ∷ second ∷ source ∷ [] ∷ rest) space = absurd (ground arith)
candidate_of-IsStateByte (first ∷ second ∷ source ∷ (state ∷ more) ∷ rest) space =
    elim (Bool-cases (second =ᵇ (0x22 ∷ []))) [
      | inl e ↦
          let same : second ≡ 0x22 ∷ [] = =ᵇ→eq second (0x22 ∷ []) e in
          rw e
            (first, source, more, rest, ap (λ t. first ∷ t ∷ source ∷ (state ∷ more) ∷ rest) same)
      | inr e ↦ rw e (
        first,
        second,
        source ∷ (state ∷ more) ∷ rest,
        refl,
        λ q. let equal : (second =ᵇ (0x22 ∷ [])) ≡ true = rw q refl in cc,
      )
    ]

-- What a call is about, against the parameters of its frame.
abbrev pub IsRouted : HtsClient → List Bytes → EventCall → Type 0
IsRouted c params (chime hub_id candidate) =
    (is_known hub_id c.hubs ≡ true) × (is_space_event params ≡ true) × IsStateByte params candidate
IsRouted c params (hub_event event) =
    (is_known event.hub_id c.hubs ≡ true)
    × (parsed : HubEvent) × (parse_hub_event params ≡ some parsed)
    × (event ≡ with_hub event.hub_id parsed)

call_for-IsRouted :
    (c : HtsClient) (params : List Bytes) (event : HubEvent) (hub_id : Text)
    → is_known hub_id c.hubs ≡ true
    → parse_hub_event params ≡ some event
    → All (IsRouted c params) (call_for event (some hub_id))
call_for-IsRouted c params event hub_id known parsed = elim (Bool-cases (hub_id =ᵇ event.hub_id)) [
  | inl e ↦
      let same : hub_id ≡ event.hub_id = =ᵇ→eq hub_id event.hub_id e in
      rw e ((sym (ap (λ t. is_known t c.hubs) same) ∙ known, event, parsed, refl), tt)
  | inr e ↦ rw e ((known, event, parsed, refl), tt)
]

calls_for-IsRouted :
    (c : HtsClient) (msg : HtsMessage) (params : List Bytes) (o : Option HubEvent)
    → parse_hub_event params ≡ o
    → All (IsRouted c params) (calls_for c msg o)
calls_for-IsRouted c msg params none parsed = tt
calls_for-IsRouted c msg params (some event) parsed = elim (Option-cases (event_hub c msg event)) [
  | inl e ↦ rw e tt
  | inr (hub_id, e) ↦
      rw e (call_for-IsRouted c params event hub_id (event_hub-known c msg event hub_id e) parsed)
]

chime_for-IsRouted :
    (c : HtsClient) (msg : HtsMessage) (params : List Bytes)
    → is_space_event params ≡ true
    → All (IsRouted c params) (chime_for params (hub_id_from_message c msg))
chime_for-IsRouted c msg params space = elim (Option-cases (hub_id_from_message c msg)) [
  | inl e ↦ rw e tt
  | inr (hub_id, e) ↦
      rw e (
        (hub_id_from_message-known c msg hub_id e, space, candidate_of-IsStateByte params space),
        tt,
      )
]

and_right : (a b : Bool) → (a && b) ≡ true → b ≡ true
and_right a b e = ground arith

-- Whatever a frame holds, each call that it leads to names a hub of the session. A chime call comes
-- from a frame with a space event's shape; it carries the first byte of the fourth parameter where the
-- second is the family 22, and no state byte where it is another family. A hub event's call carries
-- what `parse_hub_event` read, but for the hub's id.
pub handle_event_message-IsRouted :
    (c : HtsClient) (callbacks : EventCallbacks) (msg : HtsMessage)
    → All (IsRouted c (tlv_decode msg.payload)) (handle_event_message c callbacks msg)
unfolding handle_event_message handle_event_params dispatch_hub_event
handle_event_message-IsRouted c callbacks msg =
    let params : List Bytes = tlv_decode msg.payload in
    elim (Bool-cases (is_hub_event params)) [
      | inl eh ↦ elim (Bool-cases callbacks.on_hub_event) [
        | inl on ↦ rw (eh, on) (calls_for-IsRouted c msg params (parse_hub_event params) refl)
        | inr off ↦ rw (eh, off) tt
      ]
      | inr eh ↦ elim (Bool-cases (callbacks.on_chime_event && is_space_event params)) [
        | inl es ↦ rw (eh, es) (chime_for-IsRouted c msg params (and_right _ _ es))
        | inr es ↦ rw (eh, es) tt
      ]
    ]
