-- ===== src/Hts/Client/Update/Cases.antt =====
-- The cases of `_handle_update` of api/hts/client.py, its `ValueError` among them.
use aegis_hass.Base.{
  ◌≡◌, refl, sym, ap, ◌∙◌, ◌&&◌, Bool-cases, none, some, Option-cases, List, [], ◌∷◌, All, IsByte,
  is_nonempty, Bytes, to_bytes, to_bytes-IsByte, ◌⊎◌, inl, inr, arith,
}
use aegis_hass.Base.Text.{Text, hex_upper, from_hex, from_hex-hex_upper}
use aegis_hass.Hts.Auth.{HubInfo}
use aegis_hass.Hts.Messages.{HtsMessage, tlv_decode}
use aegis_hass.Hts.Client.Update.{
  HtsClient, Step, is_known, endpoint_id, only_hub, hub_id_from_message, handle_for_hub,
  handle_known, handle_params, handle_update,
}

-- Nothing is done, or the message is handled for the hub that it names.
abbrev pub Handled : HtsClient → HtsMessage → Step → Type 0
Handled c msg s =
    (s ≡ (c, []))
    ⊎ ((hub_id : Text) × (id : Bytes) × (hub_id_from_message c msg ≡ some hub_id)
        × (from_hex hub_id ≡ some id)
        × (s ≡ handle_for_hub c hub_id id (tlv_decode msg.payload)))

some-injective {ℓ} : {A : Type ℓ} {a b : A} → some a ≡ some b → a ≡ b
some-injective e = cc

pub handle_update-cases :
    (c : HtsClient) (msg : HtsMessage) (s : Step) → handle_update c msg ≡ some s → Handled c msg s
unfolding handle_update
handle_update-cases c msg s e = elim (Option-cases (hub_id_from_message c msg)) [
  | inl eh ↦
      let idle : handle_params c none (tlv_decode msg.payload) ≡ some s =
        ap (λ o. handle_params c o (tlv_decode msg.payload)) (sym eh) ∙ e in
      inl (sym (some-injective idle))
  | inr (hub_id, eh) ↦
      let there : handle_params c (some hub_id) (tlv_decode msg.payload) ≡ some s =
        ap (λ o. handle_params c o (tlv_decode msg.payload)) (sym eh) ∙ e in
      elim (Bool-cases (is_nonempty (tlv_decode msg.payload) && is_nonempty hub_id)) [
        | inr en ↦ inl (sym (some-injective (sym (rw en refl) ∙ there)))
        | inl en ↦
            let known : handle_known c hub_id (tlv_decode msg.payload) (from_hex hub_id) ≡ some s =
              sym (rw en refl) ∙ there in
            known_case hub_id eh (Option-cases (from_hex hub_id)) known
      ]
]
  where
    known_case :
        (hub_id : Text)
        → hub_id_from_message c msg ≡ some hub_id
        → (from_hex hub_id ≡ none) ⊎ ((id : Bytes) × (from_hex hub_id ≡ some id))
        → handle_known c hub_id (tlv_decode msg.payload) (from_hex hub_id) ≡ some s
        → Handled c msg s
    known_case hub_id eh (inl ei) known =
        let raised : handle_known c hub_id (tlv_decode msg.payload) none ≡ some s =
          ap (λ o. handle_known c hub_id (tlv_decode msg.payload) o) (sym ei) ∙ known in
        cc
    known_case hub_id eh (inr (id, ei)) known =
        let done : handle_known c hub_id (tlv_decode msg.payload) (some id) ≡ some s =
          ap (λ o. handle_known c hub_id (tlv_decode msg.payload) o) (sym ei) ∙ known in
        inr (hub_id, id, eh, ei, sym (some-injective done))

-- What the connect response gives as a hub's id.
abbrev pub IsHubId : Text → Type 0
IsHubId text = (id : Bytes) × All IsByte id × (text ≡ hex_upper id)

hub_id_from_message-IsHubId :
    (c : HtsClient) (msg : HtsMessage) (hub_id : Text)
    → All (λ hub. IsHubId (hub.hub_id)) c.hubs
    → hub_id_from_message c msg ≡ some hub_id
    → IsHubId hub_id
unfolding hub_id_from_message
hub_id_from_message-IsHubId c msg hub_id h e =
    elim (Bool-cases (is_known (endpoint_id msg.sender) c.hubs)) [
      | inl es ↦ (to_bytes 4 msg.sender, to_bytes-IsByte 4 msg.sender, ground arith)
      | inr es ↦ elim (Bool-cases (is_known (endpoint_id msg.receiver) c.hubs)) [
        | inl er ↦ (to_bytes 4 msg.receiver, to_bytes-IsByte 4 msg.receiver, ground arith)
        | inr er ↦ from_only c.hubs h (ground arith)
      ]
    ]
  where
    from_only :
        (hubs : List HubInfo)
        → All (λ hub. IsHubId (hub.hub_id)) hubs
        → only_hub hubs ≡ some hub_id
        → IsHubId hub_id
    from_only [] hs eo = cc
    from_only (hub ∷ []) ((id, hb, ei), hs) eo = (id, hb, sym (some-injective eo) ∙ ei)
    from_only (hub ∷ two ∷ hubs) hs eo = cc

-- With hub ids that are hexadecimal spellings of bytes, as the connect response gives them,
-- `bytes.fromhex` decodes the hub's id, whatever the message.
pub handle_update-total :
    (c : HtsClient) (msg : HtsMessage)
    → All (λ hub. IsHubId (hub.hub_id)) c.hubs
    → (s : Step) × (handle_update c msg ≡ some s)
unfolding handle_update
handle_update-total c msg h = elim (Option-cases (hub_id_from_message c msg)) [
  | inl eh ↦ ((c, []), ap (λ o. handle_params c o (tlv_decode msg.payload)) eh)
  | inr (hub_id, eh) ↦
      let (id, hb, ei) = hub_id_from_message-IsHubId c msg hub_id h eh in
      let decoded : from_hex hub_id ≡ some id = ap from_hex ei ∙ from_hex-hex_upper id hb in
      let there : handle_update c msg ≡ handle_params c (some hub_id) (tlv_decode msg.payload) =
        ap (λ o. handle_params c o (tlv_decode msg.payload)) eh in
      elim (Bool-cases (is_nonempty (tlv_decode msg.payload) && is_nonempty hub_id)) [
        | inl en ↦ (handle_for_hub c hub_id id (tlv_decode msg.payload), there ∙ rw (en, decoded))
        | inr en ↦ ((c, []), there ∙ rw en)
      ]
]
