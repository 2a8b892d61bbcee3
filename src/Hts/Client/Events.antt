-- ===== src/Hts/Client/Events.antt =====
-- Event frames: `_handle_event_message`, `_dispatch_hub_event` and `_is_space_event` of
-- api/hts/client.py.
pub mod Routed
use aegis_hass.Base.{
  ℕ, Bool, true, false, ◌&&◌, ◌||◌, ◌==◌, leb, if◌then◌else◌, Option, none, some, List, [], ◌∷◌,
  length, get_or, Bytes, ◌=ᵇ◌,
}
use aegis_hass.Base.Text.{Text}
use aegis_hass.Hts.Messages.{HtsMessage, tlv_decode}
use aegis_hass.Hts.HubEvents.{HubEvent, is_hub_event, parse_hub_event}
use aegis_hass.Hts.Client.Update.{HtsClient, is_known, hub_id_from_message}

-- Which of the two callbacks are set.
pub record EventCallbacks : Type 0 where
  pub on_chime_event : Bool
  pub on_hub_event : Bool

-- A call of one of them. The redacted payload, a text for the log, is left out.
pub data EventCall : Type 0 where
  chime : Text → Option ℕ → EventCall
  hub_event : HubEvent → EventCall

-- `_SPACE_EVENT_FAMILIES`.
abbrev pub is_space_family : ℕ → Bool
is_space_family family =
    family == 0x0B || (family == 0x22 || (family == 0x2E || (family == 0x30 || family == 0x43)))

unfoldable pub is_space_event : List Bytes → Bool
is_space_event (first ∷ second ∷ source ∷ state ∷ rest) =
    first =ᵇ (0x02 ∷ [])
    && (length second == 1
        && (is_space_family (get_or second 0 0) && (length source == 4 && leb 1 (length state))))
is_space_event _ = false

-- The state byte, which is forwarded for the family 0x22 only.
unfoldable pub candidate_of : List Bytes → Option ℕ
candidate_of (first ∷ second ∷ source ∷ (state ∷ more) ∷ rest) =
    if second =ᵇ (0x22 ∷ []) then some state else none
candidate_of _ = none

abbrev pub with_hub : Text → HubEvent → HubEvent
with_hub hub_id e = record {
  hub_id = hub_id;
  code = e.code;
  hub_ts = e.hub_ts;
  expires_at = e.expires_at;
  values = e.values;
}

abbrev pub call_for : HubEvent → Option Text → List EventCall
call_for e none = []
call_for e (some hub_id) = hub_event (if hub_id =ᵇ e.hub_id then e else with_hub hub_id e) ∷ []

-- The event's own hub if it is known, else the endpoints'.
unfoldable pub event_hub : HtsClient → HtsMessage → HubEvent → Option Text
event_hub c msg e = if is_known e.hub_id c.hubs then some (e.hub_id) else hub_id_from_message c msg

abbrev pub calls_for : HtsClient → HtsMessage → Option HubEvent → List EventCall
calls_for c msg none = []
calls_for c msg (some e) = call_for e (event_hub c msg e)

unfoldable pub dispatch_hub_event :
    HtsClient → EventCallbacks → HtsMessage → List Bytes → List EventCall
dispatch_hub_event c callbacks msg params =
    if callbacks.on_hub_event then calls_for c msg (parse_hub_event params) else []

abbrev pub chime_for : List Bytes → Option Text → List EventCall
chime_for params none = []
chime_for params (some hub_id) = chime hub_id (candidate_of params) ∷ []

unfoldable pub handle_event_params :
    HtsClient → EventCallbacks → HtsMessage → List Bytes → List EventCall
handle_event_params c callbacks msg params =
    if is_hub_event params
    then dispatch_hub_event c callbacks msg params
    else if callbacks.on_chime_event && is_space_event params
    then chime_for params (hub_id_from_message c msg)
    else []

unfoldable pub handle_event_message : HtsClient → EventCallbacks → HtsMessage → List EventCall
unfolding handle_event_params
handle_event_message c callbacks msg = handle_event_params c callbacks msg (tlv_decode msg.payload)
