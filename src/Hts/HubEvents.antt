-- ===== src/Hts/HubEvents.antt =====
-- api/hts/hub_events.py: events that a hub sends about itself.
pub mod Values
use aegis_hass.Base.{
  ℕ, Bool, true, false, ◌&&◌, ◌==◌, leb, if◌then◌else◌, Option, none, some, List, [], ◌∷◌, length,
  get_or, drop, Bytes, ◌=ᵇ◌, from_bytes,
}
use aegis_hass.Base.Int.{ℤ, sub_ℕ}
use aegis_hass.Base.Kv.{lookup, insert}
use aegis_hass.Base.Text.{Text, hex_upper}

-- KEY_EVENT_TIMESTAMP, KEY_DELAY_EXPIRES_AT.
abbrev pub key_event_timestamp : ℕ
key_event_timestamp = 0x07

abbrev pub key_delay_expires_at : ℕ
key_delay_expires_at = 0x17

abbrev pub hub_event_exit_delay_complete : ℕ
hub_event_exit_delay_complete = 0x68

abbrev pub hub_event_entry_delay_started : ℕ
hub_event_entry_delay_started = 0x74

pub record HubEvent : Type 0 where
  pub hub_id : Text
  pub code : ℕ
  pub hub_ts : Option ℕ
  pub expires_at : Option ℕ
  pub values : List (ℕ × Bytes)

-- The property of that name: a difference of Python integers.
abbrev difference : Option ℕ → Option ℕ → Option ℤ
difference (some expires) (some started) = some (sub_ℕ expires started)
difference _ _ = none

unfoldable pub delay_seconds : HubEvent → Option ℤ
delay_seconds e = difference e.expires_at e.hub_ts

unfoldable pub is_hub_event : List Bytes → Bool
is_hub_event (first ∷ second ∷ hub ∷ code ∷ rest) =
    first =ᵇ (0x0b ∷ []) && (second =ᵇ (0x21 ∷ []) && (length hub == 4 && length code == 1))
is_hub_event _ = false

unfoldable pub to_timestamp : Option Bytes → Option ℕ
to_timestamp none = none
to_timestamp (some value) =
    if leb 4 (length value) && leb (length value) 8 then some (from_bytes value) else none

-- A parameter `fd fd <key> <value>`; anything else is passed over.
unfoldable pub keyed_value : Bytes → Option (ℕ × Bytes)
keyed_value (a ∷ b ∷ key ∷ value) = if a == 0xfd && b == 0xfd then some (key, value) else none
keyed_value _ = none

abbrev pub add_keyed : Option (ℕ × Bytes) → List (ℕ × Bytes) → List (ℕ × Bytes)
add_keyed none values = values
add_keyed (some (key, value)) values = insert key value values

-- The loop over `params[4:]`.
unfoldable pub collect_values : List (ℕ × Bytes) → List Bytes → List (ℕ × Bytes)
unfolding keyed_value
collect_values values [] = values
collect_values values (param ∷ rest) = collect_values (add_keyed (keyed_value param) values) rest

abbrev nth : List Bytes → ℕ → Bytes
nth params i = get_or params i []

unfoldable pub parse_hub_event : List Bytes → Option HubEvent
unfolding is_hub_event collect_values to_timestamp
parse_hub_event params =
    let values = collect_values [] (drop 4 params) in
    if is_hub_event params
    then some (record {
      hub_id = hex_upper (nth params 2);
      code = get_or (nth params 3) 0 0;
      hub_ts = to_timestamp (lookup key_event_timestamp values);
      expires_at = to_timestamp (lookup key_delay_expires_at values);
      values = values;
    })
    else none
