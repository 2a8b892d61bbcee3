-- ===== src/Hts/HubEvents/Values.antt =====
-- Which events `parse_hub_event` of api/hts/hub_events.py accepts, and what it reads out of them.
use aegis_hass.Base.{
  ℕ, ◌≡◌, refl, ap, ◌∙◌, ◌==◌, if◌then◌else◌, Option, none, some, List, [], ◌∷◌, Bytes, arith,
}
use aegis_hass.Base.Kv.{lookup, lookup-insert, first_some}
use aegis_hass.Base.Text.{hex_upper}
use aegis_hass.Hts.HubEvents.{
  HubEvent, to_timestamp, keyed_value, add_keyed, collect_values, parse_hub_event,
  key_event_timestamp, key_delay_expires_at,
}

-- The value of the last parameter that carries the key `k`.
abbrev own_value : ℕ → Option (ℕ × Bytes) → Option Bytes
own_value k none = none
own_value k (some (key, value)) = if key == k then some value else none

unfoldable pub last_value : ℕ → List Bytes → Option Bytes
last_value k [] = none
last_value k (param ∷ rest) = first_some (last_value k rest) (own_value k (keyed_value param))

add_keyed-lookup :
    (k : ℕ) (values : List (ℕ × Bytes)) (later : Option Bytes) (o : Option (ℕ × Bytes))
    → first_some later (lookup k (add_keyed o values))
      ≡ first_some (first_some later (own_value k o)) (lookup k values)
add_keyed-lookup k values (some v) o = refl
add_keyed-lookup k values none none = refl
add_keyed-lookup k values none (some (key, value)) =
    ground (arith, lookup-insert key k value values)

collect_values-lookup :
    (k : ℕ) (values : List (ℕ × Bytes)) (params : List Bytes)
    → lookup k (collect_values values params) ≡ first_some (last_value k params) (lookup k values)
unfolding collect_values last_value
collect_values-lookup k values [] = refl
collect_values-lookup k values (param ∷ rest) =
    collect_values-lookup k (add_keyed (keyed_value param) values) rest
    ∙ add_keyed-lookup k values (last_value k rest) (keyed_value param)

nothing_before : (o : Option Bytes) (k : ℕ) → first_some o (lookup {V = Bytes} k []) ≡ o
unfolding lookup
nothing_before none k = refl
nothing_before (some v) k = refl

-- A parsed event names the hub by its four bytes in upper-case hexadecimal and carries the code
-- byte; each of its values is that of the last parameter with the key, and both stamps come from the
-- values 0x07 and 0x17.
pub parse_hub_event-values :
    (a b c d code : ℕ) (rest : List Bytes) (k : ℕ)
    → (e : HubEvent) × (parse_hub_event
          ((0x0b ∷ []) ∷ (0x21 ∷ []) ∷ (a ∷ b ∷ c ∷ d ∷ []) ∷ (code ∷ []) ∷ rest)
        ≡ some e)
      × (e.hub_id ≡ hex_upper (a ∷ b ∷ c ∷ d ∷ []))
      × (e.code ≡ code)
      × (lookup k e.values ≡ last_value k rest)
      × (e.hub_ts ≡ to_timestamp (last_value key_event_timestamp rest))
      × (e.expires_at ≡ to_timestamp (last_value key_delay_expires_at rest))
unfolding parse_hub_event
parse_hub_event-values a b c d code rest k =
    let values : List (ℕ × Bytes) = collect_values [] rest in
    let read : (j : ℕ) → lookup j values ≡ last_value j rest =
      λ j. collect_values-lookup j [] rest ∙ nothing_before (last_value j rest) j in
    (
      record {
        hub_id = hex_upper (a ∷ b ∷ c ∷ d ∷ []);
        code = code;
        hub_ts = to_timestamp (lookup key_event_timestamp values);
        expires_at = to_timestamp (lookup key_delay_expires_at values);
        values = values;
      },
      refl,
      refl,
      refl,
      read k,
      ap to_timestamp (read key_event_timestamp),
      ap to_timestamp (read key_delay_expires_at),
    )
