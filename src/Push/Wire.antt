-- ===== src/Push/Wire.antt =====
-- The protobuf wire walk of notification_event_parser.py: `_read_varint`, `_walk_wire_format` and
-- `_find_embedded_messages`.
pub mod Varint
pub mod Reads
pub mod Bounded
use aegis_hass.Base.{
  ℕ, zero, suc, ◌+◌, ◌*◌, ◌/◌, ◌%◌, ◌^◌, bit_and, bit_or, Bool, ◌==◌, ltb, leb, if◌then◌else◌,
  Option, none, some, List, [], ◌∷◌, ◌++◌, length, take, drop, Bytes,
}

abbrev pub max_walk_depth : ℕ
max_walk_depth = 8

abbrev pub max_walk_candidates : ℕ
max_walk_candidates = 1024

abbrev pub min_qualifier_len : ℕ
min_qualifier_len = 4

-- The loop of `_read_varint`: the value and what follows; `<< shift` is `* 2 ^ shift`.
unfoldable pub read_varint_from : ℕ → ℕ → Bytes → Option (ℕ × Bytes)
read_varint_from value shift [] = none
read_varint_from value shift (byte ∷ rest) =
    let value' = bit_or value (bit_and byte 0x7F * 2 ^ shift) in
    let more = read_varint_from value' (shift + 7) rest in
    if bit_and byte 0x80 == 0
    then some (value', rest)
    else if ltb 63 (shift + 7)
    then none
    else more

unfoldable pub read_varint : Bytes → Option (ℕ × Bytes)
unfolding read_varint_from
read_varint raw = read_varint_from 0 0 raw

-- One round of the walk: the walk ends, a field without payload is passed, or a payload is taken out.
pub data FieldRead : Type 0 where
  stop : FieldRead
  passed : Bytes → FieldRead
  delimited : Bytes → Bytes → FieldRead

-- `i += n`, and `if i > end: return`.
abbrev pub skip : ℕ → Bytes → FieldRead
skip n raw = if leb n (length raw) then passed (drop n raw) else stop

abbrev pub passed_varint : Option (ℕ × Bytes) → FieldRead
passed_varint none = stop
passed_varint (some (value, rest)) = passed rest

abbrev pub take_payload : Option (ℕ × Bytes) → FieldRead
take_payload none = stop
take_payload (some (size, rest)) =
    if leb size (length rest) then delimited (take size rest) (drop size rest) else stop

-- By the wire type of the tag.
unfoldable pub read_payload : ℕ → Bytes → FieldRead
read_payload wire_type raw =
    if wire_type == 0
    then passed_varint (read_varint raw)
    else if wire_type == 1
    then skip 8 raw
    else if wire_type == 5
    then skip 4 raw
    else if wire_type == 2
    then take_payload (read_varint raw)
    else stop

abbrev pub after_tag : Option (ℕ × Bytes) → FieldRead
after_tag none = stop
after_tag (some (tag, rest)) = read_payload (bit_and tag 0x07) rest

unfoldable pub read_field : Bytes → FieldRead
read_field raw = after_tag (read_varint raw)

-- A payload that is long enough is appended and descended into; `descend` is the recursive call.
abbrev pub collect : (Bytes → List Bytes → List Bytes) → Bytes → List Bytes → List Bytes
collect descend candidate candidates =
    if leb min_qualifier_len (length candidate)
    then descend candidate (candidates ++ (candidate ∷ []))
    else candidates

-- The `while` loop, with one unit of fuel for a round; each round reads at least a byte.
unfoldable pub walk_fields : (Bytes → List Bytes → List Bytes) → ℕ → Bytes → List Bytes → List Bytes
walk_fields descend zero raw candidates = candidates
walk_fields descend (suc fuel) [] candidates = candidates
walk_fields descend (suc fuel) (b ∷ raw) candidates =
    if leb max_walk_candidates (length candidates)
    then candidates
    else elim (read_field (b ∷ raw)) [
      | stop ↦ candidates
      | passed rest ↦ walk_fields descend fuel rest candidates
      | delimited candidate rest ↦
          walk_fields descend fuel rest (collect descend candidate candidates)
    ]

-- `_walk_wire_format`, over the levels that are left: none are where `depth > _MAX_WALK_DEPTH`.
unfoldable pub walk_wire_format : ℕ → Bytes → List Bytes → List Bytes
walk_wire_format zero raw candidates = candidates
walk_wire_format (suc levels) raw candidates =
    walk_fields (walk_wire_format levels) (length raw) raw candidates

unfoldable pub find_embedded_messages : Bytes → List Bytes
find_embedded_messages raw = walk_wire_format (suc max_walk_depth) raw []
