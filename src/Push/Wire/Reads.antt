-- ===== src/Push/Wire/Reads.antt =====
-- What one round of `_walk_wire_format` of notification_event_parser.py reads.
use aegis_hass.Base.{
  ℕ, ◌+◌, ◌*◌, ◌^◌, bit_and, bit_or, ltb, ◌≤◌, ◌≡◌, refl, sym, ap, ◌∙◌, Bool-cases, inl, inr, ◌==◌,
  leb, Option, none, some, [], ◌∷◌, ◌++◌, append_assoc, length, take, take-append-drop, Bytes,
}
use aegis_hass.Push.Wire.{
  min_qualifier_len, read_varint_from, read_varint, FieldRead, stop, passed, delimited, skip,
  passed_varint, take_payload, read_payload, after_tag, read_field,
}

-- `part` stands in `whole` in one piece.
abbrev pub IsInfix : Bytes → Bytes → Type 0
IsInfix whole part = (before : Bytes) × (after : Bytes) × (whole ≡ before ++ (part ++ after))

-- What follows is a tail of what was read.
abbrev pub IsTail : Bytes → Bytes → Type 0
IsTail whole rest = (before : Bytes) × (whole ≡ before ++ rest)

-- A candidate of the message: part of it, and long enough for a qualifier.
abbrev pub IsCandidate : Bytes → Bytes → Type 0
IsCandidate raw part = IsInfix raw part × (min_qualifier_len ≤ length part)

pub IsInfix-tail :
    (whole rest part : Bytes) → IsTail whole rest → IsInfix rest part → IsInfix whole part
IsInfix-tail whole rest part (skipped, e) (before, after, e') =
    (skipped ++ before, after, e ∙ ap (λ t. skipped ++ t) e' ∙ sym (append_assoc skipped before _))

pub IsInfix-trans :
    (whole middle part : Bytes) → IsInfix whole middle → IsInfix middle part → IsInfix whole part
IsInfix-trans whole middle part (b, a, e) (b', a', e') =
    (b ++ b', a' ++ a, e ∙ ap (λ t. b ++ (t ++ a)) e' ∙ simp append_assoc)

abbrev VarintTail : Bytes → Option (ℕ × Bytes) → Type 0
VarintTail raw none = Unit
VarintTail raw (some (value, rest)) = IsTail raw rest

tail_further :
    (b : ℕ) (raw : Bytes) (o : Option (ℕ × Bytes)) → VarintTail raw o → VarintTail (b ∷ raw) o
tail_further b raw none h = tt
tail_further b raw (some (value, rest)) (before, e) = (b ∷ before, ap (λ t. b ∷ t) e)

read_varint_from-VarintTail :
    (value shift : ℕ) (raw : Bytes) → VarintTail raw (read_varint_from value shift raw)
unfolding read_varint_from
read_varint_from-VarintTail value shift [] = tt
read_varint_from-VarintTail value shift (b ∷ raw) =
    let next : ℕ = bit_or value (bit_and b 0x7F * 2 ^ shift) in
    let later = tail_further b raw _ (read_varint_from-VarintTail next (shift + 7) raw) in
    elim (Bool-cases (bit_and b 0x80 == 0)) [
      | inl e ↦ rw e (b ∷ [], refl)
      | inr e ↦ elim (Bool-cases (ltb 63 (shift + 7))) [
        | inl f ↦ rw (e, f) tt
        | inr f ↦ rw (e, f) later
      ]
    ]

read_varint-VarintTail : (raw : Bytes) → VarintTail raw (read_varint raw)
unfolding read_varint
read_varint-VarintTail raw = read_varint_from-VarintTail 0 0 raw

-- What one round reads out of the message.
abbrev pub Reads : Bytes → FieldRead → Type 0
Reads raw stop = Unit
Reads raw (passed rest) = IsTail raw rest
Reads raw (delimited candidate rest) = (before : Bytes) × (raw ≡ before ++ (candidate ++ rest))

skip-Reads : (n : ℕ) (raw : Bytes) → Reads raw (skip n raw)
skip-Reads n raw = elim (Bool-cases (leb n (length raw))) [
  | inl e ↦ rw e (take n raw, sym (take-append-drop n raw))
  | inr e ↦ rw e tt
]

passed_varint-Reads :
    (raw : Bytes) (o : Option (ℕ × Bytes)) → VarintTail raw o → Reads raw (passed_varint o)
passed_varint-Reads raw none h = tt
passed_varint-Reads raw (some (value, rest)) h = h

take_payload-Reads :
    (raw : Bytes) (o : Option (ℕ × Bytes)) → VarintTail raw o → Reads raw (take_payload o)
take_payload-Reads raw none h = tt
take_payload-Reads raw (some (size, rest)) (before, e) =
    elim (Bool-cases (leb size (length rest))) [
      | inl f ↦ rw f (before, e ∙ ap (λ t. before ++ t) (sym (take-append-drop size rest)))
      | inr f ↦ rw f tt
    ]

read_payload-Reads : (wire_type : ℕ) (raw : Bytes) → Reads raw (read_payload wire_type raw)
unfolding read_payload
read_payload-Reads wire_type raw = elim (Bool-cases (wire_type == 0)) [
  | inl e0 ↦ rw e0 (passed_varint-Reads raw (read_varint raw) (read_varint-VarintTail raw))
  | inr e0 ↦ elim (Bool-cases (wire_type == 1)) [
    | inl e1 ↦ rw (e0, e1) (skip-Reads 8 raw)
    | inr e1 ↦ elim (Bool-cases (wire_type == 5)) [
      | inl e5 ↦ rw (e0, e1, e5) (skip-Reads 4 raw)
      | inr e5 ↦ elim (Bool-cases (wire_type == 2)) [
        | inl e2 ↦
            rw (e0, e1, e5, e2)
              (take_payload-Reads raw (read_varint raw) (read_varint-VarintTail raw))
        | inr e2 ↦ rw (e0, e1, e5, e2) tt
      ]
    ]
  ]
]

Reads-tail : (raw rest : Bytes) (r : FieldRead) → IsTail raw rest → Reads rest r → Reads raw r
Reads-tail raw rest stop t h = tt
Reads-tail raw rest (passed after) (b, e) (b', e') =
    (b ++ b', e ∙ ap (λ t. b ++ t) e' ∙ sym (append_assoc b b' after))
Reads-tail raw rest (delimited c after) (b, e) (b', e') =
    (b ++ b', e ∙ ap (λ t. b ++ t) e' ∙ sym (append_assoc b b' (c ++ after)))

after_tag-Reads :
    (raw : Bytes) (o : Option (ℕ × Bytes)) → VarintTail raw o → Reads raw (after_tag o)
after_tag-Reads raw none h = tt
after_tag-Reads raw (some (tag, rest)) h =
    Reads-tail raw rest _ h (read_payload-Reads (bit_and tag 0x07) rest)

pub read_field-Reads : (raw : Bytes) → Reads raw (read_field raw)
unfolding read_field
read_field-Reads raw = after_tag-Reads raw (read_varint raw) (read_varint-VarintTail raw)
