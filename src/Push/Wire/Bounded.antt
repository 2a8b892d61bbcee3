-- ===== src/Push/Wire/Bounded.antt =====
-- What `_find_embedded_messages` of notification_event_parser.py returns for any bytes.
use aegis_hass.Base.{
  ℕ, zero, suc, ◌≤◌, ◌≡◌, refl, sym, ap, ◌∙◌, false, Bool-cases, inl, inr, leb, List, [], ◌∷◌, ◌++◌,
  append_assoc, append-nil, length, length-append, All, All-append, Bytes, arith,
}
use aegis_hass.Push.Wire.{
  max_walk_candidates, min_qualifier_len, FieldRead, stop, passed, delimited, read_field, collect,
  walk_fields, walk_wire_format, find_embedded_messages, max_walk_depth,
}
use aegis_hass.Push.Wire.Reads.{
  IsInfix, IsCandidate, IsInfix-tail, IsInfix-trans, Reads, read_field-Reads,
}

-- A walk adds to the candidates it is given, and stays within the limit.
abbrev IsWalk : Bytes → List Bytes → List Bytes → Type 0
IsWalk raw before result =
    (found : List Bytes) × (result ≡ before ++ found)
    × All (IsCandidate raw) found
    × (length before ≤ max_walk_candidates → length result ≤ max_walk_candidates)

-- Walks one after another.
IsWalk-nothing : (raw : Bytes) (before : List Bytes) → IsWalk raw before before
IsWalk-nothing raw before = ([], sym (append-nil before), tt, λ h. h)

IsWalk-then :
    (raw : Bytes) (first second third : List Bytes)
    → IsWalk raw first second
    → IsWalk raw second third
    → IsWalk raw first third
IsWalk-then raw first second third (f, e, h, l) (g, e', h', l') = (
  f ++ g,
  e' ∙ ap (λ t. t ++ g) e ∙ append_assoc first f g,
  All-append (IsCandidate raw) f g h h',
  λ m. l' (l m),
)

All-candidates :
    (raw part : Bytes) (found : List Bytes)
    → ((c : Bytes) → IsInfix part c → IsInfix raw c)
    → All (IsCandidate part) found
    → All (IsCandidate raw) found
All-candidates raw part [] f h = tt
All-candidates raw part (c ∷ found) f ((i, l), h) = ((f c i, l), All-candidates raw part found f h)

IsWalk-part :
    (raw part : Bytes) (before result : List Bytes)
    → ((c : Bytes) → IsInfix part c → IsInfix raw c)
    → IsWalk part before result
    → IsWalk raw before result
IsWalk-part raw part before result f (found, e, h, l) =
    (found, e, All-candidates raw part found f h, l)

Walks : (Bytes → List Bytes → List Bytes) → Type 0
Walks walk = (raw : Bytes) (before : List Bytes) → IsWalk raw before (walk raw before)

collect-IsWalk :
    (descend : Bytes → List Bytes → List Bytes) (raw candidate : Bytes) (before : List Bytes)
    → Walks descend
    → IsInfix raw candidate
    → leb max_walk_candidates (length before) ≡ false
    → IsWalk raw before (collect descend candidate before)
unfolding Walks
collect-IsWalk descend raw candidate before w i room =
    elim (Bool-cases (leb min_qualifier_len (length candidate))) [
      | inl e ↦ rw e (
          IsWalk-then raw before (before ++ (candidate ∷ [])) _
            (
              candidate ∷ [],
              refl,
              ((i, ground arith), tt),
              λ h. ground (arith, length-append before (candidate ∷ [])),
            )
            (IsWalk-part raw candidate _ _ (λ c. IsInfix-trans raw candidate c i)
              (w candidate (before ++ (candidate ∷ [])))))
      | inr e ↦ rw e (IsWalk-nothing raw before)
    ]

-- The round at which the loop stands, on what `read_field` read.
IsWalk-round :
    (descend : Bytes → List Bytes → List Bytes) (fuel : ℕ) (raw : Bytes) (before : List Bytes)
    (r : FieldRead)
    → Walks descend
    → ((rest : Bytes) (found : List Bytes)
        → IsWalk rest found (walk_fields descend fuel rest found))
    → leb max_walk_candidates (length before) ≡ false
    → Reads raw r
    → IsWalk raw before (elim r [
      | stop ↦ before
      | passed rest ↦ walk_fields descend fuel rest before
      | delimited candidate rest ↦ walk_fields descend fuel rest (collect descend candidate before)
    ])
IsWalk-round descend fuel raw before stop w later room h = IsWalk-nothing raw before
IsWalk-round descend fuel raw before (passed rest) w later room h =
    IsWalk-part raw rest _ _ (λ c. IsInfix-tail raw rest c h) (later rest before)
IsWalk-round descend fuel raw before (delimited candidate rest) w later room (b, e) =
    IsWalk-then raw before (collect descend candidate before) _
      (collect-IsWalk descend raw candidate before w (b, rest, e) room)
      (IsWalk-part raw rest _ _
        (λ c. IsInfix-tail raw rest c (b ++ candidate, e ∙ sym (append_assoc b candidate rest)))
        (later rest (collect descend candidate before)))

walk_fields-IsWalk :
    (descend : Bytes → List Bytes → List Bytes) (fuel : ℕ) (raw : Bytes) (before : List Bytes)
    → Walks descend
    → IsWalk raw before (walk_fields descend fuel raw before)
unfolding walk_fields
walk_fields-IsWalk descend zero raw before w = IsWalk-nothing raw before
walk_fields-IsWalk descend (suc fuel) [] before w = IsWalk-nothing [] before
walk_fields-IsWalk descend (suc fuel) (b ∷ raw) before w =
    elim (Bool-cases (leb max_walk_candidates (length before))) [
      | inl e ↦ rw e (IsWalk-nothing (b ∷ raw) before)
      | inr e ↦ rw e (
          IsWalk-round descend fuel (b ∷ raw) before (read_field (b ∷ raw)) w
            (λ rest found. walk_fields-IsWalk descend fuel rest found w) e
            (read_field-Reads (b ∷ raw)))
    ]

walk_wire_format-IsWalk :
    (levels : ℕ) (raw : Bytes) (before : List Bytes)
    → IsWalk raw before (walk_wire_format levels raw before)
unfolding walk_wire_format Walks
walk_wire_format-IsWalk zero raw before = IsWalk-nothing raw before
walk_wire_format-IsWalk (suc levels) raw before =
    walk_fields-IsWalk (walk_wire_format levels) (length raw) raw before
      (λ part found. walk_wire_format-IsWalk levels part found)

-- Whatever bytes a push carries, `_find_embedded_messages` returns at most 1,024 candidates, and
-- each of them stands in the payload in one piece and is at least four bytes long.
pub find_embedded_messages-bounded :
    (raw : Bytes)
    → All (IsCandidate raw) (find_embedded_messages raw)
      × (length (find_embedded_messages raw) ≤ max_walk_candidates)
unfolding find_embedded_messages
find_embedded_messages-bounded raw =
    let (found, e, h, l) = walk_wire_format-IsWalk (suc max_walk_depth) raw [] in
    (rw e h, l (omega arith))
