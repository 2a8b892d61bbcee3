-- ===== src/Hts/Client/Redact.antt =====
-- `_redact_payload_hex` and `_redact_if_text` of api/hts/client.py, which mask text in log lines.
use aegis_hass.Base.{
  ℕ, ◌≤◌, ◌≡◌, sym, ap, ◌∙◌, Bool, true, ◌&&◌, leb, Bool-cases, if◌then◌else◌, [], ◌∷◌, ◌++◌,
  append_assoc, append-nil, length, length-append, Bytes, All, inl, inr, arith,
}
use aegis_hass.Base.Text.{Text, codes}
use aegis_hass.Base.Decimal.{show}
use aegis_hass.Hts.Keyfobs.{hex_lower}

-- `0x20 <= byte <= 0x7E`.
abbrev pub is_printable : ℕ → Bool
is_printable byte = leb 0x20 byte && leb byte 0x7E

-- `f"<text:{n}b>"`.
abbrev pub text_marker : ℕ → Text
text_marker n = codes "<text:" ++ (show n ++ codes "b>")

-- `flush`; an empty run writes nothing.
unfoldable pub flush : Bytes → Text
flush run = if leb 3 (length run) then text_marker (length run) else hex_lower run

-- The loop, on the run of printable bytes that is open.
unfoldable pub redact_from : Bytes → Bytes → Text
redact_from run [] = flush run
redact_from run (byte ∷ payload) =
    let longer = redact_from (run ++ (byte ∷ [])) payload in
    let closed = redact_from [] payload in
    if is_printable byte then longer else flush run ++ (hex_lower (byte ∷ []) ++ closed)

unfoldable pub redact_payload_hex : Bytes → Text
redact_payload_hex payload = redact_from [] payload

unfoldable pub all_printable : Bytes → Bool
all_printable [] = true
all_printable (b ∷ value) = is_printable b && all_printable value

unfoldable pub redact_if_text : Bytes → Text
redact_if_text value =
    if leb 3 (length value) && all_printable value
    then text_marker (length value)
    else hex_lower value

-- A long run is known by its length only.
long_run :
    (payload run other : Bytes)
    → 3 ≤ length run
    → length run ≡ length other
    → redact_from run payload ≡ redact_from other payload
unfolding redact_from flush
long_run [] run other l e =
    let a : leb 3 (length run) ≡ true = ground (arith, l) in
    let b : leb 3 (length other) ≡ true = ground (arith, l, e) in rw (a, b) (ap text_marker e)
long_run (byte ∷ payload) run other l e =
    let a : leb 3 (length run) ≡ true = ground (arith, l) in
    let b : leb 3 (length other) ≡ true = ground (arith, l, e) in
    let longer =
      long_run payload (run ++ (byte ∷ [])) (other ++ (byte ∷ []))
        (omega (arith, l, length-append run (byte ∷ [])))
        (omega (arith, e, length-append run (byte ∷ []), length-append other (byte ∷ []))) in
    elim (Bool-cases (is_printable byte)) [
      | inl f ↦ rw f longer
      | inr f ↦
          rw (f, a, b)
            (ap (λ m. m ++ (hex_lower (byte ∷ []) ++ redact_from [] payload)) (ap text_marker e))
    ]

redact_from-run :
    (text run payload : Bytes)
    → All (λ b. is_printable b ≡ true) text
    → redact_from run (text ++ payload) ≡ redact_from (run ++ text) payload
unfolding redact_from
redact_from-run [] run payload h = ap (λ r. redact_from r payload) (sym (append-nil run))
redact_from-run (b ∷ text) run payload (first, h) = rw first (
    redact_from-run text (run ++ (b ∷ [])) payload h
    ∙ ap (λ r. redact_from r payload) (append_assoc run (b ∷ []) text))

redact_from-same :
    (before run text other after : Bytes)
    → All (λ b. is_printable b ≡ true) text
    → All (λ b. is_printable b ≡ true) other
    → 3 ≤ length text
    → length text ≡ length other
    → redact_from run (before ++ (text ++ after)) ≡ redact_from run (before ++ (other ++ after))
unfolding redact_from
redact_from-same [] run text other after h k l e =
    redact_from-run text run after h
    ∙ long_run after (run ++ text) (run ++ other) (omega (arith, l, length-append run text))
        (omega (arith, e, length-append run text, length-append run other))
    ∙ sym (redact_from-run other run after k)
redact_from-same (b ∷ before) run text other after h k l e = elim (Bool-cases (is_printable b)) [
  | inl f ↦ rw f (redact_from-same before (run ++ (b ∷ [])) text other after h k l e)
  | inr f ↦ rw f (
      ap (λ m. flush run ++ (hex_lower (b ∷ []) ++ m))
        (redact_from-same before [] text other after h k l e))
]

-- A redacted payload tells nothing of a text in it but its length: wherever a text of three printable
-- bytes or more stands in a payload, another text of the same length gives the same log line.
pub redact_payload_hex-same :
    (before text other after : Bytes)
    → All (λ b. is_printable b ≡ true) text
    → All (λ b. is_printable b ≡ true) other
    → 3 ≤ length text
    → length text ≡ length other
    → redact_payload_hex (before ++ (text ++ after))
      ≡ redact_payload_hex (before ++ (other ++ after))
unfolding redact_payload_hex
redact_payload_hex-same before text other after h k l e =
    redact_from-same before [] text other after h k l e
