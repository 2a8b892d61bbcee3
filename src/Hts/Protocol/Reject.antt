-- ===== src/Hts/Protocol/Reject.antt =====
-- The frames that `decode_frame` of api/hts/protocol.py refuses, and those that it accepts.
use aegis_hass.Base.{
  ℕ, ◌+◌, ◌-◌, ◌*◌, ◌/◌, ◌%◌, ◌^◌, ◌≤◌, ◌<◌, ◌≡◌, ◌≢◌, ◌⊎◌, inl, inr, refl, sym, ap, ◌∙◌, [], ◌∷◌,
  ◌++◌, leb, true, Bool-cases, take, drop, length, length-append, take-append_exact,
  drop-append_exact, take-append-drop, length-drop, Bytes, IsByte, All, All-append_right, ok, err,
  Result-cases, arith,
}
use native.Mathlib.Decide.{ℕ_discrete}
use aegis_hass.Hts.Crc.{crc16}
use aegis_hass.Hts.Crc.Bitwise.{crc16-lt}
use aegis_hass.Hts.Crc.Detects.{crc16_detects_burst}
use aegis_hass.Hts.Protocol.{
  stx, etx, esc, FrameError, escape_map, unescape_map, escape, unescape, put, pack16, unpack16,
  check_payload, decode_payload, encode_frame, decode_frame,
}
use aegis_hass.Hts.Protocol.Escape.{
  IsPlain, unescape-escape, unescape_nil, unescape_plain, unescape_pair,
}
use aegis_hass.Hts.Protocol.Frame.{decode_frame_delimited}

-- A checksum pair that does not fit the body is refused with both checksums.
check_payload_mismatch :
    (body : Bytes) (n : ℕ)
    → n < 2 ^ 16
    → crc16 body ≢ n
    → check_payload (body ++ pack16 n) ≡ err (FrameError.crc_mismatch (crc16 body) n)
check_payload_mismatch body n hn h =
    let size : length (body ++ pack16 n) - 2 ≡ length body =
      omega (arith, length-append body (pack16 n)) in
    rw (size, take-append_exact body (pack16 n), drop-append_exact body (pack16 n)) (ground arith)

-- A body that was changed in one or two neighbouring bytes behind the sender's checksum is refused,
-- with the checksum of what came and the one that was sent.
pub decode_frame_detects_burst :
    (xs ys : Bytes) (a b c d : ℕ)
    → All IsByte xs
    → All IsByte ys
    → All IsByte (a ∷ b ∷ c ∷ d ∷ [])
    → (a ≢ c) ⊎ (b ≢ d)
    → let sent = crc16 (xs ++ (a ∷ b ∷ ys)) in
      let came = xs ++ (c ∷ d ∷ ys) in
      decode_frame (stx ∷ (escape (came ++ pack16 sent) ++ etx ∷ []))
      ≡ err (FrameError.crc_mismatch (crc16 came) sent)
unfolding decode_payload
decode_frame_detects_burst xs ys a b c d hx hy hb diff =
    let came : Bytes = xs ++ (c ∷ d ∷ ys) in
    let sent : ℕ = crc16 (xs ++ (a ∷ b ∷ ys)) in
    let long : leb 2 (length (came ++ pack16 sent)) ≡ true =
      ground (arith, length-append came (pack16 sent)) in
    rw (decode_frame_delimited, unescape-escape, long)
      (check_payload_mismatch came sent (crc16-lt _)
        (λ e. ground (arith, crc16_detects_burst xs ys a b c d hx hy hb (sym e))))

pair_case :
    (y : ℕ) (rest zs ys : Bytes)
    → put (unescape_map y) y (ok zs) ≡ ok ys
    → escape zs ≡ rest
    → escape ys ≡ esc ∷ y ∷ rest
unfolding escape escape_map unescape_map
pair_case y rest zs [] e h = ground arith
pair_case y rest zs (w ∷ ws) e h = ground arith

plain_case :
    (x : ℕ) (rest zs ys : Bytes)
    → IsPlain x
    → x ≢ esc
    → x ∷ zs ≡ ys
    → escape zs ≡ rest
    → escape ys ≡ x ∷ rest
unfolding escape escape_map
plain_case x rest zs [] (hs, ht) hx e h = ground arith
plain_case x rest zs (w ∷ ws) (hs, ht) hx e h = ground arith

no_pair : (y : ℕ) (x : FrameError) (ys : Bytes) → put (unescape_map y) y (err x) ≢ ok ys
unfolding unescape_map
no_pair y x ys e = ground arith

esc_step :
    (y : ℕ) (rest ys : Bytes)
    → ((zs : Bytes) → unescape rest ≡ ok zs → escape zs ≡ rest)
    → unescape (esc ∷ y ∷ rest) ≡ ok ys
    → escape ys ≡ esc ∷ y ∷ rest
esc_step y rest ys ih e = elim (Result-cases (unescape rest)) [
  | inl (zs, z) ↦ pair_case y rest zs ys (ap (put (unescape_map y) y) (sym z) ∙ after) (ih zs z)
  | inr (bad, z) ↦ absurd (no_pair y bad ys (ap (put (unescape_map y) y) (sym z) ∙ after))
]
  where
    after : put (unescape_map y) y (unescape rest) ≡ ok ys
    after = sym (unescape_pair y rest) ∙ e

plain_step :
    (x : ℕ) (rest ys : Bytes)
    → IsPlain x
    → x ≢ esc
    → ((zs : Bytes) → unescape rest ≡ ok zs → escape zs ≡ rest)
    → unescape (x ∷ rest) ≡ ok ys
    → escape ys ≡ x ∷ rest
plain_step x rest ys hp hx ih e = elim (Result-cases (unescape rest)) [
  | inl (zs, z) ↦ plain_case x rest zs ys hp hx (cc (z, unescape_plain x rest hx, e)) (ih zs z)
  | inr (bad, z) ↦ cc (z, unescape_plain x rest hx, e)
]

lone_esc : (x : ℕ) (ys : Bytes) → x ≡ esc → unescape (x ∷ []) ≡ ok ys → escape ys ≡ x ∷ []
unfolding unescape
lone_esc x ys q e = ground arith

nil_text : (zs : Bytes) → unescape [] ≡ ok zs → escape zs ≡ []
unfolding escape
nil_text [] e = refl
nil_text (z ∷ zs) e = cc (unescape_nil, e)

-- Where no frame delimiter stands in the text, `unescape` accepts only what `escape` writes.
pub escape-unescape : (xs ys : Bytes) → All IsPlain xs → unescape xs ≡ ok ys → escape ys ≡ xs
unfolding escape
escape-unescape [] [] hx e = refl
escape-unescape [] (y ∷ ys) hx e = cc (unescape_nil, e)
escape-unescape (x ∷ []) ys (hx, _) e = elim (ℕ_discrete x esc) [
  | yes q ↦ lone_esc x ys q e
  | no q ↦ plain_step x [] ys hx q (λ zs z. nil_text zs z) e
]
escape-unescape (x ∷ y ∷ rest) ys (hx, (hy, hr)) e = elim (ℕ_discrete x esc) [
  | yes q ↦ rw q (esc_step y rest ys (λ zs z. escape-unescape rest zs hr z) (rw q at e))
  | no q ↦ plain_step x (y ∷ rest) ys hx q (λ zs z. escape-unescape (y ∷ rest) zs (hy, hr) z) e
]

two_bytes : (q : Bytes) → length q ≡ 2 → All IsByte q → pack16 (unpack16 q) ≡ q
two_bytes [] e h = absurd (omega arith)
two_bytes (a ∷ []) e h = absurd (omega arith)
two_bytes (a ∷ b ∷ []) e (ha, (hb, _)) =
    let hi : (a * 2 ^ 8 + b) / 2 ^ 8 ≡ a = omega arith in
    let lo : (a * 2 ^ 8 + b) % 2 ^ 8 ≡ b = omega arith in rw (hi, lo)
two_bytes (a ∷ b ∷ c ∷ q) e h = absurd (omega arith)

check_payload_ok :
    (payload body : Bytes)
    → check_payload payload ≡ ok body
    → (take (length payload - 2) payload ≡ body)
      × (unpack16 (drop (length payload - 2) payload) ≡ crc16 body)
check_payload_ok payload body e = ground arith

decode_payload_ok :
    (payload body : Bytes)
    → decode_payload payload ≡ ok body
    → (2 ≤ length payload) × (check_payload payload ≡ ok body)
unfolding decode_payload
decode_payload_ok payload body e = elim (Bool-cases (leb 2 (length payload))) [
  | inl p ↦ (ground arith, rw p at e)
  | inr p ↦ cc (rw p at e)
]

payload_split :
    (p body : Bytes) → All IsByte p → decode_payload p ≡ ok body → body ++ pack16 (crc16 body) ≡ p
payload_split p body h e =
    let (long, checked) = decode_payload_ok p body e in
    let (front, back) = check_payload_ok p body checked in
    let tail : Bytes = drop (length p - 2) p in
    let whole : take (length p - 2) p ++ tail ≡ p = take-append-drop (length p - 2) p in
    let bytes : All IsByte tail =
      All-append_right IsByte (take (length p - 2) p) tail (rw whole h) in
    let pair : pack16 (unpack16 tail) ≡ tail =
      two_bytes tail (omega (arith, length-drop (length p - 2) p)) bytes in
    rw (← back, pair, ← front) whole

escape-IsByte : (p : Bytes) → All IsByte (escape p) → All IsByte p
unfolding escape escape_map
escape-IsByte [] h = tt
escape-IsByte (x ∷ p) h = ground (arith, escape-IsByte p)

-- A frame whose inner bytes hold no delimiter is accepted only if it is, byte for byte, what
-- `encode_frame` writes for the body that `decode_frame` returns.
pub decode_frame_canonical :
    (inner body : Bytes)
    → All IsByte inner
    → All IsPlain inner
    → decode_frame (stx ∷ (inner ++ etx ∷ [])) ≡ ok body
    → encode_frame body ≡ stx ∷ (inner ++ etx ∷ [])
unfolding encode_frame
decode_frame_canonical inner body hb hp e = elim (Result-cases (unescape inner)) [
  | inl (payload, u) ↦
      let back : escape payload ≡ inner = escape-unescape inner payload hp u in
      let bytes : All IsByte payload = escape-IsByte payload (rw back hb) in
      let decoded : decode_payload payload ≡ ok body = rw (decode_frame_delimited, u) at e in
      rw (payload_split payload body bytes decoded, back)
  | inr (bad, u) ↦ cc (rw (decode_frame_delimited, u) at e)
]
