-- ===== src/Hts/Protocol/Frame.antt =====
-- `encode_frame` and `decode_frame` of api/hts/protocol.py against one another.
use aegis_hass.Base.{
  ℕ, suc, ◌-◌, ◌≡◌, [], ◌∷◌, ◌++◌, leb, true, take, length, length-append, take-append_exact,
  get_or-append_exact, drop-append_exact, Bytes, ok, ◌>>=◌, arith,
}
use aegis_hass.Hts.Crc.{crc16}
use aegis_hass.Hts.Crc.Bitwise.{crc16-lt}
use aegis_hass.Hts.Protocol.{
  stx, etx, unescape, pack16, check_payload, last_of, decode_payload, encode_frame, decode_frame,
}
use aegis_hass.Hts.Protocol.Escape.{unescape-escape}

-- The body and its checksum, read back from the end of the payload.
check_payload-pack16 : (body : Bytes) → check_payload (body ++ pack16 (crc16 body)) ≡ ok body
check_payload-pack16 body =
    let crc : Bytes = pack16 (crc16 body) in
    let size : length (body ++ crc) - 2 ≡ length body = omega (arith, length-append body crc) in
    rw (size, take-append_exact body crc, drop-append_exact body crc)
      (ground (arith, crc16-lt body))

-- A frame between its delimiters.
last_of-append : (xs : Bytes) (x y : ℕ) → last_of (x ∷ (xs ++ y ∷ [])) ≡ y
last_of-append xs x y =
    let size : length (x ∷ (xs ++ y ∷ [])) - 1 ≡ suc (length xs) =
      omega (arith, length-append xs (y ∷ [])) in
    rw size (get_or-append_exact xs [] y 0)

inner-append : (xs : Bytes) (x y : ℕ) → take (length (x ∷ (xs ++ y ∷ [])) - 2) (xs ++ y ∷ []) ≡ xs
inner-append xs x y =
    let size : length (x ∷ (xs ++ y ∷ [])) - 2 ≡ length xs =
      omega (arith, length-append xs (y ∷ [])) in
    rw size (take-append_exact xs (y ∷ []))

-- With both delimiters in place, what counts is the text between them.
pub decode_frame_delimited :
    (inner : Bytes) → decode_frame (stx ∷ (inner ++ etx ∷ [])) ≡ (unescape inner >>= decode_payload)
unfolding decode_frame
decode_frame_delimited inner =
    let long : leb 2 (length (stx ∷ (inner ++ etx ∷ []))) ≡ true =
      ground (arith, length-append inner (etx ∷ [])) in
    rw (long, last_of-append inner stx etx, inner-append inner stx etx)

pub decode_payload-append : (body : Bytes) → decode_payload (body ++ pack16 (crc16 body)) ≡ ok body
unfolding decode_payload
decode_payload-append body =
    let long : leb 2 (length (body ++ pack16 (crc16 body))) ≡ true =
      ground (arith, length-append body (pack16 (crc16 body))) in
    rw long (check_payload-pack16 body)

-- `decode_frame` gives back the body that `encode_frame` was given.
pub decode_frame-encode_frame : (body : Bytes) → decode_frame (encode_frame body) ≡ ok body
unfolding encode_frame
decode_frame-encode_frame body =
    rw (decode_frame_delimited, unescape-escape) (decode_payload-append body)
