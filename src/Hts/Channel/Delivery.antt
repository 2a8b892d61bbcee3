-- ===== src/Hts/Channel/Delivery.antt =====
-- A message on its way from one side to the other: `_send_message` and `_receive_message` of
-- api/hts/client.py.
use aegis_hass.Base.{
  ℕ, ◌%◌, ◌≤◌, ◌<◌, ◌≡◌, ap, ◌∙◌, List, [], ◌∷◌, ◌++◌, append_assoc, ◌==◌, true, is_nonempty,
  if◌then◌else◌, Bytes, length, All, ok, arith,
}
use aegis_hass.Hts.Protocol.{encode_frame, pad16}
use aegis_hass.Hts.Protocol.Frame.{decode_frame-encode_frame}
use aegis_hass.Hts.Protocol.Padding.{IsSource, pad16_lem}
use aegis_hass.Hts.Crypto.{Cipher, IsBlockCipher, encrypt, decrypt}
use aegis_hass.Hts.Messages.{
  HtsMessage, build_message, build_header, parse_message, tlv_encode, tlv_decode, keep_nonempty,
}
use aegis_hass.Hts.Messages.Header.{IsWire, parse_message-build_message}
use aegis_hass.Hts.Messages.Tlv.{IsOrdinary, tlv_decode-tlv_encode_padded}
use aegis_hass.Hts.Channel.{CodecError, encode_message, decode_message, lift}

module _ (c : Cipher) (law : IsBlockCipher c) where
  aligned_test : (b : Bytes) → length b % 16 ≡ 0 → (length b % 16 == 0) ≡ true
  aligned_test b h = ground arith

  -- Whole blocks pass the cipher and the frame.
  decode_message_blocks :
      (blocks : Bytes)
      → length blocks % 16 ≡ 0
      → decode_message c (encode_frame (c.encryptor blocks))
        ≡ lift CodecError.message (parse_message blocks)
  unfolding decrypt decode_message
  decode_message_blocks blocks h =
      let kept : length (c.encryptor blocks) ≡ length blocks = law.length_kept blocks h in
      rw (decode_frame-encode_frame, kept, aligned_test blocks h, law.inverted blocks h)

  encode_message_blocks :
      (random : ℕ → Bytes) (m : HtsMessage)
      → length (pad16 random (build_message m)) % 16 ≡ 0
      → encode_message random c m ≡ ok (encode_frame (c.encryptor (pad16 random (build_message m))))
  unfolding encrypt encode_message
  encode_message_blocks random m h = rw (aligned_test (pad16 random (build_message m)) h)

append_payload :
    (m : HtsMessage) (pad : Bytes)
    → build_message m ++ pad ≡ build_message (record m { payload = m.payload ++ pad })
unfolding build_message build_header
append_payload m pad = append_assoc (build_header m) m.payload pad

padded-IsWire :
    (m : HtsMessage) (pad : Bytes) → IsWire m → IsWire (record m { payload = m.payload ++ pad })
padded-IsWire m pad h = record {
  sender_fits = h.sender_fits;
  receiver_fits = h.receiver_fits;
  seq_num_fits = h.seq_num_fits;
  link_fits = h.link_fits;
  flags_fits = h.flags_fits;
  type_fits = h.type_fits;
  type_known = h.type_known;
}

module _ (random : ℕ → Bytes) (source : IsSource random) (c : Cipher) (law : IsBlockCipher c) where
  -- Every message that fits the header is encoded, and its frame decodes to the same message with
  -- padding behind the payload: fewer than 16 bytes, each at least 10. The random source returns as
  -- many bytes as it is asked for, and the cipher keeps the length of whole blocks and is inverted.
  pub decode_message-encode_message :
      (m : HtsMessage)
      → IsWire m
      → (pad : Bytes) × (text : Bytes) × (encode_message random c m ≡ ok text)
        × (decode_message c text ≡ ok (record m { payload = m.payload ++ pad }))
        × (length pad < 16)
        × All (λ b. 10 ≤ b) pad
  decode_message-encode_message m h =
      let (pad, split, short, high, full) = pad16_lem random (build_message m) source in
      let blocks : Bytes = pad16 random (build_message m) in
      let m' : HtsMessage = record m { payload = m.payload ++ pad } in
      let parsed : parse_message blocks ≡ ok m' =
        ap parse_message (split ∙ append_payload m pad)
        ∙ parse_message-build_message m' (padded-IsWire m pad h) in
      (
        pad,
        encode_frame (c.encryptor blocks),
        encode_message_blocks c law random m full,
        decode_message_blocks c law blocks full ∙ ap (lift CodecError.message) parsed,
        short,
        high,
      )

  ordinary : (pad : Bytes) → All (λ b. 10 ≤ b) pad → All IsOrdinary pad
  ordinary [] h = tt
  ordinary (b ∷ pad) (hb, h) = ((omega arith, omega arith), ordinary pad h)

  -- A message that carries TLV parameters arrives with the parameters that are not empty, and with
  -- at most one more, which is the padding. Under the same assumptions.
  pub tlv_decode-decode_message :
      (m : HtsMessage) (p : Bytes) (ps : List Bytes)
      → IsWire m
      → m.payload ≡ tlv_encode (p ∷ ps)
      → (pad : Bytes) × (text : Bytes) × (m' : HtsMessage) × (encode_message random c m ≡ ok text)
        × (decode_message c text ≡ ok m')
        × (tlv_decode m'.payload
            ≡ keep_nonempty (p ∷ ps) ++ (if is_nonempty pad then pad ∷ [] else []))
        × (length pad < 16)
        × All (λ b. 10 ≤ b) pad
  tlv_decode-decode_message m p ps h e =
      let (pad, text, sent, came, short, high) = decode_message-encode_message m h in
      (
        pad,
        text,
        record m { payload = m.payload ++ pad },
        sent,
        came,
        ap (λ t. tlv_decode (t ++ pad)) e
            ∙ tlv_decode-tlv_encode_padded p ps pad (ordinary pad high),
        short,
        high,
      )
