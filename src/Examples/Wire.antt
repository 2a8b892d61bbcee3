-- ===== src/Examples/Wire.antt =====
-- Examples for frames, messages and the channel (api/hts/protocol.py, messages.py, crypto.py,
-- client.py).
use aegis_hass.Base.{
  ℕ, zero, suc, ◌<◌, ◌≤◌, ◌≡◌, refl, ap₂, bit_xor, if◌then◌else◌, List, [], ◌∷◌, ◌++◌, map, length,
  is_nonempty, All, Bytes, ok, err, inr, arith,
}
use aegis_hass.Base.Bits.{xor_cancel}
use aegis_hass.Hts.Crc.{crc16}
use aegis_hass.Hts.Crc.Bitwise.{crc16_bitwise, crc16-crc16_bitwise}
use aegis_hass.Hts.Protocol.{
  FrameError, stx, etx, escape_map, escape, pack16, encode_frame, decode_frame,
}
use aegis_hass.Hts.Protocol.Frame.{decode_frame-encode_frame}
use aegis_hass.Hts.Protocol.Reject.{decode_frame_detects_burst}
use aegis_hass.Hts.Protocol.Padding.{IsSource}
use aegis_hass.Hts.Crypto.{Cipher, IsBlockCipher}
use aegis_hass.Hts.Messages.{
  MsgType, MsgKind, HtsMessage, kind_value, kind_of, msg_type_value, tlv_encode, tlv_decode,
  keep_nonempty,
}
use aegis_hass.Hts.Messages.Header.{IsWire}
use aegis_hass.Hts.Messages.Tlv.{tlv_decode-tlv_encode}
use aegis_hass.Hts.Channel.{encode_message, decode_message}
use aegis_hass.Hts.Channel.Delivery.{decode_message-encode_message, tlv_decode-decode_message}
use aegis_hass.Hts.Client.Reader.{chunk, got, read_frame}
use aegis_hass.Hts.Client.Reader.Chunks.{concat, read_frame-encode_frame}

-- Each byte with 0x5A in place of AES, and a source that counts down.
abbrev mix : Bytes → Bytes
mix b = map (bit_xor 0x5A) b

abbrev mixer : Cipher
mixer = record { encryptor = mix; decryptor = mix }

length-mix : (b : Bytes) → length (mix b) ≡ length b
length-mix [] = refl
length-mix (x ∷ b) = omega (arith, length-mix b)

mix-mix : (b : Bytes) → mix (mix b) ≡ b
mix-mix [] = refl
mix-mix (x ∷ b) = ap₂ ◌∷◌ (xor_cancel 0x5A x) (mix-mix b)

mixer-IsBlockCipher : IsBlockCipher mixer
mixer-IsBlockCipher = record { length_kept = λ b h. length-mix b; inverted = λ b h. mix-mix b }

abbrev count_down : ℕ → Bytes
count_down zero = []
count_down (suc n) = n ∷ count_down n

count_down-IsSource : IsSource count_down
count_down-IsSource zero = refl
count_down-IsSource (suc n) = omega (arith, count_down-IsSource n)

abbrev two_params : List Bytes
two_params = (0x05 ∷ 0x06 ∷ []) ∷ [] ∷ (1 ∷ 2 ∷ 3 ∷ 4 ∷ []) ∷ []

abbrev update : HtsMessage
update = record {
  sender = 0x00A1B2C3;
  receiver = 0xFFFFFFFF;
  seq_num = 7;
  link = 1;
  flags = 0;
  msg_type = MsgKind.known MsgType.updates;
  payload = tlv_encode two_params;
}

update-IsWire : IsWire update
unfolding kind_value kind_of msg_type_value
update-IsWire = record {
  sender_fits = omega arith;
  receiver_fits = omega arith;
  seq_num_fits = omega arith;
  link_fits = omega arith;
  flags_fits = omega arith;
  type_fits = omega arith;
  type_known = refl;
}

decode_message-encode_message_example :
    (pad : Bytes) × (text : Bytes) × (encode_message count_down mixer update ≡ ok text)
    × (decode_message mixer text ≡ ok (record update { payload = update.payload ++ pad }))
    × (length pad < 16)
    × All (λ b. 10 ≤ b) pad
decode_message-encode_message_example =
    decode_message-encode_message count_down count_down-IsSource mixer mixer-IsBlockCipher update
      update-IsWire

tlv_decode-decode_message_example :
    (pad : Bytes) × (text : Bytes) × (m' : HtsMessage) × (encode_message count_down mixer update
      ≡ ok text)
    × (decode_message mixer text ≡ ok m')
    × (tlv_decode m'.payload
        ≡ keep_nonempty two_params ++ (if is_nonempty pad then pad ∷ [] else []))
    × (length pad < 16)
    × All (λ b. 10 ≤ b) pad
tlv_decode-decode_message_example =
    tlv_decode-decode_message count_down count_down-IsSource mixer mixer-IsBlockCipher update
      (0x05 ∷ 0x06 ∷ []) ([] ∷ (1 ∷ 2 ∷ 3 ∷ 4 ∷ []) ∷ []) update-IsWire refl

decode_frame-encode_frame_example :
    decode_frame (encode_frame (stx ∷ etx ∷ 9 ∷ [])) ≡ ok (stx ∷ etx ∷ 9 ∷ [])
decode_frame-encode_frame_example = decode_frame-encode_frame (stx ∷ etx ∷ 9 ∷ [])

read_frame-encode_frame_example :
    (rest : Bytes) × (later : List Bytes) × (read_frame []
        (map chunk ((7 ∷ []) ∷ (encode_frame (1 ∷ 2 ∷ []) ++ (8 ∷ [])) ∷ (9 ∷ []) ∷ []))
      ≡ got (encode_frame (1 ∷ 2 ∷ [])) rest (map chunk later))
    × (rest ++ concat later ≡ 8 ∷ 9 ∷ [])
unfolding encode_frame crc16 escape escape_map
read_frame-encode_frame_example =
    read_frame-encode_frame (7 ∷ []) (1 ∷ 2 ∷ []) (8 ∷ 9 ∷ []) []
      ((7 ∷ []) ∷ (encode_frame (1 ∷ 2 ∷ []) ++ (8 ∷ [])) ∷ (9 ∷ []) ∷ []) ((λ q. omega arith), tt)
      (refl, (refl, (refl, tt))) (omega arith) refl

crc16-crc16_bitwise_example : crc16 (1 ∷ 2 ∷ 0xFF ∷ []) ≡ crc16_bitwise (1 ∷ 2 ∷ 0xFF ∷ [])
crc16-crc16_bitwise_example =
    crc16-crc16_bitwise (1 ∷ 2 ∷ 0xFF ∷ []) (omega arith, (omega arith, (omega arith, tt)))

decode_frame_detects_burst_example :
    decode_frame
      (stx ∷ (escape ((1 ∷ 3 ∷ 5 ∷ 9 ∷ []) ++ pack16 (crc16 (1 ∷ 3 ∷ 4 ∷ 9 ∷ []))) ++ etx ∷ []))
    ≡ err (FrameError.crc_mismatch (crc16 (1 ∷ 3 ∷ 5 ∷ 9 ∷ [])) (crc16 (1 ∷ 3 ∷ 4 ∷ 9 ∷ [])))
decode_frame_detects_burst_example =
    decode_frame_detects_burst (1 ∷ []) (9 ∷ []) 3 4 3 5 (omega arith, tt) (omega arith, tt)
      (omega arith, (omega arith, (omega arith, (omega arith, tt)))) (inr (λ q. omega arith))

tlv_decode-tlv_encode_example : tlv_decode (tlv_encode two_params) ≡ keep_nonempty two_params
tlv_decode-tlv_encode_example = tlv_decode-tlv_encode two_params
