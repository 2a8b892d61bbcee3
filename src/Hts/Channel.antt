-- ===== src/Hts/Channel.antt =====
-- api/hts/client.py: how a message becomes a frame (the end of `_send_message`, `_send_response` and
-- `_send_ack`) and a frame becomes a message (`_receive_message`).
pub mod Delivery
pub mod Send
use aegis_hass.Base.{ℕ, Bytes, Result, ok, err, ◌>>=◌}
use aegis_hass.Hts.Protocol.{FrameError, pad16, encode_frame, decode_frame}
use aegis_hass.Hts.Crypto.{Cipher, CryptoError, encrypt, decrypt}
use aegis_hass.Hts.Messages.{MessageError, HtsMessage, build_message, parse_message}

-- The `ValueError`s of the layers.
pub data CodecError : Type 0 where
  frame : FrameError → CodecError
  crypto : CryptoError → CodecError
  message : MessageError → CodecError

abbrev pub lift : {E A : Type 0} → (E → CodecError) → Result E A → Result CodecError A
lift f (ok a) = ok a
lift f (err e) = err (f e)

-- `raw`, `padded`, `encrypted`, `frame`.
unfoldable pub encode_message : (ℕ → Bytes) → Cipher → HtsMessage → Result CodecError Bytes
encode_message random cipher msg = do
  encrypted ← lift crypto (encrypt cipher (pad16 random (build_message msg)))
  ok (encode_frame encrypted)

-- `_receive_message`, behind `_read_frame`.
unfoldable pub decode_message : Cipher → Bytes → Result CodecError HtsMessage
decode_message cipher text = do
  body ← lift frame (decode_frame text)
  plaintext ← lift crypto (decrypt cipher body)
  lift message (parse_message plaintext)
