-- ===== src/Hts/Channel/Send.antt =====
-- The messages that `_send_message`, `_send_response` and `_send_ack` of api/hts/client.py build,
-- and `_next_seq`.
pub mod Ack
use aegis_hass.Base.{ℕ, ◌+◌, bit_and, Option, none, some, List, [], ◌∷◌, Bytes, to_bytes}
use aegis_hass.Hts.Messages.{MsgType, MsgKind, HtsMessage, tlv_encode}

-- The addresses and the counter of the client.
pub record Endpoint : Type 0 where
  pub sender_id : ℕ
  pub receiver_id : ℕ
  pub seq_num : ℕ

unfoldable pub next_seq : Endpoint → ℕ × Endpoint
next_seq c = (
  c.seq_num,
  record {
    sender_id = c.sender_id;
    receiver_id = c.receiver_id;
    seq_num = bit_and (c.seq_num + 1) 0xFFFFFF;
  },
)

abbrev pub receiver_or : ℕ → Option ℕ → ℕ
receiver_or default none = default
receiver_or default (some receiver) = receiver

unfoldable pub message_to_send : Endpoint → MsgKind → Bytes → Option ℕ → HtsMessage × Endpoint
unfolding next_seq
message_to_send c kind payload receiver =
    let (seq, after) = next_seq c in
    (
      record {
        sender = c.sender_id;
        receiver = receiver_or c.receiver_id receiver;
        seq_num = seq;
        link = 0;
        flags = 0;
        msg_type = kind;
        payload = payload;
      },
      after,
    )

unfoldable pub response_to : Endpoint → HtsMessage → MsgType → Bytes → HtsMessage × Endpoint
unfolding next_seq
response_to c original msg_type payload =
    let (seq, after) = next_seq c in
    (
      record {
        sender = original.receiver;
        receiver = original.sender;
        seq_num = seq;
        link = original.link;
        flags = 0;
        msg_type = MsgKind.known msg_type;
        payload = payload;
      },
      after,
    )

unfoldable pub ack_of : Endpoint → HtsMessage → HtsMessage × Endpoint
unfolding next_seq
ack_of c original =
    let (seq, after) = next_seq c in
    (
      record {
        sender = c.sender_id;
        receiver = c.receiver_id;
        seq_num = seq;
        link = original.link;
        flags = 0;
        msg_type = MsgKind.known MsgType.ack;
        payload = tlv_encode ((0x00 ∷ []) ∷ to_bytes 3 original.seq_num ∷ []);
      },
      after,
    )
