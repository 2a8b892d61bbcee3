-- ===== src/Hts/Channel/Send/Ack.antt =====
-- What an acknowledgement says, and the sequence numbers, of api/hts/client.py.
use aegis_hass.Base.{
  ℕ, zero, suc, ◌+◌, ◌%◌, ◌^◌, ◌<◌, ◌≡◌, refl, [], ◌∷◌, Bytes, to_bytes, from_bytes,
  from_bytes-to_bytes, arith,
}
use aegis_hass.Base.Bits.{bit_and_mask}
use aegis_hass.Hts.Messages.{HtsMessage, kind_value, kind_of, msg_type_value, tlv_decode}
use aegis_hass.Hts.Messages.Tlv.{tlv_decode-tlv_encode}
use aegis_hass.Hts.Messages.Header.{IsWire}
use aegis_hass.Hts.Channel.Send.{Endpoint, next_seq, ack_of}

-- The endpoint after a number of messages.
abbrev pub after_sends : ℕ → Endpoint → Endpoint
after_sends zero c = c
after_sends (suc n) c = after_sends n (next_seq c).1

after_sends_seq :
    (n : ℕ) (c : Endpoint)
    → c.seq_num < 2 ^ 24
    → (after_sends n c).seq_num ≡ (c.seq_num + n) % 2 ^ 24
unfolding next_seq
after_sends_seq zero c h = omega arith
after_sends_seq (suc n) c h =
    let masked = bit_and_mask 24 (c.seq_num + 1) in
    let later = after_sends_seq n (next_seq c).1 (omega arith) in omega arith

-- After any number of messages the sequence number is the first one plus that number, modulo 2^24.
pub next_seq-after_sends :
    (n : ℕ) (c : Endpoint)
    → c.seq_num < 2 ^ 24
    → (next_seq (after_sends n c)).0 ≡ (c.seq_num + n) % 2 ^ 24
unfolding next_seq
next_seq-after_sends n c h = after_sends_seq n c h

-- The ACK of a message whose number has three bytes fits the header and, decoded, carries the
-- received mark and that number. The client's addresses have four bytes and its number three, and
-- the message's link has one.
pub ack_of-IsWire :
    (c : Endpoint) (original : HtsMessage)
    → c.sender_id < 2 ^ 32
    → c.receiver_id < 2 ^ 32
    → c.seq_num < 2 ^ 24
    → original.link < 256
    → original.seq_num < 2 ^ 24
    → IsWire (ack_of c original).0
      × (seq : Bytes) × (tlv_decode (ack_of c original).0.payload ≡ (0x00 ∷ []) ∷ seq ∷ [])
      × (from_bytes seq ≡ original.seq_num)
unfolding ack_of next_seq kind_value kind_of msg_type_value
ack_of-IsWire c original hs hr hq hl ho = (
  record {
    sender_fits = hs;
    receiver_fits = hr;
    seq_num_fits = hq;
    link_fits = hl;
    flags_fits = omega arith;
    type_fits = omega arith;
    type_known = refl;
  },
  to_bytes 3 original.seq_num,
  tlv_decode-tlv_encode ((0x00 ∷ []) ∷ to_bytes 3 original.seq_num ∷ []),
  from_bytes-to_bytes 3 original.seq_num ho,
)
