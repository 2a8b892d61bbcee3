-- ===== src/Hts/Messages/Header.antt =====
-- `build_message` and `parse_message` of api/hts/messages.py.
use aegis_hass.Base.{
  ℕ, ◌-◌, ◌^◌, ◌<◌, bit_and, ◌≡◌, ap, ◌∙◌, true, leb, ◌++◌, length, Bytes, to_bytes,
  from_bytes-to_bytes, ok, arith,
}
use native.Mathlib.Nat.{mod-eq_of_lt}
use aegis_hass.Base.Bits.{bit_and_mask}
use aegis_hass.Hts.Messages.{
  kind_value, kind_of, HtsMessage, build_header, build_message, parse_message, header_size,
}

-- A message whose fields fit the header, and whose type is spelled the way `parse_message` does.
pub record IsWire (m : HtsMessage) : Type 0 where
  pub sender_fits : m.sender < 2 ^ 32
  pub receiver_fits : m.receiver < 2 ^ 32
  pub seq_num_fits : m.seq_num < 2 ^ 24
  pub link_fits : m.link < 256
  pub flags_fits : m.flags < 256
  pub type_fits : kind_value m.msg_type < 256
  pub type_known : kind_of (kind_value m.msg_type) ≡ m.msg_type

abbrev fields : ℕ → ℕ → ℕ → ℕ → ℕ → ℕ → Bytes → Bytes
fields s r q l f t payload =
    to_bytes 4 s
    ++ to_bytes 4 r
    ++ to_bytes 3 q
    ++ to_bytes 1 l
    ++ to_bytes 1 f
    ++ to_bytes 1 t
    ++ payload

parse_fields :
    (s r q l f t : ℕ) (payload : Bytes)
    → s < 256 ^ 4
    → r < 256 ^ 4
    → q < 256 ^ 3
    → l < 256
    → f < 256
    → t < 256
    → parse_message (fields s r q l f t payload)
      ≡ ok (record {
        sender = s;
        receiver = r;
        seq_num = q;
        link = l;
        flags = f;
        msg_type = kind_of t;
        payload = payload;
      })
unfolding parse_message
parse_fields s r q l f t payload hs hr hq hl hf ht =
    let long : leb header_size (length (fields s r q l f t payload)) ≡ true = ground arith in
    rw long (
      cc (
        from_bytes-to_bytes 4 s hs,
        from_bytes-to_bytes 4 r hr,
        from_bytes-to_bytes 3 q hq,
        from_bytes-to_bytes 1 l hl,
        from_bytes-to_bytes 1 f hf,
        from_bytes-to_bytes 1 t ht,
      ))

mask : (k a : ℕ) → a < 2 ^ k → bit_and a (2 ^ k - 1) ≡ a
mask k a h = bit_and_mask k a ∙ mod-eq_of_lt h

-- `parse_message` reads back every message that fits the header, payload included.
pub parse_message-build_message :
    (m : HtsMessage) → IsWire m → parse_message (build_message m) ≡ ok m
unfolding build_message build_header
parse_message-build_message m h =
    let t : ℕ = kind_value m.msg_type in
    rw
      (
        mask 32 m.sender h.sender_fits,
        mask 32 m.receiver h.receiver_fits,
        mask 24 m.seq_num h.seq_num_fits,
        mask 8 m.link h.link_fits,
        mask 8 m.flags h.flags_fits,
        mask 8 t h.type_fits,
      )
      (parse_fields m.sender m.receiver m.seq_num m.link m.flags t m.payload h.sender_fits
          h.receiver_fits h.seq_num_fits h.link_fits h.flags_fits h.type_fits
        ∙ ap (λ k. ok (record m { msg_type = k })) h.type_known)
