-- ===== src/Hts/Messages.antt =====
-- api/hts/messages.py: the message header and the TLV parameters of its payload.
pub mod Tlv
pub mod Header
use aegis_hass.Base.{
  ℕ, ◌+◌, ◌-◌, ◌*◌, ◌/◌, ◌%◌, ◌^◌, bit_and, Bool, not, ◌==◌, leb, ltb, if◌then◌else◌, Option, none,
  some, List, [], ◌∷◌, ◌++◌, map, length, get_or, take, drop, is_nonempty, Bytes, to_bytes,
  from_bytes, Result, ok, err, ◌>>=◌, ◌>>◌, require,
}

-- _DELIM, _ESC, _ESC_DELIM, _ESC_ESC.
abbrev pub delim : ℕ
delim = 0x05

abbrev pub tlv_esc : ℕ
tlv_esc = 0x06

abbrev pub esc_delim : ℕ
esc_delim = 0x35

abbrev pub esc_esc : ℕ
esc_esc = 0x36

unfoldable pub escape_byte : ℕ → Bytes
escape_byte b =
    if b == tlv_esc
    then tlv_esc ∷ esc_esc ∷ []
    else if b == delim
    then tlv_esc ∷ esc_delim ∷ []
    else b ∷ []

unfoldable pub tlv_escape_param : Bytes → Bytes
tlv_escape_param [] = []
tlv_escape_param (b ∷ rest) = escape_byte b ++ tlv_escape_param rest

-- The `while` loop. An orphan escape byte at the end is kept, like any last byte.
unfoldable pub tlv_unescape_param : Bytes → Bytes
tlv_unescape_param [] = []
tlv_unescape_param (b ∷ []) = b ∷ []
tlv_unescape_param (b ∷ nxt ∷ rest) =
    let after = tlv_unescape_param rest in
    let next = tlv_unescape_param (nxt ∷ rest) in
    if b == tlv_esc
    then if nxt == esc_delim
      then delim ∷ after
      else if nxt == esc_esc
      then tlv_esc ∷ after
      else tlv_esc ∷ nxt ∷ after
    else b ∷ next

-- The loop over the parameters.
unfoldable pub encode_params : List Bytes → Bytes
encode_params [] = []
encode_params (p ∷ ps) = delim ∷ (tlv_escape_param p ++ encode_params ps)

unfoldable pub tlv_encode : List Bytes → Bytes
tlv_encode [] = []
tlv_encode (p ∷ ps) = encode_params (p ∷ ps) ++ (delim ∷ [])

-- The `while` loop of `tlv_decode` with its `current`, and the segments that it appends from here on.
unfoldable pub split_segments : Bytes → Bytes → List Bytes
split_segments current [] = if is_nonempty current then current ∷ [] else []
split_segments current (b ∷ []) =
    let plain : Bytes = current ++ (b ∷ []) in
    if b == tlv_esc then plain ∷ [] else if b == delim then current ∷ [] else plain ∷ []
split_segments current (b ∷ nxt ∷ rest) =
    let pair = split_segments (current ++ (b ∷ nxt ∷ [])) rest in
    let cut = split_segments [] (nxt ∷ rest) in
    let plain = split_segments (current ++ (b ∷ [])) (nxt ∷ rest) in
    if b == tlv_esc then pair else if b == delim then current ∷ cut else plain

-- `[f(s) for s in segments if s]`.
abbrev pub keep_nonempty : List Bytes → List Bytes
keep_nonempty [] = []
keep_nonempty (s ∷ ss) = if is_nonempty s then s ∷ keep_nonempty ss else keep_nonempty ss

unfoldable pub tlv_decode : Bytes → List Bytes
tlv_decode bytes =
    if is_nonempty bytes
    then map tlv_unescape_param (keep_nonempty (split_segments [] bytes))
    else []

pub data MsgType : Type 0 where
  read_parameter write_parameter hub_registration adm_control user_registration : MsgType
  authentication ack connection updates ping hub_service : MsgType

unfoldable pub msg_type_value : MsgType → ℕ
msg_type_value read_parameter = 0x06
msg_type_value write_parameter = 0x07
msg_type_value hub_registration = 0x09
msg_type_value adm_control = 0x10
msg_type_value user_registration = 0x11
msg_type_value authentication = 0x15
msg_type_value ack = 0x16
msg_type_value connection = 0x18
msg_type_value updates = 0x19
msg_type_value ping = 0x0D
msg_type_value hub_service = 0x1D

-- The field's type `MsgType | int`.
pub data MsgKind : Type 0 where
  known : MsgType → MsgKind
  raw : ℕ → MsgKind

-- `int(msg_type)`.
unfoldable pub kind_value : MsgKind → ℕ
unfolding msg_type_value
kind_value (known t) = msg_type_value t
kind_value (raw n) = n

-- `MsgType(raw_type)`, or the number where that raises.
unfoldable pub kind_of : ℕ → MsgKind
kind_of n =
    if n == 0x06
    then known read_parameter
    else if n == 0x07
    then known write_parameter
    else if n == 0x09
    then known hub_registration
    else if n == 0x10
    then known adm_control
    else if n == 0x11
    then known user_registration
    else if n == 0x15
    then known authentication
    else if n == 0x16
    then known ack
    else if n == 0x18
    then known connection
    else if n == 0x19
    then known updates
    else if n == 0x0D
    then known ping
    else if n == 0x1D
    then known hub_service
    else raw n

pub record HtsMessage : Type 0 where
  pub sender : ℕ
  pub receiver : ℕ
  pub seq_num : ℕ
  pub link : ℕ
  pub flags : ℕ
  pub msg_type : MsgKind
  pub payload : Bytes

-- FLAG_NO_ACK and the duplicate flag.
unfoldable pub is_no_ack : HtsMessage → Bool
is_no_ack m = not (bit_and m.flags 0x20 == 0)

unfoldable pub is_duplicate : HtsMessage → Bool
is_duplicate m = not (bit_and m.flags 0x40 == 0)

unfoldable pub send_try : HtsMessage → ℕ
send_try m = bit_and m.flags 0x1F

unfoldable pub build_header : HtsMessage → Bytes
build_header m =
    to_bytes 4 (bit_and m.sender 0xFFFFFFFF)
    ++ to_bytes 4 (bit_and m.receiver 0xFFFFFFFF)
    ++ to_bytes 3 (bit_and m.seq_num 0xFFFFFF)
    ++ to_bytes 1 (bit_and m.link 0xFF)
    ++ to_bytes 1 (bit_and m.flags 0xFF)
    ++ to_bytes 1 (bit_and (kind_value m.msg_type) 0xFF)

unfoldable pub build_message : HtsMessage → Bytes
build_message m = build_header m ++ m.payload

abbrev pub header_size : ℕ
header_size = 14

-- The `ValueError` carries the length.
pub data MessageError : Type 0 where
  message_too_short : ℕ → MessageError

-- `bytes[from:from + size]` as a big-endian number.
abbrev pub field_at : Bytes → ℕ → ℕ → ℕ
field_at bytes start size = from_bytes (take size (drop start bytes))

unfoldable pub parse_message : Bytes → Result MessageError HtsMessage
parse_message bytes = do
  require (leb header_size (length bytes)) (message_too_short (length bytes))
  ok (record {
    sender = field_at bytes 0 4;
    receiver = field_at bytes 4 4;
    seq_num = field_at bytes 8 3;
    link = field_at bytes 11 1;
    flags = field_at bytes 12 1;
    msg_type = kind_of (field_at bytes 13 1);
    payload = drop header_size bytes;
  })
