-- ===== src/Hts/Protocol.antt =====
-- The frame layer of api/hts/protocol.py: escaping, padding, framing and its checks.
pub mod Escape
pub mod Frame
pub mod Reject
pub mod Padding
use aegis_hass.Base.{
  ℕ, ◌+◌, ◌-◌, ◌*◌, ◌/◌, ◌%◌, ◌^◌, max, ◌==◌, leb, if◌then◌else◌, Option, none, some, List, [], ◌∷◌,
  ◌++◌, map, length, get_or, take, drop, Bytes, Result, ok, err, ◌>>=◌, ◌>>◌, require,
}
use aegis_hass.Hts.Crc.{crc16}

-- STX, ETX, ESC.
abbrev pub stx : ℕ
stx = 0x02

abbrev pub etx : ℕ
etx = 0x03

abbrev pub esc : ℕ
esc = 0x04

-- The `ValueError`s of this module, one for each message.
pub data FrameError : Type 0 where
  trailing_esc : FrameError
  invalid_escape : ℕ → FrameError
  too_short : FrameError
  missing_stx : ℕ → FrameError
  missing_etx : ℕ → FrameError
  no_crc : FrameError
  crc_mismatch : ℕ → ℕ → FrameError

-- `_ESCAPE_MAP.get(byte)`.
unfoldable pub escape_map : ℕ → Option Bytes
escape_map byte =
    if byte == stx
    then some (esc ∷ 0x32 ∷ [])
    else if byte == etx
    then some (esc ∷ 0x33 ∷ [])
    else if byte == esc
    then some (esc ∷ 0x34 ∷ [])
    else none

-- `_UNESCAPE_MAP.get(suffix)`.
unfoldable pub unescape_map : ℕ → Option ℕ
unescape_map suffix =
    if suffix == 0x32
    then some stx
    else if suffix == 0x33
    then some etx
    else if suffix == 0x34
    then some esc
    else none

abbrev or_itself : ℕ → Option Bytes → Bytes
or_itself byte none = byte ∷ []
or_itself byte (some replacement) = replacement

unfoldable pub escape : Bytes → Bytes
escape [] = []
escape (byte ∷ rest) = or_itself byte (escape_map byte) ++ escape rest

abbrev pub put : Option ℕ → ℕ → Result FrameError Bytes → Result FrameError Bytes
put none suffix tail = err (invalid_escape suffix)
put (some byte) suffix tail = do out ← tail; ok (byte ∷ out)

-- The `while` loop, read forwards: what stands before an error is dropped with the exception.
unfoldable pub unescape : Bytes → Result FrameError Bytes
unescape [] = ok []
unescape (byte ∷ []) = if byte == esc then err trailing_esc else ok (byte ∷ [])
unescape (byte ∷ suffix ∷ rest) =
    let after = unescape rest in
    let next = unescape (suffix ∷ rest) in
    if byte == esc then put (unescape_map suffix) suffix after else put (some byte) suffix next

-- `os.urandom` is a parameter: `random n` are the bytes that one call for `n` returns.
unfoldable pub pad16 : (ℕ → Bytes) → Bytes → Bytes
pad16 random bytes =
    let remainder = length bytes % 16 in
    if remainder == 0 then bytes else bytes ++ map (λ b. max b 10) (random (16 - remainder))

-- `struct.pack(">H", n)` and `struct.unpack(">H", b)[0]`.
abbrev pub pack16 : ℕ → Bytes
pack16 n = (n / 2 ^ 8) ∷ (n % 2 ^ 8) ∷ []

abbrev pub unpack16 : Bytes → ℕ
unpack16 b = get_or b 0 0 * 2 ^ 8 + get_or b 1 0

unfoldable pub encode_frame : Bytes → Bytes
encode_frame encrypted_body =
    stx ∷ (escape (encrypted_body ++ pack16 (crc16 encrypted_body)) ++ etx ∷ [])

-- `payload[:-2]`, `payload[-2:]` and the checksum, on at least two bytes.
abbrev pub check_payload : Bytes → Result FrameError Bytes
check_payload payload =
    let body = take (length payload - 2) payload in
    let received = unpack16 (drop (length payload - 2) payload) in
    let computed = crc16 body in
    if received == computed then ok body else err (crc_mismatch computed received)

unfoldable pub decode_payload : Bytes → Result FrameError Bytes
decode_payload payload = do require (leb 2 (length payload)) no_crc; check_payload payload

-- `frame[-1]`, on a frame that is not empty.
abbrev pub last_of : Bytes → ℕ
last_of frame = get_or frame (length frame - 1) 0

unfoldable pub decode_frame : Bytes → Result FrameError Bytes
decode_frame frame = do
  require (leb 2 (length frame)) too_short
  require (get_or frame 0 0 == stx) (missing_stx (get_or frame 0 0))
  require (last_of frame == etx) (missing_etx (last_of frame))
  payload ← unescape (take (length frame - 2) (drop 1 frame))
  decode_payload payload
