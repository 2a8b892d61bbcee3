-- ===== src/Hts/Auth.antt =====
-- api/hts/auth.py: the challenge, the connect request and the connected response.
pub mod Response
use aegis_hass.Base.{
  ℕ, ◌+◌, ◌*◌, ◌^◌, bit_and, bit_xor, Bool, not, ◌&&◌, ◌==◌, leb, if◌then◌else◌, List, [], ◌∷◌,
  ◌++◌, length, get_or, Bytes, ◌=ᵇ◌, Result, ok, err, ◌>>=◌, ◌>>◌, require,
}
use aegis_hass.Base.Text.{Text, codes, hex_upper}
use aegis_hass.Base.Utf8.{encode}
use aegis_hass.Hts.Messages.{tlv_encode, tlv_decode}

pub record HubInfo : Type 0 where
  pub hub_id : Text
  pub is_master : Bool

pub record ConnectedResponse : Type 0 where
  pub token : Bytes
  pub hubs : List HubInfo

-- Both bytes of the answer; `<< 2` is `* 2 ^ 2`.
unfoldable pub solve_challenge : ℕ → ℕ → Bytes
solve_challenge a b = bit_and (bit_xor a b) 0xFF ∷ bit_and (bit_and b a * 2 ^ 2) 0xFF ∷ []

-- The strings of one request: what the caller gives, and the defaults of the signature.
pub record ConnectStrings : Type 0 where
  pub device_id : Text
  pub app_label : Text
  pub client_os : Text
  pub client_version : Text
  pub device_model : Text

unfoldable pub connect_params : Bytes → ConnectStrings → ℕ → List Bytes
connect_params login_token s connection_type =
    (0x3F ∷ [])
    ∷ (2 ∷ [])
    ∷ login_token
    ∷ (5 ∷ [])
    ∷ (0 ∷ [])
    ∷ (7 ∷ [])
    ∷ encode (s.device_id ++ codes "_" ++ s.app_label)
    ∷ (8 ∷ [])
    ∷ encode s.app_label
    ∷ (9 ∷ [])
    ∷ (0 ∷ [])
    ∷ (10 ∷ [])
    ∷ encode s.client_version
    ∷ (11 ∷ [])
    ∷ (connection_type ∷ [])
    ∷ (12 ∷ [])
    ∷ encode (s.client_os ++ codes " 14")
    ∷ (13 ∷ [])
    ∷ encode s.device_model
    ∷ []

unfoldable pub build_connect_request : Bytes → ConnectStrings → ℕ → Bytes
unfolding connect_params
build_connect_request login_token s connection_type =
    tlv_encode (connect_params login_token s connection_type)

-- The `ValueError`s: how many parameters there were, or which the first was.
pub data ResponseError : Type 0 where
  response_too_short : ℕ → ResponseError
  unexpected_first : Bytes → ResponseError

-- The `while` loop: an id of four bytes counts only with its one-byte flag behind it.
unfoldable pub hub_entries : List Bytes → List HubInfo
hub_entries [] = []
hub_entries (id ∷ []) = []
hub_entries (id ∷ flag ∷ rest) =
    let more = hub_entries rest in
    if length id == 4 && length flag == 1
    then record { hub_id = hex_upper id; is_master = not (get_or flag 0 0 == 0) } ∷ more
    else []

abbrev pub read_params : List Bytes → Result ResponseError ConnectedResponse
read_params [] = err (response_too_short 0)
read_params (first ∷ []) = err (response_too_short 1)
read_params (first ∷ token ∷ rest) = do
  require (first =ᵇ (0x0F ∷ [])) (unexpected_first first)
  ok (record { token = token; hubs = hub_entries rest })

unfoldable pub parse_connected_response : Bytes → Result ResponseError ConnectedResponse
unfolding hub_entries
parse_connected_response payload = read_params (tlv_decode payload)
