-- ===== src/Grpc/Client.antt =====
-- `AjaxGrpcClient` of api/client.py: the keepalive interval, the channel, the logins and the refusal
-- of the client. A channel is known by its number and the keepalive interval it was opened with; the
-- responses and `str.lower` are parameters.
pub mod Login
pub mod Keepalive
use aegis_hass.Base.{
  ℕ, suc, ◌+◌, ◌/◌, max, Bool, true, false, not, ◌&&◌, ◌||◌, ◌==◌, if◌then◌else◌, Option, none,
  some, List, [], ◌∷◌, ◌++◌, Bytes, ◌=ᵇ◌, Result, ok, err, ◌>>=◌, length, take,
}
use aegis_hass.Base.Kv.{is_some}
use aegis_hass.Base.Text.{Text, codes}
use aegis_hass.Grpc.Session.{
  AjaxSession, AuthenticationError, authentication_error, two_factor_required, is_authenticated,
  set_session, clear_session, LoginParams, get_login_params,
}
use aegis_hass.Hts.Keyfobs.{hex_lower}

abbrev pub keepalive_start_ms : ℕ
keepalive_start_ms = 240000

abbrev pub keepalive_floor_ms : ℕ
keepalive_floor_ms = 60000

pub record Channel : Type 0 where
  pub number : ℕ
  pub keepalive_time_ms : ℕ

-- The attributes, with the channels that were closed and the number of the next one.
pub record GrpcClient : Type 0 where
  pub session : AjaxSession
  pub channel : Option Channel
  pub keepalive_time_ms : ℕ
  pub closed : List Channel
  pub next_channel : ℕ

unfoldable pub is_connected : GrpcClient → Bool
is_connected c = is_some c.channel && is_authenticated c.session

-- Whether the interval moved, and the client after it.
unfoldable pub reduce_keepalive : GrpcClient → Bool × GrpcClient
reduce_keepalive c =
    let new = max (c.keepalive_time_ms / 2) keepalive_floor_ms in
    if new == c.keepalive_time_ms then (false, c) else (true, record c { keepalive_time_ms = new })

-- `self._channel = self._open_channel()`.
unfoldable pub connect : GrpcClient → GrpcClient
connect c = record c {
  channel = some (record { number = c.next_channel; keepalive_time_ms = c.keepalive_time_ms });
  next_channel = suc c.next_channel;
}

abbrev pub close_old : Option Channel → List Channel → List Channel
close_old none closed = closed
close_old (some old) closed = old ∷ closed

-- An error on closing the old channel is only logged.
unfoldable pub reconnect_channel : GrpcClient → GrpcClient
reconnect_channel c = connect (record c { closed = close_old c.channel c.closed })

unfoldable pub close : GrpcClient → GrpcClient
close c = record c {
  closed = close_old c.channel c.closed;
  channel = none;
  session = clear_session c.session;
}

-- Whatever the call of the service does, the session is forgotten.
unfoldable pub logout : GrpcClient → GrpcClient
logout c =
    if not (is_some c.channel) || not (is_authenticated c.session)
    then c
    else record c { session = clear_session c.session }

pub data ClientError : Type 0 where
  not_connected : ClientError
  login_raised : AuthenticationError → ClientError

-- `_get_channel`.
abbrev pub get_channel : Option Channel → Result ClientError Channel
get_channel none = err not_connected
get_channel (some channel) = ok channel

-- The `failure` of a login, as `WhichOneof` names it.
pub data LoginFailure : Type 0 where
  two_fa_required : Text → LoginFailure
  other_failure : Text → LoginFailure

-- A response is empty where neither field is set.
pub data LoginResponse : Type 0 where
  login_success : Bytes → Text → LoginResponse
  login_failed : LoginFailure → LoginResponse
  login_empty : LoginResponse

unfoldable pub login_error : LoginFailure → AuthenticationError
login_error (two_fa_required request_id) = two_factor_required request_id
login_error (other_failure name) =
    if name =ᵇ codes "invalid_credentials"
    then authentication_error (codes "Invalid email or password")
    else if name =ᵇ codes "account_locked"
    then authentication_error (codes "Account is locked")
    else if name =ᵇ codes "account_not_confirmed"
    then authentication_error (codes "Account not confirmed")
    else authentication_error (codes "Login failed: " ++ name)

unfoldable pub totp_error : Text → AuthenticationError
totp_error name =
    if name =ᵇ codes "invalid_totp"
    then authentication_error (codes "Invalid TOTP code")
    else if name =ᵇ codes "account_locked"
    then authentication_error (codes "Account is locked")
    else authentication_error (codes "2FA login failed: " ++ name)

abbrev pub with_session : Bytes → Text → GrpcClient → GrpcClient
with_session token user c = record c { session = set_session (hex_lower token) user c.session }

abbrev pub login_answered : LoginResponse → GrpcClient → Result ClientError GrpcClient
login_answered (login_success token user) c = ok (with_session token user c)
login_answered (login_failed f) c = err (login_raised (login_error f))
login_answered login_empty c = ok c

-- `stub.execute` is `execute`, on the parameters of the request.
abbrev pub login_with :
    (LoginParams → LoginResponse)
    → Result AuthenticationError LoginParams
    → GrpcClient
    → Result ClientError GrpcClient
login_with execute (err e) c = err (login_raised e)
login_with execute (ok params) c = login_answered (execute params) c

unfoldable pub login : (LoginParams → LoginResponse) → GrpcClient → Result ClientError GrpcClient
login execute c =
    get_channel c.channel >>= λ channel. login_with execute (get_login_params c.session) c

-- The response to a TOTP code.
pub data TotpResponse : Type 0 where
  totp_success : Bytes → Text → TotpResponse
  totp_failed : Text → TotpResponse
  totp_empty : TotpResponse

abbrev pub totp_answered : TotpResponse → GrpcClient → Result ClientError GrpcClient
totp_answered (totp_success token user) c = ok (with_session token user c)
totp_answered (totp_failed name) c = err (login_raised (totp_error name))
totp_answered totp_empty c = ok c

unfoldable pub login_totp :
    (Text → Text → Text → TotpResponse)
    → Text
    → Text
    → Text
    → GrpcClient
    → Result ClientError GrpcClient
login_totp execute email request_id totp_code c =
    get_channel c.channel >>= λ channel. totp_answered (execute email request_id totp_code) c

-- An exception of a chain of causes: an error of gRPC with its code and details, or another one.
pub data Cause : Type 0 where
  permission_denied : Option Text → Cause
  unimplemented : Cause
  other_error : Cause

-- `part in text`.
unfoldable pub contains : Text → Text → Bool
contains part [] = part =ᵇ []
contains part (c ∷ text) = (part =ᵇ take (length part) (c ∷ text)) || contains part text

abbrev pub details_or_empty : Option Text → Text
details_or_empty none = []
details_or_empty (some details) = details

abbrev pub rejects : (Text → Text) → Bool → Cause → Bool
rejects lower api_retired (permission_denied details) =
    contains (codes "blacklist") (lower (details_or_empty details))
rejects lower api_retired unimplemented = api_retired
rejects lower api_retired other_error = false

-- The loop along `__cause__`.
unfoldable pub is_client_rejected : (Text → Text) → Bool → List Cause → Bool
is_client_rejected lower api_retired [] = false
is_client_rejected lower api_retired (cause ∷ chain) =
    if rejects lower api_retired cause then true else is_client_rejected lower api_retired chain
