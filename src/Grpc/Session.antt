-- ===== src/Grpc/Session.antt =====
-- `AjaxSession` of api/session.py. SHA-256 and `uuid4` are parameters.
use aegis_hass.Base.{
  ℕ, Bool, false, not, ◌&&◌, ◌||◌, if◌then◌else◌, Option, none, some, List, [], ◌∷◌, ◌++◌,
  is_nonempty, Result, ok, err,
}
use aegis_hass.Base.Kv.{is_some}
use aegis_hass.Base.Text.{Text, codes}

pub record AjaxSession : Type 0 where
  pub session_token : Option Text
  pub user_hex_id : Option Text
  pub device_id : Text
  pub app_label : Text
  pub email : Option Text
  pub password_hash : Option Text

pub data AuthenticationError : Type 0 where
  authentication_error : Text → AuthenticationError
  two_factor_required : Text → AuthenticationError

-- `if value`, of an optional string.
abbrev pub is_given : Option Text → Bool
is_given none = false
is_given (some text) = is_nonempty text

abbrev pub text_or_empty : Option Text → Text
text_or_empty none = []
text_or_empty (some text) = text

-- `AjaxSession()`; `fresh_id` is what `uuid4` returned.
unfoldable pub new_session : Text → Option Text → Text → AjaxSession
new_session fresh_id device_id app_label = record {
  session_token = none;
  user_hex_id = none;
  device_id = if is_given device_id then text_or_empty device_id else fresh_id;
  app_label = app_label;
  email = none;
  password_hash = none;
}

unfoldable pub is_authenticated : AjaxSession → Bool
is_authenticated s = is_some s.session_token && is_some s.user_hex_id

unfoldable pub set_credentials_hashed : Text → Text → AjaxSession → AjaxSession
set_credentials_hashed email password_hash s = record s {
  email = some email;
  password_hash = some password_hash;
}

unfoldable pub set_credentials : (Text → Text) → Text → Text → AjaxSession → AjaxSession
set_credentials hash_password email password s =
    set_credentials_hashed email (hash_password password) s

unfoldable pub set_session : Text → Text → AjaxSession → AjaxSession
set_session token user s = record s { session_token = some token; user_hex_id = some user }

unfoldable pub clear_session : AjaxSession → AjaxSession
clear_session s = record s { session_token = none; user_hex_id = none }

abbrev pub login_entry : Option Text → List (Text × Text)
login_entry email =
    if is_given email then (codes "client-user-login", text_or_empty email) ∷ [] else []

unfoldable pub get_session_metadata : AjaxSession → List (Text × Text)
get_session_metadata s =
    if not (is_given s.session_token) || not (is_given s.user_hex_id)
    then []
    else (codes "client-session-token", text_or_empty s.session_token)
      ∷ (codes "a911-user-id", text_or_empty s.user_hex_id)
      ∷ (login_entry s.email ++ ((codes "client-user-role", codes "USER") ∷ []))

unfoldable pub get_device_info_metadata : AjaxSession → List (Text × Text)
get_device_info_metadata s =
    (codes "client-device-id", s.device_id)
    ∷ (codes "client-device-model", codes "SM-A536B")
    ∷ (codes "client-os", codes "Android")
    ∷ (codes "client-version-major", codes "3.57")
    ∷ (codes "application-label", s.app_label)
    ∷ (codes "client-device-type", codes "MOBILE")
    ∷ []

unfoldable pub get_call_metadata : AjaxSession → List (Text × Text)
get_call_metadata s = get_session_metadata s ++ get_device_info_metadata s

pub record LoginParams : Type 0 where
  pub email : Text
  pub password_sha256_hash : Text
  pub user_role : ℕ

-- `UserRole.USER`.
abbrev pub role_user : ℕ
role_user = 1

unfoldable pub get_login_params : AjaxSession → Result AuthenticationError LoginParams
get_login_params s =
    if not (is_given s.email) || not (is_given s.password_hash)
    then err (authentication_error (codes "Credentials not set. Call set_credentials() first."))
    else ok (record {
      email = text_or_empty s.email;
      password_sha256_hash = text_or_empty s.password_hash;
      user_role = role_user;
    })
