-- ===== src/Grpc/Client/Login.antt =====
-- The session across the logins of api/client.py.
use aegis_hass.Base.{
  true, false, ◌≡◌, refl, sym, ap, Option, none, some, ◌⊎◌, inl, inr, Result, ok, err, ◌>>=◌,
}
use aegis_hass.Grpc.Session.{
  is_authenticated, set_session, LoginParams, get_login_params, AuthenticationError,
}
use aegis_hass.Grpc.Client.{
  Channel, GrpcClient, ClientError, get_channel, LoginResponse, login_success, login_failed,
  login_empty, login_answered, login_with, login,
}

ok_inj : {c d : GrpcClient} → ◌≡◌ {A = Result ClientError GrpcClient} (ok c) (ok d) → c ≡ d
ok_inj {c = c} e = ap (λ r. elim r [ ok x ↦ x | err x ↦ c ]) e

err_not_ok :
    {c : GrpcClient} {x : ClientError}
    → ◌≡◌ {A = Result ClientError GrpcClient} (err x) (ok c)
    → true ≡ false
err_not_ok e = ap (λ r. elim r [ err y ↦ true | ok y ↦ false ]) e

login_answered-authenticated :
    (r : LoginResponse) (c d : GrpcClient)
    → login_answered r c ≡ ok d
    → (is_authenticated d.session ≡ true) ⊎ ((r ≡ login_empty) × (d ≡ c))
unfolding is_authenticated set_session
login_answered-authenticated (login_success token user) c d e =
    inl (ap (λ x. is_authenticated x.session) (sym (ok_inj e)))
login_answered-authenticated (login_failed f) c d e = absurd (let k = err_not_ok e in cc)
login_answered-authenticated login_empty c d e = inr (refl, sym (ok_inj e))

-- How a login with `execute` can have ended without an exception.
abbrev pub Ended : (LoginParams → LoginResponse) → GrpcClient → GrpcClient → Type 0
Ended execute c d =
    (is_authenticated d.session ≡ true)
    ⊎ ((params : LoginParams) × (get_login_params c.session ≡ ok params)
        × (execute params ≡ login_empty)
        × (d ≡ c))

login_with-Ended :
    (execute : LoginParams → LoginResponse) (o : Result AuthenticationError LoginParams)
    (c d : GrpcClient)
    → get_login_params c.session ≡ o
    → login_with execute o c ≡ ok d
    → Ended execute c d
login_with-Ended execute (err x) c d given e = absurd (let k = err_not_ok e in cc)
login_with-Ended execute (ok params) c d given e =
    elim (login_answered-authenticated (execute params) c d e) [
      | inl yes_there ↦ inl yes_there
      | inr (nothing, same) ↦ inr (params, given, nothing, same)
    ]

connected-Ended :
    (execute : LoginParams → LoginResponse) (o : Option Channel) (c d : GrpcClient)
    → (get_channel o >>= λ channel. login_with execute (get_login_params c.session) c) ≡ ok d
    → Ended execute c d
connected-Ended execute none c d e = absurd (let k = err_not_ok e in cc)
connected-Ended execute (some channel) c d e =
    login_with-Ended execute (get_login_params c.session) c d refl e

-- A login that raises nothing leaves an authenticated session, unless the response carried neither a
-- success nor a failure: then it returns without an error and the client is as it was.
pub login-Ended :
    (execute : LoginParams → LoginResponse) (c d : GrpcClient)
    → login execute c ≡ ok d
    → Ended execute c d
unfolding login
login-Ended execute c d e = connected-Ended execute c.channel c d e
