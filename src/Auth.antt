-- ===== src/Auth.antt =====
-- pkg/brainapi/auth.go: Probe, Logout and CompletePersona.
pub mod SignIn
pub mod Probed
use brainapi_go_sdk.Prelude.{◌||◌, ◌==◌, Option, none, some, Text, codes, is_empty, if◌then◌else◌}
use brainapi_go_sdk.Types.{RawResponse, Session, persona}
use brainapi_go_sdk.Errors.{ApiError, Error, as_api_error, err_not_authenticated}
use brainapi_go_sdk.World.{jar_cleared}
use brainapi_go_sdk.World.Monad.{M, Outcome, ok, err, diverged, note, ◌>>=◌, ◌>>◌}
use brainapi_go_sdk.World.{World}
use brainapi_go_sdk.Client.{Setup, clear_credentials, require_non_empty}
use brainapi_go_sdk.Transport.Request.{DoRequest, plain_request}
use brainapi_go_sdk.Transport.Login.{decode_body, login}
use brainapi_go_sdk.Transport.Do.{perform}

abbrev pub session_request : Text → DoRequest
session_request method = plain_request method (codes "/authentication")

-- An APIError with status 401 becomes ErrNotAuthenticated.
abbrev pub unless_unauthorized : Error → Option ApiError → Error
unless_unauthorized e none = e
unless_unauthorized e (some a) = if a.status == 401 then err_not_authenticated else e

unfoldable pub probe_error : Error → Error
probe_error e = unless_unauthorized e (as_api_error e)

-- What Probe does with the result of do; `decode` is json.Unmarshal at SessionInfo.
unfoldable pub read_probe :
    {T : Type 0} → (Text → Option T) → Outcome RawResponse × World → Outcome T × World
unfolding probe_error decode_body
read_probe decode (err e, w) = (err (probe_error e), w)
read_probe decode (diverged, w) = (diverged, w)
read_probe decode (ok resp, w) =
    if resp.status == 401 || is_empty resp.body
    then (err err_not_authenticated, w)
    else decode_body decode resp.body (codes "probe body") w

unfoldable pub probe : {T : Type 0} → Setup → (Text → Option T) → M T
unfolding read_probe
probe c decode w = read_probe decode (perform c (session_request (codes "GET")) w)

-- c.tls.clearJar()
abbrev pub clear_jar : M (Unit {0})
clear_jar w = (ok tt, note jar_cleared w)

unfoldable pub logout : Setup → M (Unit {0})
unfolding clear_credentials
logout c = perform c (session_request (codes "DELETE")) >>= λ _. clear_jar >> clear_credentials

abbrev pub persona_request : Text → DoRequest
persona_request inquiry = record (plain_request (codes "POST") (codes "/authentication/persona")) {
  body = some (persona inquiry);
}

unfoldable pub complete_persona : Setup → Text → Text → Text → M Session
unfolding login
complete_persona c inquiry email password = do
  require_non_empty inquiry (codes "inquiry id")
  _ ← perform c (persona_request inquiry)
  login c email password
