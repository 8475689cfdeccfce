-- ===== src/Transport/Login.antt =====
-- pkg/brainapi/auth.go: Login, and what it takes from errors.go.
use brainapi_go_sdk.Prelude.{
  Bool, true, false, ◌&&◌, ◌||◌, Option, none, some, [], Text, codes, is_empty, leb, ltb, not,
  if◌then◌else◌,
}
use brainapi_go_sdk.Types.{RawResponse, Session}
use brainapi_go_sdk.Errors.{api, opaque, wrapped, err_invalid_argument, persona_inquiry}
use brainapi_go_sdk.Retry.{no_hints}
use brainapi_go_sdk.World.Monad.{M, return, fail, diverged, ◌>>=◌, ◌>>◌}
use brainapi_go_sdk.Client.{Setup, set_credentials}
use brainapi_go_sdk.Client.Url.{join_url}
use brainapi_go_sdk.Transport.Request.{DoRequest, plain_request}
use brainapi_go_sdk.Transport.Decision.{Relogin}
use brainapi_go_sdk.Transport.Perform.{do_with}

-- checkStatus
unfoldable pub check_status : Setup → RawResponse → Text → M (Unit {0})
check_status c resp path =
    if ltb resp.status 200 || leb 300 resp.status
    then fail (
        api (record {
          status = resp.status;
          method = codes "POST";
          url = join_url c path none;
          body = resp.body;
        }))
    else return tt

-- decodeBody, over the json.Unmarshal of its type.
unfoldable pub decode_body : {T : Type 0} → (Text → Option T) → Text → Text → M T
decode_body decode body desc = elim (decode body) [
  | none ↦ fail (wrapped desc (opaque body))
  | some v ↦ return v
]

abbrev pub login_request : Text → Text → DoRequest
login_request email password = record (plain_request (codes "POST") (codes "/authentication")) {
  auth = some (email, password);
  hints = record no_hints { no_auto_relogin = true };
}

abbrev no_session : Session
no_session = record { user = none; inquiry = [] }

session_of : Setup → RawResponse → M Session
unfolding decode_body
session_of c resp =
    if is_empty resp.body
    then return no_session
    else decode_body c.library.unmarshal_session resp.body (codes "session body")

abbrev is_none : Option Text → Bool
is_none none = true
is_none (some _) = false

-- The end of Login: the persona inquiry, or the credentials kept for the next 401.
finish_login : Text → Text → Session → M Session
unfolding set_credentials
finish_login email password sess =
    if not (is_empty sess.inquiry) && is_none sess.user
    then fail (persona_inquiry (record { inquiry = sess.inquiry }))
    else set_credentials email password >> return sess

-- What Login does with the response.
unfoldable pub accept_login : Setup → Text → Text → RawResponse → M Session
unfolding session_of finish_login check_status
accept_login c email password resp = do
  check_status c resp (codes "/authentication")
  sess ← session_of c resp
  finish_login email password sess

-- Login over `relogin`, the call that a 401 makes.
unfoldable pub login_with : Setup → Relogin → Text → Text → M Session
unfolding accept_login
login_with c relogin email password =
    if is_empty email || is_empty password
    then fail (wrapped (codes "email and password required") err_invalid_argument)
    else do_with c relogin (login_request email password) >>= accept_login c email password

-- No login is made inside a login.
unfoldable pub no_relogin : Relogin
no_relogin email password w = (diverged, w)

-- Login
unfoldable pub login : Setup → Text → Text → M Session
unfolding no_relogin login_with
login c = login_with c no_relogin
