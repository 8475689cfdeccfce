-- ===== src/Register.antt =====
-- pkg/brainapi/register.go: Register, which fills in what the form leaves out and has the captcha
-- solved. The CaptchaSolver is an argument: what it makes of the call that fetches a challenge.
pub mod Form
pub mod Posted
use brainapi_go_sdk.Prelude.{
  ◌&&◌, ◌==◌, not, is_empty, Option, codes, if◌then◌else◌, Text, List, [], ◌∷◌, none, some,
}
use brainapi_go_sdk.World.Monad.{
  map_error, fail, return, Outcome, M, ◌>>=◌, ◌>>◌, ok, err, diverged,
}
use brainapi_go_sdk.Types.{registration, RegisterInput, RawResponse, RegisterAuxiliary}
use brainapi_go_sdk.Client.{require_non_empty, Setup}
use brainapi_go_sdk.Transport.Do.{perform}
use brainapi_go_sdk.Transport.Request.{DoRequest, plain_request}
use brainapi_go_sdk.Errors.{err_invalid_argument, wrapped, api, Error}
use brainapi_go_sdk.World.{World}
use brainapi_go_sdk.Client.Url.{join_url}

abbrev pub agree_all : List Text
agree_all =
    codes "user-agreement"
    ∷ codes "terms-conditions"
    ∷ codes "privacy-policy"
    ∷ codes "account-details"
    ∷ codes "challenge"
    ∷ []

abbrev pub CaptchaSolver : Type 0
CaptchaSolver = M Text → M Text

abbrev pub challenge_refused : Setup → Text → RawResponse → Error
challenge_refused c path resp = api (record {
  status = resp.status;
  method = codes "GET";
  url = join_url c path none;
  body = resp.body;
})

-- FetchCaptchaChallenge
unfoldable pub fetch_captcha_challenge : Setup → M Text
fetch_captcha_challenge c = do
  resp ← perform c (plain_request (codes "GET") (codes "/captcha"))
  if resp.status == 200
      then return resp.body
      else fail (challenge_refused c (codes "/captcha") resp)

abbrev pub or_agreed : List Text → List Text
or_agreed [] = agree_all
or_agreed (t ∷ ts) = t ∷ ts

-- The confirmation and the agreements, where they are missing.
unfoldable pub with_defaults : RegisterAuxiliary → RegisterAuxiliary
with_defaults a = record a {
  confirmation = if is_empty a.confirmation then a.password else a.confirmation;
  agree = or_agreed a.agree;
}

-- The captcha, where it is missing.
unfoldable pub captcha_of : Setup → CaptchaSolver → Text → M Text
unfolding fetch_captcha_challenge
captcha_of c solve captcha w =
    if not (is_empty captcha)
    then return captcha w
    else if not c.has_solver
    then fail (wrapped (codes "register requires a CaptchaSolver") err_invalid_argument) w
    else map_error (wrapped (codes "captcha solve")) (solve (fetch_captcha_challenge c) w)

-- The form that is sent.
unfoldable pub complete_form : Setup → CaptchaSolver → RegisterInput → M RegisterInput
unfolding with_defaults captcha_of
complete_form c solve form = do
  require_non_empty form.email (codes "email")
  require_non_empty form.auxiliary.password (codes "auxiliary.password")
  captcha ← captcha_of c solve form.auxiliary.captcha
  return (record form { auxiliary = record (with_defaults form.auxiliary) { captcha = captcha } })

-- What Register makes of the response: no user where the body has none.
unfoldable pub accept_registered :
    {T : Type 0} → Setup → (Text → Option T) → RawResponse → M (Option T)
accept_registered c decode resp =
    if not (resp.status == 201) && not (resp.status == 200)
    then fail (
        api (record {
          status = resp.status;
          method = codes "POST";
          url = join_url c (codes "/users") none;
          body = resp.body;
        }))
    else return (if is_empty resp.body then none else decode resp.body)

abbrev pub users_request : RegisterInput → DoRequest
users_request sent = record (plain_request (codes "POST") (codes "/users")) {
  body = some (registration sent);
}

unfoldable pub register :
    {T : Type 0} → Setup → CaptchaSolver → (Text → Option T) → RegisterInput → M (Option T)
unfolding complete_form accept_registered
register c solve decode form = do
  sent ← complete_form c solve form
  resp ← perform c (users_request sent)
  accept_registered c decode resp
