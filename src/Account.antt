-- ===== src/Account.antt =====
-- pkg/brainapi/users.go, messages.go, password.go, email.go: the endpoints of the account.
use brainapi_go_sdk.Prelude.{◌++◌, is_empty, if◌then◌else◌, codes, ℤ, Option, Text, [], ◌∷◌, some}
use brainapi_go_sdk.Client.{Setup, require_non_empty}
use brainapi_go_sdk.Transport.Request.{plain_request, DoRequest}
use brainapi_go_sdk.World.Monad.{M}
use brainapi_go_sdk.Types.{fields, Payload}
use brainapi_go_sdk.Endpoint.{fetch}
use brainapi_go_sdk.Client.Url.{set, set_if_positive, set_if_not_empty}
use brainapi_go_sdk.World.Monad.{◌>>=◌, ◌>>◌}
use brainapi_go_sdk.Transport.Do.{perform}
use brainapi_go_sdk.Transport.Login.{check_status}

abbrev get_account : Text → DoRequest
get_account = plain_request (codes "GET")

-- checkStatus behind do: the endpoints that return an error alone.
unfoldable pub post_checked : Setup → DoRequest → M (Unit {0})
post_checked c r = do resp ← perform c r; check_status c resp r.path

abbrev post_account : Text → DoRequest
post_account = plain_request (codes "POST")

-- The body with the email, and the recaptcha where there is one.
unfoldable pub email_body : Text → Text → Payload
email_body email recaptcha = fields (
    (codes "email", email)
    ∷ (if is_empty recaptcha then [] else (codes "recaptcha", recaptcha) ∷ []))

unfoldable pub forgot_password : Setup → Text → Text → M (Unit {0})
unfolding email_body
forgot_password c email recaptcha = do
  require_non_empty email (codes "email")
  post_checked c (record (post_account (codes "/user/password/forgot")) {
    body = some (email_body email recaptcha);
  })

unfoldable pub reset_password : Setup → Text → Text → M (Unit {0})
reset_password c jwt new_password = do
  require_non_empty jwt (codes "jwt")
  require_non_empty new_password (codes "new password")
  post_checked c (record (post_account (codes "/user/password/reset")) {
    bearer = jwt;
    body =
        some
          (fields ((codes "password", new_password) ∷ (codes "confirmation", new_password) ∷ []));
  })

unfoldable pub reverify_email : Setup → Text → Text → M (Unit {0})
unfolding email_body
reverify_email c email recaptcha = do
  require_non_empty email (codes "email")
  post_checked c (record (post_account (codes "/user/email/reverify")) {
    body = some (email_body email recaptcha);
  })

unfoldable pub verify_email : Setup → Text → M (Unit {0})
verify_email c jwt = do
  require_non_empty jwt (codes "jwt")
  post_checked c (record (post_account (codes "/user/email/verify")) {
    bearer = jwt;
    raw_body = some (codes "{}");
  })

pub record ListMessagesOptions : Type 0 where
  pub kind : Text  -- Type
  pub limit : ℤ
  pub offset : ℤ
  pub order : Text

-- The endpoints that read, over the types that they decode.
module _ {T : Type 0} (c : Setup) (decode : Text → Option T) where
  unfoldable pub self : M T
  self = fetch c decode (get_account (codes "/users/self")) (codes "self")

  unfoldable pub competitions : M T
  competitions =
      fetch c decode (get_account (codes "/users/self/competitions")) (codes "competitions")

  unfoldable pub activities : Text → M T
  activities kind = do
    require_non_empty kind (codes "activity kind")
    fetch c decode (get_account (codes "/users/self/activities/" ++ kind)) (codes "activities")

  unfoldable pub diversity : Text → M T
  diversity grouping = do
    require_non_empty grouping (codes "grouping")
    fetch c decode
        (record (get_account (codes "/users/self/activities/diversity")) {
          query = some (set (codes "grouping") grouping []);
        })
        (codes "diversity")

  unfoldable pub messages : ListMessagesOptions → M T
  messages opts =
      fetch c decode
        (record (get_account (codes "/users/self/messages")) {
          query = some (
              set_if_not_empty (codes "order") opts.order (
                set_if_positive (codes "offset") opts.offset (
                  set_if_positive (codes "limit") opts.limit
                    (set_if_not_empty (codes "type") opts.kind []))));
        })
        (codes "messages page")
