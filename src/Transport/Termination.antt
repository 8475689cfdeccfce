-- ===== src/Transport/Termination.antt =====
-- The termination of do and Login.
use brainapi_go_sdk.Prelude.{Text, ◌||◌, is_empty, arith, if_elim}
use brainapi_go_sdk.Types.{Session, RawResponse}
use brainapi_go_sdk.World.{World}
use brainapi_go_sdk.World.Monad.{M, Halts, Halts-continue}
use brainapi_go_sdk.Client.{Setup}
use brainapi_go_sdk.Transport.Request.{DoRequest}
use brainapi_go_sdk.Transport.Rounds.{do_with-Halts}
use brainapi_go_sdk.Transport.Login.{login, no_relogin, login_request, accept_login}
use brainapi_go_sdk.Transport.Do.{perform, relogin}

accept_login-Halts :
    (c : Setup) (email password : Text) (resp : RawResponse) (w : World)
    → Halts (accept_login c email password resp w)
unfolding accept_login
accept_login-Halts c email password resp w = ground arith

-- A login ends.
pub login-Halts : (c : Setup) (email password : Text) (w : World) → Halts (login c email password w)
unfolding login
login-Halts c email password w =
    if_elim (λ (m : M Session). Halts (m w)) (is_empty email || is_empty password) _ _ (λ _. tt)
      λ _.
        Halts-continue _ _
          (do_with-Halts c (login_request email password) no_relogin (λ f _ _ _. cc) w)
          (accept_login-Halts c email password)

-- Whatever the server, the clock and the context do, and whatever the limits, a call of do returns a
-- response or an error.
pub perform-Halts : (c : Setup) (r : DoRequest) (w : World) → Halts (perform c r w)
unfolding perform relogin
perform-Halts c r w =
    do_with-Halts c r (relogin c) (λ _ e p v. Halts-continue _ _ (login-Halts c e p v) (λ _ _. tt))
      w
