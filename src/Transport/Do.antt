-- ===== src/Transport/Do.antt =====
-- pkg/brainapi/transport.go: Client.do with the login of Transport/Login.antt.
use brainapi_go_sdk.Types.{RawResponse}
use brainapi_go_sdk.World.Monad.{M, return, ◌>>=◌}
use brainapi_go_sdk.Client.{Setup}
use brainapi_go_sdk.Transport.Request.{DoRequest}
use brainapi_go_sdk.Transport.Decision.{Relogin}
use brainapi_go_sdk.Transport.Perform.{do_with}
use brainapi_go_sdk.Transport.Login.{login}

-- `if _, err := c.Login(ctx, email, pass); err != nil`
unfoldable pub relogin : Setup → Relogin
relogin c email password = do _ ← login c email password; return tt

unfoldable pub perform : Setup → DoRequest → M RawResponse
unfolding relogin do_with
perform c = do_with c (relogin c)
