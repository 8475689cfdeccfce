-- ===== src/Endpoint.antt =====
-- The shape that the read endpoints of pkg/brainapi share: the argument checks, one call of do, and
-- the decoding of the body. `decode` is json.Unmarshal at the endpoint's type.
pub mod Halts
pub mod Alphas
pub mod Catalog
pub mod Reads
use brainapi_go_sdk.Prelude.{Option, Text, is_empty, if◌then◌else◌}
use brainapi_go_sdk.Errors.{err_long_poll_exceeded}
use brainapi_go_sdk.World.Monad.{M, fail, ◌>>=◌}
use brainapi_go_sdk.Client.{Setup}
use brainapi_go_sdk.Transport.Request.{DoRequest}
use brainapi_go_sdk.Transport.Login.{decode_body}
use brainapi_go_sdk.Transport.Do.{perform}

module _ {T : Type 0} (c : Setup) (decode : Text → Option T) where
  -- do, then decodeBody.
  unfoldable pub fetch : DoRequest → Text → M T
  fetch r desc = do resp ← perform c r; decode_body decode resp.body desc

  -- The same where an empty body means that the long poll did not get there.
  unfoldable pub fetch_polled : DoRequest → Text → M T
  fetch_polled r desc = do
    resp ← perform c r
    if is_empty resp.body then fail err_long_poll_exceeded else decode_body decode resp.body desc
