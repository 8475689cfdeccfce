-- ===== src/Performance.antt =====
-- pkg/brainapi/performance.go: the two before-and-after-performance endpoints.
use brainapi_go_sdk.World.Monad.{M, ◌>>◌}
use brainapi_go_sdk.Client.{require_non_empty, Setup}
use brainapi_go_sdk.Prelude.{true, ◌++◌, codes, Option, Text}
use brainapi_go_sdk.Transport.Request.{plain_request, DoRequest}
use brainapi_go_sdk.Endpoint.{fetch_polled}
use brainapi_go_sdk.Retry.{no_hints}

abbrev performance_request : Text → DoRequest
performance_request path =
    record (plain_request (codes "GET") (path ++ codes "/before-and-after-performance")) {
      hints = record no_hints { long_poll503 = true; long_poll200_empty = true };
    }

module _ {T : Type 0} (c : Setup) (decode : Text → Option T) where
  unfoldable pub before_and_after_performance : Text → Text → M T
  before_and_after_performance competition_id alpha_id = do
    require_non_empty competition_id (codes "competition id")
    require_non_empty alpha_id (codes "alpha id")
    fetch_polled c decode
        (performance_request
          (codes "/competitions/" ++ (competition_id ++ (codes "/alphas/" ++ alpha_id))))
        (codes "before-and-after-performance")

  unfoldable pub self_before_and_after_performance : Text → M T
  self_before_and_after_performance alpha_id = do
    require_non_empty alpha_id (codes "alpha id")
    fetch_polled c decode (performance_request (codes "/users/self/alphas/" ++ alpha_id))
        (codes "before-and-after-performance")
