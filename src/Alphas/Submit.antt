-- ===== src/Alphas/Submit.antt =====
-- pkg/brainapi/alphas.go: SubmitAlpha, the POST and the long poll that follows it.
use brainapi_go_sdk.Prelude.{
  ℕ, zero, suc, true, Option, none, some, [], ◌++◌, Text, codes, ℤ, pos_part,
}
use brainapi_go_sdk.Types.{RawResponse}
use brainapi_go_sdk.Retry.{clamp, parse_retry_after, long_poll_floor, long_poll_ceiling, no_hints}
use brainapi_go_sdk.World.Monad.{M, return, ◌>>=◌, ◌>>◌}
use brainapi_go_sdk.Client.{Setup, require_non_empty}
use brainapi_go_sdk.Client.Budgets.{submit, check_budget}
use brainapi_go_sdk.Transport.Request.{DoRequest, plain_request}
use brainapi_go_sdk.Transport.Perform.{sleep_ctx, unless_done}
use brainapi_go_sdk.Transport.Do.{perform}
use brainapi_go_sdk.Alphas.Verdict.{Verdict, pending_corr, parse_submit_verdict}

-- `if err := sleepCtx(ctx, d); err != nil { return err }`
unfoldable pub pause : Setup → ℤ → M (Unit {0})
unfolding sleep_ctx
pause c d w = unless_done (sleep_ctx c d w).0 (sleep_ctx c d w).1 (return tt)

abbrev paced : Option ℤ → ℤ
paced none = long_poll_floor
paced (some d) = clamp d long_poll_floor long_poll_ceiling

-- The sleep before the next poll: the server's hint in its bounds, or the floor.
unfoldable pub pause_after : Setup → RawResponse → M (Unit {0})
unfolding pause
pause_after c resp w =
    pause c (paced (parse_retry_after c.library (c.now w.tick) (resp.header (codes "Retry-After"))))
      w

abbrev pub submit_request : Text → Text → DoRequest
submit_request method id =
    record (plain_request method (codes "/alphas/" ++ (id ++ codes "/submit"))) {
      hints = record no_hints { accept503 = true };
    }

abbrev pub pending : Verdict
pending = record {
  status = pending_corr;
  reason = codes "long-poll cap exceeded";
  body = none;
  checks = [];
  http = 0;
}

abbrev pub answer : Option Verdict → M Verdict → M Verdict
answer none again = again
answer (some v) again = return v

-- The loop, by the polls that are left.
unfoldable pub submit_poll : Setup → Text → ℕ → RawResponse → M Verdict
unfolding pause_after
submit_poll c id zero post = return pending
submit_poll c id (suc n) post =
    pause_after c post
    >> (perform c (submit_request (codes "GET") id) >>= λ resp.
        answer (parse_submit_verdict c.library resp) (submit_poll c id n resp))

unfoldable pub submit_alpha : Setup → Text → M Verdict
unfolding submit_poll
submit_alpha c id = do
  require_non_empty id (codes "alpha id")
  check_budget c submit
  post ← perform c (submit_request (codes "POST") id)
  answer (parse_submit_verdict c.library post) (submit_poll c id (pos_part c.max_long_polls) post)
