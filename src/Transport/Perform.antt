-- ===== src/Transport/Perform.antt =====
-- pkg/brainapi/transport.go: the loop of Client.do, over the call of Login that a 401 makes.
use brainapi_go_sdk.Prelude.{
  ◌-◌, ℕ, zero, suc, ◌+◌, Bool, false, Option, none, some, [], Text, codes, is_empty, not, ℤ, pos,
  pos_part, leb_ℤ, ◌||◌, if◌then◌else◌,
}
use brainapi_go_sdk.Types.{RawRequest, RawResponse}
use brainapi_go_sdk.Errors.{Error, opaque, wrapped}
use brainapi_go_sdk.Runtime.{Reply, response, failure}
use brainapi_go_sdk.World.{World, sent, slept, observe_request}
use brainapi_go_sdk.World.Monad.{M, Outcome, ok, err, diverged, continue, note}
use brainapi_go_sdk.Client.{Setup, preflight}
use brainapi_go_sdk.Transport.Request.{DoRequest, build_headers, request_url, body_bytes}
use brainapi_go_sdk.Transport.Decision.{
  terminal_ok, terminal_err, retry_in, looping, RetryState, Evaluated, Relogin,
  effective_max_long_polls,
}
use brainapi_go_sdk.Transport.Evaluate.{evaluate}

-- sleepCtx: `none` where the timer ran out.
unfoldable pub sleep_ctx : Setup → ℤ → World → Option Error × World
sleep_ctx c d w =
    if leb_ℤ d (pos 0)
    then (none, w)
    else (c.ctx_err w.tick, note (slept d) (record w { tick = w.tick + 1 }))

abbrev status_of : Reply → ℕ
status_of (response resp) = resp.status
status_of (failure e) = 0

abbrev pub raw_request : Setup → DoRequest → Text → RawRequest
raw_request c r body = record {
  method = r.method;
  url = request_url c r;
  body = body;
  headers = build_headers c r (not (is_empty body));
}

-- The exchange, the observer's call, and the moment after.
abbrev pub exchanged : Setup → DoRequest → Text → World → World
exchanged c r body w =
    note (observe_request r.method r.path (status_of (c.reply w.tick (raw_request c r body))))
      (note (sent (raw_request c r body)) (record w { tick = w.tick + 1 }))

-- One round of the loop up to the decision.
unfoldable pub attempt : Setup → Relogin → DoRequest → Text → RetryState → World → Evaluated
attempt c relogin r body st w =
    evaluate c r (request_url c r) st relogin (c.reply w.tick (raw_request c r body))
      (exchanged c r body w)

-- `return nil, ctx.Err()` where the context is done, else what comes next.
abbrev pub unless_done :
    {A : Type 0} → Option Error → World → (World → Outcome A × World) → Outcome A × World
unless_done (some e) w next = (err e, w)
unless_done none w next = next w

unfoldable pub proceed :
    Setup
    → (RetryState → World → Outcome RawResponse × World)
    → Evaluated
    → Outcome RawResponse × World
unfolding sleep_ctx
proceed c again (terminal_ok resp, st, w) = (ok resp, w)
proceed c again (terminal_err resp e, st, w) = (err e, w)
proceed c again (retry_in d, st, w) = unless_done (sleep_ctx c d w).0 (sleep_ctx c d w).1 (again st)
proceed c again (looping, st, w) = (diverged, w)

unfoldable pub do_loop :
    Setup → Relogin → DoRequest → Text → ℕ → RetryState → World → Outcome RawResponse × World
unfolding proceed attempt
do_loop c relogin r body zero st w = (diverged, w)
do_loop c relogin r body (suc fuel) st w =
    unless_done (c.ctx_err w.tick) w
      (λ v. proceed c (do_loop c relogin r body fuel) (attempt c relogin r body st v))

-- How many long-poll ticks, error retries and relogins a request has left.
abbrev pub polls_left : Setup → DoRequest → ℕ → ℕ
polls_left c r seen =
    if r.hints.long_poll503 || r.hints.long_poll200_empty
    then pos_part (effective_max_long_polls c.max_long_polls r.hints.max_long_polls) - seen
    else 0

abbrev pub relogins_left : DoRequest → Bool → ℕ
relogins_left r relogged = if r.hints.no_auto_relogin || relogged then 0 else 1

abbrev pub rounds_left : Setup → DoRequest → RetryState → ℕ
rounds_left c r st =
    polls_left c r st.long_poll_seen
    + (pos_part c.max_retries - st.err_attempt)
    + relogins_left r st.relogged

abbrev pub fresh : RetryState
fresh = record { relogged = false; long_poll_seen = 0; err_attempt = 0 }

-- An error of json.Marshal ends the call before the first exchange.
abbrev pub with_body : Option Text → World → (Text → M RawResponse) → Outcome RawResponse × World
with_body none w send = (err (wrapped (codes "brainapi: marshal body") (opaque [])), w)
with_body (some body) w send = send body w

-- Client.do; the fuel is one round more than the retries that are left.
unfoldable pub do_with : Setup → Relogin → DoRequest → M RawResponse
unfolding do_loop
do_with c relogin r w = continue (preflight c w) λ _ v.
    with_body (body_bytes c r) v
      (λ body. do_loop c relogin r body (suc (rounds_left c r fresh)) fresh)
