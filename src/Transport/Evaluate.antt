-- ===== src/Transport/Evaluate.antt =====
-- pkg/brainapi/transport.go: evaluate, which classifies one attempt. Each case of its switch is a
-- handler here. `relogin` is the call of Login. The log lines are left out.
use brainapi_go_sdk.Prelude.{
  ℕ, ◌+◌, [], Bool, true, ◌&&◌, ◌||◌, Option, none, some, Text, codes, is_empty, contains, ℤ, pos,
  leb_ℤ, ltb_ℤ, ltb, leb, ◌==◌, if◌then◌else◌,
}
use brainapi_go_sdk.Types.{RawResponse}
use brainapi_go_sdk.Errors.{
  Error, rate_limit, banned, not_verified, permission_denied, err_not_authenticated,
  err_long_poll_exceeded,
}
use brainapi_go_sdk.Runtime.{Reply, response, failure}
use brainapi_go_sdk.Retry.{
  clamp, times, parse_retry_after, is_cooldown_body, network_err_floor, network_err_ceiling,
  server_err_floor, server_err_ceiling, rate_limit_floor, rate_limit_ceiling, long_poll_floor,
  long_poll_ceiling,
}
use brainapi_go_sdk.World.{
  World, RetryKind, unauthorized, forbidden, rate_limited, server_error, network, cooldown_set,
  observe_retry, observe_long_poll,
}
use brainapi_go_sdk.World.Monad.{Outcome, ok, err, diverged, note, with_state}
use brainapi_go_sdk.Client.{Setup}
use brainapi_go_sdk.Transport.Request.{DoRequest}
use brainapi_go_sdk.Transport.Decision.{
  terminal_ok, terminal_err, retry_in, looping, RetryState, Evaluated, Relogin,
  effective_max_long_polls, short_body, reset_streak, api_error, next_streak,
}
use brainapi_go_sdk.Transport.Envelope.{drf_detail, classify_client_error}

module _ (c : Setup) (r : DoRequest) (url : Text) (st : RetryState) where
  retries_spent : Bool
  retries_spent = leb_ℤ c.max_retries (pos st.err_attempt)

  -- An error-class retry: the observer is told, and the attempt is counted.
  retry_after_error : ℕ → RetryKind → ℤ → World → Evaluated
  retry_after_error status kind sleep w = (
    retry_in sleep,
    record st { err_attempt = st.err_attempt + 1 },
    note (observe_retry r.method r.path status st.err_attempt kind sleep) w,
  )

  unfoldable pub on_transport_error : Error → World → Evaluated
  unfolding retries_spent retry_after_error
  on_transport_error e w =
      if retries_spent
      then (terminal_err none e, st, w)
      else retry_after_error 0 network
          (clamp (times (st.err_attempt + 1) network_err_floor) network_err_floor
            network_err_ceiling)
          w

  -- A long-poll tick with the sleep that the server asked for.
  unfoldable pub on_long_poll : ℤ → World → Evaluated
  on_long_poll d w =
      let seen = record st { long_poll_seen = st.long_poll_seen + 1 } in
      let sleep = clamp d long_poll_floor long_poll_ceiling in
      if ltb_ℤ (effective_max_long_polls c.max_long_polls r.hints.max_long_polls)
        (pos (st.long_poll_seen + 1))
      then (terminal_err none err_long_poll_exceeded, seen, w)
      else (
        retry_in sleep,
        seen,
        note (observe_long_poll r.method r.path (st.long_poll_seen + 1) sleep) w,
      )

  retry_after : RawResponse → World → Option ℤ
  retry_after resp w =
      parse_retry_after c.library (c.now w.tick) (resp.header (codes "Retry-After"))

  unfoldable pub on_success : RawResponse → World → Evaluated
  unfolding on_long_poll retry_after
  on_success resp w =
      if r.hints.long_poll200_empty && is_empty resp.body
      then elim (retry_after resp w) [
        | some d ↦ on_long_poll d w
        | none ↦ (terminal_ok resp, st, reset_streak w)
      ]
      else (terminal_ok resp, st, reset_streak w)

  unfoldable pub after_relogin : RawResponse → Outcome (Unit {0}) × World → Evaluated
  after_relogin resp (err e, w) = (terminal_err (some resp) e, st, w)
  after_relogin resp (diverged, w) = (looping, st, w)
  after_relogin resp (ok _, w) = (
    retry_in (pos 0),
    record st { relogged = true },
    note (observe_retry r.method r.path 401 st.err_attempt unauthorized (pos 0)) w,
  )

  unfoldable pub on_unauthorized : Relogin → RawResponse → World → Evaluated
  unfolding after_relogin
  on_unauthorized relogin resp w =
      if r.hints.no_auto_relogin
      then (api_error r url resp, st, w)
      else if st.relogged
      then (api_error r url resp, st, w)
      else if is_empty w.state.email || is_empty w.state.password
      then (terminal_err (some resp) err_not_authenticated, st, w)
      else after_relogin resp (relogin w.state.email w.state.password w)

  -- A 403 without the marks of an ordinary refusal: it counts towards a ban.
  unfoldable pub on_opaque_forbidden : RawResponse → World → Evaluated
  unfolding retries_spent retry_after_error short_body next_streak
  on_opaque_forbidden resp w =
      let streak = next_streak w.state.consecutive403 in
      let counted = record (w.state) { consecutive403 = streak } in
      let reason = short_body resp.body in
      if ltb_ℤ (pos 0) c.ban_threshold && leb_ℤ c.ban_threshold streak
      then (
        terminal_err (some resp) (banned (record { streak = streak; reason = reason })),
        st,
        with_state w (record counted { banned_flag = true; ban_reason = some reason }),
      )
      else if retries_spent
      then (terminal_ok resp, st, with_state w counted)
      else retry_after_error 403 forbidden server_err_floor (with_state w counted)

  unfoldable pub on_forbidden : RawResponse → World → Evaluated
  unfolding on_opaque_forbidden
  on_forbidden resp w =
      if contains resp.body (codes "\"checks\"")
      then (terminal_ok resp, st, reset_streak w)
      else if contains resp.body (codes "NOT_VERIFIED")
      then (
        terminal_err (some resp)
            (not_verified (record { email = []; status = resp.status; body = resp.body })),
        st,
        w,
      )
      else elim (drf_detail c.library resp.body) [
        | some d ↦ (
          terminal_err (some resp)
              (permission_denied (record { status = resp.status; detail = d; body = resp.body })),
          st,
          reset_streak w,
        )
        | none ↦ on_opaque_forbidden resp w
      ]

  or_zero : Option ℤ → ℤ
  or_zero none = pos 0
  or_zero (some d) = d

  -- `d, _ := resp.retryAfter()`
  unfoldable pub hinted : RawResponse → World → ℤ
  unfolding or_zero retry_after
  hinted resp w = or_zero (retry_after resp w)

  unfoldable pub on_rate_limited : RawResponse → World → Evaluated
  unfolding retries_spent retry_after_error hinted
  on_rate_limited resp w =
      let cd = is_cooldown_body resp.body in
      let d = clamp (hinted resp w) rate_limit_floor rate_limit_ceiling in
      if retries_spent
      then (
        terminal_err (some resp) (
            rate_limit (record {
              status = 429;
              retry_after = d;
              cooldown = cd;
              url = url;
              body = resp.body;
            })),
        st,
        w,
      )
      else retry_after_error 429 (if cd then cooldown_set else rate_limited) d w

  unfoldable pub on_server_error : RawResponse → World → Evaluated
  unfolding retries_spent retry_after_error
  on_server_error resp w =
      if retries_spent
      then (api_error r url resp, st, w)
      else retry_after_error resp.status server_error
          (clamp (times (st.err_attempt + 1) server_err_floor) server_err_floor server_err_ceiling)
          w

  -- The end of the switch, from the 503 of a long poll on.
  unfoldable pub late_status : RawResponse → World → Evaluated
  unfolding on_long_poll hinted on_server_error
  late_status resp w =
      if resp.status == 503 && r.hints.long_poll503
      then on_long_poll (hinted resp w) w
      else if leb 500 resp.status
      then on_server_error resp w
      else if resp.status == 405
      then (api_error r url resp, st, w)
      else if resp.status == 404
      then (api_error r url resp, st, w)
      else (terminal_err (some resp) (classify_client_error c.library resp url), st, w)

  -- The switch over the statuses outside 2xx, in its order.
  unfoldable pub on_status : Relogin → RawResponse → World → Evaluated
  unfolding on_unauthorized on_forbidden on_rate_limited late_status
  on_status relogin resp w =
      if r.hints.accept503 && (leb 300 resp.status && ltb resp.status 400)
      then (terminal_ok resp, st, reset_streak w)
      else if r.hints.accept503 && resp.status == 503
      then (terminal_ok resp, st, reset_streak w)
      else if resp.status == 401
      then on_unauthorized relogin resp w
      else if resp.status == 403
      then on_forbidden resp w
      else if resp.status == 429
      then on_rate_limited resp w
      else late_status resp w

  unfoldable pub evaluate : Relogin → Reply → World → Evaluated
  unfolding on_transport_error on_success on_status
  evaluate relogin (failure e) w = on_transport_error e w
  evaluate relogin (response resp) w =
      if leb 200 resp.status && ltb resp.status 300
      then on_success resp w
      else on_status relogin resp w
