-- ===== src/Transport/Cases.antt =====
-- The cases of evaluate, as one rule.
use brainapi_go_sdk.Prelude.{
  refl, Text, ℕ, ◌≡◌, Bool, true, ◌||◌, ◌&&◌, none, some, ℤ, ltb, leb, ◌==◌, arith, if_elim,
  is_empty, Option, codes,
}
use brainapi_go_sdk.Types.{RawRequest, RawResponse}
use brainapi_go_sdk.Errors.{Error}
use brainapi_go_sdk.Retry.{RetryHints, parse_retry_after}
use brainapi_go_sdk.Runtime.{Reply, response, failure}
use brainapi_go_sdk.World.{World}
use brainapi_go_sdk.Client.{Setup}
use brainapi_go_sdk.Transport.Request.{DoRequest}
use brainapi_go_sdk.Transport.Decision.{
  terminal_ok, terminal_err, RetryState, Evaluated, Relogin, reset_streak,
}
use brainapi_go_sdk.Transport.Evaluate.{
  late_status, evaluate, on_transport_error, on_success, on_status, on_long_poll, on_unauthorized,
  on_forbidden, on_rate_limited, on_server_error,
}

-- A status that ends a request well: 2xx, and with accept503 also 3xx and 503.
abbrev pub is_accepted : RetryHints → ℕ → Bool
is_accepted h status =
    (leb 200 status && ltb status 300)
    || (h.accept503 && ((leb 300 status && ltb status 400) || status == 503))

abbrev pub may_poll : RetryHints → Bool
may_poll h = h.long_poll503 || h.long_poll200_empty

module _ (c : Setup) (r : DoRequest) (url : Text) (st : RetryState) (w : World)
    (P : Evaluated → Type 0) where
  -- What each handler has to show of the responses that are `Got`.
  pub record HandledOf (Got : RawResponse → Type 0) (relogin : Relogin) : Type 0 where
    pub transport_error : (e : Error) → P (on_transport_error c r url st e w)
    pub accepted :
        (resp : RawResponse)
        → Got resp
        → is_accepted r.hints resp.status ≡ true
        → P (terminal_ok resp, st, reset_streak w)
    pub long_poll : (d : ℤ) → may_poll r.hints ≡ true → P (on_long_poll c r url st d w)
    pub unauthorized :
        (resp : RawResponse) → Got resp → P (on_unauthorized c r url st relogin resp w)
    pub forbidden :
        (resp : RawResponse) → Got resp → resp.status ≡ 403 → P (on_forbidden c r url st resp w)
    pub limited : (resp : RawResponse) → Got resp → P (on_rate_limited c r url st resp w)
    pub server_error : (resp : RawResponse) → Got resp → P (on_server_error c r url st resp w)
    pub client_error : (resp : RawResponse) (e : Error) → P (terminal_err (some resp) e, st, w)

  module _ {Got : RawResponse → Type 0} {relogin : Relogin} (h : HandledOf Got relogin) where
    polled :
        (resp : RawResponse) (o : Option ℤ)
        → Got resp
        → is_accepted r.hints resp.status ≡ true
        → r.hints.long_poll200_empty ≡ true
        → P (elim o [
          | some d ↦ on_long_poll c r url st d w
          | none ↦ (terminal_ok resp, st, reset_streak w)
        ])
    polled resp none g a l = h.accepted resp g a
    polled resp (some d) g a l = h.long_poll d (ground arith)

    success :
        (resp : RawResponse)
        → Got resp
        → is_accepted r.hints resp.status ≡ true
        → P (on_success c r url st resp w)
    unfolding on_success
    success resp g a =
        if_elim P (r.hints.long_poll200_empty && is_empty resp.body) _ _
          (λ b.
            polled resp
              (parse_retry_after c.library (c.now w.tick) (resp.header (codes "Retry-After"))) g a
              (ground arith))
          (λ _. h.accepted resp g a)

    -- The cases below 429.
    late : (resp : RawResponse) → Got resp → P (late_status c r url st resp w)
    unfolding late_status
    late resp g =
        if_elim P (resp.status == 503 && r.hints.long_poll503) _ _
          (λ a. h.long_poll _ (ground arith))
          λ _.
            if_elim P (leb 500 resp.status) _ _ (λ _. h.server_error resp g)
              λ _.
                if_elim P (resp.status == 405) _ _ (λ _. h.client_error resp _)
                  λ _.
                    if_elim P (resp.status == 404) _ _ (λ _. h.client_error resp _)
                      (λ _. h.client_error resp _)

    status : (resp : RawResponse) → Got resp → P (on_status c r url st relogin resp w)
    unfolding on_status
    status resp g =
        if_elim P (r.hints.accept503 && (leb 300 resp.status && ltb resp.status 400)) _ _
          (λ a. h.accepted resp g (ground arith))
          λ _.
            if_elim P (r.hints.accept503 && resp.status == 503) _ _
              (λ a. h.accepted resp g (ground arith))
              λ _.
                if_elim P (resp.status == 401) _ _ (λ _. h.unauthorized resp g)
                  λ _.
                    if_elim P (resp.status == 403) _ _ (λ a. h.forbidden resp g (ground arith))
                      λ _.
                        if_elim P (resp.status == 429) _ _ (λ _. h.limited resp g) λ _. late resp g

    -- The rule for evaluate, by what is known of a response.
    pub evaluate_cases_of :
        (reply : Reply)
        → ((resp : RawResponse) → reply ≡ response resp → Got resp)
        → P (evaluate c r url st relogin reply w)
    unfolding evaluate
    evaluate_cases_of (failure e) got = h.transport_error e
    evaluate_cases_of (response resp) got =
        if_elim P (leb 200 resp.status && ltb resp.status 300) _ _
          (λ a. success resp (got resp refl) (ground arith)) (λ _. status resp (got resp refl))

  -- What each handler has to show.
  pub record Handled (relogin : Relogin) : Type 0 where
    pub transport_error : (e : Error) → P (on_transport_error c r url st e w)
    pub accepted :
        (resp : RawResponse)
        → is_accepted r.hints resp.status ≡ true
        → P (terminal_ok resp, st, reset_streak w)
    pub long_poll : (d : ℤ) → may_poll r.hints ≡ true → P (on_long_poll c r url st d w)
    pub unauthorized : (resp : RawResponse) → P (on_unauthorized c r url st relogin resp w)
    pub forbidden : (resp : RawResponse) → resp.status ≡ 403 → P (on_forbidden c r url st resp w)
    pub limited : (resp : RawResponse) → P (on_rate_limited c r url st resp w)
    pub server_error : (resp : RawResponse) → P (on_server_error c r url st resp w)
    pub client_error : (resp : RawResponse) (e : Error) → P (terminal_err (some resp) e, st, w)

  -- The rule for evaluate.
  pub evaluate_cases :
      {relogin : Relogin}
      → Handled relogin
      → (reply : Reply) → P (evaluate c r url st relogin reply w)
  evaluate_cases {relogin} h reply =
      evaluate_cases_of {Got = λ _. Unit {0}} {relogin = relogin}
        (record {
          transport_error = h.transport_error;
          accepted = λ resp _. h.accepted resp;
          long_poll = h.long_poll;
          unauthorized = λ resp _. h.unauthorized resp;
          forbidden = λ resp _. h.forbidden resp;
          limited = λ resp _. h.limited resp;
          server_error = λ resp _. h.server_error resp;
          client_error = h.client_error;
        })
        reply (λ _ _. tt)

-- A response that the server gave to some request.
abbrev pub Received : Setup → RawResponse → Type 0
Received c resp = (n : ℕ) × (x : RawRequest) × (c.reply n x ≡ response resp)
