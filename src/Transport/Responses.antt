-- ===== src/Transport/Responses.antt =====
-- Which responses do hands to an endpoint without an error.
use brainapi_go_sdk.Prelude.{
  true, false, ◌≡◌, ◌⊎◌, inl, inr, refl, Text, ℤ, arith, if_elim, contains, codes, Option, none,
  some, leb_ℤ, pos,
}
use brainapi_go_sdk.Transport.Do.{relogin, perform}
use brainapi_go_sdk.Client.{Setup}
use brainapi_go_sdk.Transport.Request.{request_url, DoRequest}
use brainapi_go_sdk.World.{World}
use brainapi_go_sdk.Types.{RawResponse}
use brainapi_go_sdk.Transport.Decision.{
  next_streak, looping, retry_in, terminal_err, Relogin, terminal_ok, Evaluated, RetryState,
}
use brainapi_go_sdk.Transport.Envelope.{drf_detail}
use brainapi_go_sdk.Transport.Evaluate.{
  evaluate, on_opaque_forbidden, on_server_error, on_unauthorized, on_rate_limited, on_forbidden,
  on_long_poll, on_transport_error,
}
use brainapi_go_sdk.Transport.Rule.{Leaves, do_with_rule, Final}
use brainapi_go_sdk.Transport.Cases.{evaluate_cases_of, Received, is_accepted}
use brainapi_go_sdk.World.Monad.{diverged, err, ok}
use brainapi_go_sdk.Errors.{Error}
use brainapi_go_sdk.Runtime.{response, Reply}
use brainapi_go_sdk.Transport.Perform.{do_with, raw_request, exchanged, attempt}
use brainapi_go_sdk.Transport.Steps.{is_ban}

-- What do promises of a response: the server gave it, and its status is one that the endpoint
-- accepts, or it is a 403, and then it is a refusal that lists checks or an opaque one.
abbrev pub IsHandedOn : Setup → DoRequest → RawResponse → Type 0
IsHandedOn c r resp =
    Received c resp
    × ((is_accepted r.hints resp.status ≡ true)
        ⊎ ((resp.status ≡ 403)
            × ((contains resp.body (codes "\"checks\"") ≡ true)
                ⊎ ((contains resp.body (codes "NOT_VERIFIED") ≡ false)
                    × (drf_detail c.library resp.body ≡ none)))))

abbrev Hands : Setup → DoRequest → Evaluated → Type 0
Hands c r (terminal_ok resp, st, w) = IsHandedOn c r resp
Hands c r (terminal_err resp e, st, w) = Unit {0}
Hands c r (retry_in d, st, w) = Unit {0}
Hands c r (looping, st, w) = Unit {0}

abbrev pub Handed : Setup → DoRequest → Final → Type 0
Handed c r (ok resp, w) = IsHandedOn c r resp
Handed c r (err e, w) = Unit {0}
Handed c r (diverged, w) = Unit {0}

module _ (c : Setup) (r : DoRequest) (url : Text) (st : RetryState) (w : World) where
  transport_error-Hands : (e : Error) → Hands c r (on_transport_error c r url st e w)
  unfolding on_transport_error
  transport_error-Hands e = ground arith

  long_poll-Hands : (d : ℤ) → Hands c r (on_long_poll c r url st d w)
  unfolding on_long_poll
  long_poll-Hands d = ground arith

  rate_limited-Hands : (resp : RawResponse) → Hands c r (on_rate_limited c r url st resp w)
  unfolding on_rate_limited
  rate_limited-Hands resp = ground arith

  server_error-Hands : (resp : RawResponse) → Hands c r (on_server_error c r url st resp w)
  unfolding on_server_error
  server_error-Hands resp = ground arith

  unauthorized-Hands :
      (relogin : Relogin) (resp : RawResponse)
      → Hands c r (on_unauthorized c r url st relogin resp w)
  unfolding on_unauthorized
  unauthorized-Hands relogin resp = ground arith

  opaque-Hands :
      (resp : RawResponse) → IsHandedOn c r resp → Hands c r (on_opaque_forbidden c r url st resp w)
  unfolding on_opaque_forbidden
  opaque-Hands resp h =
      if_elim (Hands c r) (is_ban c (next_streak w.state.consecutive403)) _ _ (λ _. tt)
        (λ _. if_elim (Hands c r) (leb_ℤ c.max_retries (pos st.err_attempt)) _ _ (λ _. h) (λ _. tt))

  detailed-Hands :
      (resp : RawResponse) (o : Option Text) (d : Text → Evaluated)
      → ((t : Text) → Hands c r (d t))
      → (o ≡ none → IsHandedOn c r resp)
      → Hands c r (elim o [ some t ↦ d t | none ↦ on_opaque_forbidden c r url st resp w ])
  detailed-Hands resp none d h k = opaque-Hands resp (k refl)
  detailed-Hands resp (some t) d h k = h t

  forbidden-Hands :
      (resp : RawResponse)
      → Received c resp
      → resp.status ≡ 403
      → Hands c r (on_forbidden c r url st resp w)
  unfolding on_forbidden
  forbidden-Hands resp g e =
      if_elim (Hands c r) (contains resp.body (codes "\"checks\"")) _ _ (λ a. (g, inr (e, inl a)))
        λ _.
          if_elim (Hands c r) (contains resp.body (codes "NOT_VERIFIED")) _ _ (λ _. tt)
            λ b.
              detailed-Hands resp (drf_detail c.library resp.body) _ (λ _. tt)
                (λ n. (g, inr (e, inr (b, n))))

  evaluate-Hands :
      (relogin : Relogin) (reply : Reply)
      → ((resp : RawResponse) → reply ≡ response resp → Received c resp)
      → Hands c r (evaluate c r url st relogin reply w)
  evaluate-Hands relogin reply got =
      evaluate_cases_of c r url st w (Hands c r)
        (record {
          transport_error = transport_error-Hands;
          accepted = λ _ g a. (g, inl a);
          long_poll = λ d _. long_poll-Hands d;
          unauthorized = λ resp _. unauthorized-Hands relogin resp;
          forbidden = forbidden-Hands;
          limited = λ resp _. rate_limited-Hands resp;
          server_error = λ resp _. server_error-Hands resp;
          client_error = λ _ _. tt;
        })
        reply got

Hands-Leaves :
    (c : Setup) (r : DoRequest) (a : Evaluated)
    → Hands c r a
    → Leaves c (λ _ _. Unit {0}) (Handed c r) a
Hands-Leaves c r (terminal_ok resp, st, w) h = h
Hands-Leaves c r (terminal_err resp e, st, w) h = tt
Hands-Leaves c r (retry_in d, st, w) h = tt
Hands-Leaves c r (looping, st, w) h = tt

pub do_with-Handed :
    (c : Setup) (again : Relogin) (r : DoRequest) (w : World) → Handed c r (do_with c again r w)
do_with-Handed c again r w =
    do_with_rule c again r (λ _ _. Unit {0}) (Handed c r) (λ _ _ _ _. tt) (λ _ _ _. tt)
      (λ body _ st v _. Hands-Leaves c r _ (
        unfold attempt in
        evaluate-Hands c r (request_url c r) st (exchanged c r body v) again
          (c.reply v.tick (raw_request c r body)) (λ resp e. (v.tick, raw_request c r body, e))))
      w tt

-- A response that do returns without an error is one that the server gave, and has a status that
-- the hints of the endpoint accept, or is a 403 whose body lists checks, or is a 403 that neither
-- names NOT_VERIFIED nor has a detail.
pub perform-Handed : (c : Setup) (r : DoRequest) (w : World) → Handed c r (perform c r w)
unfolding perform
perform-Handed c r = do_with-Handed c (relogin c) r
