-- ===== src/Transport/Asked.antt =====
-- The requests that a call of do sends: its own, and that of a re-login.
use brainapi_go_sdk.Prelude.{
  some, refl, inl, sym, subst, ◌≡◌, List, [], ◌∷◌, Text, codes, ℤ, arith, ◌||◌, if_elim, is_empty,
  none, ◌⊎◌, inr,
}
use brainapi_go_sdk.Client.{Setup}
use brainapi_go_sdk.Client.Url.{join_url}
use brainapi_go_sdk.Transport.Rule.{do_with_rule, Leaves, Final}
use brainapi_go_sdk.Transport.Decision.{
  looping, retry_in, terminal_err, terminal_ok, RetryState, Evaluated, Relogin,
}
use brainapi_go_sdk.World.{sent, World, Event}
use brainapi_go_sdk.Transport.Do.{relogin, perform}
use brainapi_go_sdk.Transport.Perform.{exchanged, attempt, do_with, raw_request, sleep_ctx}
use brainapi_go_sdk.Transport.Login.{login_request, no_relogin, login}
use brainapi_go_sdk.Transport.Request.{body_bytes, request_url, DoRequest}
use brainapi_go_sdk.Types.{Session, RawResponse, RawRequest}
use brainapi_go_sdk.Transport.Evaluate.{
  evaluate, on_rate_limited, on_forbidden, on_long_poll, after_relogin, on_unauthorized,
  on_server_error, on_transport_error,
}
use brainapi_go_sdk.World.Monad.{diverged, err, ok, Outcome, M}
use brainapi_go_sdk.Runtime.{Reply}
use brainapi_go_sdk.Errors.{Error}
use brainapi_go_sdk.Transport.Requests.{accepted_requests, preflight_trace, relogin_trace}
use brainapi_go_sdk.Transport.Cases.{evaluate_cases}

-- A trace of requests with a property.
abbrev pub Only : (RawRequest → Type 0) → List Event → Type 0
Only P [] = Unit {0}
Only P (sent x ∷ t) = P x × Only P t
Only P (_ ∷ t) = Only P t

-- The request of Login.
abbrev pub IsLogin : Setup → RawRequest → Type 0
IsLogin c x = (x.method ≡ codes "POST") × (x.url ≡ join_url c (codes "/authentication") none)

-- A GET, or the request of Login.
abbrev pub IsReading : Setup → RawRequest → Type 0
IsReading c x = (x.method ≡ codes "GET") ⊎ IsLogin c x

-- A trace in which every request is a GET or that of Login.
abbrev pub OnlyReads : Setup → List Event → Type 0
OnlyReads c = Only (IsReading c)

abbrev AttemptSends : (RawRequest → Type 0) → Evaluated → Type 0
AttemptSends P (a, st, w) = Only P w.trace

module _ (P : RawRequest → Type 0) (c : Setup) (r : DoRequest) (url : Text) (st : RetryState)
    (w : World) (t : Only P w.trace) where
  transport_error-Sends : (e : Error) → AttemptSends P (on_transport_error c r url st e w)
  unfolding on_transport_error
  transport_error-Sends e = ground arith

  long_poll-Sends : (d : ℤ) → AttemptSends P (on_long_poll c r url st d w)
  unfolding on_long_poll
  long_poll-Sends d = ground arith

  forbidden-Sends : (resp : RawResponse) → AttemptSends P (on_forbidden c r url st resp w)
  unfolding on_forbidden
  forbidden-Sends resp = ground arith

  rate_limited-Sends : (resp : RawResponse) → AttemptSends P (on_rate_limited c r url st resp w)
  unfolding on_rate_limited
  rate_limited-Sends resp = ground arith

  server_error-Sends : (resp : RawResponse) → AttemptSends P (on_server_error c r url st resp w)
  unfolding on_server_error
  server_error-Sends resp = ground arith

  after_relogin-Sends :
      (resp : RawResponse) (o : Outcome (Unit {0}) × World)
      → Only P o.1.trace
      → AttemptSends P (after_relogin c r url st resp o)
  unfolding after_relogin
  after_relogin-Sends resp (ok _, v) h = h
  after_relogin-Sends resp (err e, v) h = h
  after_relogin-Sends resp (diverged, v) h = h

  unauthorized-Sends :
      (again : Relogin) (resp : RawResponse)
      → ((e p : Text) → Only P (again e p w).1.trace)
      → AttemptSends P (on_unauthorized c r url st again resp w)
  unfolding on_unauthorized
  unauthorized-Sends again resp h =
      if_elim (AttemptSends P) r.hints.no_auto_relogin _ _ (λ _. t)
        λ _.
          if_elim (AttemptSends P) st.relogged _ _ (λ _. t)
            λ _.
              if_elim (AttemptSends P) (is_empty w.state.email || is_empty w.state.password) _ _
                (λ _. t)
                (λ _.
                  after_relogin-Sends resp (again w.state.email w.state.password w)
                    (h w.state.email w.state.password))

  evaluate-Sends :
      (again : Relogin) (reply : Reply)
      → ((e p : Text) → Only P (again e p w).1.trace)
      → AttemptSends P (evaluate c r url st again reply w)
  evaluate-Sends again reply h =
      evaluate_cases c r url st w (AttemptSends P)
        (record {
          transport_error = transport_error-Sends;
          accepted = λ _ _. t;
          long_poll = λ d _. long_poll-Sends d;
          unauthorized = λ resp. unauthorized-Sends again resp h;
          forbidden = λ resp _. forbidden-Sends resp;
          limited = rate_limited-Sends;
          server_error = server_error-Sends;
          client_error = λ _ _. t;
        })
        reply

slept-Only :
    (P : RawRequest → Type 0) (c : Setup) (d : ℤ) (w : World)
    → Only P w.trace
    → Only P (sleep_ctx c d w).1.trace
unfolding sleep_ctx
slept-Only P c d w t = ground arith

abbrev AtRest : (RawRequest → Type 0) → Final → Type 0
AtRest P f = Only P f.1.trace

AttemptSends-Leaves :
    (P : RawRequest → Type 0) (c : Setup) (a : Evaluated)
    → AttemptSends P a
    → Leaves c (λ _ w. Only P w.trace) (AtRest P) a
AttemptSends-Leaves P c (terminal_ok resp, st, w) h = h
AttemptSends-Leaves P c (terminal_err resp e, st, w) h = h
AttemptSends-Leaves P c (retry_in d, st, w) h = slept-Only P c d w h
AttemptSends-Leaves P c (looping, st, w) h = h

do_with-Only :
    (P : RawRequest → Type 0) (c : Setup) (again : Relogin) (r : DoRequest)
    → ((body : Text) → body_bytes c r ≡ some body → P (raw_request c r body))
    → ((w : World) (e p : Text) → Only P w.trace → Only P (again e p w).1.trace)
    → (w : World) → Only P w.trace
    → Only P (do_with c again r w).1.trace
do_with-Only P c again r reading h w t =
    do_with_rule c again r (λ _ v. Only P v.trace) (AtRest P) (λ _ _ _ p. p) (λ _ _ p. p)
      (λ body e st v p. AttemptSends-Leaves P c (attempt c again r body st v) (
        unfold attempt in
        let u = exchanged c r body v in
        let q : Only P u.trace = (reading body e, p) in
        evaluate-Sends P c r (request_url c r) st u q again (c.reply v.tick (raw_request c r body))
          (λ x y. h u x y q)))
      w (subst (Only P) (sym (preflight_trace c w)) t)

pub login-Only :
    (P : RawRequest → Type 0) (c : Setup)
    → ((e p body : Text) → P (raw_request c (login_request e p) body))
    → (email password : Text) (w : World) → Only P w.trace
    → Only P (login c email password w).1.trace
unfolding login
login-Only P c logins email password w t =
    if_elim (λ (m : M Session). Only P (m w).1.trace) (is_empty email || is_empty password) _ _
      (λ _. t)
      λ _.
        let m = do_with c no_relogin (login_request email password) w in
        subst (Only P) (sym (accepted_requests c email password m)) (
          do_with-Only P c no_relogin (login_request email password)
            (λ body _. logins email password body) (λ _ _ _ q. unfold no_relogin in q) w t)

-- A call of do.
pub perform-Only :
    (P : RawRequest → Type 0) (c : Setup) (r : DoRequest)
    → ((body : Text) → body_bytes c r ≡ some body → P (raw_request c r body))
    → ((e p body : Text) → P (raw_request c (login_request e p) body))
    → (w : World) → Only P w.trace
    → Only P (perform c r w).1.trace
unfolding perform
perform-Only P c r own logins =
    do_with-Only P c (relogin c) r own
      λ w e p t. subst (Only P) (sym (relogin_trace c e p w)) (login-Only P c logins e p w t)

pub login_request-IsLogin :
    (c : Setup) (e p body : Text) → IsLogin c (raw_request c (login_request e p) body)
unfolding request_url
login_request-IsLogin c e p body = (refl, refl)

-- A call of do with a request of its own that is a GET.
pub perform-OnlyReads :
    (c : Setup) (r : DoRequest)
    → r.method ≡ codes "GET"
    → (w : World) → OnlyReads c w.trace
    → OnlyReads c (perform c r w).1.trace
perform-OnlyReads c r get =
    perform-Only (IsReading c) c r (λ _ _. inl get)
      (λ e p body. inr (login_request-IsLogin c e p body))
