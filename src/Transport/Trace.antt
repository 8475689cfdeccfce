-- ===== src/Transport/Trace.antt =====
-- What a call of do and Login leaves in the trace: its sleeps, and its reports to the observer.
use brainapi_go_sdk.Prelude.{
  ap, sym, subst, ℕ, suc, ◌+◌, ◌*◌, ◌≡◌, List, [], ◌∷◌, Text, ℤ, pos, ◌≤ℤ◌, arith, ◌||◌, if_elim,
  is_empty,
}
use brainapi_go_sdk.Retry.{
  server_err_ceiling, rate_limit_ceiling, network_err_ceiling, server_err_floor, rate_limit_floor,
  network_err_floor, times, long_poll_ceiling, long_poll_floor, second,
}
use brainapi_go_sdk.Retry.Bounds.{clamp_range}
use brainapi_go_sdk.Transport.Perform.{raw_request, exchanged, attempt, do_with, sleep_ctx}
use brainapi_go_sdk.Transport.Login.{login_request, no_relogin, login}
use brainapi_go_sdk.Transport.Rule.{do_with_rule, Leaves, Final}
use brainapi_go_sdk.World.{observe_request, slept, World, Event}
use brainapi_go_sdk.Client.{Setup}
use brainapi_go_sdk.Transport.Do.{relogin, perform}
use brainapi_go_sdk.Transport.Decision.{
  looping, terminal_err, terminal_ok, RetryState, Relogin, retry_in, Evaluated,
}
use brainapi_go_sdk.Transport.Evaluate.{
  hinted, evaluate, on_server_error, on_unauthorized, on_rate_limited, on_forbidden,
  on_transport_error, on_long_poll, after_relogin,
}
use brainapi_go_sdk.Transport.Requests.{preflight_trace, accepted_requests, relogin_trace, requests}
use brainapi_go_sdk.Transport.Request.{request_url, DoRequest}
use brainapi_go_sdk.World.Monad.{diverged, err, ok, Outcome, M}
use brainapi_go_sdk.Runtime.{Reply}
use brainapi_go_sdk.Types.{RawResponse, Session}
use brainapi_go_sdk.Errors.{Error}
use brainapi_go_sdk.Transport.Cases.{evaluate_cases}

abbrev pub reports : List Event → ℕ
reports [] = 0
reports (observe_request m p s ∷ t) = suc (reports t)
reports (_ ∷ t) = reports t

abbrev pub SleepsInRange : List Event → Type 0
SleepsInRange [] = Unit {0}
SleepsInRange (slept d ∷ t) = (pos 1 ≤ℤ d) × (d ≤ℤ pos (120 * second)) × SleepsInRange t
SleepsInRange (_ ∷ t) = SleepsInRange t

-- The trace of a client at rest.
pub record IsTidy (t : List Event) : Type 0 where
  pub reported : reports t ≡ requests t
  pub paced : SleepsInRange t

abbrev Paces : Evaluated → Type 0
Paces (retry_in d, st, w) = (d ≤ℤ pos (120 * second)) × IsTidy w.trace
Paces (terminal_ok resp, st, w) = IsTidy w.trace
Paces (terminal_err resp e, st, w) = IsTidy w.trace
Paces (looping, st, w) = IsTidy w.trace

module _ (c : Setup) (r : DoRequest) (url : Text) (st : RetryState) (w : World)
    (t : IsTidy w.trace) where
  transport_error-Paces : (e : Error) → Paces (on_transport_error c r url st e w)
  unfolding on_transport_error
  transport_error-Paces e = ground (
    arith,
    clamp_range (times (st.err_attempt + 1) network_err_floor) network_err_floor network_err_ceiling
        (omega arith),
  )

  long_poll-Paces : (d : ℤ) → Paces (on_long_poll c r url st d w)
  unfolding on_long_poll
  long_poll-Paces d = ground (arith, clamp_range d long_poll_floor long_poll_ceiling (omega arith))

  forbidden-Paces : (resp : RawResponse) → Paces (on_forbidden c r url st resp w)
  unfolding on_forbidden
  forbidden-Paces resp = ground arith

  rate_limited-Paces : (resp : RawResponse) → Paces (on_rate_limited c r url st resp w)
  unfolding on_rate_limited
  rate_limited-Paces resp = ground (
    arith,
    clamp_range (hinted c r url st resp w) rate_limit_floor rate_limit_ceiling (omega arith),
  )

  server_error-Paces : (resp : RawResponse) → Paces (on_server_error c r url st resp w)
  unfolding on_server_error
  server_error-Paces resp = ground (
    arith,
    clamp_range (times (st.err_attempt + 1) server_err_floor) server_err_floor server_err_ceiling
        (omega arith),
  )

  after_relogin-Paces :
      (resp : RawResponse) (o : Outcome (Unit {0}) × World)
      → IsTidy o.1.trace
      → Paces (after_relogin c r url st resp o)
  unfolding after_relogin
  after_relogin-Paces resp (ok _, v) h = ground arith
  after_relogin-Paces resp (err e, v) h = h
  after_relogin-Paces resp (diverged, v) h = h

  unauthorized-Paces :
      (again : Relogin) (resp : RawResponse)
      → ((e p : Text) → IsTidy (again e p w).1.trace)
      → Paces (on_unauthorized c r url st again resp w)
  unfolding on_unauthorized
  unauthorized-Paces again resp h =
      if_elim Paces r.hints.no_auto_relogin _ _ (λ _. t)
        λ _.
          if_elim Paces st.relogged _ _ (λ _. t)
            λ _.
              if_elim Paces (is_empty w.state.email || is_empty w.state.password) _ _ (λ _. t)
                (λ _. after_relogin-Paces resp _ (h _ _))

  evaluate-Paces :
      (again : Relogin) (reply : Reply)
      → ((e p : Text) → IsTidy (again e p w).1.trace)
      → Paces (evaluate c r url st again reply w)
  evaluate-Paces again reply h =
      evaluate_cases c r url st w Paces
        (record {
          transport_error = transport_error-Paces;
          accepted = λ _ _. t;
          long_poll = λ d _. long_poll-Paces d;
          unauthorized = λ resp. unauthorized-Paces again resp h;
          forbidden = λ resp _. forbidden-Paces resp;
          limited = rate_limited-Paces;
          server_error = server_error-Paces;
          client_error = λ _ _. t;
        })
        reply

abbrev Resting : Final → Type 0
Resting f = IsTidy f.1.trace

slept-IsTidy :
    (c : Setup) (d : ℤ) (w : World)
    → d ≤ℤ pos (120 * second)
    → IsTidy w.trace
    → IsTidy (sleep_ctx c d w).1.trace
unfolding sleep_ctx
slept-IsTidy c d w h t = ground arith

Paces-Leaves : (c : Setup) (a : Evaluated) → Paces a → Leaves c (λ _ w. IsTidy w.trace) Resting a
Paces-Leaves c (terminal_ok resp, st, w) h = h
Paces-Leaves c (terminal_err resp e, st, w) h = h
Paces-Leaves c (retry_in d, st, w) h = slept-IsTidy c d w h.0 h.1
Paces-Leaves c (looping, st, w) h = h

do_with-IsTidy :
    (c : Setup) (again : Relogin) (r : DoRequest)
    → ((w : World) (e p : Text) → IsTidy w.trace → IsTidy (again e p w).1.trace)
    → (w : World) → IsTidy w.trace
    → IsTidy (do_with c again r w).1.trace
do_with-IsTidy c again r h w t =
    do_with_rule c again r (λ _ v. IsTidy v.trace) Resting (λ _ _ _ p. p) (λ _ _ p. p)
      (λ body _ st v p. Paces-Leaves c (attempt c again r body st v) (
        unfold attempt in
        let u = exchanged c r body v in
        let q : IsTidy u.trace = record { reported = ap suc p.reported; paced = p.paced } in
        evaluate-Paces c r (request_url c r) st u q again (c.reply v.tick (raw_request c r body))
          (λ e s. h u e s q)))
      w (subst IsTidy (sym (preflight_trace c w)) t)

login-IsTidy :
    (c : Setup) (email password : Text) (w : World)
    → IsTidy w.trace
    → IsTidy (login c email password w).1.trace
unfolding login
login-IsTidy c email password w t =
    if_elim (λ (m : M Session). IsTidy (m w).1.trace) (is_empty email || is_empty password) _ _
      (λ _. t)
      λ _.
        let m = do_with c no_relogin (login_request email password) w in
        subst IsTidy (sym (accepted_requests c email password m)) (
          do_with-IsTidy c no_relogin (login_request email password)
            (λ _ _ _ q. unfold no_relogin in q) w t)

relogin-IsTidy :
    (c : Setup) (w : World) (email password : Text)
    → IsTidy w.trace
    → IsTidy (relogin c email password w).1.trace
relogin-IsTidy c w email password t =
    subst IsTidy (sym (relogin_trace c email password w)) (login-IsTidy c email password w t)

-- From a trace in which every sleep lasts longer than 0 and at most 120 s and the observer was
-- told of as many requests as were sent, a call of do, the re-login included, leaves such a trace.
pub perform-IsTidy :
    (c : Setup) (r : DoRequest) (w : World) → IsTidy w.trace → IsTidy (perform c r w).1.trace
unfolding perform
perform-IsTidy c r = do_with-IsTidy c (relogin c) r (relogin-IsTidy c)
