-- ===== src/Transport/Credentials.antt =====
-- The credentials of the client across a call of do, whose re-login takes them.
use brainapi_go_sdk.World.{World}
use brainapi_go_sdk.Client.{preflight, Setup}
use brainapi_go_sdk.Transport.Perform.{raw_request, exchanged, attempt, do_with, sleep_ctx}
use brainapi_go_sdk.Prelude.{refl, ◌∙◌, ◌≡◌, ◌||◌, is_empty, if_elim, ℤ, arith, Text}
use brainapi_go_sdk.Transport.Login.{login_request, no_relogin, login, accept_login}
use brainapi_go_sdk.Transport.Request.{request_url, DoRequest}
use brainapi_go_sdk.Transport.Decision.{
  looping, retry_in, terminal_err, terminal_ok, reset_streak, RetryState, Relogin, Evaluated,
}
use brainapi_go_sdk.Types.{Session, RawResponse}
use brainapi_go_sdk.Transport.Rule.{do_with_rule, Leaves, Final}
use brainapi_go_sdk.Transport.Evaluate.{
  evaluate, on_rate_limited, after_relogin, on_unauthorized, on_long_poll, on_forbidden,
  on_transport_error, on_server_error,
}
use brainapi_go_sdk.Runtime.{Reply}
use brainapi_go_sdk.World.Monad.{return, M, diverged, continue-keeps, err, ok, Outcome}
use brainapi_go_sdk.Errors.{Error}
use brainapi_go_sdk.Transport.Cases.{evaluate_cases}
use brainapi_go_sdk.Transport.Do.{relogin, perform}

-- The client holds these credentials.
pub record Holds (e p : Text) (w : World) : Type 0 where
  pub email : w.state.email ≡ e
  pub password : w.state.password ≡ p

abbrev Held : Text → Text → Evaluated → Type 0
Held email password (d, st, w) = Holds email password w

module _ (c : Setup) (r : DoRequest) (url : Text) (st : RetryState) (w : World) {e p : Text}
    (t : Holds e p w) where
  transport_error-Held : (x : Error) → Held e p (on_transport_error c r url st x w)
  unfolding on_transport_error
  transport_error-Held x = ground arith

  long_poll-Held : (d : ℤ) → Held e p (on_long_poll c r url st d w)
  unfolding on_long_poll
  long_poll-Held d = ground arith

  forbidden-Held : (resp : RawResponse) → Held e p (on_forbidden c r url st resp w)
  unfolding on_forbidden
  forbidden-Held resp = ground arith

  rate_limited-Held : (resp : RawResponse) → Held e p (on_rate_limited c r url st resp w)
  unfolding on_rate_limited
  rate_limited-Held resp = ground arith

  server_error-Held : (resp : RawResponse) → Held e p (on_server_error c r url st resp w)
  unfolding on_server_error
  server_error-Held resp = ground arith

  after_relogin-Held :
      (resp : RawResponse) (o : Outcome (Unit {0}) × World)
      → Holds e p o.1
      → Held e p (after_relogin c r url st resp o)
  unfolding after_relogin
  after_relogin-Held resp (ok _, v) h = record { email = h.email; password = h.password }
  after_relogin-Held resp (err x, v) h = h
  after_relogin-Held resp (diverged, v) h = h

  unauthorized-Held :
      (again : Relogin) (resp : RawResponse)
      → Holds e p (again w.state.email w.state.password w).1
      → Held e p (on_unauthorized c r url st again resp w)
  unfolding on_unauthorized
  unauthorized-Held again resp h =
      if_elim (Held e p) r.hints.no_auto_relogin _ _ (λ _. t)
        λ _.
          if_elim (Held e p) st.relogged _ _ (λ _. t)
            λ _.
              if_elim (Held e p) (is_empty w.state.email || is_empty w.state.password) _ _ (λ _. t)
                (λ _. after_relogin-Held resp _ h)

  reset-Holds : Holds e p (reset_streak w)
  reset-Holds = record { email = t.email; password = t.password }

  evaluate-Held :
      (again : Relogin) (reply : Reply)
      → Holds e p (again w.state.email w.state.password w).1
      → Held e p (evaluate c r url st again reply w)
  evaluate-Held again reply h =
      evaluate_cases c r url st w (Held e p)
        (record {
          transport_error = transport_error-Held;
          accepted = λ _ _. reset-Holds;
          long_poll = λ d _. long_poll-Held d;
          unauthorized = λ resp. unauthorized-Held again resp h;
          forbidden = λ resp _. forbidden-Held resp;
          limited = rate_limited-Held;
          server_error = server_error-Held;
          client_error = λ _ _. t;
        })
        reply

abbrev Ended : Text → Text → Final → Type 0
Ended e p f = Holds e p f.1

slept-Holds :
    (c : Setup) (d : ℤ) (w : World) (e p : Text) → Holds e p w → Holds e p (sleep_ctx c d w).1
unfolding sleep_ctx
slept-Holds c d w e p t = ground arith

Held-Leaves :
    (c : Setup) (e p : Text) (a : Evaluated)
    → Held e p a
    → Leaves c (λ _ w. Holds e p w) (Ended e p) a
Held-Leaves c e p (terminal_ok resp, st, w) h = h
Held-Leaves c e p (terminal_err resp x, st, w) h = h
Held-Leaves c e p (retry_in d, st, w) h = slept-Holds c d w e p h
Held-Leaves c e p (looping, st, w) h = h

gate-Holds : (c : Setup) (w : World) (e p : Text) → Holds e p w → Holds e p (preflight c w).1
unfolding preflight
gate-Holds c w e p h = ground arith

pub do_with-Holds :
    (c : Setup) (again : Relogin) (r : DoRequest) (e p : Text)
    → ((w : World) → Holds e p w → Holds e p (again w.state.email w.state.password w).1)
    → (w : World) → Holds e p w
    → Holds e p (do_with c again r w).1
do_with-Holds c again r e p h w t =
    do_with_rule c again r (λ _ v. Holds e p v) (Ended e p) (λ _ _ _ q. q) (λ _ _ q. q)
      (λ body _ st v q. Held-Leaves c e p (attempt c again r body st v) (
        unfold attempt in
        let u = exchanged c r body v in
        let k : Holds e p u = record { email = q.email; password = q.password } in
        evaluate-Held c r (request_url c r) st u k again (c.reply v.tick (raw_request c r body))
          (h u k)))
      w (gate-Holds c w e p t)

accepted-Holds :
    (c : Setup) (e p : Text) (resp : RawResponse) (w : World)
    → Holds e p w
    → Holds e p (accept_login c e p resp w).1
unfolding accept_login
accepted-Holds c e p resp w t = ground arith

-- A login with the credentials that the client holds.
login-Holds : (c : Setup) (e p : Text) (w : World) → Holds e p w → Holds e p (login c e p w).1
unfolding login
login-Holds c e p w t =
    if_elim (λ (m : M Session). Holds e p (m w).1) (is_empty e || is_empty p) _ _ (λ _. t)
      λ _.
        continue-keeps (Holds e p) (do_with c no_relogin (login_request e p) w) (accept_login c e p)
          (do_with-Holds c no_relogin (login_request e p) e p (λ _ q. unfold no_relogin in q) w t)
          (λ resp v q. accepted-Holds c e p resp v q)

relogin-Holds :
    (c : Setup) (e p : Text) (w : World)
    → Holds e p w
    → Holds e p (relogin c w.state.email w.state.password w).1
unfolding relogin
relogin-Holds c e p w t =
    let k =
      continue-keeps (Holds w.state.email w.state.password)
        (login c w.state.email w.state.password w) (λ _. return tt)
        (login-Holds c w.state.email w.state.password w (record { email = refl; password = refl }))
        (λ _ _ q. q) in
    record { email = k.email ∙ t.email; password = k.password ∙ t.password }

pub perform-Holds :
    (c : Setup) (r : DoRequest) (e p : Text) (w : World) → Holds e p w → Holds e p (perform c r w).1
unfolding perform
perform-Holds c r e p = do_with-Holds c (relogin c) r e p (relogin-Holds c e p)
