-- ===== src/Transport/Requests.antt =====
-- How many HTTP requests one call of do or Login sends.
use brainapi_go_sdk.Prelude.{
  refl, ap, ◌*◌, ℕ, suc, ◌+◌, ◌-◌, ◌≤◌, ◌≡◌, true, false, List, [], ◌∷◌, Text, ℤ, arith, ◌||◌,
  if_elim, is_empty, pos_part,
}
use brainapi_go_sdk.Types.{Session, RawResponse}
use brainapi_go_sdk.Errors.{Error}
use brainapi_go_sdk.Runtime.{Reply}
use brainapi_go_sdk.World.{World, Event, sent}
use brainapi_go_sdk.World.Monad.{continue, M, Outcome, ok, err, diverged}
use brainapi_go_sdk.Client.{preflight, Setup}
use brainapi_go_sdk.Transport.Request.{request_url, DoRequest}
use brainapi_go_sdk.Transport.Decision.{
  terminal_ok, terminal_err, retry_in, looping, RetryState, Evaluated, Relogin,
}
use brainapi_go_sdk.Transport.Evaluate.{
  evaluate, on_transport_error, on_long_poll, on_unauthorized, on_forbidden, on_rate_limited,
  on_server_error, after_relogin,
}
use brainapi_go_sdk.Transport.Cases.{evaluate_cases, may_poll}
use brainapi_go_sdk.Transport.Perform.{
  raw_request, exchanged, attempt, fresh, sleep_ctx, do_with, polls_left, relogins_left,
}
use brainapi_go_sdk.Transport.Login.{login_request, no_relogin, accept_login, login}
use brainapi_go_sdk.Transport.Rule.{do_with_rule, Leaves, Final}
use brainapi_go_sdk.Transport.Do.{relogin, perform}

abbrev pub requests : List Event → ℕ
requests [] = 0
requests (sent x ∷ t) = suc (requests t)
requests (_ ∷ t) = requests t

-- The rounds that are left, with a login counted by the L requests that it may send.
abbrev pub cost_left : ℕ → Setup → DoRequest → RetryState → ℕ
cost_left l c r st =
    polls_left c r st.long_poll_seen
    + (pos_part c.max_retries - st.err_attempt)
    + relogins_left r st.relogged * (l + 1)

abbrev Spends : ℕ → Setup → DoRequest → RetryState → World → Evaluated → Type 0
Spends l c r st w (retry_in d, st', w') =
    requests w'.trace + cost_left l c r st' + 1 ≤ requests w.trace + cost_left l c r st
Spends l c r st w (terminal_ok resp, st', w') =
    requests w'.trace ≤ requests w.trace + relogins_left r st.relogged * (l + 1)
Spends l c r st w (terminal_err resp e, st', w') =
    requests w'.trace ≤ requests w.trace + relogins_left r st.relogged * (l + 1)
Spends l c r st w (looping, st', w') =
    requests w'.trace ≤ requests w.trace + relogins_left r st.relogged * (l + 1)

module _ (l : ℕ) (c : Setup) (r : DoRequest) (url : Text) (st : RetryState) (w : World) where
  transport_error-Spends : (e : Error) → Spends l c r st w (on_transport_error c r url st e w)
  unfolding on_transport_error
  transport_error-Spends e = ground arith

  long_poll-Spends :
      (d : ℤ) → may_poll r.hints ≡ true → Spends l c r st w (on_long_poll c r url st d w)
  unfolding on_long_poll
  long_poll-Spends d h = ground arith

  forbidden-Spends : (resp : RawResponse) → Spends l c r st w (on_forbidden c r url st resp w)
  unfolding on_forbidden
  forbidden-Spends resp = ground arith

  rate_limited-Spends : (resp : RawResponse) → Spends l c r st w (on_rate_limited c r url st resp w)
  unfolding on_rate_limited
  rate_limited-Spends resp = ground arith

  server_error-Spends : (resp : RawResponse) → Spends l c r st w (on_server_error c r url st resp w)
  unfolding on_server_error
  server_error-Spends resp = ground arith

  after_relogin-Spends :
      (resp : RawResponse) (o : Outcome (Unit {0}) × World)
      → r.hints.no_auto_relogin ≡ false
      → st.relogged ≡ false
      → requests o.1.trace ≤ requests w.trace + l
      → Spends l c r st w (after_relogin c r url st resp o)
  unfolding after_relogin
  after_relogin-Spends resp (ok _, v) a b h = ground arith
  after_relogin-Spends resp (err e, v) a b h = ground arith
  after_relogin-Spends resp (diverged, v) a b h = ground arith

  unauthorized-Spends :
      (relogin : Relogin) (resp : RawResponse)
      → (r.hints.no_auto_relogin ≡ false
          → (e p : Text) → requests (relogin e p w).1.trace ≤ requests w.trace + l)
      → Spends l c r st w (on_unauthorized c r url st relogin resp w)
  unfolding on_unauthorized
  unauthorized-Spends relogin resp h =
      if_elim (Spends l c r st w) r.hints.no_auto_relogin _ _ (λ _. omega arith)
        λ a.
          if_elim (Spends l c r st w) st.relogged _ _ (λ _. omega arith)
            λ b.
              if_elim (Spends l c r st w) (is_empty w.state.email || is_empty w.state.password) _ _
                (λ _. omega arith) (λ _. after_relogin-Spends resp _ a b (h a _ _))

  evaluate-Spends :
      (relogin : Relogin) (reply : Reply)
      → (r.hints.no_auto_relogin ≡ false
          → (e p : Text) → requests (relogin e p w).1.trace ≤ requests w.trace + l)
      → Spends l c r st w (evaluate c r url st relogin reply w)
  evaluate-Spends relogin reply h =
      evaluate_cases c r url st w (Spends l c r st w)
        (record {
          transport_error = transport_error-Spends;
          accepted = λ _ _. omega arith;
          long_poll = long_poll-Spends;
          unauthorized = λ resp. unauthorized-Spends relogin resp h;
          forbidden = λ resp _. forbidden-Spends resp;
          limited = rate_limited-Spends;
          server_error = server_error-Spends;
          client_error = λ _ _. omega arith;
        })
        reply

module _ (l : ℕ) (c : Setup) (r : DoRequest) (bound : ℕ) where
  abbrev Afford : RetryState → World → Type 0
  Afford st w = requests w.trace + cost_left l c r st + 1 ≤ bound

  abbrev Spent : Final → Type 0
  Spent f = requests f.1.trace ≤ bound

  slept_requests : (d : ℤ) (w : World) → requests (sleep_ctx c d w).1.trace ≡ requests w.trace
  unfolding sleep_ctx
  slept_requests d w = ground arith

  Spends-Leaves :
      (st : RetryState) (w : World) (a : Evaluated)
      → Spends l c r st w a
      → requests w.trace + cost_left l c r st ≤ bound
      → Leaves c Afford Spent a
  Spends-Leaves st w (terminal_ok resp, st', w') s h = omega arith
  Spends-Leaves st w (terminal_err resp e, st', w') s h = omega arith
  Spends-Leaves st w (retry_in d, st', w') s h = omega (arith, slept_requests d w')
  Spends-Leaves st w (looping, st', w') s h = omega arith

pub preflight_trace : (c : Setup) (w : World) → (preflight c w).1.trace ≡ w.trace
unfolding preflight
preflight_trace c w = ground arith

requests-do_with :
    (l : ℕ) (c : Setup) (again : Relogin) (r : DoRequest)
    → (r.hints.no_auto_relogin ≡ false
        → (w : World) (e p : Text) → requests (again e p w).1.trace ≤ requests w.trace + l)
    → (w : World)
    → requests (do_with c again r w).1.trace ≤ requests w.trace + cost_left l c r fresh + 1
requests-do_with l c again r h w =
    let bound = requests w.trace + cost_left l c r fresh + 1 in
    do_with_rule c again r (Afford l c r bound) (Spent l c r bound) (λ st v e p. omega arith)
      (λ st v p. omega arith)
      (λ body _ st v p.
        Spends-Leaves l c r bound st (exchanged c r body v) (attempt c again r body st v)
          (unfold attempt in
            evaluate-Spends l c r (request_url c r) st (exchanged c r body v) again
              (c.reply v.tick (raw_request c r body)) (λ a. h a (exchanged c r body v)))
          (omega arith))
      w (omega (arith, ap requests (preflight_trace c w)))

accept_login_trace :
    (c : Setup) (email password : Text) (resp : RawResponse) (w : World)
    → (accept_login c email password resp w).1.trace ≡ w.trace
unfolding accept_login
accept_login_trace c email password resp w = ground arith

pub accepted_requests :
    (c : Setup) (email password : Text) (m : Final)
    → (continue m (accept_login c email password)).1.trace ≡ m.1.trace
accepted_requests c email password (ok resp, w) = accept_login_trace c email password resp w
accepted_requests c email password (err e, w) = refl
accepted_requests c email password (diverged, w) = refl

-- A call of Login sends at most one request more than there are retries.
pub requests-login :
    (c : Setup) (email password : Text) (w : World)
    → requests (login c email password w).1.trace ≤ requests w.trace + pos_part c.max_retries + 1
unfolding login
requests-login c email password w =
    if_elim
      (λ (m : M Session). requests (m w).1.trace ≤ requests w.trace + pos_part c.max_retries + 1)
      (is_empty email || is_empty password) _ _ (λ _. omega arith)
      λ _.
        let sent_by = do_with c no_relogin (login_request email password) w in
        omega (
          arith,
          ap requests (accepted_requests c email password sent_by),
          requests-do_with 0 c no_relogin (login_request email password) (λ f. cc) w,
        )

pub relogin_trace :
    (c : Setup) (email password : Text) (w : World)
    → (relogin c email password w).1.trace ≡ (login c email password w).1.trace
unfolding relogin
relogin_trace c email password w = kept (login c email password w)
  where
    kept : (m : Outcome Session × World) → (continue m (λ _ v. (ok tt, v))).1.trace ≡ m.1.trace
    kept (ok _, v) = refl
    kept (err e, v) = refl
    kept (diverged, v) = refl

requests-relogin :
    (c : Setup) (w : World) (email password : Text)
    → requests (relogin c email password w).1.trace
      ≤ requests w.trace + (pos_part c.max_retries + 1)
requests-relogin c w email password =
    omega (arith, ap requests (relogin_trace c email password w), requests-login c email password w)

-- A call of do sends at most one request, one for each error retry, one for each long-poll tick if
-- the endpoint long-polls at all, and, unless the endpoint rules a re-login out, one more after
-- the single re-login together with the requests of that login.
pub requests-perform :
    (c : Setup) (r : DoRequest) (w : World)
    → requests (perform c r w).1.trace
      ≤ requests w.trace
        + (polls_left c r 0
            + pos_part c.max_retries
            + relogins_left r false * (pos_part c.max_retries + 2)
            + 1)
unfolding perform
requests-perform c r w = omega (
  arith,
  requests-do_with (pos_part c.max_retries + 1) c (relogin c) r (λ _. requests-relogin c) w,
)
