-- ===== src/Transport/Rounds.antt =====
-- The rounds that the loop of Client.do has left, after each case of evaluate.
use brainapi_go_sdk.Prelude.{
  ℕ, zero, suc, ◌+◌, ◌≤◌, ◌<◌, ◌≡◌, true, false, Option, none, some, Text, ℤ, ◌||◌, arith,
}
use brainapi_go_sdk.Types.{RawResponse}
use brainapi_go_sdk.Errors.{Error}
use brainapi_go_sdk.Runtime.{Reply}
use brainapi_go_sdk.World.{World}
use brainapi_go_sdk.World.Monad.{M, Outcome, Halts, Halts-continue}
use brainapi_go_sdk.Client.{Setup, preflight}
use brainapi_go_sdk.Transport.Request.{DoRequest}
use brainapi_go_sdk.Transport.Decision.{
  terminal_ok, terminal_err, retry_in, looping, RetryState, Evaluated, Relogin,
}
use brainapi_go_sdk.Transport.Evaluate.{
  evaluate, on_transport_error, on_success, on_long_poll, on_unauthorized, on_forbidden,
  on_rate_limited, on_server_error,
}
use brainapi_go_sdk.Transport.Perform.{
  proceed, unless_done, with_body, attempt, do_loop, do_with, rounds_left, fresh,
}
use brainapi_go_sdk.Transport.Cases.{evaluate_cases}

-- A retry leaves fewer rounds, and nothing but a login that diverges makes the decision `looping`.
abbrev Falls : Setup → DoRequest → RetryState → Evaluated → Type 0
Falls c r st (terminal_ok resp, st', w) = Unit {0}
Falls c r st (terminal_err resp e, st', w) = Unit {0}
Falls c r st (retry_in d, st', w) = rounds_left c r st' + 1 ≤ rounds_left c r st
Falls c r st (looping, st', w) = ⊥

module _ (c : Setup) (r : DoRequest) (url : Text) (st : RetryState) where
  transport_error-Falls : (e : Error) (w : World) → Falls c r st (on_transport_error c r url st e w)
  unfolding on_transport_error
  transport_error-Falls e w = ground arith

  long_poll-Falls :
      (d : ℤ) (w : World)
      → (r.hints.long_poll503 || r.hints.long_poll200_empty) ≡ true
      → Falls c r st (on_long_poll c r url st d w)
  unfolding on_long_poll
  long_poll-Falls d w h = ground arith

  success-Falls : (resp : RawResponse) (w : World) → Falls c r st (on_success c r url st resp w)
  unfolding on_success
  success-Falls resp w = ground arith

  unauthorized-Falls :
      (relogin : Relogin) (resp : RawResponse) (w : World)
      → (r.hints.no_auto_relogin ≡ false → (e p : Text) (v : World) → Halts (relogin e p v))
      → Falls c r st (on_unauthorized c r url st relogin resp w)
  unfolding on_unauthorized
  unauthorized-Falls relogin resp w h =
      ground (arith, λ (q : r.hints.no_auto_relogin ≡ false). h q w.state.email w.state.password w)

  forbidden-Falls : (resp : RawResponse) (w : World) → Falls c r st (on_forbidden c r url st resp w)
  unfolding on_forbidden
  forbidden-Falls resp w = ground arith

  rate_limited-Falls :
      (resp : RawResponse) (w : World) → Falls c r st (on_rate_limited c r url st resp w)
  unfolding on_rate_limited
  rate_limited-Falls resp w = ground arith

  server_error-Falls :
      (resp : RawResponse) (w : World) → Falls c r st (on_server_error c r url st resp w)
  unfolding on_server_error
  server_error-Falls resp w = ground arith

  -- The whole policy.
  evaluate-Falls :
      (relogin : Relogin) (reply : Reply) (w : World)
      → (r.hints.no_auto_relogin ≡ false → (e p : Text) (v : World) → Halts (relogin e p v))
      → Falls c r st (evaluate c r url st relogin reply w)
  evaluate-Falls relogin reply w h =
      evaluate_cases c r url st w (Falls c r st)
        (record {
          transport_error = λ e. transport_error-Falls e w;
          accepted = λ _ _. tt;
          long_poll = λ d. long_poll-Falls d w;
          unauthorized = λ resp. unauthorized-Falls relogin resp w h;
          forbidden = λ resp _. forbidden-Falls resp w;
          limited = λ resp. rate_limited-Falls resp w;
          server_error = λ resp. server_error-Falls resp w;
          client_error = λ _ _. tt;
        })
        reply

module _ (c : Setup) (r : DoRequest) where
  unless_done-Halts :
      (o : Option Error) (w : World) (next : World → Outcome RawResponse × World)
      → ((v : World) → Halts (next v))
      → Halts (unless_done o w next)
  unless_done-Halts (some e) w next h = tt
  unless_done-Halts none w next h = h w

  proceed-Halts :
      (again : RetryState → World → Outcome RawResponse × World) (st : RetryState) (a : Evaluated)
      → Falls c r st a
      → ((st' : RetryState) (v : World)
          → rounds_left c r st' + 1 ≤ rounds_left c r st
          → Halts (again st' v))
      → Halts (proceed c again a)
  unfolding proceed
  proceed-Halts again st (terminal_ok resp, st', w) f h = tt
  proceed-Halts again st (terminal_err resp e, st', w) f h = tt
  proceed-Halts again st (retry_in d, st', w) f h =
      unless_done-Halts _ _ (again st') (λ v. h st' v f)
  proceed-Halts again st (looping, st', w) f h = f

  module _ (relogin : Relogin) (body : Text)
      (logins : r.hints.no_auto_relogin ≡ false
        → (e p : Text) (v : World) → Halts (relogin e p v)) where
    do_loop-Halts :
        (fuel : ℕ) (st : RetryState) (w : World)
        → rounds_left c r st < fuel
        → Halts (do_loop c relogin r body fuel st w)
    unfolding do_loop
    do_loop-Halts zero st w m = absurd (omega arith)
    do_loop-Halts (suc fuel) st w m = unless_done-Halts _ _ _ λ v.
        proceed-Halts (do_loop c relogin r body fuel) st (attempt c relogin r body st v)
          (unfold attempt in evaluate-Falls c r _ st relogin _ _ logins)
          (λ st' u k. do_loop-Halts fuel st' u (omega arith))

  with_body-Halts :
      (o : Option Text) (w : World) (send : Text → M RawResponse)
      → ((body : Text) (v : World) → Halts (send body v))
      → Halts (with_body o w send)
  with_body-Halts none w send h = tt
  with_body-Halts (some body) w send h = h body w

  preflight-Halts : (w : World) → Halts (preflight c w)
  unfolding preflight
  preflight-Halts w = ground arith

  -- With a login that ends, so does do.
  pub do_with-Halts :
      (relogin : Relogin)
      → (r.hints.no_auto_relogin ≡ false → (e p : Text) (v : World) → Halts (relogin e p v))
      → (w : World) → Halts (do_with c relogin r w)
  unfolding do_with
  do_with-Halts relogin logins w = Halts-continue _ _ (preflight-Halts w) λ _ v.
      with_body-Halts _ v _ λ body u.
        do_loop-Halts relogin body logins (suc (rounds_left c r fresh)) fresh u (omega arith)
