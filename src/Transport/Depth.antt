-- ===== src/Transport/Depth.antt =====
-- The recursion of do through Login.
use brainapi_go_sdk.Prelude.{
  fun_ext, codes, ◌||◌, is_empty, if◌then◌else◌, ℕ, zero, suc, true, ◌≡◌, refl, ap, Text,
}
use brainapi_go_sdk.Client.{preflight, Setup}
use brainapi_go_sdk.Transport.Request.{body_bytes, DoRequest}
use brainapi_go_sdk.Transport.Decision.{RetryState, Relogin}
use brainapi_go_sdk.Transport.Evaluate.{on_status, on_unauthorized, evaluate}
use brainapi_go_sdk.Transport.Perform.{
  fresh, rounds_left, with_body, proceed, attempt, unless_done, do_loop, do_with,
}
use brainapi_go_sdk.World.{World}
use brainapi_go_sdk.Types.{RawResponse}
use brainapi_go_sdk.Runtime.{response, failure, Reply}
use brainapi_go_sdk.Transport.Login.{no_relogin, login_request, accept_login, login_with, login}
use brainapi_go_sdk.World.Monad.{◌>>=◌, fail, M, continue}
use brainapi_go_sdk.Errors.{err_invalid_argument, wrapped}

module _ (c : Setup) (r : DoRequest) (quiet : r.hints.no_auto_relogin ≡ true) (f g : Relogin) where
  unauthorized_same :
      (url : Text) (st : RetryState) (resp : RawResponse) (w : World)
      → on_unauthorized c r url st f resp w ≡ on_unauthorized c r url st g resp w
  unfolding on_unauthorized
  unauthorized_same url st resp w = rw quiet

  evaluate_same :
      (url : Text) (st : RetryState) (reply : Reply) (w : World)
      → evaluate c r url st f reply w ≡ evaluate c r url st g reply w
  unfolding evaluate on_status
  evaluate_same url st (failure e) w = refl
  evaluate_same url st (response resp) w = rw (unauthorized_same url st resp w)

  attempt_same :
      (body : Text) (st : RetryState) (w : World)
      → attempt c f r body st w ≡ attempt c g r body st w
  unfolding attempt
  attempt_same body st w = evaluate_same _ st _ _

  do_loop_same :
      (body : Text) (fuel : ℕ) (st : RetryState) (w : World)
      → do_loop c f r body fuel st w ≡ do_loop c g r body fuel st w
  unfolding do_loop
  do_loop_same body zero st w = refl
  do_loop_same body (suc fuel) st w = λ i.
      unless_done (c.ctx_err w.tick) w
        (λ v. proceed c (λ st' u. do_loop_same body fuel st' u i) (attempt_same body st v i))

  -- With noAutoRelogin the login that do is given is never called: any two give the same result.
  pub do_with_same : (w : World) → do_with c f r w ≡ do_with c g r w
  unfolding do_with
  do_with_same w = λ i. continue (preflight c w) λ _ v.
      with_body (body_bytes c r) v
        (λ body u. do_loop_same body (suc (rounds_left c r fresh)) fresh u i)

-- Login makes no call of itself: whatever a re-login within it would do, its result is the same,
-- so the recursion between do and Login ends one level down.
pub login_depth :
    (c : Setup) (again : Relogin) (email password : Text) (w : World)
    → login_with c again email password w ≡ login c email password w
unfolding login
login_depth c again email password w =
    ap
      (λ (m : M RawResponse).
        (if is_empty email || is_empty password
            then fail (wrapped (codes "email and password required") err_invalid_argument)
            else m >>= accept_login c email password)
          w)
      (fun_ext (do_with_same c (login_request email password) refl again no_relogin))
